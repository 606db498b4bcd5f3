-- ===== src/Notify/Thinning.antt =====
-- What the throttle of internal/notify/throttle.go lets through to a channel, key by key.
use marchi.Prelude.{
  ◌++◌, ℕ, String, ◌+◌, ◌≤◌, ◌≡◌, refl, inl, inr, Bool, true, false, ◌&&◌, Option, none, some, List,
  [], ◌∷◌, map, keep, arith, ltb, leb, ◌==◌, if◌then◌else◌, str_eq, eq_iff, Bool-cases, ap, ◌∙◌,
  sym, subst, All,
}
use mathlib.Core.List.{append-nil, append_assoc}
use marchi.Prelude.Dict.{lookup, lookup-insert, lookup-empty}
use marchi.Notify.{
  Event, Attempt, Outbox, Throttled, throttle, key_of, is_recent, try, notify_all, notify,
  notify_each,
}

abbrev pub of_key : String → List (ℕ × Event) → List ℕ
of_key k [] = []
of_key k ((now, e) ∷ rest) = if str_eq (key_of e) k then now ∷ of_key k rest else of_key k rest

-- A filter on the instants of one key: the first goes through, then each that comes at least the
-- cooldown after the last one that went through.
abbrev pub thin : ℕ → Option ℕ → List ℕ → List ℕ
thin cooldown last [] = []
thin cooldown none (now ∷ rest) = now ∷ thin cooldown (some now) rest
thin cooldown (some last) (now ∷ rest) =
    let skipped = thin cooldown (some last) rest in
    let taken = thin cooldown (some now) rest in
    if leb (last + cooldown) now then now ∷ taken else skipped

-- The throttle decides by whether the event is recent.
thin_recent :
    (cooldown now : ℕ) (last : Option ℕ) (ts : List ℕ)
    → thin cooldown last (now ∷ ts) ≡ (
        if is_recent cooldown now last
        then thin cooldown last ts
        else now ∷ thin cooldown (some now) ts)
thin_recent cooldown now none ts = refl
thin_recent cooldown now (some last) ts = elim (Bool-cases (ltb now (last + cooldown))) [
  | inl e ↦ let k : leb (last + cooldown) now ≡ false = ground arith in rw (e, k) refl
  | inr e ↦ let k : leb (last + cooldown) now ≡ true = ground arith in rw (e, k) refl
]

abbrev pub Spaced : ℕ → List ℕ → Type 0
Spaced cooldown [] = Unit
Spaced cooldown (t ∷ ts) = All (λ u. t + cooldown ≤ u) ts × Spaced cooldown ts

-- When a channel was asked to deliver an event of a key.
abbrev pub received : ℕ → String → List Attempt → List ℕ
received c k [] = []
received c k (a ∷ rest) =
    if a.channel == c && str_eq (key_of a.event) k
    then a.at ∷ received c k rest
    else received c k rest

received-append :
    (c : ℕ) (k : String) (xs ys : List Attempt)
    → received c k (xs ++ ys) ≡ received c k xs ++ received c k ys
received-append c k [] ys = refl
received-append c k (x ∷ xs) ys = ground (arith, received-append c k xs ys)

thin-later :
    (cooldown from : ℕ) (ts : List ℕ)
    → (t : ℕ) → t ≤ from
    → All (λ u. t + cooldown ≤ u) (thin cooldown (some from) ts)
thin-later cooldown from [] t h = tt
thin-later cooldown from (now ∷ ts) t h = elim (Bool-cases (leb (from + cooldown) now)) [
  | inl e ↦ rw e (ground arith, thin-later cooldown now ts t (ground arith))
  | inr e ↦ rw e (thin-later cooldown from ts t h)
]

thin-Spaced :
    (cooldown : ℕ) (last : Option ℕ) (ts : List ℕ) → Spaced cooldown (thin cooldown last ts)
thin-Spaced cooldown last [] = tt
thin-Spaced cooldown none (now ∷ ts) =
    (thin-later cooldown now ts now (omega arith), thin-Spaced cooldown (some now) ts)
thin-Spaced cooldown (some last) (now ∷ ts) = elim (Bool-cases (leb (last + cooldown) now)) [
  | inl e ↦ rw e (thin-later cooldown now ts now (omega arith), thin-Spaced cooldown (some now) ts)
  | inr e ↦ rw e (thin-Spaced cooldown (some last) ts)
]

module _ (down : Attempt → Bool) where
  -- How often the event is asked of channel `c`.
  abbrev asked : ℕ → ℕ → List ℕ → List ℕ
  asked c now cs = map (λ d. now) (keep (λ d. d == c) cs)

  asked_one :
      (c now : ℕ) (k : String) (e : Event) (d : ℕ) (cs : List ℕ)
      → received c k (record { channel = d; at = now; event = e } ∷ [])
          ++ (if str_eq (key_of e) k then asked c now cs else [])
        ≡ (if str_eq (key_of e) k then asked c now (d ∷ cs) else [])
  asked_one c now k e d cs = elim (Bool-cases (str_eq (key_of e) k)) [
    | inl h ↦ elim (Bool-cases (d == c)) [ inl g ↦ rw (h, g) refl | inr g ↦ rw (h, g) refl ]
    | inr h ↦ elim (Bool-cases (d == c)) [ inl g ↦ rw (h, g) refl | inr g ↦ rw (h, g) refl ]
  ]

  notify_all-received :
      (c now : ℕ) (k : String) (e : Event) (cs : List ℕ) (o : Outbox)
      → received c k (notify_all down cs now e o).attempts
        ≡ received c k o.attempts ++ (if str_eq (key_of e) k then asked c now cs else [])
  unfolding notify_all
  notify_all-received c now k e [] o = elim (Bool-cases (str_eq (key_of e) k)) [
    | inl h ↦ rw h (sym (append-nil _))
    | inr h ↦ rw h (sym (append-nil _))
  ]
  notify_all-received c now k e (d ∷ cs) o =
      let a : Attempt = record { channel = d; at = now; event = e } in
      notify_all-received c now k e cs (try down a o)
      ∙ ap (λ (l : List ℕ). l ++ (if str_eq (key_of e) k then asked c now cs else []))
          (received-append c k o.attempts (a ∷ []))
      ∙ append_assoc (received c k o.attempts) _ _
      ∙ ap (λ (l : List ℕ). received c k o.attempts ++ l) (asked_one c now k e d cs)

module _ (down : Attempt → Bool) (channels : List ℕ) (cooldown : ℕ) where
  -- The channel is configured, once.
  abbrev pub IsOnce : ℕ → Type 0
  IsOnce c = keep (λ d. d == c) channels ≡ c ∷ []

  -- What goes to the channel for the event's key, where the event goes through.
  sent :
      (c now : ℕ) (e : Event) (t : Throttled)
      → IsOnce c
      → received c (key_of e) (notify_all down channels now e t.outbox).attempts
        ≡ received c (key_of e) t.outbox.attempts ++ now ∷ []
  sent c now e t h =
      notify_all-received down c now (key_of e) e channels t.outbox
      ∙ rw ((eq_iff (key_of e) (key_of e)).1 refl)
          (ap (λ (l : List ℕ). received c (key_of e) t.outbox.attempts ++ map (λ (d : ℕ). now) l) h)

  not_sent :
      (c now : ℕ) (k : String) (e : Event) (t : Throttled)
      → str_eq (key_of e) k ≡ false
      → received c k (notify_all down channels now e t.outbox).attempts
        ≡ received c k t.outbox.attempts
  not_sent c now k e t h =
      notify_all-received down c now k e channels t.outbox ∙ rw h (append-nil _)

  same_key :
      (c now : ℕ) (e : Event) (ts : List ℕ) (t : Throttled)
      → IsOnce c
      → received c (key_of e) (notify down channels cooldown now e t).outbox.attempts
          ++ thin cooldown (lookup (key_of e) (notify down channels cooldown now e t).last) ts
        ≡ received c (key_of e) t.outbox.attempts
          ++ thin cooldown (lookup (key_of e) t.last) (now ∷ ts)
  unfolding notify
  same_key c now e ts t h = elim (Bool-cases (is_recent cooldown now (lookup (key_of e) t.last))) [
    | inl r ↦ simp (r, thin_recent)
    | inr r ↦ simp (
      r,
      thin_recent,
      lookup-insert,
      (eq_iff (key_of e) (key_of e)).1 refl,
      sent c now e t h,
      append_assoc,
    )
  ]

  other_key :
      (c now : ℕ) (k : String) (e : Event) (ts : List ℕ) (t : Throttled)
      → str_eq (key_of e) k ≡ false
      → received c k (notify down channels cooldown now e t).outbox.attempts
          ++ thin cooldown (lookup k (notify down channels cooldown now e t).last) ts
        ≡ received c k t.outbox.attempts ++ thin cooldown (lookup k t.last) ts
  unfolding notify
  other_key c now k e ts t h =
      elim (Bool-cases (is_recent cooldown now (lookup (key_of e) t.last))) [
        | inl r ↦ simp r
        | inr r ↦ simp (r, lookup-insert, h, not_sent c now k e t h)
      ]

  notify_each-thin :
      (c : ℕ) (k : String) (events : List (ℕ × Event)) (t : Throttled)
      → IsOnce c
      → received c k (notify_each down channels cooldown events t).outbox.attempts
        ≡ received c k t.outbox.attempts ++ thin cooldown (lookup k t.last) (of_key k events)
  unfolding notify_each
  notify_each-thin c k [] t h = sym (append-nil _)
  notify_each-thin c k ((now, e) ∷ rest) t h =
      let ih = notify_each-thin c k rest (notify down channels cooldown now e t) h in
      elim (Bool-cases (str_eq (key_of e) k)) [
        | inl m ↦
            let q = (eq_iff (key_of e) k).0 m in
            ih
            ∙ subst
                (λ (j : String).
                  received c j (notify down channels cooldown now e t).outbox.attempts
                    ++ thin cooldown (lookup j (notify down channels cooldown now e t).last)
                        (of_key k rest)
                  ≡ received c j t.outbox.attempts
                    ++ thin cooldown (lookup j t.last) (now ∷ of_key k rest))
                q (same_key c now e (of_key k rest) t h)
            ∙ rw m refl
        | inr m ↦ ih ∙ other_key c now k e (of_key k rest) t m ∙ rw m refl
      ]

  -- Each configured channel is asked to deliver the events of a key (the kind with the account, if
  -- there is one) exactly as a filter decides that looks at the events of that key alone: the first
  -- goes through, and then each that comes at least the cooldown after the last one that did. So any
  -- two that a channel is asked for lie at least the cooldown apart. It makes no difference which
  -- deliveries fail, on this channel or another.
  pub notify_each-received :
      (c : ℕ) (k : String) (events : List (ℕ × Event))
      → IsOnce c
      → let asks =
          received c k (notify_each down channels cooldown events throttle).outbox.attempts in
        (asks ≡ thin cooldown none (of_key k events)) × Spaced cooldown asks
  notify_each-received c k events h =
      let e = notify_each-thin c k events throttle h in
      let p = e ∙ ap (λ (l : Option ℕ). thin cooldown l (of_key k events)) (lookup-empty k) in
      (p, subst (Spaced cooldown) (sym p) (thin-Spaced cooldown none (of_key k events)))
