-- ===== src/Scheduler/Refresh.antt =====
-- What `refresh` of internal/scheduler/scheduler.go makes of the schedule.
use marchi.Prelude.{
  ℕ, ◌≡◌, ◌≢◌, refl, ◌↔◌, inl, inr, Bool, true, false, String, Option, none, some, List, [], ◌∷◌,
  arith, ◌==◌, if◌then◌else◌, str_eq, Bool-cases, Option-cases, ap, ◌∙◌, sym, subst, Some, All,
}
use marchi.Scheduler.{
  sync_account, run_retention, CronLib, Account, Scheduler, wanted, is_wanted, reconcile, prune,
  refresh,
}
use marchi.Scheduler.Linked.{Linked, spec_of, if_valid}
use marchi.Scheduler.Loops.{
  goal, left, reconcile-Turns, prune-Turns, left_wanted, left_none, left_gone, goal_wanted,
  goal_unwanted,
}

-- Account ids are a key.
abbrev pub Distinct : List Account → Type 0
Distinct [] = Unit
Distinct (x ∷ xs) = All (λ y. y.id ≢ x.id) xs × Distinct xs

abbrev pub expression : String → Account → String
expression default_schedule x = if str_eq x.sync_cron "" then default_schedule else x.sync_cron

module _ (lib : CronLib) (default_schedule : String) where
  -- The account is active, and its expression, or the default where it has none, parses.
  abbrev pub Wants : ℕ → String → Account → Type 0
  Wants a spec x =
      (x.id ≡ a)
      × (x.is_active ≡ true)
      × (expression default_schedule x ≡ spec)
      × (lib.valid spec ≡ true)

  wanted_active :
      (x : Account) (xs : List Account)
      → x.is_active ≡ true
      → wanted lib default_schedule (x ∷ xs)
        ≡ (x.id, expression default_schedule x) ∷ wanted lib default_schedule xs
  unfolding wanted
  wanted_active x xs q = ground arith

  wanted_idle :
      (x : Account) (xs : List Account)
      → x.is_active ≡ false
      → wanted lib default_schedule (x ∷ xs) ≡ wanted lib default_schedule xs
  unfolding wanted
  wanted_idle x xs q = ground arith

  abbrev goal_of : List Account → ℕ → Option String → Option String
  goal_of xs = goal lib (wanted lib default_schedule xs)

  goal_active :
      (x : Account) (xs : List Account) (a : ℕ) (old : Option String)
      → x.is_active ≡ true
      → goal_of (x ∷ xs) a old
        ≡ goal_of xs a (if x.id == a then if_valid lib (expression default_schedule x) else old)
  goal_active x xs a old q = ap (λ (w : List (ℕ × String)). goal lib w a old) (wanted_active x xs q)

  goal_idle :
      (x : Account) (xs : List Account) (a : ℕ) (old : Option String)
      → x.is_active ≡ false
      → goal_of (x ∷ xs) a old ≡ goal_of xs a old
  goal_idle x xs a old q = ap (λ (w : List (ℕ × String)). goal lib w a old) (wanted_idle x xs q)

  goal_absent :
      (xs : List Account) (a : ℕ) (old : Option String)
      → All (λ y. y.id ≢ a) xs
      → goal_of xs a old ≡ old
  unfolding wanted
  goal_absent [] a old h = refl
  goal_absent (x ∷ xs) a old h = elim (Bool-cases x.is_active) [
    | inl q ↦
        let n : (x.id == a) ≡ false = ground (arith, h.0) in
        goal_active x xs a old q ∙ rw n (goal_absent xs a old h.1)
    | inr q ↦ goal_idle x xs a old q ∙ goal_absent xs a old h.1
  ]

  not_among :
      (xs : List Account) (a : ℕ) (spec : String)
      → All (λ y. y.id ≢ a) xs
      → Some (Wants a spec) xs
      → ⊥
  not_among [] a spec h m = m
  not_among (x ∷ xs) a spec h (inl w) = h.0 w.0
  not_among (x ∷ xs) a spec h (inr m) = not_among xs a spec h.1 m

  goal_here :
      (x : Account) (xs : List Account) (a : ℕ)
      → (x.id == a) ≡ true
      → All (λ y. y.id ≢ a) xs
      → goal_of (x ∷ xs) a none
        ≡ (if x.is_active then if_valid lib (expression default_schedule x) else none)
  goal_here x xs a e h = elim (Bool-cases x.is_active) [
    | inl q ↦ goal_active x xs a none q ∙ rw (e, q) (goal_absent xs a _ h)
    | inr q ↦ goal_idle x xs a none q ∙ rw q (goal_absent xs a none h)
  ]

  goal_there :
      (x : Account) (xs : List Account) (a : ℕ)
      → (x.id == a) ≡ false
      → goal_of (x ∷ xs) a none ≡ goal_of xs a none
  goal_there x xs a n = elim (Bool-cases x.is_active) [
    | inl q ↦ goal_active x xs a none q ∙ rw n refl
    | inr q ↦ goal_idle x xs a none q
  ]

  chosen :
      (active : Bool) (e spec : String)
      → ((if active then if_valid lib e else none) ≡ some spec)
        ↔ ((active ≡ true) × (e ≡ spec) × (lib.valid spec ≡ true))
  chosen false e spec = (λ h. ground arith, λ h. ground arith)
  chosen true e spec = elim (Bool-cases (lib.valid e)) [
    | inl v ↦ rw v (
      λ h. (refl, ground arith, let q : e ≡ spec = ground arith in ap lib.valid (sym q) ∙ v),
      λ h. ap some h.1,
    )
    | inr v ↦ rw v (λ h. ground arith, λ h. let q = ap lib.valid h.1 in absurd (ground arith))
  ]

  goal_iff :
      (xs : List Account) (a : ℕ) (spec : String)
      → Distinct xs
      → (goal_of xs a none ≡ some spec) ↔ Some (Wants a spec) xs
  unfolding wanted
  goal_iff [] a spec d = (λ h. ground arith, λ h. absurd h)
  goal_iff (x ∷ xs) a spec d = elim (Bool-cases (x.id == a)) [
    | inl q ↦
        let r : x.id ≡ a = ground arith in
        let h = subst (λ k. All (λ y. y.id ≢ k) xs) r d.0 in
        let e = goal_here x xs a q h in
        (
          λ k.
              let c = (chosen x.is_active (expression default_schedule x) spec).0 (sym e ∙ k) in
              inl (r, c.0, c.1, c.2),
          λ m. elim m [
            | inl w ↦
                e ∙ (chosen x.is_active (expression default_schedule x) spec).1 (w.1, w.2, w.3)
            | inr n ↦ absurd (not_among xs a spec h n)
          ],
        )
    | inr q ↦
        let e = goal_there x xs a q in
        let ih = goal_iff xs a spec d.1 in
        (
          λ k. inr (ih.0 (sym e ∙ k)),
          λ m. elim m [ inl w ↦ absurd (ground arith) | inr n ↦ e ∙ ih.1 n ],
        )
  ]

  -- After the two loops an account has the entry that it should have.
  looped_specs :
      (want : List (ℕ × String)) (s : Scheduler lib) (a : ℕ)
      → Linked lib s
      → let t = reconcile lib want s in
        spec_of lib (prune lib want t.known t) a ≡ goal lib want a none
  looped_specs want s a l =
      let one = reconcile-Turns lib want s l in
      let t = reconcile lib want s in
      let two = prune-Turns lib want t.known t one.linked in
      elim (Bool-cases (is_wanted lib a want)) [
        | inl w ↦
            two.specs a
            ∙ left_wanted lib want t.known a _ w
            ∙ one.specs a
            ∙ goal_wanted lib want a _ w
        | inr w ↦ elim (Option-cases (t.entries a)) [
          | inl h ↦
              two.specs a
              ∙ ap (left lib want t.known a) (ground arith)
              ∙ left_none lib want t.known a
              ∙ sym (goal_unwanted lib want a none w)
          | inr (e, h) ↦
              two.specs a
              ∙ left_gone lib want t.known a _ w (one.linked.listed a e h)
              ∙ sym (goal_unwanted lib want a none w)
        ]
      ]

  job_iff :
      (t : Scheduler lib) (a : ℕ) (spec : String)
      → Linked lib t
      → (spec_of lib t a ≡ some spec)
        ↔ ((i : ℕ) × (lib.entry t.cron i ≡ some (spec, sync_account a)))
  job_iff t a spec l = (
    λ h. elim (Option-cases (t.entries a)) [
      | inl n ↦ absurd (ground arith)
      | inr (e, k) ↦
          let q : e.spec ≡ spec = ground arith in
          (e.entry_id, l.forward a e k ∙ ap (λ (x : String). some (x, sync_account a)) q)
    ],
    λ h. ground (arith, l.backward a h.0 spec h.1),
  )

  -- A refresh that lists the accounts brings the cron to what the accounts ask for, whatever was
  -- scheduled before: it has a job that syncs an account under an expression exactly when the
  -- account is active and that is its expression, or the default where it has none, and parses. An
  -- account never has two jobs, since each is the one that the map names. The retention's jobs stay
  -- as they were.
  pub refresh-schedules :
      (has_notifier : Bool) (free : Option ℕ) (accounts : List Account) (s : Scheduler lib)
      (a j : ℕ) (spec : String)
      → Linked lib s
      → Distinct accounts
      → let t = (refresh lib has_notifier free default_schedule (some accounts) s).1 in
        Linked lib t
        × (((i : ℕ) × (lib.entry t.cron i ≡ some (spec, sync_account a)))
            ↔ Some (Wants a spec) accounts)
        × ((lib.entry t.cron j ≡ some (spec, run_retention))
            ↔ (lib.entry s.cron j ≡ some (spec, run_retention)))
  unfolding refresh
  refresh-schedules has_notifier free accounts s a j spec l d =
      let want = wanted lib default_schedule accounts in
      let one = reconcile-Turns lib want s l in
      let two = prune-Turns lib want _ (reconcile lib want s) one.linked in
      let specs = looped_specs want s a l in
      let goals = goal_iff accounts a spec d in
      let jobs = job_iff _ a spec two.linked in
      (
        two.linked,
        (λ h. goals.0 (sym specs ∙ jobs.1 h), λ h. jobs.0 (specs ∙ goals.1 h)),
        (
          λ h. (one.retention j spec).0 ((two.retention j spec).0 h),
          λ h. (two.retention j spec).1 ((one.retention j spec).1 h),
        ),
      )
