-- ===== src/Gmail/Trace.antt =====
-- The batch of `SyncAccountGmailAPI` of internal/sync/gmailapi_sync.go as the sequence of what its
-- messages did.
use marchi.Prelude.{
  String, ◌≡◌, refl, ◌⊎◌, inl, inr, Bool, true, Option, none, some, List, [], ◌∷◌, arith,
  Bool-cases, ap, sym, ◌∙◌, subst, Some, All,
}
use marchi.Rules.Node.{Rule}
use marchi.Rules.Parse.{GoLib}
use marchi.Sync.Message.{Parsed}
use marchi.Sync.Archive.{Archive, Faults, Target}
use marchi.Sync.Fetch.{is_skip, action_of}
use marchi.Sync.Effect.{Grows, Grows-refl, Grows-trans, Copied-Grows}
use marchi.Gmail.Server.{Gmail, RawAnswer, not_fetched, undecodable, raw}
use marchi.Gmail.Sync.{
  Batch, GmailError, matched_rule, count_one, matching, process_raw, process_ids,
}
use marchi.Gmail.Effects.{Stored, Halts, Dispatches, halted, passed, dispatch-Dispatches}

pub Stored-Grows :
    (t : Target) (p : Parsed) (a b : Archive) → Grows a b → Stored t p a → Stored t p b
Stored-Grows t p a b g (uid, c) = (uid, Copied-Grows t uid p a b g c)

module _ (lib : GoLib) (g : Gmail) (faults : Faults) (checking : String → Bool) (t : Target)
    (rules : List Rule) where
  abbrev pub rule_for : Parsed → Option Rule
  rule_for = matched_rule lib g faults checking t rules

  -- Gmail has given the message, and a rule says to skip it or the archive has it.
  pub record Accounted (id : String) (a : Archive) : Type 0 where
    pub labels : List String
    pub parsed : Parsed
    pub given : g.get_message_raw id ≡ raw labels parsed
    pub fate : (is_skip (action_of (rule_for parsed)) ≡ true) ⊎ Stored t parsed a

  -- ... and the archive has it.
  pub record HasCopy (id : String) (a : Archive) : Type 0 where
    pub labels : List String
    pub parsed : Parsed
    pub given : g.get_message_raw id ≡ raw labels parsed
    pub copy : Stored t parsed a

  Accounted-Grows : (id : String) (a b : Archive) → Grows a b → Accounted id a → Accounted id b
  Accounted-Grows id a b grow h = record {
    labels = h.labels;
    parsed = h.parsed;
    given = h.given;
    fate = elim h.fate [ inl s ↦ inl s | inr s ↦ inr (Stored-Grows t h.parsed a b grow s) ];
  }

  HasCopy-Grows : (id : String) (a b : Archive) → Grows a b → HasCopy id a → HasCopy id b
  HasCopy-Grows id a b grow h = record {
    labels = h.labels;
    parsed = h.parsed;
    given = h.given;
    copy = Stored-Grows t h.parsed a b grow h.copy;
  }

  -- The batch went on behind the message.
  pub record Goes (id : String) (b b' : Batch) : Type 0 where
    pub grows : Grows b.store b'.store
    pub fate : Accounted id b'.store
    pub gone : (b'.trashed ≡ b.trashed) ⊎ ((b'.trashed ≡ id ∷ b.trashed) × HasCopy id b'.store)

  pub data Turn (id : String) (b : Batch) : Option GmailError × Batch → Type 0 where
    halts : (e : GmailError) {b' : Batch} → Halts b b' → Turn id b (some e, b')
    goes : {b' : Batch} → Goes id b b' → Turn id b (none, b')

  Dispatches-Turn :
      (id : String) (labels : List String) (p : Parsed) (b c : Batch)
      (r : Option GmailError × Batch)
      → g.get_message_raw id ≡ raw labels p
      → c.store ≡ b.store
      → c.trashed ≡ b.trashed
      → Dispatches t (action_of (rule_for p)) id p c r
      → Turn id b r
  Dispatches-Turn id labels p b c _ e s k (halted f {b'} h) =
      halts f (record { grows = subst (λ x. Grows x b'.store) s h.grows; gone = h.gone ∙ k })
  Dispatches-Turn id labels p b c _ e s k (passed {b'} h) = goes (record {
    grows = subst (λ x. Grows x b'.store) s h.grows;
    fate = record { labels = labels; parsed = p; given = e; fate = h.fate };
    gone = elim h.gone [
      | inl q ↦ inl (q ∙ k)
      | inr (q, m) ↦ inr (
        q ∙ ap (λ (l : List String). id ∷ l) k,
        record { labels = labels; parsed = p; given = e; copy = m },
      )
    ];
  })

  matching_store :
      (r : Option Rule) (b : Batch) → (matching lib g faults checking t rules r b).store ≡ b.store
  matching_store none b = refl
  matching_store (some r) b = refl

  matching_trashed :
      (r : Option Rule) (b : Batch)
      → (matching lib g faults checking t rules r b).trashed ≡ b.trashed
  matching_trashed none b = refl
  matching_trashed (some r) b = refl

  process_raw-Turn :
      (id : String) (b : Batch) (a : RawAnswer)
      → g.get_message_raw id ≡ a
      → Turn id b (
          process_raw lib g faults checking t rules id a
            (count_one lib g faults checking t rules b))
  process_raw-Turn id b not_fetched e = halts _ (record { grows = Grows-refl b.store; gone = refl })
  process_raw-Turn id b undecodable e = halts _ (record { grows = Grows-refl b.store; gone = refl })
  process_raw-Turn id b (raw labels p) e =
      let c = count_one lib g faults checking t rules b in
      Dispatches-Turn id labels p b (matching lib g faults checking t rules (rule_for p) c) _ e
        (matching_store (rule_for p) c) (matching_trashed (rule_for p) c)
        (dispatch-Dispatches lib g faults checking t rules (action_of (rule_for p)) id labels p _)

  pub data Trace : List String → Batch → Option GmailError × Batch → Type 0 where
    finish : (b : Batch) → Trace [] b (none, b)
    cut :
        (id : String) (ids : List String) {b : Batch} (e : GmailError) (b' : Batch)
        → Halts b b'
        → Trace (id ∷ ids) b (some e, b')
    next :
        (id : String) (ids : List String) {b : Batch} (b' : Batch) {r : Option GmailError × Batch}
        → Goes id b b'
        → Trace ids b' r
        → Trace (id ∷ ids) b r

  continue :
      (id : String) (ids : List String) (b : Batch) (r : Option GmailError × Batch)
      → Turn id b r
      → ((c : Batch) → Trace ids c (process_ids lib g faults checking t rules ids c))
      → Trace (id ∷ ids) b (elim r.0 [
        | some e ↦ (some e, r.1)
        | none ↦ process_ids lib g faults checking t rules ids r.1
      ])
  continue id ids b _ (halts e {b'} h) rest = cut id ids e b' h
  continue id ids b _ (goes {b'} h) rest = next id ids b' h (rest b')

  pub process_ids-Trace :
      (ids : List String) (b : Batch)
      → Trace ids b (process_ids lib g faults checking t rules ids b)
  unfolding process_ids
  process_ids-Trace [] b = finish b
  process_ids-Trace (id ∷ ids) b = elim (Bool-cases (g.stopping_at b.stats.processed)) [
    | inl c ↦
        rw (c, process_ids) (cut id ids _ b (record { grows = Grows-refl b.store; gone = refl }))
    | inr c ↦
        rw (c, process_ids)
          (continue id ids b _ (process_raw-Turn id b _ refl) (process_ids-Trace ids))
  ]

  Trace-Grows :
      {ids : List String} {b : Batch} {r : Option GmailError × Batch}
      → Trace ids b r
      → Grows b.store r.1.store
  Trace-Grows (finish b) = Grows-refl b.store
  Trace-Grows (cut id ids e b' h) = h.grows
  Trace-Grows (next id ids b' h rest) = Grows-trans _ _ _ h.grows (Trace-Grows rest)

  pub Trace-Accounted :
      {ids : List String} {b : Batch} {r : Option GmailError × Batch}
      → Trace ids b r
      → r.0 ≡ none
      → All (λ id. Accounted id r.1.store) ids
  Trace-Accounted (finish b) h = tt
  Trace-Accounted (cut id ids e b' k) h = absurd (ground arith)
  Trace-Accounted (next id ids b' k rest) h =
      (Accounted-Grows id b'.store _ (Trace-Grows rest) k.fate, Trace-Accounted rest h)

  pub Trace-trashed :
      (id : String) {ids : List String} {b : Batch} {r : Option GmailError × Batch}
      → Trace ids b r
      → Some (λ x. x ≡ id) r.1.trashed
      → Some (λ x. x ≡ id) b.trashed ⊎ HasCopy id r.1.store
  Trace-trashed id (finish b) h = inl h
  Trace-trashed id (cut x ids e b' k) h = inl (subst (Some (λ y. y ≡ id)) k.gone h)
  Trace-trashed id {r = r} (next x ids {b} b' k rest) h = elim (Trace-trashed id rest h) [
    | inr later ↦ inr later
    | inl before ↦ elim k.gone [
      | inl e ↦ inl (subst (Some (λ y. y ≡ id)) e before)
      | inr (e, c) ↦ elim (subst (Some (λ y. y ≡ id)) e before) [
        | inl q ↦
            inr
              (subst (λ y. HasCopy y r.1.store) q (HasCopy-Grows x b'.store _ (Trace-Grows rest) c))
        | inr old ↦ inl old
      ]
    ]
  ]

  -- A message that Gmail does not give ends the batch with an error.
  pub Trace-unfetched :
      (id : String) {ids : List String} {b : Batch} {r : Option GmailError × Batch}
      → g.get_message_raw id ≡ not_fetched
      → Some (λ x. x ≡ id) ids
      → Trace ids b r
      → (e : GmailError) × (r.0 ≡ some e)
  Trace-unfetched id u m (finish b) = absurd m
  Trace-unfetched id u m (cut x ids e b' k) = (e, refl)
  Trace-unfetched id u (inl q) (next x ids b' k rest) =
      let f : g.get_message_raw x ≡ not_fetched =
        subst (λ y. g.get_message_raw y ≡ not_fetched) (sym q) u in
      absurd (ground (arith, k.fate.given))
  Trace-unfetched id u (inr m) (next x ids b' k rest) = Trace-unfetched id u m rest
