-- ===== src/Graph/Trace.antt =====
-- The loops of `syncOneMSGraphFolder` of internal/sync/msgraph_sync.go: what has happened to the
-- messages of a folder when they end.
use marchi.Prelude.{
  suc, String, ◌≡◌, refl, ◌⊎◌, inl, inr, Bool, true, false, Option, none, some, List, [], ◌∷◌,
  arith, ap, ◌∙◌, subst, Some, All, if◌then◌else◌,
}
use marchi.Rules.Node.{Rule}
use marchi.Rules.Parse.{GoLib}
use marchi.Sync.Message.{Parsed}
use marchi.Sync.Archive.{Archive, Faults, Target}
use marchi.Sync.Fetch.{is_skip, action_of}
use marchi.Sync.Effect.{Grows, Grows-refl, Grows-trans}
use marchi.Gmail.Sync.{Batch}
use marchi.Gmail.Effects.{Stored, Dispatches, halted, passed}
use marchi.Gmail.Trace.{Stored-Grows}
use marchi.Graph.Server.{Graph, MessageStub}
use marchi.Graph.Sync.{GraphError, cancelled, rule_of, process_body, process_stub, process_stubs}
use marchi.Graph.Effects.{dispatch_stub-Dispatches}

module _ (lib : GoLib) (g : Graph) (faults : Faults) (checking : String → Bool) (t : Target)
    (rules : List Rule) (folder : String) where
  abbrev pub rule_for : Parsed → Option Rule
  rule_for = rule_of lib g faults checking t rules folder

  -- Graph has given the message, and a rule says to skip it or the archive has it.
  pub record Given (id : String) (a : Archive) : Type 0 where
    pub parsed : Parsed
    pub given : g.get_message_raw id ≡ some parsed
    pub fate : (is_skip (action_of (rule_for parsed)) ≡ true) ⊎ Stored t parsed a

  -- The entry stands for a deletion, or the message has been dealt with.
  abbrev pub Dealt : Archive → MessageStub → Type 0
  Dealt a stub = (stub.removed ≡ true) ⊎ Given stub.id a

  -- The archive has the message.
  pub record Saved (id : String) (a : Archive) : Type 0 where
    pub parsed : Parsed
    pub given : g.get_message_raw id ≡ some parsed
    pub copy : Stored t parsed a

  pub Dealt-Grows : (stub : MessageStub) (a b : Archive) → Grows a b → Dealt a stub → Dealt b stub
  Dealt-Grows stub a b grow (inl e) = inl e
  Dealt-Grows stub a b grow (inr h) = inr (record {
    parsed = h.parsed;
    given = h.given;
    fate = elim h.fate [ inl s ↦ inl s | inr s ↦ inr (Stored-Grows t h.parsed a b grow s) ];
  })

  pub Saved-Grows : (id : String) (a b : Archive) → Grows a b → Saved id a → Saved id b
  Saved-Grows id a b grow h = record {
    parsed = h.parsed;
    given = h.given;
    copy = Stored-Grows t h.parsed a b grow h.copy;
  }

  -- From one batch to another nothing leaves the archive, and what is deleted on the server is in
  -- the archive.
  pub record Kept (b b' : Batch) : Type 0 where
    pub grows : Grows b.store b'.store
    pub gone :
        (id : String)
        → Some (λ x. x ≡ id) b'.trashed
        → Some (λ x. x ≡ id) b.trashed ⊎ Saved id b'.store

  pub Kept-refl : (b : Batch) → Kept b b
  Kept-refl b = record { grows = Grows-refl b.store; gone = λ id h. inl h }

  pub Kept-trans : (b c d : Batch) → Kept b c → Kept c d → Kept b d
  Kept-trans b c d h k = record {
    grows = Grows-trans _ _ _ h.grows k.grows;
    gone = λ id m. elim (k.gone id m) [
      | inr s ↦ inr s
      | inl m' ↦ elim (h.gone id m') [
        | inl m'' ↦ inl m''
        | inr s ↦ inr (Saved-Grows id c.store d.store k.grows s)
      ]
    ];
  }

  -- ... and a run without an error has dealt with all of its messages.
  pub record Ends (stubs : List MessageStub) (b : Batch) (r : Option GraphError × Batch)
      : Type 0 where
    pub kept : Kept b r.1
    pub dealt : r.0 ≡ none → All (Dealt r.1.store) stubs

  Dispatches-Ends :
      (stub : MessageStub) (p : Parsed) (b c : Batch) (r : Option GraphError × Batch)
      → g.get_message_raw stub.id ≡ some p
      → c.store ≡ b.store
      → c.trashed ≡ b.trashed
      → Dispatches t (action_of (rule_for p)) stub.id p c r
      → Ends (stub ∷ []) b r
  Dispatches-Ends stub p b c _ e s k (halted f {b'} h) = record {
    kept = record {
      grows = subst (λ x. Grows x b'.store) s h.grows;
      gone = λ id m. inl (subst (Some (λ x. x ≡ id)) (h.gone ∙ k) m);
    };
    dealt = λ q. absurd (ground arith);
  }
  Dispatches-Ends stub p b c _ e s k (passed {b'} h) = record {
    kept = record {
      grows = subst (λ x. Grows x b'.store) s h.grows;
      gone = λ id m. elim h.gone [
        | inl q ↦ inl (subst (Some (λ x. x ≡ id)) (q ∙ k) m)
        | inr (q, copy) ↦
            elim (subst (Some (λ x. x ≡ id)) (q ∙ ap (λ (l : List String). stub.id ∷ l) k) m) [
              | inr old ↦ inl old
              | inl same ↦ inr (
                  subst (λ y. Saved y b'.store) same
                    (record { parsed = p; given = e; copy = copy }))
            ]
      ];
    };
    dealt = λ q. (inr (record { parsed = p; given = e; fate = h.fate }), tt);
  }

  process_body-Ends :
      (stub : MessageStub) (b : Batch) (body : Option Parsed)
      → g.get_message_raw stub.id ≡ body
      → Ends (stub ∷ []) b (
          process_body lib g faults checking t rules folder stub body
            (record b { stats = record (b.stats) { processed = suc b.stats.processed } }))
  process_body-Ends stub b none e = record {
    kept = record { grows = Grows-refl b.store; gone = λ id h. inl h };
    dealt = λ q. absurd (ground arith);
  }
  process_body-Ends stub b (some p) e = Dispatches-Ends stub p b _ _ e refl refl (
      dispatch_stub-Dispatches lib g faults checking t rules folder (action_of (rule_for p)) stub p
        _)

  guarded-Ends :
      (stub : MessageStub) (b : Batch) (removed stopping : Bool) (r : Option GraphError × Batch)
      → stub.removed ≡ removed
      → Ends (stub ∷ []) b r
      → Ends
          (stub ∷ [])
          b
          (if removed then (none, b) else if stopping then (some cancelled, b) else r)
  guarded-Ends stub b true stopping r e h = record { kept = Kept-refl b; dealt = λ q. (inl e, tt) }
  guarded-Ends stub b false true r e h = record {
    kept = Kept-refl b;
    dealt = λ q. absurd (ground arith);
  }
  guarded-Ends stub b false false r e h = h

  process_stub-Ends :
      (stub : MessageStub) (b : Batch)
      → Ends (stub ∷ []) b (process_stub lib g faults checking t rules folder stub b)
  process_stub-Ends stub b =
      guarded-Ends stub b _ (g.stopping_at folder b.stats.processed) _ refl
        (process_body-Ends stub b _ refl)

  continue :
      (stub : MessageStub) (stubs : List MessageStub) (b : Batch) (r : Option GraphError × Batch)
      → Ends (stub ∷ []) b r
      → ((c : Batch) → Ends stubs c (process_stubs lib g faults checking t rules folder stubs c))
      → Ends (stub ∷ stubs) b (elim r.0 [
        | some e ↦ (some e, r.1)
        | none ↦ process_stubs lib g faults checking t rules folder stubs r.1
      ])
  continue stub stubs b (some e, c) h rest = record {
    kept = h.kept;
    dealt = λ q. absurd (ground arith);
  }
  continue stub stubs b (none, c) h rest = record {
    kept = Kept-trans b c _ h.kept (rest c).kept;
    dealt =
        λ q. (Dealt-Grows stub c.store _ (rest c).kept.grows (h.dealt refl).0, (rest c).dealt q);
  }

  pub process_stubs-Ends :
      (stubs : List MessageStub) (b : Batch)
      → Ends stubs b (process_stubs lib g faults checking t rules folder stubs b)
  unfolding process_stubs
  process_stubs-Ends [] b = record { kept = Kept-refl b; dealt = λ q. tt }
  process_stubs-Ends (stub ∷ stubs) b =
      continue stub stubs b _ (process_stub-Ends stub b) (process_stubs-Ends stubs)
