-- ===== src/Graph/Effects.antt =====
-- What one message of `syncOneMSGraphFolder` of internal/sync/msgraph_sync.go does to the archive
-- and the mailbox.
use marchi.Prelude.{ℕ, String, refl, inl, inr, Bool, List, str_eq, Bool-cases}
use marchi.Rules.Node.{
  Rule, RuleAction, archive, skip, archive_and_delete, archive_and_mark_read, other_action,
}
use marchi.Rules.Parse.{GoLib}
use marchi.Sync.Message.{Parsed}
use marchi.Sync.Archive.{Archive, Faults, Target, Outcome, exists_by_account_message_id}
use marchi.Sync.Fetch.{is_skip}
use marchi.Sync.Effect.{Grows-refl, own, other}
use marchi.Sync.Archives.{Archives, refused, stored, archive_one-Archives}
use marchi.Gmail.Sync.{Batch}
use marchi.Gmail.Effects.{Acted, Dispatches, halted, passed, Passes-Acted}
use marchi.Graph.Server.{Graph, MessageStub}
use marchi.Graph.Sync.{
  apply_post_archive_ms_graph_rule_action, stub_message, keep_stub, archive_stub, dispatch_stub,
}

module _ (lib : GoLib) (g : Graph) (faults : Faults) (checking : String → Bool) (t : Target)
    (rules : List Rule) (folder : String) where
  acted :
      (action : RuleAction) (id : String) (b : Batch)
      → Acted id b
          (apply_post_archive_ms_graph_rule_action lib g faults checking t rules folder action id b)
  unfolding apply_post_archive_ms_graph_rule_action
  acted archive_and_mark_read id b = elim (Bool-cases (g.mark_read id)) [
    | inl e ↦ rw e (record { store = refl; gone = inl refl })
    | inr e ↦ rw e (record { store = refl; gone = inl refl })
  ]
  acted archive_and_delete id b = elim (Bool-cases (g.delete id)) [
    | inl e ↦ rw e (record { store = refl; gone = inl refl })
    | inr e ↦ rw e (record { store = refl; gone = inr refl })
  ]
  acted archive id b = record { store = refl; gone = inl refl }
  acted skip id b = record { store = refl; gone = inl refl }
  acted (other_action s) id b = record { store = refl; gone = inl refl }

  keep-Dispatches :
      (action : RuleAction) (id : String) (p : Parsed) (b : Batch) (uid : ℕ) (r : Outcome × Archive)
      → Archives t uid p b.store r
      → Dispatches t action id p b
          (keep_stub lib g faults checking t rules folder action id r.0 (record b { store = r.1 }))
  keep-Dispatches action id p b uid _ (refused {b = c} grow k) =
      halted _ (record { grows = grow; gone = refl })
  keep-Dispatches action id p b uid _ (stored {b = c} size index_failed grow k h) =
      let a = acted action id _ in
      passed (
        Passes-Acted t action id p b (record b { store = c }) _
          (record { store = a.store; gone = a.gone }) grow refl (uid, own h))

  archive-Dispatches :
      (action : RuleAction) (stub : MessageStub) (p : Parsed) (b : Batch)
      → Dispatches t action stub.id p b
          (archive_stub lib g faults checking t rules folder action stub p b)
  archive-Dispatches action stub p b =
      let m = stub_message lib g faults checking t rules folder stub p b in
      keep-Dispatches action stub.id p b m.uid _ (archive_one-Archives faults t m p b.store)

  pub dispatch_stub-Dispatches :
      (action : RuleAction) (stub : MessageStub) (p : Parsed) (b : Batch)
      → Dispatches t action stub.id p b
          (dispatch_stub lib g faults checking t rules folder action stub p b)
  unfolding dispatch_stub
  dispatch_stub-Dispatches action stub p b = elim (Bool-cases (is_skip action)) [
    | inl a ↦
        rw (a, dispatch_stub)
          (passed (record { grows = Grows-refl b.store; fate = inl a; gone = inl refl }))
    | inr a ↦ elim (Bool-cases (str_eq p.md.message_id "")) [
      | inl m ↦ rw (a, m, dispatch_stub) (archive-Dispatches action stub p b)
      | inr m ↦ elim (Bool-cases (checking stub.id)) [
        | inl c ↦
            rw (a, m, c, dispatch_stub)
              (halted _ (record { grows = Grows-refl b.store; gone = refl }))
        | inr c ↦
            elim (Bool-cases
              (exists_by_account_message_id t.account_id p.md.message_id b.store.rows)) [
                | inl d ↦
                    rw (a, m, c, d, dispatch_stub)
                      (passed (
                        Passes-Acted t action stub.id p b _ _ (acted action stub.id _)
                          (Grows-refl b.store) refl (0, other (record { has_id = m; known = d }))))
                | inr d ↦ rw (a, m, c, d, dispatch_stub) (archive-Dispatches action stub p b)
              ]
      ]
    ]
  ]
