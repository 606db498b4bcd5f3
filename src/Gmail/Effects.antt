-- ===== src/Gmail/Effects.antt =====
-- What one message of a batch of `SyncAccountGmailAPI` of internal/sync/gmailapi_sync.go does to
-- the archive and the mailbox.
use marchi.Prelude.{
  ℕ, String, ◌≡◌, refl, ◌⊎◌, inl, inr, Bool, true, Option, none, some, List, ◌∷◌, str_eq,
  Bool-cases, ap, sym, ◌∙◌, subst,
}
use marchi.Rules.Node.{
  Rule, RuleAction, archive, skip, archive_and_delete, archive_and_mark_read, other_action,
}
use marchi.Rules.Parse.{GoLib}
use marchi.Sync.Message.{Parsed}
use marchi.Sync.Archive.{Archive, Faults, Target, Outcome, exists_by_account_message_id}
use marchi.Sync.Fetch.{is_skip}
use marchi.Sync.Effect.{Grows, Grows-refl, Copied, own, other}
use marchi.Sync.Archives.{Archives, refused, stored, archive_one-Archives}
use marchi.Gmail.Server.{Gmail}
use marchi.Gmail.Sync.{
  Batch, apply_post_archive_gmail_rule_action, message_of, keep_archived, archive_raw, dispatch_raw,
}

-- The message is in the archive: a row of the folder leads to a file with its bytes, or the account
-- has a row with its Message-ID.
abbrev pub Stored : Target → Parsed → Archive → Type 0
Stored t p a = (uid : ℕ) × Copied t uid p a

-- The message stops the batch.
pub record Halts (b b' : Batch) : Type 0 where
  pub grows : Grows b.store b'.store
  pub gone : b'.trashed ≡ b.trashed

-- What an action on the server leaves of the archive.
pub record Acted (id : String) (b b' : Batch) : Type 0 where
  pub store : b'.store ≡ b.store
  pub gone : (b'.trashed ≡ b.trashed) ⊎ (b'.trashed ≡ id ∷ b.trashed)

-- The batch goes on behind the message.
pub record Passes (t : Target) (action : RuleAction) (id : String) (p : Parsed) (b b' : Batch)
    : Type 0 where
  pub grows : Grows b.store b'.store
  pub fate : (is_skip action ≡ true) ⊎ Stored t p b'.store
  pub gone : (b'.trashed ≡ b.trashed) ⊎ ((b'.trashed ≡ id ∷ b.trashed) × Stored t p b'.store)

-- The errors `E` are those of the connector.
pub data Dispatches {E : Type 0} (t : Target) (action : RuleAction) (id : String) (p : Parsed)
    (b : Batch) : Option E × Batch → Type 0 where
  halted : (e : E) {b' : Batch} → Halts b b' → Dispatches t action id p b (some e, b')
  passed : {b' : Batch} → Passes t action id p b b' → Dispatches t action id p b (none, b')

pub Passes-Acted :
    (t : Target) (action : RuleAction) (id : String) (p : Parsed) (b c d : Batch)
    → Acted id c d
    → Grows b.store c.store
    → c.trashed ≡ b.trashed
    → Stored t p c.store
    → Passes t action id p b d
Passes-Acted t action id p b c d a grow gone s = record {
  grows = subst (λ x. Grows b.store x) (sym a.store) grow;
  fate = inr (subst (Stored t p) (sym a.store) s);
  gone = elim a.gone [
    | inl e ↦ inl (e ∙ gone)
    | inr e ↦ inr (e ∙ ap (λ x. id ∷ x) gone, subst (Stored t p) (sym a.store) s)
  ];
}

module _ (lib : GoLib) (g : Gmail) (faults : Faults) (checking : String → Bool) (t : Target)
    (rules : List Rule) where
  acted :
      (action : RuleAction) (id : String) (b : Batch)
      → Acted id b (apply_post_archive_gmail_rule_action lib g faults checking t rules action id b)
  unfolding apply_post_archive_gmail_rule_action
  acted archive_and_mark_read id b = elim (Bool-cases (g.modify_labels id)) [
    | inl e ↦ rw e (record { store = refl; gone = inl refl })
    | inr e ↦ rw e (record { store = refl; gone = inl refl })
  ]
  acted archive_and_delete id b = elim (Bool-cases (g.trash id)) [
    | inl e ↦ rw e (record { store = refl; gone = inl refl })
    | inr e ↦ rw e (record { store = refl; gone = inr refl })
  ]
  acted archive id b = record { store = refl; gone = inl refl }
  acted skip id b = record { store = refl; gone = inl refl }
  acted (other_action s) id b = record { store = refl; gone = inl refl }

  keep-Dispatches :
      (action : RuleAction) (id : String) (p : Parsed) (b : Batch) (uid : ℕ) (r : Outcome × Archive)
      → Archives t uid p b.store r
      → Dispatches t action id p b
          (keep_archived lib g faults checking t rules action id r.0 (record b { store = r.1 }))
  keep-Dispatches action id p b uid _ (refused {b = c} grow k) =
      halted _ (record { grows = grow; gone = refl })
  keep-Dispatches action id p b uid _ (stored {b = c} size index_failed grow k h) =
      passed (Passes-Acted t action id p b _ _ (acted action id _) grow refl (uid, own h))

  archive-Dispatches :
      (action : RuleAction) (id : String) (labels : List String) (p : Parsed) (b : Batch)
      → Dispatches t action id p b (archive_raw lib g faults checking t rules action id labels p b)
  archive-Dispatches action id labels p b =
      let m = message_of lib g faults checking t rules labels p b in
      keep-Dispatches action id p b m.uid _ (archive_one-Archives faults t m p b.store)

  pub dispatch-Dispatches :
      (action : RuleAction) (id : String) (labels : List String) (p : Parsed) (b : Batch)
      → Dispatches t action id p b (dispatch_raw lib g faults checking t rules action id labels p b)
  unfolding dispatch_raw
  dispatch-Dispatches action id labels p b = elim (Bool-cases (is_skip action)) [
    | inl a ↦
        rw (a, dispatch_raw)
          (passed (record { grows = Grows-refl b.store; fate = inl a; gone = inl refl }))
    | inr a ↦ elim (Bool-cases (str_eq p.md.message_id "")) [
      | inl m ↦ rw (a, m, dispatch_raw) (archive-Dispatches action id labels p b)
      | inr m ↦ elim (Bool-cases (checking id)) [
        | inl c ↦
            rw (a, m, c, dispatch_raw)
              (halted _ (record { grows = Grows-refl b.store; gone = refl }))
        | inr c ↦
            elim (Bool-cases
              (exists_by_account_message_id t.account_id p.md.message_id b.store.rows)) [
                | inl d ↦
                    rw (a, m, c, d, dispatch_raw)
                      (passed (
                        Passes-Acted t action id p b _ _ (acted action id _) (Grows-refl b.store)
                          refl (0, other (record { has_id = m; known = d }))))
                | inr d ↦ rw (a, m, c, d, dispatch_raw) (archive-Dispatches action id labels p b)
              ]
      ]
    ]
  ]
