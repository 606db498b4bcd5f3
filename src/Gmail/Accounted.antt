-- ===== src/Gmail/Accounted.antt =====
-- The cursor that `SyncAccountGmailAPI` of internal/sync/gmailapi_sync.go stores, and what it
-- deletes.
use marchi.Prelude.{
  ℕ, String, ◌≡◌, refl, ◌⊎◌, inl, inr, false, Option, none, some, List, arith, Bool-cases, ap, sym,
  ◌∙◌, subst, Some, All,
}
use marchi.Rules.Node.{Rule}
use marchi.Rules.Parse.{GoLib}
use marchi.Sync.Archive.{Faults, Target}
use marchi.Gmail.Server.{
  Gmail, not_fetched, Listing, paging, list_failed, expired, listed, resolve_message_ids,
}
use marchi.Gmail.Sync.{
  Batch, GmailError, folder_failed, maildir_failed, rules_failed, s3_config_failed,
}
use marchi.Gmail.Trace.{
  Accounted, HasCopy, Trace, process_ids-Trace, Trace-Accounted, Trace-trashed, Trace-unfetched,
}
use marchi.Gmail.Run.{
  Mailbox, Obstacles, Synced, opened, close, stop_early, run_batch, sync_account_gmail_api,
}

module _ (lib : GoLib) (g : Gmail) (faults : Faults) (o : Obstacles) (t : Target)
    (rules : List Rule) where
  -- A call ends before its batch, with nothing changed, or runs the batch that was listed.
  pub data Ran (fuel : ℕ) (m : Mailbox) : Synced → Type 0 where
    early : (e : GmailError) → Ran fuel m (stop_early lib g faults o t rules e m)
    batch :
        (ids : List String) (next : String) (r : Option GmailError × Batch)
        → resolve_message_ids g fuel m.history_id ≡ listed ids next
        → Trace lib g faults o.checking t rules ids (opened lib g faults o t rules m) r
        → Ran fuel m (close lib g faults o t rules m next r)

  abbrev IfRan : ℕ → Mailbox → Option Synced → Type 0
  IfRan fuel m none = Unit
  IfRan fuel m (some s) = Ran fuel m s

  run_batch-Ran :
      (fuel : ℕ) (m : Mailbox) (l : Listing)
      → resolve_message_ids g fuel m.history_id ≡ l
      → IfRan fuel m (run_batch lib g faults o t rules l m)
  run_batch-Ran fuel m paging e = tt
  run_batch-Ran fuel m list_failed e = early _
  run_batch-Ran fuel m expired e = early _
  run_batch-Ran fuel m (listed ids next) e =
      batch ids next _ e
        (process_ids-Trace lib g faults o.checking t rules ids (opened lib g faults o t rules m))

  ended :
      (fuel : ℕ) (m : Mailbox) (e : GmailError)
      → sync_account_gmail_api lib g faults o t rules fuel m
        ≡ some (stop_early lib g faults o t rules e m)
      → IfRan fuel m (sync_account_gmail_api lib g faults o t rules fuel m)
  ended fuel m e h = subst (IfRan fuel m) (sym h) (early e)

  started :
      (fuel : ℕ) (m : Mailbox)
      → o.folder ≡ false
      → o.maildir ≡ false
      → o.rules ≡ false
      → o.s3_config ≡ false
      → sync_account_gmail_api lib g faults o t rules fuel m
        ≡ run_batch lib g faults o t rules (resolve_message_ids g fuel m.history_id) m
  unfolding sync_account_gmail_api
  started fuel m a b c d = ground arith

  sync-Ran :
      (fuel : ℕ) (m : Mailbox) → IfRan fuel m (sync_account_gmail_api lib g faults o t rules fuel m)
  unfolding sync_account_gmail_api
  sync-Ran fuel m = elim (Bool-cases o.folder) [
    | inl a ↦ ended fuel m folder_failed (ground arith)
    | inr a ↦ elim (Bool-cases o.maildir) [
      | inl b ↦ ended fuel m maildir_failed (ground arith)
      | inr b ↦ elim (Bool-cases o.rules) [
        | inl c ↦ ended fuel m rules_failed (ground arith)
        | inr c ↦ elim (Bool-cases o.s3_config) [
          | inl d ↦ ended fuel m s3_config_failed (ground arith)
          | inr d ↦
              subst (IfRan fuel m) (sym (started fuel m a b c d)) (run_batch-Ran fuel m _ refl)
        ]
      ]
    ]
  ]

  pub ran :
      (fuel : ℕ) (m : Mailbox) (s : Synced)
      → sync_account_gmail_api lib g faults o t rules fuel m ≡ some s
      → Ran fuel m s
  ran fuel m s h = subst (IfRan fuel m) h (sync-Ran fuel m)

  -- What a batch without an error has done with all of its messages.
  record Advanced (fuel : ℕ) (m : Mailbox) (s : Synced) : Type 0 where
    ids : List String
    resolved : resolve_message_ids g fuel m.history_id ≡ listed ids s.mailbox.history_id
    dealt : All (λ id. Accounted lib g faults o.checking t rules id s.mailbox.store) ids

  Ran-Advanced :
      (fuel : ℕ) (m : Mailbox) (s : Synced)
      → Ran fuel m s
      → (s.mailbox.history_id ≡ m.history_id) ⊎ Advanced fuel m s
  Ran-Advanced fuel m _ (early e) = inl refl
  Ran-Advanced fuel m _ (batch ids next (some e, b) r tr) = inl refl
  Ran-Advanced fuel m _ (batch ids next (none, b) r tr) = elim (Bool-cases o.cursor) [
    | inl c ↦ inl (ground arith)
    | inr c ↦ inr (record {
      ids = ids;
      resolved = r ∙ ap (λ (h : String). listed ids h) (ground arith);
      dealt = Trace-Accounted lib g faults o.checking t rules tr refl;
    })
  ]

  -- No message is lost. A call either leaves the cursor as it was, so that the next call lists the
  -- same again, or it has listed the batch that the new cursor stands behind, and each message of
  -- it has been dealt with: Gmail has given it, and a rule says to skip it, or the archive has a row
  -- and a file for it, or the account has a row with its Message-ID. This holds whatever fails.
  pub sync_account_gmail_api-Accounted :
      (fuel : ℕ) (m : Mailbox) (s : Synced)
      → sync_account_gmail_api lib g faults o t rules fuel m ≡ some s
      → (s.mailbox.history_id ≡ m.history_id)
        ⊎ ((ids : List String) × (resolve_message_ids g fuel m.history_id
              ≡ listed ids s.mailbox.history_id)
            × All (λ id. Accounted lib g faults o.checking t rules id s.mailbox.store) ids)
  sync_account_gmail_api-Accounted fuel m s h = elim (Ran-Advanced fuel m s (ran fuel m s h)) [
    | inl e ↦ inl e
    | inr a ↦ inr (a.ids, a.resolved, a.dealt)
  ]

  Ran-trashed :
      (fuel : ℕ) (m : Mailbox) (s : Synced) (id : String)
      → Ran fuel m s
      → Some (λ x. x ≡ id) s.mailbox.trashed
      → Some (λ x. x ≡ id) m.trashed ⊎ HasCopy lib g faults o.checking t rules id s.mailbox.store
  Ran-trashed fuel m _ id (early e) h = inl h
  Ran-trashed fuel m _ id (batch ids next (some e, b) r tr) h =
      Trace-trashed lib g faults o.checking t rules id tr h
  Ran-trashed fuel m _ id (batch ids next (none, b) r tr) h =
      Trace-trashed lib g faults o.checking t rules id tr h

  -- A message that a call moves to the trash is in the archive after it: a row of the folder leads
  -- to a file with its bytes, or the account has a row with its Message-ID.
  pub sync_account_gmail_api-trashes :
      (fuel : ℕ) (m : Mailbox) (s : Synced) (id : String)
      → sync_account_gmail_api lib g faults o t rules fuel m ≡ some s
      → Some (λ x. x ≡ id) s.mailbox.trashed
      → Some (λ x. x ≡ id) m.trashed ⊎ HasCopy lib g faults o.checking t rules id s.mailbox.store
  sync_account_gmail_api-trashes fuel m s id h = Ran-trashed fuel m s id (ran fuel m s h)

  pub Ran-unfetched :
      (fuel : ℕ) (m : Mailbox) (s : Synced) (id : String) (ids : List String) (next : String)
      → Ran fuel m s
      → resolve_message_ids g fuel m.history_id ≡ listed ids next
      → Some (λ x. x ≡ id) ids
      → g.get_message_raw id ≡ not_fetched
      → ((e : GmailError) × (s.error ≡ some e)) × (s.mailbox.history_id ≡ m.history_id)
  Ran-unfetched fuel m _ id ids next (early e) q k u = ((e, refl), refl)
  Ran-unfetched fuel m _ id ids next (batch ids' next' (some e, b) r tr) q k u = ((e, refl), refl)
  Ran-unfetched fuel m _ id ids next (batch ids' next' (none, b) r tr) q k u =
      let same : ids ≡ ids' = ground (arith, r) in
      let f =
        Trace-unfetched lib g faults o.checking t rules id u (subst (Some (λ x. x ≡ id)) same k)
          tr in
      absurd (ground (arith, f.1))
