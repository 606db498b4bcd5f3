-- ===== src/Gmail/Stuck.antt =====
-- A message that Gmail lists and does not give, over several calls of `SyncAccountGmailAPI` of
-- internal/sync/gmailapi_sync.go.
use marchi.Prelude.{ℕ, String, ◌≡◌, refl, some, List, [], ◌∷◌, ◌∙◌, subst, sym, Some, All, All-map}
use marchi.Rules.Node.{Rule}
use marchi.Rules.Parse.{GoLib}
use marchi.Sync.Archive.{Faults, Target}
use marchi.Gmail.Server.{Gmail, not_fetched, listed, resolve_message_ids}
use marchi.Gmail.Sync.{GmailError}
use marchi.Gmail.Run.{Mailbox, Obstacles, Synced, sync_account_gmail_api}
use marchi.Gmail.Accounted.{ran, Ran-unfetched}

-- What one call meets.
pub record Call : Type 0 where
  pub gmail : Gmail
  pub faults : Faults
  pub obstacles : Obstacles
  pub fuel : ℕ

-- At the cursor the message is listed, and Gmail does not give it.
pub record IsMissing (id cursor : String) (c : Call) : Type 0 where
  pub ids : List String
  pub next : String
  pub resolved : resolve_message_ids c.gmail c.fuel cursor ≡ listed ids next
  pub among : Some (λ x. x ≡ id) ids
  pub missing : c.gmail.get_message_raw id ≡ not_fetched

module _ (lib : GoLib) (t : Target) (rules : List Rule) where
  -- Calls one after another, each of which ends with a result.
  pub data Calls : List Call → Mailbox → List Synced → Mailbox → Type 0 where
    done : (m : Mailbox) → Calls [] m [] m
    call :
        (c : Call) (cs : List Call) {m : Mailbox} (s : Synced) {ss : List Synced} {m' : Mailbox}
        → sync_account_gmail_api lib c.gmail c.faults c.obstacles t rules c.fuel m ≡ some s
        → Calls cs s.mailbox ss m'
        → Calls (c ∷ cs) m (s ∷ ss) m'

  abbrev pub Fails : Synced → Type 0
  Fails s = (e : GmailError) × (s.error ≡ some e)

  -- A message that is listed behind the cursor and that Gmail does not give, as one that was
  -- deleted for good since, blocks the account: as long as this lasts every call fails, and the
  -- cursor stays where it is.
  pub Calls-Fails :
      (id : String) {cs : List Call} {m : Mailbox} {ss : List Synced} {m' : Mailbox}
      → All (IsMissing id m.history_id) cs
      → Calls cs m ss m'
      → All Fails ss × (m'.history_id ≡ m.history_id)
  Calls-Fails id h (done m) = (tt, refl)
  Calls-Fails id h (call c cs {m} s e rest) =
      let f =
        Ran-unfetched lib c.gmail c.faults c.obstacles t rules c.fuel m s id h.0.ids h.0.next
          (ran lib c.gmail c.faults c.obstacles t rules c.fuel m s e) h.0.resolved h.0.among
          h.0.missing in
      let more =
        Calls-Fails id
          (All-map (IsMissing id m.history_id) (IsMissing id s.mailbox.history_id)
            (λ x k. subst (λ y. IsMissing id y x) (sym f.1) k) cs h.1)
          rest in
      ((f.0, more.0), more.1 ∙ f.1)
