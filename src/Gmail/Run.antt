-- ===== src/Gmail/Run.antt =====
-- `SyncAccountGmailAPI` of internal/sync/gmailapi_sync.go around the loop over the batch.
use marchi.Prelude.{ℕ, String, Bool, Option, none, some, List, [], ◌∷◌, ◌++◌, if◌then◌else◌}
use marchi.Rules.Node.{Rule}
use marchi.Rules.Parse.{GoLib}
use marchi.Sync.Archive.{Archive, Faults, Target}
use marchi.Sync.Fetch.{Stats, no_stats}
use marchi.Gmail.Server.{Gmail, Listing, paging, list_failed, expired, listed, resolve_message_ids}
use marchi.Gmail.Sync.{
  Batch, GmailError, cancelled, folder_failed, maildir_failed, rules_failed, s3_config_failed,
  listing_failed, cursor_failed, process_ids,
}

-- The account with its cursor, and what was given to `RecordMatches`.
pub record Mailbox : Type 0 where
  pub store : Archive
  pub history_id : String
  pub read : List String
  pub trashed : List String
  pub recorded : List (List (ℕ × ℕ))

-- Whether a step fails before the batch, and whether the cursor cannot be stored.
pub record Obstacles : Type 0 where
  pub folder : Bool
  pub maildir : Bool
  pub rules : Bool
  pub s3_config : Bool
  pub cursor : Bool
  pub checking : String → Bool

pub data LogStatus : Type 0 where
  completed cancelled_log failed_log : LogStatus

-- The row of the sync log, as `Finish` is given it.
pub record SyncLog : Type 0 where
  pub emails_processed : ℕ
  pub emails_archived : ℕ
  pub emails_skipped : ℕ
  pub bytes_downloaded : ℕ
  pub errors : ℕ
  pub status : LogStatus

-- A request that fails does so for another reason than the shutdown.
abbrev pub status_of : Option GmailError → LogStatus
status_of none = completed
status_of (some cancelled) = cancelled_log
status_of (some _) = failed_log

abbrev pub finish : Option GmailError → Stats → SyncLog
finish e st = record {
  emails_processed = st.processed;
  emails_archived = st.archived;
  emails_skipped = st.skipped;
  bytes_downloaded = st.bytes;
  errors = st.errors;
  status = status_of e;
}

pub record Synced : Type 0 where
  pub error : Option GmailError
  pub mailbox : Mailbox
  pub log : SyncLog

module _ (lib : GoLib) (g : Gmail) (faults : Faults) (o : Obstacles) (t : Target)
    (rules : List Rule) where
  -- The folder as `UpsertFolder` returns it: LastUID is the stored watermark.
  abbrev pub opened : Mailbox → Batch
  opened m = record {
    store = m.store;
    last_uid = m.store.last_uid t.folder_id;
    read = m.read;
    trashed = m.trashed;
    stats = no_stats;
  }

  -- The cursor is stored, and the matches are recorded, behind a batch without an error. The
  -- matches are recorded also where the cursor cannot be stored.
  abbrev pub close : Mailbox → String → Option GmailError × Batch → Synced
  close m next (some e, b) = record {
    error = some e;
    mailbox = record m { store = b.store; read = b.read; trashed = b.trashed };
    log = finish (some e) b.stats;
  }
  close m next (none, b) =
      let e = if o.cursor then some cursor_failed else none in
      record {
        error = e;
        mailbox = record {
          store = b.store;
          history_id = if o.cursor then m.history_id else next;
          read = b.read;
          trashed = b.trashed;
          recorded = m.recorded ++ b.stats.rule_matches ∷ [];
        };
        log = finish e b.stats;
      }

  abbrev pub stop_early : GmailError → Mailbox → Synced
  stop_early e m = record { error = some e; mailbox = m; log = finish (some e) no_stats }

  -- `none` where the listing needs more than `fuel` pages.
  abbrev pub run_batch : Listing → Mailbox → Option Synced
  run_batch paging m = none
  run_batch list_failed m = some (stop_early listing_failed m)
  run_batch expired m = some (stop_early listing_failed m)
  run_batch (listed ids next) m =
      some (close m next (process_ids lib g faults o.checking t rules ids (opened m)))

  unfoldable pub sync_account_gmail_api : ℕ → Mailbox → Option Synced
  sync_account_gmail_api fuel m =
      if o.folder
      then some (stop_early folder_failed m)
      else if o.maildir
      then some (stop_early maildir_failed m)
      else if o.rules
      then some (stop_early rules_failed m)
      else if o.s3_config
      then some (stop_early s3_config_failed m)
      else run_batch (resolve_message_ids g fuel m.history_id) m
