-- ===== src/Gmail/Sync.antt =====
-- One message of `SyncAccountGmailAPI` of internal/sync/gmailapi_sync.go and the loop over the
-- batch, with `gmailFlagsFromLabels` and `applyPostArchiveGmailRuleAction`.
use marchi.Prelude.{
  ℕ, suc, ◌+◌, ◌%◌, ◌^◌, String, Bool, Option, none, some, List, [], ◌∷◌, ◌++◌, if◌then◌else◌,
  str_eq,
}
use marchi.Rules.Node.{Rule, RuleAction, archive_and_delete, archive_and_mark_read}
use marchi.Rules.Parse.{GoLib}
use marchi.Rules.Evaluate.{first_match, any}
use marchi.Sync.Message.{Message, Parsed, candidate_from}
use marchi.Sync.Archive.{
  Archive, Faults, Target, Outcome, not_archived, archived, archive_one,
  exists_by_account_message_id,
}
use marchi.Sync.Fetch.{Stats, add_rule_match, is_skip, action_of}
use marchi.Gmail.Server.{Gmail, RawAnswer, not_fetched, undecodable, raw}

-- What a batch changes: the archive, the folder's LastUID in memory, the messages whose UNREAD
-- label was taken off or which were moved to the trash, and the statistics.
pub record Batch : Type 0 where
  pub store : Archive
  pub last_uid : ℕ
  pub read : List String
  pub trashed : List String
  pub stats : Stats

pub data GmailError : Type 0 where
  cancelled : GmailError
  fetch_failed decode_failed check_failed archive_failed : String → GmailError
  folder_failed maildir_failed rules_failed s3_config_failed listing_failed : GmailError
  cursor_failed : GmailError

abbrev pub gmail_flags_from_labels : List String → List String
gmail_flags_from_labels labels =
    (if any (λ l. str_eq l "UNREAD") labels then [] else "\\Seen" ∷ [])
    ++ ((if any (λ l. str_eq l "STARRED") labels then "\\Flagged" ∷ [] else [])
        ++ (if any (λ l. str_eq l "DRAFT") labels then "\\Draft" ∷ [] else []))

abbrev pub add_match : Option Rule → Stats → Stats
add_match none st = st
add_match (some r) st = record st { rule_matches = add_rule_match r.id st.rule_matches }

abbrev pub refused : Batch → Batch
refused b = record b { stats = record (b.stats) { errors = suc b.stats.errors } }

abbrev pub act_failed : Batch → Batch
act_failed b = record b {
  stats = record (b.stats) { rule_action_errors = suc b.stats.rule_action_errors };
}

-- `checking` is the query for a duplicate, by message.
module _ (lib : GoLib) (g : Gmail) (faults : Faults) (checking : String → Bool) (t : Target)
    (rules : List Rule) where
  unfoldable pub apply_post_archive_gmail_rule_action : RuleAction → String → Batch → Batch
  apply_post_archive_gmail_rule_action archive_and_mark_read id b =
      if g.modify_labels id then act_failed b else record b { read = id ∷ b.read }
  apply_post_archive_gmail_rule_action archive_and_delete id b =
      if g.trash id then act_failed b else record b { trashed = id ∷ b.trashed }
  apply_post_archive_gmail_rule_action _ id b = b

  -- UIDs of the folder are numbered by the connector; they are 32 bits wide.
  abbrev pub next_uid : Batch → ℕ
  next_uid b = (b.last_uid + 1) % 2 ^ 32

  abbrev pub message_of : List String → Parsed → Batch → Message
  message_of labels p b = record {
    uid = next_uid b;
    flags = gmail_flags_from_labels labels;
    body = some p;
  }

  abbrev pub keep_archived : RuleAction → String → Outcome → Batch → Option GmailError × Batch
  keep_archived action id not_archived b = (some (archive_failed id), refused b)
  keep_archived action id (archived size index_failed) b = (
    none,
    apply_post_archive_gmail_rule_action action id (record b {
      last_uid = next_uid b;
      stats = record (b.stats) {
        archived = suc b.stats.archived;
        bytes = b.stats.bytes + size;
        index_errors = if index_failed then suc b.stats.index_errors else b.stats.index_errors;
      };
    }),
  )

  abbrev pub archive_raw :
      RuleAction → String → List String → Parsed → Batch → Option GmailError × Batch
  archive_raw action id labels p b =
      let r = archive_one faults t (message_of labels p b) p b.store in
      keep_archived action id r.0 (record b { store = r.1 })

  unfoldable pub dispatch_raw :
      RuleAction → String → List String → Parsed → Batch → Option GmailError × Batch
  dispatch_raw action id labels p b =
      if is_skip action
      then (none, record b { stats = record (b.stats) { skipped = suc b.stats.skipped } })
      else if str_eq p.md.message_id ""
      then archive_raw action id labels p b
      else if checking id
      then (some (check_failed id), refused b)
      else if exists_by_account_message_id t.account_id p.md.message_id b.store.rows
      then (
        none,
        apply_post_archive_gmail_rule_action action id
            (record b { stats = record (b.stats) { duplicates = suc b.stats.duplicates } }),
      )
      else archive_raw action id labels p b

  abbrev pub matched_rule : Parsed → Option Rule
  matched_rule p = first_match lib rules (candidate_from p t.folder_name t.account_id)

  abbrev pub count_one : Batch → Batch
  count_one b = record b { stats = record (b.stats) { processed = suc b.stats.processed } }

  abbrev pub matching : Option Rule → Batch → Batch
  matching r b = record b { stats = add_match r b.stats }

  abbrev pub process_raw : String → RawAnswer → Batch → Option GmailError × Batch
  process_raw id not_fetched b = (some (fetch_failed id), refused b)
  process_raw id undecodable b = (some (decode_failed id), refused b)
  process_raw id (raw labels p) b =
      dispatch_raw (action_of (matched_rule p)) id labels p (matching (matched_rule p) b)

  -- The loop stops at the first failure.
  unfoldable pub process_ids : List String → Batch → Option GmailError × Batch
  process_ids [] b = (none, b)
  process_ids (id ∷ ids) b =
      if g.stopping_at b.stats.processed
      then (some cancelled, b)
      else let r = process_raw id (g.get_message_raw id) (count_one b) in
        elim r.0 [ some e ↦ (some e, r.1) | none ↦ process_ids ids r.1 ]
