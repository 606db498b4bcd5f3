-- ===== src/Graph/Sync.antt =====
-- One message of `syncOneMSGraphFolder` of internal/sync/msgraph_sync.go and the loop over a page,
-- with `msgraphFlagsFromStub` and `applyPostArchiveMSGraphRuleAction`. A batch is that of the Gmail
-- connector, with the deleted messages in place of those in the trash.
use marchi.Prelude.{
  ℕ, suc, ◌+◌, ◌%◌, ◌^◌, String, Bool, false, Option, none, some, List, [], ◌∷◌, ◌++◌,
  if◌then◌else◌, str_eq,
}
use marchi.Rules.Node.{Rule, RuleAction, archive_and_delete, archive_and_mark_read}
use marchi.Rules.Parse.{GoLib}
use marchi.Rules.Evaluate.{first_match}
use marchi.Sync.Message.{Message, Parsed, candidate_from}
use marchi.Sync.Archive.{
  Faults, Target, Outcome, not_archived, archived, archive_one, exists_by_account_message_id,
}
use marchi.Sync.Fetch.{is_skip, action_of}
use marchi.Gmail.Sync.{Batch, add_match, refused, act_failed}
use marchi.Graph.Server.{Graph, MessageStub}

pub data GraphError : Type 0 where
  cancelled : GraphError
  fetch_failed check_failed archive_failed : String → GraphError
  delta_failed cursor_failed folder_failed maildir_failed : GraphError
  listing_failed rules_failed s3_config_failed : GraphError

abbrev pub is_flagged : Option String → Bool
is_flagged none = false
is_flagged (some status) = str_eq status "flagged"

abbrev pub ms_graph_flags_from_stub : MessageStub → List String
ms_graph_flags_from_stub stub =
    (if stub.is_read then "\\Seen" ∷ [] else [])
    ++ (if is_flagged stub.flag_status then "\\Flagged" ∷ [] else [])

-- `checking` is the query for a duplicate, by message; `folder` is the id that Graph has for the
-- folder of `t`.
module _ (lib : GoLib) (g : Graph) (faults : Faults) (checking : String → Bool) (t : Target)
    (rules : List Rule) (folder : String) where
  unfoldable pub apply_post_archive_ms_graph_rule_action : RuleAction → String → Batch → Batch
  apply_post_archive_ms_graph_rule_action archive_and_mark_read id b =
      if g.mark_read id then act_failed b else record b { read = id ∷ b.read }
  apply_post_archive_ms_graph_rule_action archive_and_delete id b =
      if g.delete id then act_failed b else record b { trashed = id ∷ b.trashed }
  apply_post_archive_ms_graph_rule_action _ id b = b

  -- The connector numbers the messages of a folder; a UID is 32 bits wide.
  abbrev pub stub_uid : Batch → ℕ
  stub_uid b = (b.last_uid + 1) % 2 ^ 32

  abbrev pub stub_message : MessageStub → Parsed → Batch → Message
  stub_message stub p b = record {
    uid = stub_uid b;
    flags = ms_graph_flags_from_stub stub;
    body = some p;
  }

  abbrev pub keep_stub : RuleAction → String → Outcome → Batch → Option GraphError × Batch
  keep_stub action id not_archived b = (some (archive_failed id), refused b)
  keep_stub action id (archived size index_failed) b =
      let b' = apply_post_archive_ms_graph_rule_action action id (record b {
        stats = record (b.stats) {
          index_errors = if index_failed then suc b.stats.index_errors else b.stats.index_errors;
        };
      }) in
      (
        none,
        record b' {
          last_uid = stub_uid b;
          stats = record (b'.stats) {
            archived = suc b'.stats.archived;
            bytes = b'.stats.bytes + size;
          };
        },
      )

  abbrev pub archive_stub : RuleAction → MessageStub → Parsed → Batch → Option GraphError × Batch
  archive_stub action stub p b =
      let r = archive_one faults t (stub_message stub p b) p b.store in
      keep_stub action stub.id r.0 (record b { store = r.1 })

  unfoldable pub dispatch_stub :
      RuleAction → MessageStub → Parsed → Batch → Option GraphError × Batch
  dispatch_stub action stub p b =
      if is_skip action
      then (none, record b { stats = record (b.stats) { skipped = suc b.stats.skipped } })
      else if str_eq p.md.message_id ""
      then archive_stub action stub p b
      else if checking stub.id
      then (some (check_failed stub.id), refused b)
      else if exists_by_account_message_id t.account_id p.md.message_id b.store.rows
      then (
        none,
        apply_post_archive_ms_graph_rule_action action stub.id
            (record b { stats = record (b.stats) { duplicates = suc b.stats.duplicates } }),
      )
      else archive_stub action stub p b

  abbrev pub rule_of : Parsed → Option Rule
  rule_of p = first_match lib rules (candidate_from p t.folder_name t.account_id)

  abbrev pub process_body : MessageStub → Option Parsed → Batch → Option GraphError × Batch
  process_body stub none b = (some (fetch_failed stub.id), refused b)
  process_body stub (some p) b =
      dispatch_stub (action_of (rule_of p)) stub p
        (record b { stats = add_match (rule_of p) b.stats })

  abbrev pub process_stub : MessageStub → Batch → Option GraphError × Batch
  process_stub stub b =
      if stub.removed
      then (none, b)
      else if g.stopping_at folder b.stats.processed
      then (some cancelled, b)
      else process_body stub (g.get_message_raw stub.id)
          (record b { stats = record (b.stats) { processed = suc b.stats.processed } })

  -- The loop stops at the first failure.
  unfoldable pub process_stubs : List MessageStub → Batch → Option GraphError × Batch
  process_stubs [] b = (none, b)
  process_stubs (stub ∷ stubs) b =
      let r = process_stub stub b in
      elim r.0 [ some e ↦ (some e, r.1) | none ↦ process_stubs stubs r.1 ]
