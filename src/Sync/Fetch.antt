-- ===== src/Sync/Fetch.antt =====
-- `FetchNewMessages` and `applyPostArchiveRuleAction` of internal/sync/fetch.go. Progress reports
-- only show the statistics and are left out.
use marchi.Prelude.{
  ℕ, suc, ◌+◌, ◌%◌, ◌^◌, Bool, true, false, not, Option, none, some, List, [], ◌∷◌, ◌++◌, keep, leb,
  ◌==◌, if◌then◌else◌, str_eq,
}
use marchi.Rules.Node.{Rule, RuleAction, archive, skip, archive_and_delete, archive_and_mark_read}
use marchi.Rules.Parse.{GoLib}
use marchi.Rules.Evaluate.{first_match}
use marchi.Sync.Message.{Message, Parsed, candidate_from}
use marchi.Sync.Archive.{
  Archive, Faults, Target, Outcome, not_archived, archived, archive_one, skip_one,
  exists_by_account_message_id,
}

pub record Stats : Type 0 where
  pub processed : ℕ
  pub archived : ℕ
  pub skipped : ℕ
  pub duplicates : ℕ
  pub bytes : ℕ
  pub errors : ℕ
  pub index_errors : ℕ
  pub rule_action_errors : ℕ
  pub rule_matches : List (ℕ × ℕ)

-- What a fetch changes: the archive, the folder's LastUID in memory, the flags \Seen and \Deleted
-- of the mailbox, the messages that are gone from it, and the statistics.
pub record Fetch : Type 0 where
  pub store : Archive
  pub last_uid : ℕ
  pub seen : List ℕ
  pub flagged : List ℕ
  pub deleted : List ℕ
  pub stats : Stats

pub data Failure : Type 0 where
  shutdown : Failure
  unreadable skip_failed check_failed archive_failed : ℕ → Failure
  encode_failed select_failed fetch_failed : Failure

abbrev pub add_rule_match : ℕ → List (ℕ × ℕ) → List (ℕ × ℕ)
add_rule_match id [] = (id, 1) ∷ []
add_rule_match id ((j, n) ∷ counts) =
    if j == id then (j, suc n) ∷ counts else (j, n) ∷ add_rule_match id counts

abbrev pub is_skip : RuleAction → Bool
is_skip skip = true
is_skip _ = false

abbrev pub action_of : Option Rule → RuleAction
action_of none = archive
action_of (some r) = r.action

abbrev pub count_match : Option Rule → Fetch → Fetch
count_match none f = f
count_match (some r) f = record f {
  stats = record (f.stats) { rule_matches = add_rule_match r.id f.stats.rule_matches };
}

abbrev pub started : Fetch → Fetch
started f = record f { stats = record (f.stats) { processed = suc f.stats.processed } }

abbrev pub failed : Fetch → Fetch
failed f = record f { stats = record (f.stats) { errors = suc f.stats.errors } }

abbrev pub action_failed : Fetch → Fetch
action_failed f = record f {
  stats = record (f.stats) { rule_action_errors = suc f.stats.rule_action_errors };
}

-- `DeleteMessage` of internal/imapclient/store.go; whether it fails. UID EXPUNGE takes the message
-- alone, EXPUNGE everything that is flagged \Deleted, other clients' messages too.
unfoldable pub delete_message : Faults → ℕ → Fetch → Bool × Fetch
delete_message faults uid f =
    let g = record f { flagged = uid ∷ f.flagged } in
    if faults.flagging uid
    then (true, f)
    else if faults.deleting uid
    then (true, g)
    else if faults.uid_plus
    then (
      false,
      record f { flagged = keep (λ v. not (v == uid)) f.flagged; deleted = uid ∷ f.deleted },
    )
    else (false, record g { flagged = []; deleted = g.flagged ++ f.deleted })

module _ (lib : GoLib) (faults : Faults) (t : Target) (rules : List Rule) where
  unfoldable pub apply_post_archive_rule_action : RuleAction → ℕ → Fetch → Fetch
  apply_post_archive_rule_action archive_and_mark_read uid f =
      if faults.marking uid then action_failed f else record f { seen = uid ∷ f.seen }
  apply_post_archive_rule_action archive_and_delete uid f =
      let r = delete_message faults uid f in if r.0 then action_failed r.1 else r.1
  apply_post_archive_rule_action _ uid f = f

  abbrev pub skip_message : Message → Fetch → Option Failure × Fetch
  skip_message m f = elim (skip_one faults t m.uid f.store) [
    | none ↦ (some (skip_failed m.uid), failed f)
    | some a ↦ (
      none,
      record f {
        store = a;
        last_uid = m.uid;
        stats = record (f.stats) { skipped = suc f.stats.skipped };
      },
    )
  ]

  abbrev pub pass_duplicate : RuleAction → Message → Fetch → Option Failure × Fetch
  pass_duplicate action m f = elim (skip_one faults t m.uid f.store) [
    | none ↦ (some (skip_failed m.uid), failed f)
    | some a ↦ (
      none,
      apply_post_archive_rule_action action m.uid (record f {
        store = a;
        last_uid = m.uid;
        stats = record (f.stats) { duplicates = suc f.stats.duplicates };
      }),
    )
  ]

  abbrev pub keep_message : RuleAction → Message → Outcome → Fetch → Option Failure × Fetch
  keep_message action m not_archived f = (some (archive_failed m.uid), failed f)
  keep_message action m (archived size index_failed) f = (
    none,
    apply_post_archive_rule_action action m.uid (record f {
      last_uid = m.uid;
      stats = record (f.stats) {
        archived = suc f.stats.archived;
        bytes = f.stats.bytes + size;
        index_errors = if index_failed then suc f.stats.index_errors else f.stats.index_errors;
      };
    }),
  )

  abbrev pub archive_message : RuleAction → Message → Parsed → Fetch → Option Failure × Fetch
  archive_message action m p f =
      let r = archive_one faults t m p f.store in
      keep_message action m r.0 (record f { store = r.1 })

  unfoldable pub dispatch : RuleAction → Message → Parsed → Fetch → Option Failure × Fetch
  dispatch action m p f =
      if is_skip action
      then skip_message m f
      else if str_eq p.md.message_id ""
      then archive_message action m p f
      else if faults.checking m.uid
      then (some (check_failed m.uid), failed f)
      else if exists_by_account_message_id t.account_id p.md.message_id f.store.rows
      then pass_duplicate action m f
      else archive_message action m p f

  abbrev pub matched : Parsed → Option Rule
  matched p = first_match lib rules (candidate_from p t.folder_name t.account_id)

  -- One pass of the loop over the answers.
  unfoldable pub process : Message → Fetch → Option Failure × Fetch
  process m f = elim m.body [
    | none ↦ (some (unreadable m.uid), failed (started f))
    | some p ↦ dispatch (action_of (matched p)) m p (count_match (matched p) (started f))
  ]

  -- The loop: after the first failure the rest is drained without a look.
  unfoldable pub fetch_each : List Message → Fetch → Option Failure × Fetch
  fetch_each [] f = (none, f)
  fetch_each (m ∷ ms) f =
      if faults.cancelled m.uid
      then (some shutdown, f)
      else let r = process m f in elim r.0 [ some e ↦ (some e, r.1) | none ↦ fetch_each ms r.1 ]

-- The server: the folder's UIDNEXT (`none` where SELECT fails), the answers of UID FETCH from a
-- UID on, in order, and whether the command ends in an error.
pub record Server : Type 0 where
  pub encodes : Bool
  pub uid_next : Option ℕ
  pub answers : ℕ → List Message
  pub breaks : Bool

abbrev pub no_stats : Stats
no_stats = record {
  processed = 0;
  archived = 0;
  skipped = 0;
  duplicates = 0;
  bytes = 0;
  errors = 0;
  index_errors = 0;
  rule_action_errors = 0;
  rule_matches = [];
}

-- An error of the command counts where no message failed before.
abbrev pub or_broken : Bool → Option Failure → Option Failure
or_broken breaks (some e) = some e
or_broken true none = some fetch_failed
or_broken false none = none

module _ (lib : GoLib) (faults : Faults) (t : Target) (rules : List Rule) where
  -- The part behind a SELECT that answered `uid_next`; UIDs are 32 bits wide.
  abbrev pub fetch_from : Server → ℕ → Fetch → Option Failure × Fetch
  fetch_from server uid_next f =
      let start_uid = f.last_uid + 1 in
      if leb uid_next start_uid
      then (none, f)
      else let r = fetch_each lib faults t rules (server.answers (start_uid % 2 ^ 32)) f in
        (or_broken server.breaks r.0, r.1)

  unfoldable pub fetch_new_messages : Bool → Bool → Server → Fetch → Option Failure × Fetch
  fetch_new_messages sync_enabled stopping server f =
      let g = record f { stats = no_stats } in
      if not sync_enabled
      then (none, g)
      else if stopping
      then (some shutdown, g)
      else if not server.encodes
      then (some encode_failed, g)
      else elim server.uid_next [ none ↦ (some select_failed, g) | some n ↦ fetch_from server n g ]
