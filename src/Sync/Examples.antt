-- ===== src/Sync/Examples.antt =====
-- A fetch of three messages, with the theorems applied to it.
use marchi.Prelude.{
  List, ◌+◌, ◌%◌, ◌^◌, ◌≤◌, String, ◌≡◌, refl, inl, inr, true, false, none, some, [], ◌∷◌, arith,
  ◌==◌, str_eq, subst, sym,
}
use marchi.Prelude.Int.{pos}
use marchi.Rules.Node.{Rule, node, nil, no_op, subject_contains, archive_and_delete}
use marchi.Rules.Parse.{GoLib}
use marchi.Rules.Evaluate.{evaluate, evaluate_leaf, any, first_match}
use marchi.Sync.Message.{Message, Parsed}
use marchi.Sync.Archive.{
  Faults, Target, archive_one, persist, skip_one, exists_by_account_message_id,
}
use marchi.Sync.Fetch.{
  Fetch, Server, no_stats, fetch_new_messages, fetch_each, process, dispatch,
  apply_post_archive_rule_action, delete_message,
}
use marchi.Sync.Trace.{Accounted}
use marchi.Sync.Removed.{Has}
use marchi.Sync.Accounted.{Excused, fetch_new_messages-Accounted, fetch_new_messages-deletes}
use marchi.Sync.Counts.{fetch_new_messages-counts}
use marchi.Prelude.Dict.{empty, insert, lookup}
use marchi.Sync.Folders.{RemoteFolder, FolderRow, sync_folders, upsert_each, upsert_folder}
use marchi.Sync.Watermarks.{IsValid}
use marchi.Sync.Account.{Run, Sync, sync_account, folders_of}
use marchi.Sync.Totals.{sync_account-Kept}

abbrev go_lib : GoLib
go_lib = record { compile = λ p. some (λ s. str_eq p s); parse_time = λ s. none; fold = λ n. n }

-- The transaction of UID 13 fails.
abbrev one_fault : Faults
one_fault = record {
  cancelled = λ u. false;
  checking = λ u. false;
  skipping = λ u. false;
  staging = λ u. false;
  committing = λ u. false;
  persisting = λ u. u == 13;
  indexing = λ u. false;
  marking = λ u. false;
  flagging = λ u. false;
  deleting = λ u. false;
  uid_plus = false;
}

abbrev inbox : Target
inbox = record {
  account_id = 1;
  folder_id = 2;
  folder_name = "INBOX";
  has_index = true;
  s3_key = none;
}

abbrev clean_up : Rule
clean_up = record {
  id = 4;
  name = "clean up";
  priority = pos 0;
  conditions = node no_op nil subject_contains "report";
  action = archive_and_delete;
  is_active = true;
  match_count = 0;
}

abbrev letter : String → String → Parsed
letter id subject = record {
  raw = subject;
  size = 40;
  md = record {
    message_id = id;
    subject = subject;
    from = "a@b.c";
    from_addr = "a@b.c";
    to = [];
    to_addrs = [];
    cc = [];
    cc_addrs = [];
    date = pos 0;
  };
  attachments = [];
}

abbrev eleven : Message
eleven = record { uid = 11; flags = []; body = some (letter "<x@b.c>" "report") }

abbrev twelve : Message
twelve = record { uid = 12; flags = []; body = some (letter "" "hello") }

abbrev thirteen : Message
thirteen = record { uid = 13; flags = []; body = some (letter "<z@b.c>" "hello") }

abbrev server : Server
server = record {
  encodes = true;
  uid_next = some 14;
  answers = λ n. eleven ∷ twelve ∷ thirteen ∷ [];
  breaks = false;
}

abbrev before : Fetch
before = record {
  store = record {
    serial = 0;
    files = [];
    next_id = 1;
    rows = [];
    attachments = [];
    uploads = [];
    last_uid = λ f. 10;
    documents = [];
  };
  last_uid = 10;
  seen = [];
  flagged = 5 ∷ [];
  deleted = [];
  stats = no_stats;
}

abbrev after : Fetch
after = (fetch_new_messages go_lib one_fault inbox (clean_up ∷ []) true false server before).1

watermark_stops : after.store.last_uid 2 ≡ 12
unfolding fetch_new_messages fetch_each process dispatch apply_post_archive_rule_action
    delete_message archive_one persist skip_one exists_by_account_message_id first_match evaluate
    evaluate_leaf any
watermark_stops = refl

-- The server has no UID EXPUNGE, so that UID 5, which another client had flagged, goes with it.
report_deleted : after.deleted ≡ 11 ∷ 5 ∷ []
unfolding fetch_new_messages fetch_each process dispatch apply_post_archive_rule_action
    delete_message archive_one persist skip_one exists_by_account_message_id first_match evaluate
    evaluate_leaf any
report_deleted = refl

fetch_new_messages-Accounted_example :
    Accounted go_lib one_fault inbox (clean_up ∷ []) twelve after.store
fetch_new_messages-Accounted_example =
    fetch_new_messages-Accounted go_lib one_fault inbox (clean_up ∷ []) true false server before
      twelve refl (omega arith, (omega arith, (omega arith, tt))) (inr (inl refl)) (omega arith)
      (omega (arith, watermark_stops))

fetch_new_messages-deletes_example :
    Excused go_lib one_fault inbox
      (clean_up ∷ [])
      5
      (server.answers ((before.last_uid + 1) % 2 ^ 32))
      before
      after.store
fetch_new_messages-deletes_example =
    fetch_new_messages-deletes go_lib one_fault inbox (clean_up ∷ []) true false server before 5
      (subst (Has 5) (sym report_deleted) (inr (inl refl)))

fetch_new_messages-counts_example :
    let s = after.stats in
    (s.processed ≡ s.archived + s.skipped + s.duplicates + s.errors) × (s.errors ≤ 1)
fetch_new_messages-counts_example =
    fetch_new_messages-counts go_lib one_fault inbox (clean_up ∷ []) true false server before

-- A second folder, which the failure in the first one keeps from its turn. The server has given the
-- first one another UIDVALIDITY.
abbrev remotes : List RemoteFolder
remotes =
    record { name = "INBOX"; no_select = false; status = some 8; write_fails = false }
    ∷ record { name = "Sent"; no_select = false; status = some 1; write_fails = false }
    ∷ []

abbrev whole_account : Run
whole_account = record {
  account_id = 1;
  connected = true;
  listed = some remotes;
  rules = some (clean_up ∷ []);
  config_fails = false;
  has_index = true;
  s3_key = none;
  turns = λ name. record {
    stopping = false;
    prepared = true;
    flagged = 5 ∷ [];
    server = server;
    faults = one_fault;
  };
}

abbrev sent_row : FolderRow
sent_row = record { id = 1; uidvalidity = 1; sync_enabled = true }

abbrev account : Sync
account = record {
  store = before.store;
  folders =
      insert "INBOX" (record { id = 2; uidvalidity = 7; sync_enabled = true })
        (insert "Sent" sent_row empty);
  next_folder = 3;
  seen = [];
  deleted = [];
  total = no_stats;
  results = [];
}

-- UpsertFolder resets the watermark.
inbox_reset : (sync_folders whole_account.listed (folders_of account)).2.last_uid 2 ≡ 0
unfolding sync_folders upsert_each upsert_folder lookup insert empty
inbox_reset = refl

-- The other folder has the UIDVALIDITY of its row.
sent-IsValid : IsValid 1 account.folders remotes
unfolding lookup insert empty
sent-IsValid name row there same = (
  λ n v e.
      let there' = subst (λ k. lookup k account.folders ≡ some row) (sym n) there in
      let two : 2 ≡ row.id = cc there' in absurd (omega (arith, two, same)),
  (
    λ n v e.
        let there' : some sent_row ≡ some row =
          subst (λ k. lookup k account.folders ≡ some row) (sym n) there in
        cc (there', e),
    tt,
  ),
)

sent_stays :
    account.store.last_uid 1 ≤ (sync_account go_lib whole_account account).1.store.last_uid 1
sent_stays = (sync_account-Kept go_lib whole_account account).rises 1 (omega arith) (λ listed e.
    let same : remotes ≡ listed = cc e in subst (IsValid 1 account.folders) same sent-IsValid)
