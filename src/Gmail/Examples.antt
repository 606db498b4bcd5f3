-- ===== src/Gmail/Examples.antt =====
-- Syncs of a mailbox with three messages, of which the last is gone in the second run.
use marchi.Prelude.{
  String, ◌≡◌, refl, ◌⊎◌, inl, inr, Bool, true, false, Option, none, some, List, [], ◌∷◌, arith,
  length, str_eq, if◌then◌else◌, Some, All, subst, sym,
}
use marchi.Prelude.Int.{pos}
use marchi.Rules.Node.{Rule, node, nil, no_op, subject_contains, archive_and_delete}
use marchi.Rules.Parse.{GoLib}
use marchi.Rules.Evaluate.{evaluate, evaluate_leaf, any, first_match}
use marchi.Sync.Message.{Parsed}
use marchi.Sync.Archive.{Faults, Target, archive_one, persist, exists_by_account_message_id}
use marchi.Gmail.Server.{
  Gmail, MessageList, history_expired, RawAnswer, not_fetched, raw, listed, list_all_message_ids,
  resolve_message_ids,
}
use marchi.Gmail.Sync.{apply_post_archive_gmail_rule_action, dispatch_raw, process_ids}
use marchi.Gmail.Run.{Mailbox, Obstacles, Synced, completed, sync_account_gmail_api}
use marchi.Gmail.Trace.{Accounted, HasCopy}
use marchi.Gmail.Accounted.{sync_account_gmail_api-Accounted, sync_account_gmail_api-trashes}
use marchi.Gmail.Stuck.{Call, IsMissing, Calls, done, call, Fails, Calls-Fails}
use marchi.Gmail.Pages.{Pages, last, more, first, resolve_message_ids-Source}

abbrev pub go_lib : GoLib
go_lib = record { compile = λ p. some (λ s. str_eq p s); parse_time = λ s. none; fold = λ n. n }

abbrev pub no_faults : Faults
no_faults = record {
  cancelled = λ u. false;
  checking = λ u. false;
  skipping = λ u. false;
  staging = λ u. false;
  committing = λ u. false;
  persisting = λ u. false;
  indexing = λ u. false;
  marking = λ u. false;
  flagging = λ u. false;
  deleting = λ u. false;
  uid_plus = false;
}

abbrev no_obstacles : Obstacles
no_obstacles = record {
  folder = false;
  maildir = false;
  rules = false;
  s3_config = false;
  cursor = false;
  checking = λ id. false;
}

abbrev pub all_mail : Target
all_mail = record {
  account_id = 1;
  folder_id = 2;
  folder_name = "All Mail";
  has_index = true;
  s3_key = none;
}

abbrev pub clean_up : Rule
clean_up = record {
  id = 4;
  name = "clean up";
  priority = pos 0;
  conditions = node no_op nil subject_contains "report";
  action = archive_and_delete;
  is_active = true;
  match_count = 0;
}

-- Without a Message-ID.
abbrev pub note : String → Parsed
note subject = record {
  raw = subject;
  size = 40;
  md = record {
    message_id = "";
    subject = subject;
    from = "a@b.c";
    from_addr = "a@b.c";
    to = [];
    to_addrs = [];
    cc = [];
    cc_addrs = [];
    date = pos 0;
  };
  attachments = [];
}

abbrev page_at : String → Option MessageList
page_at token =
    if str_eq token ""
    then some (record { messages = "m1" ∷ "m2" ∷ []; next_page_token = "p2" })
    else some (record { messages = "m3" ∷ []; next_page_token = "" })

abbrev given : Bool → String → RawAnswer
given there id =
    if str_eq id "m3"
    then (if there then raw ("STARRED" ∷ []) (note "report") else not_fetched)
    else raw ("UNREAD" ∷ []) (note id)

-- `there` says whether the third message still exists.
abbrev gmail : Bool → Gmail
gmail there = record {
  profile = some "77";
  list_messages = page_at;
  list_history = λ start token. history_expired;
  get_message_raw = given there;
  modify_labels = λ id. false;
  trash = λ id. false;
  stopping_at_page = λ token. false;
  stopping_at = λ n. false;
}

abbrev pub new_mailbox : Mailbox
new_mailbox = record {
  store = record {
    serial = 0;
    files = [];
    next_id = 1;
    rows = [];
    attachments = [];
    uploads = [];
    last_uid = λ f. 0;
    documents = [];
  };
  history_id = "";
  read = [];
  trashed = [];
  recorded = [];
}

abbrev run : Bool → Mailbox → Option Synced
run there =
    sync_account_gmail_api go_lib (gmail there) no_faults no_obstacles all_mail (clean_up ∷ []) 5

abbrev result_of : Option Synced → Synced
result_of none = record {
  error = none;
  mailbox = new_mailbox;
  log = record {
    emails_processed = 0;
    emails_archived = 0;
    emails_skipped = 0;
    bytes_downloaded = 0;
    errors = 0;
    status = completed;
  };
}
result_of (some s) = s

-- All three are archived, and the third is moved to the trash.
abbrev good : Synced
good = result_of (run true new_mailbox)

good_ran : run true new_mailbox ≡ some good
unfolding sync_account_gmail_api resolve_message_ids list_all_message_ids process_ids dispatch_raw
    apply_post_archive_gmail_rule_action archive_one persist exists_by_account_message_id
    first_match evaluate evaluate_leaf any
good_ran = refl

good_cursor : good.mailbox.history_id ≡ "77"
unfolding sync_account_gmail_api resolve_message_ids list_all_message_ids process_ids dispatch_raw
    apply_post_archive_gmail_rule_action archive_one persist exists_by_account_message_id
    first_match evaluate evaluate_leaf any
good_cursor = refl

third_trashed : good.mailbox.trashed ≡ "m3" ∷ []
unfolding sync_account_gmail_api resolve_message_ids list_all_message_ids process_ids dispatch_raw
    apply_post_archive_gmail_rule_action archive_one persist exists_by_account_message_id
    first_match evaluate evaluate_leaf any
third_trashed = refl

sync_account_gmail_api-Accounted_example :
    (good.mailbox.history_id ≡ "")
    ⊎ ((ids : List String) × (resolve_message_ids (gmail true) 5 ""
          ≡ listed ids good.mailbox.history_id)
        × All
            (λ id.
              Accounted go_lib
                (gmail true)
                no_faults
                (λ i. false)
                all_mail
                (clean_up ∷ [])
                id
                good.mailbox.store)
            ids)
sync_account_gmail_api-Accounted_example =
    sync_account_gmail_api-Accounted go_lib (gmail true) no_faults no_obstacles all_mail
      (clean_up ∷ []) 5 new_mailbox good good_ran

sync_account_gmail_api-trashes_example :
    Some (λ x. x ≡ "m3") new_mailbox.trashed
    ⊎ HasCopy go_lib
        (gmail true)
        no_faults
        (λ i. false)
        all_mail
        (clean_up ∷ [])
        "m3"
        good.mailbox.store
sync_account_gmail_api-trashes_example =
    sync_account_gmail_api-trashes go_lib (gmail true) no_faults no_obstacles all_mail
      (clean_up ∷ []) 5 new_mailbox good "m3" good_ran
      (subst (λ l. Some (λ x. x ≡ "m3") l) (sym third_trashed) (inl refl))

-- The third message is gone: the first two are archived again by each call.
abbrev bad : Synced
bad = result_of (run false new_mailbox)

abbrev bad_again : Synced
bad_again = result_of (run false bad.mailbox)

bad_ran : run false new_mailbox ≡ some bad
unfolding sync_account_gmail_api resolve_message_ids list_all_message_ids process_ids dispatch_raw
    apply_post_archive_gmail_rule_action archive_one persist exists_by_account_message_id
    first_match evaluate evaluate_leaf any
bad_ran = refl

bad_ran_again : run false bad.mailbox ≡ some bad_again
unfolding sync_account_gmail_api resolve_message_ids list_all_message_ids process_ids dispatch_raw
    apply_post_archive_gmail_rule_action archive_one persist exists_by_account_message_id
    first_match evaluate evaluate_leaf any
bad_ran_again = refl

archived_twice : length bad_again.mailbox.store.rows ≡ 4
unfolding sync_account_gmail_api resolve_message_ids list_all_message_ids process_ids dispatch_raw
    apply_post_archive_gmail_rule_action archive_one persist exists_by_account_message_id
    first_match evaluate evaluate_leaf any
archived_twice = refl

abbrev missing_call : Call
missing_call = record {
  gmail = gmail false;
  faults = no_faults;
  obstacles = no_obstacles;
  fuel = 5;
}

third-IsMissing : IsMissing "m3" "" missing_call
unfolding resolve_message_ids list_all_message_ids
third-IsMissing = record {
  ids = "m1" ∷ "m2" ∷ "m3" ∷ [];
  next = "77";
  resolved = refl;
  among = inr (inr (inl refl));
  missing = refl;
}

two-Calls :
    Calls go_lib all_mail
      (clean_up ∷ [])
      (missing_call ∷ missing_call ∷ [])
      new_mailbox
      (bad ∷ bad_again ∷ [])
      bad_again.mailbox
two-Calls =
    call missing_call (missing_call ∷ []) bad bad_ran
      (call missing_call [] bad_again bad_ran_again (done bad_again.mailbox))

Calls-Fails_example :
    All (Fails go_lib all_mail (clean_up ∷ [])) (bad ∷ bad_again ∷ [])
    × (bad_again.mailbox.history_id ≡ "")
Calls-Fails_example =
    Calls-Fails go_lib all_mail (clean_up ∷ []) "m3" (third-IsMissing, (third-IsMissing, tt))
      two-Calls

two-Pages : Pages (gmail true) "" (("m1" ∷ "m2" ∷ []) ∷ ("m3" ∷ []) ∷ [])
two-Pages =
    more "" (record { messages = "m1" ∷ "m2" ∷ []; next_page_token = "p2" }) _ refl refl refl
      (last "p2" (record { messages = "m3" ∷ []; next_page_token = "" }) refl refl refl)

resolve_message_ids-Source_example :
    resolve_message_ids (gmail true) 2 "" ≡ listed ("m1" ∷ "m2" ∷ "m3" ∷ []) "77"
resolve_message_ids-Source_example =
    resolve_message_ids-Source (gmail true) 2 (first refl refl two-Pages) (omega arith)
