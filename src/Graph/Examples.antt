-- ===== src/Graph/Examples.antt =====
-- A sync of a mailbox with an inbox of two pages and a folder in it.
use marchi.Prelude.{
  String, ◌≡◌, refl, ◌⊎◌, inl, inr, true, false, Option, none, some, List, [], ◌∷◌, arith,
  Bool-cases, length, str_eq, if◌then◌else◌, Some, subst, sym,
}
use marchi.Rules.Evaluate.{evaluate, evaluate_leaf, any, first_match}
use marchi.Sync.Archive.{archive_one, persist, exists_by_account_message_id}
use marchi.Sync.Fetch.{no_stats}
use marchi.Gmail.Run.{completed}
use marchi.Gmail.Examples.{go_lib, no_faults, clean_up, note}
use marchi.Graph.Server.{Graph, MessageStub, DeltaPage}
use marchi.Graph.Folders.{FolderRef, walked, append_folder, list_folders_recursive}
use marchi.Graph.Sync.{apply_post_archive_ms_graph_rule_action, dispatch_stub, process_stubs}
use marchi.Graph.Delta.{delta_loop, sync_one_ms_graph_folder}
use marchi.Graph.Run.{Office, Run, GraphSynced, graph_folder, graph_folders, sync_account_ms_graph}
use marchi.Graph.Turned.{AreApart, Caught, SavedIn}
use marchi.Graph.Caught.{sync_account_ms_graph-Caught, sync_account_ms_graph-deletes}
use marchi.Graph.Tree.{
  Forest, folder, bare, grown, flatten, height, childless, parent, ServesAll, nothing, both,
  list_folders_recursive-flatten,
}
use marchi.Graph.Ends.{Within, fails, final, more, sync_account_ms_graph-returns}

abbrev stub : String → MessageStub
stub id = record { id = id; is_read = true; flag_status = none; removed = false }

abbrev gone_stub : MessageStub
gone_stub = record { id = "m0"; is_read = false; flag_status = none; removed = true }

abbrev inbox_page : DeltaPage
inbox_page = record { value = gone_stub ∷ stub "m1" ∷ []; next_link = "p2"; delta_link = "" }

abbrev last_page : DeltaPage
last_page = record { value = stub "report" ∷ []; next_link = ""; delta_link = "d1" }

abbrev reports_page : DeltaPage
reports_page = record { value = stub "m3" ∷ []; next_link = ""; delta_link = "d2" }

abbrev delta : String → String → Option DeltaPage
delta id link =
    if str_eq link "p2"
    then some last_page
    else if str_eq link ""
    then (if str_eq id "i" then some inbox_page else some reports_page)
    else none

abbrev folders : Forest
folders = grown (folder "i" "Inbox" (grown (folder "r" "Reports" bare) bare)) bare

abbrev graph : Graph
graph = record {
  list_mail_folders =
      some (record { id = "i"; display_name = "Inbox"; child_folder_count = 1 } ∷ []);
  list_child_folders =
      λ id. some (record { id = "r"; display_name = "Reports"; child_folder_count = 0 } ∷ []);
  delta_messages = delta;
  get_message_raw = λ id. some (note id);
  mark_read = λ id. false;
  delete = λ id. false;
  stopping_before = λ name. false;
  stopping_at_page = λ id link. false;
  stopping_at = λ id n. false;
}

abbrev office : Office
office = record {
  account_id = 1;
  has_index = true;
  s3_key = none;
  upsert_folder = λ name. if str_eq name "Inbox" then some 2 else some 3;
  no_layout = λ name. false;
  no_rules = false;
  no_s3_config = false;
  no_cursor = λ row. false;
  checking = λ row id. false;
  faults = λ row. no_faults;
}

abbrev fresh : Run
fresh = record {
  store = record {
    serial = 0;
    files = [];
    next_id = 1;
    rows = [];
    attachments = [];
    uploads = [];
    last_uid = λ f. 0;
    documents = [];
  };
  links = λ f. "";
  read = [];
  deleted = [];
  total = no_stats;
  results = [];
}

folders-ServesAll : ServesAll graph folders
folders-ServesAll =
    both _ _ (parent "i" "Inbox" _ _ refl (both _ _ (childless "r" "Reports") nothing)) nothing

abbrev refs : List FolderRef
refs =
    record { graph_id = "i"; name = "Inbox" }
    ∷ record { graph_id = "r"; name = "Inbox/Reports" }
    ∷ []

list_folders_recursive-flatten_example : list_folders_recursive graph 2 ≡ walked refs
unfolding height flatten
list_folders_recursive-flatten_example =
    list_folders_recursive-flatten graph 2 folders folders-ServesAll refl (omega arith)

two_pages : (id link : String) → Within graph id 2 link
two_pages id link = elim (Bool-cases (str_eq link "p2")) [
  | inl a ↦ final 1 link last_page (simp (a)) refl
  | inr a ↦ elim (Bool-cases (str_eq link "")) [
    | inr b ↦ fails 1 link (simp (a, b))
    | inl b ↦ elim (Bool-cases (str_eq id "i")) [
      | inr c ↦ final 1 link reports_page (simp (a, b, c)) refl
      | inl c ↦ more 1 link inbox_page (simp (a, b, c)) (final 0 "p2" last_page refl refl)
    ]
  ]
]

sync_account_ms_graph-returns_example :
    (s : GraphSynced) × (sync_account_ms_graph go_lib graph office (clean_up ∷ []) 2 2 fresh
      ≡ some s)
unfolding height
sync_account_ms_graph-returns_example =
    sync_account_ms_graph-returns go_lib graph office (clean_up ∷ []) 2 2 folders fresh
      folders-ServesAll refl (omega arith) two_pages

abbrev result_of : Option GraphSynced → GraphSynced
result_of none = record {
  error = none;
  run = fresh;
  log = record {
    emails_processed = 0;
    emails_archived = 0;
    emails_skipped = 0;
    bytes_downloaded = 0;
    errors = 0;
    status = completed;
  };
  recorded = [];
}
result_of (some s) = s

-- The three messages are archived, and the second one of the inbox is deleted.
abbrev good : GraphSynced
good = result_of (sync_account_ms_graph go_lib graph office (clean_up ∷ []) 2 2 fresh)

good_ran : sync_account_ms_graph go_lib graph office (clean_up ∷ []) 2 2 fresh ≡ some good
unfolding sync_account_ms_graph list_folders_recursive append_folder graph_folders graph_folder
    sync_one_ms_graph_folder delta_loop process_stubs dispatch_stub
    apply_post_archive_ms_graph_rule_action archive_one persist exists_by_account_message_id
    first_match evaluate evaluate_leaf any
good_ran = refl

good_link : good.run.links 2 ≡ "d1"
unfolding sync_account_ms_graph list_folders_recursive append_folder graph_folders graph_folder
    sync_one_ms_graph_folder delta_loop process_stubs dispatch_stub
    apply_post_archive_ms_graph_rule_action archive_one persist exists_by_account_message_id
    first_match evaluate evaluate_leaf any
good_link = refl

three_archived : length good.run.store.rows ≡ 3
unfolding sync_account_ms_graph list_folders_recursive append_folder graph_folders graph_folder
    sync_one_ms_graph_folder delta_loop process_stubs dispatch_stub
    apply_post_archive_ms_graph_rule_action archive_one persist exists_by_account_message_id
    first_match evaluate evaluate_leaf any
three_archived = refl

one_deleted : good.run.deleted ≡ "report" ∷ []
unfolding sync_account_ms_graph list_folders_recursive append_folder graph_folders graph_folder
    sync_one_ms_graph_folder delta_loop process_stubs dispatch_stub
    apply_post_archive_ms_graph_rule_action archive_one persist exists_by_account_message_id
    first_match evaluate evaluate_leaf any
one_deleted = refl

refs_apart : AreApart go_lib graph office (clean_up ∷ []) refs
refs_apart = (λ row u. ((λ v. absurd (ground (arith, u, v))), tt), ((λ row u. tt), tt))

sync_account_ms_graph-Caught_example :
    (good.run.links 2 ≡ "")
    ⊎ ((x : FolderRef) × Some (λ y. y ≡ x) refs
        × (office.upsert_folder x.name ≡ some 2)
        × Caught go_lib graph office (clean_up ∷ []) x 2 "" (good.run.links 2) good.run.store)
sync_account_ms_graph-Caught_example =
    sync_account_ms_graph-Caught go_lib graph office (clean_up ∷ []) 2 2 refs fresh good
      list_folders_recursive-flatten_example refs_apart good_ran 2

sync_account_ms_graph-deletes_example :
    Some (λ x. x ≡ "report") fresh.deleted
    ⊎ SavedIn go_lib graph office (clean_up ∷ []) "report" good.run.store
sync_account_ms_graph-deletes_example =
    sync_account_ms_graph-deletes go_lib graph office (clean_up ∷ []) 2 2 refs fresh good "report"
      list_folders_recursive-flatten_example good_ran
      (subst (λ l. Some (λ x. x ≡ "report") l) (sym one_deleted) (inl refl))
