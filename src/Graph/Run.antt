-- ===== src/Graph/Run.antt =====
-- `SyncAccountMSGraph` of internal/sync/msgraph_sync.go around the sync of one folder.
use marchi.Prelude.{
  ℕ, String, Bool, Option, none, some, List, [], ◌∷◌, ◌++◌, map, if◌then◌else◌, ◌==◌,
}
use marchi.Rules.Node.{Rule}
use marchi.Rules.Parse.{GoLib}
use marchi.Sync.Message.{Parsed}
use marchi.Sync.Archive.{Archive, Faults, Target}
use marchi.Sync.Fetch.{Stats, no_stats}
use marchi.Sync.Account.{add_stats}
use marchi.Gmail.Sync.{Batch}
use marchi.Gmail.Run.{SyncLog, LogStatus, completed, cancelled_log, failed_log}
use marchi.Graph.Server.{Graph}
use marchi.Graph.Folders.{FolderRef, Walk, walking, walk_failed, walked, list_folders_recursive}
use marchi.Graph.Sync.{
  GraphError, cancelled, folder_failed, maildir_failed, listing_failed, rules_failed,
  s3_config_failed,
}
use marchi.Graph.Delta.{
  FolderEnd, delta_paging, folder_stopped, folder_done, sync_one_ms_graph_folder,
}

-- What a sync meets on this side: the id of the folder's row that `UpsertFolder` returns, the
-- settings, and the steps that fail, by the folder.
pub record Office : Type 0 where
  pub account_id : ℕ
  pub has_index : Bool
  pub s3_key : Option (Parsed → String)
  pub upsert_folder : String → Option ℕ
  pub no_layout : String → Bool
  pub no_rules : Bool
  pub no_s3_config : Bool
  pub no_cursor : ℕ → Bool
  pub checking : ℕ → String → Bool
  pub faults : ℕ → Faults

-- `links` are the cursors of the folders, `results` the FolderResults: the folder and the number
-- of its messages that were archived.
pub record Run : Type 0 where
  pub store : Archive
  pub links : ℕ → String
  pub read : List String
  pub deleted : List String
  pub total : Stats
  pub results : List (Option ℕ × ℕ)

pub record GraphSynced : Type 0 where
  pub error : Option GraphError
  pub run : Run
  pub log : SyncLog
  pub recorded : List (List (ℕ × ℕ))

-- A request that fails does so for another reason than the shutdown.
abbrev pub graph_status_of : Option GraphError → LogStatus
graph_status_of none = completed
graph_status_of (some cancelled) = cancelled_log
graph_status_of (some _) = failed_log

abbrev pub graph_finish : Option GraphError → Stats → SyncLog
graph_finish e st = record {
  emails_processed = st.processed;
  emails_archived = st.archived;
  emails_skipped = st.skipped;
  bytes_downloaded = st.bytes;
  errors = st.errors;
  status = graph_status_of e;
}

-- The matches of a folder that failed are not added.
abbrev pub total_matches : Option GraphError → Stats → Stats → List (ℕ × ℕ)
total_matches none total st = (add_stats total st).rule_matches
total_matches (some e) total st = total.rule_matches

-- The folders behind the first error get an empty result.
abbrev pub skip_refs : List FolderRef → Run → Run
skip_refs refs r = record r { results = r.results ++ map (λ x. (none, 0)) refs }

abbrev pub without_result : Option ℕ → Run → Run
without_result row r = record r { results = r.results ++ (row, 0) ∷ [] }

abbrev pub after_folder : Option GraphError → ℕ → Batch → Run → Run
after_folder e row b r = record {
  store = b.store;
  links = r.links;
  read = b.read;
  deleted = b.trashed;
  total = record (add_stats r.total b.stats) { rule_matches = total_matches e r.total b.stats };
  results = r.results ++ (some row, b.stats.archived) ∷ [];
}

abbrev pub set_link : ℕ → String → (ℕ → String) → ℕ → String
set_link row link links f = if f == row then link else links f

abbrev pub end_folder : ℕ → FolderEnd → Run → Option (Option GraphError × Run)
end_folder row delta_paging r = none
end_folder row (folder_stopped e b) r = some (some e, after_folder (some e) row b r)
end_folder row (folder_done link b) r =
    some (none, record (after_folder none row b r) { links = set_link row link r.links })

module _ (lib : GoLib) (g : Graph) (o : Office) (rules : List Rule) where
  abbrev pub target_of : FolderRef → ℕ → Target
  target_of x row = record {
    account_id = o.account_id;
    folder_id = row;
    folder_name = x.name;
    has_index = o.has_index;
    s3_key = o.s3_key;
  }

  -- The folder as `UpsertFolder` returns it: LastUID is the stored watermark.
  abbrev pub open_folder : ℕ → Run → Batch
  open_folder row r = record {
    store = r.store;
    last_uid = r.store.last_uid row;
    read = r.read;
    trashed = r.deleted;
    stats = no_stats;
  }

  abbrev pub sync_ref : ℕ → FolderRef → ℕ → Run → FolderEnd
  sync_ref fuel x row r =
      sync_one_ms_graph_folder lib g (o.faults row) (o.checking row) (target_of x row) rules
        x.graph_id fuel (o.no_cursor row) (r.links row) (open_folder row r)

  abbrev pub prepared_folder : ℕ → FolderRef → Option ℕ → Run → Option (Option GraphError × Run)
  prepared_folder fuel x none r = some (some folder_failed, without_result none r)
  prepared_folder fuel x (some row) r =
      if o.no_layout x.name
      then some (some maildir_failed, without_result (some row) r)
      else end_folder row (sync_ref fuel x row r) r

  unfoldable pub graph_folder : ℕ → FolderRef → Run → Option (Option GraphError × Run)
  graph_folder fuel x r =
      if g.stopping_before x.name
      then some (some cancelled, without_result none r)
      else prepared_folder fuel x (o.upsert_folder x.name) r

  abbrev pub then_folders :
      List FolderRef
      → Option (Option GraphError × Run)
      → (Run → Option (Option GraphError × Run))
      → Option (Option GraphError × Run)
  then_folders refs none next = none
  then_folders refs (some (some e, r)) next = some (some e, skip_refs refs r)
  then_folders refs (some (none, r)) next = next r

  unfoldable pub graph_folders : ℕ → List FolderRef → Run → Option (Option GraphError × Run)
  graph_folders fuel [] r = some (none, r)
  graph_folders fuel (x ∷ refs) r =
      then_folders refs (graph_folder fuel x r) (graph_folders fuel refs)

  -- The matches are recorded whether or not a folder has failed.
  abbrev pub graph_close : Option (Option GraphError × Run) → Option GraphSynced
  graph_close none = none
  graph_close (some (e, r)) = some (record {
    error = e;
    run = r;
    log = graph_finish e r.total;
    recorded = r.total.rule_matches ∷ [];
  })

  abbrev pub graph_stop : GraphError → Run → GraphSynced
  graph_stop e r = record {
    error = some e;
    run = r;
    log = graph_finish (some e) no_stats;
    recorded = [];
  }

  abbrev pub graph_walked : ℕ → Walk → Run → Option GraphSynced
  graph_walked fuel walking r = none
  graph_walked fuel walk_failed r = some (graph_stop listing_failed r)
  graph_walked fuel (walked refs) r =
      if o.no_rules
      then some (graph_stop rules_failed r)
      else if o.no_s3_config
      then some (graph_stop s3_config_failed r)
      else graph_close (graph_folders fuel refs r)

  -- `depth` is the fuel of the walk and `fuel` that of each folder's pages. The totals and results
  -- of `r` are those of a sync that begins.
  unfoldable pub sync_account_ms_graph : ℕ → ℕ → Run → Option GraphSynced
  sync_account_ms_graph depth fuel r =
      graph_walked fuel (list_folders_recursive g depth)
        (record r { total = no_stats; results = [] })
