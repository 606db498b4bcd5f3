-- ===== src/Sync/Account.antt =====
-- `SyncAccount` of internal/sync/account.go. The row of the sync log takes no part.
use marchi.Prelude.{
  ℕ, ◌+◌, ◌++◌, ◌==◌, String, Bool, false, not, Option, none, some, List, [], ◌∷◌, map,
  if◌then◌else◌,
}
use marchi.Rules.Node.{Rule}
use marchi.Rules.Parse.{GoLib}
use marchi.Sync.Message.{Parsed}
use marchi.Sync.Archive.{Archive, Faults, Target}
use marchi.Sync.Fetch.{Fetch, Failure, Server, Stats, no_stats, fetch_new_messages}
use marchi.Sync.Folders.{Folder, Folders, FolderRow, RemoteFolder, FoldersError, sync_folders}
use marchi.Prelude.Dict.{Dict}

-- A folder's turn: whether a shutdown was requested before it, whether its Maildir could be
-- prepared, what its mailbox has flagged \Deleted, and what its fetch meets.
pub record Turn : Type 0 where
  pub stopping : Bool
  pub prepared : Bool
  pub flagged : List ℕ
  pub server : Server
  pub faults : Faults

-- What a sync of the account `account_id` meets: `rules` is none where loading them fails, and
-- `config_fails` where loading the S3 settings does; `s3_key` gives the object keys where mirroring
-- is on.
pub record Run : Type 0 where
  pub account_id : ℕ
  pub connected : Bool
  pub listed : Option (List RemoteFolder)
  pub rules : Option (List Rule)
  pub config_fails : Bool
  pub has_index : Bool
  pub s3_key : Option (Parsed → String)
  pub turns : String → Turn

pub data SyncError : Type 0 where
  not_connected rules_failed config_failed cancelled layout_failed : SyncError
  listing : FoldersError → SyncError
  fetching : Failure → SyncError

-- `folders` and `next_folder` are the table of the folders, whose watermarks are in the archive;
-- `results` are the numbers of the FolderResults.
pub record Sync : Type 0 where
  pub store : Archive
  pub folders : Dict FolderRow
  pub next_folder : ℕ
  pub seen : List ℕ
  pub deleted : List ℕ
  pub total : Stats
  pub results : List ℕ

abbrev pub add_count : ℕ → ℕ → List (ℕ × ℕ) → List (ℕ × ℕ)
add_count id n [] = (id, n) ∷ []
add_count id n ((j, k) ∷ counts) =
    let rest = add_count id n counts in if j == id then (j, k + n) ∷ counts else (j, k) ∷ rest

abbrev pub add_counts : List (ℕ × ℕ) → List (ℕ × ℕ) → List (ℕ × ℕ)
add_counts [] counts = counts
add_counts ((id, n) ∷ more) counts = add_counts more (add_count id n counts)

-- A failed action on the server counts among the errors.
abbrev pub add_stats : Stats → Stats → Stats
add_stats total s = record {
  processed = total.processed + s.processed;
  archived = total.archived + s.archived;
  skipped = total.skipped + s.skipped;
  duplicates = total.duplicates + s.duplicates;
  bytes = total.bytes + s.bytes;
  errors = total.errors + (s.errors + s.rule_action_errors);
  index_errors = total.index_errors + s.index_errors;
  rule_action_errors = total.rule_action_errors;
  rule_matches = add_counts s.rule_matches total.rule_matches;
}

abbrev pub folder_target : Run → Folder → Target
folder_target w folder = record {
  account_id = w.account_id;
  folder_id = folder.id;
  folder_name = folder.folder_name;
  has_index = w.has_index;
  s3_key = w.s3_key;
}

abbrev pub opened : Folder → List ℕ → Sync → Fetch
opened folder flagged s = record {
  store = s.store;
  last_uid = folder.last_uid;
  seen = s.seen;
  flagged = flagged;
  deleted = s.deleted;
  stats = no_stats;
}

abbrev pub after_fetch : Sync → Fetch → Sync
after_fetch s f = record s {
  store = f.store;
  seen = f.seen;
  deleted = f.deleted;
  total = add_stats s.total f.stats;
  results = s.results ++ f.stats.archived ∷ [];
}

-- The folders behind the first error get an empty result.
abbrev pub skip_rest : List Folder → Sync → Sync
skip_rest folders s = record s { results = s.results ++ map (λ t. 0) folders }

-- The table of the folders as `SyncFolders` sees it.
abbrev pub folders_of : Sync → Folders
folders_of s = record { rows = s.folders; next_id = s.next_folder; last_uid = s.store.last_uid }

abbrev pub with_folders : Folders → Sync → Sync
with_folders d s = record s {
  store = record (s.store) { last_uid = d.last_uid };
  folders = d.rows;
  next_folder = d.next_id;
}

module _ (lib : GoLib) (w : Run) where
  -- The loop over the folders.
  unfoldable pub sync_each : List Rule → List Folder → Sync → Option SyncError × Sync
  sync_each rules [] s = (none, s)
  sync_each rules (folder ∷ folders) s =
      let t = w.turns folder.folder_name in
      if t.stopping
      then (some cancelled, skip_rest (folder ∷ folders) s)
      else if not t.prepared
      then (some layout_failed, skip_rest (folder ∷ folders) s)
      else let r =
          fetch_new_messages lib t.faults (folder_target w folder) rules folder.sync_enabled false
            t.server (opened folder t.flagged s) in
        elim r.0 [
          | some e ↦ (some (fetching e), skip_rest folders (after_fetch s r.1))
          | none ↦ sync_each rules folders (after_fetch s r.1)
        ]

  abbrev pub sync_listed :
      Option FoldersError × List Folder × Folders → Sync → Option SyncError × Sync
  sync_listed (some e, folders, d) s = (some (listing e), with_folders d s)
  sync_listed (none, folders, d) s = elim w.rules [
    | none ↦ (some rules_failed, with_folders d s)
    | some rules ↦
        if w.config_fails
        then (some config_failed, with_folders d s)
        else sync_each rules folders (with_folders d s)
  ]

  unfoldable pub sync_account : Sync → Option SyncError × Sync
  sync_account s =
      let fresh = record s { total = no_stats; results = [] } in
      if not w.connected
      then (some not_connected, fresh)
      else sync_listed (sync_folders w.listed (folders_of fresh)) fresh
