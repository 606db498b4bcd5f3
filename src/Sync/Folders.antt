-- ===== src/Sync/Folders.antt =====
-- `SyncFolders` of internal/sync/folders.go and `UpsertFolder` of internal/db/repo/folders.go. The
-- rows are those of one account, by their names; LastUID is the watermark of the archive.
use marchi.Prelude.{
  ℕ, suc, String, Bool, true, Option, none, some, List, [], ◌∷◌, ◌==◌, if◌then◌else◌,
}
use marchi.Prelude.Dict.{Dict, lookup, insert}

pub record FolderRow : Type 0 where
  pub id : ℕ
  pub uidvalidity : ℕ
  pub sync_enabled : Bool

pub record Folders : Type 0 where
  pub rows : Dict FolderRow
  pub next_id : ℕ
  pub last_uid : ℕ → ℕ

-- domain.Folder, as UpsertFolder returns it.
pub record Folder : Type 0 where
  pub id : ℕ
  pub folder_name : String
  pub last_uid : ℕ
  pub sync_enabled : Bool

-- A folder as the server lists it. `status` is its UIDVALIDITY, or `none` where STATUS fails.
pub record RemoteFolder : Type 0 where
  pub name : String
  pub no_select : Bool
  pub status : Option ℕ
  pub write_fails : Bool

pub data FoldersError : Type 0 where
  list_failed status_failed upsert_failed : FoldersError

abbrev pub set_last_uid : ℕ → ℕ → (ℕ → ℕ) → ℕ → ℕ
set_last_uid id uid last i = if i == id then uid else last i

-- The row that INSERT makes, or that DO UPDATE leaves.
abbrev pub upsert_row : Option FolderRow → String → ℕ → Folders → Folder × Folders
upsert_row none name uidvalidity s = (
  record { id = s.next_id; folder_name = name; last_uid = 0; sync_enabled = true },
  record {
    rows =
        insert name (record { id = s.next_id; uidvalidity = uidvalidity; sync_enabled = true })
          s.rows;
    next_id = suc s.next_id;
    last_uid = set_last_uid s.next_id 0 s.last_uid;
  },
)
upsert_row (some row) name uidvalidity s =
    let last : ℕ = if row.uidvalidity == uidvalidity then s.last_uid row.id else 0 in
    (
      record { id = row.id; folder_name = name; last_uid = last; sync_enabled = row.sync_enabled },
      record s {
        rows = insert name (record row { uidvalidity = uidvalidity }) s.rows;
        last_uid = set_last_uid row.id last s.last_uid;
      },
    )

unfoldable pub upsert_folder : String → ℕ → Folders → Folder × Folders
upsert_folder name uidvalidity s = upsert_row (lookup name s.rows) name uidvalidity s

-- The append to the result, which an error behind it drops.
abbrev pub add_folder :
    Folder
    → Option FoldersError × List Folder × Folders
    → Option FoldersError × List Folder × Folders
add_folder f (some e, folders, s) = (some e, [], s)
add_folder f (none, folders, s) = (none, f ∷ folders, s)

-- The folders returned, with the error that ends the loop; the writes before it stay.
unfoldable pub upsert_each :
    List RemoteFolder → Folders → Option FoldersError × List Folder × Folders
upsert_each [] s = (none, [], s)
upsert_each (r ∷ remotes) s =
    let rest = upsert_each remotes s in
    if r.no_select then rest else elim r.status [
      | none ↦ (some status_failed, [], s)
      | some uidvalidity ↦
          if r.write_fails
          then (some upsert_failed, [], s)
          else let u = upsert_folder r.name uidvalidity s in
            add_folder u.0 (upsert_each remotes u.1)
    ]

-- `none` where LIST fails.
unfoldable pub sync_folders :
    Option (List RemoteFolder) → Folders → Option FoldersError × List Folder × Folders
sync_folders none s = (some list_failed, [], s)
sync_folders (some remotes) s = upsert_each remotes s
