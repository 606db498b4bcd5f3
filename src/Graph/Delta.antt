-- ===== src/Graph/Delta.antt =====
-- The pages of a folder's delta query in `syncOneMSGraphFolder` of internal/sync/msgraph_sync.go,
-- and the cursor. The loop takes fuel, one for a page.
use marchi.Prelude.{ℕ, zero, suc, String, Bool, Option, none, some, List, if◌then◌else◌, str_eq}
use marchi.Rules.Node.{Rule}
use marchi.Rules.Parse.{GoLib}
use marchi.Sync.Archive.{Faults, Target}
use marchi.Gmail.Sync.{Batch}
use marchi.Graph.Server.{Graph, DeltaPage}
use marchi.Graph.Sync.{GraphError, cancelled, delta_failed, cursor_failed, process_stubs}

-- `delta_paging` is a query that has not come to its last page. Otherwise the folder ends with an
-- error and what was done before it, or with the new cursor.
pub data FolderEnd : Type 0 where
  delta_paging : FolderEnd
  folder_stopped : GraphError → Batch → FolderEnd
  folder_done : String → Batch → FolderEnd

abbrev pub newer_link : String → String → String
newer_link delta_link latest = if str_eq delta_link "" then latest else delta_link

module _ (lib : GoLib) (g : Graph) (faults : Faults) (checking : String → Bool) (t : Target)
    (rules : List Rule) (folder : String) where
  abbrev pub delta_step :
      DeltaPage
      → String
      → Option GraphError × Batch
      → (String → String → Batch → FolderEnd)
      → FolderEnd
  delta_step page latest (some e, b) next = folder_stopped e b
  delta_step page latest (none, b) next =
      if str_eq page.next_link ""
      then folder_done (newer_link page.delta_link latest) b
      else next page.next_link (newer_link page.delta_link latest) b

  abbrev pub delta_page :
      Option DeltaPage → String → Batch → (String → String → Batch → FolderEnd) → FolderEnd
  delta_page none latest b next = folder_stopped delta_failed b
  delta_page (some page) latest b next =
      delta_step page latest (process_stubs lib g faults checking t rules folder page.value b) next

  unfoldable pub delta_loop : ℕ → String → String → Batch → FolderEnd
  delta_loop zero link latest b = delta_paging
  delta_loop (suc fuel) link latest b =
      if g.stopping_at_page folder link
      then folder_stopped cancelled b
      else delta_page (g.delta_messages folder link) latest b (delta_loop fuel)

  -- Whether the cursor can be stored: `cursor` is that write failing.
  abbrev pub persist_cursor : Bool → FolderEnd → FolderEnd
  persist_cursor cursor delta_paging = delta_paging
  persist_cursor cursor (folder_stopped e b) = folder_stopped e b
  persist_cursor cursor (folder_done link b) =
      if cursor then folder_stopped cursor_failed b else folder_done link b

  unfoldable pub sync_one_ms_graph_folder : ℕ → Bool → String → Batch → FolderEnd
  sync_one_ms_graph_folder fuel cursor link b = persist_cursor cursor (delta_loop fuel link "" b)
