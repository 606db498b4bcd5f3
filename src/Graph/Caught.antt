-- ===== src/Graph/Caught.antt =====
-- The cursors that `SyncAccountMSGraph` of internal/sync/msgraph_sync.go stores, and what it
-- deletes.
use marchi.Prelude.{
  ℕ, String, ◌≡◌, ◌⊎◌, inl, inr, Option, none, some, List, [], arith, Bool-cases, subst, Some,
}
use marchi.Rules.Node.{Rule}
use marchi.Rules.Parse.{GoLib}
use marchi.Sync.Fetch.{no_stats}
use marchi.Graph.Server.{Graph}
use marchi.Graph.Folders.{FolderRef, walked, list_folders_recursive}
use marchi.Graph.Sync.{GraphError}
use marchi.Graph.Run.{Office, Run, GraphSynced, graph_close, graph_walked, sync_account_ms_graph}
use marchi.Graph.Turns.{graph_folders-Turned}
use marchi.Graph.Turned.{AreApart, Caught, SavedIn, Turned, IfTurned, same-Turned}

module _ (lib : GoLib) (g : Graph) (o : Office) (rules : List Rule) where
  -- A call ends before its folders, with nothing changed, or runs their turns.
  Synced-Turned :
      (refs : List FolderRef) (r : Run) (q : Option (Option GraphError × Run)) (s : GraphSynced)
      → IfTurned lib g o rules refs r q
      → graph_close lib g o rules q ≡ some s
      → Turned lib g o rules refs r s.run
  Synced-Turned refs r none s h e = absurd (ground arith)
  Synced-Turned refs r (some (e', r')) s h e = subst (Turned lib g o rules refs r) (grind arith) h

  walked-Turned :
      (fuel : ℕ) (refs : List FolderRef) (r : Run) (s : GraphSynced)
      → graph_walked lib g o rules fuel (walked refs) r ≡ some s
      → Turned lib g o rules refs r s.run
  walked-Turned fuel refs r s h = elim (Bool-cases o.no_rules) [
    | inl a ↦ same-Turned lib g o rules refs r _ (grind arith) (grind arith) (grind arith)
    | inr a ↦ elim (Bool-cases o.no_s3_config) [
      | inl b ↦ same-Turned lib g o rules refs r _ (grind arith) (grind arith) (grind arith)
      | inr b ↦
          Synced-Turned refs r _ s (graph_folders-Turned lib g o rules fuel refs r) (grind arith)
    ]
  ]

  begun-Turned :
      (refs : List FolderRef) (r : Run) (s : GraphSynced)
      → Turned lib g o rules refs (record r { total = no_stats; results = [] }) s.run
      → Turned lib g o rules refs r s.run
  begun-Turned refs r s h = record { grows = h.grows; gone = h.gone; links = h.links }

  sync-Turned :
      (depth fuel : ℕ) (refs : List FolderRef) (r : Run) (s : GraphSynced)
      → list_folders_recursive g depth ≡ walked refs
      → sync_account_ms_graph lib g o rules depth fuel r ≡ some s
      → Turned lib g o rules refs r s.run
  unfolding sync_account_ms_graph
  sync-Turned depth fuel refs r s w h = begun-Turned refs r s (
      walked-Turned fuel refs (record r { total = no_stats; results = [] }) s
        (subst
          (λ k.
            graph_walked lib g o rules fuel k (record r { total = no_stats; results = [] })
            ≡ some s)
          w h))

  -- No message is lost in a folder. Where no two of the folders that the walk found have the same
  -- row, a call leaves the cursor of a row as it was, so that the next call asks for the same again,
  -- or it has read the delta query of one of these folders from the old cursor to its last page, the
  -- new cursor is the last delta link that the pages gave, and each entry of them stands for a
  -- deletion or for a message that Graph has given and that a rule says to skip, or that the archive
  -- has: a row of the folder with its file, or a row of the account with its Message-ID. This holds
  -- whatever fails.
  pub sync_account_ms_graph-Caught :
      (depth fuel : ℕ) (refs : List FolderRef) (r : Run) (s : GraphSynced)
      → list_folders_recursive g depth ≡ walked refs
      → AreApart lib g o rules refs
      → sync_account_ms_graph lib g o rules depth fuel r ≡ some s
      → (row : ℕ)
      → (s.run.links row ≡ r.links row)
        ⊎ ((x : FolderRef) × Some (λ y. y ≡ x) refs
            × (o.upsert_folder x.name ≡ some row)
            × Caught lib g o rules x row (r.links row) (s.run.links row) s.run.store)
  sync_account_ms_graph-Caught depth fuel refs r s w apart h row =
      (sync-Turned depth fuel refs r s w h).links apart row

  -- A message that a call deletes on the server is in the archive after it: a row of a folder leads
  -- to a file with its bytes, or the account has a row with its Message-ID.
  pub sync_account_ms_graph-deletes :
      (depth fuel : ℕ) (refs : List FolderRef) (r : Run) (s : GraphSynced) (id : String)
      → list_folders_recursive g depth ≡ walked refs
      → sync_account_ms_graph lib g o rules depth fuel r ≡ some s
      → Some (λ x. x ≡ id) s.run.deleted
      → Some (λ x. x ≡ id) r.deleted ⊎ SavedIn lib g o rules id s.run.store
  sync_account_ms_graph-deletes depth fuel refs r s id w h m =
      (sync-Turned depth fuel refs r s w h).gone id m
