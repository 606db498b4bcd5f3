-- ===== src/Graph/Ends.antt =====
-- `SyncAccountMSGraph` of internal/sync/msgraph_sync.go returns.
use marchi.Prelude.{
  ℕ, suc, ◌≤◌, String, ◌≡◌, refl, inl, inr, Bool, true, false, Option, none, some, List, [], ◌∷◌,
  arith, Bool-cases, str_eq, sym, subst,
}
use marchi.Rules.Node.{Rule}
use marchi.Rules.Parse.{GoLib}
use marchi.Sync.Archive.{Faults, Target}
use marchi.Gmail.Sync.{Batch}
use marchi.Graph.Server.{Graph, DeltaPage}
use marchi.Graph.Sync.{GraphError}
use marchi.Graph.Delta.{
  FolderEnd, delta_paging, folder_stopped, folder_done, delta_step, delta_loop, persist_cursor,
  sync_one_ms_graph_folder,
}
use marchi.Sync.Fetch.{no_stats}
use marchi.Graph.Folders.{FolderRef, walked, list_folders_recursive}
use marchi.Graph.Run.{
  Office, Run, GraphSynced, target_of, end_folder, prepared_folder, graph_folder, then_folders,
  graph_folders, graph_close, graph_walked, sync_account_ms_graph,
}
use marchi.Graph.Tree.{Forest, all_listed, height_all, ServesAll, list_folders_recursive-flatten}

-- The query has at most so many pages from a link on: it fails, or has a page behind which there are
-- fewer.
pub data Within (g : Graph) (folder : String) : ℕ → String → Type 0 where
  fails :
      (n : ℕ) (link : String) → g.delta_messages folder link ≡ none → Within g folder (suc n) link
  final :
      (n : ℕ) (link : String) (page : DeltaPage)
      → g.delta_messages folder link ≡ some page
      → str_eq page.next_link "" ≡ true
      → Within g folder (suc n) link
  more :
      (n : ℕ) (link : String) (page : DeltaPage)
      → g.delta_messages folder link ≡ some page
      → Within g folder n page.next_link
      → Within g folder (suc n) link

module _ (lib : GoLib) (g : Graph) (faults : Faults) (checking : String → Bool) (t : Target)
    (rules : List Rule) (folder : String) where
  -- Not out of fuel.
  abbrev pub HasEnded : FolderEnd → Type 0
  HasEnded delta_paging = ⊥
  HasEnded (folder_stopped e b) = Unit
  HasEnded (folder_done link b) = Unit

  step-HasEnded :
      (page : DeltaPage) (latest : String) (r : Option GraphError × Batch)
      (next : String → String → Batch → FolderEnd)
      → ((k : String) (c : Batch)
          → str_eq page.next_link "" ≡ false
          → HasEnded (next page.next_link k c))
      → HasEnded (delta_step lib g faults checking t rules folder page latest r next)
  step-HasEnded page latest (some e, c) next h = tt
  step-HasEnded page latest (none, c) next h = elim (Bool-cases (str_eq page.next_link "")) [
    | inl n ↦ simp (n) tt
    | inr n ↦ simp (n) (h _ c n)
  ]

  loop-HasEnded :
      (fuel : ℕ) {link : String} (latest : String) (b : Batch)
      → Within g folder fuel link
      → HasEnded (delta_loop lib g faults checking t rules folder fuel link latest b)
  unfolding delta_loop
  loop-HasEnded _ {link} latest b (fails n _ q) =
      elim (Bool-cases (g.stopping_at_page folder link)) [
        | inl s ↦ rw (s, delta_loop) tt
        | inr s ↦ rw (s, q, delta_loop) tt
      ]
  loop-HasEnded _ {link} latest b (final n _ page q l) =
      elim (Bool-cases (g.stopping_at_page folder link)) [
        | inl s ↦ rw (s, delta_loop) tt
        | inr s ↦
            rw (s, q, delta_loop) (step-HasEnded page latest _ _ (λ k c f. absurd (ground arith)))
      ]
  loop-HasEnded _ {link} latest b (more n _ page q w) =
      elim (Bool-cases (g.stopping_at_page folder link)) [
        | inl s ↦ rw (s, delta_loop) tt
        | inr s ↦
            rw (s, q, delta_loop) (step-HasEnded page latest _ _ (λ k c f. loop-HasEnded n k c w))
      ]

  persist-HasEnded :
      (cursor : Bool) (end : FolderEnd)
      → HasEnded end
      → HasEnded (persist_cursor lib g faults checking t rules folder cursor end)
  persist-HasEnded cursor delta_paging h = h
  persist-HasEnded cursor (folder_stopped e b) h = tt
  persist-HasEnded true (folder_done link b) h = tt
  persist-HasEnded false (folder_done link b) h = tt

  pub folder-HasEnded :
      (fuel : ℕ) (cursor : Bool) (link : String) (b : Batch)
      → Within g folder fuel link
      → HasEnded (sync_one_ms_graph_folder lib g faults checking t rules folder fuel cursor link b)
  unfolding sync_one_ms_graph_folder
  folder-HasEnded fuel cursor link b w = persist-HasEnded cursor _ (loop-HasEnded fuel "" b w)

module _ (lib : GoLib) (g : Graph) (o : Office) (rules : List Rule) where
  -- Some turn has a result.
  abbrev Returns : {A : Type 0} → Option A → Type 0
  Returns none = ⊥
  Returns (some x) = Unit

  end_folder-Returns :
      (x : FolderRef) (row : ℕ) (end : FolderEnd) (r : Run)
      → HasEnded lib g
          (o.faults row)
          (o.checking row)
          (target_of lib g o rules x row)
          rules
          x.graph_id
          end
      → Returns (end_folder row end r)
  end_folder-Returns x row delta_paging r h = h
  end_folder-Returns x row (folder_stopped e b) r h = tt
  end_folder-Returns x row (folder_done link b) r h = tt

  prepared-Returns :
      (fuel : ℕ) (x : FolderRef) (row : Option ℕ) (r : Run)
      → ((link : String) → Within g x.graph_id fuel link)
      → Returns (prepared_folder lib g o rules fuel x row r)
  prepared-Returns fuel x none r w = tt
  prepared-Returns fuel x (some row) r w = elim (Bool-cases (o.no_layout x.name)) [
    | inl n ↦ simp (n) tt
    | inr n ↦ simp (n) (
        end_folder-Returns x row _ r (
          folder-HasEnded lib g _ _ _ rules x.graph_id fuel (o.no_cursor row) (r.links row) _
            (w (r.links row))))
  ]

  graph_folder-Returns :
      (fuel : ℕ) (x : FolderRef) (r : Run)
      → ((link : String) → Within g x.graph_id fuel link)
      → Returns (graph_folder lib g o rules fuel x r)
  unfolding graph_folder
  graph_folder-Returns fuel x r w = elim (Bool-cases (g.stopping_before x.name)) [
    | inl s ↦ rw (s, graph_folder) tt
    | inr s ↦ rw (s, graph_folder) (prepared-Returns fuel x _ r w)
  ]

  then-Returns :
      (refs : List FolderRef) (q : Option (Option GraphError × Run))
      (next : Run → Option (Option GraphError × Run))
      → Returns q
      → ((c : Run) → Returns (next c))
      → Returns (then_folders lib g o rules refs q next)
  then-Returns refs none next h k = h
  then-Returns refs (some (some e, c)) next h k = tt
  then-Returns refs (some (none, c)) next h k = k c

  graph_folders-Returns :
      (fuel : ℕ) (refs : List FolderRef) (r : Run)
      → ((folder link : String) → Within g folder fuel link)
      → Returns (graph_folders lib g o rules fuel refs r)
  unfolding graph_folders
  graph_folders-Returns fuel [] r w = tt
  graph_folders-Returns fuel (x ∷ refs) r w =
      then-Returns refs _ _ (graph_folder-Returns fuel x r (w x.graph_id))
        (λ c. graph_folders-Returns fuel refs c w)

  close-Returns :
      (q : Option (Option GraphError × Run)) → Returns q → Returns (graph_close lib g o rules q)
  close-Returns none h = h
  close-Returns (some (e, r)) h = tt

  walked-Returns :
      (fuel : ℕ) (refs : List FolderRef) (r : Run)
      → ((folder link : String) → Within g folder fuel link)
      → Returns (graph_walked lib g o rules fuel (walked refs) r)
  walked-Returns fuel refs r w = elim (Bool-cases o.no_rules) [
    | inl a ↦ simp (a) tt
    | inr a ↦ elim (Bool-cases o.no_s3_config) [
      | inl b ↦ simp (a, b) tt
      | inr b ↦ simp (a, b) (close-Returns _ (graph_folders-Returns fuel refs r w))
    ]
  ]

  result : {A : Type 0} (q : Option A) → Returns q → (x : A) × (q ≡ some x)
  result none h = absurd h
  result (some x) h = (x, refl)

  -- A call returns. Where Graph gives the folders as a tree whose folders are nested at most `depth`
  -- deep, and each delta query fails or comes to its last page within `fuel` pages, whatever link it
  -- starts from, the call has a result.
  pub sync_account_ms_graph-returns :
      (depth fuel : ℕ) (ts : Forest) (r : Run)
      → ServesAll g ts
      → g.list_mail_folders ≡ some (all_listed ts)
      → height_all ts ≤ depth
      → ((folder link : String) → Within g folder fuel link)
      → (s : GraphSynced) × (sync_account_ms_graph lib g o rules depth fuel r ≡ some s)
  unfolding sync_account_ms_graph
  sync_account_ms_graph-returns depth fuel ts r serves e h w =
      let walk = list_folders_recursive-flatten g depth ts serves e h in
      let begun : Run = record r { total = no_stats; results = [] } in
      result (graph_walked lib g o rules fuel (list_folders_recursive g depth) begun) (
        subst (λ k. Returns (graph_walked lib g o rules fuel k begun)) (sym walk)
          (walked-Returns fuel _ begun w))
