-- ===== src/Graph/Fetched.antt =====
-- How `syncOneMSGraphFolder` of internal/sync/msgraph_sync.go ends.
use marchi.Prelude.{
  ℕ, zero, suc, String, ◌≡◌, refl, inl, inr, Bool, true, false, Option, none, some, List, ◌++◌,
  Bool-cases, str_eq, All, All-map, All-append,
}
use marchi.Rules.Node.{Rule}
use marchi.Rules.Parse.{GoLib}
use marchi.Sync.Archive.{Faults, Target}
use marchi.Gmail.Sync.{Batch}
use marchi.Graph.Server.{Graph, MessageStub, DeltaPage}
use marchi.Graph.Sync.{GraphError}
use marchi.Graph.Delta.{
  FolderEnd, delta_paging, folder_stopped, folder_done, newer_link, delta_step, delta_page,
  delta_loop, persist_cursor, sync_one_ms_graph_folder,
}
use marchi.Graph.Trace.{Dealt, Dealt-Grows, Kept, Kept-refl, Kept-trans, Ends, process_stubs-Ends}

-- The pages of a folder's delta query from a link on, with all of their entries, and the last
-- delta link that one of them has.
pub data Deltas (g : Graph) (folder : String)
    : String → String → List MessageStub → String → Type 0 where
  last :
      (link latest : String) (page : DeltaPage)
      → g.delta_messages folder link ≡ some page
      → str_eq page.next_link "" ≡ true
      → Deltas g folder link latest page.value (newer_link page.delta_link latest)
  more :
      (link latest : String) (page : DeltaPage) (rest : List MessageStub) (final : String)
      → g.delta_messages folder link ≡ some page
      → str_eq page.next_link "" ≡ false
      → Deltas g folder page.next_link (newer_link page.delta_link latest) rest final
      → Deltas g folder link latest (page.value ++ rest) final

module _ (lib : GoLib) (g : Graph) (faults : Faults) (checking : String → Bool) (t : Target)
    (rules : List Rule) (folder : String) where
  -- How the sync of one folder ends: cut short, or behind the last page with every message dealt
  -- with.
  pub data Fetched (link latest : String) (b : Batch) : FolderEnd → Type 0 where
    paging : Fetched link latest b delta_paging
    stopped :
        (e : GraphError) (c : Batch)
        → Kept lib g faults checking t rules folder b c
        → Fetched link latest b (folder_stopped e c)
    done :
        (stubs : List MessageStub) (final : String) (c : Batch)
        → Kept lib g faults checking t rules folder b c
        → Deltas g folder link latest stubs final
        → All (Dealt lib g faults checking t rules folder c.store) stubs
        → Fetched link latest b (folder_done final c)

  Fetched-more :
      (link latest : String) (page : DeltaPage) (b c : Batch) (end : FolderEnd)
      → g.delta_messages folder link ≡ some page
      → str_eq page.next_link "" ≡ false
      → Ends lib g faults checking t rules folder page.value b (none, c)
      → Fetched page.next_link (newer_link page.delta_link latest) c end
      → Fetched link latest b end
  Fetched-more link latest page b c _ q n h paging = paging
  Fetched-more link latest page b c _ q n h (stopped e d k) =
      stopped e d (Kept-trans lib g faults checking t rules folder b c d h.kept k)
  Fetched-more link latest page b c _ q n h (done stubs final d k ds dealt) =
      done (page.value ++ stubs) final d
        (Kept-trans lib g faults checking t rules folder b c d h.kept k)
        (more link latest page stubs final q n ds)
        (All-append _ page.value stubs
          (All-map _ _
            (λ s. Dealt-Grows lib g faults checking t rules folder s c.store d.store k.grows)
            page.value (h.dealt refl))
          dealt)

  step-Fetched :
      (link latest : String) (page : DeltaPage) (b : Batch) (r : Option GraphError × Batch)
      (next : String → String → Batch → FolderEnd)
      → g.delta_messages folder link ≡ some page
      → Ends lib g faults checking t rules folder page.value b r
      → ((l k : String) (c : Batch) → Fetched l k c (next l k c))
      → Fetched link latest b (delta_step lib g faults checking t rules folder page latest r next)
  step-Fetched link latest page b (some e, c) next q h rest = stopped e c h.kept
  step-Fetched link latest page b (none, c) next q h rest =
      elim (Bool-cases (str_eq page.next_link "")) [
        | inl n ↦ simp (n) (done page.value _ c h.kept (last link latest page q n) (h.dealt refl))
        | inr n ↦ simp (n) (Fetched-more link latest page b c _ q n h (rest _ _ c))
      ]

  page-Fetched :
      (link latest : String) (answer : Option DeltaPage) (b : Batch)
      (next : String → String → Batch → FolderEnd)
      → g.delta_messages folder link ≡ answer
      → ((l k : String) (c : Batch) → Fetched l k c (next l k c))
      → Fetched link latest b (delta_page lib g faults checking t rules folder answer latest b next)
  page-Fetched link latest none b next q rest =
      stopped _ b (Kept-refl lib g faults checking t rules folder b)
  page-Fetched link latest (some page) b next q rest =
      step-Fetched link latest page b _ next q
        (process_stubs-Ends lib g faults checking t rules folder page.value b) rest

  loop-Fetched :
      (fuel : ℕ) (link latest : String) (b : Batch)
      → Fetched link latest b (delta_loop lib g faults checking t rules folder fuel link latest b)
  unfolding delta_loop
  loop-Fetched zero link latest b = paging
  loop-Fetched (suc fuel) link latest b = elim (Bool-cases (g.stopping_at_page folder link)) [
    | inl s ↦ rw (s, delta_loop) (stopped _ b (Kept-refl lib g faults checking t rules folder b))
    | inr s ↦ rw (s, delta_loop) (page-Fetched link latest _ b _ refl (loop-Fetched fuel))
  ]

  persist-Fetched :
      (cursor : Bool) (link latest : String) (b : Batch) (end : FolderEnd)
      → Fetched link latest b end
      → Fetched link latest b (persist_cursor lib g faults checking t rules folder cursor end)
  persist-Fetched cursor link latest b _ paging = paging
  persist-Fetched cursor link latest b _ (stopped e c k) = stopped e c k
  persist-Fetched true link latest b _ (done stubs final c k ds dealt) = stopped _ c k
  persist-Fetched false link latest b _ (done stubs final c k ds dealt) =
      done stubs final c k ds dealt

  pub folder-Fetched :
      (fuel : ℕ) (cursor : Bool) (link : String) (b : Batch)
      → Fetched link "" b
          (sync_one_ms_graph_folder lib g faults checking t rules folder fuel cursor link b)
  unfolding sync_one_ms_graph_folder
  folder-Fetched fuel cursor link b =
      persist-Fetched cursor link "" b _ (loop-Fetched fuel link "" b)
