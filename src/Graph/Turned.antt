-- ===== src/Graph/Turned.antt =====
-- The folders of `SyncAccountMSGraph` of internal/sync/msgraph_sync.go one after another: the cursors
-- that change, and what is deleted.
use marchi.Prelude.{
  ℕ, String, ◌≡◌, refl, ◌⊎◌, inl, inr, Option, none, some, List, [], ◌∷◌, arith, Bool-cases, ap,
  sym, subst, ◌==◌, Some, All, All-map,
}
use marchi.Rules.Node.{Rule}
use marchi.Rules.Parse.{GoLib}
use marchi.Sync.Archive.{Archive}
use marchi.Sync.Effect.{Grows, Grows-refl}
use marchi.Gmail.Sync.{Batch}
use marchi.Graph.Server.{Graph, MessageStub}
use marchi.Graph.Folders.{FolderRef}
use marchi.Graph.Sync.{GraphError}
use marchi.Graph.Delta.{FolderEnd}
use marchi.Graph.Trace.{Dealt, Dealt-Grows, Saved, Saved-Grows, Kept}
use marchi.Graph.Fetched.{Deltas, Fetched, paging, stopped, done}
use marchi.Graph.Run.{Office, Run, target_of, open_folder, end_folder, set_link}

module _ (lib : GoLib) (g : Graph) (o : Office) (rules : List Rule) where
  -- No two of the folders have the same row.
  abbrev pub AreApart : List FolderRef → Type 0
  AreApart [] = Unit
  AreApart (x ∷ xs) =
      ((row : ℕ)
        → o.upsert_folder x.name ≡ some row
        → All (λ y. ¬ (o.upsert_folder y.name ≡ some row)) xs)
      × AreApart xs

  abbrev pub DealtIn : FolderRef → ℕ → Archive → MessageStub → Type 0
  DealtIn x row =
      Dealt lib g (o.faults row) (o.checking row) (target_of lib g o rules x row) rules x.graph_id

  -- The folder's delta query from one link leads to the other, and its messages are dealt with.
  pub record Caught (x : FolderRef) (row : ℕ) (link next : String) (a : Archive) : Type 0 where
    pub stubs : List MessageStub
    pub deltas : Deltas g x.graph_id link "" stubs next
    pub dealt : All (DealtIn x row a) stubs

  -- The message is in the archive, behind the row of a folder or known by its Message-ID.
  pub record SavedIn (id : String) (a : Archive) : Type 0 where
    pub ref : FolderRef
    pub row : ℕ
    pub ready : o.upsert_folder ref.name ≡ some row
    pub saved :
        Saved lib g
          (o.faults row)
          (o.checking row)
          (target_of lib g o rules ref row)
          rules
          ref.graph_id
          id
          a

  pub Caught-Grows :
      (x : FolderRef) (row : ℕ) (link next : String) (a b : Archive)
      → Grows a b
      → Caught x row link next a
      → Caught x row link next b
  Caught-Grows x row link next a b grow h = record {
    stubs = h.stubs;
    deltas = h.deltas;
    dealt = All-map _ _ (λ s. Dealt-Grows lib g _ _ _ rules x.graph_id s a b grow) h.stubs h.dealt;
  }

  pub SavedIn-Grows : (id : String) (a b : Archive) → Grows a b → SavedIn id a → SavedIn id b
  SavedIn-Grows id a b grow h = record {
    ref = h.ref;
    row = h.row;
    ready = h.ready;
    saved = Saved-Grows lib g _ _ _ rules h.ref.graph_id id a b grow h.saved;
  }

  abbrev pub Deleted : String → Run → Run → Type 0
  Deleted id r r' =
      Some (λ x. x ≡ id) r'.deleted → Some (λ x. x ≡ id) r.deleted ⊎ SavedIn id r'.store

  -- What the turns of some folders have done.
  pub record Turned (refs : List FolderRef) (r r' : Run) : Type 0 where
    pub grows : Grows r.store r'.store
    pub gone : (id : String) → Deleted id r r'
    pub links :
        AreApart refs
        → (f : ℕ)
        → (r'.links f ≡ r.links f)
          ⊎ ((x : FolderRef) × Some (λ y. y ≡ x) refs
              × (o.upsert_folder x.name ≡ some f)
              × Caught x f (r.links f) (r'.links f) r'.store)

  abbrev pub IfTurned : List FolderRef → Run → Option (Option GraphError × Run) → Type 0
  IfTurned refs r none = Unit
  IfTurned refs r (some (e, r')) = Turned refs r r'

  pub same-Turned :
      (refs : List FolderRef) (r r' : Run)
      → r'.store ≡ r.store
      → r'.links ≡ r.links
      → r'.deleted ≡ r.deleted
      → Turned refs r r'
  same-Turned refs r r' s l d = record {
    grows = subst (Grows r.store) (sym s) (Grows-refl r.store);
    gone = λ id m. inl (subst (Some (λ x. x ≡ id)) d m);
    links = λ _ f. inl (ap (λ (k : ℕ → String). k f) l);
  }

  Kept-gone :
      (x : FolderRef) (row : ℕ) (id : String) (b c : Batch)
      → o.upsert_folder x.name ≡ some row
      → Kept lib g
          (o.faults row)
          (o.checking row)
          (target_of lib g o rules x row)
          rules
          x.graph_id
          b
          c
      → Some (λ y. y ≡ id) c.trashed
      → Some (λ y. y ≡ id) b.trashed ⊎ SavedIn id c.store
  Kept-gone x row id b c u k m = elim (k.gone id m) [
    | inl old ↦ inl old
    | inr s ↦ inr (record { ref = x; row = row; ready = u; saved = s })
  ]

  pub end_folder-Turned :
      (x : FolderRef) (row : ℕ) (r : Run) (end : FolderEnd)
      → o.upsert_folder x.name ≡ some row
      → Fetched lib g
          (o.faults row)
          (o.checking row)
          (target_of lib g o rules x row)
          rules
          x.graph_id
          (r.links row)
          ""
          (open_folder lib g o rules row r)
          end
      → IfTurned (x ∷ []) r (end_folder row end r)
  end_folder-Turned x row r _ u paging = tt
  end_folder-Turned x row r _ u (stopped e c k) = record {
    grows = k.grows;
    gone = λ id m. Kept-gone x row id _ c u k m;
    links = λ _ f. inl refl;
  }
  end_folder-Turned x row r _ u (done stubs final c k ds dealt) = record {
    grows = k.grows;
    gone = λ id m. Kept-gone x row id _ c u k m;
    links = λ _ f. elim (Bool-cases (f == row)) [
      | inr n ↦ inl (rw n refl)
      | inl q ↦
          let same : row ≡ f = grind arith in
          let link : set_link row final r.links f ≡ final = rw q refl in
          let caught : Caught x row (r.links row) final c.store = record {
            stubs = stubs;
            deltas = ds;
            dealt = dealt;
          } in
          inr (
            x,
            inl refl,
            subst (λ k. o.upsert_folder x.name ≡ some k) same u,
            subst (λ l. Caught x f (r.links f) l c.store) (sym link)
                (subst (λ k. Caught x k (r.links k) final c.store) same caught),
          )
    ];
  }
