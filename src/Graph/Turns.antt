-- ===== src/Graph/Turns.antt =====
-- The loop of `SyncAccountMSGraph` of internal/sync/msgraph_sync.go over the folders, turn by turn.
use marchi.Prelude.{
  ℕ, ◌≡◌, refl, inl, inr, Option, none, some, List, [], ◌∷◌, Bool-cases, sym, ◌∙◌, subst, Some, All,
}
use marchi.Rules.Node.{Rule}
use marchi.Rules.Parse.{GoLib}
use marchi.Sync.Effect.{Grows-trans}
use marchi.Graph.Server.{Graph}
use marchi.Graph.Folders.{FolderRef}
use marchi.Graph.Sync.{GraphError}
use marchi.Graph.Fetched.{folder-Fetched}
use marchi.Graph.Run.{Office, Run, prepared_folder, graph_folder, graph_folders, then_folders}
use marchi.Graph.Turned.{
  IfTurned, Turned, same-Turned, end_folder-Turned, SavedIn-Grows, Caught-Grows, Caught,
}

module _ (lib : GoLib) (g : Graph) (o : Office) (rules : List Rule) where
  prepared-Turned :
      (fuel : ℕ) (x : FolderRef) (row : Option ℕ) (r : Run)
      → o.upsert_folder x.name ≡ row
      → IfTurned lib g o rules (x ∷ []) r (prepared_folder lib g o rules fuel x row r)
  prepared-Turned fuel x none r u = same-Turned lib g o rules (x ∷ []) r _ refl refl refl
  prepared-Turned fuel x (some row) r u = elim (Bool-cases (o.no_layout x.name)) [
    | inl n ↦ simp (n) (same-Turned lib g o rules (x ∷ []) r _ refl refl refl)
    | inr n ↦ simp (n) (
        end_folder-Turned lib g o rules x row r _ u
          (folder-Fetched lib g _ _ _ rules x.graph_id fuel (o.no_cursor row) (r.links row) _))
  ]

  graph_folder-Turned :
      (fuel : ℕ) (x : FolderRef) (r : Run)
      → IfTurned lib g o rules (x ∷ []) r (graph_folder lib g o rules fuel x r)
  unfolding graph_folder
  graph_folder-Turned fuel x r = elim (Bool-cases (g.stopping_before x.name)) [
    | inl s ↦ rw (s, graph_folder) (same-Turned lib g o rules (x ∷ []) r _ refl refl refl)
    | inr s ↦ rw (s, graph_folder) (prepared-Turned fuel x _ r refl)
  ]

  Some-All :
      {A : Type 0} (P : A → Type 0) (y : A) (xs : List A) → Some (λ z. z ≡ y) xs → All P xs → P y
  Some-All P y [] m h = absurd m
  Some-All P y (x ∷ xs) (inl e) h = subst P e h.0
  Some-All P y (x ∷ xs) (inr m) h = Some-All P y xs m h.1

  Turned-cons :
      (x : FolderRef) (refs : List FolderRef) (r c r' : Run)
      → Turned lib g o rules (x ∷ []) r c
      → Turned lib g o rules refs c r'
      → Turned lib g o rules (x ∷ refs) r r'
  Turned-cons x refs r c r' h k = record {
    grows = Grows-trans _ _ _ h.grows k.grows;
    gone = λ id m. elim (k.gone id m) [
      | inr s ↦ inr s
      | inl m' ↦ elim (h.gone id m') [
        | inl m'' ↦ inl m''
        | inr s ↦ inr (SavedIn-Grows lib g o rules id c.store r'.store k.grows s)
      ]
    ];
    links = λ apart f. elim (h.links (λ row u. tt, tt) f) [
      | inl e ↦ elim (k.links apart.1 f) [
        | inl e' ↦ inl (e' ∙ e)
        | inr (y, among, u, caught) ↦ inr (
          y,
          inr among,
          u,
          subst (λ l. Caught lib g o rules y f l (r'.links f) r'.store) e caught,
        )
      ]
      | inr (y, inr among, u, caught) ↦ absurd among
      | inr (y, inl q, u, caught) ↦ elim (k.links apart.1 f) [
        | inl e' ↦ inr (
          y,
          inl q,
          u,
          subst (λ l. Caught lib g o rules y f (r.links f) l r'.store) (sym e')
              (Caught-Grows lib g o rules y f _ _ c.store r'.store k.grows caught),
        )
        | inr (z, among, v, caught') ↦ absurd (
            Some-All _ z refs among
              (apart.0 f (subst (λ w. o.upsert_folder w.name ≡ some f) (sym q) u)) v)
      ]
    ];
  }

  Turned-stop :
      (x : FolderRef) (refs : List FolderRef) (r c r' : Run)
      → Turned lib g o rules (x ∷ []) r c
      → r'.store ≡ c.store
      → r'.links ≡ c.links
      → r'.deleted ≡ c.deleted
      → Turned lib g o rules (x ∷ refs) r r'
  Turned-stop x refs r c r' h s l d =
      Turned-cons x refs r c r' h (same-Turned lib g o rules refs c r' s l d)

  then-Turned :
      (x : FolderRef) (refs : List FolderRef) (r : Run) (q : Option (Option GraphError × Run))
      (next : Run → Option (Option GraphError × Run))
      → IfTurned lib g o rules (x ∷ []) r q
      → ((c : Run) → IfTurned lib g o rules refs c (next c))
      → IfTurned lib g o rules (x ∷ refs) r (then_folders lib g o rules refs q next)
  then-Turned x refs r none next h rest = tt
  then-Turned x refs r (some (some e, c)) next h rest = Turned-stop x refs r c _ h refl refl refl
  then-Turned x refs r (some (none, c)) next h rest = joined (next c) (rest c)
    where
      joined :
          (q : Option (Option GraphError × Run))
          → IfTurned lib g o rules refs c q
          → IfTurned lib g o rules (x ∷ refs) r q
      joined none k = tt
      joined (some (e, r')) k = Turned-cons x refs r c r' h k

  pub graph_folders-Turned :
      (fuel : ℕ) (refs : List FolderRef) (r : Run)
      → IfTurned lib g o rules refs r (graph_folders lib g o rules fuel refs r)
  unfolding graph_folders
  graph_folders-Turned fuel [] r = same-Turned lib g o rules [] r r refl refl refl
  graph_folders-Turned fuel (x ∷ refs) r =
      then-Turned x refs r _ _ (graph_folder-Turned fuel x r) (graph_folders-Turned fuel refs)
