-- ===== src/Graph/Tree.antt =====
-- The walk of `listMSGraphFoldersRecursive` of internal/sync/msgraph_sync.go over a tree of folders.
use Prim.Native.String.{◌++◌ as str_append}
use marchi.Prelude.{ℕ, zero, suc, ◌≤◌, String, ◌≡◌, refl, some, List, [], ◌∷◌, ◌++◌, arith, ap, ◌∙◌}
use mathlib.Core.List.{append-nil, append_assoc}
use Prim.Native.Nat.{max}
use marchi.Graph.Server.{MailFolder, Graph}
use marchi.Graph.Folders.{
  FolderRef, Walk, walked, path_of, append_all, append_folder, list_folders_recursive,
}

-- A folder with its id, its name and its children.
mutual
  pub data Tree : Type 0 where
    folder : String → String → Forest → Tree

  pub data Forest : Type 0 where
    bare : Forest
    grown : Tree → Forest → Forest

abbrev pub breadth : Forest → ℕ
breadth bare = 0
breadth (grown t ts) = suc (breadth ts)

-- The folder as Graph lists it.
abbrev pub listed_as : Tree → MailFolder
listed_as (folder id name ts) = record {
  id = id;
  display_name = name;
  child_folder_count = breadth ts;
}

abbrev pub all_listed : Forest → List MailFolder
all_listed bare = []
all_listed (grown t ts) = listed_as t ∷ all_listed ts

-- Each folder before its children, under the names on the way to it.
unfoldable mutual
  pub flatten : String → Tree → List FolderRef
  flatten path (folder id name ts) =
      record { graph_id = id; name = path }
      ∷ flatten_all (λ f. str_append path (str_append "/" f.display_name)) ts

  pub flatten_all : (MailFolder → String) → Forest → List FolderRef
  flatten_all name bare = []
  flatten_all name (grown t ts) = flatten (name (listed_as t)) t ++ flatten_all name ts

unfoldable mutual
  pub height : Tree → ℕ
  height (folder id name ts) = suc (height_all ts)

  pub height_all : Forest → ℕ
  height_all bare = 0
  height_all (grown t ts) = max (height t) (height_all ts)

append_all-walked :
    (append : MailFolder → String → List FolderRef → Walk) (name : MailFolder → String)
    (f : MailFolder) (fs : List MailFolder) (out out' : List FolderRef)
    → append f (name f) out ≡ walked out'
    → append_all append name (f ∷ fs) out ≡ append_all append name fs out'
append_all-walked append name f fs out out' e = rw (e, append_all) refl

module _ (g : Graph) where
  -- Graph gives the children of each folder that has some.
  mutual
    pub data Serves : Tree → Type 0 where
      childless : (id name : String) → Serves (folder id name bare)
      parent :
          (id name : String) (t : Tree) (ts : Forest)
          → g.list_child_folders id ≡ some (all_listed (grown t ts))
          → ServesAll (grown t ts)
          → Serves (folder id name (grown t ts))

    pub data ServesAll : Forest → Type 0 where
      nothing : ServesAll bare
      both : (t : Tree) (ts : Forest) → Serves t → ServesAll ts → ServesAll (grown t ts)

  mutual
    unfolding append_folder flatten height

    walk-flatten :
        (fuel : ℕ) (path : String) (out : List FolderRef) (t : Tree)
        → Serves t
        → height t ≤ fuel
        → append_folder g fuel (listed_as t) path out ≡ walked (out ++ flatten path t)
    walk-flatten zero path out _ (childless id name) h = absurd (omega arith)
    walk-flatten zero path out _ (parent id name t ts e s) h = absurd (omega arith)
    walk-flatten (suc fuel) path out _ (childless id name) h = refl
    walk-flatten (suc fuel) path out _ (parent id name t ts e s) h =
        let ih =
          walk-flatten_all fuel (path_of path) (out ++ record { graph_id = id; name = path } ∷ []) _
            s (omega arith) in
        simp (e, ih, append_assoc)

    walk-flatten_all :
        (fuel : ℕ) (name : MailFolder → String) (out : List FolderRef) (ts : Forest)
        → ServesAll ts
        → height_all ts ≤ fuel
        → append_all (append_folder g fuel) name (all_listed ts) out
          ≡ walked (out ++ flatten_all name ts)
    walk-flatten_all fuel name out _ nothing h = simp (append-nil)
    walk-flatten_all fuel name out _ (both t ts s ss) h =
        let first = walk-flatten fuel (name (listed_as t)) out t s (omega arith) in
        let rest =
          walk-flatten_all fuel name (out ++ flatten (name (listed_as t)) t) ts ss (omega arith) in
        append_all-walked (append_folder g fuel) name (listed_as t) (all_listed ts) out _ first
        ∙ rest
        ∙ ap walked (append_assoc out _ _)

  -- The walk ends, after as many steps down as the folders are nested, and gives each folder of the
  -- tree once: a folder before the folders under it, in the order in which Graph lists them, and
  -- under the names on the way to it with a slash between them.
  pub list_folders_recursive-flatten :
      (fuel : ℕ) (ts : Forest)
      → ServesAll ts
      → g.list_mail_folders ≡ some (all_listed ts)
      → height_all ts ≤ fuel
      → list_folders_recursive g fuel ≡ walked (flatten_all (λ f. f.display_name) ts)
  unfolding list_folders_recursive
  list_folders_recursive-flatten fuel ts s e h =
      simp (e, walk-flatten_all fuel (λ f. f.display_name) [] ts s h)
