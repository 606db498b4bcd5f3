-- ===== src/Graph/Folders.antt =====
-- The walk over the folders of a mailbox: `listMSGraphFoldersRecursive` and
-- `appendMSGraphFolderRecursive` of internal/sync/msgraph_sync.go. The fuel bounds how deep folders
-- are nested.
use marchi.Prelude.{ℕ, zero, suc, String, Option, none, some, List, [], ◌∷◌, ◌++◌}
use Prim.Native.String.{◌++◌ as str_append}
use marchi.Graph.Server.{MailFolder, Graph}

pub record FolderRef : Type 0 where
  pub graph_id : String
  pub name : String

-- `walking` is a walk that has not come to the bottom.
pub data Walk : Type 0 where
  walking : Walk
  walk_failed : Walk
  walked : List FolderRef → Walk

abbrev pub path_of : String → MailFolder → String
path_of parent f = str_append parent (str_append "/" f.display_name)

-- The folders one after another, each with all that is under it, behind those in `out`.
abbrev pub append_all :
    (MailFolder → String → List FolderRef → Walk)
    → (MailFolder → String)
    → List MailFolder
    → List FolderRef
    → Walk
append_all append name [] out = walked out
append_all append name (f ∷ fs) out = elim (append f (name f) out) [
  | walking ↦ walking
  | walk_failed ↦ walk_failed
  | walked out' ↦ append_all append name fs out'
]

abbrev pub append_children :
    (MailFolder → String → List FolderRef → Walk)
    → String
    → Option (List MailFolder)
    → List FolderRef
    → Walk
append_children append parent none out = walk_failed
append_children append parent (some children) out = append_all append (path_of parent) children out

module _ (g : Graph) where
  unfoldable pub append_folder : ℕ → MailFolder → String → List FolderRef → Walk
  append_folder zero f name out = walking
  append_folder (suc fuel) f name out = elim f.child_folder_count [
    | zero ↦ walked (out ++ record { graph_id = f.id; name = name } ∷ [])
    | suc n ↦
        append_children (append_folder fuel) name (g.list_child_folders f.id)
          (out ++ record { graph_id = f.id; name = name } ∷ [])
  ]

  abbrev pub append_top : ℕ → Option (List MailFolder) → Walk
  append_top fuel none = walk_failed
  append_top fuel (some top) = append_all (append_folder fuel) (λ f. f.display_name) top []

  unfoldable pub list_folders_recursive : ℕ → Walk
  list_folders_recursive fuel = append_top fuel g.list_mail_folders
