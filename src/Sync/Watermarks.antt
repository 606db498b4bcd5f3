-- ===== src/Sync/Watermarks.antt =====
-- Which watermarks `SyncFolders` of internal/sync/folders.go resets.
use marchi.Prelude.{
  ℕ, ◌<◌, String, ◌≡◌, refl, inl, inr, true, Option, none, some, List, [], ◌∷◌, arith, ◌==◌, ==_iff,
  All, Bool-cases, Option-cases, sym, ◌∙◌, ap, subst, eq_iff, str_eq,
}
use marchi.Prelude.Dict.{Dict, lookup, lookup-insert}
use marchi.Sync.Folders.{
  Folder, FoldersError, add_folder, FolderRow, Folders, RemoteFolder, upsert_row, upsert_folder,
  upsert_each, sync_folders,
}

-- No folder that the server lists by the name of the row with this id has another UIDVALIDITY than
-- the row.
abbrev pub IsValid : ℕ → Dict FolderRow → List RemoteFolder → Type 0
IsValid id rows remotes =
    (name : String) (row : FolderRow)
    → lookup name rows ≡ some row
    → row.id ≡ id
    → All
        (λ r.
          r.name ≡ name
          → (uidvalidity : ℕ) → r.status ≡ some uidvalidity
          → row.uidvalidity ≡ uidvalidity)
        remotes

add_folder_same :
    (f : Folder) (r : Option FoldersError × List Folder × Folders) → (add_folder f r).2 ≡ r.2
add_folder_same f (some e, folders, s) = refl
add_folder_same f (none, folders, s) = refl

module _ (id : ℕ) where
  upsert-Keeps :
      (found : Option FolderRow) (name : String) (uidvalidity : ℕ) (s : Folders)
      → id < s.next_id
      → ((row : FolderRow) → found ≡ some row → row.id ≡ id → row.uidvalidity ≡ uidvalidity)
      → ((upsert_row found name uidvalidity s).1.last_uid id ≡ s.last_uid id)
        × (id < (upsert_row found name uidvalidity s).1.next_id)
  upsert-Keeps none name uidvalidity s known valid = (ground arith, omega arith)
  upsert-Keeps (some row) name uidvalidity s known valid = elim (Bool-cases (id == row.id)) [
    | inl q ↦
        let same = valid row refl (sym ((==_iff id row.id).0 q)) in (ground (arith, same), known)
    | inr q ↦ (ground arith, known)
  ]

  upsert-IsValid :
      (found : Option FolderRow) (name : String) (uidvalidity : ℕ) (s : Folders)
      (remotes : List RemoteFolder)
      → id < s.next_id
      → lookup name s.rows ≡ found
      → ((row : FolderRow) → found ≡ some row → row.id ≡ id → row.uidvalidity ≡ uidvalidity)
      → IsValid id s.rows remotes
      → IsValid id (upsert_row found name uidvalidity s).1.rows remotes
  upsert-IsValid none name uidvalidity s remotes known look valid h other row there same =
      elim (Bool-cases (str_eq name other)) [
        | inl q ↦
            let there' : some
                  (record { id = s.next_id; uidvalidity = uidvalidity; sync_enabled = true })
                ≡ some row =
              rw (lookup-insert, q) at there in
            let new : s.next_id ≡ id = cc (there', same) in absurd (omega (arith, new))
        | inr q ↦ h other row (rw (lookup-insert, q) at there) same
      ]
  upsert-IsValid (some old) name uidvalidity s remotes known look valid h other row there same =
      elim (Bool-cases (str_eq name other)) [
        | inl q ↦
            let there' : some (record old { uidvalidity = uidvalidity }) ≡ some row =
              rw (lookup-insert, q) at there in
            let ids : old.id ≡ id = cc (there', same) in
            let vs : uidvalidity ≡ row.uidvalidity = cc there' in
            subst
              (λ v.
                All
                  (λ r.
                    r.name ≡ other
                    → (uidvalidity : ℕ) → r.status ≡ some uidvalidity
                    → v ≡ uidvalidity)
                  remotes)
              (valid old refl ids ∙ vs)
              (h other old (ap (λ k. lookup k s.rows) (sym ((eq_iff name other).0 q)) ∙ look) ids)
        | inr q ↦ h other row (rw (lookup-insert, q) at there) same
      ]

  IsValid-tail :
      (rows : Dict FolderRow) (r : RemoteFolder) (remotes : List RemoteFolder)
      → IsValid id rows (r ∷ remotes)
      → IsValid id rows remotes
  IsValid-tail rows r remotes h name row there same = (h name row there same).1

  upsert_each-Keeps :
      (remotes : List RemoteFolder) (s : Folders)
      → id < s.next_id
      → IsValid id s.rows remotes
      → (upsert_each remotes s).2.last_uid id ≡ s.last_uid id
  unfolding upsert_each upsert_folder
  upsert_each-Keeps [] s known valid = refl
  upsert_each-Keeps (r ∷ remotes) s known valid = elim (Bool-cases r.no_select) [
    | inl a ↦
        rw (a, upsert_each)
          (upsert_each-Keeps remotes s known (IsValid-tail s.rows r remotes valid))
    | inr a ↦ elim (Option-cases r.status) [
      | inl b ↦ rw (a, b, upsert_each) refl
      | inr (v, b) ↦ elim (Bool-cases r.write_fails) [
        | inl c ↦ rw (a, b, c, upsert_each) refl
        | inr c ↦
            let found = lookup r.name s.rows in
            let here : (row : FolderRow) → found ≡ some row → row.id ≡ id → row.uidvalidity ≡ v =
              λ row there same. (valid r.name row there same).0 refl v b in
            let one = upsert-Keeps found r.name v s known here in
            rw (a, b, c, upsert_each)
              (ap (λ d. d.last_uid id)
                  (add_folder_same (upsert_folder r.name v s).0
                    (upsert_each remotes (upsert_folder r.name v s).1))
                ∙ upsert_each-Keeps remotes (upsert_row found r.name v s).1 one.1 (
                    upsert-IsValid found r.name v s remotes known refl here
                      (IsValid-tail s.rows r remotes valid))
                ∙ one.0)
      ]
    ]
  ]

  pub sync_folders-Keeps :
      (listed : Option (List RemoteFolder)) (s : Folders)
      → id < s.next_id
      → ((remotes : List RemoteFolder) → listed ≡ some remotes → IsValid id s.rows remotes)
      → (sync_folders listed s).2.last_uid id ≡ s.last_uid id
  unfolding sync_folders
  sync_folders-Keeps none s known valid = refl
  sync_folders-Keeps (some remotes) s known valid =
      upsert_each-Keeps remotes s known (valid remotes refl)
