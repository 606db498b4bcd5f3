-- ===== src/Sync/Archives.antt =====
-- What `ArchiveOne` of internal/sync/fetch.go does to the archive.
use marchi.Prelude.{
  ℕ, ◌≡◌, refl, inl, inr, Bool, true, false, ◌||◌, not, [], ◌∷◌, ◌++◌, arith, eq_iff, Bool-cases,
}
use marchi.Rules.Evaluate.{any}
use marchi.Sync.Message.{Message, Parsed}
use marchi.Sync.Archive.{
  Archive, Row, Faults, Target, archive_one, persist, Outcome, not_archived, archived,
  update_last_uid, next_file, row_of, index_one, has_uid,
}
use marchi.Sync.Effect.{Grows, any-append, IsArchived}

-- What `ArchiveOne` does to the archive.
pub data Archives (t : Target) (uid : ℕ) (p : Parsed) (a : Archive)
    : Outcome × Archive → Type 0 where
  refused :
      {b : Archive} → Grows a b → b.last_uid ≡ a.last_uid → Archives t uid p a (not_archived, b)
  stored :
      {b : Archive} (size : ℕ) (index_failed : Bool)
      → Grows a b
      → b.last_uid ≡ update_last_uid t.folder_id uid a.last_uid
      → IsArchived t uid p.raw b
      → Archives t uid p a (archived size index_failed, b)

module _ (faults : Faults) (t : Target) where
  indexed :
      (m : Message) (p : Parsed) (id : ℕ) (a c : Archive)
      → Grows a c
      → c.last_uid ≡ update_last_uid t.folder_id m.uid a.last_uid
      → IsArchived t m.uid p.raw c
      → Archives t m.uid p a (index_one faults t m p id c)
  indexed m p id a c g k h = elim (Bool-cases (not t.has_index)) [
    | inl i ↦ rw (i, index_one) (stored p.size false g k h)
    | inr i ↦ elim (Bool-cases (faults.indexing m.uid)) [
      | inl j ↦ rw (i, j, index_one) (stored p.size true g k h)
      | inr j ↦
          rw (i, j, index_one)
            (stored p.size false (record { rows_stay = g.rows_stay; files_stay = g.files_stay }) k
              (record { serial = h.serial; has_row = h.has_row; has_file = h.has_file }))
    ]
  ]

  with_file : Parsed → Archive → Archive
  with_file p a = record a { files = (a.serial, p.raw) ∷ a.files }

  adds_file : (p : Parsed) (a : Archive) → Grows a (next_file (with_file p a))
  unfolding any with_file
  adds_file p a = record { rows_stay = λ test h. h; files_stay = λ test h. ground arith }

  adds_row :
      (r : Row) (p : Parsed) (a : Archive)
      → Grows a (record (with_file p a) { rows = a.rows ++ r ∷ [] })
  unfolding any with_file
  adds_row r p a = record {
    rows_stay = λ test h. rw (any-append, h) refl;
    files_stay = λ test h. ground arith;
  }

  there :
      (m : Message) (p : Parsed) (a : Archive)
      → IsArchived t m.uid p.raw
          (record (with_file p a) { rows = a.rows ++ row_of faults t m p a ∷ [] })
  unfolding any with_file
  there m p a = record {
    serial = a.serial;
    has_row = rw any-append (ground arith);
    has_file = ground (arith, eq_iff p.raw p.raw);
  }

  pub archive_one-Archives :
      (m : Message) (p : Parsed) (a : Archive) → Archives t m.uid p a (archive_one faults t m p a)
  unfolding archive_one persist with_file
  archive_one-Archives m p a = elim (Bool-cases (faults.staging m.uid || faults.committing m.uid)) [
    | inl e ↦
        rw (e, archive_one)
          (refused (record { rows_stay = λ test h. h; files_stay = λ test h. h }) refl)
    | inr e ↦
        elim (Bool-cases
          (has_uid t.account_id t.folder_id m.uid a.rows || faults.persisting m.uid)) [
            | inl k ↦
                rw (e, k, archive_one, persist)
                  (refused
                    (record {
                      rows_stay = (adds_file p a).rows_stay;
                      files_stay = (adds_file p a).files_stay;
                    })
                    refl)
            | inr k ↦
                rw (e, k, archive_one, persist)
                  (indexed m p a.next_id a _
                    (record {
                      rows_stay = (adds_row (row_of faults t m p a) p a).rows_stay;
                      files_stay = (adds_row (row_of faults t m p a) p a).files_stay;
                    })
                    refl
                    (record {
                      serial = (there m p a).serial;
                      has_row = (there m p a).has_row;
                      has_file = (there m p a).has_file;
                    }))
          ]
  ]
