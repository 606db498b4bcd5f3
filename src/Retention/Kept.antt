-- ===== src/Retention/Kept.antt =====
-- The stages over the archive: `evictToS3Only`, `deleteDirectNoBackup` and `deleteFromS3` of
-- internal/retention/runner.go.
use marchi.Prelude.{
  ℕ, Bool, true, false, not, ◌≡◌, ap, inl, inr, List, [], ◌∷◌, arith, str_eq, eq_iff, Some,
  Some-keep, All, All-map, All-keep, All-of_map, All-passed, Bool-cases, ◌==◌,
}
use marchi.Retention.Table.{
  Email, is_local, is_set, list_local_due_for_s3_eviction, list_local_due_for_direct_delete,
  list_s3_only_due_for_deletion, due_for_eviction, due_for_direct_delete, due_for_deletion,
  mark_moved_to_s3_only, delete_completely,
}
use marchi.Retention.Runner.{
  State, Faults, for_each, evict_one, delete_one, expire_one, evict_to_s3_only,
  delete_direct_no_backup, delete_from_s3,
}
use marchi.Retention.Sound.{has, has-without, Apart, IsArchive}
use marchi.Retention.Steps.{
  OwnsFile, OwnsObject, OwnsFile-moved, evict_one-IsArchive, delete_one-IsArchive,
  expire_one-IsArchive,
}

for_each_keeps :
    (body : Email → State → State) (Good : Email → State → Type 0)
    → ((e : Email) (s : State) → Good e s → IsArchive s → IsArchive (body e s))
    → ((d e : Email) (s : State) → Good d s → Good d (body e s))
    → (due : List Email) (s : State) → All (λ e. Good e s) due
    → IsArchive s
    → IsArchive (for_each body due s)
unfolding for_each
for_each_keeps body Good step still [] s good h = h
for_each_keeps body Good step still (e ∷ due) s good h =
    for_each_keeps body Good step still due (body e s)
      (All-map (λ d. Good d s) (λ d. Good d (body e s)) (λ d. still d e s) due good.1)
      (step e s good.0 h)

owns_file : (e r : Email) → is_local e.location ≡ true → Apart e r → OwnsFile e r
owns_file e r l a = record {
  etag_of = λ q. ap (λ x. is_set x.s3_etag) (a.same_row q);
  file_of = a.same_file l;
}

owns_object : (e r : Email) → Apart e r → OwnsObject e r
owns_object e r a = record { object_of = a.same_object }

module _ (faults : Faults) (has_index : Bool) (stamp : ℕ → ℕ) where
  abbrev Confirmed : Email → State → Type 0
  Confirmed e s = (is_set e.s3_etag ≡ true) × All (OwnsFile e) s.emails

  still-Confirmed :
      (now : ℕ) (d e : Email) (s : State)
      → Confirmed d s
      → Confirmed d (evict_one faults has_index stamp now e s)
  unfolding evict_one mark_moved_to_s3_only
  still-Confirmed now d e s (confirmed, own) = elim (Bool-cases (faults.moving e.id)) [
    | inl f ↦ rw f (confirmed, own)
    | inr f ↦ rw f (
      confirmed,
      All-of_map (OwnsFile d) (OwnsFile d) _ (OwnsFile-moved e.id (stamp now) d) s.emails own,
    )
  ]

  still_owned :
      (d e : Email) (s : State)
      → All (OwnsFile d) s.emails
      → All (OwnsFile d) (delete_one faults has_index stamp e s).emails
  unfolding delete_one delete_completely
  still_owned d e s own = elim (Bool-cases (faults.deleting e.id)) [
    | inl f ↦ rw f own
    | inr f ↦ rw f (All-keep (OwnsFile d) _ s.emails own)
  ]

  -- Moving messages to the bucket keeps every message, whatever fails on the way: each row's file
  -- or object, as the row says, is there after the stage if it was before, when no two rows share
  -- an id, a local file or an object.
  pub evict_to_s3_only-IsArchive :
      (account cutoff now : ℕ) (s : State)
      → IsArchive s
      → IsArchive (evict_to_s3_only faults has_index stamp account cutoff now s)
  unfolding evict_to_s3_only list_local_due_for_s3_eviction
  evict_to_s3_only-IsArchive account cutoff now s h = elim (Bool-cases (faults.listing account)) [
    | inl f ↦ rw f h
    | inr f ↦ rw f (
        for_each_keeps _ Confirmed
          (λ e s' good. evict_one-IsArchive faults has_index stamp now e s' good.0 good.1)
          (still-Confirmed now) _ s
          (All-passed (λ e. All (Apart e) s.emails) (λ e. Confirmed e s)
            (due_for_eviction account cutoff)
            (λ e due a. (
              ground arith,
              All-map (Apart e) (OwnsFile e) (λ r. owns_file e r (ground arith)) s.emails a,
            ))
            s.emails h.0)
          h)
  ]

  -- Deleting local messages while there is no bucket keeps every message that it does not delete,
  -- whatever fails on the way, when no two rows share an id, a local file or an object.
  pub delete_direct_no_backup-IsArchive :
      (account cutoff : ℕ) (s : State)
      → IsArchive s
      → IsArchive (delete_direct_no_backup faults has_index stamp account cutoff s)
  unfolding delete_direct_no_backup list_local_due_for_direct_delete
  delete_direct_no_backup-IsArchive account cutoff s h =
      elim (Bool-cases (faults.listing account)) [
        | inl f ↦ rw f h
        | inr f ↦ rw f (
            for_each_keeps _ (λ e s'. All (OwnsFile e) s'.emails)
              (delete_one-IsArchive faults has_index stamp) still_owned _ s
              (All-passed (λ e. All (Apart e) s.emails) (λ e. All (OwnsFile e) s.emails)
                (due_for_direct_delete account cutoff)
                (λ e due.
                  All-map (Apart e) (OwnsFile e) (λ r. owns_file e r (ground arith)) s.emails)
                s.emails h.0)
              h)
      ]

  still_keyed :
      (d e : Email) (s : State)
      → All (OwnsObject d) s.emails
      → All (OwnsObject d) (expire_one faults has_index stamp e s).emails
  unfolding expire_one delete_completely
  still_keyed d e s own = elim (Bool-cases (faults.deleting e.id)) [
    | inl f ↦ elim (Bool-cases (str_eq e.s3_key "")) [
      | inl k ↦ rw (f, k) own
      | inr k ↦ elim (Bool-cases (faults.s3_deleting e.s3_key)) [
        | inl g ↦ rw (f, k, g) own
        | inr g ↦ rw (f, k, g) own
      ]
    ]
    | inr f ↦ elim (Bool-cases (str_eq e.s3_key "")) [
      | inl k ↦ rw (f, k) (All-keep (OwnsObject d) _ s.emails own)
      | inr k ↦ elim (Bool-cases (faults.s3_deleting e.s3_key)) [
        | inl g ↦ rw (f, k, g) own
        | inr g ↦ rw (f, k, g) (All-keep (OwnsObject d) _ s.emails own)
      ]
    ]
  ]

  pub delete_from_s3-IsArchive :
      (account cutoff : ℕ) (s : State)
      → ((id : ℕ) → faults.deleting id ≡ false)
      → IsArchive s
      → IsArchive (delete_from_s3 faults has_index stamp account cutoff s)
  unfolding delete_from_s3 list_s3_only_due_for_deletion
  delete_from_s3-IsArchive account cutoff s works h =
      elim (Bool-cases (faults.listing_s3_only account)) [
        | inl f ↦ rw f h
        | inr f ↦ rw f (
            for_each_keeps _ (λ e s'. All (OwnsObject e) s'.emails)
              (λ e s'. expire_one-IsArchive faults has_index stamp e s' (works e.id)) still_keyed _
              s
              (All-passed (λ e. All (Apart e) s.emails) (λ e. All (OwnsObject e) s.emails)
                (due_for_deletion account cutoff)
                (λ e due. All-map (Apart e) (OwnsObject e) (owns_object e) s.emails) s.emails h.0)
              h)
      ]

-- Two rows that share an object lose it together: where the bucket and the table accept the
-- deletions, expiring one of them leaves the other row in the table without its object.
pub expire_one-shared :
    (faults : Faults) (has_index : Bool) (stamp : ℕ → ℕ) (e r : Email) (s : State)
    → str_eq e.s3_key "" ≡ false
    → r.s3_key ≡ e.s3_key
    → (r.id == e.id) ≡ false
    → faults.s3_deleting e.s3_key ≡ false
    → faults.deleting e.id ≡ false
    → Some (λ x. x ≡ r) s.emails
    → Some (λ x. x ≡ r) (expire_one faults has_index stamp e s).emails
      × (has r.s3_key (expire_one faults has_index stamp e s).objects ≡ false)
unfolding expire_one delete_completely
expire_one-shared faults has_index stamp e r s keyed shared other bucket table row =
    rw (keyed, bucket, table, expire_one)
      (
        Some-keep (λ x. not (x.id == e.id)) r (ground (arith, other)) s.emails row,
        rw has-without (ground (arith, eq_iff r.s3_key e.s3_key)),
      )
