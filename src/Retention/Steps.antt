-- ===== src/Retention/Steps.antt =====
-- What the loop bodies do to an archive: `evictToS3Only`, `deleteDirectNoBackup` and
-- `deleteFromS3` of internal/retention/runner.go, one message at a time.
use marchi.Prelude.{
  ℕ, String, Bool, true, false, not, ◌≡◌, refl, ◌∙◌, List, arith, inl, inr, str_eq, eq_iff, ◌==◌,
  ==_iff, All, All-keep, All-of_map, All-passed, All-both, Bool-cases,
}
use marchi.Retention.Table.{
  Email, moved, is_local, is_set, mark_moved_to_s3_only, delete_completely,
}
use marchi.Retention.Runner.{State, Faults, without, unlink, evict_one, delete_one, expire_one}
use marchi.Retention.Sound.{has, has-without, Sound, Distinct-moved, Distinct-keep, IsArchive}

-- What a body relies on about the other rows of the table when it removes the file of `e`.
pub record OwnsFile (e r : Email) : Type 0 where
  pub etag_of : r.id ≡ e.id → is_set r.s3_etag ≡ is_set e.s3_etag
  pub file_of : is_local r.location ≡ true → r.local_path ≡ e.local_path → r.id ≡ e.id

-- ... and when it removes the object of `e`.
pub record OwnsObject (e r : Email) : Type 0 where
  pub object_of : str_eq e.s3_key "" ≡ false → r.s3_key ≡ e.s3_key → r.id ≡ e.id

pub OwnsFile-moved : (id t : ℕ) (e r : Email) → OwnsFile e r → OwnsFile e (moved id t r)
OwnsFile-moved id t e r h = elim (Bool-cases (r.id == id)) [
  | inl j ↦ rw j (record { etag_of = h.etag_of; file_of = λ l. absurd cc })
  | inr j ↦ rw j h
]

-- Every file but the one at `path` is still there.
abbrev pub KeepsOthers : String → List String → List String → Type 0
KeepsOthers path files files' =
    (p : String) → str_eq p path ≡ false → has p files ≡ true → has p files' ≡ true

elsewhere :
    (e r : Email)
    → is_local r.location ≡ true
    → (r.id == e.id) ≡ false
    → OwnsFile e r
    → str_eq r.local_path e.local_path ≡ false
elsewhere e r l j own = elim (Bool-cases (str_eq r.local_path e.local_path)) [
  | inl q ↦ absurd (ground (arith, own.file_of l ((eq_iff r.local_path e.local_path).0 q)))
  | inr q ↦ q
]

Sound-moved :
    (t : ℕ) (files files' objects : List String) (e r : Email)
    → KeepsOthers e.local_path files files'
    → is_set e.s3_etag ≡ true
    → OwnsFile e r
    → Sound files objects r
    → Sound files' objects (moved e.id t r)
Sound-moved t files files' objects e r kept confirmed own h = elim (Bool-cases (r.id == e.id)) [
  | inl j ↦ rw j (record {
    on_disk = λ l. absurd cc;
    in_bucket = λ l. h.mirrored (own.etag_of ((==_iff r.id e.id).0 j) ∙ confirmed);
    mirrored = h.mirrored;
  })
  | inr j ↦ rw j (record {
    on_disk = λ l. kept r.local_path (elsewhere e r l j own) (h.on_disk l);
    in_bucket = h.in_bucket;
    mirrored = h.mirrored;
  })
]

-- The rows left once row `e` is gone, with `e`'s file or object.
Sound-dropped :
    (files files' objects : List String) (e r : Email)
    → KeepsOthers e.local_path files files'
    → not (r.id == e.id) ≡ true
    → OwnsFile e r
    → Sound files objects r
    → Sound files' objects r
Sound-dropped files files' objects e r kept other own h = record {
  on_disk = λ l. kept r.local_path (elsewhere e r l (ground arith) own) (h.on_disk l);
  in_bucket = h.in_bucket;
  mirrored = h.mirrored;
}

keyed_apart :
    (e r : Email)
    → str_eq e.s3_key "" ≡ false
    → not (r.id == e.id) ≡ true
    → OwnsObject e r
    → str_eq r.s3_key e.s3_key ≡ false
keyed_apart e r keyed other own = elim (Bool-cases (str_eq r.s3_key e.s3_key)) [
  | inl q ↦ absurd (ground (arith, own.object_of keyed ((eq_iff r.s3_key e.s3_key).0 q)))
  | inr q ↦ q
]

Sound-expired :
    (files objects : List String) (e r : Email)
    → str_eq e.s3_key "" ≡ false
    → not (r.id == e.id) ≡ true
    → OwnsObject e r
    → Sound files objects r
    → Sound files (without e.s3_key objects) r
Sound-expired files objects e r keyed other own h =
    let apart = keyed_apart e r keyed other own in
    record {
      on_disk = h.on_disk;
      in_bucket = λ l. rw (has-without, apart, h.in_bucket l) refl;
      mirrored = λ l. rw (has-without, apart, h.mirrored l) refl;
    }

unlink-keeps :
    (faults : Faults) (has_index : Bool) (path : String) (files : List String)
    → KeepsOthers path files (unlink faults has_index path files)
unlink-keeps faults has_index path files p q h = elim (Bool-cases (str_eq path "")) [
  | inl a ↦ rw a h
  | inr a ↦ elim (Bool-cases (faults.unlinking path)) [
    | inl b ↦ rw (a, b) h
    | inr b ↦ rw (a, b, has-without, q, h) refl
  ]
]

module _ (faults : Faults) (has_index : Bool) (stamp : ℕ → ℕ) where
  pub evict_one-IsArchive :
      (now : ℕ) (e : Email) (s : State)
      → is_set e.s3_etag ≡ true
      → All (OwnsFile e) s.emails
      → IsArchive s
      → IsArchive (evict_one faults has_index stamp now e s)
  unfolding evict_one mark_moved_to_s3_only
  evict_one-IsArchive now e s confirmed own (distinct, sound) =
      elim (Bool-cases (faults.moving e.id)) [
        | inl f ↦ rw f (distinct, sound)
        | inr f ↦ rw f (
          Distinct-moved e.id (stamp now) s.emails distinct,
          All-of_map (λ r. OwnsFile e r × Sound s.files s.objects r)
              (Sound (unlink faults has_index e.local_path s.files) s.objects)
              (moved e.id (stamp now))
              (λ r h.
                Sound-moved (stamp now) s.files _ s.objects e r
                  (unlink-keeps faults has_index e.local_path s.files) confirmed h.0 h.1)
              s.emails (All-both (OwnsFile e) (Sound s.files s.objects) s.emails own sound),
        )
      ]

  pub delete_one-IsArchive :
      (e : Email) (s : State)
      → All (OwnsFile e) s.emails
      → IsArchive s
      → IsArchive (delete_one faults has_index stamp e s)
  unfolding delete_one delete_completely
  delete_one-IsArchive e s own (distinct, sound) = elim (Bool-cases (faults.deleting e.id)) [
    | inl f ↦ rw f (distinct, sound)
    | inr f ↦ rw f (
      Distinct-keep _ s.emails distinct,
      All-passed (λ r. OwnsFile e r × Sound s.files s.objects r)
          (Sound (unlink faults has_index e.local_path s.files) s.objects) (λ r. not (r.id == e.id))
          (λ r other h.
            Sound-dropped s.files _ s.objects e r
              (unlink-keeps faults has_index e.local_path s.files) other h.0 h.1)
          s.emails (All-both (OwnsFile e) (Sound s.files s.objects) s.emails own sound),
    )
  ]

  -- Where the row cannot be deleted, the object is already gone.
  pub expire_one-IsArchive :
      (e : Email) (s : State)
      → faults.deleting e.id ≡ false
      → All (OwnsObject e) s.emails
      → IsArchive s
      → IsArchive (expire_one faults has_index stamp e s)
  unfolding expire_one delete_completely
  expire_one-IsArchive e s works own (distinct, sound) = elim (Bool-cases (str_eq e.s3_key "")) [
    | inl k ↦
        rw (k, works)
          (Distinct-keep _ s.emails distinct, All-keep (Sound s.files s.objects) _ s.emails sound)
    | inr k ↦ elim (Bool-cases (faults.s3_deleting e.s3_key)) [
      | inl g ↦ rw (k, g) (distinct, sound)
      | inr g ↦
          rw (k, g, works)
            (
              Distinct-keep _ s.emails distinct,
              All-passed (λ r. OwnsObject e r × Sound s.files s.objects r)
                  (Sound s.files (without e.s3_key s.objects)) (λ r. not (r.id == e.id))
                  (λ r other h. Sound-expired s.files s.objects e r k other h.0 h.1) s.emails
                  (All-both (OwnsObject e) (Sound s.files s.objects) s.emails own sound),
            )
    ]
  ]
