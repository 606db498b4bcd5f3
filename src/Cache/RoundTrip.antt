-- ===== src/Cache/RoundTrip.antt =====
-- `Get` after `Put`, of internal/s3store/cache.go.
use marchi.Prelude.{
  ℕ, zero, suc, ◌+◌, ◌≤◌, String, ◌≡◌, refl, Bool, true, false, Option, none, some, List, [], ◌∷◌,
  arith, ltb, str_eq, eq_iff, if◌then◌else◌, Bool-cases, Option-cases, inl, inr,
}
use marchi.Cache
use marchi.Cache.Bytes.{
  total, Once, IsCache, Once-remove_back, total-remove_back, size_of-Once, gone-Once, total-without,
}

-- The entry stands in front, and its file is there.
abbrev Front : String → ℕ → Cache.Blob → Cache.Cache → Type 0
Front key size blob c = (Cache.size_of key c.order ≡ some size) × (c.files key ≡ some blob)

Once-back :
    (key : String) (e : String × ℕ) (order : List (String × ℕ))
    → Once key (e ∷ order)
    → str_eq (Cache.back e order).0 key ≡ false
unfolding Cache.back
Once-back key e [] h = h.0
Once-back key e (x ∷ order) h = Once-back key x order h.1

module _ (stuck : String → Bool) where
  still_there :
      (other key : String) (blob : Cache.Blob) (files : String → Option Cache.Blob)
      → str_eq other key ≡ false
      → files key ≡ some blob
      → (if stuck other then files else Cache.set_file other none files) key ≡ some blob
  still_there other key blob files apart there = elim (Bool-cases (stuck other)) [
    | inl e ↦ rw e there
    | inr e ↦ rw (e, apart) there
  ]

  -- The loop stops before it takes an entry that fits the budget from the front.
  evict-Front :
      (fuel max cur : ℕ) (key : String) (size : ℕ) (blob : Cache.Blob) (order : List (String × ℕ))
      (files : String → Option Cache.Blob)
      → size ≤ max
      → cur ≡ size + total order
      → Once key order
      → files key ≡ some blob
      → Front key size blob (
          Cache.evict stuck fuel (record {
            max_bytes = max;
            order = (key, size) ∷ order;
            cur_bytes = cur;
            files = files;
          }))
  unfolding Cache.evict Cache.size_of Cache.remove_back Cache.back
  evict-Front zero max cur key size blob order files fits sum once there =
      (ground (arith, eq_iff key key), there)
  evict-Front (suc fuel) max cur key size blob [] files fits sum once there =
      elim (Bool-cases (ltb max cur)) [
        | inl e ↦ absurd (ground arith)
        | inr e ↦ rw (e, Cache.evict) (ground (arith, eq_iff key key), there)
      ]
  evict-Front (suc fuel) max cur key size blob (x ∷ order) files fits sum once there =
      elim (Bool-cases (ltb max cur)) [
        | inl e ↦
            rw (e, Cache.evict)
              (evict-Front fuel max _ key size blob (Cache.remove_back x order) _ fits
                (omega (arith, sum, total-remove_back x order)) (Once-remove_back key x order once)
                (still_there (Cache.back x order).0 key blob files (Once-back key x order once)
                  there))
        | inr e ↦ rw (e, Cache.evict) (ground (arith, eq_iff key key), there)
      ]

  put-Front :
      (key : String) (blob : Cache.Blob) (c : Cache.Cache)
      → IsCache c
      → blob.size ≤ c.max_bytes
      → Front key blob.size blob (Cache.put stuck none key blob c).1
  unfolding Cache.put
  put-Front key blob c h fits = elim (Option-cases (Cache.size_of key c.order)) [
    | inl e ↦ rw e (
        evict-Front _ c.max_bytes _ key blob.size blob c.order _ fits (omega (arith, h.0))
          (size_of-Once key c.order e) (ground (arith, eq_iff key key)))
    | inr (old, e) ↦ rw e (
        evict-Front _ c.max_bytes _ key blob.size blob (Cache.without key c.order) _ fits
          (omega (arith, h.0, total-without key old c.order h.1 e)) (gone-Once key c.order)
          (ground (arith, eq_iff key key)))
  ]

  -- A message that fits the budget is got back as it was put, as long as its file was written and can
  -- be read.
  pub get-put :
      (key : String) (blob : Cache.Blob) (c : Cache.Cache)
      → IsCache c
      → blob.size ≤ c.max_bytes
      → (Cache.get key true (Cache.put stuck none key blob c).1).0 ≡ some blob
  unfolding Cache.get
  get-put key blob c h fits =
      let front = put-Front key blob c h fits in rw (front.0, front.1, Cache.get) refl
