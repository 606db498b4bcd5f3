-- ===== src/Cache/Bytes.antt =====
-- The byte count of the cache and its budget: `Put`, `Get` and `evictLocked` of
-- internal/s3store/cache.go.
use marchi.Prelude.{
  ℕ, zero, suc, ◌+◌, ◌≤◌, String, ◌≡◌, refl, ap, subst, ◌∙◌, Bool, false, Option, none, some, List,
  [], ◌∷◌, length, arith, ltb, str_eq, eq_iff, Bool-cases, Option-cases, inl, inr,
}
use marchi.Cache

abbrev pub total : List (String × ℕ) → ℕ
total [] = 0
total (e ∷ order) = e.1 + total order

-- No key stands twice.
abbrev pub Once : String → List (String × ℕ) → Type 0
Once key [] = Unit
Once key (e ∷ order) = (str_eq e.0 key ≡ false) × Once key order

abbrev pub Distinct : List (String × ℕ) → Type 0
Distinct [] = Unit
Distinct (e ∷ order) = Once e.0 order × Distinct order

abbrev pub IsCache : Cache.Cache → Type 0
IsCache c = (c.cur_bytes ≡ total c.order) × Distinct c.order

pub total-remove_back :
    (e : String × ℕ) (order : List (String × ℕ))
    → total (Cache.remove_back e order) + (Cache.back e order).1 ≡ e.1 + total order
unfolding Cache.remove_back Cache.back
total-remove_back e [] = omega arith
total-remove_back e (x ∷ order) = omega (arith, total-remove_back x order)

pub Once-remove_back :
    (key : String) (e : String × ℕ) (order : List (String × ℕ))
    → Once key (e ∷ order)
    → Once key (Cache.remove_back e order)
unfolding Cache.remove_back
Once-remove_back key e [] h = tt
Once-remove_back key e (x ∷ order) h = (h.0, Once-remove_back key x order h.1)

Distinct-remove_back :
    (e : String × ℕ) (order : List (String × ℕ))
    → Distinct (e ∷ order)
    → Distinct (Cache.remove_back e order)
unfolding Cache.remove_back
Distinct-remove_back e [] h = tt
Distinct-remove_back e (x ∷ order) h =
    (Once-remove_back e.0 x order h.0, Distinct-remove_back x order h.1)

length-remove_back :
    (e : String × ℕ) (order : List (String × ℕ)) → length (Cache.remove_back e order) ≡ length order
unfolding Cache.remove_back
length-remove_back e [] = refl
length-remove_back e (x ∷ order) = ap suc (length-remove_back x order)

module _ (stuck : String → Bool) where
  evict-IsCache :
      (fuel max cur : ℕ) (order : List (String × ℕ)) (files : String → Option Cache.Blob)
      → length order ≡ fuel
      → cur ≡ total order
      → Distinct order
      → let c =
          Cache.evict stuck fuel
            (record { max_bytes = max; order = order; cur_bytes = cur; files = files }) in
        (c.cur_bytes ≡ total c.order) × Distinct c.order × (c.cur_bytes ≤ max)
  unfolding Cache.evict
  evict-IsCache zero max cur [] files e t d = (t, d, omega arith)
  evict-IsCache zero max cur (x ∷ order) files e t d = absurd (omega arith)
  evict-IsCache (suc fuel) max cur [] files e t d = absurd (omega arith)
  evict-IsCache (suc fuel) max cur (x ∷ order) files e t d = elim (Bool-cases (ltb max cur)) [
    | inl over ↦
        rw (over, Cache.evict)
          (evict-IsCache fuel max _ (Cache.remove_back x order) _
            (length-remove_back x order ∙ omega arith) (omega (arith, t, total-remove_back x order))
            (Distinct-remove_back x order d))
    | inr fits ↦ rw (fits, Cache.evict) (t, d, ground arith)
  ]

Once-without :
    (key other : String) (order : List (String × ℕ))
    → Once other order
    → Once other (Cache.without key order)
unfolding Cache.without
Once-without key other [] h = tt
Once-without key other (e ∷ order) h = elim (Bool-cases (str_eq e.0 key)) [
  | inl q ↦ rw (q, Cache.without) (Once-without key other order h.1)
  | inr q ↦ rw (q, Cache.without) (h.0, Once-without key other order h.1)
]

pub gone-Once : (key : String) (order : List (String × ℕ)) → Once key (Cache.without key order)
unfolding Cache.without
gone-Once key [] = tt
gone-Once key (e ∷ order) = elim (Bool-cases (str_eq e.0 key)) [
  | inl q ↦ rw (q, Cache.without) (gone-Once key order)
  | inr q ↦ rw (q, Cache.without) (q, gone-Once key order)
]

Distinct-without :
    (key : String) (order : List (String × ℕ)) → Distinct order → Distinct (Cache.without key order)
unfolding Cache.without
Distinct-without key [] h = tt
Distinct-without key (e ∷ order) h = elim (Bool-cases (str_eq e.0 key)) [
  | inl q ↦ rw (q, Cache.without) (Distinct-without key order h.1)
  | inr q ↦ rw (q, Cache.without) (Once-without key e.0 order h.0, Distinct-without key order h.1)
]

without-Once :
    (key : String) (order : List (String × ℕ)) → Once key order → Cache.without key order ≡ order
unfolding Cache.without
without-Once key [] h = refl
without-Once key (e ∷ order) h =
    rw (h.0, Cache.without) (ap (λ o. e ∷ o) (without-Once key order h.1))

pub size_of-Once :
    (key : String) (order : List (String × ℕ)) → Cache.size_of key order ≡ none → Once key order
unfolding Cache.size_of
size_of-Once key [] h = tt
size_of-Once key (e ∷ order) h = elim (Bool-cases (str_eq e.0 key)) [
  | inl q ↦ cc (rw (q, Cache.size_of) at h)
  | inr q ↦ (q, size_of-Once key order (rw (q, Cache.size_of) at h))
]

pub total-without :
    (key : String) (size : ℕ) (order : List (String × ℕ))
    → Distinct order
    → Cache.size_of key order ≡ some size
    → total (Cache.without key order) + size ≡ total order
unfolding Cache.without Cache.size_of
total-without key size [] d h = cc
total-without key size ((k, n) ∷ order) d h = elim (Bool-cases (str_eq k key)) [
  | inl q ↦
      let same : n ≡ size = cc (rw (q, Cache.size_of) at h) in
      let k_is : k ≡ key = (eq_iff k key).0 q in
      rw (q, Cache.without)
        (omega
          (arith, same, ap total (without-Once key order (subst (λ z. Once z order) k_is d.0))))
  | inr q ↦
      rw (q, Cache.without)
        (omega (arith, total-without key size order d.1 (rw (q, Cache.size_of) at h)))
]

module _ (stuck : String → Bool) where
  evicted :
      (c : Cache.Cache)
      → IsCache c
      → IsCache (Cache.evict_locked stuck c)
        × ((Cache.evict_locked stuck c).cur_bytes ≤ c.max_bytes)
  evicted c h =
      let r =
        evict-IsCache stuck (length c.order) c.max_bytes c.cur_bytes c.order c.files refl h.0 h.1 in
      ((r.0, r.1), r.2)

  store-IsCache :
      (key : String) (size : ℕ) (c : Cache.Cache)
      → IsCache c
      → IsCache (Cache.store stuck (Cache.size_of key c.order) key size c)
  store-IsCache key size c h = elim (Option-cases (Cache.size_of key c.order)) [
    | inl e ↦ rw e (omega (arith, h.0), (size_of-Once key c.order e, h.1))
    | inr (old, e) ↦ rw e (
      omega (arith, h.0, total-without key old c.order h.1 e),
      (gone-Once key c.order, Distinct-without key c.order h.1),
    )
  ]

  store_budget :
      (key : String) (size : ℕ) (c : Cache.Cache) (o : Option ℕ)
      → (Cache.store stuck o key size c).max_bytes ≡ c.max_bytes
  store_budget key size c none = refl
  store_budget key size c (some old) = refl

  -- After a `Put` the byte count is the sum of the sizes of the entries and no key stands twice; if
  -- the write of its file did not fail, the entries fit the budget, whatever their sizes and
  -- whichever files cannot be removed.
  pub put-IsCache :
      (write_fails : Option (Option Cache.Blob)) (key : String) (blob : Cache.Blob)
      (c : Cache.Cache)
      → IsCache c
      → let r = Cache.put stuck write_fails key blob c in
        IsCache r.1 × (r.0 ≡ false → r.1.cur_bytes ≤ c.max_bytes)
  unfolding Cache.put
  put-IsCache (some left) key blob c h = (h, λ e. cc)
  put-IsCache none key blob c h =
      let stored =
        store-IsCache key blob.size (record c { files = Cache.set_file key (some blob) c.files })
          h in
      let r = evicted _ stored in
      (
        r.0,
        λ e.
            subst (λ b. (Cache.put stuck none key blob c).1.cur_bytes ≤ b)
              (store_budget key blob.size _ (Cache.size_of key c.order)) r.1,
      )
