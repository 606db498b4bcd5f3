-- ===== src/Objects/Held.antt =====
-- What the cache of internal/s3store/cache.go can serve: `Get`, `Put` and the eviction keep the
-- files of the entries what they were.
use marchi.Prelude.{
  ℕ, zero, suc, ◌+◌, ◌-◌, String, ◌≡◌, refl, ◌⊎◌, inl, inr, Bool, false, Option, none, some, List,
  [], ◌∷◌, arith, ltb, str_eq, eq_iff, Bool-cases, Option-cases, Some, subst, sym, ◌∙◌, ap,
}
use marchi.Vault.Cipher.{Bytes}
use marchi.Cache

-- The key has an entry.
abbrev pub In : String → List (String × ℕ) → Type 0
In key order = Some (λ e. e.0 ≡ key) order

size_of-In :
    (key : String) (n : ℕ) (order : List (String × ℕ))
    → Cache.size_of key order ≡ some n
    → In key order
unfolding Cache.size_of
size_of-In key n [] h = cc
size_of-In key n (e ∷ order) h = elim (Bool-cases (str_eq e.0 key)) [
  | inl q ↦ inl ((eq_iff e.0 key).0 q)
  | inr q ↦ inr (size_of-In key n order (rw (q, Cache.size_of) at h))
]

size_of-absent :
    (key : String) (order : List (String × ℕ)) → Cache.size_of key order ≡ none → In key order → ⊥
unfolding Cache.size_of
size_of-absent key [] h m = m
size_of-absent key (e ∷ order) h m = elim (Bool-cases (str_eq e.0 key)) [
  | inl q ↦ cc (rw (q, Cache.size_of) at h)
  | inr q ↦ elim m [
    | inl s ↦ absurd (grind (arith, (eq_iff e.0 key).1 s))
    | inr m' ↦ size_of-absent key order (rw (q, Cache.size_of) at h) m'
  ]
]

In-without :
    (key other : String) (order : List (String × ℕ))
    → In other (Cache.without key order)
    → In other order × (str_eq other key ≡ false)
unfolding Cache.without
In-without key other [] m = absurd m
In-without key other (e ∷ order) m = elim (Bool-cases (str_eq e.0 key)) [
  | inl q ↦ let r = In-without key other order (rw (q, Cache.without) at m) in (inr r.0, r.1)
  | inr q ↦ elim (rw (q, Cache.without) at m) [
    | inl s ↦ (inl s, subst (λ k. str_eq k key ≡ false) s q)
    | inr m' ↦ let r = In-without key other order m' in (inr r.0, r.1)
  ]
]

In-remove_back :
    (key : String) (e : String × ℕ) (order : List (String × ℕ))
    → In key (Cache.remove_back e order)
    → In key (e ∷ order)
unfolding Cache.remove_back
In-remove_back key e [] m = absurd m
In-remove_back key e (x ∷ order) (inl s) = inl s
In-remove_back key e (x ∷ order) (inr m) = inr (In-remove_back key x order m)

module _ (contents : String → Bytes) where
  -- Each entry whose file is there has the contents of its key in it.
  abbrev pub Holds : Cache.Cache → Type 0
  Holds c =
      (key : String) (blob : Cache.Blob)
      → In key c.order
      → c.files key ≡ some blob
      → blob.bytes ≡ contents key

  evict_back-Holds :
      (stuck : String → Bool) (e : String × ℕ) (order : List (String × ℕ)) (max cur : ℕ)
      (files : String → Option Cache.Blob)
      → Holds (record { max_bytes = max; order = e ∷ order; cur_bytes = cur; files = files })
      → Holds (
          Cache.evict_back stuck e order
            (record { max_bytes = max; order = e ∷ order; cur_bytes = cur; files = files }))
  evict_back-Holds stuck e order max cur files h key blob m f =
      h key blob (In-remove_back key e order m) (elim (Bool-cases (stuck (Cache.back e order).0)) [
        | inl s ↦ grind (arith, s, f)
        | inr s ↦ elim (Bool-cases (str_eq (Cache.back e order).0 key)) [
          | inl q ↦ absurd (grind (arith, s, q, f))
          | inr q ↦ grind (arith, s, q, f)
        ]
      ])

  evict-Holds :
      (stuck : String → Bool) (fuel max cur : ℕ) (order : List (String × ℕ))
      (files : String → Option Cache.Blob)
      → Holds (record { max_bytes = max; order = order; cur_bytes = cur; files = files })
      → Holds (
          Cache.evict stuck fuel
            (record { max_bytes = max; order = order; cur_bytes = cur; files = files }))
  unfolding Cache.evict
  evict-Holds stuck zero max cur order files h = h
  evict-Holds stuck (suc fuel) max cur [] files h = h
  evict-Holds stuck (suc fuel) max cur (e ∷ order) files h = elim (Bool-cases (ltb max cur)) [
    | inl o ↦
        rw (o, Cache.evict)
          (evict-Holds stuck fuel max _ _ _ (evict_back-Holds stuck e order max cur files h))
    | inr o ↦ rw (o, Cache.evict) h
  ]

  set_file-Holds :
      (key : String) (blob : Cache.Blob) (c : Cache.Cache) (max cur : ℕ) (order : List (String × ℕ))
      → Holds c
      → blob.bytes ≡ contents key
      → ((other : String) → In other order → (key ≡ other) ⊎ In other c.order)
      → Holds (record {
        max_bytes = max;
        order = order;
        cur_bytes = cur;
        files = Cache.set_file key (some blob) c.files;
      })
  set_file-Holds key blob c max cur order h b among other x m f =
      elim (Bool-cases (str_eq key other)) [
        | inl q ↦
            let same : blob ≡ x = grind (arith, q, f) in
            subst (λ y. y.bytes ≡ contents other) same (b ∙ ap contents ((eq_iff key other).0 q))
        | inr q ↦ elim (among other m) [
          | inl s ↦ absurd (grind (arith, q, (eq_iff key other).1 s))
          | inr old ↦ h other x old (grind (arith, q, f))
        ]
      ]

  stored-Holds :
      (stuck : String → Bool) (key : String) (blob : Cache.Blob) (old : Option ℕ) (c : Cache.Cache)
      → Holds c
      → blob.bytes ≡ contents key
      → Holds (
          Cache.store stuck old key blob.size
            (record c { files = Cache.set_file key (some blob) c.files }))
  stored-Holds stuck key blob none c h b =
      set_file-Holds key blob c c.max_bytes (c.cur_bytes + blob.size) ((key, blob.size) ∷ c.order) h
        b (λ other m. elim m [ inl s ↦ inl s | inr m' ↦ inr m' ])
  stored-Holds stuck key blob (some old) c h b =
      set_file-Holds key blob c c.max_bytes (c.cur_bytes + blob.size - old)
        ((key, blob.size) ∷ Cache.without key c.order) h b
        (λ other m. elim m [ inl s ↦ inl s | inr m' ↦ inr (In-without key other c.order m').0 ])

  put_failed-Holds :
      (key : String) (left : Option Cache.Blob) (c : Cache.Cache)
      → Holds c
      → (In key c.order → ⊥)
      → Holds (record c { files = Cache.set_file key left c.files })
  put_failed-Holds key left c h out other x m f = elim (Bool-cases (str_eq key other)) [
    | inl q ↦ absurd (out (subst (λ k. In k c.order) (sym ((eq_iff key other).0 q)) m))
    | inr q ↦ h other x m (grind (arith, q, f))
  ]

  -- Where the write fails, the file of a key that has no entry plays no part.
  pub put-Holds :
      (stuck : String → Bool) (write_fails : Option (Option Cache.Blob)) (key : String)
      (blob : Cache.Blob) (c : Cache.Cache)
      → Holds c
      → (In key c.order → ⊥)
      → blob.bytes ≡ contents key
      → Holds (Cache.put stuck write_fails key blob c).1
  unfolding Cache.put
  put-Holds stuck (some left) key blob c h out b = put_failed-Holds key left c h out
  put-Holds stuck none key blob c h out b =
      evict-Holds stuck _ _ _ _ _ (stored-Holds stuck key blob (Cache.size_of key c.order) c h b)

  -- A `Get` serves the contents of the key, or nothing, and then the key has no entry.
  pub data Got (key : String) : Option Cache.Blob × Cache.Cache → Type 0 where
    hit :
        (blob : Cache.Blob) (c : Cache.Cache)
        → blob.bytes ≡ contents key
        → Holds c
        → Got key (some blob, c)
    miss : (c : Cache.Cache) → (In key c.order → ⊥) → Holds c → Got key (none, c)

  front-Holds :
      (key : String) (size : ℕ) (c : Cache.Cache)
      → In key c.order
      → Holds c
      → Holds (Cache.move_to_front key size c)
  front-Holds key size c there h other x (inl s) f = h other x (subst (λ k. In k c.order) s there) f
  front-Holds key size c there h other x (inr m) f = h other x (In-without key other c.order m).0 f

  found-Got :
      (key : String) (size : ℕ) (c : Cache.Cache) (file : Option Cache.Blob)
      → In key c.order
      → ((blob : Cache.Blob) → file ≡ some blob → blob.bytes ≡ contents key)
      → Holds c
      → Got key (elim file [
        | none ↦ (none, Cache.remove_locked key size (Cache.move_to_front key size c))
        | some blob ↦ (some blob, Cache.move_to_front key size c)
      ])
  found-Got key size c (some blob) there b h =
      hit blob _ (b blob refl) (front-Holds key size c there h)
  found-Got key size c none there b h =
      miss _ (λ m. absurd (ground (arith, (In-without key key _ m).1, (eq_iff key key).1 refl)))
        (λ other x m f. front-Holds key size c there h other x (In-without key other _ m).0 f)

  pub get-Got :
      (key : String) (readable : Bool) (c : Cache.Cache)
      → Holds c
      → Got key (Cache.get key readable c)
  unfolding Cache.get
  get-Got key readable c h = elim (Option-cases (Cache.size_of key c.order)) [
    | inl e ↦ rw (e, Cache.get) (miss c (size_of-absent key c.order e) h)
    | inr (size, e) ↦
        let there = size_of-In key size c.order e in
        rw (e, Cache.get)
          (found-Got key size c _ there (λ blob f. h key blob there (grind (arith, f))) h)
  ]
