-- ===== src/Cache.antt =====
-- The disk cache of decrypted messages: `Cache` of internal/s3store/cache.go. A file goes by its
-- key: its name is the SHA-256 of the key, which tells keys apart. A cache is used by one caller
-- at a time.
pub mod Bytes
pub mod RoundTrip
pub mod Examples
use marchi.Prelude.{
  ℕ, zero, suc, ◌+◌, ◌-◌, String, Bool, true, false, not, Option, none, some, List, [], ◌∷◌, keep,
  length, ltb, str_eq, if◌then◌else◌,
}

pub record Blob : Type 0 where
  pub bytes : List ℕ
  pub size : ℕ

-- `order` has the keys and sizes of `entries`, the most recently used first.
pub record Cache : Type 0 where
  pub max_bytes : ℕ
  pub order : List (String × ℕ)
  pub cur_bytes : ℕ
  pub files : String → Option Blob

abbrev pub new_cache : ℕ → Cache
new_cache max_bytes = record { max_bytes = max_bytes; order = []; cur_bytes = 0; files = λ k. none }

abbrev pub set_file : String → Option Blob → (String → Option Blob) → String → Option Blob
set_file key content files k = if str_eq key k then content else files k

unfoldable pub size_of : String → List (String × ℕ) → Option ℕ
size_of key [] = none
size_of key ((k, n) ∷ order) = if str_eq k key then some n else size_of key order

unfoldable pub without : String → List (String × ℕ) → List (String × ℕ)
without key [] = []
without key ((k, n) ∷ order) =
    let rest = without key order in if str_eq k key then rest else (k, n) ∷ rest

unfoldable pub back : String × ℕ → List (String × ℕ) → String × ℕ
back e [] = e
back e (x ∷ order) = back x order

unfoldable pub remove_back : String × ℕ → List (String × ℕ) → List (String × ℕ)
remove_back e [] = []
remove_back e (x ∷ order) = e ∷ remove_back x order

-- `stuck k` says that the file of `k` cannot be removed; it is left behind.
module _ (stuck : String → Bool) where
  -- One pass of the loop, on a cache whose order is `e ∷ order`.
  abbrev pub evict_back : String × ℕ → List (String × ℕ) → Cache → Cache
  evict_back e order c = record c {
    order = remove_back e order;
    cur_bytes = c.cur_bytes - (back e order).1;
    files = if stuck (back e order).0 then c.files else set_file (back e order).0 none c.files;
  }

  unfoldable pub evict : ℕ → Cache → Cache
  evict zero c = c
  evict (suc fuel) c = elim c.order [
    | [] ↦ c
    | ◌∷◌ e order ↦ if ltb c.max_bytes c.cur_bytes then evict fuel (evict_back e order c) else c
  ]

  -- Each pass takes an entry, so their number is enough fuel.
  abbrev pub evict_locked : Cache → Cache
  evict_locked c = evict (length c.order) c

  -- The bookkeeping of `Put`, once the file is written.
  abbrev pub store : Option ℕ → String → ℕ → Cache → Cache
  store (some old) key size c = record c {
    order = (key, size) ∷ without key c.order;
    cur_bytes = c.cur_bytes + size - old;
  }
  store none key size c = record c { order = (key, size) ∷ c.order; cur_bytes = c.cur_bytes + size }

  -- Whether it fails, and the cache. Where os.WriteFile fails, the first argument has what it left in
  -- the file.
  unfoldable pub put : Option (Option Blob) → String → Blob → Cache → Bool × Cache
  put (some left) key blob c = (true, record c { files = set_file key left c.files })
  put none key blob c = (
    false,
    evict_locked (
        store (size_of key c.order) key blob.size
          (record c { files = set_file key (some blob) c.files })),
  )

abbrev pub move_to_front : String → ℕ → Cache → Cache
move_to_front key size c = record c { order = (key, size) ∷ without key c.order }

abbrev pub remove_locked : String → ℕ → Cache → Cache
remove_locked key size c = record c { order = without key c.order; cur_bytes = c.cur_bytes - size }

-- `readable` is false where reading the file fails.
unfoldable pub get : String → Bool → Cache → Option Blob × Cache
get key readable c = elim (size_of key c.order) [
  | none ↦ (none, c)
  | some size ↦ elim (if readable then c.files key else none) [
    | none ↦ (none, remove_locked key size (move_to_front key size c))
    | some blob ↦ (some blob, move_to_front key size c)
  ]
]
