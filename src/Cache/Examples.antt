-- ===== src/Cache/Examples.antt =====
-- Runs of the cache, with the theorems applied to them.
use marchi.Prelude.{◌≤◌, String, ◌≡◌, refl, Bool, true, false, some, none, [], ◌∷◌, arith, str_eq}
use marchi.Cache
use marchi.Cache.Bytes.{IsCache, put-IsCache}
use marchi.Cache.RoundTrip.{get-put}

-- The file of "b" cannot be removed.
abbrev stuck : String → Bool
stuck k = str_eq k "b"

abbrev letter : Cache.Blob
letter = record { bytes = 104 ∷ 105 ∷ []; size = 60 }

-- Two messages of forty and of thirty bytes in a budget of a hundred.
abbrev cache : Cache.Cache
cache = record {
  max_bytes = 100;
  order = ("a", 40) ∷ ("b", 30) ∷ [];
  cur_bytes = 70;
  files = Cache.set_file "a" (some letter) (Cache.set_file "b" (some letter) (λ k. none));
}

cache-IsCache : IsCache cache
cache-IsCache = (refl, ((refl, tt), (tt, tt)))

put-IsCache_example :
    IsCache (Cache.put stuck none "c" letter cache).1
    × ((Cache.put stuck none "c" letter cache).0 ≡ false
        → (Cache.put stuck none "c" letter cache).1.cur_bytes ≤ 100)
put-IsCache_example = put-IsCache stuck none "c" letter cache cache-IsCache

get-put_example : (Cache.get "c" true (Cache.put stuck none "c" letter cache).1).0 ≡ some letter
get-put_example = get-put stuck "c" letter cache cache-IsCache (omega arith)
