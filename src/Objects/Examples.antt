-- ===== src/Objects/Examples.antt =====
-- A load from a bucket with one object, over toy primitives that meet the documented laws.
use Prim.Native.String.{String}
use marchi.Prelude.{
  ℕ, zero, suc, ◌+◌, ◌≡◌, refl, ◌⊎◌, true, false, Option, none, some, [], ◌∷◌, ◌++◌, arith, ◌==◌,
  if◌then◌else◌, subst, ap, ◌∙◌,
}
use marchi.Vault.Cipher.{Bytes, Result, ok, err, codes, encrypt}
use marchi.Vault.Examples.{toy, pad, length-pad}
use marchi.Cache
use marchi.Objects.Seal.{ObjectLib, Object, ObjectError, content, failed, encrypt_object}
use marchi.Objects.Load.{Request, load}
use marchi.Objects.Held.{Holds}
use marchi.Objects.Served.{IsMirrored, Undelivered, load-Answered}

-- A number as so many letters a and a b.
abbrev pub unary : ℕ → String → String
unary zero text = String.◌∷◌ "b" text
unary (suc n) text = String.◌∷◌ "a" (unary n text)

abbrev pub toy_encode : Bytes → String
toy_encode [] = ""
toy_encode (n ∷ ns) = unary n (toy_encode ns)

abbrev pub with_first : ℕ → Option Bytes → Option Bytes
with_first n none = none
with_first n (some ns) = some (n ∷ ns)

pub counted : ℕ → Bytes → Option Bytes
counted n [] = some []
counted n (x ∷ xs) =
    let closed = counted 0 xs in
    let longer = counted (suc n) xs in if x == 98 then with_first n closed else longer

counted-unary :
    (n m : ℕ) (text : String)
    → counted n (codes (unary m text)) ≡ with_first (n + m) (counted 0 (codes text))
unfolding counted
counted-unary n zero text = ap (λ k. with_first k (counted 0 (codes text))) (omega arith)
counted-unary n (suc m) text =
    counted-unary (suc n) m text ∙ ap (λ k. with_first k (counted 0 (codes text))) (omega arith)

pub toy_decode : (b : Bytes) → counted 0 (codes (toy_encode b)) ≡ some b
unfolding counted
toy_decode [] = refl
toy_decode (n ∷ ns) =
    counted-unary 0 n (toy_encode ns)
    ∙ ap (λ k. with_first k (counted 0 (codes (toy_encode ns)))) (omega arith)
    ∙ ap (with_first n) (toy_decode ns)

abbrev pub lib : ObjectLib
lib = record {
  prims = toy;
  hkdf = λ key info. pad 32 (key ++ info);
  sha256_hex = toy_encode;
  encode = toy_encode;
  decode = λ text. counted 0 (codes text);
  length-hkdf = λ key info. length-pad 32 (key ++ info);
  decode-encode = toy_decode;
}

abbrev pub master : Bytes
master = pad 32 (7 ∷ [])

abbrev pub message : Bytes
message = 1 ∷ 2 ∷ []

abbrev pub made_of : Result Object → Object
made_of (err e) = record { body = []; metadata = [] }
made_of (ok o) = o

abbrev pub object : Object
object = made_of (encrypt_object lib master message (some (pad 12 [])))

object_made : encrypt_object lib master message (some (pad 12 [])) ≡ ok object
unfolding encrypt_object encrypt
object_made = refl

pub bucket_mirrored : IsMirrored lib (λ k. false) master (λ key. some object) (λ key. message)
bucket_mirrored key o h =
    let same : object ≡ o = ground arith in
    record {
      nonce = some (pad 12 []);
      size = refl;
      made =
          subst (λ x. encrypt_object lib master message (some (pad 12 [])) ≡ ok x) same object_made;
    }

-- The request is answered, and the file of the cache cannot be written.
abbrev pub request : Request
request = record {
  readable = true;
  get_fails = false;
  read_fails = false;
  write_fails = some (some (record { bytes = 1 ∷ []; size = 1 }));
}

load-Answered_example :
    Holds
      (λ key. message)
      (load lib (λ k. false) master (λ key. some object) request "k" (Cache.new_cache 100)).1
    × (((load lib (λ k. false) master (λ key. some object) request "k" (Cache.new_cache 100)).0
          ≡ content message)
        ⊎ ((e : ObjectError) × ((load lib
                (λ k. false)
                master
                (λ key. some object)
                request
                "k"
                (Cache.new_cache 100)).0
              ≡ failed e)
            × Undelivered lib
                (λ k. false)
                master
                (λ key. some object)
                (λ key. message)
                request
                "k"))
load-Answered_example =
    load-Answered lib (λ k. false) master (λ key. some object) (λ key. message) request "k"
      (Cache.new_cache 100) refl bucket_mirrored (λ key blob m f. absurd m)
