-- ===== src/Vault/Cipher.antt =====
-- `Encrypt` and `Decrypt` of internal/security/crypto/crypto.go. AES-GCM of Go's crypto/cipher and
-- Argon2id of golang.org/x/crypto are parameters.
use Prim.Native.String.{String}
use marchi.Prelude.{
  ℕ, zero, suc, ◌≡◌, refl, ◌≢◌, ◌⊎◌, Bool, true, false, ◌&&◌, not, Option, none, some, List, [],
  ◌∷◌, ◌++◌, arith, length, take, drop, ltb, ◌==◌, if◌then◌else◌, ap, inl, inr, code,
}

abbrev pub Bytes : Type 0
Bytes = List ℕ

abbrev pub key_size : ℕ
key_size = 32

-- The nonce size of `cipher.NewGCM`.
abbrev pub nonce_size : ℕ
nonce_size = 12

-- What is documented of the two: the length of a derived key, that a sealed text is opened again
-- under its key, and that it is refused under another.
pub record Primitives : Type 0 where
  pub derive : Bytes → Bytes → Bytes
  pub seal : Bytes → Bytes → Bytes → Bytes → Bytes
  pub unseal : Bytes → Bytes → Bytes → Bytes → Option Bytes
  pub length-derive : (password salt : Bytes) → length (derive password salt) ≡ key_size
  pub unseal-seal :
      (key nonce plaintext aad : Bytes)
      → length key ≡ key_size
      → length nonce ≡ nonce_size
      → unseal key nonce (seal key nonce plaintext aad) aad ≡ some plaintext
  pub unseal_other :
      (key other nonce plaintext aad : Bytes)
      → length key ≡ key_size
      → length other ≡ key_size
      → key ≢ other
      → length nonce ≡ nonce_size
      → unseal other nonce (seal key nonce plaintext aad) aad ≡ none

pub data VaultError : Type 0 where
  invalid_key_size no_entropy decrypt_failed : VaultError
  password_too_short corrupted_store incorrect_password : VaultError
  reading_failed writing_failed : VaultError

pub data Result (A : Type 0) : Type 0 where
  ok : A → Result A
  err : VaultError → Result A

pub Result-cases :
    {A : Type 0} (r : Result A) → ((a : A) × (r ≡ ok a)) ⊎ ((e : VaultError) × (r ≡ err e))
Result-cases (ok a) = inl (a, refl)
Result-cases (err e) = inr (e, refl)

-- The bytes of an ASCII text.
abbrev pub codes : String → Bytes
codes String.[] = []
codes (String.◌∷◌ c text) = code c ∷ codes text

-- bytes.Equal
abbrev pub equal : Bytes → Bytes → Bool
equal [] [] = true
equal [] (y ∷ ys) = false
equal (x ∷ xs) [] = false
equal (x ∷ xs) (y ∷ ys) = x == y && equal xs ys

pub equal_refl : (xs : Bytes) → equal xs xs ≡ true
equal_refl [] = refl
equal_refl (x ∷ xs) = ground (arith, equal_refl xs)

pub equal→eq : (xs ys : Bytes) → equal xs ys ≡ true → xs ≡ ys
equal→eq [] [] h = refl
equal→eq [] (y ∷ ys) h = cc
equal→eq (x ∷ xs) [] h = cc
equal→eq (x ∷ xs) (y ∷ ys) h = ground (arith, equal→eq xs ys)

pub take-append : (xs ys : Bytes) (n : ℕ) → length xs ≡ n → take n (xs ++ ys) ≡ xs
take-append [] ys zero h = refl
take-append [] ys (suc n) h = absurd (omega arith)
take-append (x ∷ xs) ys zero h = absurd (omega arith)
take-append (x ∷ xs) ys (suc n) h = ap (λ l. x ∷ l) (take-append xs ys n (omega arith))

pub drop-append : (xs ys : Bytes) (n : ℕ) → length xs ≡ n → drop n (xs ++ ys) ≡ ys
drop-append [] ys zero h = refl
drop-append [] ys (suc n) h = absurd (omega arith)
drop-append (x ∷ xs) ys zero h = absurd (omega arith)
drop-append (x ∷ xs) ys (suc n) h = drop-append xs ys n (omega arith)

module _ (lib : Primitives) where
  -- The nonce is what the random source gave, `none` where it failed.
  unfoldable pub encrypt : Bytes → Bytes → Bytes → Option Bytes → Result Bytes
  encrypt key plaintext aad nonce =
      if not (length key == key_size)
      then err invalid_key_size
      else elim nonce [ none ↦ err no_entropy | some n ↦ ok (n ++ lib.seal key n plaintext aad) ]

  abbrev pub opened : Option Bytes → Result Bytes
  opened none = err decrypt_failed
  opened (some plaintext) = ok plaintext

  unfoldable pub decrypt : Bytes → Bytes → Bytes → Result Bytes
  decrypt key ciphertext aad =
      if not (length key == key_size)
      then err invalid_key_size
      else if ltb (length ciphertext) nonce_size
      then err decrypt_failed
      else opened (lib.unseal key (take nonce_size ciphertext) (drop nonce_size ciphertext) aad)
