-- ===== src/Objects/Seal.antt =====
-- `EncryptObject` and `DecryptObject` of internal/s3store/encrypt.go with `DeriveSubkey` of
-- internal/security/crypto/crypto.go. HKDF, SHA-256 with its hexadecimal print, and base64 are
-- parameters.
use marchi.Prelude.{
  ℕ, ◌-◌, String, ◌≡◌, Option, none, some, List, [], ◌∷◌, ◌++◌, length, take, drop, ◌==◌,
  if◌then◌else◌, str_eq,
}
use marchi.Vault.Cipher.{
  Bytes, key_size, nonce_size, Primitives, VaultError, invalid_key_size, Result, ok, err, codes,
  encrypt, decrypt,
}

-- What is documented of them: the length of a key, and that what is encoded is decoded again.
pub record ObjectLib : Type 0 where
  pub prims : Primitives
  pub hkdf : Bytes → Bytes → Bytes
  pub sha256_hex : Bytes → String
  pub encode : Bytes → String
  pub decode : String → Option Bytes
  pub length-hkdf : (key info : Bytes) → length (hkdf key info) ≡ key_size
  pub decode-encode : (b : Bytes) → decode (encode b) ≡ some b

abbrev pub gcm_tag_size : ℕ
gcm_tag_size = 16

abbrev pub subkey_info : String
subkey_info = "s3-object-encryption"

abbrev pub meta_iv : String
meta_iv = "marchi-iv"

abbrev pub meta_tag : String
meta_tag = "marchi-tag"

abbrev pub meta_sha256 : String
meta_sha256 = "marchi-sha256"

abbrev pub Metadata : Type 0
Metadata = List (String × String)

abbrev pub header : String → Metadata → Option String
header key [] = none
header key ((k, v) ∷ metadata) = if str_eq k key then some v else header key metadata

pub record Object : Type 0 where
  pub body : Bytes
  pub metadata : Metadata

pub data ObjectError : Type 0 where
  cipher_failed : VaultError → ObjectError
  missing_iv malformed_iv missing_sha256 sha256_mismatch : ObjectError
  get_failed read_failed : ObjectError

pub data Opened : Type 0 where
  content : Bytes → Opened
  failed : ObjectError → Opened

module _ (lib : ObjectLib) where
  abbrev pub derive_subkey : Bytes → String → Result Bytes
  derive_subkey master info =
      if length master == key_size then ok (lib.hkdf master (codes info)) else err invalid_key_size

  -- The blob is the nonce, the ciphertext and the tag; the body is all behind the nonce.
  abbrev pub object_of : Bytes → Bytes → Object
  object_of plaintext blob =
      let body = drop nonce_size blob in
      record {
        body = body;
        metadata =
            (meta_iv, lib.encode (take nonce_size blob))
            ∷ (meta_tag, lib.encode (drop (length body - gcm_tag_size) body))
            ∷ (meta_sha256, lib.sha256_hex plaintext)
            ∷ [];
      }

  abbrev pub sealed : Bytes → Result Bytes → Result Object
  sealed plaintext (err e) = err e
  sealed plaintext (ok blob) = ok (object_of plaintext blob)

  abbrev pub seal_with : Result Bytes → Bytes → Option Bytes → Result Object
  seal_with (err e) plaintext iv = err e
  seal_with (ok subkey) plaintext iv = sealed plaintext (encrypt lib.prims subkey plaintext [] iv)

  unfoldable pub encrypt_object : Bytes → Bytes → Option Bytes → Result Object
  encrypt_object master plaintext iv = seal_with (derive_subkey master subkey_info) plaintext iv

  abbrev pub compared : Bytes → Option String → Opened
  compared plaintext none = failed missing_sha256
  compared plaintext (some want) =
      if str_eq (lib.sha256_hex plaintext) want then content plaintext else failed sha256_mismatch

  abbrev pub verified : Metadata → Result Bytes → Opened
  verified metadata (err e) = failed (cipher_failed e)
  verified metadata (ok plaintext) = compared plaintext (header meta_sha256 metadata)

  abbrev pub open_with : Bytes → Object → Option Bytes → Opened
  open_with subkey o none = failed malformed_iv
  open_with subkey o (some iv) = verified o.metadata (decrypt lib.prims subkey (iv ++ o.body) [])

  abbrev pub open_iv : Bytes → Object → Option String → Opened
  open_iv subkey o none = failed missing_iv
  open_iv subkey o (some iv) = open_with subkey o (lib.decode iv)

  abbrev pub open_subkey : Result Bytes → Object → Opened
  open_subkey (err e) o = failed (cipher_failed e)
  open_subkey (ok subkey) o = open_iv subkey o (header meta_iv o.metadata)

  unfoldable pub decrypt_object : Bytes → Object → Opened
  decrypt_object master o = open_subkey (derive_subkey master subkey_info) o
