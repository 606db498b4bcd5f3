-- ===== src/Vault/Seals.antt =====
-- `Encrypt` and `Decrypt` of internal/security/crypto/crypto.go undo one another, under one key.
use marchi.Prelude.{
  ◌≡◌, ◌≢◌, false, not, Option, none, some, ◌++◌, arith, length, ltb, ◌==◌, length-append, drop,
  subst, ap, ◌∙◌,
}
use marchi.Vault.Cipher.{
  Bytes, key_size, nonce_size, Primitives, decrypt_failed, ok, err, take-append, drop-append,
  encrypt, decrypt, opened,
}

-- What the random source gives has the length that was asked for.
abbrev pub HasSize : Option Bytes → Type 0
HasSize none = Unit
HasSize (some nonce) = length nonce ≡ nonce_size

module _ (lib : Primitives) where
  decrypt_blob :
      (key nonce sealed aad : Bytes)
      → length key ≡ key_size
      → length nonce ≡ nonce_size
      → decrypt lib key (nonce ++ sealed) aad ≡ opened lib (lib.unseal key nonce sealed aad)
  unfolding decrypt
  decrypt_blob key nonce sealed aad k n =
      let a : not (length key == key_size) ≡ false = ground arith in
      let b : ltb (length (nonce ++ sealed)) nonce_size ≡ false =
        ground (arith, length-append nonce sealed) in
      rw (a, decrypt)
        (rw (b, decrypt)
          (ap (λ (x : Bytes). opened lib (lib.unseal key x (drop nonce_size (nonce ++ sealed)) aad))
              (take-append nonce sealed nonce_size n)
            ∙ ap (λ (x : Bytes). opened lib (lib.unseal key nonce x aad))
                (drop-append nonce sealed nonce_size n)))

  encrypt-none : (key plaintext aad c : Bytes) → encrypt lib key plaintext aad none ≢ ok c
  unfolding encrypt
  encrypt-none key plaintext aad c = ground arith

  encrypt-some :
      (key plaintext aad nonce c : Bytes)
      → length key ≡ key_size
      → encrypt lib key plaintext aad (some nonce) ≡ ok c
      → nonce ++ lib.seal key nonce plaintext aad ≡ c
  unfolding encrypt
  encrypt-some key plaintext aad nonce c k h = ground arith

  pub decrypt-encrypt :
      (key plaintext aad : Bytes) (nonce : Option Bytes) (c : Bytes)
      → length key ≡ key_size
      → HasSize nonce
      → encrypt lib key plaintext aad nonce ≡ ok c
      → decrypt lib key c aad ≡ ok plaintext
  decrypt-encrypt key plaintext aad none c k n h = absurd (encrypt-none key plaintext aad c h)
  decrypt-encrypt key plaintext aad (some nonce) c k n h =
      subst (λ x. decrypt lib key x aad ≡ ok plaintext) (encrypt-some key plaintext aad nonce c k h)
        (decrypt_blob key nonce _ aad k n
          ∙ ap (opened lib) (lib.unseal-seal key nonce plaintext aad k n))

  pub decrypt_other :
      (key other plaintext aad : Bytes) (nonce : Option Bytes) (c : Bytes)
      → length key ≡ key_size
      → length other ≡ key_size
      → key ≢ other
      → HasSize nonce
      → encrypt lib key plaintext aad nonce ≡ ok c
      → decrypt lib other c aad ≡ err decrypt_failed
  decrypt_other key other plaintext aad none c k l d n h =
      absurd (encrypt-none key plaintext aad c h)
  decrypt_other key other plaintext aad (some nonce) c k l d n h =
      subst (λ x. decrypt lib other x aad ≡ err decrypt_failed)
        (encrypt-some key plaintext aad nonce c k h)
        (decrypt_blob other nonce _ aad l n
          ∙ ap (opened lib) (lib.unseal_other key other nonce plaintext aad k l d n))
