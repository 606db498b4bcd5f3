-- ===== src/Vault/Opens.antt =====
-- What `UnlockDEK` of internal/security/masterkey/masterkey.go leaves on the disk, and that it is
-- all that a later call needs.
use marchi.Prelude.{
  ◌≡◌, refl, ◌≢◌, ◌⊎◌, inl, inr, true, false, none, some, [], arith, length, ltb, Bool-cases,
  Option-cases, ap, ◌∙◌, sym, subst,
}
use marchi.Vault.Cipher.{
  Bytes, Primitives, VaultError, Result, ok, err, Result-cases, equal, equal→eq, encrypt, decrypt,
}
use marchi.Vault.Seals.{HasSize, decrypt-encrypt}
use marchi.Vault.Store.{
  Disk, World, min_password_length, verify_magic, dek_aad, check, unlock_existing, write_store,
  bootstrap, unlock,
}

-- Every file that exists can be read.
pub record IsReadable (w : World) : Type 0 where
  pub salt : w.reading_salt ≡ false
  pub verify : w.reading_verify ≡ false
  pub dek : w.reading_dek ≡ false

pub record IsRandom (w : World) : Type 0 where
  pub verifier : HasSize w.verifier_nonce
  pub dek : HasSize w.dek_nonce

module _ (lib : Primitives) where
  -- The password leads to the data key `key`.
  pub record Opens (d : Disk) (password key : Bytes) : Type 0 where
    pub long : ltb (length password) min_password_length ≡ false
    pub salt : Bytes
    pub has_salt : d.salt ≡ some salt
    pub verifier : Bytes
    pub has_verifier : d.verify ≡ some verifier
    pub verified : decrypt lib (lib.derive password salt) verifier [] ≡ ok verify_magic
    pub wrapped : Bytes
    pub has_dek : d.dek ≡ some wrapped
    pub unwrapped : decrypt lib (lib.derive password salt) wrapped dek_aad ≡ ok key

  -- The first half: the password is the right one, and gives the master key.
  pub record Verified (d : Disk) (password master : Bytes) : Type 0 where
    pub long : ltb (length password) min_password_length ≡ false
    pub salt : Bytes
    pub derived : lib.derive password salt ≡ master
    pub has_salt : d.salt ≡ some salt
    pub verifier : Bytes
    pub has_verifier : d.verify ≡ some verifier
    pub verified : decrypt lib master verifier [] ≡ ok verify_magic

  -- What a call that opens the vault has done: it has failed, or the files hold what opens it.
  pub data Unlocks (password : Bytes) : Result Bytes × Disk → Type 0 where
    refused : (e : VaultError) (d : Disk) → Unlocks password (err e, d)
    unlocked :
        {d : Disk} (master : Bytes) → Verified d password master → Unlocks password (ok master, d)

  pub data Unwraps (password : Bytes) : Result Bytes × Disk → Type 0 where
    failed : (e : VaultError) (d : Disk) → Unwraps password (err e, d)
    unwrapped : {d : Disk} (key : Bytes) → Opens d password key → Unwraps password (ok key, d)

  check-eq-ok :
      (key master : Bytes) (r : Result Bytes)
      → check lib key r ≡ ok master
      → (key ≡ master) × (r ≡ ok verify_magic)
  check-eq-ok key master (err e) h = absurd (ground arith)
  check-eq-ok key master (ok p) h = elim (Bool-cases (equal p verify_magic)) [
    | inl e ↦ (ground arith, ap ok (equal→eq p verify_magic e))
    | inr e ↦ absurd (ground arith)
  ]

  -- The verifier is read, and the password is checked against it.
  unlock_existing_read :
      (w : World) (password salt verifier : Bytes) (d : Disk)
      → w.reading_verify ≡ false
      → d.verify ≡ some verifier
      → unlock_existing lib w password salt d
        ≡ check lib (lib.derive password salt) (decrypt lib (lib.derive password salt) verifier [])
  unfolding unlock_existing
  unlock_existing_read w password salt verifier d r v = rw (r, v, unlock_existing) refl

  unlock_existing_unread :
      (w : World) (password salt master : Bytes) (d : Disk)
      → (w.reading_verify ≡ true) ⊎ (d.verify ≡ none)
      → unlock_existing lib w password salt d ≢ ok master
  unfolding unlock_existing
  unlock_existing_unread w password salt master d (inl e) = rw (e, unlock_existing) (ground arith)
  unlock_existing_unread w password salt master d (inr e) = ground arith

  pub existing-Verified :
      (w : World) (password salt master : Bytes) (d : Disk)
      → ltb (length password) min_password_length ≡ false
      → d.salt ≡ some salt
      → unlock_existing lib w password salt d ≡ ok master
      → Verified d password master
  existing-Verified w password salt master d long s h = elim (Bool-cases w.reading_verify) [
    | inl r ↦ absurd (unlock_existing_unread w password salt master d (inl r) h)
    | inr r ↦ elim (Option-cases d.verify) [
      | inl v ↦ absurd (unlock_existing_unread w password salt master d (inr v) h)
      | inr (verifier, v) ↦
          let k =
            check-eq-ok (lib.derive password salt) master _
              (sym (unlock_existing_read w password salt verifier d r v) ∙ h) in
          record {
            long = long;
            salt = salt;
            derived = k.0;
            has_salt = s;
            verifier = verifier;
            has_verifier = v;
            verified = subst (λ x. decrypt lib x verifier [] ≡ ok verify_magic) k.0 k.1;
          }
    ]
  ]

  unlock_existing-Unlocks :
      (w : World) (password salt : Bytes) (d : Disk)
      → ltb (length password) min_password_length ≡ false
      → d.salt ≡ some salt
      → Unlocks password (unlock_existing lib w password salt d, d)
  unlock_existing-Unlocks w password salt d long s =
      elim (Result-cases (unlock_existing lib w password salt d)) [
        | inr (e, q) ↦ rw q (refused e d)
        | inl (master, q) ↦
            rw q (unlocked master (existing-Verified w password salt master d long s q))
      ]

  write_store-Unlocks :
      (w : World) (password salt verifier : Bytes) (d : Disk)
      → ltb (length password) min_password_length ≡ false
      → decrypt lib (lib.derive password salt) verifier [] ≡ ok verify_magic
      → Unlocks password (write_store lib w (lib.derive password salt) salt verifier d)
  write_store-Unlocks w password salt verifier d long v = elim (Bool-cases w.writing_salt) [
    | inl a ↦ rw (a, write_store) (refused _ _)
    | inr a ↦ elim (Bool-cases w.writing_verify) [
      | inl b ↦ rw (a, b, write_store) (refused _ _)
      | inr b ↦
          rw (a, b, write_store)
            (unlocked _ (record {
              long = long;
              salt = salt;
              derived = refl;
              has_salt = refl;
              verifier = verifier;
              has_verifier = refl;
              verified = v;
            }))
    ]
  ]

  bootstrap-Unlocks :
      (w : World) (password : Bytes) (d : Disk)
      → ltb (length password) min_password_length ≡ false
      → HasSize w.verifier_nonce
      → Unlocks password (bootstrap lib w password d)
  unfolding bootstrap
  bootstrap-Unlocks w password d long n = elim (Option-cases w.new_salt) [
    | inl s ↦ rw (s, bootstrap) (refused _ d)
    | inr (salt, s) ↦
        elim (Result-cases
          (encrypt lib (lib.derive password salt) verify_magic [] w.verifier_nonce)) [
            | inr (e, c) ↦ rw (s, c, bootstrap) (refused e d)
            | inl (verifier, c) ↦
                rw (s, c, bootstrap)
                  (write_store-Unlocks w password salt verifier d long (
                    decrypt-encrypt lib (lib.derive password salt) verify_magic [] w.verifier_nonce
                      verifier (lib.length-derive password salt) n c))
          ]
  ]

  pub unlock-Unlocks :
      (w : World) (password : Bytes) (d : Disk)
      → HasSize w.verifier_nonce
      → Unlocks password (unlock lib w password d)
  unfolding unlock
  unlock-Unlocks w password d n = elim (Bool-cases (ltb (length password) min_password_length)) [
    | inl l ↦ rw (l, unlock) (refused _ d)
    | inr l ↦ elim (Bool-cases w.reading_salt) [
      | inl r ↦ rw (l, r, unlock) (refused _ d)
      | inr r ↦ elim (Option-cases d.salt) [
        | inl s ↦ rw (l, r, s, unlock) (bootstrap-Unlocks w password d l n)
        | inr (salt, s) ↦ rw (l, r, s, unlock) (unlock_existing-Unlocks w password salt d l s)
      ]
    ]
  ]
