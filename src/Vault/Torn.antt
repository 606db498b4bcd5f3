-- ===== src/Vault/Torn.antt =====
-- `ChangePassword` of internal/security/masterkey/masterkey.go where a write fails between the
-- three files.
use marchi.Prelude.{
  ◌≡◌, ◌≢◌, refl, inl, inr, true, false, some, [], Bool-cases, ap, ◌∙◌, ◌++◌, sym, arith, length,
  ltb,
}
use marchi.Vault.Cipher.{
  Bytes, key_size, nonce_size, Primitives, VaultError, password_too_short, writing_failed,
  decrypt_failed, Result, ok, err, Result-cases, encrypt, decrypt,
}
use marchi.Vault.Seals.{decrypt_other}
use marchi.Vault.Store.{
  Disk, World, min_password_length, verify_magic, dek_aad, unlock, unlock_existing,
  load_or_create_dek, unlock_dek, replace_files, rewrap, then_rewrap, change_password,
}
use marchi.Vault.Opens.{IsReadable, Opens, existing-Verified}
use marchi.Vault.Keys.{Opens-unlock_dek}

module _ (lib : Primitives) where
  -- With a random source that works, a text is sealed.
  sealed :
      (key plaintext aad nonce : Bytes)
      → length key ≡ key_size
      → encrypt lib key plaintext aad (some nonce) ≡ ok (nonce ++ lib.seal key nonce plaintext aad)
  unfolding encrypt
  sealed key plaintext aad nonce k = ground arith

  -- A data key that is wrapped under another master key is not given out.
  not_unwrapped :
      (later : World) (password salt wrapped : Bytes) (d : Disk)
      → IsReadable later
      → d.salt ≡ some salt
      → d.dek ≡ some wrapped
      → decrypt lib (lib.derive password salt) wrapped dek_aad ≡ err decrypt_failed
      → (e : VaultError) × ((unlock_dek lib later password d).0 ≡ err e)
  unfolding unlock_dek unlock load_or_create_dek
  not_unwrapped later password salt wrapped d r s x e =
      elim (Bool-cases (ltb (length password) min_password_length)) [
        | inl l ↦ (password_too_short, simp l)
        | inr l ↦ elim (Result-cases (unlock_existing lib later password salt d)) [
          | inr (f, q) ↦ (f, simp (l, r.salt, s, q))
          | inl (master, q) ↦
              let v = existing-Verified lib later password salt master d l s q in
              let o : salt ≡ v.salt = ground (arith, v.has_salt) in
              let m : master ≡ lib.derive password salt =
                sym (ap (λ (t : Bytes). lib.derive password t) o ∙ v.derived) in
              (decrypt_failed, simp (l, r.salt, s, q, r.dek, x, m, e))
        ]
      ]

  -- Where the verifier cannot be written, the new wrapper stands beside the old salt and verifier.
  torn :
      (w' : World) (password key salt n m : Bytes) (d : Disk)
      → w'.new_salt ≡ some salt
      → w'.verifier_nonce ≡ some n
      → w'.dek_nonce ≡ some m
      → w'.writing_dek ≡ false
      → w'.writing_verify ≡ true
      → rewrap lib w' password key d ≡ (
        some writing_failed,
        record d { dek = some (m ++ lib.seal (lib.derive password salt) m key dek_aad) },
      )
  unfolding rewrap replace_files
  torn w' password key salt n m d s vn dn a b =
      let k = lib.length-derive password salt in
      let v = sealed (lib.derive password salt) verify_magic [] n k in
      let x = sealed (lib.derive password salt) key dek_aad m k in
      rw (s, vn, v, dn, x, a, b, rewrap, replace_files) refl

  torn_change :
      (w w' : World) (old_password new_password key : Bytes) (d : Disk)
      → IsReadable w
      → Opens lib d old_password key
      → ltb (length new_password) min_password_length ≡ false
      → change_password lib w w' old_password new_password d ≡ rewrap lib w' new_password key d
  unfolding change_password unlock_dek
  torn_change w w' old_password new_password key d r o l = rw l (
      ap (λ (x : Result Bytes × Disk). then_rewrap lib w' new_password x)
        (Opens-unlock_dek lib w old_password key d r o))

  -- A change of the password that has replaced the wrapper and cannot write the verifier locks the
  -- vault: it returns an error, and from then on `UnlockDEK` fails with every password, the old and
  -- the new one too, from which Argon2 derives, under the salt that is still on the disk, another
  -- key than from the new password under the new salt.
  pub change_password-locks :
      (w w' later : World) (old_password new_password password key salt new_salt n m : Bytes)
      (d : Disk)
      → IsReadable w
      → IsReadable later
      → Opens lib d old_password key
      → d.salt ≡ some salt
      → ltb (length new_password) min_password_length ≡ false
      → w'.new_salt ≡ some new_salt
      → w'.verifier_nonce ≡ some n
      → w'.dek_nonce ≡ some m
      → length m ≡ nonce_size
      → w'.writing_dek ≡ false
      → w'.writing_verify ≡ true
      → lib.derive new_password new_salt ≢ lib.derive password salt
      → let r = change_password lib w w' old_password new_password d in
        (r.0 ≡ some writing_failed)
        × ((e : VaultError) × ((unlock_dek lib later password r.1).0 ≡ err e))
  change_password-locks w w' later old_password new_password password key salt new_salt n m d r r' o
        s l ns vn dn len a b ne =
      let e =
        torn_change w w' old_password new_password key d r o l
        ∙ torn w' new_password key new_salt n m d ns vn dn a b in
      let k = lib.length-derive new_password new_salt in
      rw e (
        refl,
        not_unwrapped later password salt _ _ r' s refl (
            decrypt_other lib (lib.derive new_password new_salt) (lib.derive password salt) key
              dek_aad (some m) _ k (lib.length-derive password salt) ne len
              (sealed (lib.derive new_password new_salt) key dek_aad m k)),
      )
