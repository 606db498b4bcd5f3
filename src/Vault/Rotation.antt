-- ===== src/Vault/Rotation.antt =====
-- `ChangePassword` of internal/security/masterkey/masterkey.go: the data key goes over to the new
-- password, the old password is refused, and a write that fails between the files locks the vault.
use marchi.Prelude.{
  ◌≡◌, ◌≢◌, refl, inl, inr, false, Option, none, some, [], Bool-cases, Option-cases, ◌∙◌, sym,
  subst, arith, length, ltb,
}
use marchi.Vault.Cipher.{
  Bytes, Primitives, VaultError, incorrect_password, no_entropy, Result, ok, err, Result-cases,
  encrypt,
}
use marchi.Vault.Seals.{decrypt-encrypt, decrypt_other}
use marchi.Vault.Store.{
  Disk, World, min_password_length, verify_magic, dek_aad, unlock, unlock_existing, unlock_dek,
  replace_files, rewrap, then_rewrap, change_password,
}
use marchi.Vault.Opens.{IsReadable, IsRandom, Opens, Unwraps, failed, unwrapped}
use marchi.Vault.Keys.{unlock_dek-Unwraps, Opens-unlock_dek}

module _ (lib : Primitives) where
  -- Everything stands under the new password, with a salt, a verifier and a wrapper of this call.
  record Replaced (w : World) (password key : Bytes) (d : Disk) : Type 0 where
    salt : Bytes
    drawn : w.new_salt ≡ some salt
    has_salt : d.salt ≡ some salt
    verifier : Bytes
    has_verifier : d.verify ≡ some verifier
    sealed : encrypt lib (lib.derive password salt) verify_magic [] w.verifier_nonce ≡ ok verifier
    wrapped : Bytes
    has_dek : d.dek ≡ some wrapped
    sealed_dek : encrypt lib (lib.derive password salt) key dek_aad w.dek_nonce ≡ ok wrapped

  data Rewraps (w : World) (password key : Bytes) : Option VaultError × Disk → Type 0 where
    stopped : (e : VaultError) (d : Disk) → Rewraps w password key (some e, d)
    replaced : {d : Disk} → Replaced w password key d → Rewraps w password key (none, d)

  replace_files-Rewraps :
      (w : World) (password key salt verifier wrapped : Bytes) (d : Disk)
      → w.new_salt ≡ some salt
      → encrypt lib (lib.derive password salt) verify_magic [] w.verifier_nonce ≡ ok verifier
      → encrypt lib (lib.derive password salt) key dek_aad w.dek_nonce ≡ ok wrapped
      → Rewraps w password key (replace_files lib w wrapped verifier salt d)
  unfolding replace_files
  replace_files-Rewraps w password key salt verifier wrapped d s v x =
      elim (Bool-cases w.writing_dek) [
        | inl a ↦ rw (a, replace_files) (stopped _ _)
        | inr a ↦ elim (Bool-cases w.writing_verify) [
          | inl b ↦ rw (a, b, replace_files) (stopped _ _)
          | inr b ↦ elim (Bool-cases w.writing_salt) [
            | inl c ↦ rw (a, b, c, replace_files) (stopped _ _)
            | inr c ↦
                rw (a, b, c, replace_files)
                  (replaced (record {
                    salt = salt;
                    drawn = s;
                    has_salt = refl;
                    verifier = verifier;
                    has_verifier = refl;
                    sealed = v;
                    wrapped = wrapped;
                    has_dek = refl;
                    sealed_dek = x;
                  }))
          ]
        ]
      ]

  rewrap_sealed :
      (w : World) (password key salt verifier wrapped : Bytes) (d : Disk)
      → w.new_salt ≡ some salt
      → encrypt lib (lib.derive password salt) verify_magic [] w.verifier_nonce ≡ ok verifier
      → encrypt lib (lib.derive password salt) key dek_aad w.dek_nonce ≡ ok wrapped
      → rewrap lib w password key d ≡ replace_files lib w wrapped verifier salt d
  unfolding rewrap replace_files
  rewrap_sealed w password key salt verifier wrapped d s v x = rw (s, v, x, rewrap) refl

  rewrap_failed :
      (w : World) (password key : Bytes) (d : Disk) (e : VaultError)
      → rewrap lib w password key d ≡ (some e, d)
      → Rewraps w password key (rewrap lib w password key d)
  rewrap_failed w password key d e h = subst (Rewraps w password key) (sym h) (stopped e d)

  rewrap-Rewraps :
      (w : World) (password key : Bytes) (d : Disk)
      → Rewraps w password key (rewrap lib w password key d)
  unfolding rewrap
  rewrap-Rewraps w password key d = elim (Option-cases w.new_salt) [
    | inl s ↦ rewrap_failed w password key d no_entropy (rw (s, rewrap) refl)
    | inr (salt, s) ↦
        elim (Result-cases
          (encrypt lib (lib.derive password salt) verify_magic [] w.verifier_nonce)) [
            | inr (e, v) ↦ rewrap_failed w password key d e (rw (s, v, rewrap) refl)
            | inl (verifier, v) ↦
                elim (Result-cases
                  (encrypt lib (lib.derive password salt) key dek_aad w.dek_nonce)) [
                    | inr (e, x) ↦ rewrap_failed w password key d e (rw (s, v, x, rewrap) refl)
                    | inl (wrapped, x) ↦
                        subst (Rewraps w password key)
                          (sym (rewrap_sealed w password key salt verifier wrapped d s v x))
                          (replace_files-Rewraps w password key salt verifier wrapped d s v x)
                  ]
          ]
  ]

  Replaced-of :
      (w : World) (password key : Bytes) (d : Disk) (r : Option VaultError × Disk)
      → Rewraps w password key r
      → r ≡ (none, d)
      → Replaced w password key d
  Replaced-of w password key d _ (stopped e d') h = absurd (ground arith)
  Replaced-of w password key d _ (replaced {d = d'} p) h =
      let q : d' ≡ d = ground arith in subst (Replaced w password key) q p

  -- A change that succeeds has found the data key with the old password, and has replaced all.
  record Changed (w w' : World) (old_password new_password : Bytes) (d d' : Disk) : Type 0 where
    key : Bytes
    found : (unlock_dek lib w old_password d).0 ≡ ok key
    long : ltb (length new_password) min_password_length ≡ false
    done : Replaced w' new_password key d'

  rewrapped :
      (w' : World) (old_password new_password : Bytes) (d' : Disk) (r : Result Bytes × Disk)
      → Unwraps lib old_password r
      → then_rewrap lib w' new_password r ≡ (none, d')
      → (key : Bytes) × (r.0 ≡ ok key) × Replaced w' new_password key d'
  rewrapped w' old_password new_password d' _ (failed e d) h = absurd (ground arith)
  rewrapped w' old_password new_password d' _ (unwrapped {d} key o) h =
      (key, refl, Replaced-of w' new_password key d' _ (rewrap-Rewraps w' new_password key d) h)

  changed :
      (w w' : World) (old_password new_password : Bytes) (d d' : Disk)
      → IsRandom w
      → change_password lib w w' old_password new_password d ≡ (none, d')
      → Changed w w' old_password new_password d d'
  unfolding change_password unlock_dek
  changed w w' old_password new_password d d' n h =
      elim (Bool-cases (ltb (length new_password) min_password_length)) [
        | inl l ↦ absurd (ground arith)
        | inr l ↦
            let r =
              rewrapped w' old_password new_password d' _
                (unlock_dek-Unwraps lib w old_password d n) (sym (rw l refl) ∙ h) in
            record { key = r.0; found = r.1; long = l; done = r.2 }
      ]

  Replaced-Opens :
      (w : World) (password key : Bytes) (d : Disk)
      → IsRandom w
      → ltb (length password) min_password_length ≡ false
      → Replaced w password key d
      → Opens lib d password key
  Replaced-Opens w password key d n l r = record {
    long = l;
    salt = r.salt;
    has_salt = r.has_salt;
    verifier = r.verifier;
    has_verifier = r.has_verifier;
    verified =
        decrypt-encrypt lib _ verify_magic [] w.verifier_nonce r.verifier
          (lib.length-derive password r.salt) n.verifier r.sealed;
    wrapped = r.wrapped;
    has_dek = r.has_dek;
    unwrapped =
        decrypt-encrypt lib _ key dek_aad w.dek_nonce r.wrapped (lib.length-derive password r.salt)
          n.dek r.sealed_dek;
  }

  -- A change of the password keeps the data key: where `ChangePassword` succeeds, the old password
  -- gave a data key before, and each later `UnlockDEK` with the new password returns the same key
  -- and changes no file, as long as the files can be read.
  pub change_password-unlock_dek :
      (w w' later : World) (old_password new_password : Bytes) (d d' : Disk)
      → IsRandom w
      → IsRandom w'
      → IsReadable later
      → change_password lib w w' old_password new_password d ≡ (none, d')
      → (key : Bytes) × ((unlock_dek lib w old_password d).0 ≡ ok key)
        × (unlock_dek lib later new_password d' ≡ (ok key, d'))
  change_password-unlock_dek w w' later old_password new_password d d' n n' r h =
      let c = changed w w' old_password new_password d d' n h in
      (
        c.key,
        c.found,
        Opens-unlock_dek lib later new_password c.key d' r
            (Replaced-Opens w' new_password c.key d' n' c.long c.done),
      )

  Replaced-refuses :
      (w later : World) (password other key salt : Bytes) (d : Disk)
      → IsRandom w
      → IsReadable later
      → w.new_salt ≡ some salt
      → lib.derive password salt ≢ lib.derive other salt
      → ltb (length other) min_password_length ≡ false
      → Replaced w password key d
      → unlock_dek lib later other d ≡ (err incorrect_password, d)
  unfolding unlock_dek unlock unlock_existing
  Replaced-refuses w later password other key salt d n r s ne l p =
      let q : salt ≡ p.salt = ground (arith, p.drawn) in
      let e =
        decrypt_other lib (lib.derive password p.salt) (lib.derive other p.salt) verify_magic []
          w.verifier_nonce p.verifier (lib.length-derive password p.salt)
          (lib.length-derive other p.salt)
          (subst (λ x. lib.derive password x ≢ lib.derive other x) q ne) n.verifier p.sealed in
      simp (l, r.salt, p.has_salt, r.verify, p.has_verifier, e)

  -- After a change of the password, every other password of at least twelve bytes is refused as
  -- incorrect, the old one too, where Argon2 derives another key from it under the new salt, as long
  -- as the files can be read.
  pub change_password-refuses :
      (w w' later : World) (old_password new_password other salt : Bytes) (d d' : Disk)
      → IsRandom w
      → IsRandom w'
      → IsReadable later
      → change_password lib w w' old_password new_password d ≡ (none, d')
      → w'.new_salt ≡ some salt
      → lib.derive new_password salt ≢ lib.derive other salt
      → ltb (length other) min_password_length ≡ false
      → unlock_dek lib later other d' ≡ (err incorrect_password, d')
  change_password-refuses w w' later old_password new_password other salt d d' n n' r h s ne l =
      let c = changed w w' old_password new_password d d' n h in
      Replaced-refuses w' later new_password other c.key salt d' n' r s ne l c.done
