-- ===== src/Vault/Store.antt =====
-- The key store of internal/security/masterkey/masterkey.go: `Unlock`, `LoadOrCreateDEK`,
-- `UnlockDEK` and `ChangePassword` over the files .salt, .mk-verify and .dek of the data directory.
-- The Argon2 settings, which come from the configuration, are those of `derive`.
use marchi.Prelude.{ℕ, Bool, Option, none, some, [], length, ltb, if◌then◌else◌}
use marchi.Vault.Cipher.{
  Bytes, Primitives, VaultError, no_entropy, password_too_short, corrupted_store,
  incorrect_password, reading_failed, writing_failed, Result, ok, err, codes, equal, encrypt,
  decrypt,
}

abbrev pub min_password_length : ℕ
min_password_length = 12

abbrev pub verify_magic : Bytes
verify_magic = codes "marchi-master-key-v1"

abbrev pub dek_aad : Bytes
dek_aad = codes "marchi-dek-v1"

-- The three files, `none` where one does not exist.
pub record Disk : Type 0 where
  pub salt : Option Bytes
  pub verify : Option Bytes
  pub dek : Option Bytes

-- What one call meets: whether a file cannot be read though it may exist, whether it cannot be
-- written, what a failed write that is not atomic leaves of the file, and what the random source
-- gives.
pub record World : Type 0 where
  pub reading_salt : Bool
  pub reading_verify : Bool
  pub reading_dek : Bool
  pub writing_salt : Bool
  pub writing_verify : Bool
  pub writing_dek : Bool
  pub left : Option Bytes
  pub new_salt : Option Bytes
  pub new_dek : Option Bytes
  pub verifier_nonce : Option Bytes
  pub dek_nonce : Option Bytes

module _ (lib : Primitives) where
  abbrev pub check : Bytes → Result Bytes → Result Bytes
  check key (err e) = err incorrect_password
  check key (ok plaintext) = if equal plaintext verify_magic then ok key else err incorrect_password

  unfoldable pub unlock_existing : World → Bytes → Bytes → Disk → Result Bytes
  unlock_existing w password salt d =
      if w.reading_verify then err reading_failed else elim d.verify [
        | none ↦ err corrupted_store
        | some verifier ↦
            let key = lib.derive password salt in check key (decrypt lib key verifier [])
      ]

  abbrev pub write_store : World → Bytes → Bytes → Bytes → Disk → Result Bytes × Disk
  write_store w key salt verifier d =
      if w.writing_salt
      then (err writing_failed, record d { salt = w.left })
      else if w.writing_verify
      then (err writing_failed, record d { salt = some salt; verify = w.left })
      else (ok key, record d { salt = some salt; verify = some verifier })

  unfoldable pub bootstrap : World → Bytes → Disk → Result Bytes × Disk
  bootstrap w password d = elim w.new_salt [
    | none ↦ (err no_entropy, d)
    | some salt ↦
        let key = lib.derive password salt in
        elim (encrypt lib key verify_magic [] w.verifier_nonce) [
          | err e ↦ (err e, d)
          | ok verifier ↦ write_store w key salt verifier d
        ]
  ]

  unfoldable pub unlock : World → Bytes → Disk → Result Bytes × Disk
  unlock w password d =
      if ltb (length password) min_password_length
      then (err password_too_short, d)
      else if w.reading_salt
      then (err reading_failed, d)
      else elim d.salt [
        | some salt ↦ (unlock_existing w password salt d, d)
        | none ↦ bootstrap w password d
      ]

  abbrev pub write_dek : World → Bytes → Bytes → Disk → Result Bytes × Disk
  write_dek w dek wrapped d =
      if w.writing_dek
      then (err writing_failed, record d { dek = w.left })
      else (ok dek, record d { dek = some wrapped })

  unfoldable pub create_dek : World → Bytes → Disk → Result Bytes × Disk
  create_dek w key d = elim w.new_dek [
    | none ↦ (err no_entropy, d)
    | some dek ↦ elim (encrypt lib key dek dek_aad w.dek_nonce) [
      | err e ↦ (err e, d)
      | ok wrapped ↦ write_dek w dek wrapped d
    ]
  ]

  unfoldable pub load_or_create_dek : World → Bytes → Disk → Result Bytes × Disk
  load_or_create_dek w key d = if w.reading_dek then (err reading_failed, d) else elim d.dek [
    | some wrapped ↦ (decrypt lib key wrapped dek_aad, d)
    | none ↦ create_dek w key d
  ]

  abbrev pub then_dek : World → Result Bytes × Disk → Result Bytes × Disk
  then_dek w (err e, d) = (err e, d)
  then_dek w (ok key, d) = load_or_create_dek w key d

  unfoldable pub unlock_dek : World → Bytes → Disk → Result Bytes × Disk
  unlock_dek w password d = then_dek w (unlock w password d)

  -- The three files are replaced one after another, each by a rename that happens or not.
  unfoldable pub replace_files : World → Bytes → Bytes → Bytes → Disk → Option VaultError × Disk
  replace_files w wrapped verifier salt d =
      if w.writing_dek
      then (some writing_failed, d)
      else if w.writing_verify
      then (some writing_failed, record d { dek = some wrapped })
      else if w.writing_salt
      then (some writing_failed, record d { dek = some wrapped; verify = some verifier })
      else (none, record { salt = some salt; verify = some verifier; dek = some wrapped })

  -- The same data key under the new password.
  unfoldable pub rewrap : World → Bytes → Bytes → Disk → Option VaultError × Disk
  rewrap w password dek d = elim w.new_salt [
    | none ↦ (some no_entropy, d)
    | some salt ↦
        let key = lib.derive password salt in
        elim (encrypt lib key verify_magic [] w.verifier_nonce) [
          | err e ↦ (some e, d)
          | ok verifier ↦ elim (encrypt lib key dek dek_aad w.dek_nonce) [
            | err e ↦ (some e, d)
            | ok wrapped ↦ replace_files w wrapped verifier salt d
          ]
        ]
  ]

  abbrev pub then_rewrap : World → Bytes → Result Bytes × Disk → Option VaultError × Disk
  then_rewrap w password (err e, d) = (some e, d)
  then_rewrap w password (ok dek, d) = rewrap w password dek d

  -- `w` is what the call meets while it opens the vault, `w'` what it meets afterwards.
  unfoldable pub change_password : World → World → Bytes → Bytes → Disk → Option VaultError × Disk
  change_password w w' old_password new_password d =
      if ltb (length new_password) min_password_length
      then (some password_too_short, d)
      else then_rewrap w' new_password (then_dek w (unlock w old_password d))
