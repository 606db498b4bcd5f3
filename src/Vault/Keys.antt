-- ===== src/Vault/Keys.antt =====
-- The data key that `UnlockDEK` of internal/security/masterkey/masterkey.go gives is that of every
-- later call with the password.
use marchi.Prelude.{
  ◌≡◌, refl, inl, inr, some, [], Bool-cases, Option-cases, ap, ◌∙◌, sym, subst, arith, length,
}
use marchi.Vault.Cipher.{Bytes, Primitives, Result, ok, Result-cases, encrypt, decrypt}
use marchi.Vault.Seals.{HasSize, decrypt-encrypt}
use marchi.Vault.Store.{
  Disk, World, verify_magic, dek_aad, unlock_existing, unlock, write_dek, create_dek,
  load_or_create_dek, then_dek, unlock_dek,
}
use marchi.Vault.Opens.{
  IsReadable, IsRandom, Opens, Verified, Unlocks, refused, unlocked, Unwraps, failed, unwrapped,
  unlock-Unlocks,
}

module _ (lib : Primitives) where
  Verified-Opens :
      (d : Disk) (password master wrapped key : Bytes)
      → Verified lib d password master
      → d.dek ≡ some wrapped
      → decrypt lib master wrapped dek_aad ≡ ok key
      → Opens lib d password key
  Verified-Opens d password master wrapped key v h u = record {
    long = v.long;
    salt = v.salt;
    has_salt = v.has_salt;
    verifier = v.verifier;
    has_verifier = v.has_verifier;
    verified =
        subst (λ x. decrypt lib x v.verifier [] ≡ ok verify_magic) (sym v.derived) v.verified;
    wrapped = wrapped;
    has_dek = h;
    unwrapped = subst (λ x. decrypt lib x wrapped dek_aad ≡ ok key) (sym v.derived) u;
  }

  write_dek-Unwraps :
      (w : World) (password master dek wrapped : Bytes) (d : Disk)
      → Verified lib d password master
      → decrypt lib master wrapped dek_aad ≡ ok dek
      → Unwraps lib password (write_dek lib w dek wrapped d)
  write_dek-Unwraps w password master dek wrapped d v u = elim (Bool-cases w.writing_dek) [
    | inl a ↦ rw (a, write_dek) (failed _ _)
    | inr a ↦
        rw (a, write_dek)
          (unwrapped dek (
            Verified-Opens (record d { dek = some wrapped }) password master wrapped dek
              (record {
                long = v.long;
                salt = v.salt;
                derived = v.derived;
                has_salt = v.has_salt;
                verifier = v.verifier;
                has_verifier = v.has_verifier;
                verified = v.verified;
              })
              refl u))
  ]

  create_dek-Unwraps :
      (w : World) (password master : Bytes) (d : Disk)
      → Verified lib d password master
      → HasSize w.dek_nonce
      → Unwraps lib password (create_dek lib w master d)
  unfolding create_dek
  create_dek-Unwraps w password master d v n = elim (Option-cases w.new_dek) [
    | inl k ↦ rw (k, create_dek) (failed _ d)
    | inr (dek, k) ↦ elim (Result-cases (encrypt lib master dek dek_aad w.dek_nonce)) [
      | inr (e, c) ↦ rw (k, c, create_dek) (failed e d)
      | inl (wrapped, c) ↦
          rw (k, c, create_dek)
            (write_dek-Unwraps w password master dek wrapped d v (
              decrypt-encrypt lib master dek dek_aad w.dek_nonce wrapped
                (sym (ap length v.derived) ∙ lib.length-derive password v.salt) n c))
    ]
  ]

  load-Unwraps :
      (w : World) (password master : Bytes) (d : Disk)
      → Verified lib d password master
      → HasSize w.dek_nonce
      → Unwraps lib password (load_or_create_dek lib w master d)
  unfolding load_or_create_dek
  load-Unwraps w password master d v n = elim (Bool-cases w.reading_dek) [
    | inl r ↦ rw (r, load_or_create_dek) (failed _ d)
    | inr r ↦ elim (Option-cases d.dek) [
      | inl h ↦ rw (r, h, load_or_create_dek) (create_dek-Unwraps w password master d v n)
      | inr (wrapped, h) ↦ elim (Result-cases (decrypt lib master wrapped dek_aad)) [
        | inr (e, u) ↦ rw (r, h, u, load_or_create_dek) (failed e d)
        | inl (key, u) ↦
            rw (r, h, u, load_or_create_dek)
              (unwrapped key (Verified-Opens d password master wrapped key v h u))
      ]
    ]
  ]

  then_dek-Unwraps :
      (w : World) (password : Bytes) (r : Result Bytes × Disk)
      → Unlocks lib password r
      → HasSize w.dek_nonce
      → Unwraps lib password (then_dek lib w r)
  then_dek-Unwraps w password _ (refused e d) n = failed e d
  then_dek-Unwraps w password _ (unlocked {d} master v) n = load-Unwraps w password master d v n

  pub unlock_dek-Unwraps :
      (w : World) (password : Bytes) (d : Disk)
      → IsRandom w
      → Unwraps lib password (unlock_dek lib w password d)
  unfolding unlock_dek
  unlock_dek-Unwraps w password d n =
      then_dek-Unwraps w password _ (unlock-Unlocks lib w password d n.verifier) n.dek

  pub Opens-unlock :
      (w : World) (password key : Bytes) (d : Disk)
      → IsReadable w
      → (o : Opens lib d password key)
      → unlock lib w password d ≡ (ok (lib.derive password o.salt), d)
  unfolding unlock unlock_existing
  Opens-unlock w password key d r o =
      simp (o.long, r.salt, o.has_salt, r.verify, o.has_verifier, o.verified)

  pub Opens-unlock_dek :
      (w : World) (password key : Bytes) (d : Disk)
      → IsReadable w
      → Opens lib d password key
      → unlock_dek lib w password d ≡ (ok key, d)
  unfolding unlock_dek load_or_create_dek
  Opens-unlock_dek w password key d r o =
      simp (Opens-unlock w password key d r o, r.dek, o.has_dek, o.unwrapped)

  Opens-of :
      (password key : Bytes) (d : Disk) (r : Result Bytes × Disk)
      → Unwraps lib password r
      → r ≡ (ok key, d)
      → Opens lib d password key
  Opens-of password key d _ (failed e d') h = absurd (ground arith)
  Opens-of password key d _ (unwrapped {d = d'} k o) h =
      let p : k ≡ key = ground arith in
      let q : d' ≡ d = ground arith in
      subst (λ x. Opens lib d password x) p (subst (λ y. Opens lib y password k) q o)

  -- The data key is kept: where `UnlockDEK` succeeds, on the first run or a later one, each later
  -- call with the same password returns the same key and changes no file, as long as the files can
  -- be read.
  pub unlock_dek-again :
      (w later : World) (password key : Bytes) (d d' : Disk)
      → IsRandom w
      → IsReadable later
      → unlock_dek lib w password d ≡ (ok key, d')
      → unlock_dek lib later password d' ≡ (ok key, d')
  unlock_dek-again w later password key d d' n r h =
      Opens-unlock_dek later password key d' r
        (Opens-of password key d' _ (unlock_dek-Unwraps w password d n) h)
