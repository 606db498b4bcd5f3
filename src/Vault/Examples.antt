-- ===== src/Vault/Examples.antt =====
-- A vault over toy primitives that meet the documented laws, with the theorems applied to it.
use marchi.Prelude.{
  ℕ, zero, suc, ◌≡◌, ◌≢◌, refl, true, false, Option, none, some, [], ◌∷◌, ◌++◌, arith, length, take,
  drop, if◌then◌else◌, Bool-cases, inl, inr,
}
use marchi.Vault.Cipher.{
  Bytes, key_size, nonce_size, Primitives, VaultError, incorrect_password, writing_failed, ok, err,
  codes, equal, equal_refl, equal→eq, take-append, drop-append, encrypt, decrypt,
}
use marchi.Vault.Store.{
  Disk, World, verify_magic, unlock_existing, bootstrap, unlock, create_dek, load_or_create_dek,
  unlock_dek, replace_files, rewrap, change_password,
}
use marchi.Vault.Opens.{IsReadable, IsRandom, Opens}
use marchi.Vault.Keys.{unlock_dek-again}
use marchi.Vault.Rotation.{change_password-unlock_dek, change_password-refuses}
use marchi.Vault.Torn.{change_password-locks}

abbrev pub pad : ℕ → Bytes → Bytes
pad zero xs = []
pad (suc n) [] = 0 ∷ pad n []
pad (suc n) (x ∷ xs) = x ∷ pad n xs

pub length-pad : (n : ℕ) (xs : Bytes) → length (pad n xs) ≡ n
length-pad zero xs = refl
length-pad (suc n) [] = omega (arith, length-pad n [])
length-pad (suc n) (x ∷ xs) = omega (arith, length-pad n xs)

abbrev pub toy_unseal : Bytes → Bytes → Bytes → Bytes → Option Bytes
toy_unseal key nonce c aad = if equal (take 32 c) key then some (drop 32 c) else none

pub toy_unseal-seal :
    (key nonce plaintext aad : Bytes)
    → length key ≡ key_size
    → length nonce ≡ nonce_size
    → toy_unseal key nonce (key ++ plaintext) aad ≡ some plaintext
toy_unseal-seal key nonce plaintext aad k n =
    rw (take-append key plaintext 32 k, drop-append key plaintext 32 k, equal_refl key) refl

pub toy_unseal_other :
    (key other nonce plaintext aad : Bytes)
    → length key ≡ key_size
    → length other ≡ key_size
    → key ≢ other
    → length nonce ≡ nonce_size
    → toy_unseal other nonce (key ++ plaintext) aad ≡ none
toy_unseal_other key other nonce plaintext aad k l d n = elim (Bool-cases (equal key other)) [
  | inl e ↦ absurd (d (equal→eq key other e))
  | inr e ↦ rw (take-append key plaintext 32 k, e) refl
]

abbrev pub toy : Primitives
toy = record {
  derive = λ password salt. pad 32 (password ++ salt);
  seal = λ key nonce plaintext aad. key ++ plaintext;
  unseal = toy_unseal;
  length-derive = λ password salt. length-pad 32 (password ++ salt);
  unseal-seal = toy_unseal-seal;
  unseal_other = toy_unseal_other;
}

abbrev world : ℕ → World
world n = record {
  reading_salt = false;
  reading_verify = false;
  reading_dek = false;
  writing_salt = false;
  writing_verify = false;
  writing_dek = false;
  left = none;
  new_salt = some (pad 16 (n ∷ []));
  new_dek = some (pad 32 (7 ∷ []));
  verifier_nonce = some (pad 12 []);
  dek_nonce = some (pad 12 (1 ∷ []));
}

abbrev no_files : Disk
no_files = record { salt = none; verify = none; dek = none }

abbrev old_password : Bytes
old_password = codes "correct horse"

abbrev new_password : Bytes
new_password = codes "battery staple"

-- The files with a salt that begins with `n`.
abbrev vault : Bytes → ℕ → Disk
vault password n = record {
  salt = some (pad 16 (n ∷ []));
  verify = some (pad 12 [] ++ pad 32 (password ++ pad 16 (n ∷ [])) ++ verify_magic);
  dek = some (pad 12 (1 ∷ []) ++ pad 32 (password ++ pad 16 (n ∷ [])) ++ pad 32 (7 ∷ []));
}

abbrev data_key : Bytes
data_key = pad 32 (7 ∷ [])

first_run : unlock_dek toy (world 3) old_password no_files ≡ (ok data_key, vault old_password 3)
unfolding unlock_dek unlock bootstrap encrypt load_or_create_dek create_dek
first_run = refl

rotation :
    change_password toy (world 3) (world 4) old_password new_password (vault old_password 3)
    ≡ (none, vault new_password 4)
unfolding change_password unlock unlock_existing load_or_create_dek rewrap replace_files encrypt
    decrypt
rotation = refl

world-IsReadable : (n : ℕ) → IsReadable (world n)
world-IsReadable n = record { salt = refl; verify = refl; dek = refl }

world-IsRandom : (n : ℕ) → IsRandom (world n)
world-IsRandom n = record { verifier = refl; dek = refl }

unlock_dek-again_example :
    unlock_dek toy (world 9) old_password (vault old_password 3)
    ≡ (ok data_key, vault old_password 3)
unlock_dek-again_example =
    unlock_dek-again toy (world 3) (world 9) old_password data_key no_files (vault old_password 3)
      (world-IsRandom 3) (world-IsReadable 9) first_run

change_password-unlock_dek_example :
    (key : Bytes) × ((unlock_dek toy (world 3) old_password (vault old_password 3)).0 ≡ ok key)
    × (unlock_dek toy (world 9) new_password (vault new_password 4)
        ≡ (ok key, vault new_password 4))
change_password-unlock_dek_example =
    change_password-unlock_dek toy (world 3) (world 4) (world 9) old_password new_password
      (vault old_password 3) (vault new_password 4) (world-IsRandom 3) (world-IsRandom 4)
      (world-IsReadable 9) rotation

passwords_differ :
    pad 32 (new_password ++ pad 16 (4 ∷ [])) ≢ pad 32 (old_password ++ pad 16 (4 ∷ []))
passwords_differ h = absurd (ground arith)

change_password-refuses_example :
    unlock_dek toy (world 9) old_password (vault new_password 4)
    ≡ (err incorrect_password, vault new_password 4)
change_password-refuses_example =
    change_password-refuses toy (world 3) (world 4) (world 9) old_password new_password old_password
      (pad 16 (4 ∷ [])) (vault old_password 3) (vault new_password 4) (world-IsRandom 3)
      (world-IsRandom 4) (world-IsReadable 9) rotation refl passwords_differ refl

abbrev full_disk : World
full_disk = record (world 4) { writing_verify = true }

vault-Opens : Opens toy (vault old_password 3) old_password data_key
unfolding decrypt
vault-Opens = record {
  long = refl;
  salt = pad 16 (3 ∷ []);
  has_salt = refl;
  verifier = _;
  has_verifier = refl;
  verified = refl;
  wrapped = _;
  has_dek = refl;
  unwrapped = refl;
}

salts_differ : pad 32 (new_password ++ pad 16 (4 ∷ [])) ≢ pad 32 (old_password ++ pad 16 (3 ∷ []))
salts_differ h = absurd (ground arith)

change_password-locks_example :
    let r =
      change_password toy (world 3) full_disk old_password new_password (vault old_password 3) in
    (r.0 ≡ some writing_failed)
    × ((e : VaultError) × ((unlock_dek toy (world 9) old_password r.1).0 ≡ err e))
change_password-locks_example =
    change_password-locks toy (world 3) full_disk (world 9) old_password new_password old_password
      data_key (pad 16 (3 ∷ [])) (pad 16 (4 ∷ [])) (pad 12 []) (pad 12 (1 ∷ []))
      (vault old_password 3) (world-IsReadable 3) (world-IsReadable 9) vault-Opens refl refl refl
      refl refl refl refl refl salts_differ
