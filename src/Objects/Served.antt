-- ===== src/Objects/Served.antt =====
-- What `Load` of internal/s3store/cache.go returns, over objects that `EncryptObject` of
-- internal/s3store/encrypt.go made.
use marchi.Prelude.{
  ℕ, zero, suc, String, ◌≡◌, refl, ◌⊎◌, inl, inr, Bool, true, Option, none, some, [], ◌∷◌, ◌++◌,
  arith, length, take, drop, eq_iff, Bool-cases, subst, sym, ◌∙◌, ap,
}
use marchi.Vault.Cipher.{Bytes, key_size, nonce_size, Result, ok, err, codes, encrypt, decrypt}
use marchi.Vault.Seals.{HasSize, decrypt-encrypt}
use marchi.Cache
use marchi.Objects.Seal.{
  ObjectLib, Object, ObjectError, get_failed, read_failed, Opened, content, failed, object_of,
  subkey_info, derive_subkey, open_subkey, open_with, verified, seal_with, sealed, encrypt_object,
  decrypt_object,
}
use marchi.Objects.Load.{Request, keep_loaded, download, after_get, load}
use marchi.Objects.Held.{In, Holds, put-Holds, Got, hit, miss, get-Got}

take++drop : (n : ℕ) (xs : Bytes) → take n xs ++ drop n xs ≡ xs
take++drop zero xs = refl
take++drop (suc n) [] = refl
take++drop (suc n) (x ∷ xs) = ap (λ l. x ∷ l) (take++drop n xs)

module _ (lib : ObjectLib) where
  subkey_of :
      (master : Bytes)
      → length master ≡ key_size
      → derive_subkey lib master subkey_info ≡ ok (lib.hkdf master (codes subkey_info))
  subkey_of master k = ground arith

  open-object_of :
      (subkey plaintext blob : Bytes)
      → decrypt lib.prims subkey blob [] ≡ ok plaintext
      → open_subkey lib (ok subkey) (object_of lib plaintext blob) ≡ content plaintext
  open-object_of subkey plaintext blob h =
      let o = object_of lib plaintext blob in
      let iv = lib.decode-encode (take nonce_size blob) in
      let whole = ap (λ b. decrypt lib.prims subkey b []) (take++drop nonce_size blob) ∙ h in
      let same = (eq_iff (lib.sha256_hex plaintext) (lib.sha256_hex plaintext)).1 refl in
      let last : verified lib o.metadata (ok plaintext) ≡ content plaintext = rw same refl in
      ap (open_with lib subkey o) iv ∙ ap (verified lib o.metadata) whole ∙ last

  sealed-ok :
      (plaintext : Bytes) (o : Object) (r : Result Bytes)
      → sealed lib plaintext r ≡ ok o
      → (blob : Bytes) × (r ≡ ok blob) × (object_of lib plaintext blob ≡ o)
  sealed-ok plaintext o (err e) h = absurd (ground arith)
  sealed-ok plaintext o (ok blob) h = (blob, refl, ground arith)

  -- An object is decrypted to what was encrypted.
  pub decrypt_object-encrypt_object :
      (master plaintext : Bytes) (iv : Option Bytes) (o : Object)
      → length master ≡ key_size
      → HasSize iv
      → encrypt_object lib master plaintext iv ≡ ok o
      → decrypt_object lib master o ≡ content plaintext
  unfolding encrypt_object decrypt_object
  decrypt_object-encrypt_object master plaintext iv o k n h =
      let key = lib.hkdf master (codes subkey_info) in
      let derived = subkey_of master k in
      let (blob, e, q) =
        sealed-ok plaintext o (encrypt lib.prims key plaintext [] iv)
          (ap (λ r. seal_with lib r plaintext iv) (sym derived) ∙ h) in
      ap (λ r. open_subkey lib r o) derived
      ∙ subst (λ x. open_subkey lib (ok key) x ≡ content plaintext) q
          (open-object_of key plaintext blob (
            decrypt-encrypt lib.prims key plaintext [] iv blob
              (lib.length-hkdf master (codes subkey_info)) n e))

module _ (lib : ObjectLib) (stuck : String → Bool) (master : Bytes)
    (bucket : String → Option Object) (contents : String → Bytes) where
  -- The object was made by `EncryptObject` out of the contents of its key, with some nonce.
  pub record IsSealed (key : String) (o : Object) : Type 0 where
    pub nonce : Option Bytes
    pub size : HasSize nonce
    pub made : encrypt_object lib master (contents key) nonce ≡ ok o

  -- Each object of the bucket is one of these.
  abbrev pub IsMirrored : Type 0
  IsMirrored = (key : String) (o : Object) → bucket key ≡ some o → IsSealed key o

  -- The bucket does not deliver the object.
  pub data Undelivered (q : Request) (key : String) : Type 0 where
    missing : bucket key ≡ none → Undelivered q key
    refused : q.get_fails ≡ true → Undelivered q key
    broken : q.read_fails ≡ true → Undelivered q key

  abbrev pub Answered : Request → String → Opened × Cache.Cache → Type 0
  Answered q key r =
      Holds contents r.1
      × ((r.0 ≡ content (contents key))
          ⊎ ((e : ObjectError) × (r.0 ≡ failed e) × Undelivered q key))

  kept-Answered :
      (q : Request) (key : String) (c : Cache.Cache) (x : Opened)
      → x ≡ content (contents key)
      → Holds contents c
      → (In key c.order → ⊥)
      → Answered q key (keep_loaded lib stuck master bucket q key x c)
  kept-Answered q key c x e h out =
      subst (λ y. Answered q key (keep_loaded lib stuck master bucket q key y c)) (sym e)
        (put-Holds contents stuck q.write_fails key _ c h out refl, inl refl)

  download-Answered :
      (q : Request) (key : String) (c : Cache.Cache) (answer : Option Object)
      → length master ≡ key_size
      → IsMirrored
      → bucket key ≡ answer
      → Holds contents c
      → (In key c.order → ⊥)
      → Answered q key (download lib stuck master bucket q key answer c)
  download-Answered q key c none k m a h out = (h, inr (get_failed, refl, missing a))
  download-Answered q key c (some o) k m a h out = elim (Bool-cases q.get_fails) [
    | inl f ↦ simp (f) (h, inr (get_failed, refl, refused f))
    | inr f ↦ elim (Bool-cases q.read_fails) [
      | inl r ↦ simp (f, r) (h, inr (read_failed, refl, broken r))
      | inr r ↦
          let made = m key o a in
          simp (f, r)
            (kept-Answered q key c _
              (decrypt_object-encrypt_object lib master (contents key) made.nonce o k made.size
                made.made)
              h out)
    ]
  ]

  Got-Answered :
      (q : Request) (key : String) (r : Option Cache.Blob × Cache.Cache)
      → length master ≡ key_size
      → IsMirrored
      → Got contents key r
      → Answered q key (after_get lib stuck master bucket q key r)
  Got-Answered q key _ k m (hit blob c b h) = (h, inl (ap content b))
  Got-Answered q key _ k m (miss c out h) = download-Answered q key c _ k m refl h out

  -- A load returns the message that was uploaded. Over a bucket whose objects were encrypted from
  -- the contents of their keys, and a cache whose files have those contents, a `Load` returns the
  -- contents of the key, or an error where the bucket does not deliver the object and only there;
  -- and the cache is again such a cache, also where the file cannot be read, written or removed.
  pub load-Answered :
      (q : Request) (key : String) (c : Cache.Cache)
      → length master ≡ key_size
      → IsMirrored
      → Holds contents c
      → Holds contents (load lib stuck master bucket q key c).1
        × (((load lib stuck master bucket q key c).0 ≡ content (contents key))
            ⊎ ((e : ObjectError) × ((load lib stuck master bucket q key c).0 ≡ failed e)
                × Undelivered q key))
  unfolding load
  load-Answered q key c k m h = Got-Answered q key _ k m (get-Got contents key q.readable c h)
