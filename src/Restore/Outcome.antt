-- ===== src/Restore/Outcome.antt =====
-- What `RestoreOne` of internal/restore/restore.go delivers, and what it records.
use marchi.Prelude.{
  ℕ, String, ◌≡◌, refl, ◌⊎◌, inl, inr, Bool, true, false, Option, none, some, List, [], ◌∷◌, ◌++◌,
  length, str_eq, if◌then◌else◌, subst, ap,
}
use marchi.Vault.Cipher.{Bytes, key_size}
use marchi.Cache
use marchi.Objects.Seal.{ObjectLib, Object}
use marchi.Objects.Load.{Request}
use marchi.Objects.Held.{Holds}
use marchi.Objects.Served.{IsMirrored, load-Answered}
use marchi.Restore.Smtp.{Account, Submission, derive_smtp_host}
use marchi.Restore.Sent.{IsLost}
use marchi.Restore.Engine.{
  Email, Appended, imap_append, smtp, completed_restore, failed_restore, RestoreLog, Desk,
  Surroundings, Restored, not_recorded, recorded, log_failed, appendable_flags, bytes_of, lazy_load,
  load_content, record_log, log_of,
}

module _ (lib : ObjectLib) (stuck : String → Bool) (master : Bytes)
    (bucket : String → Option Object) (contents : String → Bytes) (w : Surroundings) where
  -- The message's bytes are those of its file, or of its object.
  pub record IsKept (e : Email) (plain : Bytes) : Type 0 where
    pub on_disk :
        str_eq e.storage_location "local" ≡ true
        → (x : Bytes) → w.files e.local_path ≡ some x
        → x ≡ plain
    pub in_bucket : str_eq e.storage_location "local" ≡ false → contents e.s3_key ≡ plain

  abbrev pub submission : Account → Bytes → Submission
  submission account plain = record { address = account.email; content = plain }

  abbrev pub appending : Email → Account → String → Bytes → Appended
  appending e account folder plain = record {
    account_id = account.id;
    folder = folder;
    flags = appendable_flags e.flags;
    date = e.date;
    content = plain;
  }

  -- What a failed attempt at an APPEND leaves: nothing, or the message, and then only the answer of
  -- the server was lost.
  abbrev pub Fallen : Email → Account → String → Bytes → List Appended → List Appended → Type 0
  Fallen e account folder plain old new =
      (new ≡ old)
      ⊎ ((w.no_append ≡ true)
          × (w.append_lost ≡ true)
          × (new ≡ appending e account folder plain ∷ old))

  -- How the log describes what the servers were given. `by_append` and `by_smtp` are completed, the
  -- others have failed.
  pub data Told (e : Email) (target : ℕ) (account : Account) (folder : String) (plain : Bytes)
      (d d' : Desk) : RestoreLog → Type 0 where
    by_append :
        d'.appended ≡ appending e account folder plain ∷ d.appended
        → d'.submitted ≡ d.submitted
        → Told e target account folder plain d d'
            (log_of lib stuck master bucket w e target folder imap_append completed_restore)
    by_smtp :
        Fallen e account folder plain d.appended d'.appended
        → d'.submitted ≡ submission account plain ∷ d.submitted
        → Told e target account folder plain d d'
            (log_of lib stuck master bucket w e target folder smtp completed_restore)
    not_tried :
        d'.appended ≡ d.appended
        → d'.submitted ≡ d.submitted
        → Told e target account folder plain d d'
            (log_of lib stuck master bucket w e target folder imap_append failed_restore)
    not_taken :
        Fallen e account folder plain d.appended d'.appended
        → d'.submitted ≡ d.submitted
        → Told e target account folder plain d d'
            (log_of lib stuck master bucket w e target folder smtp failed_restore)
    taken_in_part :
        (part : Bytes)
        → (w.sessions (derive_smtp_host account.imap_host)).write ≡ true
        → (w.sessions (derive_smtp_host account.imap_host)).cut ≡ some part
        → Fallen e account folder plain d.appended d'.appended
        → d'.submitted ≡ submission account part ∷ d.submitted
        → Told e target account folder plain d d'
            (log_of lib stuck master bucket w e target folder smtp failed_restore)
    taken_unheard :
        IsLost (w.sessions (derive_smtp_host account.imap_host))
        → Fallen e account folder plain d.appended d'.appended
        → d'.submitted ≡ submission account plain ∷ d.submitted
        → Told e target account folder plain d d'
            (log_of lib stuck master bucket w e target folder smtp failed_restore)

  -- The log is written and returned, or its write fails, which is the error that is returned.
  abbrev pub IsRecorded : RestoreLog → Desk → Restored × Desk → Type 0
  IsRecorded log d r =
      ((r.0 ≡ recorded log) × (r.1.logs ≡ d.logs ++ log ∷ []))
      ⊎ ((r.0 ≡ not_recorded log_failed) × (r.1.logs ≡ d.logs))

  pub record Outcome (e : Email) (target : ℕ) (account : Account) (folder : String) (plain : Bytes)
      (d : Desk) (r : Restored × Desk) : Type 0 where
    pub log : RestoreLog
    pub told : Told e target account folder plain d r.1 log
    pub written : IsRecorded log d r
    pub cache : Holds contents r.1.cache

  -- The bytes are not found, or are those of the message.
  abbrev pub Found : Bytes → Option Bytes × Cache.Cache → Type 0
  Found plain r = Holds contents r.1 × ((r.0 ≡ none) ⊎ (r.0 ≡ some plain))

  lazy_load-Found :
      (q : Option Request) (key : String) (c : Cache.Cache)
      → length master ≡ key_size
      → IsMirrored lib stuck master bucket contents
      → Holds contents c
      → Found (contents key) (lazy_load lib stuck master bucket w q key c)
  lazy_load-Found none key c k m h = (h, inl refl)
  lazy_load-Found (some q) key c k m h =
      let r = load-Answered lib stuck master bucket contents q key c k m h in
      (r.0, elim r.1 [ inl e ↦ inr (ap bytes_of e) | inr (err, e, u) ↦ inl (ap bytes_of e) ])

  file-Found :
      (plain : Bytes) (c : Cache.Cache) (x : Option Bytes)
      → ((y : Bytes) → x ≡ some y → y ≡ plain)
      → Holds contents c
      → Found plain (x, c)
  file-Found plain c none k h = (h, inl refl)
  file-Found plain c (some y) k h = (h, inr (ap (λ (z : Bytes). some z) (k y refl)))

  pub load_content-Found :
      (e : Email) (plain : Bytes) (c : Cache.Cache)
      → length master ≡ key_size
      → IsMirrored lib stuck master bucket contents
      → IsKept e plain
      → Holds contents c
      → Found plain (load_content lib stuck master bucket w e c)
  unfolding load_content
  load_content-Found e plain c k m kept h = choose (str_eq e.storage_location "local") refl
    where
      choose :
          (b : Bool)
          → str_eq e.storage_location "local" ≡ b
          → Found plain (
              if b
              then (w.files e.local_path, c)
              else lazy_load lib stuck master bucket w w.load e.s3_key c)
      choose true q = file-Found plain c (w.files e.local_path) (kept.on_disk q) h
      choose false q =
          subst (λ x. Found x (lazy_load lib stuck master bucket w w.load e.s3_key c))
            (kept.in_bucket q) (lazy_load-Found w.load e.s3_key c k m h)

  abbrev logged : Bool → RestoreLog → Desk → Restored × Desk
  logged no_log log c =
      if no_log
      then (not_recorded log_failed, c)
      else (recorded log, record c { logs = c.logs ++ log ∷ [] })

  logged-Outcome :
      (e : Email) (target : ℕ) (account : Account) (folder : String) (plain : Bytes) (d c : Desk)
      (log : RestoreLog) (no_log : Bool)
      → c.logs ≡ d.logs
      → ((x : Desk)
          → x.appended ≡ c.appended
          → x.submitted ≡ c.submitted
          → Told e target account folder plain d x log)
      → Holds contents c.cache
      → Outcome e target account folder plain d (logged no_log log c)
  logged-Outcome e target account folder plain d c log true l told h = record {
    log = log;
    told = told c refl refl;
    written = inr (refl, l);
    cache = h;
  }
  logged-Outcome e target account folder plain d c log false l told h = record {
    log = log;
    told = told _ refl refl;
    written = inl (refl, ap (λ (x : List RestoreLog). x ++ log ∷ []) l);
    cache = h;
  }

  pub recorded-Outcome :
      (e : Email) (target : ℕ) (account : Account) (folder : String) (plain : Bytes) (d c : Desk)
      (log : RestoreLog)
      → c.logs ≡ d.logs
      → ((x : Desk)
          → x.appended ≡ c.appended
          → x.submitted ≡ c.submitted
          → Told e target account folder plain d x log)
      → Holds contents c.cache
      → Outcome e target account folder plain d (record_log lib stuck master bucket w log c)
  unfolding record_log
  recorded-Outcome e target account folder plain d c log =
      logged-Outcome e target account folder plain d c log w.no_log
