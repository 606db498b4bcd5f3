-- ===== src/Restore/Engine.antt =====
-- `RestoreOne` of internal/restore/restore.go. The text of an error takes no part.
use marchi.Prelude.{
  ℕ, String, Bool, true, false, not, Option, none, some, List, [], ◌∷◌, ◌++◌, keep, if◌then◌else◌,
  str_eq,
}
use marchi.Prelude.Int.{ℤ}
use marchi.Vault.Cipher.{Bytes}
use marchi.Cache
use marchi.Objects.Seal.{ObjectLib, Object, Opened, content, failed}
use marchi.Objects.Load.{Request, load}
use marchi.Restore.Smtp.{Account, Session, Submission, SmtpError, try_smtp}

pub record Email : Type 0 where
  pub id : ℕ
  pub storage_location : String
  pub local_path : ℕ
  pub s3_key : String
  pub flags : List String
  pub date : ℤ

-- A message that APPEND has added to a folder of an account.
pub record Appended : Type 0 where
  pub account_id : ℕ
  pub folder : String
  pub flags : List String
  pub date : ℤ
  pub content : Bytes

pub data Method : Type 0 where
  imap_append smtp : Method

pub data Status : Type 0 where
  completed_restore failed_restore : Status

pub record RestoreLog : Type 0 where
  pub email_id : ℕ
  pub target_account_id : ℕ
  pub target_folder : String
  pub method : Method
  pub status : Status

-- `logs` is the table restore_logs; the other two are what the servers have been given.
pub record Desk : Type 0 where
  pub cache : Cache.Cache
  pub appended : List Appended
  pub submitted : List Submission
  pub logs : List RestoreLog

-- What one call meets. `load` is what the `LazyLoader` meets, where there is one. With `append_lost`
-- the server has stored the message although the APPEND fails, its answer being lost.
pub record Surroundings : Type 0 where
  pub emails : ℕ → Option Email
  pub accounts : ℕ → Option Account
  pub files : ℕ → Option Bytes
  pub load : Option Request
  pub no_auth : Bool
  pub no_connection : Bool
  pub no_append : Bool
  pub append_lost : Bool
  pub sessions : String → Session
  pub no_log : Bool

pub data RestoreError : Type 0 where
  no_email no_account log_failed : RestoreError

pub data Restored : Type 0 where
  not_recorded : RestoreError → Restored
  recorded : RestoreLog → Restored

abbrev pub appendable_flags : List String → List String
appendable_flags = keep (λ f. not (str_eq f "\\Recent"))

abbrev pub bytes_of : Opened → Option Bytes
bytes_of (content plain) = some plain
bytes_of (failed e) = none

module _ (lib : ObjectLib) (stuck : String → Bool) (master : Bytes)
    (bucket : String → Option Object) (w : Surroundings) where
  abbrev pub lazy_load : Option Request → String → Cache.Cache → Option Bytes × Cache.Cache
  lazy_load none key c = (none, c)
  lazy_load (some q) key c = let r = load lib stuck master bucket q key c in (bytes_of r.0, r.1)

  unfoldable pub load_content : Email → Cache.Cache → Option Bytes × Cache.Cache
  load_content e c =
      if str_eq e.storage_location "local"
      then (w.files e.local_path, c)
      else lazy_load w.load e.s3_key c

  -- Whether it fails, and what the server has then.
  unfoldable pub try_append : ℕ → String → Email → Bytes → List Appended → Bool × List Appended
  try_append account_id folder e plain appended =
      let stored : List Appended =
        record {
          account_id = account_id;
          folder = folder;
          flags = appendable_flags e.flags;
          date = e.date;
          content = plain;
        }
        ∷ appended in
      if w.no_connection
      then (true, appended)
      else if w.no_append
      then (true, if w.append_lost then stored else appended)
      else (false, stored)

  unfoldable pub record_log : RestoreLog → Desk → Restored × Desk
  record_log log d =
      if w.no_log
      then (not_recorded log_failed, d)
      else (recorded log, record d { logs = d.logs ++ log ∷ [] })

  abbrev pub log_of : Email → ℕ → String → Method → Status → RestoreLog
  log_of e target folder method status = record {
    email_id = e.id;
    target_account_id = target;
    target_folder = folder;
    method = method;
    status = status;
  }

  abbrev pub after_smtp :
      Email → ℕ → String → Option SmtpError × List Submission → Desk → Restored × Desk
  after_smtp e target folder (none, sent) d =
      record_log (log_of e target folder smtp completed_restore) (record d { submitted = sent })
  after_smtp e target folder (some err, sent) d =
      record_log (log_of e target folder smtp failed_restore) (record d { submitted = sent })

  abbrev pub after_append :
      Email → ℕ → Account → String → Bytes → Bool × List Appended → Desk → Restored × Desk
  after_append e target account folder plain (false, appended) d =
      record_log (log_of e target folder imap_append completed_restore)
        (record d { appended = appended })
  after_append e target account folder plain (true, appended) d =
      after_smtp e target folder (try_smtp w.sessions account plain d.submitted)
        (record d { appended = appended })

  abbrev pub restore_content : Email → ℕ → Account → String → Option Bytes → Desk → Restored × Desk
  restore_content e target account folder none d =
      record_log (log_of e target folder imap_append failed_restore) d
  restore_content e target account folder (some plain) d =
      if w.no_auth
      then record_log (log_of e target folder imap_append failed_restore) d
      else after_append e target account folder plain
          (try_append account.id folder e plain d.appended) d

  abbrev pub restore_into : Email → ℕ → Option Account → String → Desk → Restored × Desk
  restore_into e target none folder d = (not_recorded no_account, d)
  restore_into e target (some account) folder d =
      let r = load_content e d.cache in
      restore_content e target account folder r.0 (record d { cache = r.1 })

  abbrev pub restore_email : Option Email → ℕ → String → Desk → Restored × Desk
  restore_email none target folder d = (not_recorded no_email, d)
  restore_email (some e) target folder d = restore_into e target (w.accounts target) folder d

  unfoldable pub restore_one : ℕ → ℕ → String → Desk → Restored × Desk
  restore_one email_id target folder d = restore_email (w.emails email_id) target folder d
