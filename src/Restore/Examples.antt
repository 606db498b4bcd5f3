-- ===== src/Restore/Examples.antt =====
-- A restore of a message in the bucket into an account whose server refuses the APPEND.
use marchi.Prelude.{◌≡◌, refl, false, true, none, some, [], ◌∷◌, arith}
use marchi.Prelude.Int.{pos}
use marchi.Cache
use marchi.Objects.Examples.{lib, master, message, object, bucket_mirrored, request}
use marchi.Restore.Smtp.{Account, Session, derive_smtp_host}
use marchi.Restore.Engine.{Email, Desk, Surroundings, restore_one}
use marchi.Restore.Outcome.{Outcome}
use marchi.Restore.Delivered.{restore_one-Outcome}

abbrev email : Email
email = record {
  id = 5;
  storage_location = "s3";
  local_path = 0;
  s3_key = "k";
  flags = "\\Seen" ∷ "\\Recent" ∷ [];
  date = pos 100;
}

abbrev account : Account
account = record { id = 1; email = "a@example.org"; imap_host = "imap.example.org" }

abbrev session : Session
session = record {
  client = false;
  dial = false;
  mail = false;
  rcpt = false;
  begin = false;
  write = false;
  cut = none;
  close = false;
  close_lost = false;
  quit = false;
}

abbrev surroundings : Surroundings
surroundings = record {
  emails = λ i. some email;
  accounts = λ i. some account;
  files = λ path. none;
  load = some request;
  no_auth = false;
  no_connection = false;
  no_append = true;
  append_lost = true;
  sessions = λ host. session;
  no_log = false;
}

abbrev desk : Desk
desk = record { cache = Cache.new_cache 100; appended = []; submitted = []; logs = [] }

host_derived : derive_smtp_host "imap.example.org" ≡ "smtp.example.org"
unfolding derive_smtp_host
host_derived = refl

host_kept : derive_smtp_host "mail.example.org" ≡ "mail.example.org"
unfolding derive_smtp_host
host_kept = refl

restore_one-Outcome_example :
    Outcome lib
      (λ k. false)
      master
      (λ key. some object)
      (λ key. message)
      surroundings
      email
      1
      account
      "INBOX"
      message
      desk
      (restore_one lib (λ k. false) master (λ key. some object) surroundings 5 1 "INBOX" desk)
restore_one-Outcome_example =
    restore_one-Outcome lib (λ k. false) master (λ key. some object) (λ key. message) surroundings
      email 5 1 account "INBOX" message desk refl refl refl bucket_mirrored
      (record { on_disk = λ q x f. absurd (ground (arith, f)); in_bucket = λ q. refl })
      (λ key blob m f. absurd m)
