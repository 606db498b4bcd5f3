-- ===== src/Restore/Smtp.antt =====
-- The fallback of internal/restore/smtp.go: `deriveSMTPHost` and `sendSMTP`. The connection is a
-- session whose steps may fail.
use Prim.Native.String.{String, ◌++◌ as str_append}
use marchi.Prelude.{ℕ, Bool, Option, none, some, List, ◌∷◌, if◌then◌else◌, ◌==◌, code}
use marchi.Vault.Cipher.{Bytes}

pub record Account : Type 0 where
  pub id : ℕ
  pub email : String
  pub imap_host : String

abbrev pub strip_prefix : String → String → Option String
strip_prefix String.[] text = some text
strip_prefix (String.◌∷◌ p prefix) String.[] = none
strip_prefix (String.◌∷◌ p prefix) (String.◌∷◌ c text) =
    let rest = strip_prefix prefix text in if code p == code c then rest else none

abbrev pub smtp_or_same : String → Option String → String
smtp_or_same host none = host
smtp_or_same host (some rest) = str_append "smtp." rest

unfoldable pub derive_smtp_host : String → String
derive_smtp_host imap_host = smtp_or_same imap_host (strip_prefix "imap." imap_host)

-- Which step fails. `cut` is what the server takes where the body is not written to its end and the
-- close behind it goes through; with `close_lost` the server has taken the message although the
-- close fails, its answer being lost.
pub record Session : Type 0 where
  pub client : Bool
  pub dial : Bool
  pub mail : Bool
  pub rcpt : Bool
  pub begin : Bool
  pub write : Bool
  pub cut : Option Bytes
  pub close : Bool
  pub close_lost : Bool
  pub quit : Bool

-- A message that the server has taken: from and to the address of the account.
pub record Submission : Type 0 where
  pub address : String
  pub content : Bytes

pub data SmtpError : Type 0 where
  no_client not_dialed refused_sender refused_recipient : SmtpError
  refused_data not_written not_closed not_quit : SmtpError

abbrev pub take_cut : Account → Option Bytes → List Submission → List Submission
take_cut account none sent = sent
take_cut account (some part) sent = record { address = account.email; content = part } ∷ sent

-- The server has the message once DATA is closed.
unfoldable pub send_smtp :
    Session → Account → Bytes → List Submission → Option SmtpError × List Submission
send_smtp s account content sent =
    if s.client
    then (some no_client, sent)
    else if s.dial
    then (some not_dialed, sent)
    else if s.mail
    then (some refused_sender, sent)
    else if s.rcpt
    then (some refused_recipient, sent)
    else if s.begin
    then (some refused_data, sent)
    else if s.write
    then (some not_written, take_cut account s.cut sent)
    else if s.close
    then (
      some not_closed,
      if s.close_lost then record { address = account.email; content = content } ∷ sent else sent,
    )
    else (
      if s.quit then some not_quit else none,
      record { address = account.email; content = content } ∷ sent,
    )

abbrev pub try_smtp :
    (String → Session) → Account → Bytes → List Submission → Option SmtpError × List Submission
try_smtp sessions account = send_smtp (sessions (derive_smtp_host account.imap_host)) account
