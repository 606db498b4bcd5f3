-- ===== src/Restore/Sent.antt =====
-- What a server has been given by `sendSMTP` of internal/restore/smtp.go.
use marchi.Prelude.{
  ◌≡◌, refl, Bool, true, false, Option, none, some, List, ◌∷◌, if◌then◌else◌, ◌⊎◌, inl, inr,
}
use marchi.Vault.Cipher.{Bytes}
use marchi.Restore.Smtp.{
  Account, Session, Submission, SmtpError, no_client, not_dialed, refused_sender, refused_recipient,
  refused_data, not_written, not_closed, not_quit, send_smtp, take_cut,
}

-- The session fails although the server has taken the message.
abbrev pub IsLost : Session → Type 0
IsLost s = ((s.close ≡ true) × (s.close_lost ≡ true)) ⊎ (s.quit ≡ true)

-- How a session ends: the server has taken nothing, or a part of the message, or the message, whose
-- session can fail behind that.
pub data Sent (s : Session) (account : Account) (plain : Bytes) (old : List Submission)
    : Option SmtpError × List Submission → Type 0 where
  unsent : (e : SmtpError) → Sent s account plain old (some e, old)
  sent_part :
      (e : SmtpError) (part : Bytes)
      → s.write ≡ true
      → s.cut ≡ some part
      → Sent s account plain old (some e, record { address = account.email; content = part } ∷ old)
  sent_lost :
      (e : SmtpError)
      → IsLost s
      → Sent s account plain old (some e, record { address = account.email; content = plain } ∷ old)
  sent : Sent s account plain old (none, record { address = account.email; content = plain } ∷ old)

module _ (s : Session) (account : Account) (plain : Bytes) (old : List Submission) where
  cut-Sent :
      (part : Option Bytes)
      → s.write ≡ true
      → s.cut ≡ part
      → Sent s account plain old (some not_written, take_cut account part old)
  cut-Sent none w e = unsent _
  cut-Sent (some part) w e = sent_part _ part w e

  closed-Sent :
      (lost : Bool)
      → s.close ≡ true
      → s.close_lost ≡ lost
      → Sent s account plain old (
        some not_closed,
        if lost then record { address = account.email; content = plain } ∷ old else old,
      )
  closed-Sent true c e = sent_lost _ (inl (c, e))
  closed-Sent false c e = unsent _

  quit-Sent :
      (quit : Bool)
      → s.quit ≡ quit
      → Sent s account plain old (
        if quit then some not_quit else none,
        record { address = account.email; content = plain } ∷ old,
      )
  quit-Sent true e = sent_lost _ (inr e)
  quit-Sent false e = sent

  pub send_smtp-Sent : Sent s account plain old (send_smtp s account plain old)
  unfolding send_smtp
  send_smtp-Sent =
      steps s.client s.dial s.mail s.rcpt s.begin s.write s.close (λ w. cut-Sent s.cut w refl)
        (λ c. closed-Sent s.close_lost c refl) refl refl
    where
      steps :
          (a b c d e f g : Bool)
          → (s.write ≡ true
              → Sent s account plain old (some not_written, take_cut account s.cut old))
          → (s.close ≡ true
              → Sent s account plain old (
                some not_closed,
                if s.close_lost
                    then record { address = account.email; content = plain } ∷ old
                    else old,
              ))
          → s.write ≡ f
          → s.close ≡ g
          → Sent s account plain old (
              if a
              then (some no_client, old)
              else if b
              then (some not_dialed, old)
              else if c
              then (some refused_sender, old)
              else if d
              then (some refused_recipient, old)
              else if e
              then (some refused_data, old)
              else if f
              then (some not_written, take_cut account s.cut old)
              else if g
              then (
                some not_closed,
                if s.close_lost
                    then record { address = account.email; content = plain } ∷ old
                    else old,
              )
              else (
                if s.quit then some not_quit else none,
                record { address = account.email; content = plain } ∷ old,
              ))
      steps true b c d e f g cut closed w k = unsent _
      steps false true c d e f g cut closed w k = unsent _
      steps false false true d e f g cut closed w k = unsent _
      steps false false false true e f g cut closed w k = unsent _
      steps false false false false true f g cut closed w k = unsent _
      steps false false false false false true g cut closed w k = cut w
      steps false false false false false false true cut closed w k = closed k
      steps false false false false false false false cut closed w k = quit-Sent s.quit refl
