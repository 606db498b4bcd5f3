-- ===== src/Restore/Delivered.antt =====
-- `RestoreOne` of internal/restore/restore.go as a whole.
use marchi.Prelude.{
  ℕ, String, ◌≡◌, refl, ◌⊎◌, inl, inr, Bool, true, false, Option, none, some, List, ◌∷◌, length,
  if◌then◌else◌, subst, sym, ap, ◌∙◌,
}
use marchi.Vault.Cipher.{Bytes, key_size}
use marchi.Objects.Seal.{ObjectLib, Object}
use marchi.Objects.Held.{Holds}
use marchi.Objects.Served.{IsMirrored}
use marchi.Restore.Smtp.{Account, Submission, SmtpError, derive_smtp_host, try_smtp}
use marchi.Restore.Sent.{Sent, unsent, sent_part, sent_lost, sent, send_smtp-Sent}
use marchi.Restore.Engine.{
  Email, Appended, Desk, Surroundings, Restored, load_content, try_append, after_smtp, after_append,
  restore_content, restore_one, restore_into, restore_email, record_log, log_of, imap_append,
  failed_restore,
}
use marchi.Restore.Outcome.{
  IsKept, Fallen, appending, by_append, by_smtp, not_tried, not_taken, taken_in_part, taken_unheard,
  Outcome, load_content-Found, recorded-Outcome,
}

module _ (lib : ObjectLib) (stuck : String → Bool) (master : Bytes)
    (bucket : String → Option Object) (contents : String → Bytes) (w : Surroundings) where
  abbrev Ends : Email → ℕ → Account → String → Bytes → Desk → Restored × Desk → Type 0
  Ends = Outcome lib stuck master bucket contents w

  abbrev Left : Email → Account → String → Bytes → List Appended → List Appended → Type 0
  Left = Fallen lib stuck master bucket contents w

  smtp-Ends :
      (e : Email) (target : ℕ) (account : Account) (folder : String) (plain : Bytes) (d c : Desk)
      (r : Option SmtpError × List Submission)
      → Sent (w.sessions (derive_smtp_host account.imap_host)) account plain d.submitted r
      → Left e account folder plain d.appended c.appended
      → c.logs ≡ d.logs
      → Holds contents c.cache
      → Ends e target account folder plain d
          (after_smtp lib stuck master bucket w e target folder r c)
  smtp-Ends e target account folder plain d c _ (unsent err) a l h =
      recorded-Outcome lib stuck master bucket contents w e target account folder plain d _ _ l
        (λ x p q. not_taken (subst (Left e account folder plain d.appended) (sym p) a) q) h
  smtp-Ends e target account folder plain d c _ (sent_part err part y z) a l h =
      recorded-Outcome lib stuck master bucket contents w e target account folder plain d _ _ l
        (λ x p q.
          taken_in_part part y z (subst (Left e account folder plain d.appended) (sym p) a) q)
        h
  smtp-Ends e target account folder plain d c _ (sent_lost err z) a l h =
      recorded-Outcome lib stuck master bucket contents w e target account folder plain d _ _ l
        (λ x p q. taken_unheard z (subst (Left e account folder plain d.appended) (sym p) a) q) h
  smtp-Ends e target account folder plain d c _ sent a l h =
      recorded-Outcome lib stuck master bucket contents w e target account folder plain d _ _ l
        (λ x p q. by_smtp (subst (Left e account folder plain d.appended) (sym p) a) q) h

  fallback-Ends :
      (e : Email) (target : ℕ) (account : Account) (folder : String) (plain : Bytes) (d c : Desk)
      (new : List Appended)
      → Left e account folder plain d.appended new
      → c.submitted ≡ d.submitted
      → c.logs ≡ d.logs
      → Holds contents c.cache
      → Ends e target account folder plain d
          (after_append lib stuck master bucket w e target account folder plain (true, new) c)
  fallback-Ends e target account folder plain d c new a s l h =
      let session = w.sessions (derive_smtp_host account.imap_host) in
      smtp-Ends e target account folder plain d _ _
        (subst (λ o. Sent session account plain o (try_smtp w.sessions account plain c.submitted)) s
          (send_smtp-Sent session account plain c.submitted))
        a l h

  appended-Ends :
      (e : Email) (target : ℕ) (account : Account) (folder : String) (plain : Bytes) (d c : Desk)
      (no_connection no_append append_lost : Bool)
      → w.no_append ≡ no_append
      → w.append_lost ≡ append_lost
      → c.appended ≡ d.appended
      → c.submitted ≡ d.submitted
      → c.logs ≡ d.logs
      → Holds contents c.cache
      → let stored : List Appended =
          appending lib stuck master bucket contents w e account folder plain ∷ c.appended in
        Ends e target account folder plain d (
          after_append lib stuck master bucket w e target account folder plain
            (if no_connection
              then (true, c.appended)
              else if no_append
              then (true, if append_lost then stored else c.appended)
              else (false, stored))
            c)
  appended-Ends e target account folder plain d c true n o u v a s l h =
      fallback-Ends e target account folder plain d c _ (inl a) s l h
  appended-Ends e target account folder plain d c false true false u v a s l h =
      fallback-Ends e target account folder plain d c _ (inl a) s l h
  appended-Ends e target account folder plain d c false true true u v a s l h =
      fallback-Ends e target account folder plain d c _
        (inr (
          u,
          v,
          ap (λ o. appending lib stuck master bucket contents w e account folder plain ∷ o) a,
        ))
        s l h
  appended-Ends e target account folder plain d c false false o u v a s l h =
      recorded-Outcome lib stuck master bucket contents w e target account folder plain d _ _ l
        (λ x p q.
          by_append
            (p
              ∙ ap (λ o. appending lib stuck master bucket contents w e account folder plain ∷ o) a)
            (q ∙ s))
        h

  content-Ends :
      (e : Email) (target : ℕ) (account : Account) (folder : String) (plain : Bytes) (d c : Desk)
      (x : Option Bytes)
      → (x ≡ none) ⊎ (x ≡ some plain)
      → c.appended ≡ d.appended
      → c.submitted ≡ d.submitted
      → c.logs ≡ d.logs
      → Holds contents c.cache
      → Ends e target account folder plain d
          (restore_content lib stuck master bucket w e target account folder x c)
  unfolding try_append
  content-Ends e target account folder plain d c x (inl q) a s l h =
      subst
        (λ y.
          Ends e target account folder plain d
            (restore_content lib stuck master bucket w e target account folder y c))
        (sym q)
        (recorded-Outcome lib stuck master bucket contents w e target account folder plain d c _ l
          (λ x p r. not_tried (p ∙ a) (r ∙ s)) h)
  content-Ends e target account folder plain d c x (inr q) a s l h =
      subst
        (λ y.
          Ends e target account folder plain d
            (restore_content lib stuck master bucket w e target account folder y c))
        (sym q) (allowed w.no_auth)
    where
      allowed :
          (no_auth : Bool)
          → Ends e target account folder plain d (
              if no_auth
              then record_log lib stuck master bucket w
                  (log_of lib stuck master bucket w e target folder imap_append failed_restore)
                  c
              else after_append lib stuck master bucket w e target account folder plain
                  (try_append lib stuck master bucket w account.id folder e plain c.appended)
                  c)
      allowed true =
          recorded-Outcome lib stuck master bucket contents w e target account folder plain d c _ l
            (λ x p r. not_tried (p ∙ a) (r ∙ s)) h
      allowed false =
          appended-Ends e target account folder plain d c w.no_connection w.no_append w.append_lost
            refl refl a s l h

  into-Ends :
      (e : Email) (target : ℕ) (account : Account) (folder : String) (plain : Bytes) (d : Desk)
      → length master ≡ key_size
      → IsMirrored lib stuck master bucket contents
      → IsKept lib stuck master bucket contents w e plain
      → Holds contents d.cache
      → Ends e target account folder plain d
          (restore_into lib stuck master bucket w e target (some account) folder d)
  into-Ends e target account folder plain d k m kept h =
      let f = load_content-Found lib stuck master bucket contents w e plain d.cache k m kept h in
      content-Ends e target account folder plain d
        (record d { cache = (load_content lib stuck master bucket w e d.cache).1 }) _ f.1 refl refl
        refl f.0

  -- What a restore delivers and what its log says of it, for a message and an account that exist,
  -- where the message's file or its object in the bucket has its bytes. One entry of the log is
  -- written, or its write fails and is the error that is returned. An entry that is completed by
  -- APPEND stands for the message's own bytes added once to the folder, with its date and without
  -- the flag \Recent, and for no submission; one completed by SMTP for these bytes submitted once to
  -- the account's address; one that has failed for no submission, or, where the session failed in
  -- the body, for the part that the server took, or, where the end of DATA was answered by nothing
  -- or the farewell failed, for the whole message. In the cases behind the APPEND the folder is as
  -- it was, or has the message where only the answer to the APPEND was lost.
  pub restore_one-Outcome :
      (e : Email) (email_id target : ℕ) (account : Account) (folder : String) (plain : Bytes)
      (d : Desk)
      → w.emails email_id ≡ some e
      → w.accounts target ≡ some account
      → length master ≡ key_size
      → IsMirrored lib stuck master bucket contents
      → IsKept lib stuck master bucket contents w e plain
      → Holds contents d.cache
      → Outcome lib stuck master bucket contents w e target account folder plain d
          (restore_one lib stuck master bucket w email_id target folder d)
  unfolding restore_one
  restore_one-Outcome e email_id target account folder plain d a b k m kept h =
      subst
        (λ x.
          Ends e target account folder plain d
            (restore_email lib stuck master bucket w x target folder d))
        (sym a)
        (subst
          (λ y.
            Ends e target account folder plain d
              (restore_into lib stuck master bucket w e target y folder d))
          (sym b) (into-Ends e target account folder plain d k m kept h))
