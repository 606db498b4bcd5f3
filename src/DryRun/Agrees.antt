-- ===== src/DryRun/Agrees.antt =====
-- The candidate of a stored message is that of the received one: `BuildCandidateFromStored` of
-- internal/rules/dryrun.go and `candidateFrom` of internal/sync/fetch.go.
use marchi.Prelude.{
  String, ◌≡◌, refl, true, false, Option, List, [], ◌∷◌, arith, map, length, ltb, ap, ◌∙◌, sym, inl,
  inr, Bool-cases, All,
}
use marchi.Rules.Parse.{GoLib}
use marchi.Sync.Message.{Parsed, Attachment, candidate_from}
use marchi.Sync.Archive.{Archive, Row}
use marchi.DryRun.Stored.{
  Address, MailLib, Header, or_else, first_of, bare, metadata_of, address_strings, bare_address,
  build_candidate_from_stored,
}
use marchi.DryRun.Handler.{DryRunWorld, types_of, attachment_types}

module _ (mail : MailLib) where
  abbrev pub AllValid : Option (List Address) → Type 0
  AllValid addresses = All (λ a. mail.is_valid a ≡ true) (or_else [] addresses)

  -- The row is that of a message with this header, as `ArchiveOne` writes it, and the attachments
  -- of its id are the message's.
  pub record IsStored (a : Archive) (r : Row) (p : Parsed) : Type 0 where
    pub header : Header
    pub from_valid : AllValid header.from
    pub to_valid : AllValid header.to
    pub cc_valid : AllValid header.cc
    pub md : p.md ≡ metadata_of mail header
    pub subject : r.subject ≡ p.md.subject
    pub from_addr : r.from_addr ≡ p.md.from
    pub to_addrs : r.to_addrs ≡ p.md.to
    pub cc_addrs : r.cc_addrs ≡ p.md.cc
    pub date : r.date ≡ p.md.date
    pub size : r.size ≡ p.size
    pub attached : r.attached ≡ ltb 0 (length p.attachments)
    pub types : types_of a r.id ≡ map (λ x. x.mime_type) p.attachments

  bare-print : (x : Address) → mail.is_valid x ≡ true → bare_address mail (mail.print x) ≡ x.address
  unfolding bare_address
  bare-print x v = let (b, e, q) = mail.parse-print x v in rw (mail.print_not_blank x v, e) q

  bare_first :
      (xs : List Address)
      → All (λ x. mail.is_valid x ≡ true) xs
      → bare_address mail (first_of mail.print xs) ≡ first_of (bare mail) xs
  unfolding bare_address
  bare_first [] v = refl
  bare_first (x ∷ xs) v = bare-print x v.0

  bare_addresses :
      (xs : List Address)
      → All (λ x. mail.is_valid x ≡ true) xs
      → map (bare_address mail) (address_strings mail xs) ≡ map (bare mail) xs
  bare_addresses [] v = refl
  bare_addresses (x ∷ xs) v = cc (bare-print x v.0, bare_addresses xs v.1)

  attachment_types-stored :
      (lib : GoLib) (w : DryRunWorld) (a : Archive) (r : Row) (p : Parsed)
      → w.attachments_fail r.id ≡ false
      → IsStored a r p
      → attachment_types mail lib w a r ≡ map (λ x. x.mime_type) p.attachments
  attachment_types-stored lib w a r p f h = elim (Bool-cases r.attached) [
    | inl t ↦ simp (t, f) h.types
    | inr t ↦ simp (t) (nothing p.attachments (sym h.attached ∙ t))
  ]
    where
      nothing : (xs : List Attachment) → ltb 0 (length xs) ≡ false → [] ≡ map (λ x. x.mime_type) xs
      nothing [] q = refl
      nothing (x ∷ xs) q = absurd (ground arith)

  -- The candidate that the dry run builds from the stored row is the one that the sync had.
  pub build_candidate-candidate_from :
      (lib : GoLib) (w : DryRunWorld) (a : Archive) (r : Row) (p : Parsed) (name : String)
      → w.attachments_fail r.id ≡ false
      → IsStored a r p
      → build_candidate_from_stored mail r name (attachment_types mail lib w a r)
        ≡ candidate_from p name r.account_id
  build_candidate-candidate_from lib w a r p name f h =
      let from : bare_address mail r.from_addr ≡ p.md.from_addr =
        ap (bare_address mail) (h.from_addr ∙ ap (λ m. m.from) h.md)
        ∙ bare_first _ h.from_valid
        ∙ sym (ap (λ m. m.from_addr) h.md) in
      let to : map (bare_address mail) r.to_addrs ≡ p.md.to_addrs =
        ap (map (bare_address mail)) (h.to_addrs ∙ ap (λ m. m.to) h.md)
        ∙ bare_addresses _ h.to_valid
        ∙ sym (ap (λ m. m.to_addrs) h.md) in
      let cc_list : map (bare_address mail) r.cc_addrs ≡ p.md.cc_addrs =
        ap (map (bare_address mail)) (h.cc_addrs ∙ ap (λ m. m.cc) h.md)
        ∙ bare_addresses _ h.cc_valid
        ∙ sym (ap (λ m. m.cc_addrs) h.md) in
      let types = attachment_types-stored lib w a r p f h in
      cc (
        from, to, cc_list, types, h.subject, h.from_addr, h.to_addrs, h.cc_addrs, h.date, h.size,
        h.attached,
      )
