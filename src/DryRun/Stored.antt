-- ===== src/DryRun/Stored.antt =====
-- `Parse` of internal/mimeparse/mimeparse.go over a header that is read, and
-- `BuildCandidateFromStored` of internal/rules/dryrun.go. The parsing of a header and of an address
-- are those of go-message.
use marchi.Prelude.{
  String, ◌≡◌, Bool, true, false, Option, none, some, List, [], ◌∷◌, map, if◌then◌else◌, str_eq,
}
use marchi.Prelude.Int.{ℤ, pos, negsuc}
use marchi.Rules.Node.{Candidate}
use marchi.Sync.Message.{Metadata}
use marchi.Sync.Archive.{Row}

pub record Address : Type 0 where
  pub name : String
  pub address : String

-- What is documented of an address that a header was found to have: its print, which is not blank,
-- is parsed to its address again.
pub record MailLib : Type 0 where
  pub is_valid : Address → Bool
  pub print : Address → String
  pub parse_address : String → Option Address
  pub print_not_blank : (a : Address) → is_valid a ≡ true → str_eq (print a) "" ≡ false
  pub parse-print :
      (a : Address)
      → is_valid a ≡ true
      → (b : Address) × (parse_address (print a) ≡ some b) × (b.address ≡ a.address)

-- The fields of a header; `none` where a field cannot be read.
pub record Header : Type 0 where
  pub message_id : Option String
  pub subject : Option String
  pub date : Option ℤ
  pub from : Option (List Address)
  pub to : Option (List Address)
  pub cc : Option (List Address)

-- The Unix time of the zero time.Time.
abbrev pub zero_time : ℤ
zero_time = negsuc 62135596799

abbrev pub or_else {ℓ} : {A : Type ℓ} → A → Option A → A
or_else x none = x
or_else x (some y) = y

abbrev pub first_of : (Address → String) → List Address → String
first_of f [] = ""
first_of f (a ∷ addresses) = f a

module _ (mail : MailLib) where
  abbrev pub bare : Address → String
  bare a = a.address

  abbrev pub address_strings : List Address → List String
  address_strings = map mail.print

  abbrev pub metadata_of : Header → Metadata
  metadata_of h = record {
    message_id = or_else "" h.message_id;
    subject = or_else "" h.subject;
    from = first_of mail.print (or_else [] h.from);
    from_addr = first_of bare (or_else [] h.from);
    to = address_strings (or_else [] h.to);
    to_addrs = map bare (or_else [] h.to);
    cc = address_strings (or_else [] h.cc);
    cc_addrs = map bare (or_else [] h.cc);
    date = or_else zero_time h.date;
  }

  -- An answer without a header gives the zero Metadata.
  abbrev pub no_header : Header
  no_header = record {
    message_id = none;
    subject = none;
    date = none;
    from = none;
    to = none;
    cc = none;
  }

  abbrev pub parse : Option Header → Metadata
  parse h = metadata_of (or_else no_header h)

  abbrev pub address_or : String → Option Address → String
  address_or full none = full
  address_or full (some a) = a.address

  unfoldable pub bare_address : String → String
  bare_address full = if str_eq full "" then "" else address_or full (mail.parse_address full)

  abbrev pub build_candidate_from_stored : Row → String → List String → Candidate
  build_candidate_from_stored r folder_name types = record {
    from = r.from_addr;
    from_addr = bare_address r.from_addr;
    to = r.to_addrs;
    to_addrs = map bare_address r.to_addrs;
    cc = r.cc_addrs;
    cc_addrs = map bare_address r.cc_addrs;
    subject = r.subject;
    attached = r.attached;
    attachment_types = types;
    size = pos r.size;
    date = r.date;
    folder_name = folder_name;
    account_id = pos r.account_id;
  }
