-- ===== src/DryRun/Examples.antt =====
-- A dry run over an archive with one message.
use marchi.Prelude.{
  ◌≡◌, refl, true, false, Option, none, some, [], ◌∷◌, arith, ap, inl, inr, Bool-cases, str_eq,
  eq_iff, length, keep, map, take,
}
use Prim.Native.String.{String}
use marchi.Prelude.Int.{pos}
use marchi.Rules.Validate.{validate, validate_depth, validate_leaf_value}
use marchi.Rules.Evaluate.{any}
use marchi.Sync.Message.{Parsed}
use marchi.Sync.Archive.{Archive, archive_one, persist}
use marchi.Gmail.Examples.{go_lib, no_faults, all_mail, clean_up, new_mailbox}
use marchi.DryRun.Stored.{Address, MailLib, Header, metadata_of}
use marchi.DryRun.Handler.{
  DryRunRequest, dry_run_response, DryRunWorld, max_dry_run_samples, list_for_dry_run, sample_of,
  handle_dry_run_rules,
}
use marchi.DryRun.Scanned.{would_match, handle_dry_run_rules-would_match}

abbrev behind_first : String → Option Address
behind_first String.[] = none
behind_first (String.◌∷◌ c text) = some (record { name = ""; address = text })

print_not_blank : (text : String) → str_eq (String.◌∷◌ "<" text) "" ≡ false
print_not_blank text = elim (Bool-cases (str_eq (String.◌∷◌ "<" text) "")) [
  | inl e ↦ absurd (ground (arith, ap behind_first ((eq_iff (String.◌∷◌ "<" text) "").0 e)))
  | inr e ↦ e
]

abbrev mail : MailLib
mail = record {
  is_valid = λ a. true;
  print = λ a. String.◌∷◌ "<" a.address;
  parse_address = behind_first;
  print_not_blank = λ a v. print_not_blank a.address;
  parse-print = λ a v. (record { name = ""; address = a.address }, refl, refl);
}

abbrev header : Header
header = record {
  message_id = some "<1@b.c>";
  subject = some "report";
  date = some (pos 50);
  from = some (record { name = "A"; address = "a@b.c" } ∷ []);
  to = some (record { name = ""; address = "d@e.f" } ∷ []);
  cc = none;
}

abbrev received : Parsed
received = record {
  raw = "report";
  size = 40;
  md = metadata_of mail header;
  attachments = record { filename = "x"; mime_type = "text/csv"; size = 3; content_id = "" } ∷ [];
}

abbrev archived : Archive
archived =
    (archive_one no_faults all_mail (record { uid = 1; flags = []; body = some received }) received
      new_mailbox.store).1

abbrev request : DryRunRequest
request = record { conditions = clean_up.conditions; account_id = none; limit = pos 0 }

abbrev world : DryRunWorld
world = record {
  folders = λ f. some "All Mail";
  scanning_fails = false;
  attachments_fail = λ id. false;
}

handle_dry_run_rules-would_match_example :
    handle_dry_run_rules mail go_lib world archived request
    ≡ dry_run_response
        (length archived.rows)
        (length (
          keep
            (would_match mail go_lib world archived clean_up.conditions (λ r. received))
            archived.rows))
        (take max_dry_run_samples (
          map sample_of (
            keep
              (would_match mail go_lib world archived clean_up.conditions (λ r. received))
              archived.rows)))
unfolding archive_one persist validate validate_depth validate_leaf_value list_for_dry_run any
handle_dry_run_rules-would_match_example =
    handle_dry_run_rules-would_match mail go_lib world archived request (λ r. received) refl refl
      (λ id. refl)
      (
        record {
          header = header;
          from_valid = (refl, tt);
          to_valid = (refl, tt);
          cc_valid = tt;
          md = refl;
          subject = refl;
          from_addr = refl;
          to_addrs = refl;
          cc_addrs = refl;
          date = refl;
          size = refl;
          attached = refl;
          types = refl;
        },
        tt,
      )
