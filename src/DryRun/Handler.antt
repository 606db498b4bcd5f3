-- ===== src/DryRun/Handler.antt =====
-- `handleDryRunRules` of internal/httpapi/rules_dryrun.go with `ListForDryRun` of
-- internal/db/repo/emails.go. The rows of the archive stand in the order of their ids.
use marchi.Prelude.{
  ℕ, suc, String, Bool, ◌||◌, Option, none, some, List, [], ◌∷◌, ◌++◌, map, keep, length, take, ltb,
  ◌==◌, if◌then◌else◌,
}
use marchi.Prelude.Int.{ℤ, pos, negsuc}
use marchi.Rules.Node.{RuleNode}
use marchi.Rules.Parse.{GoLib}
use marchi.Rules.Validate.{validate}
use marchi.Rules.Evaluate.{evaluate}
use marchi.Sync.Archive.{Archive, Row}
use marchi.DryRun.Stored.{MailLib, or_else, build_candidate_from_stored}

abbrev pub max_dry_run_scan : ℕ
max_dry_run_scan = 5000

abbrev pub max_dry_run_samples : ℕ
max_dry_run_samples = 20

pub record DryRunRequest : Type 0 where
  pub conditions : RuleNode
  pub account_id : Option ℕ
  pub limit : ℤ

-- The date is printed by the response.
pub record DryRunSample : Type 0 where
  pub id : ℕ
  pub subject : String
  pub from : String
  pub date : ℤ

pub data DryRunAnswer : Type 0 where
  bad_conditions : DryRunAnswer
  scan_failed : DryRunAnswer
  dry_run_response : ℕ → ℕ → List DryRunSample → DryRunAnswer

-- `folder_names` is the map of the names that were looked up.
pub record Scan : Type 0 where
  pub folder_names : ℕ → Option String
  pub matched_count : ℕ
  pub samples : List DryRunSample

-- The folders by id, and the queries that fail.
pub record DryRunWorld : Type 0 where
  pub folders : ℕ → Option String
  pub scanning_fails : Bool
  pub attachments_fail : ℕ → Bool

abbrev pub bounded_limit : ℤ → ℕ
bounded_limit (negsuc n) = max_dry_run_scan
bounded_limit (pos n) = if n == 0 || ltb max_dry_run_scan n then max_dry_run_scan else n

unfoldable pub list_for_dry_run : Option ℕ → ℕ → List Row → List Row
list_for_dry_run none limit rows = take limit rows
list_for_dry_run (some account) limit rows = take limit (keep (λ r. r.account_id == account) rows)

abbrev pub types_of : Archive → ℕ → List String
types_of a id = map (λ x. x.1.mime_type) (keep (λ x. x.0 == id) a.attachments)

abbrev pub sample_of : Row → DryRunSample
sample_of r = record { id = r.id; subject = r.subject; from = r.from_addr; date = r.date }

abbrev pub set_name : ℕ → String → (ℕ → Option String) → ℕ → Option String
set_name folder name names f = if folder == f then some name else names f

module _ (mail : MailLib) (lib : GoLib) (w : DryRunWorld) (a : Archive) where
  abbrev pub found_name : ℕ → Option String → (ℕ → Option String) → String × (ℕ → Option String)
  found_name folder (some name) names = (name, names)
  found_name folder none names =
      let name = or_else "" (w.folders folder) in (name, set_name folder name names)

  abbrev pub attachment_types : Row → List String
  attachment_types r =
      if r.attached then (if w.attachments_fail r.id then [] else types_of a r.id) else []

  abbrev pub add_sample : Row → List DryRunSample → List DryRunSample
  add_sample r samples =
      if ltb (length samples) max_dry_run_samples then samples ++ sample_of r ∷ [] else samples

  abbrev pub scan_row : RuleNode → Row → String × (ℕ → Option String) → Scan → Scan
  scan_row conditions r (name, names) s =
      if evaluate lib conditions (build_candidate_from_stored mail r name (attachment_types r))
      then record {
        folder_names = names;
        matched_count = suc s.matched_count;
        samples = add_sample r s.samples;
      }
      else record s { folder_names = names }

  unfoldable pub scan : RuleNode → List Row → Scan → Scan
  scan conditions [] s = s
  scan conditions (r ∷ rows) s =
      scan conditions rows (
        scan_row conditions r (found_name r.folder_id (s.folder_names r.folder_id) s.folder_names)
          s)

  abbrev pub respond : List Row → Scan → DryRunAnswer
  respond rows s = dry_run_response (length rows) s.matched_count s.samples

  abbrev pub scan_rows : RuleNode → List Row → DryRunAnswer
  scan_rows conditions rows =
      respond rows (
        scan conditions rows (record { folder_names = λ f. none; matched_count = 0; samples = [] }))

  unfoldable pub handle_dry_run_rules : DryRunRequest → DryRunAnswer
  handle_dry_run_rules q = elim (validate lib q.conditions) [
    | some e ↦ bad_conditions
    | none ↦
        if w.scanning_fails
        then scan_failed
        else scan_rows q.conditions (list_for_dry_run q.account_id (bounded_limit q.limit) a.rows)
  ]
