-- ===== src/Retention/Runner.antt =====
-- `Run` and its stages: internal/retention/runner.go.
use marchi.Prelude.{
  ℕ, suc, String, Bool, true, false, ◌&&◌, not, Option, none, some, List, [], ◌∷◌, if◌then◌else◌,
  str_eq, ◌==◌, keep,
}
use marchi.Retention.Table.{
  Email, list_local_due_for_s3_eviction, list_local_due_for_direct_delete,
  list_s3_only_due_for_deletion, mark_moved_to_s3_only, delete_completely,
}

pub record Stats : Type 0 where
  pub moved_to_s3_only : ℕ
  pub deleted_direct : ℕ
  pub deleted_from_s3 : ℕ
  pub errors : ℕ

-- What retention changes: the emails table, the files of the Maildir, the objects of the bucket,
-- the documents of the search index and the statistics of the run.
pub record State : Type 0 where
  pub emails : List Email
  pub files : List String
  pub objects : List String
  pub documents : List ℕ
  pub stats : Stats

-- How the file system, SQLite, the index and the bucket answer in one run.
pub record Faults : Type 0 where
  pub listing : ℕ → Bool
  pub listing_s3_only : ℕ → Bool
  pub moving : ℕ → Bool
  pub deleting : ℕ → Bool
  pub unlinking : String → Bool
  pub unindexing : ℕ → Bool
  pub s3_deleting : String → Bool

pub record Policy : Type 0 where
  pub local_days : Option ℕ
  pub move_to_s3_days : Option ℕ
  pub s3_days : Option ℕ

pub record Account : Type 0 where
  pub id : ℕ
  pub retention : Policy

abbrev pub or_default : Option ℕ → Option ℕ → Option ℕ
or_default (some d) g = some d
or_default none g = g

-- The account's threshold where it has one, else the global default, if there is one.
unfoldable pub resolve_effective_policy : Policy → Option Policy → Policy
resolve_effective_policy p none = p
resolve_effective_policy p (some global) = record {
  local_days = or_default p.local_days global.local_days;
  move_to_s3_days = or_default p.move_to_s3_days global.move_to_s3_days;
  s3_days = or_default p.s3_days global.s3_days;
}

abbrev pub add_error : State → State
add_error s = record s { stats = record (s.stats) { errors = suc s.stats.errors } }

unfoldable pub for_each : (Email → State → State) → List Email → State → State
for_each body [] s = s
for_each body (e ∷ due) s = for_each body due (body e s)

abbrev pub without : String → List String → List String
without p = keep (λ q. not (str_eq q p))

-- `days_before now d` is now.AddDate(0, 0, -d) in the process's time zone, cut to seconds;
-- `stamp now` is the instant as which the stored `now` compares.
module _ (faults : Faults) (has_index : Bool) where
  -- A removal that fails for another reason than a missing file is logged.
  abbrev pub unlink : String → List String → List String
  unlink path files =
      if str_eq path "" then files else if faults.unlinking path then files else without path files

  abbrev pub unindex : ℕ → List ℕ → List ℕ
  unindex id documents =
      if has_index && not (faults.unindexing id)
      then keep (λ d. not (d == id)) documents
      else documents

module _ (faults : Faults) (has_index : Bool) (stamp : ℕ → ℕ) where
  unfoldable pub evict_one : ℕ → Email → State → State
  evict_one now e s = if faults.moving e.id then add_error s else record s {
    emails = mark_moved_to_s3_only e.id (stamp now) s.emails;
    files = unlink faults has_index e.local_path s.files;
    stats = record (s.stats) { moved_to_s3_only = suc s.stats.moved_to_s3_only };
  }

  unfoldable pub delete_one : Email → State → State
  delete_one e s = if faults.deleting e.id then add_error s else record s {
    emails = delete_completely e.id s.emails;
    files = unlink faults has_index e.local_path s.files;
    documents = unindex faults has_index e.id s.documents;
    stats = record (s.stats) { deleted_direct = suc s.stats.deleted_direct };
  }

  -- The row and the document, once the object is gone.
  abbrev pub drop_row : Email → State → State
  drop_row e s = if faults.deleting e.id then add_error s else record s {
    emails = delete_completely e.id s.emails;
    documents = unindex faults has_index e.id s.documents;
    stats = record (s.stats) { deleted_from_s3 = suc s.stats.deleted_from_s3 };
  }

  unfoldable pub expire_one : Email → State → State
  expire_one e s =
      if str_eq e.s3_key ""
      then drop_row e s
      else if faults.s3_deleting e.s3_key
      then add_error s
      else drop_row e (record s { objects = without e.s3_key s.objects })

  unfoldable pub evict_to_s3_only : ℕ → ℕ → ℕ → State → State
  evict_to_s3_only account cutoff now s =
      if faults.listing account
      then add_error s
      else for_each (evict_one now) (list_local_due_for_s3_eviction account cutoff s.emails) s

  unfoldable pub delete_direct_no_backup : ℕ → ℕ → State → State
  delete_direct_no_backup account cutoff s =
      if faults.listing account
      then add_error s
      else for_each delete_one (list_local_due_for_direct_delete account cutoff s.emails) s

  unfoldable pub delete_from_s3 : ℕ → ℕ → State → State
  delete_from_s3 account cutoff s =
      if faults.listing_s3_only account
      then add_error s
      else for_each expire_one (list_s3_only_due_for_deletion account cutoff s.emails) s

  module _ (days_before : ℕ → ℕ → ℕ) (now : ℕ) where
    abbrev pub stage_a : Bool → ℕ → Policy → State → State
    stage_a true account p s = elim p.move_to_s3_days [
      | some d ↦ evict_to_s3_only account (days_before now d) now s
      | none ↦ s
    ]
    stage_a false account p s = elim p.local_days [
      | some d ↦ delete_direct_no_backup account (days_before now d) s
      | none ↦ s
    ]

    abbrev pub stage_b : Bool → ℕ → Policy → State → State
    stage_b true account p s = elim p.s3_days [
      | some d ↦ delete_from_s3 account (days_before now d) s
      | none ↦ s
    ]
    stage_b false account p s = s

    -- The loop over the accounts.
    unfoldable pub run_accounts : Bool → Option Policy → List Account → State → State
    run_accounts s3_enabled global [] s = s
    run_accounts s3_enabled global (a ∷ accounts) s =
        let p = resolve_effective_policy a.retention global in
        run_accounts s3_enabled global accounts
          (stage_b s3_enabled a.id p (stage_a s3_enabled a.id p s))

-- What `buildS3Client` meets: no repository, no row, a failure, a row that is off, or a client.
pub data S3Setup : Type 0 where
  not_wired no_row config_failed disabled decrypt_failed client_failed ready : S3Setup

-- Only a built client enables S3; a failure is logged and treated as S3 being off.
abbrev pub build_s3_client : S3Setup → Bool
build_s3_client not_wired = false
build_s3_client no_row = false
build_s3_client config_failed = false
build_s3_client disabled = false
build_s3_client decrypt_failed = false
build_s3_client client_failed = false
build_s3_client ready = true

-- The answer of RetentionSettingsRepo.Get: sql.ErrNoRows is `absent`.
pub data Settings : Type 0 where
  settings_failed absent : Settings
  defaults : Policy → Settings

abbrev pub no_stats : Stats
no_stats = record { moved_to_s3_only = 0; deleted_direct = 0; deleted_from_s3 = 0; errors = 0 }

module _ (faults : Faults) (has_index : Bool) (stamp : ℕ → ℕ) (days_before : ℕ → ℕ → ℕ)
    (now : ℕ) where
  -- `none` is an error, returned before anything is changed; `accounts` is `none` where listing
  -- them fails.
  unfoldable pub run : Option (List Account) → Settings → S3Setup → State → Option State
  run none settings setup s = none
  run (some accounts) settings_failed setup s = none
  run (some accounts) absent setup s = some (
      run_accounts faults has_index stamp days_before now (build_s3_client setup) none accounts
        (record s { stats = no_stats }))
  run (some accounts) (defaults global) setup s = some (
      run_accounts faults has_index stamp days_before now (build_s3_client setup) (some global)
        accounts (record s { stats = no_stats }))
