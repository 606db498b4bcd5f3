-- ===== src/Retention/Table.antt =====
-- The emails table as retention sees it: internal/domain/email.go and the methods
-- `ListLocalDueForS3Eviction`, `ListLocalDueForDirectDelete`, `ListS3OnlyDueForDeletion`,
-- `MarkMovedToS3Only` and `DeleteCompletely` of internal/db/repo/emails.go. Rows stand in the
-- order of their ids. A NULL text that Go reads as "" is "" here; the columns that hold the
-- message's own headers take no part.
use marchi.Prelude.{
  ℕ, String, Bool, true, false, ◌&&◌, not, Option, none, some, List, map, keep, leb, ◌==◌,
  if◌then◌else◌,
}

pub data Location : Type 0 where
  local s3 : Location

pub record Email : Type 0 where
  pub id : ℕ
  pub account_id : ℕ
  pub location : Location
  pub local_path : String
  pub s3_key : String
  pub s3_etag : Option String
  pub s3_only_since : Option ℕ
  pub created_at : ℕ

abbrev pub is_local : Location → Bool
is_local local = true
is_local s3 = false

abbrev pub is_set {ℓ} : {A : Type ℓ} → Option A → Bool
is_set none = false
is_set (some _) = true

abbrev pub since_at_most : Option ℕ → ℕ → Bool
since_at_most none cutoff = false
since_at_most (some t) cutoff = leb t cutoff

abbrev pub due_for_eviction : ℕ → ℕ → Email → Bool
due_for_eviction account cutoff e =
    e.account_id == account && is_local e.location && is_set e.s3_etag && leb e.created_at cutoff

abbrev pub due_for_direct_delete : ℕ → ℕ → Email → Bool
due_for_direct_delete account cutoff e =
    e.account_id == account && is_local e.location && leb e.created_at cutoff

abbrev pub due_for_deletion : ℕ → ℕ → Email → Bool
due_for_deletion account cutoff e =
    e.account_id == account && not (is_local e.location) && since_at_most e.s3_only_since cutoff

unfoldable pub list_local_due_for_s3_eviction : ℕ → ℕ → List Email → List Email
list_local_due_for_s3_eviction account cutoff = keep (due_for_eviction account cutoff)

unfoldable pub list_local_due_for_direct_delete : ℕ → ℕ → List Email → List Email
list_local_due_for_direct_delete account cutoff = keep (due_for_direct_delete account cutoff)

unfoldable pub list_s3_only_due_for_deletion : ℕ → ℕ → List Email → List Email
list_s3_only_due_for_deletion account cutoff = keep (due_for_deletion account cutoff)

abbrev pub moved : ℕ → ℕ → Email → Email
moved id stamped e =
    if e.id == id
    then record e { location = s3; local_path = ""; s3_only_since = some stamped }
    else e

-- `stamped` is the instant as which the stored `now` compares.
unfoldable pub mark_moved_to_s3_only : ℕ → ℕ → List Email → List Email
mark_moved_to_s3_only id stamped = map (moved id stamped)

unfoldable pub delete_completely : ℕ → List Email → List Email
delete_completely id = keep (λ e. not (e.id == id))
