-- ===== src/Mirror/Queue.antt =====
-- The queue's table: internal/domain/s3uploadqueue.go and internal/db/repo/s3uploadqueue.go. Rows
-- are for emails: no code enqueues an attachment. Instants are seconds.
use marchi.Prelude.{
  ℕ, suc, String, Bool, true, false, ◌&&◌, not, List, [], ◌∷◌, ◌++◌, map, keep, take, length, leb,
  ◌==◌, if◌then◌else◌,
}
use marchi.Rules.Evaluate.{any}

pub data Status : Type 0 where
  pending uploading done failed pending_delete : Status

pub record Item : Type 0 where
  pub id : ℕ
  pub email_id : ℕ
  pub s3_key : String
  pub local_path : String
  pub status : Status
  pub retry_count : ℕ
  pub next_attempt_at : ℕ
  pub created_at : ℕ

pub record Queue : Type 0 where
  pub items : List Item
  pub next_id : ℕ

abbrev pub is_pending : Status → Bool
is_pending pending = true
is_pending _ = false

abbrev pub is_failed : Status → Bool
is_failed failed = true
is_failed _ = false

-- INSERT with the defaults of the columns.
unfoldable pub enqueue : ℕ → String → String → ℕ → Queue → Queue
enqueue email_id s3_key local_path now q = record {
  items =
      q.items
      ++ record {
        id = q.next_id;
        email_id = email_id;
        s3_key = s3_key;
        local_path = local_path;
        status = pending;
        retry_count = 0;
        next_attempt_at = now;
        created_at = now;
      }
        ∷ [];
  next_id = suc q.next_id;
}

abbrev pub claimable : ℕ → Item → Bool
claimable now x = is_pending x.status && leb x.next_attempt_at now

-- ORDER BY created_at; rows of one second stand in the order of the table.
unfoldable pub insert : Item → List Item → List Item
insert x [] = x ∷ []
insert x (y ∷ items) =
    let rest = insert x items in if leb x.created_at y.created_at then x ∷ y ∷ items else y ∷ rest

unfoldable pub order_by_created_at : List Item → List Item
order_by_created_at [] = []
order_by_created_at (x ∷ items) = insert x (order_by_created_at items)

abbrev pub set_uploading : Item → Item
set_uploading x = record x { status = uploading }

abbrev pub is_among : List Item → ℕ → Bool
is_among items i = any (λ y. y.id == i) items

abbrev pub claim_row : List Item → Item → Item
claim_row claimed x = if is_among claimed x.id then set_uploading x else x

unfoldable pub selected : ℕ → ℕ → List Item → List Item
selected limit now items = take limit (order_by_created_at (keep (claimable now) items))

-- The items returned, and the table.
unfoldable pub claim_batch : ℕ → ℕ → Queue → List Item × Queue
claim_batch limit now q = (
  map set_uploading (selected limit now q.items),
  record q { items = map (claim_row (selected limit now q.items)) q.items },
)

-- The deletion of `MarkDone`.
unfoldable pub remove : ℕ → List Item → List Item
remove i = keep (λ x. not (x.id == i))

abbrev pub status_after : ℕ → ℕ → Status
status_after retry_count max_attempts = if leb max_attempts retry_count then failed else pending

abbrev pub fail_row : ℕ → ℕ → ℕ → ℕ → Item → Item
fail_row i retry_count max_attempts next x =
    if x.id == i
    then record x {
      status = status_after retry_count max_attempts;
      retry_count = retry_count;
      next_attempt_at = next;
    }
    else x

unfoldable pub mark_failed : ℕ → ℕ → ℕ → ℕ → List Item → List Item
mark_failed i retry_count max_attempts next = map (fail_row i retry_count max_attempts next)

-- One entry of `CountByStatus`.
abbrev pub count : (Status → Bool) → List Item → ℕ
count is items = length (keep (λ x. is x.status) items)
