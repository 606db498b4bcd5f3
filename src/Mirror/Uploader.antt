-- ===== src/Mirror/Uploader.antt =====
-- The worker pool: internal/s3store/uploader.go. A run of the dispatcher and the workers is a
-- sequence of actions: enqueuing, polling, one worker's attempt at an item in its hands, and the
-- loss of an item in hand when the process stops.
use marchi.Prelude.{
  ℕ, zero, suc, ◌+◌, ◌-◌, ◌*◌, ◌^◌, String, Bool, ◌&&◌, not, Option, none, some, List, [], ◌∷◌,
  ◌++◌, ltb, ◌==◌, if◌then◌else◌,
}
use marchi.Mirror.Queue.{
  Item, Queue, enqueue, claim_batch, remove, mark_failed, count, is_pending, is_failed,
}

abbrev pub max_attempts : ℕ
max_attempts = 5

abbrev pub backoff_base : ℕ
backoff_base = 2

-- time.Hour
abbrev pub max_backoff : ℕ
max_backoff = 3600

abbrev pub queue_backlog_threshold : ℕ
queue_backlog_threshold = 200

abbrev pub at_least_one : ℕ → ℕ
at_least_one zero = 1
at_least_one (suc n) = suc n

-- The float64 product is exact up to the cap and above it stays above it.
unfoldable pub backoff : ℕ → ℕ
backoff retry_count =
    let d = backoff_base * 2 ^ (at_least_one retry_count - 1) in
    if ltb max_backoff d then max_backoff else d

-- Whether `checkBacklog` notifies; `counted` is false where the query fails.
unfoldable pub check_backlog : Bool → Bool → List Item → Bool
check_backlog has_notifier counted items =
    has_notifier
    && counted
    && not (ltb (count is_pending items + count is_failed items) queue_backlog_threshold)

-- Which steps of one attempt fail: os.ReadFile, `EncryptObject`, the `Put` of the client, and
-- `MarkDone`. With `put_lost` the bucket has the object although the `Put` fails.
pub record Attempt : Type 0 where
  pub no_read : Bool
  pub no_encrypt : Bool
  pub no_put : Bool
  pub put_lost : Bool
  pub no_mark : Bool

pub data UploadError : Type 0 where
  not_read not_encrypted not_put not_marked : UploadError

-- `in_hand` are the items that `ClaimBatch` returned and no worker has finished with; `mirrored`
-- are the emails whose s3_key and s3_etag are set, with the key.
pub record Pool : Type 0 where
  pub queue : Queue
  pub in_hand : List Item
  pub objects : List String
  pub mirrored : List (ℕ × String)

-- `MarkFailed` with the next attempt; `marked` is false where its write fails.
abbrev pub give_back : Item → ℕ → Bool → Pool → Pool
give_back item now marked p =
    if marked
    then record p {
      queue = record (p.queue) {
        items =
            mark_failed item.id (item.retry_count + 1) max_attempts
              (now + backoff (item.retry_count + 1)) p.queue.items;
      };
    }
    else p

-- The `Put` of the client.
abbrev pub put_object : Item → Pool → Pool
put_object item p = record p { objects = item.s3_key ∷ p.objects }

-- One transaction: the deletion of the row, and s3_key and s3_etag of the email.
abbrev pub mark_done : Item → Pool → Pool
mark_done item p = record p {
  queue = record (p.queue) { items = remove item.id p.queue.items };
  mirrored = (item.email_id, item.s3_key) ∷ p.mirrored;
}

-- The failing `MarkDone` is rolled back.
abbrev pub record_done : Item → Attempt → Pool → Option UploadError × Pool
record_done item a p = if a.no_mark then (some not_marked, p) else (none, mark_done item p)

unfoldable pub upload : Item → Attempt → Pool → Option UploadError × Pool
upload item a p =
    if a.no_read
    then (some not_read, p)
    else if a.no_encrypt
    then (some not_encrypted, p)
    else if a.no_put
    then (some not_put, if a.put_lost then put_object item p else p)
    else record_done item a (put_object item p)

abbrev pub after_upload : Item → ℕ → Bool → Option UploadError × Pool → Pool
after_upload item now marked (none, p) = p
after_upload item now marked (some e, p) = give_back item now marked p

unfoldable pub process : Item → Attempt → ℕ → Bool → Pool → Pool
process item a now marked p = after_upload item now marked (upload item a p)

pub data Action : Type 0 where
  enqueued : ℕ → String → String → ℕ → Action
  polled : ℕ → ℕ → Action
  attempted : ℕ → Attempt → ℕ → Bool → Action
  lost : ℕ → Action

abbrev pub in_hand_at : ℕ → List Item → Option Item
in_hand_at i [] = none
in_hand_at i (x ∷ items) = if x.id == i then some x else in_hand_at i items

abbrev pub hand_over : ℕ → Pool → Pool
hand_over i p = record p { in_hand = remove i p.in_hand }

unfoldable pub step : Action → Pool → Pool
step (enqueued email_id s3_key local_path now) p = record p {
  queue = enqueue email_id s3_key local_path now p.queue;
}
step (polled limit now) p =
    let r = claim_batch limit now p.queue in record p { queue = r.1; in_hand = p.in_hand ++ r.0 }
step (attempted i attempt now marked) p = elim (in_hand_at i p.in_hand) [
  | none ↦ p
  | some item ↦ process item attempt now marked (hand_over i p)
]
step (lost i) p = hand_over i p

unfoldable pub run : List Action → Pool → Pool
run [] p = p
run (a ∷ actions) p = run actions (step a p)
