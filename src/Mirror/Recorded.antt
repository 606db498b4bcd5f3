-- ===== src/Mirror/Recorded.antt =====
-- What a recorded upload promises: `upload` of internal/s3store/uploader.go with `MarkDone` of
-- internal/db/repo/s3uploadqueue.go.
use marchi.Prelude.{
  ℕ, String, ◌≡◌, Bool, true, false, List, [], ◌∷◌, arith, All, All-map, Option-cases, inl, inr,
  eq_iff,
}
use marchi.Retention.Sound.{has}
use marchi.Mirror.Queue.{Item}
use marchi.Mirror.Cases.{process_cases}
use marchi.Mirror.Uploader.{
  Pool, Action, enqueued, polled, attempted, lost, Attempt, put_object, mark_done, step, run,
  process, in_hand_at, give_back,
}

-- Each email that is marked as mirrored has its object.
abbrev pub IsMirror : Pool → Type 0
IsMirror p = All (λ m. has m.1 p.objects ≡ true) p.mirrored

one_more :
    (key : String) (p : Pool) → IsMirror p → All (λ m. has m.1 (key ∷ p.objects) ≡ true) p.mirrored
one_more key p h = All-map _ _ (λ m e. ground arith) p.mirrored h

give_back-IsMirror :
    (item : Item) (now : ℕ) (marked : Bool) (p : Pool)
    → IsMirror p
    → IsMirror (give_back item now marked p)
give_back-IsMirror item now true p h = h
give_back-IsMirror item now false p h = h

-- The row is recorded behind the `Put`, so that its object is there.
mark_done-IsMirror :
    (item : Item) (p : Pool) → IsMirror p → IsMirror (mark_done item (put_object item p))
mark_done-IsMirror item p h =
    (ground (arith, eq_iff item.s3_key item.s3_key), one_more item.s3_key p h)

process-IsMirror :
    (item : Item) (attempt : Attempt) (now : ℕ) (marked : Bool) (p : Pool)
    → IsMirror p
    → IsMirror (process item attempt now marked p)
process-IsMirror item attempt now marked p h =
    process_cases item attempt now marked IsMirror p h (one_more item.s3_key p h)
      (give_back-IsMirror item now marked) (mark_done-IsMirror item p h)

step-IsMirror : (a : Action) (p : Pool) → IsMirror p → IsMirror (step a p)
unfolding step
step-IsMirror (enqueued email_id s3_key local_path now) p h = h
step-IsMirror (polled limit now) p h = h
step-IsMirror (attempted i attempt now marked) p h = elim (Option-cases (in_hand_at i p.in_hand)) [
  | inl e ↦ rw (e, step) h
  | inr (item, e) ↦ rw (e, step) (process-IsMirror item attempt now marked _ h)
]
step-IsMirror (lost i) p h = h

-- An email is marked as mirrored only behind the upload of its object: where each email with an
-- etag has its object in the bucket, this stays so whatever the workers do and whatever fails, if
-- nothing else removes objects from the bucket.
pub run-IsMirror : (actions : List Action) (p : Pool) → IsMirror p → IsMirror (run actions p)
unfolding run
run-IsMirror [] p h = h
run-IsMirror (a ∷ actions) p h = run-IsMirror actions (step a p) (step-IsMirror a p h)
