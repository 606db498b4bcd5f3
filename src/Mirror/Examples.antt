-- ===== src/Mirror/Examples.antt =====
-- Runs of the upload queue, with the theorems applied to them.
use marchi.Prelude.{◌≤◌, ◌≡◌, refl, true, false, List, [], ◌∷◌, arith, All, inl, inr, keep, length}
use marchi.Mirror.Queue.{Item, pending, uploading, claim_batch, is_among, is_pending}
use marchi.Mirror.Uploader.{Pool, Action, polled, attempted, Attempt, run}
use marchi.Mirror.Attempts.{Bounded, IsPool, run-IsPool}
use marchi.Mirror.Claims.{Taken, IsDue, claim_batch-claims}
use marchi.Mirror.Recorded.{IsMirror, run-IsMirror}
use marchi.Mirror.Stranded.{Stranded, run-Stranded}

abbrev first : Item
first = record {
  id = 1;
  email_id = 10;
  s3_key = "a.eml";
  local_path = "new/1";
  status = pending;
  retry_count = 4;
  next_attempt_at = 100;
  created_at = 50;
}

abbrev second : Item
second = record first {
  id = 2;
  email_id = 11;
  s3_key = "b.eml";
  status = uploading;
  retry_count = 0;
}

-- `first` waits for its fifth attempt; `second` was claimed by a process that stopped.
abbrev pool : Pool
pool = record {
  queue = record { items = first ∷ second ∷ []; next_id = 3 };
  in_hand = [];
  objects = [];
  mirrored = [];
}

abbrev served : Attempt
served = record {
  no_read = false;
  no_encrypt = false;
  no_put = false;
  put_lost = false;
  no_mark = false;
}

abbrev refused : Attempt
refused = record served { no_put = true }

abbrev day : List Action
day = polled 20 120 ∷ attempted 1 refused 121 true ∷ polled 20 900 ∷ []

first-Bounded : Bounded first
first-Bounded = record { trying = λ e. omega arith; given_up = λ e. cc }

second-Bounded : Bounded second
second-Bounded = record { trying = λ e. omega arith; given_up = λ e. cc }

pool-IsPool : IsPool pool
pool-IsPool = (
  (
    (omega arith, (λ e. refl, (λ e. absurd (omega arith), tt))),
    ((omega arith, (λ e. absurd (omega arith), (λ e. refl, tt))), tt),
  ),
  (first-Bounded, (second-Bounded, tt)),
  tt,
)

claim_batch-claims_example :
    (length (claim_batch 1 120 pool.queue).0 ≤ 1)
    × All (IsDue 120 pool.queue) (claim_batch 1 120 pool.queue).0
    × All
        (λ x.
          is_pending x.status ≡ true
          → x.next_attempt_at ≤ 120
          → Taken 1 (claim_batch 1 120 pool.queue).0 x)
        pool.queue.items
    × All
        (λ x. is_pending x.status ≡ false)
        (keep
          (λ x. is_among (claim_batch 1 120 pool.queue).0 x.id)
          (claim_batch 1 120 pool.queue).1.items)
claim_batch-claims_example = claim_batch-claims 1 120 pool.queue

run-IsPool_example : IsPool (run day pool)
run-IsPool_example = run-IsPool day pool pool-IsPool

second-Stranded : Stranded second pool
second-Stranded = record {
  waiting = refl;
  present = inr (inl refl);
  alone = (λ e. absurd (omega arith), (λ e. refl, tt));
  known = omega arith;
  held = tt;
}

run-Stranded_example : Stranded second (run day pool)
run-Stranded_example = run-Stranded day second pool second-Stranded

run-IsMirror_example : IsMirror (run (polled 20 120 ∷ attempted 1 served 121 true ∷ []) pool)
run-IsMirror_example = run-IsMirror (polled 20 120 ∷ attempted 1 served 121 true ∷ []) pool tt
