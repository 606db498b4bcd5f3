-- ===== src/Mirror/Attempts.antt =====
-- How often an upload is tried: internal/s3store/uploader.go.
use marchi.Prelude.{
  ℕ, ◌+◌, ◌<◌, ◌≡◌, refl, subst, Bool, true, false, List, [], ◌∷◌, ◌++◌, inl, inr, arith, leb, ◌==◌,
  All, All-append, All-keep, All-of_map, All-passed, All-both, ==_iff, Bool-cases, Option-cases,
}
use marchi.Prelude.Keyed.{Same, IsKeyed, IsKeyed-map, IsKeyed-keep, IsKeyed-append}
use marchi.Rules.Evaluate.{any}
use marchi.Mirror.Queue.{
  Item, Queue, Status, pending, done, failed, pending_delete, uploading, is_failed, is_pending,
  enqueue, claim_batch, claim_row, selected, is_among, set_uploading, remove, mark_failed, fail_row,
  claimable,
}
use marchi.Mirror.Order.{All-selected, in_hand_at-All}
use marchi.Mirror.Cases.{process_cases}
use marchi.Mirror.Uploader.{
  Pool, Action, enqueued, polled, attempted, lost, Attempt, put_object, mark_done, step, run,
  process, max_attempts, in_hand_at, hand_over, give_back,
}

-- A row that can still be tried has failed less than five times, a failed one five times.
pub record Bounded (x : Item) : Type 0 where
  pub trying : is_failed x.status ≡ false → x.retry_count < max_attempts
  pub given_up : is_failed x.status ≡ true → x.retry_count ≡ max_attempts

abbrev pub Triable : Item → Type 0
Triable x = x.retry_count < max_attempts

-- A claimed row can be tried again.
claimable-Triable : (now : ℕ) (x : Item) → claimable now x ≡ true → Bounded x → Triable x
claimable-Triable now x e h = elim (Bool-cases (is_failed x.status)) [
  | inl f ↦ absurd (pending_not_failed x.status (ground arith) f)
  | inr f ↦ h.trying f
]
  where
    pending_not_failed : (s : Status) → is_pending s ≡ true → is_failed s ≡ true → ⊥
    pending_not_failed pending p f = cc
    pending_not_failed uploading p f = cc
    pending_not_failed done p f = cc
    pending_not_failed failed p f = cc
    pending_not_failed pending_delete p f = cc

among :
    (P : Item → Type 0) (i : ℕ) (items : List Item)
    → All P items
    → is_among items i ≡ true
    → (c : Item) × (c.id ≡ i) × P c
unfolding any
among P i [] h e = cc
among P i (x ∷ items) h e = elim (Bool-cases (x.id == i)) [
  | inl q ↦ (x, (==_iff x.id i).0 q, h.0)
  | inr q ↦ among P i items h.1 (ground arith)
]

claim_row-Bounded :
    (claimed : List Item) (x : Item)
    → All (λ c. Triable c × Same (λ y. y.id) x c) claimed
    → Bounded x
    → Bounded (claim_row claimed x)
claim_row-Bounded claimed x h b = elim (Bool-cases (is_among claimed x.id)) [
  | inl e ↦
      let (c, q, (t, same)) = among _ x.id claimed h e in
      rw e (record { trying = λ f. subst Triable (same q) t; given_up = λ f. cc })
  | inr e ↦ rw e b
]

fail_row-Bounded :
    (i next : ℕ) (item x : Item)
    → Triable item
    → Bounded x
    → Bounded (fail_row i (item.retry_count + 1) max_attempts next x)
fail_row-Bounded i next item x t h = elim (Bool-cases (x.id == i)) [
  | inl q ↦ elim (Bool-cases (leb max_attempts (item.retry_count + 1))) [
    | inl e ↦ rw (q, e) (record { trying = λ f. cc; given_up = λ f. ground arith })
    | inr e ↦ rw (q, e) (record { trying = λ f. ground arith; given_up = λ f. cc })
  ]
  | inr q ↦ rw q h
]

abbrev pub IsQueue : Queue → Type 0
IsQueue q = IsKeyed (λ x. x.id) q.next_id q.items

-- The rows have distinct ids, and no row and no item in hand has failed too often.
abbrev pub IsPool : Pool → Type 0
IsPool p = IsQueue p.queue × All Bounded p.queue.items × All Triable p.in_hand

selected-Same :
    (limit now : ℕ) (x : Item) (items : List Item)
    → All Bounded items
    → All (Same (λ y. y.id) x) items
    → All (λ c. Triable c × Same (λ y. y.id) x c) (selected limit now items)
selected-Same limit now x items h k = All-selected _ limit now items (
    All-passed (λ c. Bounded c × Same (λ y. y.id) x c) (λ c. Triable c × Same (λ y. y.id) x c)
      (claimable now) (λ c e g. (claimable-Triable now c e g.0, g.1)) items
      (All-both Bounded (Same (λ y. y.id) x) items h k))

claim_batch-IsPool :
    (limit now : ℕ) (p : Pool)
    → IsPool p
    → IsPool (record p {
      queue = (claim_batch limit now p.queue).1;
      in_hand = p.in_hand ++ (claim_batch limit now p.queue).0;
    })
unfolding claim_batch
claim_batch-IsPool limit now p (keyed, bounded, triable) = (
  IsKeyed-map (λ x. x.id) p.queue.next_id p.queue.items
      (claim_row (selected limit now p.queue.items)) (λ x. ground arith) keyed,
  All-of_map (λ x. ((x.id < p.queue.next_id) × All (Same (λ y. y.id) x) p.queue.items) × Bounded x)
      Bounded _
      (λ x g. claim_row-Bounded _ x (selected-Same limit now x p.queue.items bounded g.0.1) g.1)
      p.queue.items (All-both _ Bounded p.queue.items keyed bounded),
  All-append Triable p.in_hand _ triable (
      All-of_map Triable Triable set_uploading (λ x t. t) _
        (All-selected Triable limit now p.queue.items (
          All-passed Bounded Triable (claimable now) (claimable-Triable now) p.queue.items
            bounded))),
)

give_back-IsPool :
    (item : Item) (now : ℕ) (marked : Bool) (p : Pool)
    → Triable item
    → IsPool p
    → IsPool (give_back item now marked p)
unfolding mark_failed
give_back-IsPool item now false p t h = h
give_back-IsPool item now true p t (keyed, bounded, triable) = (
  IsKeyed-map (λ x. x.id) p.queue.next_id p.queue.items _ (λ x. ground arith) keyed,
  All-of_map Bounded Bounded _ (λ x. fail_row-Bounded item.id _ item x t) p.queue.items bounded,
  triable,
)

mark_done-IsPool : (item : Item) (p : Pool) → IsPool p → IsPool (mark_done item (put_object item p))
unfolding remove
mark_done-IsPool item p (keyed, bounded, triable) = (
  IsKeyed-keep (λ x. x.id) p.queue.next_id p.queue.items _ keyed,
  All-keep Bounded _ p.queue.items bounded,
  triable,
)

process-IsPool :
    (item : Item) (attempt : Attempt) (now : ℕ) (marked : Bool) (p : Pool)
    → Triable item
    → IsPool p
    → IsPool (process item attempt now marked p)
process-IsPool item attempt now marked p t h =
    process_cases item attempt now marked IsPool p h h
      (λ q k. give_back-IsPool item now marked q t k) (mark_done-IsPool item p h)

hand_over-IsPool : (i : ℕ) (p : Pool) → IsPool p → IsPool (hand_over i p)
unfolding remove
hand_over-IsPool i p (keyed, bounded, triable) =
    (keyed, bounded, All-keep Triable _ p.in_hand triable)

step-IsPool : (a : Action) (p : Pool) → IsPool p → IsPool (step a p)
unfolding step enqueue
step-IsPool (enqueued email_id s3_key local_path now) p (keyed, bounded, triable) = (
  IsKeyed-append (λ x. x.id) p.queue.next_id p.queue.items _ refl keyed,
  All-append Bounded p.queue.items _ bounded
      (record { trying = λ f. omega arith; given_up = λ f. cc }, tt),
  triable,
)
step-IsPool (polled limit now) p h = claim_batch-IsPool limit now p h
step-IsPool (attempted i attempt now marked) p h = elim (Option-cases (in_hand_at i p.in_hand)) [
  | inl e ↦ rw (e, step) h
  | inr (item, e) ↦
      rw (e, step)
        (process-IsPool item attempt now marked _ (in_hand_at-All Triable i item p.in_hand e h.2)
          (hand_over-IsPool i p h))
]
step-IsPool (lost i) p h = hand_over-IsPool i p h

-- Whatever the dispatcher and the workers do, and whatever fails, a row that can still be tried has
-- failed less than five times and a failed one exactly five times: a row is never given to a worker
-- after its fifth failure. Ids stay distinct.
pub run-IsPool : (actions : List Action) (p : Pool) → IsPool p → IsPool (run actions p)
unfolding run
run-IsPool [] p h = h
run-IsPool (a ∷ actions) p h = run-IsPool actions (step a p) (step-IsPool a p h)
