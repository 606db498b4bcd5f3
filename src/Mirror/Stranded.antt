-- ===== src/Mirror/Stranded.antt =====
-- A row in the state "uploading" that no worker holds: internal/db/repo/s3uploadqueue.go and
-- internal/s3store/uploader.go.
use marchi.Prelude.{
  ℕ, ◌<◌, ◌≡◌, ◌≢◌, refl, ap, sym, ◌∙◌, Bool, true, false, not, List, [], ◌∷◌, ◌++◌, map, inl, inr,
  ◌⊎◌, arith, ◌==◌, ==_iff, All, All-append, All-keep, All-of_map, All-passed, Bool-cases,
  Option-cases, Some, Some-keep,
}
use marchi.Prelude.Keyed.{Same}
use marchi.Rules.Evaluate.{any}
use marchi.Mirror.Queue.{
  Item, is_pending, enqueue, claim_batch, claim_row, selected, is_among, set_uploading, remove,
  mark_failed, fail_row, claimable,
}
use marchi.Mirror.Cases.{process_cases}
use marchi.Mirror.Uploader.{
  Pool, Action, enqueued, polled, attempted, lost, Attempt, put_object, mark_done, step, run,
  process, in_hand_at, hand_over, give_back,
}
use marchi.Mirror.Order.{All-selected, in_hand_at-All}

-- The row stands in the table, it alone has its id, and no worker holds it.
pub record Stranded (x : Item) (p : Pool) : Type 0 where
  pub waiting : is_pending x.status ≡ false
  pub present : Some (λ y. y ≡ x) p.queue.items
  pub alone : All (Same (λ y. y.id) x) p.queue.items
  pub known : x.id < p.queue.next_id
  pub held : All (λ y. y.id ≢ x.id) p.in_hand

-- A change of rows that leaves `x` as it is.
Some-map_fixed :
    (f : Item → Item) (x : Item) (items : List Item)
    → f x ≡ x
    → Some (λ y. y ≡ x) items
    → Some (λ y. y ≡ x) (map f items)
Some-map_fixed f x [] e h = absurd h
Some-map_fixed f x (y ∷ items) e (inl q) = inl (ap f q ∙ e)
Some-map_fixed f x (y ∷ items) e (inr k) = inr (Some-map_fixed f x items e k)

Same-map_fixed :
    (f : Item → Item) (x : Item) (items : List Item)
    → f x ≡ x
    → ((y : Item) → (f y).id ≡ y.id)
    → All (Same (λ y. y.id) x) items
    → All (Same (λ y. y.id) x) (map f items)
Same-map_fixed f x items e ids h =
    All-of_map _ _ f (λ y same q. ap f (same (sym (ids y) ∙ q)) ∙ e) items h

Some-append_left :
    (x : Item) (xs ys : List Item) → Some (λ y. y ≡ x) xs → Some (λ y. y ≡ x) (xs ++ ys)
Some-append_left x [] ys h = absurd h
Some-append_left x (z ∷ xs) ys (inl q) = inl q
Some-append_left x (z ∷ xs) ys (inr k) = inr (Some-append_left x xs ys k)

not_among : (i : ℕ) (items : List Item) → All (λ y. y.id ≢ i) items → is_among items i ≡ false
unfolding any
not_among i [] h = refl
not_among i (y ∷ items) h = elim (Bool-cases (y.id == i)) [
  | inl q ↦ absurd (h.0 ((==_iff y.id i).0 q))
  | inr q ↦ ground (arith, not_among i items h.1)
]

module _ (x : Item) where
  not_selected :
      (limit now : ℕ) (p : Pool)
      → Stranded x p
      → All (λ y. y.id ≢ x.id) (selected limit now p.queue.items)
  not_selected limit now p h = All-selected _ limit now p.queue.items (
      All-passed _ _ (claimable now)
        (λ y e same q. cc (ap (λ z. is_pending z.status) (same q), h.waiting, e)) p.queue.items
        h.alone)

  uploading-All :
      (ys : List Item) → All (λ y. y.id ≢ x.id) ys → All (λ y. y.id ≢ x.id) (map set_uploading ys)
  uploading-All ys h =
      All-of_map (λ y. y.id ≢ x.id) (λ y. y.id ≢ x.id) set_uploading (λ y k. k) ys h

  -- What every change of rows has to show.
  changed :
      (f : Item → Item) (p : Pool) (hands : List Item)
      → Stranded x p
      → f x ≡ x
      → ((y : Item) → (f y).id ≡ y.id)
      → All (λ y. y.id ≢ x.id) hands
      → Stranded x
          (record p { queue = record (p.queue) { items = map f p.queue.items }; in_hand = hands })
  changed f p hands h e ids free = record {
    waiting = h.waiting;
    present = Some-map_fixed f x p.queue.items e h.present;
    alone = Same-map_fixed f x p.queue.items e ids h.alone;
    known = h.known;
    held = free;
  }

  claim-Stranded :
      (limit now : ℕ) (p : Pool) → Stranded x p → Stranded x (step (polled limit now) p)
  unfolding step claim_batch
  claim-Stranded limit now p h =
      let chosen = selected limit now p.queue.items in
      changed (claim_row chosen) p _ h
        (rw (not_among x.id chosen (not_selected limit now p h)) refl) (λ y. ground arith)
        (All-append _ p.in_hand _ h.held (uploading-All chosen (not_selected limit now p h)))

  -- The row is not the one that an item with another id writes to.
  elsewhere :
      (item : Item) (retry_count max_attempts next : ℕ)
      → item.id ≢ x.id
      → fail_row item.id retry_count max_attempts next x ≡ x
  elsewhere item retry_count max_attempts next other = elim (Bool-cases (x.id == item.id)) [
    | inl q ↦ absurd (other (sym ((==_iff x.id item.id).0 q)))
    | inr q ↦ rw q refl
  ]

  give_back-Stranded :
      (item : Item) (now : ℕ) (marked : Bool) (p : Pool)
      → item.id ≢ x.id
      → Stranded x p
      → Stranded x (give_back item now marked p)
  unfolding mark_failed
  give_back-Stranded item now false p other h = h
  give_back-Stranded item now true p other h =
      changed _ p p.in_hand h (elsewhere item _ _ _ other) (λ y. ground arith) h.held

  put_object-Stranded : (item : Item) (p : Pool) → Stranded x p → Stranded x (put_object item p)
  put_object-Stranded item p h = record {
    waiting = h.waiting;
    present = h.present;
    alone = h.alone;
    known = h.known;
    held = h.held;
  }

  mark_done-Stranded :
      (item : Item) (p : Pool)
      → item.id ≢ x.id
      → Stranded x p
      → Stranded x (mark_done item (put_object item p))
  unfolding remove
  mark_done-Stranded item p other h = record {
    waiting = h.waiting;
    present = Some-keep _ x (kept (Bool-cases (x.id == item.id))) p.queue.items h.present;
    alone = All-keep _ _ p.queue.items h.alone;
    known = h.known;
    held = h.held;
  }
    where
      kept : ((x.id == item.id) ≡ true) ⊎ ((x.id == item.id) ≡ false) → not (x.id == item.id) ≡ true
      kept (inl q) = absurd (other (sym ((==_iff x.id item.id).0 q)))
      kept (inr q) = rw q refl

  process-Stranded :
      (item : Item) (attempt : Attempt) (now : ℕ) (marked : Bool) (p : Pool)
      → item.id ≢ x.id
      → Stranded x p
      → Stranded x (process item attempt now marked p)
  process-Stranded item attempt now marked p other h =
      process_cases item attempt now marked (Stranded x) p h (put_object-Stranded item p h)
        (λ q k. give_back-Stranded item now marked q other k) (mark_done-Stranded item p other h)

  hand_over-Stranded : (i : ℕ) (p : Pool) → Stranded x p → Stranded x (hand_over i p)
  unfolding remove
  hand_over-Stranded i p h = record {
    waiting = h.waiting;
    present = h.present;
    alone = h.alone;
    known = h.known;
    held = All-keep _ _ p.in_hand h.held;
  }

  step-Stranded : (a : Action) (p : Pool) → Stranded x p → Stranded x (step a p)
  unfolding step enqueue
  step-Stranded (enqueued email_id s3_key local_path now) p h = record {
    waiting = h.waiting;
    present = Some-append_left x p.queue.items _ h.present;
    alone = All-append _ p.queue.items _ h.alone (λ q. absurd (omega (arith, h.known)), tt);
    known = omega (arith, h.known);
    held = h.held;
  }
  step-Stranded (polled limit now) p h = claim-Stranded limit now p h
  step-Stranded (attempted i attempt now marked) p h =
      elim (Option-cases (in_hand_at i p.in_hand)) [
        | inl e ↦ rw (e, step) h
        | inr (item, e) ↦
            rw (e, step)
              (process-Stranded item attempt now marked _
                (in_hand_at-All (λ y. y.id ≢ x.id) i item p.in_hand e h.held)
                (hand_over-Stranded i p h))
      ]
  step-Stranded (lost i) p h = hand_over-Stranded i p h

-- A row that is not pending and that no worker holds, as a stop between the claim and the result
-- leaves it, stays in the table as it is for ever: no poll returns it and no attempt reaches it.
pub run-Stranded :
    (actions : List Action) (x : Item) (p : Pool) → Stranded x p → Stranded x (run actions p)
unfolding run
run-Stranded [] x p h = h
run-Stranded (a ∷ actions) x p h = run-Stranded actions x (step a p) (step-Stranded x a p h)
