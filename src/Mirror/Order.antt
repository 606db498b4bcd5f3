-- ===== src/Mirror/Order.antt =====
-- The order of `ClaimBatch` of internal/db/repo/s3uploadqueue.go, and what holds of the items
-- that it selects.
use marchi.Prelude.{
  ℕ, ◌≤◌, ◌≡◌, subst, inl, inr, some, List, [], ◌∷◌, keep, arith, leb, ◌==◌, All, All-map, All-take,
  Bool-cases,
}
use marchi.Mirror.Queue.{Item, claimable, insert, order_by_created_at, selected}
use marchi.Mirror.Uploader.{in_hand_at}

module _ (P : Item → Type 0) where
  pub All-insert : (x : Item) (xs : List Item) → P x → All P xs → All P (insert x xs)
  unfolding insert
  All-insert x [] h k = (h, tt)
  All-insert x (y ∷ xs) h k = elim (Bool-cases (leb x.created_at y.created_at)) [
    | inl e ↦ rw (e, insert) (h, k)
    | inr e ↦ rw (e, insert) (k.0, All-insert x xs h k.1)
  ]

  All-order_by_created_at : (xs : List Item) → All P xs → All P (order_by_created_at xs)
  unfolding order_by_created_at
  All-order_by_created_at [] h = tt
  All-order_by_created_at (x ∷ xs) h = All-insert x _ h.0 (All-order_by_created_at xs h.1)

  pub All-selected :
      (limit now : ℕ) (xs : List Item)
      → All P (keep (claimable now) xs)
      → All P (selected limit now xs)
  unfolding selected
  All-selected limit now xs h = All-take P limit _ (All-order_by_created_at _ h)

  pub in_hand_at-All :
      (i : ℕ) (x : Item) (xs : List Item) → in_hand_at i xs ≡ some x → All P xs → P x
  in_hand_at-All i x [] e h = cc
  in_hand_at-All i x (y ∷ xs) e h = elim (Bool-cases (y.id == i)) [
    | inl q ↦ subst P (cc (rw q at e)) h.0
    | inr q ↦ in_hand_at-All i x xs (rw q at e) h.1
  ]

abbrev pub Ordered : List Item → Type 0
Ordered [] = Unit
Ordered (x ∷ items) = All (λ y. x.created_at ≤ y.created_at) items × Ordered items

insert-Ordered : (x : Item) (items : List Item) → Ordered items → Ordered (insert x items)
unfolding insert
insert-Ordered x [] h = (tt, tt)
insert-Ordered x (y ∷ items) h = elim (Bool-cases (leb x.created_at y.created_at)) [
  | inl e ↦ rw (e, insert) ((ground arith, All-map _ _ (λ z k. ground arith) items h.0), h)
  | inr e ↦
      rw (e, insert)
        (
          All-insert (λ z. y.created_at ≤ z.created_at) x items (ground arith) h.0,
          insert-Ordered x items h.1,
        )
]

pub order-Ordered : (items : List Item) → Ordered (order_by_created_at items)
unfolding order_by_created_at
order-Ordered [] = tt
order-Ordered (x ∷ items) = insert-Ordered x _ (order-Ordered items)

module _ (P : Item → Type 0) where
  insert-All : (x : Item) (xs : List Item) → All P (insert x xs) → P x × All P xs
  unfolding insert
  insert-All x [] h = h
  insert-All x (y ∷ xs) h = elim (Bool-cases (leb x.created_at y.created_at)) [
    | inl e ↦ rw (e, insert) at h
    | inr e ↦ let k = rw (e, insert) at h in let r = insert-All x xs k.1 in (r.0, (k.0, r.1))
  ]

  pub order-All : (xs : List Item) → All P (order_by_created_at xs) → All P xs
  unfolding order_by_created_at
  order-All [] h = tt
  order-All (x ∷ xs) h = let r = insert-All x _ h in (r.0, order-All xs r.1)
