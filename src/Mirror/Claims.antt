-- ===== src/Mirror/Claims.antt =====
-- What a claim takes: `ClaimBatch` of internal/db/repo/s3uploadqueue.go.
use marchi.Prelude.{
  Some, ℕ, zero, suc, ◌≤◌, ◌≡◌, refl, ap, ◌⊎◌, inl, inr, true, false, List, [], ◌∷◌, map, keep,
  take, length, length-take-le, arith, All, All-map, All-of_map, All-both, Bool-cases, ◌∙◌, sym,
}
use marchi.Rules.Evaluate.{any}
use marchi.Mirror.Queue.{
  Item, Queue, is_pending, claimable, order_by_created_at, set_uploading, is_among, claim_row,
  selected, claim_batch,
}
use marchi.Mirror.Order.{Ordered, order-Ordered, order-All, All-selected}

-- An item in the list is taken, or the limit is reached by items that are no younger.
abbrev pub Taken : ℕ → List Item → Item → Type 0
Taken limit taken x =
    (is_among taken x.id ≡ true)
    ⊎ ((length taken ≡ limit) × All (λ c. c.created_at ≤ x.created_at) taken)

take-Taken :
    (limit : ℕ) (items : List Item) → Ordered items → All (Taken limit (take limit items)) items
unfolding any
take-Taken zero items h = everything items
  where
    everything : (xs : List Item) → All (Taken 0 []) xs
    everything [] = tt
    everything (x ∷ xs) = (inr (refl, tt), everything xs)
take-Taken (suc limit) [] h = tt
take-Taken (suc limit) (x ∷ items) h = (
  inl (ground arith),
  All-map (λ y. (x.created_at ≤ y.created_at) × Taken limit (take limit items) y) _
      (λ y k. elim k.1 [ inl e ↦ inl (ground arith) | inr (e, old) ↦ inr (ap suc e, (k.0, old)) ])
      items (All-both _ _ items h.0 (take-Taken limit items h.1)),
)

uploading-among :
    (items : List Item) (i : ℕ) → is_among (map set_uploading items) i ≡ is_among items i
unfolding any
uploading-among [] i = refl
uploading-among (x ∷ items) i = ground (arith, uploading-among items i)

uploading-length : (items : List Item) → length (map set_uploading items) ≡ length items
uploading-length [] = refl
uploading-length (x ∷ items) = ap suc (uploading-length items)

uploading-Taken :
    (limit : ℕ) (items : List Item) (x : Item)
    → Taken limit items x
    → Taken limit (map set_uploading items) x
uploading-Taken limit items x (inl e) = inl (uploading-among items x.id ∙ e)
uploading-Taken limit items x (inr (e, old)) = inr (
  uploading-length items ∙ e,
  All-of_map (λ c. c.created_at ≤ x.created_at) _ set_uploading (λ c k. k) items old,
)

claimed_row :
    (claimed : List Item) (x : Item)
    → is_among claimed (claim_row claimed x).id ≡ true
    → is_pending (claim_row claimed x).status ≡ false
claimed_row claimed x e = elim (Bool-cases (is_among claimed x.id)) [
  | inl k ↦ rw k refl
  | inr k ↦ cc (k, e)
]

none_pending :
    (claimed xs : List Item)
    → All
        (λ x. is_pending x.status ≡ false)
        (keep (λ x. is_among (map set_uploading claimed) x.id) (map (claim_row claimed) xs))
none_pending claimed [] = tt
none_pending claimed (x ∷ xs) =
    elim (Bool-cases (is_among (map set_uploading claimed) (claim_row claimed x).id)) [
      | inl e ↦ rw e (
        claimed_row claimed x (sym (uploading-among claimed (claim_row claimed x).id) ∙ e),
        none_pending claimed xs,
      )
      | inr e ↦ rw e (none_pending claimed xs)
    ]

-- The row behind a returned item: it was pending and due.
abbrev pub IsDue : ℕ → Queue → Item → Type 0
IsDue now q y =
    Some (λ x. (y ≡ set_uploading x) × (is_pending x.status ≡ true) × (x.next_attempt_at ≤ now))
      q.items

rows-Due :
    (now : ℕ) (xs : List Item)
    → All
        (λ x. Some (λ z. (z ≡ x) × (is_pending z.status ≡ true) × (z.next_attempt_at ≤ now)) xs)
        (keep (claimable now) xs)
rows-Due now [] = tt
rows-Due now (x ∷ xs) = elim (Bool-cases (claimable now x)) [
  | inl e ↦ rw e (
    inl (refl, ground arith, ground arith),
    All-map _ _ (λ y k. inr k) (keep (claimable now) xs) (rows-Due now xs),
  )
  | inr e ↦ rw e (All-map _ _ (λ y k. inr k) (keep (claimable now) xs) (rows-Due now xs))
]

due_item :
    (now : ℕ) (x : Item) (xs : List Item)
    → Some (λ z. (z ≡ x) × (is_pending z.status ≡ true) × (z.next_attempt_at ≤ now)) xs
    → Some
        (λ z.
          (set_uploading x ≡ set_uploading z)
          × (is_pending z.status ≡ true)
          × (z.next_attempt_at ≤ now))
        xs
due_item now x [] h = absurd h
due_item now x (z ∷ xs) (inl (e, p, d)) = inl (ap set_uploading (sym e), p, d)
due_item now x (z ∷ xs) (inr h) = inr (due_item now x xs h)

-- Of the rows, those that are pending and due have what `keep` keeps.
rows_kept :
    (P : Item → Type 0) (now : ℕ) (xs : List Item)
    → All P (keep (claimable now) xs)
    → All (λ x. is_pending x.status ≡ true → x.next_attempt_at ≤ now → P x) xs
rows_kept P now [] h = tt
rows_kept P now (x ∷ xs) h = elim (Bool-cases (claimable now x)) [
  | inl e ↦
      let k : P x × All P (keep (claimable now) xs) = rw e at h in
      (λ p d. k.0, rows_kept P now xs k.1)
  | inr e ↦
      let k : All P (keep (claimable now) xs) = rw e at h in
      (λ p d. absurd (ground arith), rows_kept P now xs k)
]

-- A claim returns no more items than its limit, and each is a row of the table that was pending and
-- due, now in the state "uploading". It takes the oldest: each row that was pending and due is
-- returned, or the limit is reached by items that are no younger. And in the table no row that it
-- returned is pending any more, so the next claim does not return it.
pub claim_batch-claims :
    (limit now : ℕ) (q : Queue)
    → (length (claim_batch limit now q).0 ≤ limit)
      × All (IsDue now q) (claim_batch limit now q).0
      × All
          (λ x.
            is_pending x.status ≡ true
            → x.next_attempt_at ≤ now
            → Taken limit (claim_batch limit now q).0 x)
          q.items
      × All
          (λ x. is_pending x.status ≡ false)
          (keep (λ x. is_among (claim_batch limit now q).0 x.id) (claim_batch limit now q).1.items)
unfolding claim_batch selected
claim_batch-claims limit now q =
    let sorted = order_by_created_at (keep (claimable now) q.items) in
    (
      omega (arith, uploading-length (take limit sorted), length-take-le limit sorted),
      All-of_map _ (IsDue now q) set_uploading (λ x. due_item now x q.items) (take limit sorted)
          (All-selected _ limit now q.items (rows-Due now q.items)),
      rows_kept _ now q.items (
          order-All _ _ (
            All-map _ _ (uploading-Taken limit (take limit sorted)) sorted
              (take-Taken limit sorted (order-Ordered (keep (claimable now) q.items))))),
      none_pending (take limit sorted) q.items,
    )
