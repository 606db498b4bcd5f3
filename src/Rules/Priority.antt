-- ===== src/Rules/Priority.antt =====
-- The order of `ListActive`, and what `FirstMatch` picks from it.
use marchi.Prelude.{
  Option-cases, Some, All-map, ◌≡◌, refl, ◌⊎◌, inl, inr, Bool, true, false, Option, none, some,
  List, [], ◌∷◌, ◌++◌, arith, All, keep, Bool-cases, ◌∙◌,
}
use marchi.Rules.Node.{Rule, Candidate}
use marchi.Rules.Parse.{GoLib}
use marchi.Rules.Evaluate.{evaluate, first_match}
use marchi.Rules.Table.{Table, before, insert, order, list_active}
use marchi.Rules.Chosen.{Passes, chosen→first, none-first_match}

abbrev pub Precedes : Rule → Rule → Type 0
Precedes x y = before x y ≡ true

abbrev Ordered : List Rule → Type 0
Ordered [] = Unit
Ordered (x ∷ xs) = All (Precedes x) xs × Ordered xs

before_total : (x y : Rule) → before x y ≡ false → Precedes y x
before_total x y h = ground arith

before_trans : (x y z : Rule) → Precedes x y → Precedes y z → Precedes x z
before_trans x y z p q = ground arith

before_refl : (x : Rule) → Precedes x x
before_refl x = ground arith

module _ (P : Rule → Type 0) where
  pub All-insert : (x : Rule) (rows : List Rule) → P x → All P rows → All P (insert x rows)
  unfolding insert
  All-insert x [] px h = (px, tt)
  All-insert x (y ∷ rows) px h = elim (Bool-cases (before x y)) [
    | inl e ↦ rw e (px, h)
    | inr e ↦ rw e (h.0, All-insert x rows px h.1)
  ]

  of_insert : (x : Rule) (rows : List Rule) → All P (insert x rows) → P x × All P rows
  unfolding insert
  of_insert x [] h = h
  of_insert x (y ∷ rows) h = elim (Bool-cases (before x y)) [
    | inl e ↦ rw e at h
    | inr e ↦
        let h' : P y × All P (insert x rows) = rw e at h in
        let (px, rest) = of_insert x rows h'.1 in (px, (h'.0, rest))
  ]

  of_order : (rows : List Rule) → All P (order rows) → All P rows
  unfolding order
  of_order [] h = tt
  of_order (x ∷ rows) h = let (px, rest) = of_insert x (order rows) h in (px, of_order rows rest)

  pub All-order : (rows : List Rule) → All P rows → All P (order rows)
  unfolding order
  All-order [] h = tt
  All-order (x ∷ rows) h = All-insert x (order rows) h.0 (All-order rows h.1)

module _ (Q : Rule → Type 0) where
  Some-of_insert : (x : Rule) (rows : List Rule) → Some Q (insert x rows) → Q x ⊎ Some Q rows
  unfolding insert
  Some-of_insert x [] h = h
  Some-of_insert x (y ∷ rows) h = elim (Bool-cases (before x y)) [
    | inl e ↦ rw e at h
    | inr e ↦
        let h' : Q y ⊎ Some Q (insert x rows) = rw e at h in
        elim h' [
          | inl q ↦ inr (inl q)
          | inr s ↦ elim (Some-of_insert x rows s) [ inl q ↦ inl q | inr s' ↦ inr (inr s') ]
        ]
  ]

  Some-of_order : (rows : List Rule) → Some Q (order rows) → Some Q rows
  unfolding order
  Some-of_order [] h = h
  Some-of_order (x ∷ rows) h = elim (Some-of_insert x (order rows) h) [
    | inl q ↦ inl q
    | inr s ↦ inr (Some-of_order rows s)
  ]

  Some-of_keep :
      (p : Rule → Bool) (rows : List Rule)
      → Some Q (keep p rows)
      → Some (λ x. (p x ≡ true) × Q x) rows
  Some-of_keep p [] h = h
  Some-of_keep p (x ∷ rows) h = elim (Bool-cases (p x)) [
    | inl e ↦
        let h' : Q x ⊎ Some Q (keep p rows) = rw e at h in
        elim h' [ inl q ↦ inl (e, q) | inr s ↦ inr (Some-of_keep p rows s) ]
    | inr e ↦ inr (Some-of_keep p rows (rw e at h))
  ]

here_it_is : (pre after : List Rule) (r : Rule) → Some (λ x. x ≡ r) (pre ++ r ∷ after)
here_it_is [] after r = inl refl
here_it_is (x ∷ pre) after r = inr (here_it_is pre after r)

insert-Ordered : (x : Rule) (rows : List Rule) → Ordered rows → Ordered (insert x rows)
unfolding insert
insert-Ordered x [] o = (tt, tt)
insert-Ordered x (y ∷ rows) o = elim (Bool-cases (before x y)) [
  | inl e ↦ rw e ((e, All-map (Precedes y) (Precedes x) (λ z. before_trans x y z e) rows o.0), o)
  | inr e ↦
      rw e (All-insert (Precedes y) x rows (before_total x y e) o.0, insert-Ordered x rows o.1)
]

order-Ordered : (rows : List Rule) → Ordered (order rows)
unfolding order
order-Ordered [] = tt
order-Ordered (x ∷ rows) = insert-Ordered x (order rows) (order-Ordered rows)

of_keep :
    {A : Type 0} (p : A → Bool) (Q : A → Type 0) (xs : List A)
    → All Q (keep p xs)
    → All (λ x. p x ≡ true → Q x) xs
of_keep p Q [] h = tt
of_keep p Q (x ∷ xs) h = elim (Bool-cases (p x)) [
  | inl e ↦ let h' : Q x × All Q (keep p xs) = rw e at h in (λ _. h'.0, of_keep p Q xs h'.1)
  | inr e ↦ let h' : All Q (keep p xs) = rw e at h in (λ q. cc, of_keep p Q xs h')
]

module _ (lib : GoLib) (c : Candidate) where
  -- In an ordered list every rule that matches comes no earlier than the first.
  first-Precedes :
      (pre after : List Rule) (r : Rule)
      → Ordered (pre ++ r ∷ after)
      → All (Passes lib c) pre
      → All (λ x. evaluate lib x.conditions c ≡ true → Precedes r x) (pre ++ r ∷ after)
  first-Precedes [] after r o passed =
      (λ _. before_refl r, All-map (Precedes r) _ (λ x p _. p) after o.0)
  first-Precedes (x ∷ pre) after r o passed =
      (λ h. cc (passed.0), first-Precedes pre after r o.1 passed.1)

  abbrev pub IsBest : Table → Rule → Type 0
  IsBest t r =
      All (λ x. x.is_active ≡ true → evaluate lib x.conditions c ≡ true → Precedes r x) t.rows

abbrev pub IsActiveRow : Table → Rule → Type 0
IsActiveRow t r = Some (λ x. (x.is_active ≡ true) × (x ≡ r)) t.rows

active_chosen :
    (lib : GoLib) (t : Table) (c : Candidate) (o : Option Rule)
    → first_match lib (list_active t) c ≡ o
    → ((r : Rule)
        → o ≡ some r
        → IsActiveRow t r × (evaluate lib r.conditions c ≡ true) × IsBest lib c t r)
      × (o ≡ none → All (λ x. x.is_active ≡ true → Passes lib c x) t.rows)
unfolding list_active
active_chosen lib t c o h = (
  λ r e.
      let rows : List Rule = keep (λ x. x.is_active) t.rows in
      let (pre, after, split, passed, here) = chosen→first lib c (order rows) r (h ∙ e) in
      (
        Some-of_keep _ (λ x. x.is_active) t.rows
            (Some-of_order _ rows (rw split (here_it_is pre after r))),
        here,
        of_keep (λ x. x.is_active) _ t.rows
            (of_order _ rows (
              rw split
                (first-Precedes lib c pre after r (rw split at (order-Ordered rows)) passed))),
      ),
  λ e. of_keep _ _ t.rows (of_order _ _ ((none-first_match lib c _).0 (h ∙ e))),
)

-- `FirstMatch` on `ListActive` returns nil where no active row's tree matches. Otherwise it returns
-- an active row of the table whose tree matches; of all such rows it takes one with the lowest
-- priority, and of these the lowest id.
pub first_match-list_active :
    (lib : GoLib) (t : Table) (c : Candidate)
    → ((first_match lib (list_active t) c ≡ none)
        × All (λ x. x.is_active ≡ true → Passes lib c x) t.rows)
      ⊎ ((r : Rule) × (first_match lib (list_active t) c ≡ some r)
          × IsActiveRow t r
          × (evaluate lib r.conditions c ≡ true)
          × IsBest lib c t r)
first_match-list_active lib t c = elim (Option-cases (first_match lib (list_active t) c)) [
  | inl e ↦ inl (e, (active_chosen lib t c _ refl).1 e)
  | inr (r, e) ↦
      let (active, holds, best) = (active_chosen lib t c _ refl).0 r e in
      inr (r, e, active, holds, best)
]
