-- ===== src/Sync/Removed.antt =====
-- The messages that are gone from the mailbox, and those flagged \Deleted, behind an action on the
-- server: `applyPostArchiveRuleAction` of internal/sync/fetch.go.
use marchi.Prelude.{
  ℕ, ◌≡◌, ◌⊎◌, inl, inr, Bool, false, List, [], ◌∷◌, ◌++◌, keep, Bool-cases, Some, subst,
}
use marchi.Sync.Fetch.{Fetch}

abbrev pub Has : ℕ → List ℕ → Type 0
Has u xs = Some (λ v. v ≡ u) xs

-- What is deleted or flagged behind a message is so before it, or is the message itself, which has a
-- copy then; or EXPUNGE has taken what was flagged before, where the server has no UID EXPUNGE.
abbrev pub Removed : Bool → ℕ → Type 0 → Fetch → Fetch → Type 0
Removed uid_plus uid Copy f f' =
    (u : ℕ)
    → (Has u f'.deleted
        → Has u f.deleted ⊎ (((u ≡ uid) × Copy) ⊎ ((uid_plus ≡ false) × Has u f.flagged)))
      × (Has u f'.flagged → Has u f.flagged ⊎ ((u ≡ uid) × Copy))

pub Removed-map :
    {Copy Copy' : Type 0} (uid_plus : Bool) (uid : ℕ) (f f' : Fetch)
    → (Copy → Copy')
    → Removed uid_plus uid Copy f f'
    → Removed uid_plus uid Copy' f f'
Removed-map uid_plus uid f f' g h u = (
  λ d. elim ((h u).0 d) [
    | inl old ↦ inl old
    | inr e ↦ inr (elim e [ inl (q, c) ↦ inl (q, g c) | inr flag ↦ inr flag ])
  ],
  λ d. elim ((h u).1 d) [ inl old ↦ inl old | inr (q, c) ↦ inr (q, g c) ],
)

pub Removed-same :
    {Copy : Type 0} (uid_plus : Bool) (uid : ℕ) (f f' : Fetch)
    → f'.deleted ≡ f.deleted
    → f'.flagged ≡ f.flagged
    → Removed uid_plus uid Copy f f'
Removed-same uid_plus uid f f' a b u = (λ d. inl (subst (Has u) a d), λ d. inl (subst (Has u) b d))

pub Has-of_keep : (p : ℕ → Bool) (u : ℕ) (xs : List ℕ) → Has u (keep p xs) → Has u xs
Has-of_keep p u [] h = h
Has-of_keep p u (x ∷ xs) h = elim (Bool-cases (p x)) [
  | inl e ↦
      let k : (x ≡ u) ⊎ Has u (keep p xs) = rw e at h in
      elim k [ inl q ↦ inl q | inr later ↦ inr (Has-of_keep p u xs later) ]
  | inr e ↦ inr (Has-of_keep p u xs (rw e at h))
]

pub Has-of_append : (u : ℕ) (xs ys : List ℕ) → Has u (xs ++ ys) → Has u xs ⊎ Has u ys
Has-of_append u [] ys h = inr h
Has-of_append u (x ∷ xs) ys (inl q) = inl (inl q)
Has-of_append u (x ∷ xs) ys (inr h) = elim (Has-of_append u xs ys h) [
  | inl k ↦ inl (inr k)
  | inr k ↦ inr k
]
