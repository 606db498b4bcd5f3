-- ===== src/Prelude/Keyed.antt =====
-- Tables with an AUTOINCREMENT key: the ids of the rows lie below the next id, and a row is known
-- by its id.
use marchi.Prelude.{
  ℕ, suc, ◌<◌, ◌≡◌, refl, ap, sym, ◌∙◌, Bool, List, [], ◌∷◌, ◌++◌, map, keep, arith, All, All-map,
  All-of_map, All-keep, All-append,
}

module _ {A : Type 0} (id : A → ℕ) where
  abbrev pub Same : A → A → Type 0
  Same x z = id z ≡ id x → z ≡ x

  abbrev pub IsKeyed : ℕ → List A → Type 0
  IsKeyed bound rows = All (λ x. (id x < bound) × All (Same x) rows) rows

  -- A change of rows that keeps their ids keeps the key.
  pub IsKeyed-map :
      (bound : ℕ) (rows : List A) (f : A → A)
      → ((x : A) → id (f x) ≡ id x)
      → IsKeyed bound rows
      → IsKeyed bound (map f rows)
  IsKeyed-map bound rows f same =
      All-of_map _ _ f
        (λ x h. (
          rw (same x) h.0,
          All-of_map (Same x) (Same (f x)) f (λ z p e. ap f (p (sym (same z) ∙ e ∙ same x))) rows
              h.1,
        ))
        rows

  pub IsKeyed-keep :
      (bound : ℕ) (rows : List A) (p : A → Bool) → IsKeyed bound rows → IsKeyed bound (keep p rows)
  IsKeyed-keep bound rows p h =
      All-keep _ p rows (All-map _ _ (λ x k. (k.0, All-keep (Same x) p rows k.1)) rows h)

  -- A new row under the next id.
  pub IsKeyed-append :
      (bound : ℕ) (rows : List A) (new : A)
      → id new ≡ bound
      → IsKeyed bound rows
      → IsKeyed (suc bound) (rows ++ new ∷ [])
  IsKeyed-append bound rows new e h =
      All-append _ rows (new ∷ [])
        (All-map _ _
          (λ x k.
            (omega arith, All-append (Same x) rows (new ∷ []) k.1 (λ q. absurd (omega arith), tt)))
          rows h)
        (
          (
            omega arith,
            All-append (Same new) rows (new ∷ [])
                (All-map _ _ (λ z k q. absurd (omega arith)) rows h) (λ q. refl, tt),
          ),
          tt,
        )
