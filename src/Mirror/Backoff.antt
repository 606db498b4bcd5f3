-- ===== src/Mirror/Backoff.antt =====
-- The delays between attempts: `backoff` of internal/s3store/uploader.go.
use marchi.Prelude.{ℕ, suc, ◌*◌, ◌^◌, ◌≡◌, refl, ap, sym, ◌∙◌, arith, if◌then◌else◌, ltb, min}
use marchi.Mirror.Uploader.{backoff, max_backoff}

capped : ℕ → ℕ
capped d = if ltb max_backoff d then max_backoff else d

capped_double : (d : ℕ) → capped (2 * d) ≡ min (2 * capped d) max_backoff
unfolding capped
capped_double d = ground arith

backoff-capped : (n : ℕ) → backoff (suc n) ≡ capped (2 * 2 ^ n)
unfolding backoff capped
backoff-capped n =
    ap (λ k. if ltb max_backoff (2 * 2 ^ k) then max_backoff else 2 * 2 ^ k) (omega arith)

-- The first delay is two seconds, each later one is twice the delay before it until that would be
-- more than an hour, and then it is an hour.
backoff-doubles :
    (n : ℕ) → (backoff 1 ≡ 2) × (backoff (suc (suc n)) ≡ min (2 * backoff (suc n)) max_backoff)
unfolding backoff
backoff-doubles n = (
  refl,
  backoff-capped (suc n)
      ∙ ap capped (omega arith)
      ∙ capped_double (2 * 2 ^ n)
      ∙ ap (λ d. min (2 * d) max_backoff) (sym (backoff-capped n)),
)
