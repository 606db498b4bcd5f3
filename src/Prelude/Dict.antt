-- ===== src/Prelude/Dict.antt =====
-- A Go map with string keys, as the function from keys to values that it stands for. No code
-- modelled here ranges over one.
use marchi.Prelude.{String, ◌≡◌, refl, Option, none, some, if◌then◌else◌, str_eq}

abbrev pub Dict {ℓ} : Type ℓ → Type ℓ
Dict V = String → Option V

module _ {ℓ} {V : Type ℓ} where
  unfoldable pub empty : Dict V
  empty k = none

  unfoldable pub lookup : String → Dict V → Option V
  lookup k m = m k

  unfoldable pub insert : String → V → Dict V → Dict V
  insert k v m j = if str_eq k j then some v else m j

  unfoldable pub remove : String → Dict V → Dict V
  remove k m j = if str_eq k j then none else m j

  pub lookup-empty : (k : String) → lookup k empty ≡ none
  unfolding lookup empty
  lookup-empty k = refl

  pub lookup-insert :
      (new k : String) (v : V) (m : Dict V)
      → lookup k (insert new v m) ≡ (if str_eq new k then some v else lookup k m)
  unfolding lookup insert
  lookup-insert new k v m = refl

  pub lookup-remove :
      (old k : String) (m : Dict V)
      → lookup k (remove old m) ≡ (if str_eq old k then none else lookup k m)
  unfolding lookup remove
  lookup-remove old k m = refl
