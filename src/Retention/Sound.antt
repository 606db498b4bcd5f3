-- ===== src/Retention/Sound.antt =====
-- What makes the emails table an archive: each row's message is still stored where the row says.
use marchi.Prelude.{
  ℕ, some, keep, All-map, All-keep, All-of_map, map, ap, ◌==◌, String, Bool, true, false, ◌&&◌, not,
  ◌≡◌, List, [], ◌∷◌, arith, if◌then◌else◌, str_eq, eq_iff, inl, inr, All, Bool-cases,
}
use marchi.Retention.Table.{Email, s3, moved, is_local, is_set}
use marchi.Retention.Runner.{State, without}

abbrev pub has : String → List String → Bool
has p [] = false
has p (q ∷ qs) = if str_eq q p then true else has p qs

pub has-without :
    (p q : String) (xs : List String) → has p (without q xs) ≡ (has p xs && not (str_eq p q))
has-without p q [] = ground arith
has-without p q (x ∷ xs) = elim (Bool-cases (str_eq x q)) [
  | inl e ↦ ground (arith, has-without p q xs, eq_iff x q, eq_iff x p, eq_iff p q)
  | inr e ↦ ground (arith, has-without p q xs, eq_iff x q, eq_iff x p, eq_iff p q)
]

-- A local row's file is there; a moved row's object is there, and so is that of every row whose
-- upload was confirmed.
pub record Sound (files objects : List String) (r : Email) : Type 0 where
  pub on_disk : is_local r.location ≡ true → has r.local_path files ≡ true
  pub in_bucket : is_local r.location ≡ false → has r.s3_key objects ≡ true
  pub mirrored : is_set r.s3_etag ≡ true → has r.s3_key objects ≡ true

-- `r` shares neither its id, nor its file, nor its object with another row `e`.
pub record Apart (e r : Email) : Type 0 where
  pub same_row : r.id ≡ e.id → r ≡ e
  pub same_file :
      is_local e.location ≡ true
      → is_local r.location ≡ true
      → r.local_path ≡ e.local_path
      → r.id ≡ e.id
  pub same_object : str_eq e.s3_key "" ≡ false → r.s3_key ≡ e.s3_key → r.id ≡ e.id

abbrev pub Distinct : List Email → Type 0
Distinct emails = All (λ e. All (Apart e) emails) emails

abbrev pub IsArchive : State → Type 0
IsArchive s = Distinct s.emails × All (Sound s.files s.objects) s.emails

abbrev moved_to : ℕ → Email → Email
moved_to t r = record r { location = s3; local_path = ""; s3_only_since = some t }

Apart-moved : (id t : ℕ) (e r : Email) → Apart e r → Apart (moved id t e) (moved id t r)
Apart-moved id t e r h = elim (Bool-cases (e.id == id)) [
  | inl i ↦ elim (Bool-cases (r.id == id)) [
    | inl j ↦
        rw (i, j)
          (record {
            same_row = λ q. ap (moved_to t) (h.same_row q);
            same_file = λ l. absurd cc;
            same_object = h.same_object;
          })
    | inr j ↦
        rw (i, j)
          (record {
            same_row = λ q. absurd (ground arith);
            same_file = λ l. absurd cc;
            same_object = h.same_object;
          })
  ]
  | inr i ↦ elim (Bool-cases (r.id == id)) [
    | inl j ↦
        rw (i, j)
          (record {
            same_row = λ q. absurd (ground arith);
            same_file = λ l k. absurd cc;
            same_object = h.same_object;
          })
    | inr j ↦ rw (i, j) h
  ]
]

pub Distinct-moved : (id t : ℕ) (xs : List Email) → Distinct xs → Distinct (map (moved id t) xs)
Distinct-moved id t xs h =
    All-of_map (λ e. All (Apart e) xs) (λ e. All (Apart e) (map (moved id t) xs)) (moved id t)
      (λ e g. All-of_map (Apart e) (Apart (moved id t e)) (moved id t) (Apart-moved id t e) xs g) xs
      h

pub Distinct-keep : (p : Email → Bool) (xs : List Email) → Distinct xs → Distinct (keep p xs)
Distinct-keep p xs h =
    All-keep (λ e. All (Apart e) (keep p xs)) p xs
      (All-map (λ e. All (Apart e) xs) (λ e. All (Apart e) (keep p xs))
        (λ e. All-keep (Apart e) p xs) xs h)
