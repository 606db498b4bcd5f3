-- ===== src/Rules/Keys.antt =====
-- The primary key of the rules table under the writes of internal/db/repo/rules.go.
use marchi.Prelude.{
  Option, none, some, Option-cases, ◌⊎◌, ℕ, ◌≡◌, refl, some, List, [], ◌∷◌, arith, Bool-cases, inl,
  inr, leb,
}
use marchi.Prelude.Keyed.{Same, IsKeyed, IsKeyed-map, IsKeyed-keep, IsKeyed-append}
use marchi.Rules.Node.{Rule}
use marchi.Rules.Table.{
  Table, create, update, update_row, update_rows, delete, delete_rows, count_row, add_matches,
  record_matches,
}

abbrev pub SameRow : Rule → Rule → Type 0
SameRow = Same (λ x. x.id)

abbrev pub IsTable : Table → Type 0
IsTable t = IsKeyed (λ x. x.id) t.next_id t.rows

pub create-IsTable : (t : Table) (r : Rule) → IsTable t → IsTable (create r t)
unfolding create
create-IsTable t r h =
    IsKeyed-append (λ x. x.id) t.next_id t.rows (record r { id = t.next_id; match_count = 0 }) refl
      h

update_row-id : (r x : Rule) → (update_row r x).id ≡ x.id
update_row-id r x = ground arith

count_row-id : (i n : ℕ) (x : Rule) → (count_row i n x).id ≡ x.id
count_row-id i n x = ground arith

pub update_lem :
    (r : Rule) (t t' : Table) → update r t ≡ some t' → t' ≡ record t { rows = update_rows r t.rows }
unfolding update
update_lem r t t' e = ground arith

delete_lem :
    (i : ℕ) (t t' : Table) → delete i t ≡ some t' → t' ≡ record t { rows = delete_rows i t.rows }
unfolding delete
delete_lem i t t' e = ground arith

pub update-IsTable : (r : Rule) (t t' : Table) → IsTable t → update r t ≡ some t' → IsTable t'
unfolding update_rows
update-IsTable r t t' h e =
    rw (update_lem r t t' e)
      (IsKeyed-map (λ x. x.id) t.next_id t.rows (update_row r) (update_row-id r) h)

delete-IsTable : (i : ℕ) (t t' : Table) → IsTable t → delete i t ≡ some t' → IsTable t'
unfolding delete_rows
delete-IsTable i t t' h e = rw (delete_lem i t t' e) (IsKeyed-keep (λ x. x.id) t.next_id t.rows _ h)

record_matches-IsTable :
    (counts : List (ℕ × ℕ)) (t : Table) → IsTable t → IsTable (record_matches counts t)
unfolding record_matches add_matches
record_matches-IsTable [] t h = h
record_matches-IsTable ((i, n) ∷ counts) t h = elim (Bool-cases (leb n 0)) [
  | inl e ↦ rw (e, record_matches) (record_matches-IsTable counts t h)
  | inr e ↦
      rw (e, record_matches)
        (record_matches-IsTable counts (record t { rows = add_matches i n t.rows })
          (IsKeyed-map (λ x. x.id) t.next_id t.rows (count_row i n) (count_row-id i n) h))
]

-- What a write that refuses a missing row leaves: no table, or one with its key.
abbrev Keyed : Option Table → Type 0
Keyed o = (o ≡ none) ⊎ ((t' : Table) × (o ≡ some t') × IsTable t')

-- Every write of the repository keeps the table's key: `Create`, an `Update` or a `Delete` that
-- finds its row, and `RecordMatches`.
writes-IsTable :
    (t : Table) (r : Rule) (i : ℕ) (counts : List (ℕ × ℕ))
    → IsTable t
    → IsTable (create r t)
      × Keyed (update r t)
      × Keyed (delete i t)
      × IsTable (record_matches counts t)
writes-IsTable t r i counts h = (
  create-IsTable t r h,
  elim (Option-cases (update r t)) [
    | inl e ↦ inl e
    | inr (t', e) ↦ inr (t', e, update-IsTable r t t' h e)
  ],
  elim (Option-cases (delete i t)) [
    | inl e ↦ inl e
    | inr (t', e) ↦ inr (t', e, delete-IsTable i t t' h e)
  ],
  record_matches-IsTable counts t h,
)
