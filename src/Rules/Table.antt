-- ===== src/Rules/Table.antt =====
-- The rules table and its repository: internal/db/repo/rules.go. A row is a `Rule`; the table
-- keeps the next AUTOINCREMENT id. The JSON text of a tree is held as the tree.
use marchi.Prelude.{
  ℕ, suc, ◌+◌, Bool, true, false, ◌&&◌, Option, none, some, List, [], ◌∷◌, ◌++◌, leb, ◌==◌, not,
  map, if◌then◌else◌, keep,
}
use marchi.Prelude.Int.{ltb_ℤ, eqb_ℤ}
use marchi.Rules.Node.{Rule}

pub record Table : Type 0 where
  pub rows : List Rule
  pub next_id : ℕ

-- INSERT INTO rules
unfoldable pub create : Rule → Table → Table
create r t = record {
  rows = t.rows ++ record r { id = t.next_id; match_count = 0 } ∷ [];
  next_id = suc t.next_id;
}

-- SET name, priority, conditions_json, action, is_active
abbrev pub assign : Rule → Rule → Rule
assign r x = record x {
  name = r.name;
  priority = r.priority;
  conditions = r.conditions;
  action = r.action;
  is_active = r.is_active;
}

abbrev pub update_row : Rule → Rule → Rule
update_row r x = if x.id == r.id then assign r x else x

unfoldable pub update_rows : Rule → List Rule → List Rule
update_rows r = map (update_row r)

unfoldable pub has_id : ℕ → List Rule → Bool
has_id i [] = false
has_id i (x ∷ rows) = if x.id == i then true else has_id i rows

-- `none` is sql.ErrNoRows.
unfoldable pub update : Rule → Table → Option Table
update r t = if has_id r.id t.rows then some (record t { rows = update_rows r t.rows }) else none

unfoldable pub delete_rows : ℕ → List Rule → List Rule
delete_rows i = keep (λ x. not (x.id == i))

unfoldable pub delete : ℕ → Table → Option Table
delete i t = if has_id i t.rows then some (record t { rows = delete_rows i t.rows }) else none

abbrev pub count_row : ℕ → ℕ → Rule → Rule
count_row i n x = if x.id == i then record x { match_count = x.match_count + n } else x

unfoldable pub add_matches : ℕ → ℕ → List Rule → List Rule
add_matches i n = map (count_row i n)

-- The counts of one sync run, in the order in which the map is ranged over.
unfoldable pub record_matches : List (ℕ × ℕ) → Table → Table
record_matches [] t = t
record_matches ((i, n) ∷ counts) t =
    record_matches counts (if leb n 0 then t else record t { rows = add_matches i n t.rows })

-- ORDER BY priority ASC, id ASC
abbrev pub before : Rule → Rule → Bool
before x y =
    if ltb_ℤ x.priority y.priority then true else eqb_ℤ x.priority y.priority && leb x.id y.id

unfoldable pub insert : Rule → List Rule → List Rule
insert x [] = x ∷ []
insert x (y ∷ rows) = let rest = insert x rows in if before x y then x ∷ y ∷ rows else y ∷ rest

unfoldable pub order : List Rule → List Rule
order [] = []
order (x ∷ rows) = insert x (order rows)

unfoldable pub list : Table → List Rule
list t = order t.rows

unfoldable pub list_active : Table → List Rule
list_active t = order (keep (λ r. r.is_active) t.rows)

unfoldable pub get_by_id : ℕ → List Rule → Option Rule
get_by_id i [] = none
get_by_id i (x ∷ rows) = if x.id == i then some x else get_by_id i rows
