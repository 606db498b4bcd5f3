-- ===== src/Rules/Writes.antt =====
-- The writes of `SyncYAML`, one at a time and in its loop.
use marchi.Prelude.{
  Some, All-map, ℕ, suc, ◌<◌, String, ◌≡◌, ◌≢◌, refl, sym, subst, ap, ◌∙◌, inl, inr, Bool, true,
  Option, none, some, List, [], ◌∷◌, ◌++◌, arith, All, Bool-cases, Option-cases, ◌==◌, eq_iff,
  ==_iff,
}
use marchi.Rules.Node.{Rule}
use marchi.Rules.Table.{Table, create, update, update_row, update_rows, has_id, order}
use marchi.Rules.Keys.{SameRow, IsTable}
use marchi.Rules.Priority.{All-order}
use marchi.Rules.Yaml.{YamlError, by_name, write_one, sync_rules}

abbrev pub IsRow : Rule → List Rule → Type 0
IsRow x rows = Some (λ y. y ≡ x) rows

-- The row that the listing gives for a name has that name and stands in the listing.
pub by_name-holds :
    (P : Rule → Type 0) (name : String) (rows : List Rule) (cur : Rule)
    → All P rows
    → by_name name rows ≡ some cur
    → P cur × (cur.name ≡ name)
unfolding by_name
by_name-holds P name [] cur h e = cc
by_name-holds P name (x ∷ rows) cur h e = elim (Option-cases (by_name name rows)) [
  | inl q ↦ ground (arith, eq_iff x.name name, h.0)
  | inr (y, q) ↦ by_name-holds P name rows cur h.1 (q ∙ ground arith)
]

-- Rows of the listing with the id of `x` have its name.
abbrev pub IsBound : List Rule → Rule → Type 0
IsBound existing x = All (λ z. z.id ≡ x.id → z.name ≡ x.name) existing

pub bound_at : (P : Rule → Type 0) (x : Rule) (rows : List Rule) → All P rows → IsRow x rows → P x
bound_at P x [] h row = absurd row
bound_at P x (y ∷ rows) h (inl e) = subst P e h.0
bound_at P x (y ∷ rows) h (inr row) = bound_at P x rows h.1 row

pub rows-IsBound : (t : Table) → IsTable t → All (λ x. IsBound (order t.rows) x) t.rows
rows-IsBound t h =
    All-map _ _
      (λ x k.
        All-order _ t.rows
          (All-map (SameRow x) _ (λ z same e. ap (λ (y : Rule). y.name) (same e)) t.rows k.1))
      t.rows h

row_stays :
    (P : Rule → Type 0) (r : Rule) (rows : List Rule)
    → ((y : Rule) → P y → y.id ≢ r.id)
    → Some P rows
    → Some P (update_rows r rows)
unfolding update_rows
row_stays P r [] ne h = h
row_stays P r (y ∷ rows) ne (inl p) =
    inl (let e : update_row r y ≡ y = ground (arith, ne y p) in rw e p)
row_stays P r (y ∷ rows) ne (inr h) = inr (row_stays P r rows ne h)

row_appended : (P : Rule → Type 0) (rows more : List Rule) → Some P rows → Some P (rows ++ more)
row_appended P [] more h = absurd h
row_appended P (y ∷ rows) more (inl p) = inl p
row_appended P (y ∷ rows) more (inr h) = inr (row_appended P rows more h)

last_row : (P : Rule → Type 0) (rows : List Rule) (y : Rule) → P y → Some P (rows ++ y ∷ [])
last_row P [] y p = inl p
last_row P (x ∷ rows) y p = inr (last_row P rows y p)

-- One write of the loop: it fails and changes nothing, or it creates a row, or it updates one.
pub data Wrote (existing : List Rule) (r : Rule) (t : Table)
    : Option YamlError → Table → Type 0 where
  kept : (e : YamlError) → Wrote existing r t (some e) t
  created : by_name r.name existing ≡ none → Wrote existing r t none (create r t)
  updated :
      (cur : Rule) (u : Table)
      → by_name r.name existing ≡ some cur
      → has_id cur.id t.rows ≡ true
      → u ≡ record t { rows = update_rows (record r { id = cur.id }) t.rows }
      → Wrote existing r t none u

module _ (fails : ℕ → Bool) where
  pub wrote :
      (k : ℕ) (existing : List Rule) (r : Rule) (t : Table)
      → (o : Option Rule) → by_name r.name existing ≡ o
      → Wrote existing r t (write_one fails k o r t).0 (write_one fails k o r t).1
  unfolding update
  wrote k existing r t none q = elim (Bool-cases (fails k)) [
    | inl e ↦ rw e (kept _)
    | inr e ↦ rw e (created q)
  ]
  wrote k existing r t (some cur) q = elim (Bool-cases (fails k)) [
    | inl e ↦ rw e (kept _)
    | inr e ↦ elim (Bool-cases (has_id cur.id t.rows)) [
      | inl there ↦ rw (e, there, update) (updated cur _ q there refl)
      | inr gone ↦ rw (e, gone, update) (kept _)
    ]
  ]

  -- What one write keeps, whatever its outcome, the loop keeps.
  pub sync_keeps :
      (Q : Rule → Type 0) (P : Table → Type 0) (existing : List Rule)
      → ((r : Rule) (t : Table) (o : Option YamlError) (u : Table)
          → Q r
          → Wrote existing r t o u
          → P t
          → P u)
      → (k : ℕ) (rules : List Rule) (t : Table) → All Q rules
      → P t
      → P (sync_rules fails k existing rules t).1
  unfolding sync_rules
  sync_keeps Q P existing step k [] t q p = p
  sync_keeps Q P existing step k (r ∷ rules) t q p =
      let w = write_one fails k (by_name r.name existing) r t in
      let p' : P w.1 = step r t w.0 w.1 q.0 (wrote k existing r t _ refl) p in
      elim (Option-cases w.0) [
        | inl e ↦ rw (e, sync_rules) (sync_keeps Q P existing step (suc k) rules w.1 q.1 p')
        | inr (x, e) ↦ rw (e, sync_rules) p'
      ]

-- A write leaves the rows whose name is not the written one's.
pub one_write_keeps :
    (P : Rule → Type 0) (existing : List Rule) (r : Rule) (t : Table) (o : Option YamlError)
    (u : Table)
    → ((y : Rule) → P y → IsBound existing y × (r.name ≢ y.name))
    → Wrote existing r t o u
    → Some P t.rows
    → Some P u.rows
unfolding create
one_write_keeps P existing r t o u other (kept e) h = h
one_write_keeps P existing r t o u other (created q) h = row_appended P t.rows _ h
one_write_keeps P existing r t o u other (updated cur v q there e) h = rw e (
    row_stays P (record r { id = cur.id }) t.rows
      (λ y p ids.
        let (b, same) = by_name-holds _ r.name existing cur (other y p).0 q in
        (other y p).1 (sym same ∙ b (sym ids)))
      h)

-- The columns that the file sets.
abbrev pub Carries : Rule → Rule → Type 0
Carries r y =
    (y.name ≡ r.name)
    × (y.priority ≡ r.priority)
    × (y.conditions ≡ r.conditions)
    × (y.action ≡ r.action)
    × (y.is_active ≡ r.is_active)

abbrev pub Settled : List Rule → Rule → Rule → Type 0
Settled existing r y = Carries r y × IsBound existing y

abbrev pub IsFresh : List Rule → Table → Type 0
IsFresh existing t = All (λ z. z.id < t.next_id) existing

update_settles :
    (existing : List Rule) (r cur : Rule) (rows : List Rule)
    → has_id cur.id rows ≡ true
    → cur.name ≡ r.name
    → IsBound existing cur
    → Some (Settled existing r) (update_rows (record r { id = cur.id }) rows)
unfolding has_id update_rows
update_settles existing r cur [] there same bound = cc
update_settles existing r cur (y ∷ rows) there same bound = elim (Bool-cases (y.id == cur.id)) [
  | inl e ↦ inl (
      rw e (
        (refl, refl, refl, refl, refl),
        All-map _ _ (λ z b ids. b (ids ∙ (==_iff y.id cur.id).0 e) ∙ same) existing bound,
      ))
  | inr e ↦ inr (update_settles existing r cur rows (ground arith) same bound)
]

pub write_settles :
    (existing : List Rule) (r : Rule) (t u : Table) (o : Option YamlError)
    → All (IsBound existing) existing
    → IsFresh existing t
    → o ≡ none
    → Wrote existing r t o u
    → Some (Settled existing r) u.rows × IsFresh existing u
unfolding create
write_settles existing r t u o keyed fresh e (kept x) = cc
write_settles existing r t u o keyed fresh e (created q) = (
  last_row _ t.rows _ (
    (refl, refl, refl, refl, refl),
    All-map _ _ (λ z lt ids. absurd (omega arith)) existing fresh,
  ),
  All-map _ _ (λ z lt. omega arith) existing fresh,
)
write_settles existing r t u o keyed fresh e (updated cur v q there same) =
    let (bound, name) = by_name-holds _ r.name existing cur keyed q in
    (rw same (update_settles existing r cur t.rows there name bound), rw same fresh)
