-- ===== src/Rules/YamlSync.antt =====
-- What `SyncYAML` does to the rules table.
use mathlib.Core.Path.{fun_ext}
use marchi.Prelude.{
  Some, All-map, ℕ, String, str_eq, not, Bool-cases, suc, ◌+◌, ◌<◌, ◌≡◌, ◌≢◌, refl, sym, subst, ap,
  ◌∙◌, inl, inr, Bool, true, false, Option, none, some, List, [], ◌∷◌, arith, All, Option-cases,
  length, length-append, keep,
}
use marchi.Rules.Node.{Rule}
use marchi.Rules.Evaluate.{any}
use marchi.Rules.Table.{Table, create, update_rows, order, insert, before, list}
use marchi.Rules.Keys.{IsTable}
use marchi.Rules.Priority.{All-order}
use marchi.Rules.Yaml.{YamlError, by_name, write_one, sync_rules, sync_yaml}
use marchi.Rules.Writes.{
  IsRow, IsBound, bound_at, rows-IsBound, Wrote, kept, created, updated, wrote, sync_keeps,
  one_write_keeps, Carries, Settled, IsFresh, write_settles,
}

Some-Carries :
    (existing : List Rule) (r : Rule) (rows : List Rule)
    → Some (Settled existing r) rows
    → Some (Carries r) rows
Some-Carries existing r [] h = h
Some-Carries existing r (y ∷ rows) (inl p) = inl p.0
Some-Carries existing r (y ∷ rows) (inr h) = inr (Some-Carries existing r rows h)

-- No row has the rule's name.
abbrev pub is_new : List Rule → Rule → Bool
is_new rows r = not (any (λ x. str_eq x.name r.name) rows)

named_any :
    (name : String) (rows : List Rule)
    → (by_name name rows ≡ none → any (λ x. str_eq x.name name) rows ≡ false)
      × ((y : Rule) → by_name name rows ≡ some y → any (λ x. str_eq x.name name) rows ≡ true)
unfolding by_name any
named_any name [] = (λ e. refl, λ y e. cc)
named_any name (x ∷ rows) = elim (Option-cases (by_name name rows)) [
  | inl e ↦ elim (Bool-cases (str_eq x.name name)) [
    | inl q ↦ (λ h. cc (rw (e, q) at h), λ y h. rw q refl)
    | inr q ↦ (λ h. rw q ((named_any name rows).0 e), λ y h. cc (rw (e, q) at h))
  ]
  | inr (z, e) ↦ (λ h. cc (rw e at h), λ y h. ground (arith, (named_any name rows).1 z e))
]

any-insert :
    (p : Rule → Bool) (x : Rule) (rows : List Rule) → any p (insert x rows) ≡ any p (x ∷ rows)
unfolding insert any
any-insert p x [] = refl
any-insert p x (y ∷ rows) = elim (Bool-cases (before x y)) [
  | inl e ↦ rw e refl
  | inr e ↦ rw e (ground (arith, any-insert p x rows))
]

any-order : (p : Rule → Bool) (rows : List Rule) → any p (order rows) ≡ any p rows
unfolding order any
any-order p [] = refl
any-order p (x ∷ rows) = ground (arith, any-insert p x (order rows), any-order p rows)

keep-same : (p q : Rule → Bool) (rs : List Rule) → ((r : Rule) → p r ≡ q r) → keep p rs ≡ keep q rs
keep-same p q rs h = ap (λ f. keep f rs) (fun_ext h)

length-update_rows : (r : Rule) (rows : List Rule) → length (update_rows r rows) ≡ length rows
unfolding update_rows
length-update_rows r [] = refl
length-update_rows r (x ∷ rows) = ap suc (length-update_rows r rows)

keep_new :
    (existing rules : List Rule) (r : Rule)
    → by_name r.name existing ≡ none
    → keep (is_new existing) (r ∷ rules) ≡ r ∷ keep (is_new existing) rules
keep_new existing rules r q = rw ((named_any r.name existing).0 q)

keep_old :
    (existing rules : List Rule) (r cur : Rule)
    → by_name r.name existing ≡ some cur
    → keep (is_new existing) (r ∷ rules) ≡ keep (is_new existing) rules
keep_old existing rules r cur q = rw ((named_any r.name existing).1 cur q)

one_count :
    (existing rules : List Rule) (r : Rule) (t u : Table) (o : Option YamlError) (n : ℕ)
    → o ≡ none
    → Wrote existing r t o u
    → n ≡ length u.rows + length (keep (is_new existing) rules)
    → n ≡ length t.rows + length (keep (is_new existing) (r ∷ rules))
unfolding create
one_count existing rules r t u o n e (kept x) h = cc
one_count existing rules r t u o n e (created q) h = omega (
  arith,
  length-append {0} t.rows (record r { id = t.next_id; match_count = 0 } ∷ []),
  ap length (keep_new existing rules r q),
)
one_count existing rules r t u o n e (updated cur v q there same) h = omega (
  arith,
  length-update_rows (record r { id = cur.id }) t.rows,
  ap length (keep_old existing rules r cur q),
  ap (λ (v : Table). length v.rows) same,
)

module _ (fails : ℕ → Bool) where
  -- `SyncYAML` deletes nothing and changes no rule that the file does not name: such a row is in
  -- the table afterwards as it was, whether the call succeeds or stops at an error.
  pub sync_yaml-keeps :
      (listed : Bool) (rules : List Rule) (t : Table) (x : Rule)
      → IsTable t
      → IsRow x t.rows
      → All (λ r. r.name ≢ x.name) rules
      → IsRow x (sync_yaml fails listed rules t).1.rows
  unfolding sync_yaml list
  sync_yaml-keeps false rules t x h row others = row
  sync_yaml-keeps true rules t x h row others =
      sync_keeps fails (λ r. r.name ≢ x.name) (λ u. IsRow x u.rows) (list t)
        (λ r u o v ne w.
          one_write_keeps (λ y. y ≡ x) (list t) r u o v
            (λ y e. rw e (bound_at (λ z. IsBound (list t) z) x t.rows (rows-IsBound t h) row, ne))
            w)
        0 rules t others row

  abbrev pub DistinctNames : List Rule → Type 0
  DistinctNames [] = Unit
  DistinctNames (r ∷ rules) = All (λ r'. r'.name ≢ r.name) rules × DistinctNames rules

  sync_step :
      (k : ℕ) (existing rules : List Rule) (r : Rule) (t : Table)
      → (write_one fails k (by_name r.name existing) r t).0 ≡ none
      → sync_rules fails k existing (r ∷ rules) t
        ≡ sync_rules fails
            (suc k)
            existing
            rules
            (write_one fails k (by_name r.name existing) r t).1
  unfolding sync_rules
  sync_step k existing rules r t e = rw (e, sync_rules)

  sync_stop :
      (k : ℕ) (existing rules : List Rule) (r : Rule) (t : Table) (x : YamlError)
      → (write_one fails k (by_name r.name existing) r t).0 ≡ some x
      → (sync_rules fails k existing (r ∷ rules) t).0 ≡ some x
  unfolding sync_rules
  sync_stop k existing rules r t x e = rw (e, sync_rules)

  rules_settle :
      (k : ℕ) (existing rules : List Rule) (t : Table)
      → All (IsBound existing) existing
      → IsFresh existing t
      → DistinctNames rules
      → (sync_rules fails k existing rules t).0 ≡ none
      → All (λ r. Some (Settled existing r) (sync_rules fails k existing rules t).1.rows) rules
  unfolding sync_rules
  rules_settle k existing [] t keyed fresh distinct e = tt
  rules_settle k existing (r ∷ rules) t keyed fresh distinct e =
      let w = write_one fails k (by_name r.name existing) r t in
      elim (Option-cases w.0) [
        | inl q ↦
            let (row, fresh') =
              write_settles existing r t w.1 w.0 keyed fresh q
                (wrote fails k existing r t _ refl) in
            let step = sync_step k existing rules r t q in
            subst
              (λ (z : Option YamlError × Table).
                All (λ r'. Some (Settled existing r') z.1.rows) (r ∷ rules))
              (sym step)
              (
                sync_keeps fails (λ r'. r'.name ≢ r.name) (λ u. Some (Settled existing r) u.rows)
                    existing
                    (λ r' u o v ne w'.
                      one_write_keeps (Settled existing r) existing r' u o v
                        (λ y p. (p.1, λ same. ne (same ∙ p.0.0))) w')
                    (suc k) rules w.1 distinct.0 row,
                rules_settle (suc k) existing rules w.1 keyed fresh' distinct.1
                    (ap (λ (z : Option YamlError × Table). z.0) (sym step) ∙ e),
              )
        | inr (x, q) ↦ cc (sync_stop k existing rules r t x q)
      ]

  -- Where the file's names are distinct and `SyncYAML` succeeds, every rule of the file has a row
  -- with its name, priority, conditions, action and active flag.
  pub sync_yaml-applies :
      (listed : Bool) (rules : List Rule) (t : Table)
      → IsTable t
      → DistinctNames rules
      → (sync_yaml fails listed rules t).0 ≡ none
      → All (λ r. Some (Carries r) (sync_yaml fails listed rules t).1.rows) rules
  unfolding sync_yaml list
  sync_yaml-applies false rules t h distinct e = cc
  sync_yaml-applies true rules t h distinct e =
      let keyed = All-order _ t.rows (rows-IsBound t h) in
      let fresh = All-order _ t.rows (All-map _ (λ z. z.id < t.next_id) (λ x k. k.0) t.rows h) in
      All-map _ _ (λ r. Some-Carries (list t) r _) rules
        (rules_settle 0 (list t) rules t keyed fresh distinct e)

  rules_count :
      (k : ℕ) (existing rules : List Rule) (t : Table)
      → (sync_rules fails k existing rules t).0 ≡ none
      → length (sync_rules fails k existing rules t).1.rows
        ≡ length t.rows + length (keep (is_new existing) rules)
  unfolding sync_rules
  rules_count k existing [] t e = omega arith
  rules_count k existing (r ∷ rules) t e =
      let w = write_one fails k (by_name r.name existing) r t in
      elim (Option-cases w.0) [
        | inl q ↦
            let step = sync_step k existing rules r t q in
            rw step (
              one_count existing rules r t w.1 w.0
                (length (sync_rules fails (suc k) existing rules w.1).1.rows) q
                (wrote fails k existing r t _ refl)
                (rules_count (suc k) existing rules w.1
                  (ap (λ (z : Option YamlError × Table). z.0) (sym step) ∙ e)))
        | inr (x, q) ↦ cc (sync_stop k existing rules r t x q)
      ]

  -- A successful `SyncYAML` adds exactly one row for each rule of the file whose name the table
  -- did not have before the call; two rules of the file with one new name add two rows.
  pub length-sync_yaml :
      (listed : Bool) (rules : List Rule) (t : Table)
      → (sync_yaml fails listed rules t).0 ≡ none
      → length (sync_yaml fails listed rules t).1.rows
        ≡ length t.rows + length (keep (is_new t.rows) rules)
  unfolding sync_yaml list
  length-sync_yaml false rules t e = cc
  length-sync_yaml true rules t e =
      rules_count 0 (order t.rows) rules t e
      ∙ ap (λ n. length t.rows + n)
          (ap length
            (keep-same _ _ rules (λ r. ap not (any-order (λ x. str_eq x.name r.name) t.rows))))
