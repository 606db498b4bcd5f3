-- ===== src/Sync/Effect.antt =====
-- What one message does to the archive: `dispatch` and `process` by cases.
use marchi.Prelude.{
  ℕ, suc, ◌+◌, String, ◌≡◌, refl, ◌⊎◌, inl, inr, Bool, true, false, ◌&&◌, ◌||◌, Option, none, some,
  List, [], ◌∷◌, ◌++◌, arith, ◌==◌, str_eq, Bool-cases, sym, if◌then◌else◌,
}
use marchi.Rules.Node.{
  Rule, RuleAction, archive, skip, archive_and_delete, archive_and_mark_read, other_action,
}
use marchi.Rules.Parse.{GoLib}
use marchi.Rules.Evaluate.{any}
use marchi.Sync.Message.{Parsed}
use marchi.Sync.Archive.{
  Archive, Row, Faults, Target, exists_by_account_message_id, update_last_uid,
}
use marchi.Sync.Removed.{Removed, Removed-same, Has-of_keep, Has-of_append}
use marchi.Sync.Fetch.{
  Fetch, Failure, is_skip, apply_post_archive_rule_action, delete_message, action_failed,
}

-- Nothing that is in the archive leaves it.
pub record Grows (a b : Archive) : Type 0 where
  pub rows_stay : (test : Row → Bool) → any test a.rows ≡ true → any test b.rows ≡ true
  pub files_stay : (test : ℕ × String → Bool) → any test a.files ≡ true → any test b.files ≡ true

pub Grows-refl : (a : Archive) → Grows a a
Grows-refl a = record { rows_stay = λ test h. h; files_stay = λ test h. h }

pub Grows-trans : (a b c : Archive) → Grows a b → Grows b c → Grows a c
Grows-trans a b c g h = record {
  rows_stay = λ test k. h.rows_stay test (g.rows_stay test k);
  files_stay = λ test k. h.files_stay test (g.files_stay test k);
}

pub any-append :
    {A : Type 0} (test : A → Bool) (xs ys : List A)
    → any test (xs ++ ys) ≡ (any test xs || any test ys)
unfolding any
any-append test [] ys = refl
any-append test (x ∷ xs) ys = ground (arith, any-append test xs ys)

-- The message is archived: a row of the folder with its UID leads to a file with its bytes.
pub record IsArchived (t : Target) (uid : ℕ) (raw : String) (a : Archive) : Type 0 where
  pub serial : ℕ
  pub has_row :
      any
        (λ r.
          r.account_id == t.account_id
          && r.folder_id == t.folder_id
          && r.uid == uid
          && r.local_path == serial)
        a.rows
      ≡ true
  pub has_file : any (λ x. x.0 == serial && str_eq x.1 raw) a.files ≡ true

-- A row of the account has the message's Message-ID, which is not blank.
pub record IsKnown (t : Target) (p : Parsed) (a : Archive) : Type 0 where
  pub has_id : str_eq p.md.message_id "" ≡ false
  pub known : exists_by_account_message_id t.account_id p.md.message_id a.rows ≡ true

pub data Copied (t : Target) (uid : ℕ) (p : Parsed) (a : Archive) : Type 0 where
  own : IsArchived t uid p.raw a → Copied t uid p a
  other : IsKnown t p a → Copied t uid p a

pub Copied-Grows :
    (t : Target) (uid : ℕ) (p : Parsed) (a b : Archive)
    → Grows a b
    → Copied t uid p a
    → Copied t uid p b
unfolding exists_by_account_message_id
Copied-Grows t uid p a b g (own h) = own (record {
  serial = h.serial;
  has_row = g.rows_stay _ h.has_row;
  has_file = g.files_stay _ h.has_file;
})
Copied-Grows t uid p a b g (other h) =
    other (record { has_id = h.has_id; known = g.rows_stay _ h.known })

abbrev pub done_of : Fetch → ℕ
done_of f = f.stats.archived + f.stats.skipped + f.stats.duplicates

-- The message is not passed: the loop stops at it.
pub record Stop (f f' : Fetch) : Type 0 where
  pub grows : Grows f.store f'.store
  pub mark : f'.store.last_uid ≡ f.store.last_uid
  pub gone : f'.deleted ≡ f.deleted
  pub marked : f'.flagged ≡ f.flagged
  pub processed : f'.stats.processed ≡ f.stats.processed
  pub completed : done_of f' ≡ done_of f
  pub errors : f'.stats.errors ≡ suc f.stats.errors

-- What an action on the server leaves of the archive and the counts.
pub record Acted (uid_plus : Bool) (uid : ℕ) (f f' : Fetch) : Type 0 where
  pub store : f'.store ≡ f.store
  pub gone : Removed uid_plus uid Unit f f'
  pub processed : f'.stats.processed ≡ f.stats.processed
  pub completed : done_of f' ≡ done_of f
  pub errors : f'.stats.errors ≡ f.stats.errors

-- The message is passed: skipped by a rule or copied, and the watermark is raised to it.
pub record Pass (uid_plus : Bool) (t : Target) (action : RuleAction) (uid : ℕ) (p : Parsed)
    (f f' : Fetch) : Type 0 where
  pub grows : Grows f.store f'.store
  pub mark : f'.store.last_uid ≡ update_last_uid t.folder_id uid f.store.last_uid
  pub fate : (is_skip action ≡ true) ⊎ Copied t uid p f'.store
  pub gone : Removed uid_plus uid (Copied t uid p f'.store) f f'
  pub processed : f'.stats.processed ≡ f.stats.processed
  pub completed : done_of f' ≡ suc (done_of f)
  pub errors : f'.stats.errors ≡ f.stats.errors

pub data Effect (uid_plus : Bool) (t : Target) (action : RuleAction) (uid : ℕ) (p : Parsed)
    (f : Fetch) : Option Failure × Fetch → Type 0 where
  stopped : (e : Failure) {f' : Fetch} → Stop f f' → Effect uid_plus t action uid p f (some e, f')
  passed :
      {f' : Fetch} → Pass uid_plus t action uid p f f' → Effect uid_plus t action uid p f (none, f')

untouched :
    (uid_plus : Bool) (uid : ℕ) (f f' : Fetch)
    → f'.store ≡ f.store
    → f'.deleted ≡ f.deleted
    → f'.flagged ≡ f.flagged
    → f'.stats.processed ≡ f.stats.processed
    → done_of f' ≡ done_of f
    → f'.stats.errors ≡ f.stats.errors
    → Acted uid_plus uid f f'
untouched uid_plus uid f f' store deleted flagged processed completed errors = record {
  store = store;
  gone = Removed-same uid_plus uid f f' deleted flagged;
  processed = processed;
  completed = completed;
  errors = errors;
}

-- `DeleteMessage` by its steps.
deleted-Acted :
    (faults : Faults) (uid : ℕ) (f : Fetch)
    → let r = delete_message faults uid f in
      Acted faults.uid_plus uid f (if r.0 then action_failed r.1 else r.1)
unfolding delete_message
deleted-Acted faults uid f = elim (Bool-cases (faults.flagging uid)) [
  | inl a ↦ rw (a, delete_message) (untouched _ uid f _ refl refl refl refl refl refl)
  | inr a ↦ elim (Bool-cases (faults.deleting uid)) [
    | inl b ↦
        rw (a, b, delete_message)
          (record {
            store = refl;
            gone = λ u. (λ d. inl d, λ d. elim d [ inl q ↦ inr (sym q, tt) | inr old ↦ inl old ]);
            processed = refl;
            completed = refl;
            errors = refl;
          })
    | inr b ↦ expunged a b (Bool-cases faults.uid_plus)
  ]
]
  where
    expunged :
        faults.flagging uid ≡ false
        → faults.deleting uid ≡ false
        → (faults.uid_plus ≡ true) ⊎ (faults.uid_plus ≡ false)
        → let r = delete_message faults uid f in
          Acted faults.uid_plus uid f (if r.0 then action_failed r.1 else r.1)
    expunged a b (inl c) =
        rw (a, b, c, delete_message)
          (record {
            store = refl;
            gone = λ u. (
              λ d. elim d [ inl q ↦ inr (inl (sym q, tt)) | inr old ↦ inl old ],
              λ d. inl (Has-of_keep _ u f.flagged d),
            );
            processed = refl;
            completed = refl;
            errors = refl;
          })
    expunged a b (inr c) =
        rw (a, b, c, delete_message)
          (record {
            store = refl;
            gone = λ u. (
              λ d. elim d [
                | inl q ↦ inr (inl (sym q, tt))
                | inr k ↦ elim (Has-of_append u f.flagged f.deleted k) [
                  | inl flag ↦ inr (inr (refl, flag))
                  | inr old ↦ inl old
                ]
              ],
              λ d. absurd d,
            );
            processed = refl;
            completed = refl;
            errors = refl;
          })

module _ (lib : GoLib) (faults : Faults) (t : Target) (rules : List Rule) where
  pub acted :
      (action : RuleAction) (uid : ℕ) (f : Fetch)
      → Acted faults.uid_plus uid f (apply_post_archive_rule_action lib faults t rules action uid f)
  unfolding apply_post_archive_rule_action
  acted archive_and_mark_read uid f = elim (Bool-cases (faults.marking uid)) [
    | inl e ↦ rw e (untouched _ uid f _ refl refl refl refl refl refl)
    | inr e ↦ rw e (untouched _ uid f _ refl refl refl refl refl refl)
  ]
  acted archive_and_delete uid f = deleted-Acted faults uid f
  acted archive uid f = untouched _ uid f _ refl refl refl refl refl refl
  acted skip uid f = untouched _ uid f _ refl refl refl refl refl refl
  acted (other_action s) uid f = untouched _ uid f _ refl refl refl refl refl refl
