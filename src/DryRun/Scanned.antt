-- ===== src/DryRun/Scanned.antt =====
-- What `handleDryRunRules` of internal/httpapi/rules_dryrun.go answers.
use marchi.Prelude.{
  ℕ, zero, suc, ◌+◌, ◌≤◌, String, ◌≡◌, refl, inl, inr, Bool, true, false, Option, none, some, List,
  [], ◌∷◌, ◌++◌, arith, map, keep, length, length-append, take, ltb, ◌==◌, ap, ◌∙◌, sym, subst, All,
  Bool-cases, if◌then◌else◌,
}
use mathlib.Core.List.{append_assoc, append-nil}
use marchi.Rules.Node.{RuleNode}
use marchi.Rules.Parse.{GoLib}
use marchi.Rules.Validate.{validate}
use marchi.Rules.Evaluate.{evaluate}
use marchi.Sync.Message.{Parsed, candidate_from}
use marchi.Sync.Archive.{Archive, Row}
use marchi.DryRun.Stored.{MailLib, or_else, build_candidate_from_stored}
use marchi.DryRun.Handler.{
  DryRunRequest, DryRunSample, DryRunAnswer, bad_conditions, scan_failed, dry_run_response, Scan,
  DryRunWorld, max_dry_run_samples, bounded_limit, list_for_dry_run, sample_of, found_name,
  attachment_types, add_sample, scan_row, scan, handle_dry_run_rules,
}
use marchi.DryRun.Agrees.{IsStored, build_candidate-candidate_from}

take-exact : {A : Type 0} (n : ℕ) (xs ys : List A) → length xs ≡ n → take n (xs ++ ys) ≡ xs
take-exact zero [] ys h = refl
take-exact (suc n) [] ys h = absurd (omega arith)
take-exact zero (x ∷ xs) ys h = absurd (omega arith)
take-exact (suc n) (x ∷ xs) ys h = ap (λ l. x ∷ l) (take-exact n xs ys (omega arith))

take-short : {A : Type 0} (n : ℕ) (xs : List A) → length xs ≤ n → take n xs ≡ xs
take-short zero [] h = refl
take-short (suc n) [] h = refl
take-short zero (x ∷ xs) h = absurd (omega arith)
take-short (suc n) (x ∷ xs) h = ap (λ l. x ∷ l) (take-short n xs (omega arith))

passes :
    {E : Type 0} (x : Option E) (fails : Bool) (y : DryRunAnswer)
    → x ≡ none
    → fails ≡ false
    → (elim x [ some e ↦ bad_conditions | none ↦ if fails then scan_failed else y ]) ≡ y
passes x fails y e f = rw (e, f) refl

answer :
    (k : ℕ) {m n : ℕ} {x y : List DryRunSample}
    → m ≡ n
    → x ≡ y
    → dry_run_response k m x ≡ dry_run_response k n y
answer k c d = cc (c, d)

module _ (mail : MailLib) (lib : GoLib) (w : DryRunWorld) (a : Archive) where
  abbrev pub name_of : ℕ → String
  name_of folder = or_else "" (w.folders folder)

  -- The rule would have matched the message when it was received, under the name that its folder has
  -- now.
  abbrev pub would_match : RuleNode → (Row → Parsed) → Row → Bool
  would_match conditions origin r =
      evaluate lib conditions (candidate_from (origin r) (name_of r.folder_id) r.account_id)

  -- The names that were looked up are those of the folders.
  AreNames : (ℕ → Option String) → Type 0
  AreNames names = (f : ℕ) (n : String) → names f ≡ some n → n ≡ name_of f

  found-name_of :
      (folder : ℕ) (found : Option String) (names : ℕ → Option String)
      → names folder ≡ found
      → AreNames names
      → ((found_name mail lib w a folder found names).0 ≡ name_of folder)
        × AreNames (found_name mail lib w a folder found names).1
  unfolding AreNames
  found-name_of folder (some name) names e h = (h folder name e, h)
  found-name_of folder none names e h = (
    refl,
    λ f n q. elim (Bool-cases (folder == f)) [
      | inl s ↦
          let same : folder ≡ f = grind (arith, s) in
          let is : name_of folder ≡ n = grind (arith, s, q) in sym is ∙ ap name_of same
      | inr s ↦ h f n (grind (arith, s, q))
    ],
  )

  add_sample-take :
      (r : Row) (samples rest : List DryRunSample)
      → length samples ≤ max_dry_run_samples
      → (length (add_sample mail lib w a r samples) ≤ max_dry_run_samples)
        × (take max_dry_run_samples (add_sample mail lib w a r samples ++ rest)
            ≡ take max_dry_run_samples (samples ++ sample_of r ∷ rest))
  add_sample-take r samples rest h = elim (Bool-cases (ltb (length samples) max_dry_run_samples)) [
    | inl l ↦
        let room : length samples ≤ 19 = ground arith in
        simp (l) (
          omega (arith, length-append samples (sample_of r ∷ [])),
          ap (take max_dry_run_samples) (append_assoc samples (sample_of r ∷ []) rest),
        )
    | inr l ↦
        let full : length samples ≡ max_dry_run_samples = ground arith in
        simp (l) (h, take-exact _ samples rest full ∙ sym (take-exact _ samples _ full))
  ]

  -- What a scan leaves of its counts.
  pub record Counts (matching : List Row) (s s' : Scan) : Type 0 where
    pub count : s'.matched_count ≡ s.matched_count + length matching
    pub samples : s'.samples ≡ take max_dry_run_samples (s.samples ++ map sample_of matching)

  -- What one row does to a scan.
  record Stepped (matches : Bool) (r : Row) (s s' : Scan) : Type 0 where
    names : AreNames s'.folder_names
    count : s'.matched_count ≡ (if matches then suc s.matched_count else s.matched_count)
    samples : s'.samples ≡ (if matches then add_sample mail lib w a r s.samples else s.samples)

  choose-Stepped :
      (b : Bool) (r : Row) (s : Scan) (names : ℕ → Option String)
      → AreNames names
      → Stepped b r s (
          if b
          then record {
            folder_names = names;
            matched_count = suc s.matched_count;
            samples = add_sample mail lib w a r s.samples;
          }
          else record s { folder_names = names })
  choose-Stepped true r s names h = record { names = h; count = refl; samples = refl }
  choose-Stepped false r s names h = record { names = h; count = refl; samples = refl }

  scan_row-Stepped :
      (conditions : RuleNode) (origin : Row → Parsed) (r : Row) (s : Scan)
      → w.attachments_fail r.id ≡ false
      → IsStored mail a r (origin r)
      → AreNames s.folder_names
      → Stepped (would_match conditions origin r) r s (
          scan_row mail lib w a conditions r
            (found_name mail lib w a r.folder_id (s.folder_names r.folder_id) s.folder_names)
            s)
  scan_row-Stepped conditions origin r s f h names =
      let found = found-name_of r.folder_id _ s.folder_names refl names in
      subst
        (λ m. Stepped m r s (
          scan_row mail lib w a conditions r
            (found_name mail lib w a r.folder_id (s.folder_names r.folder_id) s.folder_names) s))
        (ap (evaluate lib conditions) (
          ap (λ n. build_candidate_from_stored mail r n (attachment_types mail lib w a r)) found.0
          ∙ build_candidate-candidate_from mail lib w a r (origin r) (name_of r.folder_id) f h))
        (choose-Stepped _ r s _ found.1)

  Stepped-Counts :
      (matches : Bool) (r : Row) (matching : List Row) (s c s' : Scan)
      → length s.samples ≤ max_dry_run_samples
      → Stepped matches r s c
      → (length c.samples ≤ max_dry_run_samples → Counts matching c s')
      → Counts (if matches then r ∷ matching else matching) s s'
  Stepped-Counts true r matching s c s' short st rest =
      let added = add_sample-take r s.samples (map sample_of matching) short in
      let k = rest (subst (λ x. length x ≤ max_dry_run_samples) (sym st.samples) added.0) in
      record {
        count = k.count ∙ omega (arith, st.count);
        samples =
            k.samples
            ∙ ap (λ x. take max_dry_run_samples (x ++ map sample_of matching)) st.samples
            ∙ added.1;
      }
  Stepped-Counts false r matching s c s' short st rest =
      let k = rest (subst (λ x. length x ≤ max_dry_run_samples) (sym st.samples) short) in
      record {
        count = k.count ∙ omega (arith, st.count);
        samples =
            k.samples ∙ ap (λ x. take max_dry_run_samples (x ++ map sample_of matching)) st.samples;
      }

  scan-Counts :
      (conditions : RuleNode) (origin : Row → Parsed) (rows : List Row) (s : Scan)
      → ((id : ℕ) → w.attachments_fail id ≡ false)
      → All (λ r. IsStored mail a r (origin r)) rows
      → AreNames s.folder_names
      → length s.samples ≤ max_dry_run_samples
      → Counts (keep (would_match conditions origin) rows) s (scan mail lib w a conditions rows s)
  unfolding scan
  scan-Counts conditions origin [] s f h names short = record {
    count = omega arith;
    samples =
        sym (ap (take max_dry_run_samples) (append-nil s.samples) ∙ take-short _ s.samples short);
  }
  scan-Counts conditions origin (r ∷ rows) s f h names short =
      let st = scan_row-Stepped conditions origin r s (f r.id) h.0 names in
      Stepped-Counts (would_match conditions origin r) r (keep (would_match conditions origin) rows)
        s _ _ short st (scan-Counts conditions origin rows _ f h.1 st.names)

  -- A dry run tells what the rule would have done. Where every row that is scanned is that of a
  -- message as a sync archived it, and no query fails, a dry run of a valid tree answers with the
  -- number of the rows scanned, the number of those whose message, as it was received, the tree
  -- matches, and a sample of the first twenty of these in the order of their ids; the folder is
  -- taken under the name that it has now. The names that are kept between the rows make no
  -- difference.
  pub handle_dry_run_rules-would_match :
      (q : DryRunRequest) (origin : Row → Parsed)
      → validate lib q.conditions ≡ none
      → w.scanning_fails ≡ false
      → ((id : ℕ) → w.attachments_fail id ≡ false)
      → All
          (λ r. IsStored mail a r (origin r))
          (list_for_dry_run q.account_id (bounded_limit q.limit) a.rows)
      → let rows = list_for_dry_run q.account_id (bounded_limit q.limit) a.rows in
        let matching = keep (would_match q.conditions origin) rows in
        handle_dry_run_rules mail lib w a q
        ≡ dry_run_response
            (length rows)
            (length matching)
            (take max_dry_run_samples (map sample_of matching))
  unfolding handle_dry_run_rules AreNames
  handle_dry_run_rules-would_match q origin v sf f h =
      let rows = list_for_dry_run q.account_id (bounded_limit q.limit) a.rows in
      let start : Scan = record { folder_names = λ x. none; matched_count = 0; samples = [] } in
      let k =
        scan-Counts q.conditions origin rows start f h (λ x n e. absurd (ground (arith, e)))
          (omega arith) in
      passes _ w.scanning_fails _ v sf ∙ answer (length rows) (omega (arith, k.count)) k.samples
