-- ===== src/Sync/Totals.antt =====
-- What `SyncAccount` of internal/sync/account.go reports and how it moves the watermarks.
use marchi.Prelude.{
  ◌<◌, ◌⊎◌, true, if◌then◌else◌, ℕ, suc, ◌+◌, ◌≤◌, ◌≡◌, refl, ap, ◌∙◌, Bool, false, not, Option,
  none, some, List, [], ◌∷◌, map, length, length-append, arith, inl, inr, Bool-cases,
}
use marchi.Rules.Node.{Rule}
use marchi.Rules.Parse.{GoLib}
use marchi.Sync.Message.{Message}
use marchi.Sync.Archive.{Archive, Faults, Target, update_last_uid}
use marchi.Sync.Fetch.{Fetch, Failure, Server, no_stats, fetch_new_messages}
use marchi.Sync.Trace.{Trace, finish, cancel, halt, go, fetched}
use marchi.Sync.Counts.{fetch_new_messages-counts}
use marchi.Sync.Folders.{Folder, Folders, RemoteFolder, FoldersError, sync_folders}
use marchi.Sync.Watermarks.{IsValid, sync_folders-Keeps}
use marchi.Sync.Account.{
  Run, Sync, SyncError, fetching, rules_failed, config_failed, opened, after_fetch, skip_rest,
  folder_target, sync_each, sync_listed, sync_account, folders_of, with_folders,
}

-- No watermark is lower in `b` than in `a`.
abbrev pub Rises : Archive → Archive → Type 0
Rises a b = (folder : ℕ) → a.last_uid folder ≤ b.last_uid folder

update-Rises : (folder uid : ℕ) (last : ℕ → ℕ) (f : ℕ) → last f ≤ update_last_uid folder uid last f
update-Rises folder uid last f = ground arith

module _ (lib : GoLib) (faults : Faults) (t : Target) (rules : List Rule) where
  Trace-Rises :
      {ms : List Message} {f : Fetch} {r : Option Failure × Fetch}
      → Trace lib faults t rules ms f r
      → Rises f.store r.1.store
  Trace-Rises (finish f) folder = omega arith
  Trace-Rises (cancel m ms f) folder = omega arith
  Trace-Rises (halt m ms {f} e f' h) folder = omega (arith, ap (λ l. l folder) h.mark)
  Trace-Rises (go m ms {f} f' h rest) folder = omega (
    arith,
    ap (λ l. l folder) h.mark,
    update-Rises t.folder_id m.uid f.store.last_uid folder,
    Trace-Rises rest folder,
  )

  fetch_new_messages-Rises :
      (sync_enabled stopping : Bool) (server : Server) (f : Fetch)
      → Rises f.store (fetch_new_messages lib faults t rules sync_enabled stopping server f).1.store
  fetch_new_messages-Rises sync_enabled stopping server f =
      fetched lib faults t rules (λ r. Rises f.store r.store) sync_enabled stopping server f
        (λ folder. omega arith) (λ r tr. Trace-Rises tr)

-- What the loop keeps: no watermark falls, each message and each failed action is counted, and each
-- folder has its result.
record Reports (folders : ℕ) (s s' : Sync) : Type 0 where
  pub rises : Rises s.store s'.store
  pub balance :
      s'.total.processed
        + (s.total.archived + s.total.skipped + s.total.duplicates + s.total.errors)
      ≤ s.total.processed
        + (s'.total.archived + s'.total.skipped + s'.total.duplicates + s'.total.errors)
  pub result_for_each : length s'.results ≡ length s.results + folders

length-map : {A B : Type 0} (f : A → B) (xs : List A) → length (map f xs) ≡ length xs
length-map f [] = refl
length-map f (x ∷ xs) = ap suc (length-map f xs)

skip_rest-Reports : (turns : List Folder) (s : Sync) → Reports (length turns) s (skip_rest turns s)
skip_rest-Reports turns s = record {
  rises = λ folder. omega arith;
  balance = omega arith;
  result_for_each =
      length-append s.results (map (λ t. 0) turns)
      ∙ ap (λ n. length s.results + n) (length-map _ turns);
}

-- A fetched folder, and then the folders behind it.
fetched-Reports :
    (n : ℕ) (s s' : Sync) (f : Fetch)
    → Rises s.store f.store
    → f.stats.processed ≡ f.stats.archived + f.stats.skipped + f.stats.duplicates + f.stats.errors
    → Reports n (after_fetch s f) s'
    → Reports (suc n) s s'
fetched-Reports n s s' f rise count h = record {
  rises = λ folder. omega (arith, rise folder, h.rises folder);
  balance = omega (arith, count, h.balance);
  result_for_each =
      omega (arith, h.result_for_each, length-append s.results (f.stats.archived ∷ []));
}

module _ (lib : GoLib) (w : Run) (rules : List Rule) where
  go_on :
      (folders : List Folder) (s : Sync) (r : Option Failure × Fetch)
      → Rises s.store r.1.store
      → r.1.stats.processed
        ≡ r.1.stats.archived + r.1.stats.skipped + r.1.stats.duplicates + r.1.stats.errors
      → ((s1 : Sync) → Reports (length folders) s1 (sync_each lib w rules folders s1).1)
      → let after : Option SyncError × Sync = elim r.0 [
        | some e ↦ (some (fetching e), skip_rest folders (after_fetch s r.1))
        | none ↦ sync_each lib w rules folders (after_fetch s r.1)
      ] in
        Reports (suc (length folders)) s after.1
  go_on folders s (none, f) rise count rest =
      fetched-Reports (length folders) s _ f rise count (rest (after_fetch s f))
  go_on folders s (some e, f) rise count rest =
      fetched-Reports (length folders) s _ f rise count
        (skip_rest-Reports folders (after_fetch s f))

  sync_each-Reports :
      (folders : List Folder) (s : Sync)
      → Reports (length folders) s (sync_each lib w rules folders s).1
  unfolding sync_each
  sync_each-Reports [] s = record {
    rises = λ folder. omega arith;
    balance = omega arith;
    result_for_each = omega arith;
  }
  sync_each-Reports (folder ∷ folders) s =
      let t = w.turns folder.folder_name in
      elim (Bool-cases t.stopping) [
        | inl e ↦ rw (e, sync_each) (skip_rest-Reports (folder ∷ folders) s)
        | inr e ↦ elim (Bool-cases (not t.prepared)) [
          | inl k ↦ rw (e, k, sync_each) (skip_rest-Reports (folder ∷ folders) s)
          | inr k ↦
              rw (e, k, sync_each)
                (go_on folders s
                  (fetch_new_messages lib t.faults (folder_target w folder) rules
                    folder.sync_enabled false t.server (opened folder t.flagged s))
                  (fetch_new_messages-Rises lib t.faults (folder_target w folder) rules
                    folder.sync_enabled false t.server (opened folder t.flagged s))
                  (fetch_new_messages-counts lib t.faults (folder_target w folder) rules
                    folder.sync_enabled false t.server (opened folder t.flagged s)).0
                  (sync_each-Reports folders))
        ]
      ]

-- What a sync keeps: a watermark falls only where the server has reported a UIDVALIDITY for the
-- folder that is not the stored one; the totals have each message that it attempts; and each folder
-- that it was given has its result, or none has where it ends before the loop.
pub record Kept (w : Run) (s s' : Sync) : Type 0 where
  pub rises :
      (id : ℕ)
      → id < s.next_folder
      → ((remotes : List RemoteFolder) → w.listed ≡ some remotes → IsValid id s.folders remotes)
      → s.store.last_uid id ≤ s'.store.last_uid id
  pub balance :
      s'.total.processed
      ≤ s'.total.archived + s'.total.skipped + s'.total.duplicates + s'.total.errors
  pub results :
      (s'.results ≡ []) ⊎ (length s'.results ≡ length (sync_folders w.listed (folders_of s)).1)

module _ (lib : GoLib) (w : Run) where
  listed-Kept :
      (s : Sync) (r : Option FoldersError × List Folder × Folders)
      → sync_folders w.listed (folders_of s) ≡ r
      → ((id : ℕ)
          → id < s.next_folder
          → ((remotes : List RemoteFolder) → w.listed ≡ some remotes → IsValid id s.folders remotes)
          → r.2.last_uid id ≡ s.store.last_uid id)
      → Kept w s (sync_listed lib w r (record s { total = no_stats; results = [] })).1
  listed-Kept s (some e, folders, d) q same = record {
    rises = λ id known valid. omega (arith, same id known valid);
    balance = omega arith;
    results = inl refl;
  }
  listed-Kept s (none, folders, d) q same = rules_loaded w.rules w.config_fails
    where
      started : Sync
      started = with_folders d (record s { total = no_stats; results = [] })

      rules_loaded :
          (rules : Option (List Rule)) (config_fails : Bool)
          → let after : Option SyncError × Sync = elim rules [
            | none ↦ (some rules_failed, started)
            | some rules ↦
                if config_fails
                then (some config_failed, started)
                else sync_each lib w rules folders started
          ] in
            Kept w s after.1
      rules_loaded none c = record {
        rises = λ id known valid. omega (arith, same id known valid);
        balance = omega arith;
        results = inl refl;
      }
      rules_loaded (some rules) true = record {
        rises = λ id known valid. omega (arith, same id known valid);
        balance = omega arith;
        results = inl refl;
      }
      rules_loaded (some rules) false =
          let h = sync_each-Reports lib w rules folders started in
          record {
            rises = λ id known valid. omega (arith, same id known valid, h.rises id);
            balance = omega (arith, h.balance);
            results = inr (omega (arith, h.result_for_each, ap (λ z. length z.1) q));
          }

  pub sync_account-Kept : (s : Sync) → Kept w s (sync_account lib w s).1
  unfolding sync_account
  sync_account-Kept s = elim (Bool-cases (not w.connected)) [
    | inl e ↦
        rw (e, sync_account)
          (record {
            rises = λ id known valid. omega arith;
            balance = omega arith;
            results = inl refl;
          })
    | inr e ↦
        rw (e, sync_account)
          (listed-Kept s (sync_folders w.listed (folders_of s)) refl
            (λ id known valid. sync_folders-Keeps id w.listed (folders_of s) known valid))
  ]
