-- ===== src/Sync/Trace.antt =====
-- A fetch as the sequence of what its messages did: the loop of `FetchNewMessages` of
-- internal/sync/fetch.go.
use marchi.Prelude.{
  ℕ, suc, ◌+◌, ◌%◌, ◌^◌, ◌≡◌, refl, ◌⊎◌, inl, inr, Bool, true, false, not, Option, none, some, List,
  [], ◌∷◌, leb, Bool-cases, Option-cases, ap, sym, subst,
}
use marchi.Rules.Node.{Rule}
use marchi.Rules.Parse.{GoLib}
use marchi.Sync.Message.{Message, Parsed}
use marchi.Sync.Archive.{Archive, Faults, Target, update_last_uid}
use marchi.Sync.Fetch.{
  Fetch, Failure, shutdown, unreadable, is_skip, action_of, matched, started, failed, count_match,
  dispatch, process, fetch_each, fetch_from, fetch_new_messages, Server, no_stats,
}
use marchi.Sync.Effect.{Grows, Grows-refl, Copied, done_of, Stop, Pass, Effect, stopped, passed}
use marchi.Sync.Removed.{Removed, Removed-map}
use marchi.Sync.Steps.{dispatch-Effect}

module _ (lib : GoLib) (faults : Faults) (t : Target) (rules : List Rule) where
  -- The message has been dealt with: a rule says to skip it, or the archive has a copy.
  pub data Accounted (m : Message) (a : Archive) : Type 0 where
    by_rule :
        (p : Parsed)
        → m.body ≡ some p
        → is_skip (action_of (matched lib faults t rules p)) ≡ true
        → Accounted m a
    copied : (p : Parsed) → m.body ≡ some p → Copied t m.uid p a → Accounted m a

  -- ... and has not been dropped on a rule's word.
  abbrev pub HasCopy : Message → Archive → Type 0
  HasCopy m a = (p : Parsed) × (m.body ≡ some p) × Copied t m.uid p a

  pub record Halt (f f' : Fetch) : Type 0 where
    pub grows : Grows f.store f'.store
    pub mark : f'.store.last_uid ≡ f.store.last_uid
    pub gone : f'.deleted ≡ f.deleted
    pub marked : f'.flagged ≡ f.flagged
    pub processed : f'.stats.processed ≡ suc f.stats.processed
    pub completed : done_of f' ≡ done_of f
    pub errors : f'.stats.errors ≡ suc f.stats.errors

  pub record Go (m : Message) (f f' : Fetch) : Type 0 where
    pub grows : Grows f.store f'.store
    pub mark : f'.store.last_uid ≡ update_last_uid t.folder_id m.uid f.store.last_uid
    pub fate : Accounted m f'.store
    pub gone : Removed faults.uid_plus m.uid (HasCopy m f'.store) f f'
    pub processed : f'.stats.processed ≡ suc f.stats.processed
    pub completed : done_of f' ≡ suc (done_of f)
    pub errors : f'.stats.errors ≡ f.stats.errors

  pub data Trace : List Message → Fetch → Option Failure × Fetch → Type 0 where
    finish : (f : Fetch) → Trace [] f (none, f)
    cancel : (m : Message) (ms : List Message) (f : Fetch) → Trace (m ∷ ms) f (some shutdown, f)
    halt :
        (m : Message) (ms : List Message) {f : Fetch} (e : Failure) (f' : Fetch)
        → Halt f f'
        → Trace (m ∷ ms) f (some e, f')
    go :
        (m : Message) (ms : List Message) {f : Fetch} (f' : Fetch) {r : Option Failure × Fetch}
        → Go m f f'
        → Trace ms f' r
        → Trace (m ∷ ms) f r

  data Passes (m : Message) (f : Fetch) : Option Failure × Fetch → Type 0 where
    halts : (e : Failure) (f' : Fetch) → Halt f f' → Passes m f (some e, f')
    goes : (f' : Fetch) → Go m f f' → Passes m f (none, f')

  abbrev ready : Parsed → Fetch → Fetch
  ready p f = count_match (matched lib faults t rules p) (started f)

  ready_Halt : (o : Option Rule) (f f' : Fetch) → Stop (count_match o (started f)) f' → Halt f f'
  ready_Halt none f f' s = record {
    grows = s.grows;
    mark = s.mark;
    gone = s.gone;
    marked = s.marked;
    processed = s.processed;
    completed = s.completed;
    errors = s.errors;
  }
  ready_Halt (some r) f f' s = record {
    grows = s.grows;
    mark = s.mark;
    gone = s.gone;
    marked = s.marked;
    processed = s.processed;
    completed = s.completed;
    errors = s.errors;
  }

  accounted :
      (m : Message) (p : Parsed) (a : Archive)
      → m.body ≡ some p
      → (is_skip (action_of (matched lib faults t rules p)) ≡ true) ⊎ Copied t m.uid p a
      → Accounted m a
  accounted m p a b (inl h) = by_rule p b h
  accounted m p a b (inr h) = copied p b h

  ready_Go :
      (o : Option Rule) (m : Message) (p : Parsed) (f f' : Fetch)
      → o ≡ matched lib faults t rules p
      → m.body ≡ some p
      → Pass faults.uid_plus t
          (action_of (matched lib faults t rules p))
          m.uid
          p
          (count_match o (started f))
          f'
      → Go m f f'
  ready_Go none m p f f' e b s = record {
    grows = s.grows;
    mark = s.mark;
    fate = accounted m p f'.store b s.fate;
    gone = Removed-map faults.uid_plus m.uid f f' (λ c. (p, b, c)) s.gone;
    processed = s.processed;
    completed = s.completed;
    errors = s.errors;
  }
  ready_Go (some r) m p f f' e b s = record {
    grows = s.grows;
    mark = s.mark;
    fate = accounted m p f'.store b s.fate;
    gone = Removed-map faults.uid_plus m.uid f f' (λ c. (p, b, c)) s.gone;
    processed = s.processed;
    completed = s.completed;
    errors = s.errors;
  }

  Effect-Passes :
      (m : Message) (p : Parsed) (f : Fetch) (r : Option Failure × Fetch)
      → m.body ≡ some p
      → Effect faults.uid_plus t (action_of (matched lib faults t rules p)) m.uid p (ready p f) r
      → Passes m f r
  Effect-Passes m p f _ b (stopped e s) =
      halts e _ (ready_Halt (matched lib faults t rules p) f _ s)
  Effect-Passes m p f _ b (passed s) =
      goes _ (ready_Go (matched lib faults t rules p) m p f _ refl b s)

  process_unread :
      (m : Message) (f : Fetch)
      → m.body ≡ none
      → process lib faults t rules m f ≡ (some (unreadable m.uid), failed (started f))
  unfolding process
  process_unread m f e = rw (e, process) refl

  process_read :
      (m : Message) (p : Parsed) (f : Fetch)
      → m.body ≡ some p
      → process lib faults t rules m f
        ≡ dispatch lib faults t rules (action_of (matched lib faults t rules p)) m p (ready p f)
  unfolding process
  process_read m p f e =
      ap
        (λ o. elim o [
          | none ↦ (some (unreadable m.uid), failed (started f))
          | some q ↦
              dispatch lib faults t rules (action_of (matched lib faults t rules q)) m q (ready q f)
        ])
        e

  process-Passes : (m : Message) (f : Fetch) → Passes m f (process lib faults t rules m f)
  process-Passes m f = elim (Option-cases m.body) [
    | inl e ↦ subst (Passes m f) (sym (process_unread m f e)) (
        halts _ _ (record {
          grows = Grows-refl f.store;
          mark = refl;
          gone = refl;
          marked = refl;
          processed = refl;
          completed = refl;
          errors = refl;
        }))
    | inr (p, e) ↦ subst (Passes m f) (sym (process_read m p f e)) (
        Effect-Passes m p f _ e (
          dispatch-Effect lib faults t rules (action_of (matched lib faults t rules p)) m p
            (ready p f)))
  ]

  continue :
      (m : Message) (ms : List Message) (f : Fetch) (r : Option Failure × Fetch)
      → Passes m f r
      → ((g : Fetch) → Trace ms g (fetch_each lib faults t rules ms g))
      → Trace
          (m ∷ ms)
          f
          (elim r.0 [ some e ↦ (some e, r.1) | none ↦ fetch_each lib faults t rules ms r.1 ])
  continue m ms f _ (halts e f' h) rest = halt m ms e f' h
  continue m ms f _ (goes f' h) rest = go m ms f' h (rest f')

  pub fetch_each-Trace :
      (ms : List Message) (f : Fetch) → Trace ms f (fetch_each lib faults t rules ms f)
  unfolding fetch_each
  fetch_each-Trace [] f = finish f
  fetch_each-Trace (m ∷ ms) f = elim (Bool-cases (faults.cancelled m.uid)) [
    | inl c ↦ rw (c, fetch_each) (cancel m ms f)
    | inr c ↦ rw (c, fetch_each) (continue m ms f _ (process-Passes m f) (fetch_each-Trace ms))
  ]

  fetched_from :
      (P : Fetch → Type 0) (server : Server) (n : ℕ) (g : Fetch)
      → P g
      → ((r : Option Failure × Fetch)
          → Trace (server.answers ((g.last_uid + 1) % 2 ^ 32)) g r
          → P r.1)
      → P (fetch_from lib faults t rules server n g).1
  fetched_from P server n g idle ran = elim (Bool-cases (leb n (g.last_uid + 1))) [
    | inl e ↦ rw (e, fetch_from) idle
    | inr e ↦ rw (e, fetch_from) (ran _ (fetch_each-Trace _ g))
  ]

  -- A fetch returns before the loop, with nothing but its statistics reset, or runs the loop.
  pub fetched :
      (P : Fetch → Type 0) (sync_enabled stopping : Bool) (server : Server) (f : Fetch)
      → P (record f { stats = no_stats })
      → ((r : Option Failure × Fetch)
          → Trace (server.answers ((f.last_uid + 1) % 2 ^ 32)) (record f { stats = no_stats }) r
          → P r.1)
      → P (fetch_new_messages lib faults t rules sync_enabled stopping server f).1
  unfolding fetch_new_messages
  fetched P false stopping server f idle ran = idle
  fetched P true true server f idle ran = idle
  fetched P true false server f idle ran = elim (Bool-cases (not server.encodes)) [
    | inl e ↦ rw (e, fetch_new_messages) idle
    | inr e ↦ elim (Option-cases server.uid_next) [
      | inl k ↦ rw (e, k, fetch_new_messages) idle
      | inr (n, k) ↦
          rw (e, k, fetch_new_messages)
            (fetched_from P server n (record f { stats = no_stats }) idle ran)
    ]
  ]
