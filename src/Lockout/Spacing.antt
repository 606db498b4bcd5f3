-- ===== src/Lockout/Spacing.antt =====
-- How many wrong passwords one address can try.
use marchi.Prelude.{
  ℕ, zero, suc, ◌+◌, ◌≤◌, ◌<◌, String, ◌≡◌, refl, subst, ◌⊎◌, inl, inr, some, List, [], ◌∷◌, arith,
  All, get_elem?, if◌then◌else◌, leb, Bool-cases, str_eq, false,
}
use marchi.Lockout
use marchi.Lockout.Counter.{view, Step, same, guessed, Fails, unlock-Step}

-- The requests of the address come one after another, the first not before `start`; those of other
-- addresses come at any time and overlap as they like.
abbrev pub Sequential : String → ℕ → List Lockout.Request → Type 0
Sequential ip start [] = Unit
Sequential ip start (r ∷ requests) =
    let own : Type 0 = Sequential ip r.finished requests in
    let other : Type 0 = Sequential ip start requests in
    if str_eq r.ip ip then (start ≤ r.arrived) × (r.arrived ≤ r.finished) × own else other

-- The guesses that one entry of the table lets through, from an instant on.
data Run : ℕ → Lockout.Entry → List ℕ → Type 0 where
  end : (s : ℕ) (e : Lockout.Entry) → Run s e []
  pass : {s s' : ℕ} {e : Lockout.Entry} {gs : List ℕ} → s ≤ s' → Run s' e gs → Run s e gs
  guess :
      {s : ℕ} (a f : ℕ) {e : Lockout.Entry} {gs : List ℕ}
      → s ≤ a
      → a ≤ f
      → e.until ≤ a
      → Run f (Lockout.fail_once f e) gs
      → Run s e (a ∷ gs)

guesses_lem :
    (ip : String) (r : Lockout.Request) (rest : List Lockout.Request) (l : Lockout.Lockout)
    → Lockout.guesses ip (r ∷ rest) l ≡ (
        if Lockout.is_guess ip r (Lockout.unlock r l).0
        then r.arrived ∷ Lockout.guesses ip rest (Lockout.unlock r l).1
        else Lockout.guesses ip rest (Lockout.unlock r l).1)
unfolding Lockout.guesses
guesses_lem ip r rest l = refl

no_guesses : (ip : String) (l : Lockout.Lockout) → Lockout.guesses ip [] l ≡ []
unfolding Lockout.guesses
no_guesses ip l = refl

step-Run :
    (ip : String) (start : ℕ) (r : Lockout.Request) (l : Lockout.Lockout)
    (response : Lockout.Response) (l' : Lockout.Lockout) (gs : List ℕ)
    → Step ip r l response l'
    → start ≤ r.arrived
    → r.arrived ≤ r.finished
    → Run r.finished (view ip l') gs
    → Run start (view ip l) (if Lockout.is_guess ip r response then r.arrived ∷ gs else gs)
step-Run ip start r l response l' gs (same kept no_guess) h k run =
    rw no_guess (pass (omega arith) (subst (λ e. Run r.finished e gs) kept run))
step-Run ip start r l response l' gs (guessed failed free is_guess) h k run =
    rw is_guess (guess r.arrived r.finished h k free (subst (λ e. Run r.finished e gs) failed run))

-- A request of another address is no guess and leaves the entry.
other-Run :
    (ip : String) (start : ℕ) (r : Lockout.Request) (l : Lockout.Lockout)
    (response : Lockout.Response) (l' : Lockout.Lockout) (gs : List ℕ)
    → str_eq r.ip ip ≡ false
    → Step ip r l response l'
    → Run start (view ip l') gs
    → Run start (view ip l) (if Lockout.is_guess ip r response then r.arrived ∷ gs else gs)
other-Run ip start r l response l' gs e (same kept no_guess) run =
    rw no_guess (subst (λ e. Run start e gs) kept run)
other-Run ip start r l response l' gs e (guessed failed free is_guess) run = absurd (ground arith)

guesses-Run :
    (ip : String) (start : ℕ) (rs : List Lockout.Request) (l : Lockout.Lockout)
    → All (Fails ip) rs
    → Sequential ip start rs
    → Run start (view ip l) (Lockout.guesses ip rs l)
guesses-Run ip start [] l fails seq = rw no_guesses (end start (view ip l))
guesses-Run ip start (r ∷ rs) l fails seq = elim (Bool-cases (str_eq r.ip ip)) [
  | inl e ↦
      let own : (start ≤ r.arrived) × (r.arrived ≤ r.finished) × Sequential ip r.finished rs =
        rw e at seq in
      rw guesses_lem (
        step-Run ip start r l _ _ _ (unlock-Step ip r l fails.0) own.0 own.1
          (guesses-Run ip r.finished rs _ fails.1 own.2))
  | inr e ↦
      let other : Sequential ip start rs = rw e at seq in
      rw guesses_lem (
        other-Run ip start r l _ _ _ e (unlock-Step ip r l fails.0)
          (guesses-Run ip start rs _ fails.1 other))
]

-- Nothing is tried before an instant that the clock or the lock forbids.
all_after :
    (bound : ℕ) {s : ℕ} {e : Lockout.Entry} {gs : List ℕ}
    → Run s e gs
    → (bound ≤ s) ⊎ (bound ≤ e.until)
    → (i b : ℕ) → get_elem? gs i ≡ some b
    → bound ≤ b
unfolding Lockout.fail_once
all_after bound (end s e) h i b q = cc
all_after bound (pass le run) (inl h) i b q = all_after bound run (inl (omega arith)) i b q
all_after bound (pass le run) (inr h) i b q = all_after bound run (inr h) i b q
all_after bound (guess a f h k free run) c zero b q = ground arith
all_after bound (guess a f h k free run) c (suc i) b q =
    all_after bound run (inl (ground arith)) i b q

-- From an entry with `n` failures, the guess after `10 - n` more waits for the lock.
waits :
    (m : ℕ) {s : ℕ} {e : Lockout.Entry} {gs : List ℕ}
    → Run s e gs
    → m ≤ s
    → e.failures < Lockout.threshold
    → (j b : ℕ) → Lockout.threshold ≤ j + e.failures
    → get_elem? gs j ≡ some b
    → m + Lockout.duration ≤ b
unfolding Lockout.fail_once
waits m (end s e) le small j b far q = cc
waits m (pass le' run) le small j b far q = waits m run (omega arith) small j b far q
waits m (guess a f h k free run) le small zero b far q = absurd (omega arith)
waits m (guess a f {e = e} h k free run) le small (suc j) b far q =
    elim (Bool-cases (leb Lockout.threshold (e.failures + 1))) [
      | inl locks ↦ all_after (m + Lockout.duration) run (inr (ground arith)) j b q
      | inr counts ↦ waits m run (omega arith) (ground arith) j b (ground arith) q
    ]

spaced :
    {s : ℕ} {e : Lockout.Entry} {gs : List ℕ}
    → Run s e gs
    → e.failures < Lockout.threshold
    → (i j a b : ℕ) → j ≡ i + Lockout.threshold
    → get_elem? gs i ≡ some a
    → get_elem? gs j ≡ some b
    → a + Lockout.duration ≤ b
unfolding Lockout.fail_once
spaced (end s e) small i j a b e' p q = cc
spaced (pass le run) small i j a b e' p q = spaced run small i j a b e' p q
spaced (guess x f h k free run) small i zero a b e' p q = absurd (omega arith)
spaced (guess x f {e = e} h k free run) small zero (suc j) a b e' p q =
    elim (Bool-cases (leb Lockout.threshold (e.failures + 1))) [
      | inl locks ↦ all_after (a + Lockout.duration) run (inr (ground arith)) j b q
      | inr counts ↦ waits a run (ground arith) (ground arith) j b (ground arith) q
    ]
spaced (guess x f h k free run) small (suc i) (suc j) a b e' p q =
    spaced run (ground arith) i j a b (ground arith) p q

-- Of an address whose own requests come one after another, none of them with the right password,
-- and whose counter is below the threshold, the guess ten places after another arrives at least
-- fifteen minutes later. The requests of other addresses may come at any time with any password.
pub guesses-spaced :
    (ip : String) (start : ℕ) (requests : List Lockout.Request) (l : Lockout.Lockout) (i j a b : ℕ)
    → All (Fails ip) requests
    → Sequential ip start requests
    → (view ip l).failures < Lockout.threshold
    → j ≡ i + Lockout.threshold
    → get_elem? (Lockout.guesses ip requests l) i ≡ some a
    → get_elem? (Lockout.guesses ip requests l) j ≡ some b
    → a + Lockout.duration ≤ b
guesses-spaced ip start requests l i j a b fails seq small apart p q =
    spaced (guesses-Run ip start requests l fails seq) small i j a b apart p q
