-- ===== src/Lockout/Examples.antt =====
-- Runs of the unlock endpoint, with the theorems applied to them.
use marchi.Prelude.{ℕ, ◌+◌, ◌≤◌, ◌≡◌, refl, All, some, List, [], ◌∷◌, arith, get_elem?}
use marchi.Prelude.Dict.{empty, lookup, insert}
use marchi.Lockout
use marchi.Lockout.Counter.{Fails}
use marchi.Lockout.Spacing.{Sequential, guesses-spaced}

abbrev guess_at : ℕ → Lockout.Request
guess_at n = record {
  ip = "10.0.0.7";
  arrived = n;
  finished = n + 1;
  outcome = Lockout.wrong_password;
}

-- Ten wrong passwords, one more while the lock holds, and one when it is over.
abbrev attack : List Lockout.Request
attack =
    guess_at 1
    ∷ guess_at 3
    ∷ guess_at 5
    ∷ guess_at 7
    ∷ guess_at 9
    ∷ guess_at 11
    ∷ guess_at 13
    ∷ guess_at 15
    ∷ guess_at 17
    ∷ guess_at 19
    ∷ guess_at 21
    ∷ guess_at (20 + Lockout.duration)
    ∷ []

first_guess : get_elem? (Lockout.guesses "10.0.0.7" attack Lockout.new_unlock_lockout) 0 ≡ some 1
unfolding Lockout.guesses Lockout.unlock Lockout.respond Lockout.record_failure Lockout.fail_once
    Lockout.locked_until lookup insert empty
first_guess = refl

eleventh_guess :
    get_elem? (Lockout.guesses "10.0.0.7" attack Lockout.new_unlock_lockout) 10
    ≡ some (20 + Lockout.duration)
unfolding Lockout.guesses Lockout.unlock Lockout.respond Lockout.record_failure Lockout.fail_once
    Lockout.locked_until lookup insert empty
eleventh_guess = refl

attack-Fails : All (Fails "10.0.0.7") attack
attack-Fails = (
  λ e h. cc,
  (
    λ e h. cc,
    (
      λ e h. cc,
      (
        λ e h. cc,
        (
          λ e h. cc,
          (
            λ e h. cc,
            (λ e h. cc, (λ e h. cc, (λ e h. cc, (λ e h. cc, (λ e h. cc, (λ e h. cc, tt)))))),
          ),
        ),
      ),
    ),
  ),
)

attack-Sequential : Sequential "10.0.0.7" 0 attack
attack-Sequential = (
  omega arith,
  omega arith,
  (
    omega arith,
    omega arith,
    (
      omega arith,
      omega arith,
      (
        omega arith,
        omega arith,
        (
          omega arith,
          omega arith,
          (
            omega arith,
            omega arith,
            (
              omega arith,
              omega arith,
              (
                omega arith,
                omega arith,
                (
                  omega arith,
                  omega arith,
                  (
                    omega arith,
                    omega arith,
                    (omega arith, omega arith, (omega arith, omega arith, tt)),
                  ),
                ),
              ),
            ),
          ),
        ),
      ),
    ),
  ),
)

guesses-spaced_example : 1 + Lockout.duration ≤ 20 + Lockout.duration
unfolding lookup empty
guesses-spaced_example =
    guesses-spaced "10.0.0.7" 0 attack Lockout.new_unlock_lockout 0 10 1 (20 + Lockout.duration)
      attack-Fails attack-Sequential (omega arith) refl first_guess eleventh_guess
