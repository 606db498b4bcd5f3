-- ===== src/Lockout.antt =====
-- The unlock endpoint's lockout: internal/httpapi/unlock_lockout.go and the handler of
-- internal/httpapi/unlock.go. Instants are nanoseconds since Go's zero time, which is 0.
pub mod Spacing
pub mod Counter
pub mod Examples
use marchi.Prelude.{
  false, ℕ, ◌+◌, ◌*◌, ◌^◌, String, Bool, Option, none, some, List, [], ◌∷◌, ltb, leb, str_eq,
  if◌then◌else◌,
}
use marchi.Prelude.Dict.{Dict, empty, lookup, insert, remove}

abbrev pub threshold : ℕ
threshold = 10

-- 15 * time.Minute
abbrev pub duration : ℕ
duration = 15 * 60 * 10 ^ 9

pub record Entry : Type 0 where
  pub failures : ℕ
  pub until : ℕ

-- byIP
abbrev pub Lockout : Type 0
Lockout = Dict Entry

abbrev pub fresh : Entry
fresh = record { failures = 0; until = 0 }

abbrev pub new_unlock_lockout : Lockout
new_unlock_lockout = empty

-- `none` is "not locked".
unfoldable pub locked_until : String → ℕ → Lockout → Option ℕ
locked_until ip now l = elim (lookup ip l) [
  | none ↦ none
  | some e ↦ if ltb now e.until then some e.until else none
]

abbrev pub entry_of : Option Entry → Entry
entry_of none = fresh
entry_of (some e) = e

-- One more failure at `now`.
unfoldable pub fail_once : ℕ → Entry → Entry
fail_once now e =
    if leb threshold (e.failures + 1)
    then record { failures = 0; until = now + duration }
    else record e { failures = e.failures + 1 }

unfoldable pub record_failure : String → ℕ → Lockout → Lockout
record_failure ip now l = insert ip (fail_once now (entry_of (lookup ip l))) l

unfoldable pub record_success : String → Lockout → Lockout
record_success ip l = remove ip l

-- What the rest of the handler meets: the body does not parse, `UnlockDEK` finds the password too
-- short, or wrong, or right, and then the vault may still refuse.
pub data Outcome : Type 0 where
  bad_body too_short wrong_password vault_error unlocked : Outcome

pub data Response : Type 0 where
  too_many_requests bad_request unauthorized internal_error ok : Response

-- A request is checked at `arrived`; a failure is recorded at `finished`.
pub record Request : Type 0 where
  pub ip : String
  pub arrived : ℕ
  pub finished : ℕ
  pub outcome : Outcome

unfoldable pub respond : Outcome → String → ℕ → Lockout → Response × Lockout
respond bad_body ip finished l = (bad_request, l)
respond too_short ip finished l = (bad_request, l)
respond wrong_password ip finished l = (unauthorized, record_failure ip finished l)
respond vault_error ip finished l = (internal_error, l)
respond unlocked ip finished l = (ok, record_success ip l)

unfoldable pub unlock : Request → Lockout → Response × Lockout
unlock r l = elim (locked_until r.ip r.arrived l) [
  | some _ ↦ (too_many_requests, l)
  | none ↦ respond r.outcome r.ip r.finished l
]

-- A wrong password that reached `UnlockDEK` from `ip`.
abbrev pub is_guess : String → Request → Response → Bool
is_guess ip r unauthorized = str_eq r.ip ip
is_guess ip r _ = false

-- The arrivals of the guesses from `ip`, in order.
unfoldable pub guesses : String → List Request → Lockout → List ℕ
guesses ip [] l = []
guesses ip (r ∷ requests) l =
    let (response, l') = unlock r l in
    let rest = guesses ip requests l' in if is_guess ip r response then r.arrived ∷ rest else rest
