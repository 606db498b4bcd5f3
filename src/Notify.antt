-- ===== src/Notify.antt =====
-- Failure notifications: internal/notify/notify.go and internal/notify/throttle.go. Instants are
-- nanoseconds. `Notify` of the throttle reads the clock and changes its map under one lock, so that
-- calls come one after another, with instants that do not fall.
pub mod Thinning
pub mod Examples
use Prim.Native.String.{◌++◌ as str_append}
use marchi.Prelude.{
  ℕ, ◌+◌, String, Bool, false, Option, none, some, List, [], ◌∷◌, ◌++◌, ltb, if◌then◌else◌, str_eq,
}
use marchi.Prelude.Dict.{Dict, empty, lookup, insert}

pub record Event : Type 0 where
  pub kind : String
  pub message : String
  pub account_email : String

-- A call of a channel's `Notify`; channels go by their number.
pub record Attempt : Type 0 where
  pub channel : ℕ
  pub at : ℕ
  pub event : Event

-- What the channels were asked to deliver, and the failures that `OnError` was given.
pub record Outbox : Type 0 where
  pub attempts : List Attempt
  pub reported : List Attempt

-- Whether a channel fails to deliver an event.
module _ (down : Attempt → Bool) where
  abbrev pub try : Attempt → Outbox → Outbox
  try a o = record {
    attempts = o.attempts ++ a ∷ [];
    reported = if down a then o.reported ++ a ∷ [] else o.reported;
  }

  -- `MultiNotifier.Notify`: every channel in turn.
  unfoldable pub notify_all : List ℕ → ℕ → Event → Outbox → Outbox
  notify_all [] now e o = o
  notify_all (c ∷ cs) now e o =
      notify_all cs now e (try (record { channel = c; at = now; event = e }) o)

pub record Throttled : Type 0 where
  pub last : Dict ℕ
  pub outbox : Outbox

abbrev pub key_of : Event → String
key_of e =
    if str_eq e.account_email "" then e.kind else str_append e.kind (str_append "|" e.account_email)

-- `Throttle`
abbrev pub throttle : Throttled
throttle = record { last = empty; outbox = record { attempts = []; reported = [] } }

-- now.Sub(last) < cooldown
abbrev pub is_recent : ℕ → ℕ → Option ℕ → Bool
is_recent cooldown now none = false
is_recent cooldown now (some last) = ltb now (last + cooldown)

module _ (down : Attempt → Bool) (channels : List ℕ) (cooldown : ℕ) where
  unfoldable pub notify : ℕ → Event → Throttled → Throttled
  notify now e t = if is_recent cooldown now (lookup (key_of e) t.last) then t else record {
    last = insert (key_of e) now t.last;
    outbox = notify_all down channels now e t.outbox;
  }

  unfoldable pub notify_each : List (ℕ × Event) → Throttled → Throttled
  notify_each [] t = t
  notify_each ((now, e) ∷ rest) t = notify_each rest (notify now e t)
