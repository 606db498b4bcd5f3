-- ===== src/Notify/Examples.antt =====
-- Five events of a failing account and a full disk, over two channels of which one is down.
use marchi.Prelude.{ℕ, ◌≡◌, refl, none, List, [], ◌∷◌, true, String}
use marchi.Prelude.Dict.{lookup, insert, empty}
use marchi.Notify.{Event, throttle, notify_all, notify, notify_each}
use marchi.Notify.Thinning.{of_key, thin, Spaced, received, notify_each-received}

abbrev failed : Event
failed = record { kind = "sync_failed"; message = "no route"; account_email = "a@x.org" }

abbrev disk_low : Event
disk_low = record { kind = "disk_space_low"; message = "only 3 MB"; account_email = "" }

abbrev events : List (ℕ × Event)
events = (10, failed) ∷ (20, disk_low) ∷ (60, failed) ∷ (110, failed) ∷ (120, disk_low) ∷ []

abbrev failed_key : String
failed_key = "sync_failed|a@x.org"

failures_sent :
    received 1 failed_key (notify_each (λ a. true) (0 ∷ 1 ∷ []) 100 events throttle).outbox.attempts
    ≡ 10 ∷ 110 ∷ []
unfolding notify_each notify notify_all lookup insert empty
failures_sent = refl

notify_each-received_example :
    let asks =
      received 1 failed_key
        (notify_each (λ a. true) (0 ∷ 1 ∷ []) 100 events throttle).outbox.attempts in
    (asks ≡ thin 100 none (of_key failed_key events)) × Spaced 100 asks
notify_each-received_example =
    notify_each-received (λ a. true) (0 ∷ 1 ∷ []) 100 1 failed_key events refl
