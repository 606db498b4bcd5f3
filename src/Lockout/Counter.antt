-- ===== src/Lockout/Counter.antt =====
-- The failure counters of the addresses: internal/httpapi/unlock_lockout.go.
use marchi.Prelude.{
  ◌⊎◌, ℕ, ◌<◌, ◌≤◌, String, ◌≡◌, ◌≢◌, refl, ap, subst, none, some, arith, ltb, str_eq, eq_iff,
  if◌then◌else◌, Option-cases, Bool-cases, inl, inr, true, false,
}
use marchi.Prelude.Dict.{lookup, lookup-insert, lookup-remove}
use marchi.Lockout

-- What the table knows of an address.
abbrev pub view : String → Lockout.Lockout → Lockout.Entry
view ip l = Lockout.entry_of (lookup ip l)

view-record_failure :
    (ip j : String) (now : ℕ) (l : Lockout.Lockout)
    → view j (Lockout.record_failure ip now l)
      ≡ (if str_eq ip j then Lockout.fail_once now (view ip l) else view j l)
unfolding Lockout.record_failure
view-record_failure ip j now l = rw lookup-insert (ground (arith, eq_iff ip j))

view-record_success :
    (ip j : String) (l : Lockout.Lockout)
    → view j (Lockout.record_success ip l) ≡ (if str_eq ip j then Lockout.fresh else view j l)
unfolding Lockout.record_success
view-record_success ip j l = rw lookup-remove (ground (arith, eq_iff ip j))

locked_until-view :
    (ip : String) (now : ℕ) (l : Lockout.Lockout)
    → Lockout.locked_until ip now l
      ≡ (if ltb now (view ip l).until then some (view ip l).until else none)
unfolding Lockout.locked_until
locked_until-view ip now l = ground arith

respond-view :
    (o : Lockout.Outcome) (ip j : String) (now : ℕ) (l : Lockout.Lockout)
    → (view j l).failures < Lockout.threshold
    → ((view j (Lockout.respond o ip now l).1).failures < Lockout.threshold)
      × (ip ≢ j → view j (Lockout.respond o ip now l).1 ≡ view j l)
unfolding Lockout.respond Lockout.fail_once
respond-view Lockout.wrong_password ip j now l small =
    ground (arith, view-record_failure ip j now l, eq_iff ip j)
respond-view Lockout.unlocked ip j now l small =
    ground (arith, view-record_success ip j l, eq_iff ip j)
respond-view _ ip j now l small = (small, λ ne. refl)

-- What a request does to the table's view of `ip`: nothing, or one more failure.
pub data Step (ip : String) (r : Lockout.Request) (l : Lockout.Lockout)
    : Lockout.Response → Lockout.Lockout → Type 0 where
  same :
      {response : Lockout.Response} {l' : Lockout.Lockout}
      → view ip l' ≡ view ip l
      → Lockout.is_guess ip r response ≡ false
      → Step ip r l response l'
  guessed :
      {response : Lockout.Response} {l' : Lockout.Lockout}
      → view ip l' ≡ Lockout.fail_once r.finished (view ip l)
      → (view ip l).until ≤ r.arrived
      → Lockout.is_guess ip r response ≡ true
      → Step ip r l response l'

abbrev pub Fails : String → Lockout.Request → Type 0
Fails ip r = r.ip ≡ ip → r.outcome ≢ Lockout.unlocked

module _ (ip : String) (r : Lockout.Request) (l : Lockout.Lockout) where
  responded :
      (o : Lockout.Outcome)
      → r.outcome ≡ o
      → Fails ip r
      → Lockout.locked_until r.ip r.arrived l ≡ none
      → Step ip r l (Lockout.respond o r.ip r.finished l).0 (Lockout.respond o r.ip r.finished l).1
  unfolding Lockout.respond
  responded Lockout.bad_body e fails free = same refl refl
  responded Lockout.too_short e fails free = same refl refl
  responded Lockout.vault_error e fails free = same refl refl
  responded Lockout.wrong_password e fails free = elim (Bool-cases (str_eq r.ip ip)) [
    | inl here ↦
        let at_ip : r.ip ≡ ip = (eq_iff r.ip ip).0 here in
        let free' : Lockout.locked_until ip r.arrived l ≡ none =
          subst (λ j. Lockout.locked_until j r.arrived l ≡ none) at_ip free in
        guessed
          (rw (view-record_failure, here)
            (ap (λ (j : String). Lockout.fail_once r.finished (view j l)) at_ip))
          (ground (arith, locked_until-view ip r.arrived l)) here
    | inr there ↦ same (rw (view-record_failure, there)) there
  ]
  responded Lockout.unlocked e fails free = elim (Bool-cases (str_eq r.ip ip)) [
    | inl here ↦ absurd (fails ((eq_iff r.ip ip).0 here) e)
    | inr there ↦ same (rw (view-record_success, there)) refl
  ]

  pub unlock-Step : Fails ip r → Step ip r l (Lockout.unlock r l).0 (Lockout.unlock r l).1
  unfolding Lockout.unlock
  unlock-Step fails = elim (Option-cases (Lockout.locked_until r.ip r.arrived l)) [
    | inl e ↦ rw (e, Lockout.unlock) (responded r.outcome refl fails e)
    | inr (u, e) ↦ rw (e, Lockout.unlock) (same refl refl)
  ]

-- Whatever a request finds, the counter of every address below the threshold stays below it, and
-- the entries of other addresses stay as they were.
unlock-view :
    (r : Lockout.Request) (l : Lockout.Lockout) (j : String)
    → (view j l).failures < Lockout.threshold
    → ((view j (Lockout.unlock r l).1).failures < Lockout.threshold)
      × ((r.ip ≡ j) ⊎ (view j (Lockout.unlock r l).1 ≡ view j l))
unfolding Lockout.unlock
unlock-view r l j small = elim (Option-cases (Lockout.locked_until r.ip r.arrived l)) [
  | inl e ↦
      rw (e, Lockout.unlock)
        (let (bound, kept) = respond-view r.outcome r.ip j r.finished l small in
          (
            bound,
            elim (Bool-cases (str_eq r.ip j)) [
              | inl q ↦ inl ((eq_iff r.ip j).0 q)
              | inr q ↦ inr (kept (λ same. cc ((eq_iff r.ip j).1 same)))
            ],
          ))
  | inr (u, e) ↦ rw (e, Lockout.unlock) (small, inr refl)
]
