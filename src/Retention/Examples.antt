-- ===== src/Retention/Examples.antt =====
-- A retention run over three messages, with the theorems applied to it.
use marchi.Prelude.{ℕ, ◌-◌, ◌*◌, ◌≡◌, refl, inl, inr, true, false, none, some, [], ◌∷◌, ◌==◌, Some}
use marchi.Retention.Table.{Email, local, s3}
use marchi.Retention.Runner.{State, Faults, Policy, Account, no_stats, expire_one}
use marchi.Retention.Sound.{has, Sound}
use marchi.Retention.Kept.{expire_one-shared}

-- A bucket that refuses one deletion, and a table that refuses one move.
abbrev some_faults : Faults
some_faults = record {
  listing = λ a. false;
  listing_s3_only = λ a. false;
  moving = λ i. i == 2;
  deleting = λ i. false;
  unlinking = λ p. false;
  unindexing = λ i. true;
  s3_deleting = λ k. false;
}

-- Uploaded, and old enough to be moved.
abbrev first : Email
first = record {
  id = 1;
  account_id = 7;
  location = local;
  local_path = "new/1";
  s3_key = "a.eml";
  s3_etag = some "etag";
  s3_only_since = none;
  created_at = 100;
}

-- As old, but never uploaded.
abbrev second : Email
second = record first { id = 2; local_path = "new/2"; s3_key = ""; s3_etag = none }

-- Moved long ago.
abbrev third : Email
third = record {
  id = 3;
  account_id = 7;
  location = s3;
  local_path = "";
  s3_key = "c.eml";
  s3_etag = some "etag";
  s3_only_since = some 50;
  created_at = 10;
}

abbrev store : State
store = record {
  emails = first ∷ second ∷ third ∷ [];
  files = "new/1" ∷ "new/2" ∷ [];
  objects = "a.eml" ∷ "c.eml" ∷ [];
  documents = 1 ∷ 2 ∷ 3 ∷ [];
  stats = no_stats;
}

abbrev account : Account
account = record {
  id = 7;
  retention = record { local_days = none; move_to_s3_days = some 3; s3_days = none };
}

abbrev global : Policy
global = record { local_days = some 1; move_to_s3_days = some 9; s3_days = some 8 }

abbrev days_before : ℕ → ℕ → ℕ
days_before now d = now - 86400 * d

-- A second row with the content of `third`, which the first one's object serves too.
abbrev twin : Email
twin = record third { id = 4; s3_only_since = some 900 }

abbrev shared_store : State
shared_store = record store { emails = third ∷ twin ∷ [] }

expire_one-shared_example :
    Some (λ x. x ≡ twin) (expire_one some_faults true (λ n. n) third shared_store).emails
    × (has "c.eml" (expire_one some_faults true (λ n. n) third shared_store).objects ≡ false)
expire_one-shared_example =
    expire_one-shared some_faults true (λ n. n) third twin shared_store refl refl refl refl refl
      (inr (inl refl))
