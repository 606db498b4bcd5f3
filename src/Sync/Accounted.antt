-- ===== src/Sync/Accounted.antt =====
-- The watermark of `FetchNewMessages` of internal/sync/fetch.go and the messages that it passes,
-- and the messages that are deleted on the server.
use marchi.Prelude.{
  ℕ, ◌+◌, ◌%◌, ◌^◌, ◌≤◌, ◌<◌, ◌≡◌, refl, ◌⊎◌, inl, inr, Bool, false, Option, List, [], ◌∷◌, arith,
  Bool-cases, ap, subst, sym, All, All-map, All-at, Some, ltb,
}
use marchi.Rules.Node.{Rule}
use marchi.Rules.Parse.{GoLib}
use marchi.Sync.Message.{Message}
use marchi.Sync.Archive.{Archive, Faults, Target, update_last_uid}
use marchi.Sync.Fetch.{Fetch, Failure, fetch_new_messages, Server}
use marchi.Sync.Effect.{Grows, Grows-refl, Grows-trans, Copied-Grows}
use marchi.Sync.Removed.{Has}
use marchi.Sync.Trace.{
  Accounted, by_rule, copied, HasCopy, Trace, finish, cancel, halt, go, fetched,
}

-- In the order in which the server answers: ascending.
abbrev pub Ascending : ℕ → List Message → Type 0
Ascending b [] = Unit
Ascending b (m ∷ ms) = (b < m.uid) × Ascending m.uid ms

Ascending-All : (b c : ℕ) (ms : List Message) → b ≤ c → Ascending c ms → All (λ m. b < m.uid) ms
Ascending-All b c [] h k = tt
Ascending-All b c (m ∷ ms) h k = (omega arith, Ascending-All b m.uid ms (omega arith) k.1)

module _ (lib : GoLib) (faults : Faults) (t : Target) (rules : List Rule) where
  Accounted-Grows :
      (m : Message) (a b : Archive)
      → Grows a b
      → Accounted lib faults t rules m a
      → Accounted lib faults t rules m b
  Accounted-Grows m a b g (by_rule p e h) = by_rule p e h
  Accounted-Grows m a b g (copied p e h) = copied p e (Copied-Grows t m.uid p a b g h)

  Trace-Grows :
      {ms : List Message} {f : Fetch} {r : Option Failure × Fetch}
      → Trace lib faults t rules ms f r
      → Grows f.store r.1.store
  Trace-Grows (finish f) = Grows-refl f.store
  Trace-Grows (cancel m ms f) = Grows-refl f.store
  Trace-Grows (halt m ms e f' h) = h.grows
  Trace-Grows (go m ms f' h rest) = Grows-trans _ _ _ h.grows (Trace-Grows rest)

  abbrev watermark : Fetch → ℕ
  watermark f = f.store.last_uid t.folder_id

  -- Behind `w`, a message that the watermark has reached has been dealt with.
  abbrev pub Reached : ℕ → ℕ → Archive → Message → Type 0
  Reached w mark a m = w < m.uid → m.uid ≤ mark → Accounted lib faults t rules m a

  beyond :
      (w b : ℕ) (f f' : Fetch) (ms : List Message)
      → Ascending b ms
      → (watermark f ≤ w) ⊎ (watermark f ≤ b)
      → watermark f' ≡ watermark f
      → All (Reached w (watermark f') f'.store) ms
  beyond w b f f' ms asc h e =
      All-map (λ m. b < m.uid) (Reached w (watermark f') f'.store)
        (λ m k l r. absurd (elim h [ inl x ↦ omega arith | inr x ↦ omega arith ])) ms
        (Ascending-All b b ms (omega arith) asc)

  raised :
      (w b : ℕ) (m : Message) (f f' : Fetch)
      → watermark f' ≡ update_last_uid t.folder_id m.uid f.store.last_uid t.folder_id
      → b < m.uid
      → (watermark f ≤ w) ⊎ (watermark f ≤ b)
      → (watermark f' ≤ w) ⊎ (watermark f' ≤ m.uid)
  raised w b m f f' e l h = elim (Bool-cases (ltb (watermark f) m.uid)) [
    | inl k ↦ inr (ground arith)
    | inr k ↦ elim h [ inl x ↦ inl (ground arith) | inr x ↦ absurd (ground arith) ]
  ]

  Trace-Reached :
      (w b : ℕ) {ms : List Message} {f : Fetch} {r : Option Failure × Fetch}
      → Trace lib faults t rules ms f r
      → Ascending b ms
      → (watermark f ≤ w) ⊎ (watermark f ≤ b)
      → All (Reached w (watermark r.1) r.1.store) ms
  Trace-Reached w b (finish f) asc h = tt
  Trace-Reached w b (cancel m ms f) asc h = beyond w b f f (m ∷ ms) asc h refl
  Trace-Reached w b (halt m ms {f} e f' s) asc h =
      beyond w b f f' (m ∷ ms) asc h (ap (λ l. l t.folder_id) s.mark)
  Trace-Reached w b (go m ms {f} f' s rest) asc h = (
    (λ l k. Accounted-Grows m f'.store _ (Trace-Grows rest) s.fate),
    Trace-Reached w m.uid rest asc.1 (raised w b m f f' (ap (λ l. l t.folder_id) s.mark) asc.0 h),
  )

  -- Why a message is gone from the mailbox: it was gone before; it is one of the answers, with a
  -- copy; or it was flagged \Deleted before, and the server has no UID EXPUNGE.
  abbrev pub Excused : ℕ → List Message → Fetch → Archive → Type 0
  Excused u ms f a =
      Has u f.deleted
      ⊎ (Some (λ m. (m.uid ≡ u) × HasCopy lib faults t rules m a) ms
          ⊎ ((faults.uid_plus ≡ false) × Has u f.flagged))

  own_copy :
      (u : ℕ) (m : Message) (ms : List Message) (f f' : Fetch) (a : Archive)
      → Grows f'.store a
      → (u ≡ m.uid) × HasCopy lib faults t rules m f'.store
      → Excused u (m ∷ ms) f a
  own_copy u m ms f f' a g (q, c) =
      inr (inl (inl (sym q, (c.0, c.1, Copied-Grows t m.uid c.0 _ _ g c.2))))

  Trace-Deleted :
      (u : ℕ) {ms : List Message} {f : Fetch} {r : Option Failure × Fetch}
      → Trace lib faults t rules ms f r
      → Has u r.1.deleted
      → Excused u ms f r.1.store
  Trace-Deleted u (finish f) h = inl h
  Trace-Deleted u (cancel m ms f) h = inl h
  Trace-Deleted u (halt m ms e f' s) h = inl (subst (Has u) s.gone h)
  Trace-Deleted u (go m ms {f} f' s rest) h = elim (Trace-Deleted u rest h) [
    | inl before ↦ elim ((s.gone u).0 before) [
      | inl old ↦ inl old
      | inr (inl own) ↦ own_copy u m ms f f' _ (Trace-Grows rest) own
      | inr (inr flag) ↦ inr (inr flag)
    ]
    | inr (inl later) ↦ inr (inl (inr later))
    | inr (inr (e, flag)) ↦ elim ((s.gone u).1 flag) [
      | inl old ↦ inr (inr (e, old))
      | inr own ↦ own_copy u m ms f f' _ (Trace-Grows rest) own
    ]
  ]

  fetched-Reached :
      (sync_enabled stopping : Bool) (server : Server) (f : Fetch)
      → f.last_uid ≡ f.store.last_uid t.folder_id
      → Ascending 0 (server.answers ((f.last_uid + 1) % 2 ^ 32))
      → let r = (fetch_new_messages lib faults t rules sync_enabled stopping server f).1 in
        All
          (Reached f.last_uid (r.store.last_uid t.folder_id) r.store)
          (server.answers ((f.last_uid + 1) % 2 ^ 32))
  fetched-Reached sync_enabled stopping server f same asc =
      fetched lib faults t rules
        (λ r.
          All (Reached f.last_uid (watermark r) r.store)
            (server.answers ((f.last_uid + 1) % 2 ^ 32)))
        sync_enabled stopping server f (beyond f.last_uid 0 f f _ asc (inl (omega arith)) refl)
        (λ r tr. Trace-Reached f.last_uid 0 tr asc (inl (omega arith)))

  -- No message is lost. When the folder's LastUID is the stored watermark and the server answers in
  -- the order of the UIDs, each answer with a UID above the old watermark and not above the new one
  -- has been dealt with after the fetch, whatever fails in it: a rule says to skip it, or the archive
  -- has a row and a file for it, or the account has a row with its Message-ID.
  pub fetch_new_messages-Accounted :
      (sync_enabled stopping : Bool) (server : Server) (f : Fetch) (m : Message)
      → f.last_uid ≡ f.store.last_uid t.folder_id
      → Ascending 0 (server.answers ((f.last_uid + 1) % 2 ^ 32))
      → Some (λ x. x ≡ m) (server.answers ((f.last_uid + 1) % 2 ^ 32))
      → f.last_uid < m.uid
      → m.uid
        ≤ (fetch_new_messages lib faults t rules sync_enabled stopping server f).1.store.last_uid
            t.folder_id
      → Accounted lib faults t rules m
          (fetch_new_messages lib faults t rules sync_enabled stopping server f).1.store
  fetch_new_messages-Accounted sync_enabled stopping server f m same asc answered above reached =
      All-at (Reached f.last_uid _ _) _ (fetched-Reached sync_enabled stopping server f same asc)
        answered above reached

  -- A message that is gone from the mailbox behind a fetch was gone before; or it is one of the
  -- answers, and after the fetch the archive has a row and a file for it, or the account has a row
  -- with its Message-ID; or it was flagged \Deleted before the fetch, and the server does not have
  -- UID EXPUNGE.
  pub fetch_new_messages-deletes :
      (sync_enabled stopping : Bool) (server : Server) (f : Fetch) (uid : ℕ)
      → Has uid (fetch_new_messages lib faults t rules sync_enabled stopping server f).1.deleted
      → Excused uid
          (server.answers ((f.last_uid + 1) % 2 ^ 32))
          f
          (fetch_new_messages lib faults t rules sync_enabled stopping server f).1.store
  fetch_new_messages-deletes sync_enabled stopping server f uid =
      fetched lib faults t rules
        (λ r.
          Has uid r.deleted → Excused uid (server.answers ((f.last_uid + 1) % 2 ^ 32)) f r.store)
        sync_enabled stopping server f (λ h. inl h) (λ r tr. Trace-Deleted uid tr)
