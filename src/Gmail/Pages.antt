-- ===== src/Gmail/Pages.antt =====
-- The loops over pages of internal/sync/gmailapi_sync.go end where Gmail's pages do, and list what
-- stands on them.
use marchi.Prelude.{
  ℕ, zero, suc, ◌≤◌, String, ◌≡◌, true, false, some, List, [], ◌∷◌, ◌++◌, arith, str_eq, length,
  if◌then◌else◌,
}
use mathlib.Core.List.{append-nil, append_assoc}
use marchi.Gmail.Server.{
  Gmail, MessageList, HistoryList, history_page, history_expired, listed, added_ids,
  list_all_message_ids, list_history_message_ids, resolve_message_ids,
}

abbrev pub newer : String → String → String
newer history_id latest = if str_eq history_id "" then latest else history_id

module _ (g : Gmail) where
  -- The pages from a token on: no shutdown is seen before any of them, and the last one has no
  -- token for another.
  pub data Pages : String → List (List String) → Type 0 where
    last :
        (token : String) (page : MessageList)
        → g.stopping_at_page token ≡ false
        → g.list_messages token ≡ some page
        → str_eq page.next_page_token "" ≡ true
        → Pages token (page.messages ∷ [])
    more :
        (token : String) (page : MessageList) (rest : List (List String))
        → g.stopping_at_page token ≡ false
        → g.list_messages token ≡ some page
        → str_eq page.next_page_token "" ≡ false
        → Pages page.next_page_token rest
        → Pages token (page.messages ∷ rest)

  list_all_message_ids-Pages :
      (fuel : ℕ) (ids : List String) {token : String} {pages : List (List String)}
      → Pages token pages
      → length pages ≤ fuel
      → list_all_message_ids g fuel token ids ≡ listed (ids ++ added_ids pages) ""
  unfolding list_all_message_ids
  list_all_message_ids-Pages zero ids (last token page s e q) h = absurd (omega arith)
  list_all_message_ids-Pages zero ids (more token page rest s e q p) h = absurd (omega arith)
  list_all_message_ids-Pages (suc fuel) ids (last token page s e q) h = simp (s, e, q, append-nil)
  list_all_message_ids-Pages (suc fuel) ids (more token page rest s e q p) h =
      let ih = list_all_message_ids-Pages fuel (ids ++ page.messages) p (omega arith) in
      simp (s, e, q, ih, append_assoc)

  no_fuel : {token : String} {pages : List (List String)} → Pages token pages → length pages ≤ 0 → ⊥
  no_fuel (last token page s e q) h = absurd (omega arith)
  no_fuel (more token page rest s e q p) h = absurd (omega arith)

  -- The history's pages from a token on, with the cursor that they leave: the id that the last page
  -- with one gives.
  pub data HistoryPages (start : String)
      : String → String → List (List String) → String → Type 0 where
    last :
        (token latest : String) (page : HistoryList)
        → g.stopping_at_page token ≡ false
        → g.list_history start token ≡ history_page page
        → str_eq page.next_page_token "" ≡ true
        → HistoryPages start token latest
            (added_ids page.history ∷ [])
            (newer page.history_id latest)
    more :
        (token latest : String) (page : HistoryList) (rest : List (List String)) (cursor : String)
        → g.stopping_at_page token ≡ false
        → g.list_history start token ≡ history_page page
        → str_eq page.next_page_token "" ≡ false
        → HistoryPages start page.next_page_token (newer page.history_id latest) rest cursor
        → HistoryPages start token latest (added_ids page.history ∷ rest) cursor

  list_history_message_ids-Pages :
      (fuel : ℕ) (ids : List String) {start token latest cursor : String}
      {pages : List (List String)}
      → HistoryPages start token latest pages cursor
      → length pages ≤ fuel
      → list_history_message_ids g fuel start token latest ids
        ≡ listed (ids ++ added_ids pages) cursor
  unfolding list_history_message_ids
  list_history_message_ids-Pages zero ids (last token latest page s e q) h = absurd (omega arith)
  list_history_message_ids-Pages zero ids (more token latest page rest c s e q p) h =
      absurd (omega arith)
  list_history_message_ids-Pages (suc fuel) ids (last token latest page s e q) h =
      simp (s, e, q, append-nil)
  list_history_message_ids-Pages (suc fuel) ids (more token latest page rest c s e q p) h =
      let ih =
        list_history_message_ids-Pages fuel (ids ++ added_ids page.history) p (omega arith) in
      simp (s, e, q, ih, append_assoc)

  -- How a call finds its batch: from the history behind the cursor where there is one, otherwise,
  -- and where the history has expired, from all messages, with the cursor of the profile.
  pub data Source (current : String) : List (List String) → String → Type 0 where
    delta :
        {pages : List (List String)} {cursor : String}
        → str_eq current "" ≡ false
        → HistoryPages current "" current pages cursor
        → Source current pages cursor
    first :
        {pages : List (List String)} {cursor : String}
        → str_eq current "" ≡ true
        → g.profile ≡ some cursor
        → Pages "" pages
        → Source current pages cursor
    again :
        {pages : List (List String)} {cursor : String}
        → str_eq current "" ≡ false
        → g.stopping_at_page "" ≡ false
        → g.list_history current "" ≡ history_expired
        → g.profile ≡ some cursor
        → Pages "" pages
        → Source current pages cursor

  -- The listing of a batch ends, after as many pages as Gmail has for it at most, and gives the
  -- messages of all of the pages in their order and the next cursor: the newest id of the history,
  -- or, for a full listing, the id that the profile had before it began.
  pub resolve_message_ids-Source :
      (fuel : ℕ) {current cursor : String} {pages : List (List String)}
      → Source current pages cursor
      → length pages ≤ fuel
      → resolve_message_ids g fuel current ≡ listed (added_ids pages) cursor
  unfolding resolve_message_ids list_history_message_ids
  resolve_message_ids-Source fuel (delta c p) h =
      simp (c, list_history_message_ids-Pages fuel [] p h)
  resolve_message_ids-Source fuel (first c pr p) h =
      simp (c, pr, list_all_message_ids-Pages fuel [] p h)
  resolve_message_ids-Source zero (again c s x pr p) h = absurd (no_fuel p h)
  resolve_message_ids-Source (suc fuel) (again c s x pr p) h =
      simp (c, s, x, pr, list_all_message_ids-Pages (suc fuel) [] p h)
