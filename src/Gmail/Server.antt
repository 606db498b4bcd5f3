-- ===== src/Gmail/Server.antt =====
-- What Gmail answers, and the listings of internal/sync/gmailapi_sync.go: `listAllMessageIDs`,
-- `listHistoryMessageIDs` and `resolveMessageIDs`. The loops over pages take fuel, one for a page.
use marchi.Prelude.{
  ℕ, zero, suc, String, Bool, Option, none, some, List, [], ◌∷◌, ◌++◌, if◌then◌else◌, str_eq,
}
use marchi.Sync.Message.{Parsed}

pub record MessageList : Type 0 where
  pub messages : List String
  pub next_page_token : String

-- The ids of `messagesAdded`, record by record.
pub record HistoryList : Type 0 where
  pub history : List (List String)
  pub next_page_token : String
  pub history_id : String

pub data HistoryAnswer : Type 0 where
  history_page : HistoryList → HistoryAnswer
  history_expired : HistoryAnswer
  history_failed : HistoryAnswer

-- A message with its labels, an answer whose body cannot be decoded, or an error of the request.
pub data RawAnswer : Type 0 where
  not_fetched : RawAnswer
  undecodable : RawAnswer
  raw : List String → Parsed → RawAnswer

-- Requests are answered by what they ask for. A shutdown is seen before a page, or before the
-- message with its place in the batch.
pub record Gmail : Type 0 where
  pub profile : Option String
  pub list_messages : String → Option MessageList
  pub list_history : String → String → HistoryAnswer
  pub get_message_raw : String → RawAnswer
  pub modify_labels : String → Bool
  pub trash : String → Bool
  pub stopping_at_page : String → Bool
  pub stopping_at : ℕ → Bool

-- `paging` is a loop that has not come to its last page. A listing gives the ids and the next
-- cursor.
pub data Listing : Type 0 where
  paging : Listing
  list_failed : Listing
  expired : Listing
  listed : List String → String → Listing

abbrev pub added_ids : List (List String) → List String
added_ids [] = []
added_ids (ids ∷ records) = ids ++ added_ids records

module _ (g : Gmail) where
  abbrev pub list_page :
      Option MessageList → List String → (String → List String → Listing) → Listing
  list_page none ids next = list_failed
  list_page (some page) ids next =
      if str_eq page.next_page_token ""
      then listed (ids ++ page.messages) ""
      else next page.next_page_token (ids ++ page.messages)

  unfoldable pub list_all_message_ids : ℕ → String → List String → Listing
  list_all_message_ids zero page_token ids = paging
  list_all_message_ids (suc fuel) page_token ids =
      if g.stopping_at_page page_token
      then list_failed
      else list_page (g.list_messages page_token) ids (list_all_message_ids fuel)

  abbrev pub history_step :
      HistoryAnswer → List String → String → (String → String → List String → Listing) → Listing
  history_step history_failed ids latest next = list_failed
  history_step history_expired ids latest next = expired
  history_step (history_page page) ids latest next =
      let latest' = if str_eq page.history_id "" then latest else page.history_id in
      if str_eq page.next_page_token ""
      then listed (ids ++ added_ids page.history) latest'
      else next page.next_page_token latest' (ids ++ added_ids page.history)

  unfoldable pub list_history_message_ids : ℕ → String → String → String → List String → Listing
  list_history_message_ids zero start page_token latest ids = paging
  list_history_message_ids (suc fuel) start page_token latest ids =
      if g.stopping_at_page page_token
      then list_failed
      else history_step (g.list_history start page_token) ids latest
          (list_history_message_ids fuel start)

  abbrev pub with_cursor : String → Listing → Listing
  with_cursor history_id (listed ids _) = listed ids history_id
  with_cursor history_id paging = paging
  with_cursor history_id list_failed = list_failed
  with_cursor history_id expired = expired

  -- The profile is read before the listing begins.
  abbrev pub full_listing : ℕ → Option String → Listing
  full_listing fuel none = list_failed
  full_listing fuel (some history_id) = with_cursor history_id (list_all_message_ids fuel "" [])

  abbrev pub or_full_listing : ℕ → Listing → Listing
  or_full_listing fuel expired = full_listing fuel g.profile
  or_full_listing fuel paging = paging
  or_full_listing fuel list_failed = list_failed
  or_full_listing fuel (listed ids history_id) = listed ids history_id

  unfoldable pub resolve_message_ids : ℕ → String → Listing
  resolve_message_ids fuel current =
      if str_eq current ""
      then full_listing fuel g.profile
      else or_full_listing fuel (list_history_message_ids fuel current "" current [])
