-- ===== src/Graph/Server.antt =====
-- What Microsoft Graph answers: the types of internal/msgraph/client.go.
use marchi.Prelude.{ℕ, String, Bool, Option, List}
use marchi.Sync.Message.{Parsed}

pub record MailFolder : Type 0 where
  pub id : String
  pub display_name : String
  pub child_folder_count : ℕ

pub record MessageStub : Type 0 where
  pub id : String
  pub is_read : Bool
  pub flag_status : Option String
  pub removed : Bool

pub record DeltaPage : Type 0 where
  pub value : List MessageStub
  pub next_link : String
  pub delta_link : String

-- Requests are answered by what they ask for; `none` and `true` are errors. A message's body comes
-- parsed. A shutdown is seen before a folder, before a page of a folder, or before the message of a
-- folder that has a number of others before it.
pub record Graph : Type 0 where
  pub list_mail_folders : Option (List MailFolder)
  pub list_child_folders : String → Option (List MailFolder)
  pub delta_messages : String → String → Option DeltaPage
  pub get_message_raw : String → Option Parsed
  pub mark_read : String → Bool
  pub delete : String → Bool
  pub stopping_before : String → Bool
  pub stopping_at_page : String → String → Bool
  pub stopping_at : String → ℕ → Bool
