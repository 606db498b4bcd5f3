-- ===== src/Sync/Message.antt =====
-- A fetched message and what is read of it: the `Metadata` and `Attachment` of
-- internal/mimeparse, and `parseMessage` and `candidateFrom` of internal/sync/fetch.go.
use marchi.Prelude.{
  ℕ, zero, suc, ◌+◌, ◌/◌, ◌%◌, String, Option, List, map, length, ltb, if◌then◌else◌,
}
use marchi.Prelude.Int.{ℤ, pos}
use marchi.Rules.Node.{Candidate}
use Prim.Native.String.{◌++◌, slice}

pub record Metadata : Type 0 where
  pub message_id : String
  pub subject : String
  pub from : String
  pub from_addr : String
  pub to : List String
  pub to_addrs : List String
  pub cc : List String
  pub cc_addrs : List String
  pub date : ℤ

pub record Attachment : Type 0 where
  pub filename : String
  pub mime_type : String
  pub size : ℕ
  pub content_id : String

-- A body that was read in full, with what internal/mimeparse makes of it. `size` counts its bytes.
pub record Parsed : Type 0 where
  pub raw : String
  pub size : ℕ
  pub md : Metadata
  pub attachments : List Attachment

-- One answer of UID FETCH. `body` is `none` where the server sent no body or reading it failed.
pub record Message : Type 0 where
  pub uid : ℕ
  pub flags : List String
  pub body : Option Parsed

abbrev pub candidate_from : Parsed → String → ℕ → Candidate
candidate_from p folder_name account_id = record {
  from = p.md.from;
  from_addr = p.md.from_addr;
  to = p.md.to;
  to_addrs = p.md.to_addrs;
  cc = p.md.cc;
  cc_addrs = p.md.cc_addrs;
  subject = p.md.subject;
  attached = ltb 0 (length p.attachments);
  attachment_types = map (λ a. a.mime_type) p.attachments;
  size = pos p.size;
  date = p.md.date;
  folder_name = folder_name;
  account_id = pos account_id;
}

-- The decimal print of a number of at most twenty digits, as every 64-bit number is.
abbrev decimal_of : ℕ → ℕ → String
decimal_of zero n = ""
decimal_of (suc fuel) n =
    let front = decimal_of fuel (n / 10) in
    if ltb n 10
    then slice "0123456789" n (n + 1)
    else front ++ slice "0123456789" (n % 10) (n % 10 + 1)

abbrev pub decimal : ℕ → String
decimal = decimal_of 20

-- The Message-ID of a message that has none.
abbrev pub no_message_id : ℕ → ℕ → ℕ → String
no_message_id account folder uid =
    "<no-message-id-"
    ++ decimal account
    ++ "-"
    ++ decimal folder
    ++ "-"
    ++ decimal uid
    ++ "@marchi.local>"
