-- ===== src/Sync/Archive.antt =====
-- The archive that a sync writes, and `ArchiveOne` and `skipOne` of internal/sync/fetch.go, with
-- `Insert` and `ExistsByAccountMessageID` of internal/db/repo/emails.go and `UpdateLastUID` of
-- internal/db/repo/folders.go.
use marchi.Prelude.{
  ℕ, suc, String, Bool, true, false, ◌&&◌, ◌||◌, not, Option, none, some, List, [], ◌∷◌, ◌++◌, map,
  length, ltb, ◌==◌, if◌then◌else◌, str_eq,
}
use marchi.Prelude.Int.{ℤ}
use marchi.Rules.Evaluate.{any}
use marchi.Sync.Message.{Message, Parsed, Attachment, no_message_id}

-- A row of the emails table. The message's file in new/ goes by the number that the Maildir
-- writer's counter gave it; the time, the process, the host and the flags, which are the rest of
-- its name, take no part.
pub record Row : Type 0 where
  pub id : ℕ
  pub message_id : String
  pub account_id : ℕ
  pub folder_id : ℕ
  pub uid : ℕ
  pub subject : String
  pub from_addr : String
  pub to_addrs : List String
  pub cc_addrs : List String
  pub date : ℤ
  pub size : ℕ
  pub attached : Bool
  pub flags : List String
  pub local_path : ℕ

pub record Upload : Type 0 where
  pub email_id : ℕ
  pub s3_key : String
  pub local_path : ℕ

-- `files` are the files of new/ with their contents, `last_uid` the watermark of each folder, and
-- `documents` the ids in the search index.
pub record Archive : Type 0 where
  pub serial : ℕ
  pub files : List (ℕ × String)
  pub next_id : ℕ
  pub rows : List Row
  pub attachments : List (ℕ × Attachment)
  pub uploads : List Upload
  pub last_uid : ℕ → ℕ
  pub documents : List ℕ

-- How the disk, SQLite, the index and the server answer for the message with a UID, and whether a
-- shutdown has been requested by the time it is received. `flagging` is the flag \Deleted,
-- `deleting` the expunge behind it; `uid_plus` says that the server has UID EXPUNGE.
pub record Faults : Type 0 where
  pub cancelled : ℕ → Bool
  pub checking : ℕ → Bool
  pub skipping : ℕ → Bool
  pub staging : ℕ → Bool
  pub committing : ℕ → Bool
  pub persisting : ℕ → Bool
  pub indexing : ℕ → Bool
  pub marking : ℕ → Bool
  pub flagging : ℕ → Bool
  pub deleting : ℕ → Bool
  pub uid_plus : Bool

-- The folder that is fetched, and the optional dependencies: `s3_key` gives the object key of a
-- message where mirroring is on.
pub record Target : Type 0 where
  pub account_id : ℕ
  pub folder_id : ℕ
  pub folder_name : String
  pub has_index : Bool
  pub s3_key : Option (Parsed → String)

abbrev pub update_last_uid : ℕ → ℕ → (ℕ → ℕ) → ℕ → ℕ
update_last_uid folder uid last f =
    if f == folder then (if ltb (last f) uid then uid else last f) else last f

-- The index UNIQUE(account_id, folder_id, uid).
abbrev pub has_uid : ℕ → ℕ → ℕ → List Row → Bool
has_uid account folder uid =
    any (λ r. r.account_id == account && r.folder_id == folder && r.uid == uid)

unfoldable pub exists_by_account_message_id : ℕ → String → List Row → Bool
exists_by_account_message_id account message_id =
    any (λ r. r.account_id == account && str_eq r.message_id message_id)

-- What `ArchiveOne` returns: an error, or the bytes archived and whether indexing failed.
pub data Outcome : Type 0 where
  not_archived : Outcome
  archived : ℕ → Bool → Outcome

-- The Maildir writer's counter moves on.
abbrev pub next_file : Archive → Archive
next_file a = record a { serial = suc a.serial }

module _ (faults : Faults) (t : Target) where
  abbrev pub message_id_of : ℕ → Parsed → String
  message_id_of uid p =
      if str_eq p.md.message_id ""
      then no_message_id t.account_id t.folder_id uid
      else p.md.message_id

  abbrev pub row_of : Message → Parsed → Archive → Row
  row_of m p a = record {
    id = a.next_id;
    message_id = message_id_of m.uid p;
    account_id = t.account_id;
    folder_id = t.folder_id;
    uid = m.uid;
    subject = p.md.subject;
    from_addr = p.md.from;
    to_addrs = p.md.to;
    cc_addrs = p.md.cc;
    date = p.md.date;
    size = p.size;
    attached = ltb 0 (length p.attachments);
    flags = m.flags;
    local_path = a.serial;
  }

  abbrev pub enqueued : Option (Parsed → String) → Parsed → Archive → List Upload
  enqueued none p a = a.uploads
  enqueued (some key) p a =
      a.uploads ++ record { email_id = a.next_id; s3_key = key p; local_path = a.serial } ∷ []

  -- The transaction: the row, its attachments, its upload and the watermark, or nothing.
  unfoldable pub persist : Message → Parsed → Archive → Option Archive
  persist m p a =
      if has_uid t.account_id t.folder_id m.uid a.rows || faults.persisting m.uid
      then none
      else some (record a {
        next_id = suc a.next_id;
        rows = a.rows ++ row_of m p a ∷ [];
        attachments = a.attachments ++ map (λ x. (a.next_id, x)) p.attachments;
        uploads = enqueued t.s3_key p a;
        last_uid = update_last_uid t.folder_id m.uid a.last_uid;
      })

  abbrev pub index_one : Message → Parsed → ℕ → Archive → Outcome × Archive
  index_one m p id a =
      if not t.has_index
      then (archived p.size false, a)
      else if faults.indexing m.uid
      then (archived p.size true, a)
      else (archived p.size false, record a { documents = a.documents ++ id ∷ [] })

  -- The file is moved into new/ before the transaction, so it stays where the transaction fails.
  unfoldable pub archive_one : Message → Parsed → Archive → Outcome × Archive
  archive_one m p a =
      if faults.staging m.uid || faults.committing m.uid
      then (not_archived, next_file a)
      else let b = record a { files = (a.serial, p.raw) ∷ a.files } in
        elim (persist m p b) [
          | none ↦ (not_archived, next_file b)
          | some c ↦ index_one m p a.next_id (next_file c)
        ]

  -- `none` where the write fails.
  unfoldable pub skip_one : ℕ → Archive → Option Archive
  skip_one uid a =
      if faults.skipping uid
      then none
      else some (record a { last_uid = update_last_uid t.folder_id uid a.last_uid })
