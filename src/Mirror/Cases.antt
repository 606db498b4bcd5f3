-- ===== src/Mirror/Cases.antt =====
-- The ways in which an attempt at an item can end: `process` and `upload` of
-- internal/s3store/uploader.go.
use marchi.Prelude.{ℕ, Bool, true, false, none, some, if◌then◌else◌}
use marchi.Mirror.Queue.{Item}
use marchi.Mirror.Uploader.{
  Pool, Attempt, not_read, not_encrypted, not_put, not_marked, put_object, mark_done, upload,
  after_upload, give_back, process,
}

-- An attempt ends with the item given back, where the object may have been put, or with the row
-- recorded behind the `Put`.
pub process_cases :
    (item : Item) (a : Attempt) (now : ℕ) (marked : Bool) (P : Pool → Type 0) (p : Pool)
    → P p
    → P (put_object item p)
    → ((q : Pool) → P q → P (give_back item now marked q))
    → P (mark_done item (put_object item p))
    → P (process item a now marked p)
unfolding process upload
process_cases item a now marked P p h put back done =
    steps a.no_read a.no_encrypt a.no_put a.put_lost a.no_mark
  where
    steps :
        (read encrypt puts lost mark : Bool)
        → P (
            after_upload item now marked (
              if read
              then (some not_read, p)
              else if encrypt
              then (some not_encrypted, p)
              else if puts
              then (some not_put, if lost then put_object item p else p)
              else if mark
              then (some not_marked, put_object item p)
              else (none, mark_done item (put_object item p))))
    steps true e u l m = back p h
    steps false true u l m = back p h
    steps false false true true m = back _ put
    steps false false true false m = back p h
    steps false false false l true = back _ put
    steps false false false l false = done
