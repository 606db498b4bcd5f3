-- ===== src/Objects/Load.antt =====
-- `Load` of the `LazyLoader` of internal/s3store/cache.go.
use marchi.Prelude.{String, Bool, Option, none, some, length, if◌then◌else◌}
use marchi.Vault.Cipher.{Bytes}
use marchi.Cache
use marchi.Objects.Seal.{
  ObjectLib, Object, get_failed, read_failed, Opened, content, failed, decrypt_object,
}

-- What one call meets: whether the file in the cache can be read, whether the request or the
-- reading of its body fails, and, where the write of the file fails, what that leaves.
pub record Request : Type 0 where
  pub readable : Bool
  pub get_fails : Bool
  pub read_fails : Bool
  pub write_fails : Option (Option Cache.Blob)

abbrev pub blob_of : Bytes → Cache.Blob
blob_of plain = record { bytes = plain; size = length plain }

module _ (lib : ObjectLib) (stuck : String → Bool) (master : Bytes)
    (bucket : String → Option Object) where
  abbrev pub put_back : Request → String → Bytes → Cache.Cache → Cache.Cache
  put_back q key plain c = (Cache.put stuck q.write_fails key (blob_of plain) c).1

  -- A failure of the `Put` is not an error.
  abbrev pub keep_loaded : Request → String → Opened → Cache.Cache → Opened × Cache.Cache
  keep_loaded q key (failed e) c = (failed e, c)
  keep_loaded q key (content plain) c = (content plain, put_back q key plain c)

  abbrev pub download : Request → String → Option Object → Cache.Cache → Opened × Cache.Cache
  download q key none c = (failed get_failed, c)
  download q key (some o) c =
      if q.get_fails
      then (failed get_failed, c)
      else if q.read_fails
      then (failed read_failed, c)
      else keep_loaded q key (decrypt_object lib master o) c

  abbrev pub after_get : Request → String → Option Cache.Blob × Cache.Cache → Opened × Cache.Cache
  after_get q key (some blob, c) = (content blob.bytes, c)
  after_get q key (none, c) = download q key (bucket key) c

  unfoldable pub load : Request → String → Cache.Cache → Opened × Cache.Cache
  load q key c = after_get q key (Cache.get key q.readable c)
