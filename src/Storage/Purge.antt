-- ===== src/Storage/Purge.antt =====
-- `purgeFileData` of src/storage/storage_engine.cpp: a file's data is removed from the backend unless
-- other files share it. That `removeChunks` fails is only logged.
pub mod Shared
mod Tests
use telegram_disk.Base.{
  ℕ, Bool, true, false, ◌&&◌, not, List, [], ◌∷◌, map, length, ltb, ◌==◌, if◌then◌else◌,
}
use telegram_disk.Base.Result.{Done, Result, ok, err}
use telegram_disk.Storage.Chunk.{ChunkEntry, to_location}
use telegram_disk.Storage.BlockCache.{BlockCache, invalidate}
use telegram_disk.Storage.Database.{Database, FileEntry}
use telegram_disk.Storage.Upload.Backend.{Backend}

-- What the storage engine changes.
pub record Stock (be : Backend) (db : Database) : Type 0 where
  pub cache : BlockCache
  pub store : Backend.World be
  pub base : Database.World db

forget_all : List ChunkEntry → BlockCache → BlockCache
forget_all [] cache = cache
forget_all (c ∷ cs) cache = forget_all cs (invalidate c.document_id cache)

-- Whether other files have the same content; an error of the count says no.
shared : Result ℕ → Bool
shared (ok count) = ltb 1 count
shared (err e) = false

module _ {be : Backend} {db : Database} where
  abbrev kept : Stock be db → Result Done × Database.World db → Result Done × Stock be db
  kept s (r, base) = (r, record s { base = base })

  purge_listed :
      ℕ → Stock be db → Result (List ChunkEntry) × Database.World db → Result Done × Stock be db
  unfolding forget_all
  purge_listed id s (err e, base) = (err e, record s { base = base })
  purge_listed id s (ok [], base) = (ok tt, record s { base = base })
  purge_listed id s (ok (c ∷ cs), base) =
      kept
        (record s {
          cache = forget_all (c ∷ cs) s.cache;
          store = Backend.remove_chunks be (map to_location (c ∷ cs)) s.store;
        })
        (Database.delete_chunks db id base)

  purge_rows : FileEntry → Stock be db → Result Done × Stock be db
  unfolding purge_listed
  purge_rows file s = purge_listed file.id s (Database.list_chunks db file.id s.base)

  purge_counted : FileEntry → Stock be db → Result ℕ × Database.World db → Result Done × Stock be db
  unfolding purge_rows shared
  purge_counted file s (count, base) =
      if shared count
      then kept s (Database.delete_chunks db file.id base)
      else purge_rows file (record s { base = base })

  unfoldable pub purge_file_data : Bool → FileEntry → Stock be db → Result Done × Stock be db
  unfolding purge_rows purge_counted
  purge_file_data deduplicate file s =
      if file.is_folder
      then (ok tt, s)
      else if deduplicate && not (length file.sha256 == 0)
      then purge_counted file s (Database.count_files_with_hash db file.sha256 s.base)
      else purge_rows file s
