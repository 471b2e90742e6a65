-- ===== src/Storage/Database.antt =====
-- src/db/database.h as src/storage uses it: the row of a file, and the calls, over a state `World`.
use telegram_disk.Base.{ℕ, Bool, List}
use telegram_disk.Base.Bits.{Bytes}
use telegram_disk.Base.Result.{Done, M}
use telegram_disk.Storage.Chunk.{ChunkEntry}

pub record FileEntry : Type 0 where
  pub id : ℕ
  pub parent_id : ℕ
  pub name : Bytes
  pub path : Bytes
  pub is_folder : Bool
  pub size : ℕ
  pub mime_type : Bytes
  pub sha256 : Bytes
  pub quick_hash : Bytes
  pub chunk_size : ℕ
  pub chunk_count : ℕ
  pub created_at : ℕ
  pub modified_at : ℕ
  pub owner_id : ℕ
  pub trashed : Bool
  pub trashed_at : ℕ
  pub share_token : Bytes
  pub share_expires_at : ℕ
  pub starred : Bool
  pub note : Bytes

-- `createEntry` and `addChunk` give the identifier that they set in the entry.
pub record Database : Type 1 where
  pub World : Type 0
  pub create_entry : FileEntry → M World ℕ
  pub update_entry : FileEntry → M World Done
  pub get_entry : ℕ → M World FileEntry
  pub get_entry_by_path : Bytes → M World FileEntry
  pub find_by_hash : Bytes → M World (List FileEntry)
  pub find_by_quick_hash : Bytes → ℕ → M World (List FileEntry)
  pub find_by_name_in_folder : ℕ → Bytes → M World FileEntry
  pub add_chunk : ChunkEntry → M World ℕ
  pub list_chunks : ℕ → M World (List ChunkEntry)
  pub delete_chunks : ℕ → M World Done
  pub count_files_with_hash : Bytes → M World ℕ
