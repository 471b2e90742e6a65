-- ===== src/Storage/Upload/Backend.antt =====
-- The virtual interface `StorageBackend`/`ChunkWriter` of src/tg/storage_backend.h over a state
-- `World` of what lies behind it. The session uses it through the interface only.
use telegram_disk.Base.{ℕ, List}
use telegram_disk.Base.Bits.{Bytes}
use telegram_disk.Base.Result.{Done, M}
use telegram_disk.Storage.Chunk.{ChunkLocation}

pub record Backend : Type 1 where
  pub World : Type 0
  pub Writer : Type 0
  -- The size of the chunk and its index, which the chunk's name ends in.
  pub begin_chunk : ℕ → ℕ → M World Writer
  pub write : Writer → Bytes → M World Done
  pub finish : Writer → M World ChunkLocation
  pub abort : Writer → World → World
  pub remove_chunks : List ChunkLocation → World → World
