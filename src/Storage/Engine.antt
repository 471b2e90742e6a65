-- ===== src/Storage/Engine.antt =====
-- `streamFileRange` and `readFileRange` of src/storage/storage_engine.cpp. The database and the
-- backend are not part of the model: `Source` has what the code calls of them.
pub mod Blocks
pub mod Exact
mod Tests
use telegram_disk.Base.{
  ℕ, zero, suc, ◌+◌, ◌-◌, ◌*◌, ◌/◌, ◌%◌, ◌≡◌, min, Bool, true, false, ◌&&◌, ◌||◌, not, Option, none,
  some, List, [], ◌∷◌, ◌++◌, length, take, drop, ltb, leb, ◌==◌, if◌then◌else◌,
}
use telegram_disk.Base.Bits.{Bytes}
use telegram_disk.Base.Result.{Done, Result, ok, err}
use telegram_disk.Text.Trim.{equal_bytes}
use telegram_disk.Text.Hex.{to_hex}
use telegram_disk.Storage.Chunk.{ChunkLocation, ChunkEntry, to_location}
use telegram_disk.Storage.BlockCache.{BlockCache, get, put}
use Prim.Native.String.{String}

abbrev pub u64 : ℕ
u64 = 18446744073709551616

-- `kBlockSize`.
abbrev pub block_size : ℕ
block_size = 1048576

-- `listChunks`, `readRange` (with the place it may have refreshed), `updateChunkReference` of a row,
-- whose failure is only logged, and `std::to_string` in the messages.
pub record Source : Type 1 where
  pub World : Type 0
  pub list_chunks : ℕ → World → Result (List ChunkEntry) × World
  pub read_range : ChunkLocation → ℕ → ℕ → World → Result (ChunkLocation × Bytes) × World
  pub update_reference : ChunkEntry → ChunkLocation → World → World
  pub read_error : String → String
  pub missing_at : ℕ → String
  pub empty_at : ℕ → String
  pub short_at : ℕ → String

pub record FileEntry : Type 0 where
  pub id : ℕ
  pub size : ℕ
  pub is_folder : Bool

-- The first chunk that holds `pos`.
unfoldable pub find_chunk : ℕ → List ChunkEntry → Option ChunkEntry
find_chunk pos [] = none
find_chunk pos (c ∷ cs) =
    let rest = find_chunk pos cs in
    if leb c.offset pos && ltb pos ((c.offset + c.size) % u64) then some c else rest

unfoldable pub refreshed : ChunkLocation → ChunkEntry → Bool
unfolding equal_bytes to_hex
refreshed loc c =
    not (loc.access_hash == c.access_hash)
    || not (loc.account_id == c.account_id)
    || not (equal_bytes (to_hex loc.file_reference) c.file_reference_hex)

module _ (src : Source) where
  pub record Reading (S : Type 0) : Type 0 where
    pub cache : BlockCache
    pub world : Source.World src
    pub out : S

  module _ {S : Type 0} where
    -- What comes back from the backend goes into the cache, and a new reference into the database.
    unfoldable pub fetched :
        ℕ
        → ChunkEntry
        → ℕ
        → Reading S
        → Result (ChunkLocation × Bytes) × Source.World src
        → Result Bytes × Reading S
    fetched pos c start s (err e, w) = (err (Source.read_error src e), record s { world = w })
    fetched pos c start s (ok (loc, block), w) =
        if length block == 0 then (err (Source.empty_at src pos), record s { world = w }) else (
          ok block,
          record s {
            world = if refreshed loc c then Source.update_reference src c loc w else w;
            cache = put c.document_id start block s.cache;
          },
        )

    unfoldable pub looked_up :
        ℕ → ChunkEntry → ℕ → ℕ → Reading S → Option Bytes → Result Bytes × Reading S
    looked_up pos c start len s (some block) = (ok block, s)
    looked_up pos c start len s none =
        fetched pos c start s (Source.read_range src (to_location c) start len s.world)

    unfoldable pub read_block : ℕ → ChunkEntry → ℕ → ℕ → Reading S → Result Bytes × Reading S
    read_block pos c start len s =
        let r = get c.document_id start s.cache in
        looked_up pos c start len (record s { cache = r.1 }) r.0

    unfoldable pub give :
        (Bytes → S → Bool × S)
        → ℕ
        → ℕ
        → ℕ
        → (ℕ → ℕ → Reading S → Result Done × Reading S)
        → Result Bytes × Reading S
        → Result Done × Reading S
    give sink pos in_block remaining next (err e, s) = (err e, s)
    give sink pos in_block remaining next (ok block, s) =
        let n = min (length block - in_block) remaining in
        let r = sink (take n (drop in_block block)) s.out in
        let s' : Reading S = record s { out = r.1 } in
        if leb (length block) in_block
        then (err (Source.short_at src pos), s)
        else if r.0
        then next (pos + n) (remaining - n) s'
        else (ok tt, s')

    -- A round of the loop for the chunk that holds `pos`.
    unfoldable pub stream_chunk :
        (Bytes → S → Bool × S)
        → ℕ
        → ℕ
        → (ℕ → ℕ → Reading S → Result Done × Reading S)
        → Reading S
        → Option ChunkEntry
        → Result Done × Reading S
    stream_chunk sink pos remaining next s none = (err (Source.missing_at src pos), s)
    stream_chunk sink pos remaining next s (some c) =
        let in_chunk = pos - c.offset in
        let start = in_chunk / block_size * block_size in
        let len = min block_size (c.size - start) % 4294967296 in
        give sink pos (in_chunk - start) remaining next (read_block pos c start len s)

    -- `while (remaining > 0)`: a round that goes on has given at least one byte.
    unfoldable pub stream_loop :
        ℕ → (Bytes → S → Bool × S) → List ChunkEntry → ℕ → ℕ → Reading S → Result Done × Reading S
    stream_loop fuel sink chunks pos zero s = (ok tt, s)
    stream_loop zero sink chunks pos (suc k) s = (err "fuel", s)
    stream_loop (suc fuel) sink chunks pos (suc k) s =
        stream_chunk sink pos (suc k) (stream_loop fuel sink chunks) s (find_chunk pos chunks)

    unfoldable pub stream_listed :
        (Bytes → S → Bool × S)
        → ℕ
        → ℕ
        → Reading S
        → Result (List ChunkEntry) × Source.World src
        → Result Done × Reading S
    stream_listed sink pos length s (err e, w) = (err e, record s { world = w })
    stream_listed sink pos length s (ok [], w) =
        (err "Tệp chưa có dữ liệu (danh sách mảnh rỗng)", record s { world = w })
    stream_listed sink pos length s (ok (c ∷ cs), w) =
        stream_loop length sink (c ∷ cs) pos length (record s { world = w })

    unfoldable pub stream_file_range :
        (Bytes → S → Bool × S) → FileEntry → ℕ → ℕ → Reading S → Result Done × Reading S
    stream_file_range sink file offset length s =
        let length' =
          if ltb file.size ((offset + length) % u64) then file.size - offset else length in
        if file.is_folder
        then (err "Không đọc được nội dung của thư mục", s)
        else if leb file.size offset || length == 0
        then (ok tt, s)
        else stream_listed sink offset length' s (Source.list_chunks src file.id s.world)

  abbrev pub append_sink : Bytes → Bytes → Bool × Bytes
  append_sink piece out = (true, out ++ piece)

  -- The bytes that were read; the source gives back their number, or 0 on an error.
  unfoldable pub read_file_range :
      FileEntry → ℕ → ℕ → BlockCache → Source.World src → Result Done × Reading Bytes
  read_file_range file offset length cache world =
      stream_file_range append_sink file offset length
        (record { cache = cache; world = world; out = [] })
