-- ===== src/Storage/ChunkBuffer.antt =====
-- src/storage/chunk_buffer.cpp: the buffer of one chunk before it goes to Telegram. C's stdio is
-- the parameter `io`; the sink is a function over whatever it changes, `S`.
pub mod Fed
pub mod Files
pub mod Exact
mod Tests
use telegram_disk.Base.{
  ℕ, zero, suc, ◌+◌, ◌-◌, ◌*◌, min, Bool, true, false, ◌||◌, not, Option, none, some, List, [], ◌∷◌,
  ◌++◌, length, take, drop, ltb, ◌==◌, if◌then◌else◌,
}
use telegram_disk.Base.Bits.{Bytes}
use telegram_disk.Base.Result.{Done, Result, ok, err, M, SinkFn, and_then}
use Files.{Stdio}
use Prim.Native.String.{String}

pub data BufferMode : Type 0 where
  stream memory disk : BufferMode

pub record ChunkBuffer (io : Stdio) (S : Type 0) : Type 0 where
  pub mode : BufferMode
  pub sink : Option (SinkFn S)
  pub bytes : Bytes
  pub file : Option (Stdio.File io)
  pub buffered : ℕ
  pub total : ℕ
  pub discarded : Bool

abbrev pub memory_step : ℕ
memory_step = 1024 * 1024

abbrev pub disk_read_block : ℕ
disk_read_block = 1024 * 1024

module _ (io : Stdio) {S : Type 0} where
  -- The constructor: a spool file is opened in disk mode only, and may be missing.
  unfoldable pub create : BufferMode → String → Option (SinkFn S) → ChunkBuffer io S
  create mode spool_path sink = record {
    mode = mode;
    sink = sink;
    bytes = [];
    file = elim mode [ disk ↦ Stdio.open_file io spool_path | _ ↦ none ];
    buffered = 0;
    total = 0;
    discarded = false;
  }

  append_stream : ChunkBuffer io S → Option (SinkFn S) → Bytes → M (ChunkBuffer io S × S) Done
  append_stream b none part (_, t) = (err "Chế độ stream cần nơi nhận dữ liệu ngay từ đầu", (b, t))
  append_stream b (some sink) part (_, t) = let (r, t') = sink part t in (r, (b, t'))

  append_disk : ChunkBuffer io S → Option (Stdio.File io) → Bytes → M (ChunkBuffer io S × S) Done
  append_disk b none part (_, t) = (err "Tệp tạm không khả dụng", (b, t))
  append_disk b (some f) part (_, t) =
      let (n, f') = Stdio.fwrite io f part in
      if n == length part
      then (ok tt, (record b { file = some f'; buffered = b.buffered + length part }, t))
      else (
        err "Ghi tệp tạm thất bại (có thể đã hết dung lượng đĩa)",
        (record b { file = some f' }, t),
      )

  append_mode : BufferMode → ChunkBuffer io S → Bytes → M (ChunkBuffer io S × S) Done
  unfolding append_stream append_disk
  append_mode stream b part (_, t) = append_stream b b.sink part (b, t)
  append_mode memory b part (_, t) =
      (ok tt, (record b { bytes = b.bytes ++ part; buffered = b.buffered + length part }, t))
  append_mode disk b part (_, t) = append_disk b b.file part (b, t)

  unfoldable pub append : Bytes → M (ChunkBuffer io S × S) Done
  unfolding append_mode
  append part (b, t) =
      if b.discarded
      then (err "Vùng đệm đã bị huỷ", (b, t))
      else if length part == 0
      then (ok tt, (b, t))
      else append_mode b.mode (record b { total = b.total + length part }) part (b, t)

  -- The loop of `flushMemory` over what is still to be sent. Each round sends a byte at least.
  send_loop : ℕ → SinkFn S → Bytes → M S Done
  send_loop fuel sink [] t = (ok tt, t)
  send_loop zero sink (x ∷ xs) t = (err "fuel", t)
  send_loop (suc fuel) sink (x ∷ xs) t =
      let n = min memory_step (length (x ∷ xs)) in
      and_then (sink (take n (x ∷ xs)) t) (λ _. send_loop fuel sink (drop n (x ∷ xs)))

  cleared : ChunkBuffer io S → Result Done × S → Result Done × (ChunkBuffer io S × S)
  cleared b (ok _, t) = (ok tt, (record b { bytes = []; buffered = 0 }, t))
  cleared b (err e, t) = (err e, (b, t))

  flush_memory : SinkFn S → M (ChunkBuffer io S × S) Done
  unfolding send_loop cleared
  flush_memory sink (b, t) =
      if length b.bytes == 0
      then (ok tt, (b, t))
      else cleared b (send_loop (length b.bytes) sink b.bytes t)

  given : Stdio.File io → Result Done × S → Result Done × (Stdio.File io × S)
  given f (r, t) = (r, (f, t))

  -- The loop of `flushDisk`, with the number of bytes still to be read.
  read_loop : ℕ → SinkFn S → ℕ → M (Stdio.File io × S) Done
  unfolding given
  read_loop fuel sink zero (f, t) = (ok tt, (f, t))
  read_loop zero sink (suc left) (f, t) = (err "fuel", (f, t))
  read_loop (suc fuel) sink (suc left) (f, t) =
      let (got, f') = Stdio.fread io f (min disk_read_block (suc left)) in
      if length got == 0
      then (
        err (
            if Stdio.ferror io f'
            then "Lỗi khi đọc lại tệp tạm"
            else "Tệp tạm ngắn hơn số byte đã ghi"),
        (f', t),
      )
      else and_then (given f' (sink got t)) (λ _. read_loop fuel sink (suc left - length got))

  read_back :
      ChunkBuffer io S → Result Done × (Stdio.File io × S) → Result Done × (ChunkBuffer io S × S)
  read_back b (ok _, (f, t)) =
      if Stdio.ferror io f
      then (err "Lỗi khi đọc lại tệp tạm", (record b { file = some f }, t))
      else (ok tt, (record b { file = some f; buffered = 0 }, t))
  read_back b (err e, (f, t)) = (err e, (record b { file = some f }, t))

  flush_file : SinkFn S → Option (Stdio.File io) → M (ChunkBuffer io S × S) Done
  unfolding read_loop read_back
  flush_file sink none (b, t) =
      if ltb 0 b.buffered || ltb 0 b.total
      then (err "Tệp tạm không khả dụng — không đẩy được mảnh", (b, t))
      else (ok tt, (b, t))
  flush_file sink (some f) (b, t) =
      let (flushed, f1) = Stdio.fflush io f in
      let (sought, f2) = Stdio.rewind io f1 in
      if not flushed
      then (err "Không ghi xong tệp tạm", (record b { file = some f1 }, t))
      else if not sought
      then (err "Không đọc lại được tệp tạm", (record b { file = some f2 }, t))
      else read_back b (read_loop b.buffered sink b.buffered (f2, t))

  flush_mode : BufferMode → Option (SinkFn S) → M (ChunkBuffer io S × S) Done
  unfolding flush_memory flush_file
  flush_mode stream sink (b, t) = (ok tt, (b, t))
  flush_mode memory none (b, t) = (err "Vùng đệm chưa có nơi nhận dữ liệu", (b, t))
  flush_mode memory (some sink) (b, t) = flush_memory sink (b, t)
  flush_mode disk none (b, t) = (err "Vùng đệm chưa có nơi nhận dữ liệu", (b, t))
  flush_mode disk (some sink) (b, t) = flush_file sink b.file (b, t)

  -- `flush(sink, error)`; `flush(error)` is the same with the buffer's own sink.
  unfoldable pub flush : Option (SinkFn S) → M (ChunkBuffer io S × S) Done
  unfolding flush_mode
  flush sink (b, t) =
      if b.discarded then (err "Vùng đệm đã bị huỷ", (b, t)) else flush_mode b.mode sink (b, t)

  -- The spool file is closed and removed; what that does to the disk is not part of the state.
  unfoldable pub discard : ChunkBuffer io S → ChunkBuffer io S
  discard b = if b.discarded then b else record b { discarded = true; bytes = []; file = none }
