-- ===== src/Storage/Upload/Receive.antt =====
-- `receive` of UploadSession. Every failing exit of its loop goes through `bao`.
pub mod Steps
pub mod Exact
pub mod Placed
pub mod Live
pub mod Lost
use telegram_disk.Base.{
  ℕ, zero, suc, ◌+◌, ◌-◌, min, Bool, true, false, ◌&&◌, not, Option, none, some, List, [], ◌∷◌,
  ◌++◌, length, take, drop, ltb, leb, ◌==◌, if◌then◌else◌,
}
use telegram_disk.Base.Bits.{Bytes}
use telegram_disk.Base.Result.{Done, Result, ok, err, M, and_then}
use telegram_disk.Crypto.Sha256.{update}
use telegram_disk.Storage.Chunk.{ChunkLocation, ChunkEntry}
use telegram_disk.Storage.ChunkBuffer.Files.{Stdio}
use telegram_disk.Storage.ChunkBuffer.{ChunkBuffer, append, discard}
use telegram_disk.Storage.Upload.Backend.{Backend}
use telegram_disk.Storage.Upload.Session.{
  Session, ManhBay, KetQua, UploadState, receiving, flushing, cancelled, failed, completed,
  or_default, open_chunk, close_chunk, giao_manh_cho_nen, thu_mot_manh, thu_het_manh, ghi_nhan_loi,
}
use Prim.Native.String.{String}

module _ {io : Stdio} {be : Backend} where
  -- `while (dangBay_.size() >= soManhSongSong_)`: a round takes one chunk off the queue.
  pub drain : ℕ → (ManhBay io be → KetQua) → M (Session io be) Done
  drain zero join s = (ok tt, s)
  drain (suc fuel) join s =
      let rest = and_then (thu_mot_manh join s) (λ _. drain fuel join) in
      if leb s.so_manh_song_song (length s.dang_bay) then rest else (ok tt, s)

  abbrev pub with_world :
      Backend.World be
      → Result Done × Session io be
      → Result Done × (Session io be × Backend.World be)
  with_world world (r, s) = (r, (s, world))

  unfoldable pub dong_manh : (ManhBay io be → KetQua) → M (Session io be × Backend.World be) Done
  unfolding drain
  dong_manh join (s, world) =
      if leb s.so_manh_song_song 1
      then close_chunk (s, world)
      else with_world world (drain (length s.dang_bay + 1) join (giao_manh_cho_nen s))

  unfoldable pub bao : (ManhBay io be → KetQua) → String → Session io be → Session io be
  bao join error s = ghi_nhan_loi error (
      if ltb 1 s.so_manh_song_song && not (length s.dang_bay == 0)
      then (thu_het_manh join s).1
      else s)

  unfoldable pub ensure_open :
      Option (ChunkBuffer io (Backend.World be)) → M (Session io be × Backend.World be) Done
  ensure_open none sw = open_chunk sw
  ensure_open (some b) sw = (ok tt, sw)

  unfoldable pub append_done :
      Session io be
      → Bytes
      → Result Done × (ChunkBuffer io (Backend.World be) × Backend.World be)
      → Result Done × (Session io be × Backend.World be)
  append_done s piece (err e, (b, world)) = (err e, (record s { buffer = some b }, world))
  append_done s piece (ok _, (b, world)) = (
    ok tt,
    (
      record s {
        buffer = some b;
        hasher = update s.hasher piece;
        chunk_hasher = update s.chunk_hasher piece;
        chunk_written = s.chunk_written + length piece;
        received_bytes = s.received_bytes + length piece;
      },
      world,
    ),
  )

  -- The buffer is there: `ensure_open` has run. The case of none is a null pointer in C++.
  pub append_piece :
      Option (ChunkBuffer io (Backend.World be)) → Bytes → M (Session io be × Backend.World be) Done
  unfolding append_done
  append_piece none piece (s, world) = (err "", (s, world))
  append_piece (some b) piece (s, world) = append_done s piece (append io piece (b, world))

  unfoldable pub dong_if_full : (ManhBay io be → KetQua) → M (Session io be × Backend.World be) Done
  dong_if_full join (s, world) =
      if leb s.chunk_size s.chunk_written then dong_manh join (s, world) else (ok tt, (s, world))

  -- One round of the loop of `receive`: what is left of the data behind it. The subtraction does
  -- not wrap, since `chunkWritten_` never passes `chunkSize_`.
  pub receive_piece : (ManhBay io be → KetQua) → Bytes → M (Session io be × Backend.World be) Bytes
  unfolding append_piece dong_if_full
  receive_piece join bytes (s, world) =
      let k = min (s.chunk_size - s.chunk_written) (length bytes) in
      if k == 0
      then and_then (dong_manh join (s, world)) (λ _ sw. (ok bytes, sw))
      else and_then (append_piece s.buffer (take k bytes) (s, world))
          (λ _ sw. and_then (dong_if_full join sw) (λ _ sw'. (ok (drop k bytes), sw')))

  pub receive_once : (ManhBay io be → KetQua) → Bytes → M (Session io be × Backend.World be) Bytes
  unfolding ensure_open receive_piece
  receive_once join bytes (s, world) =
      and_then (ensure_open s.buffer (s, world)) (λ _. receive_piece join bytes)

  or_bao :
      (ManhBay io be → KetQua)
      → Result Bytes × (Session io be × Backend.World be)
      → (Bytes → M (Session io be × Backend.World be) Done)
      → Result Done × (Session io be × Backend.World be)
  or_bao join (ok rest, sw) k = k rest sw
  or_bao join (err e, (s, world)) k = (err e, (bao join e s, world))

  pub receive_loop :
      ℕ → (ManhBay io be → KetQua) → Bytes → M (Session io be × Backend.World be) Done
  unfolding receive_once or_bao
  receive_loop fuel join [] sw = (ok tt, sw)
  receive_loop zero join (x ∷ xs) sw = (err "fuel", sw)
  receive_loop (suc fuel) join (x ∷ xs) sw =
      or_bao join (receive_once join (x ∷ xs) sw) (λ rest. receive_loop fuel join rest)

  receive_in :
      UploadState → (ManhBay io be → KetQua) → Bytes → M (Session io be × Backend.World be) Done
  unfolding receive_loop
  receive_in failed join bytes (s, world) =
      (err (or_default s.message "Phiên tải lên không còn hoạt động"), (s, world))
  receive_in cancelled join bytes (s, world) =
      (err (or_default s.message "Phiên tải lên không còn hoạt động"), (s, world))
  receive_in _ join bytes (s, world) =
      receive_loop (length bytes + 1) join bytes (record s { state = receiving }, world)

  unfoldable pub receive :
      (ManhBay io be → KetQua) → Bytes → M (Session io be × Backend.World be) Done
  unfolding receive_in
  receive join bytes (s, world) =
      if s.is_cancelled
      then (err "Phiên tải lên đã bị huỷ", (s, world))
      else receive_in s.state join bytes (s, world)
