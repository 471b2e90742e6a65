-- ===== src/Storage/Upload/Finish.antt =====
-- `complete` of UploadSession as far as the chunks go, `chotSoTruocKhiNoi`, `cancel` and `rollback`.
pub mod Exact
pub mod Placed
pub mod Kept
use telegram_disk.Base.{
  ℕ, zero, suc, ◌+◌, ◌-◌, min, Bool, true, false, ◌&&◌, not, Option, none, some, List, [], ◌∷◌,
  ◌++◌, length, take, drop, ltb, leb, ◌==◌, if◌then◌else◌,
}
use telegram_disk.Base.Bits.{Bytes}
use telegram_disk.Base.Result.{Done, Result, ok, err, M, and_then}
use telegram_disk.Crypto.Sha256.{update}
use telegram_disk.Storage.Chunk.{ChunkLocation, ChunkEntry}
use telegram_disk.Storage.ChunkBuffer.Files.{Stdio}
use telegram_disk.Storage.ChunkBuffer.{ChunkBuffer, append, discard}
use telegram_disk.Storage.Upload.Backend.{Backend}
use telegram_disk.Storage.Upload.Session.{
  Session, ManhBay, KetQua, UploadState, receiving, flushing, cancelled, failed, completed,
  or_default, open_chunk, close_chunk, giao_manh_cho_nen, thu_mot_manh, thu_het_manh, ghi_nhan_loi,
}
use Prim.Native.String.{String}
use telegram_disk.Storage.Upload.Receive.{with_world}

insert_by_index : ChunkEntry → List ChunkEntry → List ChunkEntry
insert_by_index r [] = r ∷ []
insert_by_index r (q ∷ qs) = if leb r.index q.index then r ∷ (q ∷ qs) else q ∷ insert_by_index r qs

-- `std::sort` by the index; the indices of one session differ, so any sort gives this list.
unfoldable pub sort_by_index : List ChunkEntry → List ChunkEntry
unfolding insert_by_index
sort_by_index [] = []
sort_by_index (r ∷ rs) = insert_by_index r (sort_by_index rs)

abort_writer : (be : Backend) → Option (Backend.Writer be) → Backend.World be → Backend.World be
abort_writer be none world = world
abort_writer be (some w) world = Backend.abort be w world

module _ {io : Stdio} {be : Backend} where
  -- `complete` up to the point where the rows of the chunks are ready.
  pub last_manh : Option (ChunkBuffer io (Backend.World be)) → Session io be → Session io be
  last_manh none s = s
  last_manh (some b) s =
      if ltb 0 s.chunk_written then giao_manh_cho_nen s else record s { buffer = none }

  unfoldable pub landed : Result Done × Session io be → Result Done × Session io be
  landed (ok _, s) = (ok tt, record s { chunk_records = sort_by_index s.chunk_records })
  landed (err e, s) = (err e, ghi_nhan_loi e s)

  stored :
      Result Done × (Session io be × Backend.World be)
      → Result Done × (Session io be × Backend.World be)
  stored (ok _, sw) = (ok tt, sw)
  stored (err e, (s, world)) = (err e, (ghi_nhan_loi e s, world))

  close_last : Option (Backend.Writer be) → M (Session io be × Backend.World be) Done
  unfolding stored
  close_last none (s, world) = (ok tt, (s, world))
  close_last (some w) (s, world) =
      if ltb 0 s.chunk_written
      then stored (close_chunk (s, world))
      else (ok tt, (record s { writer = none; buffer = none }, Backend.abort be w world))

  unfoldable pub complete_chunks :
      (ManhBay io be → KetQua) → M (Session io be × Backend.World be) Done
  unfolding last_manh landed close_last
  complete_chunks join (s, world) =
      let s' = record s { state = flushing } in
      if s.is_cancelled
      then (err "Phiên tải lên đã bị huỷ", (s, world))
      else if ltb 1 s.so_manh_song_song
      then with_world world (landed (thu_het_manh join (last_manh s'.buffer s')))
      else close_last s'.writer (s', world)

  unfoldable pub chot_so_truoc_khi_noi : (ManhBay io be → KetQua) → Session io be → Session io be
  chot_so_truoc_khi_noi join s =
      if length s.dang_bay == 0
      then s
      else let r = thu_het_manh join s in
        elim r.0 [ ok _ ↦ r.1 | err e ↦ record r.1 { message = e } ]

  -- The chunks in flight of a cancelled session are kept for the clean-up if they have landed.
  collect_landed : (ManhBay io be → KetQua) → List (ManhBay io be) → List ChunkLocation
  collect_landed join [] = []
  collect_landed join (m ∷ ms) = elim (join m) [
    | ok vi_tri ↦ vi_tri ∷ collect_landed join ms
    | err _ ↦ collect_landed join ms
  ]

  unfoldable pub rollback : Session io be → Backend.World be → Session io be × Backend.World be
  rollback s world = if length s.uploaded == 0 then (s, world) else (
    record s { uploaded = []; chunk_records = [] },
    Backend.remove_chunks be s.uploaded world,
  )

  unfoldable pub cancel :
      (ManhBay io be → KetQua)
      → String
      → Session io be
      → Backend.World be
      → Session io be × Backend.World be
  unfolding collect_landed abort_writer rollback
  cancel join reason s world =
      if s.is_cancelled
      then (s, world)
      else rollback
          (record s {
            is_cancelled = true;
            state = cancelled;
            message = or_default reason "Đã huỷ theo yêu cầu";
            uploaded = s.uploaded ++ collect_landed join s.dang_bay;
            dang_bay = [];
            writer = none;
            buffer = none;
          })
          (abort_writer be s.writer world)
