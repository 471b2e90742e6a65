-- ===== src/Storage/Upload/Session.antt =====
-- The state of UploadSession and the steps of one chunk: `openChunk`, `giaoManhChoNen`, the body of
-- its thread, `thuMotManh`, `thuHetManh`, `closeChunk` and `ghiNhanLoi`.
pub mod Invariant
pub mod Keep
pub mod Placed
pub mod Live
pub mod Rewind
pub mod Worker
use telegram_disk.Base.{
  ℕ, zero, suc, ◌+◌, ◌-◌, min, Bool, true, false, Option, none, some, List, [], ◌∷◌, ◌++◌, length,
  ltb, leb, ◌==◌, if◌then◌else◌,
}
use telegram_disk.Base.Bits.{Bytes}
use telegram_disk.Base.Result.{Done, Result, ok, err, M, SinkFn, and_then}
use telegram_disk.Crypto.Sha256.{Sha256, reset, update, finish}
use telegram_disk.Text.Hex.{to_hex}
use telegram_disk.Text.Ascii.{codes}
use telegram_disk.Storage.Chunk.{ChunkLocation, ChunkEntry, from_location}
use telegram_disk.Storage.ChunkBuffer.Files.{Stdio}
use telegram_disk.Storage.ChunkBuffer.{BufferMode, ChunkBuffer, create, flush, discard}
use telegram_disk.Storage.Upload.Backend.{Backend}
use telegram_disk.Storage.Upload.Transient.{transient}
use Prim.Native.String.{String}

pub data UploadState : Type 0 where
  preparing receiving flushing completed cancelled failed : UploadState

-- A chunk in flight. Its thread's result is not here: it is read at the join.
pub record ManhBay (io : Stdio) (be : Backend) : Type 0 where
  pub index : ℕ
  pub offset : ℕ
  pub size : ℕ
  pub sha256 : Bytes
  pub hasher_sau_manh : Sha256
  pub buffer : ChunkBuffer io (Backend.World be)

-- What a thread leaves: `ok` with `viTri`, or `loi`.
abbrev pub KetQua : Type 0
KetQua = Result ChunkLocation

pub record Session (io : Stdio) (be : Backend) : Type 0 where
  pub spool_path : ℕ → String
  pub total_size : ℕ
  pub chunk_size : ℕ
  pub so_manh_song_song : ℕ
  pub che_do_dem : BufferMode
  pub chunk_index : ℕ
  pub chunk_written : ℕ
  pub chunk_offset : ℕ
  pub writer : Option (Backend.Writer be)
  pub buffer : Option (ChunkBuffer io (Backend.World be))
  pub uploaded : List ChunkLocation
  pub chunk_records : List ChunkEntry
  pub dang_bay : List (ManhBay io be)
  pub committed_bytes : ℕ
  pub hasher_committed : Sha256
  pub manh_hong : Bool
  pub loi_manh_dau : String
  pub hasher : Sha256
  pub chunk_hasher : Sha256
  pub received_bytes : ℕ
  pub is_cancelled : Bool
  pub state : UploadState
  pub message : String

abbrev pub or_default : String → String → String
or_default String.[] d = d
or_default (String.◌∷◌ c s) d = String.◌∷◌ c s

-- The row of a chunk that was stored: everything but its place is filled in by `from_location`.
unfoldable pub new_record : ℕ → ℕ → ℕ → Bytes → ChunkLocation → ChunkEntry
new_record index offset size sha256 loc =
    let row : ChunkEntry = record {
      id = 0;
      file_id = 0;
      index = index;
      offset = offset;
      size = size;
      message_id = 0;
      document_id = 0;
      access_hash = 0;
      file_reference_hex = [];
      dc_id = 0;
      account_id = 0;
      sha256 = sha256;
    } in
    record (from_location loc row) { size = size }

-- The sink of the sequential path.
unfoldable pub writer_sink : (be : Backend) → Bool → Backend.Writer be → SinkFn (Backend.World be)
writer_sink be is_cancelled w part world =
    if is_cancelled then (err "Phiên tải lên đã bị huỷ", world) else Backend.write be w part world

last_index : List ChunkEntry → ℕ
last_index [] = 0
last_index (r ∷ []) = r.index + 1
last_index (r ∷ (q ∷ rs)) = last_index (q ∷ rs)

module _ {io : Stdio} {be : Backend} where
  abbrev pub chunk_opened : Session io be → Option (Backend.Writer be) → Session io be
  chunk_opened s w = record s {
    writer = w;
    buffer = some (
        create io s.che_do_dem (s.spool_path s.chunk_index)
          (elim w [ none ↦ none | some w ↦ some (writer_sink be s.is_cancelled w) ]));
    chunk_written = 0;
    chunk_hasher = reset;
  }

  open_with :
      Session io be
      → Result (Backend.Writer be) × Backend.World be
      → Result Done × (Session io be × Backend.World be)
  open_with s (ok w, world) = (ok tt, (chunk_opened s (some w), world))
  open_with s (err e, world) = (err e, (record s { writer = none }, world))

  -- `openChunk`. Several at once: the buffer alone is opened. Else the backend opens a writer.
  unfoldable pub open_chunk : M (Session io be × Backend.World be) Done
  unfolding open_with
  open_chunk (s, world) =
      let remaining = s.total_size - s.chunk_offset in
      let fitting = min s.chunk_size remaining in
      let this_chunk_size = if fitting == 0 then s.chunk_size else fitting in
      if ltb 1 s.so_manh_song_song
      then (ok tt, (chunk_opened s none, world))
      else open_with s (Backend.begin_chunk be this_chunk_size s.chunk_index world)

  -- `giaoManhChoNen`: the full chunk goes to a thread, and the next one may be opened.
  giao_buffer : Session io be → Option (ChunkBuffer io (Backend.World be)) → Session io be
  giao_buffer s none = s
  giao_buffer s (some b) =
      let manh : ManhBay io be = record {
        index = s.chunk_index;
        offset = s.chunk_offset;
        size = s.chunk_written;
        sha256 = to_hex (finish s.chunk_hasher);
        hasher_sau_manh = s.hasher;
        buffer = b;
      } in
      record s {
        buffer = none;
        dang_bay = s.dang_bay ++ (manh ∷ []);
        chunk_offset = s.chunk_offset + s.chunk_written;
        chunk_written = 0;
        chunk_index = s.chunk_index + 1;
      }

  unfoldable pub giao_manh_cho_nen : Session io be → Session io be
  unfolding giao_buffer
  giao_manh_cho_nen s = giao_buffer s s.buffer

  -- The body of the thread, from what it finds when it starts to what it leaves.
  worker_finish :
      ManhBay io be
      → Backend.Writer be
      → Result Done × (ChunkBuffer io (Backend.World be) × Backend.World be)
      → KetQua × Backend.World be
  worker_finish m w (err e, (b, world)) = (err e, Backend.abort be w world)
  worker_finish m w (ok _, (b, world)) = Backend.finish be w world

  worker_send :
      Bool
      → ManhBay io be
      → Result (Backend.Writer be) × Backend.World be
      → KetQua × Backend.World be
  unfolding worker_finish
  worker_send is_cancelled m (err e, world) =
      (err (or_default e "Không mở được mảnh trên Telegram"), world)
  worker_send is_cancelled m (ok w, world) =
      worker_finish m w (flush io (some (writer_sink be is_cancelled w)) (m.buffer, world))

  unfoldable pub worker : Bool → ManhBay io be → M (Backend.World be) ChunkLocation
  unfolding worker_send
  worker is_cancelled m world =
      if is_cancelled
      then (err "Phiên tải lên đã bị huỷ", world)
      else worker_send is_cancelled m (Backend.begin_chunk be m.size m.index world)

  -- `thuMotManh` behind the join, for the chunk `m` that was taken off the queue.
  thu_sound : Session io be → ManhBay io be → KetQua → Result Done × Session io be
  thu_sound s m (err e) =
      let loi = or_default e "Đẩy mảnh lên Telegram thất bại" in
      (err loi, record s { manh_hong = true; loi_manh_dau = loi })
  thu_sound s m (ok vi_tri) = (
    ok tt,
    record s {
      chunk_records = s.chunk_records ++ (new_record m.index m.offset m.size m.sha256 vi_tri ∷ []);
      uploaded = s.uploaded ++ (vi_tri ∷ []);
      committed_bytes = m.offset + m.size;
      hasher_committed = m.hasher_sau_manh;
    },
  )

  -- After a lost chunk a later one is kept for the clean-up only.
  thu_broken : Session io be → KetQua → Result Done × Session io be
  thu_broken s (ok vi_tri) = (
    err (or_default s.loi_manh_dau "Có mảnh đẩy lên thất bại"),
    record s { uploaded = s.uploaded ++ (vi_tri ∷ []) },
  )
  thu_broken s (err e) = (err (or_default s.loi_manh_dau "Có mảnh đẩy lên thất bại"), s)

  unfoldable pub thu_manh : Session io be → ManhBay io be → KetQua → Result Done × Session io be
  unfolding thu_sound thu_broken
  thu_manh s m r = if s.manh_hong then thu_broken s r else thu_sound s m r

  thu_from :
      (ManhBay io be → KetQua) → List (ManhBay io be) → Session io be → Result Done × Session io be
  thu_from join [] s = (ok tt, s)
  thu_from join (m ∷ ms) s = thu_manh (record s { dang_bay = ms }) m (join m)

  unfoldable pub thu_mot_manh : (ManhBay io be → KetQua) → M (Session io be) Done
  unfolding thu_from
  thu_mot_manh join s = thu_from join s.dang_bay s

  -- The loop of `thuHetManh` over the chunks in flight.
  thu_loop : (ManhBay io be → KetQua) → List (ManhBay io be) → Session io be → Session io be
  thu_loop join [] s = s
  thu_loop join (m ∷ ms) s = thu_loop join ms (thu_manh (record s { dang_bay = ms }) m (join m)).1

  -- Everything is taken back to the last chunk that has landed without a gap.
  rewind_session : Session io be → Result Done × Session io be
  unfolding last_index
  rewind_session s = (
    err s.loi_manh_dau,
    record s {
      received_bytes = s.committed_bytes;
      hasher = s.hasher_committed;
      chunk_offset = s.committed_bytes;
      chunk_index = last_index s.chunk_records;
      chunk_written = 0;
      chunk_hasher = reset;
      buffer = none;
      manh_hong = false;
      loi_manh_dau = "";
    },
  )

  unfoldable pub thu_het_manh : (ManhBay io be → KetQua) → M (Session io be) Done
  unfolding thu_loop rewind_session
  thu_het_manh join s =
      let s' = thu_loop join s.dang_bay s in if s'.manh_hong then rewind_session s' else (ok tt, s')

  -- `closeChunk`: the sequential path stores the chunk where it stands.
  unfoldable pub close_stored :
      Session io be
      → Result ChunkLocation × Backend.World be
      → Result Done × (Session io be × Backend.World be)
  close_stored s (err e, world) = (err e, (record s { writer = none; buffer = none }, world))
  close_stored s (ok loc, world) = (
    ok tt,
    (
      record s {
        writer = none;
        buffer = none;
        chunk_records =
            s.chunk_records
            ++ (new_record s.chunk_index s.chunk_offset s.chunk_written
                  (to_hex (finish s.chunk_hasher)) loc
                ∷ []);
        uploaded = s.uploaded ++ (loc ∷ []);
        chunk_offset = s.chunk_offset + s.chunk_written;
        chunk_written = 0;
        chunk_index = s.chunk_index + 1;
        committed_bytes = s.chunk_offset + s.chunk_written;
        hasher_committed = s.hasher;
      },
      world,
    ),
  )

  unfoldable pub close_flushed :
      Session io be
      → Backend.Writer be
      → Result Done × (ChunkBuffer io (Backend.World be) × Backend.World be)
      → Result Done × (Session io be × Backend.World be)
  unfolding close_stored
  close_flushed s w (err e, (b, world)) =
      (err e, (record s { writer = none; buffer = none }, Backend.abort be w world))
  close_flushed s w (ok _, (b, world)) = close_stored s (Backend.finish be w world)

  unfoldable pub close_parts :
      Option (Backend.Writer be)
      → Option (ChunkBuffer io (Backend.World be))
      → M (Session io be × Backend.World be) Done
  unfolding close_flushed
  close_parts none b (s, world) = (ok tt, (s, world))
  -- A writer comes with its buffer: `openChunk` sets both, and nothing parts them.
  close_parts (some w) none (s, world) = (ok tt, (s, world))
  close_parts (some w) (some b) (s, world) =
      close_flushed s w (flush io (ChunkBuffer.sink b) (b, world))

  unfoldable pub close_chunk : M (Session io be × Backend.World be) Done
  unfolding close_parts
  close_chunk (s, world) = close_parts s.writer s.buffer (s, world)

  -- A transient error keeps the session receiving; any other ends it.
  unfoldable pub ghi_nhan_loi : String → Session io be → Session io be
  ghi_nhan_loi error s = record s {
    message = error;
    state = elim (transient (codes error)) [ some _ ↦ receiving | none ↦ failed ];
  }
