-- ===== src/Storage/Upload/Receive/Lost.antt =====
-- `closeChunk` and `bao` on the path with one chunk at a time, when the chunk cannot be stored.
use telegram_disk.Base.{
  ◌≤◌, ◌≡◌, refl, sym, ap, subst, ◌&&◌, not, false, Option, none, some, length, ltb, ◌==◌,
  if◌then◌else◌, arith,
}
use telegram_disk.Base.Result.{Done, Result, ok, err}
use telegram_disk.Storage.Chunk.{ChunkLocation}
use telegram_disk.Storage.ChunkBuffer.Files.{Stdio}
use telegram_disk.Storage.ChunkBuffer.{ChunkBuffer, flush}
use telegram_disk.Storage.Upload.Backend.{Backend}
use telegram_disk.Storage.Upload.Session.{
  Session, ManhBay, KetQua, close_stored, close_flushed, close_parts, close_chunk, thu_het_manh,
  ghi_nhan_loi,
}
use telegram_disk.Storage.Upload.Receive.{bao}
use Prim.Native.String.{String}

module _ {io : Stdio} {be : Backend} where
  -- The chunk is gone, and all counters still have its bytes.
  pub record Lost (t s : Session io be) : Type 0 where
    pub buffer : t.buffer ≡ none
    pub writer : t.writer ≡ none
    pub received : t.received_bytes ≡ s.received_bytes
    pub hasher : t.hasher ≡ s.hasher
    pub offset : t.chunk_offset ≡ s.chunk_offset
    pub records : t.chunk_records ≡ s.chunk_records
    pub number : t.so_manh_song_song ≡ s.so_manh_song_song

  close_stored-Lost :
      (s : Session io be) (r : Result ChunkLocation × Backend.World be) (e : String)
      → (close_stored s r).0 ≡ err e
      → Lost (close_stored s r).1.0 s
  unfolding close_stored
  close_stored-Lost s (err x, w) e h = record {
    buffer = refl;
    writer = refl;
    received = refl;
    hasher = refl;
    offset = refl;
    records = refl;
    number = refl;
  }
  close_stored-Lost s (ok loc, w) e h = absurd (ground arith)

  close_flushed-Lost :
      (s : Session io be) (wr : Backend.Writer be)
      (r : Result Done × (ChunkBuffer io (Backend.World be) × Backend.World be)) (e : String)
      → (close_flushed s wr r).0 ≡ err e
      → Lost (close_flushed s wr r).1.0 s
  unfolding close_flushed
  close_flushed-Lost s wr (err x, (b, w)) e h = record {
    buffer = refl;
    writer = refl;
    received = refl;
    hasher = refl;
    offset = refl;
    records = refl;
    number = refl;
  }
  close_flushed-Lost s wr (ok _, (b, w)) e h = close_stored-Lost s (Backend.finish be wr w) e h

  close_parts-Lost :
      (o : Option (Backend.Writer be)) (b : Option (ChunkBuffer io (Backend.World be)))
      (s : Session io be) (w : Backend.World be) (e : String)
      → (close_parts o b (s, w)).0 ≡ err e
      → Lost (close_parts o b (s, w)).1.0 s
  unfolding close_parts
  close_parts-Lost none b s w e h = absurd (ground arith)
  close_parts-Lost (some wr) none s w e h = absurd (ground arith)
  close_parts-Lost (some wr) (some b) s w e h =
      close_flushed-Lost s wr (flush io (ChunkBuffer.sink b) (b, w)) e h

  bao-one :
      (join : ManhBay io be → KetQua) (e : String) (t : Session io be)
      → t.so_manh_song_song ≤ 1
      → bao join e t ≡ ghi_nhan_loi e t
  unfolding bao
  bao-one join e t h =
      let one : ltb 1 t.so_manh_song_song ≡ false = ground (arith, h) in
      ap
        (λ b.
          ghi_nhan_loi e (if b && not (length t.dang_bay == 0) then (thu_het_manh join t).1 else t))
        one

  ghi-Lost : (e : String) (t s : Session io be) → Lost t s → Lost (ghi_nhan_loi e t) s
  unfolding ghi_nhan_loi
  ghi-Lost e t s h = record {
    buffer = h.buffer;
    writer = h.writer;
    received = h.received;
    hasher = h.hasher;
    offset = h.offset;
    records = h.records;
    number = h.number;
  }

  -- With one chunk at a time, let `closeChunk` fail, be it in `flush` or in `finish`. After the failing
  -- exit of `receive` (`bao`) the buffer and the writer of the chunk are gone and no row was added, but
  -- the count of received bytes, the hash of the file and the offset of the chunk are what they
  -- were before: they are not taken back to the bytes that are stored.
  pub close_failure-Lost :
      (join : ManhBay io be → KetQua) (s : Session io be) (w : Backend.World be) (e : String)
      → s.so_manh_song_song ≤ 1
      → (close_chunk (s, w)).0 ≡ err e
      → Lost (bao join e (close_chunk (s, w)).1.0) s
  unfolding close_chunk
  close_failure-Lost join s w e h f =
      let lost = close_parts-Lost s.writer s.buffer s w e f in
      let t = (close_parts s.writer s.buffer (s, w)).1.0 in
      subst (λ u. Lost u s) (sym (bao-one join e t (omega (arith, lost.number, h))))
        (ghi-Lost e t s lost)
