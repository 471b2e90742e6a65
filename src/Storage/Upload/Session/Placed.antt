-- ===== src/Storage/Upload/Session/Placed.antt =====
-- Where the bytes of the stored chunks are, and the steps of one chunk: a session with several chunks
-- at once that keeps its chunks in memory, against the documents `content` of the backend.
use telegram_disk.Base.{
  ℕ, ◌<◌, ◌≡◌, refl, true, false, if◌then◌else◌, none, some, List, [], ◌∷◌, All, All-append, lt→ltb,
  arith, subst,
}
use Prim.Native.String.{String}
use telegram_disk.Base.Bits.{Bytes}
use telegram_disk.Base.Result.{ok, err}
use telegram_disk.Storage.Chunk.{ChunkLocation, ChunkEntry, from_location}
use telegram_disk.Storage.ChunkBuffer.Files.{Stdio, StdioLaws}
use telegram_disk.Storage.ChunkBuffer.{ChunkBuffer, memory, create}
use telegram_disk.Storage.ChunkBuffer.Exact.{InMemory}
use telegram_disk.Storage.Upload.Backend.{Backend}
use telegram_disk.Storage.Upload.Session.{
  Session, ManhBay, KetQua, new_record, giao_buffer, thu_sound, thu_broken, thu_from, thu_loop,
  rewind_session, giao_manh_cho_nen, thu_manh, thu_mot_manh, thu_het_manh, ghi_nhan_loi, open_chunk,
}
use telegram_disk.Storage.Upload.Session.Invariant.{slice}

-- The document of a row has the row's bytes of `T`.
abbrev pub IsPlaced : (ℕ → Bytes) → Bytes → ChunkEntry → Type 0
IsPlaced content T r = content r.document_id ≡ slice T r.offset r.size

module _ {io : Stdio} (laws : StdioLaws io) {be : Backend} (content : ℕ → Bytes) (T : Bytes) where
  abbrev pub IsLoaded : ManhBay io be → Type 0
  IsLoaded m = InMemory laws m.buffer (slice T m.offset m.size)

  pub record Placed (s : Session io be) : Type 0 where
    pub in_memory : s.che_do_dem ≡ memory
    pub many : 1 < s.so_manh_song_song
    pub rows : All (IsPlaced content T) s.chunk_records
    pub loaded : All IsLoaded s.dang_bay
    pub opened :
        (b : ChunkBuffer io (Backend.World be))
        → s.buffer ≡ some b
        → InMemory laws b (slice T s.chunk_offset s.chunk_written)

  -- A thread that reports a place has stored there what the chunk's buffer held.
  abbrev pub Faithful : (ManhBay io be → KetQua) → Type 0
  Faithful join =
      (m : ManhBay io be) (held : Bytes) (loc : ChunkLocation)
      → InMemory laws m.buffer held
      → join m ≡ ok loc
      → content loc.document_id ≡ held

  thu_sound-Placed :
      (s : Session io be) (m : ManhBay io be) (r : KetQua)
      → Placed s
      → ((loc : ChunkLocation) → r ≡ ok loc → content loc.document_id ≡ slice T m.offset m.size)
      → Placed (thu_sound s m r).1
  unfolding thu_sound new_record from_location
  thu_sound-Placed s m (ok loc) h f = record {
    in_memory = h.in_memory;
    many = h.many;
    rows = All-append (IsPlaced content T) s.chunk_records _ h.rows (f loc refl, tt);
    loaded = h.loaded;
    opened = h.opened;
  }
  thu_sound-Placed s m (err e) h f = record {
    in_memory = h.in_memory;
    many = h.many;
    rows = h.rows;
    loaded = h.loaded;
    opened = h.opened;
  }

  thu_broken-Placed : (s : Session io be) (r : KetQua) → Placed s → Placed (thu_broken s r).1
  unfolding thu_broken
  thu_broken-Placed s (ok loc) h = record {
    in_memory = h.in_memory;
    many = h.many;
    rows = h.rows;
    loaded = h.loaded;
    opened = h.opened;
  }
  thu_broken-Placed s (err e) h = h

  thu_manh-Placed :
      (join : ManhBay io be → KetQua) (s : Session io be) (m : ManhBay io be)
      → Faithful join
      → IsLoaded m
      → Placed s
      → Placed (thu_manh s m (join m)).1
  unfolding thu_manh
  thu_manh-Placed join s m f l h =
      elim s.manh_hong
        as (λ b. Placed (if b then thu_broken s (join m) else thu_sound s m (join m)).1) [
          | true ↦ thu_broken-Placed s (join m) h
          | false ↦ thu_sound-Placed s m (join m) h (λ loc e. f m _ loc l e)
        ]

  taken-Placed :
      (s : Session io be) (ms : List (ManhBay io be))
      → All IsLoaded ms
      → Placed s
      → Placed (record s { dang_bay = ms })
  taken-Placed s ms l h = record {
    in_memory = h.in_memory;
    many = h.many;
    rows = h.rows;
    loaded = l;
    opened = h.opened;
  }

  thu_from-Placed :
      (join : ManhBay io be → KetQua) (ms : List (ManhBay io be)) (s : Session io be)
      → Faithful join
      → All IsLoaded ms
      → Placed s
      → Placed (thu_from join ms s).1
  unfolding thu_from
  thu_from-Placed join [] s f l h = h
  thu_from-Placed join (m ∷ ms) s f (l, ls) h =
      thu_manh-Placed join (record s { dang_bay = ms }) m f l (taken-Placed s ms ls h)

  pub thu_mot-Placed :
      (join : ManhBay io be → KetQua) (s : Session io be)
      → Faithful join
      → Placed s
      → Placed (thu_mot_manh join s).1
  unfolding thu_mot_manh
  thu_mot-Placed join s f h = thu_from-Placed join s.dang_bay s f h.loaded h

  thu_loop-Placed :
      (join : ManhBay io be → KetQua) (ms : List (ManhBay io be)) (s : Session io be)
      → Faithful join
      → All IsLoaded ms
      → Placed s
      → Placed (thu_loop join ms s)
  unfolding thu_loop
  thu_loop-Placed join [] s f l h = h
  thu_loop-Placed join (m ∷ ms) s f (l, ls) h =
      thu_loop-Placed join ms (thu_manh (record s { dang_bay = ms }) m (join m)).1 f ls
        (thu_manh-Placed join (record s { dang_bay = ms }) m f l (taken-Placed s ms ls h))

  rewind-Placed : (s : Session io be) → Placed s → Placed (rewind_session s).1
  unfolding rewind_session
  rewind-Placed s h = record {
    in_memory = h.in_memory;
    many = h.many;
    rows = h.rows;
    loaded = h.loaded;
    opened = λ b e. absurd (ground (arith, e));
  }

  pub thu_het-Placed :
      (join : ManhBay io be → KetQua) (s : Session io be)
      → Faithful join
      → Placed s
      → Placed (thu_het_manh join s).1
  unfolding thu_het_manh
  thu_het-Placed join s f h =
      let s' = thu_loop join s.dang_bay s in
      let h' = thu_loop-Placed join s.dang_bay s f h.loaded h in
      elim s'.manh_hong as (λ b. Placed (if b then rewind_session s' else (ok tt, s')).1) [
        | true ↦ rewind-Placed s' h'
        | false ↦ h'
      ]

  pub giao-Placed : (s : Session io be) → Placed s → Placed (giao_manh_cho_nen s)
  unfolding giao_manh_cho_nen giao_buffer
  giao-Placed s h =
      elim s.buffer as (λ o. s.buffer ≡ o → Placed (giao_buffer s o)) [
        | none ↦ λ e. h
        | some b ↦ λ e. record {
          in_memory = h.in_memory;
          many = h.many;
          rows = h.rows;
          loaded = All-append IsLoaded s.dang_bay _ h.loaded (h.opened b e, tt);
          opened = λ b e. absurd (ground (arith, e));
        }
      ]
        refl

  pub ghi_nhan_loi-Placed : (e : String) (s : Session io be) → Placed s → Placed (ghi_nhan_loi e s)
  unfolding ghi_nhan_loi
  ghi_nhan_loi-Placed e s h = record {
    in_memory = h.in_memory;
    many = h.many;
    rows = h.rows;
    loaded = h.loaded;
    opened = h.opened;
  }

  -- The buffer of a chunk that is opened is in memory, and empty.
  pub open_chunk-Placed :
      (s : Session io be) (w : Backend.World be) → Placed s → Placed (open_chunk (s, w)).1.0
  unfolding open_chunk create
  open_chunk-Placed s w h = rw (lt→ltb 1 s.so_manh_song_song h.many) (record {
    in_memory = h.in_memory;
    many = h.many;
    rows = h.rows;
    loaded = h.loaded;
    opened = λ b e.
        let same : create io s.che_do_dem (s.spool_path s.chunk_index) none ≡ b =
          ground (arith, e) in
        subst (λ c. InMemory laws c []) same
          (record { mode = h.in_memory; bytes = refl; buffered = refl; alive = refl });
  })
