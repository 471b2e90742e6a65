-- ===== src/Storage/Upload/Finish/Exact.antt =====
-- `complete` with several chunks at once, and the rows that it hands on.
use telegram_disk.Base.{
  ℕ, ◌+◌, ◌<◌, ◌≡◌, refl, sym, ap, ◌∙◌, subst, ◌⊎◌, inl, inr, false, Bool-cases, Option, none, some,
  List, [], ◌∷◌, lt→ltb, le→leb, length, take, arith, if◌then◌else◌, ltb,
}
use telegram_disk.Base.Bits.{Bytes}
use telegram_disk.Base.Result.{Done, Result, ok, err}
use telegram_disk.Storage.Chunk.{ChunkEntry}
use telegram_disk.Storage.ChunkBuffer.Files.{Stdio}
use telegram_disk.Storage.ChunkBuffer.{ChunkBuffer}
use telegram_disk.Storage.Upload.Backend.{Backend}
use telegram_disk.Storage.Upload.Session.{
  Session, ManhBay, KetQua, flushing, thu_het_manh, ghi_nhan_loi,
}
use telegram_disk.Storage.Upload.Session.Invariant.{hashed, Records, Flights}
use telegram_disk.Storage.Upload.Session.Rewind.{thu_het-Good}
use telegram_disk.Storage.Upload.Session.Keep.{Good}
use telegram_disk.Storage.Upload.Receive.{with_world}
use telegram_disk.Storage.Upload.Receive.Steps.{Inv, giao-Inv, giao-rest, Filling}
use telegram_disk.Storage.Upload.Finish.{
  insert_by_index, sort_by_index, last_manh, landed, close_last, complete_chunks,
}
use Prim.Native.String.{String}

pub sort-Records :
    (T : Bytes) (i o : ℕ) (rs : List ChunkEntry) (e : ℕ)
    → Records T i o rs e
    → sort_by_index rs ≡ rs
unfolding sort_by_index insert_by_index
sort-Records T i o [] e h = refl
sort-Records T i o (r ∷ []) e h = refl
sort-Records T i o (r ∷ (q ∷ rs)) e h =
    rw (sort-Records T (i + 1) (o + r.size) (q ∷ rs) e h.3)
      (rw (le→leb r.index q.index (omega (arith, h.0, h.3.0))) refl)

module _ {io : Stdio} {be : Backend} (T : Bytes) where
  pub flushing-Inv : (s : Session io be) → Inv T s → Inv T (record s { state = flushing })
  flushing-Inv s h = record {
    stored = record {
      sized = h.stored.sized;
      many = h.stored.many;
      records = h.stored.records;
      committed = h.stored.committed;
      within = h.stored.within;
    };
    flying = record {
      sound = h.flying.sound;
      flights = h.flying.flights;
      numbered = h.flying.numbered;
      counted = h.flying.counted;
      reached = h.flying.reached;
      whole_hash = h.flying.whole_hash;
    };
    ready = record { idle = h.ready.idle; opened = h.ready.opened; room = h.ready.room };
  }

  -- The open chunk has been handed over, or there was nothing in it.
  pub last_manh-Inv :
      (o : Option (ChunkBuffer io (Backend.World be))) (s : Session io be)
      → s.buffer ≡ o
      → Inv T s
      → let t = last_manh o s in
        Good T t × (t.chunk_written ≡ 0) × (t.received_bytes ≡ s.received_bytes)
  unfolding last_manh
  last_manh-Inv none s e h = ((h.stored, h.flying), h.ready.idle e, refl)
  last_manh-Inv (some b) s e h = elim (Bool-cases (ltb 0 s.chunk_written)) [
    | inl c ↦
        let f : Filling T s = record {
          stored = h.stored;
          flying = h.flying;
          store = b;
          buffer = e;
          part_hash = h.ready.opened b e;
          unfilled = omega (arith, h.ready.room);
        } in
        let g = giao-Inv T s f in
        let rest = giao-rest T s b e in rw c ((g.stored, g.flying), rest.1, rest.2)
    | inr c ↦ rw c (
      (
        record {
          sized = h.stored.sized;
          many = h.stored.many;
          records = h.stored.records;
          committed = h.stored.committed;
          within = h.stored.within;
        },
        record {
          sound = h.flying.sound;
          flights = h.flying.flights;
          numbered = h.flying.numbered;
          counted = h.flying.counted;
          reached = h.flying.reached;
          whole_hash = h.flying.whole_hash;
        },
      ),
      ground (arith, c),
      refl,
    )
  ]

  -- The rows cut all `total` bytes, and no chunk is in flight any more.
  abbrev pub Whole : ℕ → Session io be → Type 0
  Whole total s =
      Records T 0 0 s.chunk_records total
      × (s.dang_bay ≡ [])
      × (s.hasher ≡ hashed (take total T))
      × (s.received_bytes ≡ total)

  abbrev Landed : ℕ → Result Done × Session io be → Type 0
  Landed total (r, s) = ((r ≡ ok tt) × Whole total s) ⊎ (((x : String) × (r ≡ err x)) × Good T s)

  landed-Whole :
      (total : ℕ) (r : Result Done × Session io be) → Landed total r → Landed total (landed r)
  unfolding landed ghi_nhan_loi
  landed-Whole total (ok _, s) (inl (e, w)) =
      inl (refl, rw (sort-Records T 0 0 s.chunk_records total w.0) w)
  landed-Whole total (err x, s) (inl (e, w)) = ground arith
  landed-Whole total (ok _, s) (inr ((x, e), g)) = ground arith
  landed-Whole total (err x, s) (inr (e, g)) =
      let h = g.0 in
      let f = g.1 in
      inr (
        (_, refl),
        (
          record {
            sized = h.sized;
            many = h.many;
            records = h.records;
            committed = h.committed;
            within = h.within;
          },
          record {
            sound = f.sound;
            flights = f.flights;
            numbered = f.numbered;
            counted = f.counted;
            reached = f.reached;
            whole_hash = f.whole_hash;
          },
        ),
      )

  thu_het-Landed :
      (join : ManhBay io be → KetQua) (s : Session io be)
      → Good T s
      → s.chunk_written ≡ 0
      → Landed s.received_bytes (thu_het_manh join s)
  thu_het-Landed join s g z =
      let (g', e, r) = thu_het-Good T join s (inl g) in
      let s' = (thu_het_manh join s).1 in
      elim r [
        | inl (o, got, same) ↦
            let flights =
              subst
                (λ (l : List (ManhBay io be)).
                  Flights T (length s'.chunk_records) s'.committed_bytes l s'.chunk_offset)
                e g'.1.flights in
            let all : s'.committed_bytes ≡ s.received_bytes =
              omega (arith, flights, g'.1.counted, same.written, z, got) in
            inl (
              o,
              (
                subst (Records T 0 0 s'.chunk_records) all g'.0.records,
                e,
                g'.1.whole_hash ∙ ap (λ n. hashed (take n T)) got,
                got,
              ),
            )
        | inr (o, _, _, _) ↦ inr (o, g')
      ]

  with_world-Landed :
      (total : ℕ) (w : Backend.World be) (r : Result Done × Session io be)
      → Landed total r
      → let (q, (s', w')) = with_world w r in Landed total (q, s')
  with_world-Landed total w (r, s) h = h

  pub complete_chunks-many :
      (join : ManhBay io be → KetQua) (s : Session io be) (w : Backend.World be)
      → 1 < s.so_manh_song_song
      → s.is_cancelled ≡ false
      → let s1 : Session io be = record s { state = flushing } in
        complete_chunks join (s, w)
        ≡ with_world w (landed (thu_het_manh join (last_manh s1.buffer s1)))
  unfolding complete_chunks
  complete_chunks-many join s w h c =
      let s1 : Session io be = record s { state = flushing } in
      let many = with_world w (landed (thu_het_manh join (last_manh s1.buffer s1))) in
      let one = close_last s1.writer (s1, w) in
      ap
        (λ b.
          if b
          then (err "Phiên tải lên đã bị huỷ", (s, w))
          else (if ltb 1 s.so_manh_song_song then many else one))
        c
      ∙ ap (λ b. if b then many else one) (lt→ltb 1 s.so_manh_song_song h)

  -- With several chunks at once, let the session be in order against the file `T` and not
  -- cancelled. If `complete` gets through its chunks, the rows it hands on cut exactly the
  -- received bytes, in order, without a gap and each with its own digest, no chunk is left in
  -- flight, and the hash is that of the received bytes; if it fails, rows, chunks in flight and
  -- hash are in order.
  pub complete-Whole :
      (join : ManhBay io be → KetQua) (s : Session io be) (w : Backend.World be)
      → Inv T s
      → s.is_cancelled ≡ false
      → let (r, (s', w')) = complete_chunks join (s, w) in
        ((r ≡ ok tt) × Whole s.received_bytes s') ⊎ (((x : String) × (r ≡ err x)) × Good T s')
  complete-Whole join s w h c =
      let s1 : Session io be = record s { state = flushing } in
      let l = last_manh-Inv s1.buffer s1 refl (flushing-Inv s h) in
      let t = last_manh s1.buffer s1 in
      let d = subst (λ n. Landed n (thu_het_manh join t)) l.2 (thu_het-Landed join t l.0 l.1) in
      subst
        (λ r.
          ((r.0 ≡ ok tt) × Whole s.received_bytes r.1.0)
          ⊎ (((x : String) × (r.0 ≡ err x)) × Good T r.1.0))
        (sym (complete_chunks-many join s w h.stored.many c))
        (with_world-Landed s.received_bytes w (landed (thu_het_manh join t))
          (landed-Whole s.received_bytes (thu_het_manh join t) d))
