-- ===== src/Storage/Upload/Session/Keep.antt =====
-- The steps of one chunk and the invariant: handing a chunk to a thread (`giaoManhChoNen`) and taking
-- one off the queue (`thuMotManh`).
use telegram_disk.Base.{
  ℕ, ◌+◌, ◌≡◌, refl, sym, ap, ◌∙◌, subst, ◌⊎◌, inl, inr, true, false, some, List, [], ◌∷◌, ◌++◌,
  length, take, length-append, arith, if◌then◌else◌,
}
use Prim.Native.String.{String}
use mathlib.Core.Path.{subst₂, ap₂}
use telegram_disk.Base.Bits.{Bytes}
use telegram_disk.Base.Result.{ok, err}
use telegram_disk.Crypto.Sha256.{finish}
use telegram_disk.Text.Hex.{to_hex}
use telegram_disk.Storage.Chunk.{ChunkLocation, ChunkEntry, from_location}
use telegram_disk.Storage.ChunkBuffer.Files.{Stdio}
use telegram_disk.Storage.ChunkBuffer.{ChunkBuffer}
use telegram_disk.Storage.Upload.Backend.{Backend}
use telegram_disk.Storage.Upload.Session.{
  Session, ManhBay, KetQua, new_record, giao_buffer, thu_sound, thu_broken, thu_from, or_default,
  giao_manh_cho_nen, thu_manh, thu_mot_manh,
}
use telegram_disk.Storage.Upload.Session.Invariant.{
  slice, hashed, digest, Records, Records-append, Flights, Flights-append, Stored, Flying, Ready,
  Flights-le,
}

new_record-Records :
    (T : Bytes) (rs : List ChunkEntry) (i o n : ℕ) (d : Bytes) (loc : ChunkLocation)
    → Records T 0 0 rs o
    → i ≡ length rs
    → d ≡ digest (slice T o n)
    → Records T 0 0 (rs ++ (new_record i o n d loc ∷ [])) (o + n)
unfolding new_record from_location
new_record-Records T rs i o n d loc h a b =
    Records-append T 0 0 rs (new_record i o n d loc) o h (omega (arith, a)) refl b

-- The open chunk of `t` is that of `s`.
pub record SameOpen {io : Stdio} {be : Backend} (t s : Session io be) : Type 0 where
  pub buffer : t.buffer ≡ s.buffer
  pub written : t.chunk_written ≡ s.chunk_written
  pub hasher : t.chunk_hasher ≡ s.chunk_hasher
  pub offset : t.chunk_offset ≡ s.chunk_offset
  pub size : t.chunk_size ≡ s.chunk_size

pub Ready-same :
    {io : Stdio} {be : Backend} (T : Bytes) (t s : Session io be)
    → SameOpen t s
    → Ready T s
    → Ready T t
Ready-same T t s e h = record {
  idle = λ n. e.written ∙ h.idle (sym e.buffer ∙ n);
  opened = λ b n.
      e.hasher
      ∙ h.opened b (sym e.buffer ∙ n)
      ∙ ap₂ (λ o w. hashed (slice T o w)) (sym e.offset) (sym e.written);
  room = omega (arith, e.written, e.size, h.room);
}

module _ {io : Stdio} {be : Backend} (T : Bytes) where
  abbrev pub Good : Session io be → Type 0
  Good s = Stored T s × Flying T s

  -- A lost chunk: what stands behind it is not to be trusted any more.
  abbrev pub Broken : Session io be → Type 0
  Broken s = Stored T s × (s.manh_hong ≡ true)

  giao_buffer-Good :
      (s : Session io be) (b : ChunkBuffer io (Backend.World be))
      → Good s
      → s.chunk_hasher ≡ hashed (slice T s.chunk_offset s.chunk_written)
      → Good (giao_buffer s (some b))
  unfolding giao_buffer
  giao_buffer-Good s b (st, fl) op = (
    record {
      sized = st.sized;
      many = st.many;
      records = st.records;
      committed = st.committed;
      within = st.within;
    },
    record {
      sound = fl.sound;
      flights =
          Flights-append T (length s.chunk_records) s.committed_bytes s.dang_bay _ s.chunk_offset
            fl.flights fl.numbered refl (ap (λ h. to_hex (finish h)) op)
            (fl.whole_hash ∙ ap (λ n. hashed (take n T)) fl.counted);
      numbered = omega (arith, fl.numbered, length-append s.dang_bay (_ ∷ []));
      counted = omega (arith, fl.counted);
      reached = fl.reached;
      whole_hash = fl.whole_hash;
    },
  )

  -- The chunk that is handed over takes its place behind the others.
  pub giao-Good :
      (s : Session io be) (b : ChunkBuffer io (Backend.World be))
      → Good s
      → s.chunk_hasher ≡ hashed (slice T s.chunk_offset s.chunk_written)
      → s.buffer ≡ some b
      → Good (giao_manh_cho_nen s)
  unfolding giao_manh_cho_nen
  giao-Good s b g op e = subst (λ o. Good (giao_buffer s o)) (sym e) (giao_buffer-Good s b g op)

  thu_sound-Good :
      (s : Session io be) (m : ManhBay io be) (ms : List (ManhBay io be)) (loc : ChunkLocation)
      → Good s
      → s.dang_bay ≡ m ∷ ms
      → Good (thu_sound (record s { dang_bay = ms }) m (ok loc)).1
  unfolding thu_sound
  thu_sound-Good s m ms loc (st, fl) e =
      let fs =
        subst
          (λ (l : List (ManhBay io be)).
            Flights T (length s.chunk_records) s.committed_bytes l s.chunk_offset)
          e fl.flights in
      let row =
        new_record-Records T s.chunk_records m.index s.committed_bytes m.size m.sha256 loc
          st.records fs.0 fs.2 in
      let size =
        length-append s.chunk_records (new_record m.index m.offset m.size m.sha256 loc ∷ []) in
      (
        record {
          sized = st.sized;
          many = st.many;
          records =
              subst
                (λ o.
                  Records T 0 0 (s.chunk_records ++ (new_record m.index o m.size m.sha256 loc ∷ []))
                    (o + m.size))
                (sym fs.1) row;
          committed = fs.3 ∙ ap (λ o. hashed (take (o + m.size) T)) (sym fs.1);
          within =
              omega (arith, fs.1, Flights-le T _ _ ms s.chunk_offset fs.4, fl.counted, fl.reached);
        },
        record {
          sound = fl.sound;
          flights =
              subst₂ (λ i o. Flights T i o ms s.chunk_offset) (sym size)
                (ap (λ o. o + m.size) (sym fs.1)) fs.4;
          numbered = omega (arith, fl.numbered, size, ap length e);
          counted = fl.counted;
          reached = fl.reached;
          whole_hash = fl.whole_hash;
        },
      )

  -- What a step behind a join leaves: all in order, or a chunk lost and the rest kept for later.
  abbrev pub Outcome : Session io be → Type 0
  Outcome s = Good s ⊎ Broken s

  thu_sound-Outcome :
      (s : Session io be) (m : ManhBay io be) (ms : List (ManhBay io be)) (r : KetQua)
      → Good s
      → s.dang_bay ≡ m ∷ ms
      → Outcome (thu_sound (record s { dang_bay = ms }) m r).1
  thu_sound-Outcome s m ms (ok loc) g e = inl (thu_sound-Good s m ms loc g e)
  thu_sound-Outcome s m ms (err x) (st, fl) e =
      unfold thu_sound in
      inr (
        record {
          sized = st.sized;
          many = st.many;
          records = st.records;
          committed = st.committed;
          within = st.within;
        },
        refl,
      )

  thu_broken-Broken :
      (s : Session io be) (ms : List (ManhBay io be)) (r : KetQua)
      → Broken s
      → Broken (thu_broken (record s { dang_bay = ms }) r).1
  unfolding thu_broken
  thu_broken-Broken s ms (ok loc) (st, b) = (
    record {
      sized = st.sized;
      many = st.many;
      records = st.records;
      committed = st.committed;
      within = st.within;
    },
    b,
  )
  thu_broken-Broken s ms (err x) (st, b) = (
    record {
      sized = st.sized;
      many = st.many;
      records = st.records;
      committed = st.committed;
      within = st.within;
    },
    b,
  )

  pub thu_manh-Outcome :
      (s : Session io be) (m : ManhBay io be) (ms : List (ManhBay io be)) (r : KetQua)
      → Outcome s
      → s.dang_bay ≡ m ∷ ms
      → Outcome (thu_manh (record s { dang_bay = ms }) m r).1
  unfolding thu_manh
  thu_manh-Outcome s m ms r (inl (st, fl)) e =
      subst
        (λ b.
          Outcome
            (if b
              then thu_broken (record s { dang_bay = ms }) r
              else thu_sound (record s { dang_bay = ms }) m r).1)
        (sym fl.sound) (thu_sound-Outcome s m ms r (st, fl) e)
  thu_manh-Outcome s m ms r (inr (st, b)) e =
      subst
        (λ b.
          Outcome
            (if b
              then thu_broken (record s { dang_bay = ms }) r
              else thu_sound (record s { dang_bay = ms }) m r).1)
        (sym b) (inr (thu_broken-Broken s ms r (st, b)))

  -- What `thuMotManh` leaves alone.
  pub thu_manh-rest :
      (s : Session io be) (m : ManhBay io be) (r : KetQua)
      → let s' = (thu_manh s m r).1 in
        (s'.dang_bay ≡ s.dang_bay) × (s'.received_bytes ≡ s.received_bytes) × SameOpen s' s
  unfolding thu_manh thu_sound thu_broken
  thu_manh-rest s m r = ground arith

  thu_sound-result :
      (s : Session io be) (m : ManhBay io be) (ms : List (ManhBay io be)) (r : KetQua)
      → Good s
      → s.dang_bay ≡ m ∷ ms
      → let (q, s') = thu_sound (record s { dang_bay = ms }) m r in
        ((q ≡ ok tt) × Good s') ⊎ ((x : String) × (q ≡ err x) × Broken s')
  thu_sound-result s m ms (ok loc) g e =
      inl (unfold thu_sound in refl, thu_sound-Good s m ms loc g e)
  thu_sound-result s m ms (err x) (st, fl) e =
      let b : Broken (thu_sound (record s { dang_bay = ms }) m (err x)).1 =
        unfold thu_sound in
        (
          record {
            sized = st.sized;
            many = st.many;
            records = st.records;
            committed = st.committed;
            within = st.within;
          },
          refl,
        ) in
      inr (or_default x "Đẩy mảnh lên Telegram thất bại", unfold thu_sound in refl, b)

  thu_mot-step :
      (join : ManhBay io be → KetQua) (s : Session io be) (m : ManhBay io be)
      (ms : List (ManhBay io be))
      → s.dang_bay ≡ m ∷ ms
      → thu_mot_manh join s ≡ thu_manh (record s { dang_bay = ms }) m (join m)
  unfolding thu_mot_manh thu_from
  thu_mot-step join s m ms e = ap (λ l. thu_from join l s) e

  thu_manh_sound :
      (s : Session io be) (m : ManhBay io be) (ms : List (ManhBay io be)) (r : KetQua)
      → s.manh_hong ≡ false
      → thu_manh (record s { dang_bay = ms }) m r ≡ thu_sound (record s { dang_bay = ms }) m r
  unfolding thu_manh
  thu_manh_sound s m ms r e =
      ap
        (λ b.
          if b
          then thu_broken (record s { dang_bay = ms }) r
          else thu_sound (record s { dang_bay = ms }) m r)
        e

  -- Let a session with several chunks at once be in order, with a chunk in the queue. `thuMotManh`
  -- takes the chunk off the queue and leaves the count of received bytes and the open chunk alone;
  -- either it succeeds and the session stays in order, or it fails, the loss is marked and the
  -- stored rows are in order.
  pub thu_mot-Good :
      (join : ManhBay io be → KetQua) (s : Session io be) (m : ManhBay io be)
      (ms : List (ManhBay io be))
      → Good s
      → s.dang_bay ≡ m ∷ ms
      → let (r, s') = thu_mot_manh join s in
        (((r ≡ ok tt) × Good s') ⊎ ((x : String) × (r ≡ err x) × Broken s'))
        × (s'.dang_bay ≡ ms)
        × (s'.received_bytes ≡ s.received_bytes)
        × SameOpen s' s
  thu_mot-Good join s m ms (st, fl) e =
      let s1 : Session io be = record s { dang_bay = ms } in
      let h = thu_manh-rest s1 m (join m) in
      rw (thu_mot-step join s m ms e) (
        rw (thu_manh_sound s m ms (join m) fl.sound) (thu_sound-result s m ms (join m) (st, fl) e),
        h.0,
        h.1,
        record {
          buffer = h.2.buffer;
          written = h.2.written;
          hasher = h.2.hasher;
          offset = h.2.offset;
          size = h.2.size;
        },
      )
