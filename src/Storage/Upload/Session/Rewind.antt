-- ===== src/Storage/Upload/Session/Rewind.antt =====
-- The invariant and `thuHetManh`, with its way back to the last gapless point.
use telegram_disk.Base.{
  false, ℕ, ◌+◌, ◌≡◌, refl, sym, ap, ◌∙◌, subst, ◌⊎◌, inl, inr, none, List, [], ◌∷◌, length, arith,
}
use Prim.Native.String.{String}
use telegram_disk.Base.Bits.{Bytes}
use telegram_disk.Base.Result.{ok, err}
use telegram_disk.Storage.Chunk.{ChunkEntry}
use telegram_disk.Storage.ChunkBuffer.Files.{Stdio}
use telegram_disk.Storage.Upload.Backend.{Backend}
use telegram_disk.Storage.Upload.Session.{
  Session, ManhBay, KetQua, thu_manh, thu_het_manh, thu_loop, rewind_session, last_index,
}
use telegram_disk.Storage.Upload.Session.Invariant.{Records, Flights}
use telegram_disk.Storage.Upload.Session.Keep.{
  Good, Broken, Outcome, SameOpen, thu_manh-Outcome, thu_manh-rest,
}

last_index-Records :
    (T : Bytes) (i o : ℕ) (r : ChunkEntry) (rs : List ChunkEntry) (e : ℕ)
    → Records T i o (r ∷ rs) e
    → last_index (r ∷ rs) ≡ i + length (r ∷ rs)
unfolding last_index
last_index-Records T i o r [] e h = omega (arith, h.0)
last_index-Records T i o r (q ∷ rs) e h =
    omega (arith, last_index-Records T (i + 1) (o + r.size) q rs e h.3)

last_index-length :
    (T : Bytes) (rs : List ChunkEntry) (e : ℕ) → Records T 0 0 rs e → last_index rs ≡ length rs
last_index-length T [] e h = unfold last_index in refl
last_index-length T (r ∷ rs) e h = omega (arith, last_index-Records T 0 0 r rs e h)

module _ {io : Stdio} {be : Backend} (T : Bytes) where
  thu_loop-Outcome :
      (join : ManhBay io be → KetQua) (ms : List (ManhBay io be)) (s : Session io be)
      → Outcome T s
      → s.dang_bay ≡ ms
      → Outcome T (thu_loop join ms s) × ((thu_loop join ms s).dang_bay ≡ [])
  unfolding thu_loop
  thu_loop-Outcome join [] s o e = (o, e)
  thu_loop-Outcome join (m ∷ ms) s o e =
      let s1 : Session io be = record s { dang_bay = ms } in
      thu_loop-Outcome join ms (thu_manh s1 m (join m)).1 (thu_manh-Outcome T s m ms (join m) o e)
        (thu_manh-rest T s1 m (join m)).0

  rewind-Good : (s : Session io be) → Broken T s → s.dang_bay ≡ [] → Good T (rewind_session s).1
  unfolding rewind_session
  rewind-Good s (st, b) e = (
    record {
      sized = st.sized;
      many = st.many;
      records = st.records;
      committed = st.committed;
      within = st.within;
    },
    record {
      sound = refl;
      flights =
          subst
            (λ (l : List (ManhBay io be)).
              Flights T (length s.chunk_records) s.committed_bytes l s.committed_bytes)
            (sym e) refl;
      numbered =
          omega
            (arith, last_index-length T s.chunk_records s.committed_bytes st.records, ap length e);
      counted = omega arith;
      reached = st.within;
      whole_hash = st.committed;
    },
  )

  SameOpen-trans : (a b c : Session io be) → SameOpen a b → SameOpen b c → SameOpen a c
  SameOpen-trans a b c h k = record {
    buffer = h.buffer ∙ k.buffer;
    written = h.written ∙ k.written;
    hasher = h.hasher ∙ k.hasher;
    offset = h.offset ∙ k.offset;
    size = h.size ∙ k.size;
  }

  thu_loop-rest :
      (join : ManhBay io be → KetQua) (ms : List (ManhBay io be)) (s : Session io be)
      → let s' = thu_loop join ms s in (s'.received_bytes ≡ s.received_bytes) × SameOpen s' s
  unfolding thu_loop
  thu_loop-rest join [] s =
      (refl, record { buffer = refl; written = refl; hasher = refl; offset = refl; size = refl })
  thu_loop-rest join (m ∷ ms) s =
      let s1 : Session io be = record s { dang_bay = ms } in
      let s2 = (thu_manh s1 m (join m)).1 in
      let h = thu_manh-rest T s1 m (join m) in
      let ih = thu_loop-rest join ms s2 in
      (
        ih.0 ∙ h.1,
        SameOpen-trans (thu_loop join ms s2) s2 s ih.1 (record {
          buffer = h.2.buffer;
          written = h.2.written;
          hasher = h.2.hasher;
          offset = h.2.offset;
          size = h.2.size;
        }),
      )

  -- Let a session with several chunks at once be in order against `T`, or have lost a chunk behind
  -- rows that are in order. `thuHetManh` empties the queue and leaves the session in order,
  -- whatever the threads report. If it succeeds, the count of received bytes and the open chunk
  -- stay; else what has been received falls back to what is stored, and the open chunk is given
  -- up.
  pub thu_het-Good :
      (join : ManhBay io be → KetQua) (s : Session io be)
      → Outcome T s
      → let (r, s') = thu_het_manh join s in
        Good T s'
        × (s'.dang_bay ≡ [])
        × (((r ≡ ok tt) × (s'.received_bytes ≡ s.received_bytes) × SameOpen s' s)
            ⊎ (((x : String) × (r ≡ err x))
                × (s'.received_bytes ≡ s'.committed_bytes)
                × (s'.buffer ≡ none)
                × (s'.chunk_written ≡ 0)))
  unfolding thu_het_manh
  thu_het-Good join s o =
      let s' = thu_loop join s.dang_bay s in
      let (o', e) = thu_loop-Outcome join s.dang_bay s o refl in
      let rest = thu_loop-rest join s.dang_bay s in
      elim o' [
        | inl (st, fl) ↦ rw fl.sound ((st, fl), e, inl (refl, rest.0, rest.1))
        | inr (st, b) ↦ rw b (rewind-Good s' (st, b) e, e, inr ((_, refl), refl, refl, refl))
      ]

  -- With nothing in flight and nothing lost there is nothing to do.
  pub thu_het_idle :
      (join : ManhBay io be → KetQua) (s : Session io be)
      → s.dang_bay ≡ []
      → s.manh_hong ≡ false
      → thu_het_manh join s ≡ (ok tt, s)
  unfolding thu_het_manh thu_loop
  thu_het_idle join s d m =
      let same : thu_loop join s.dang_bay s ≡ s = ap (λ ms. thu_loop join ms s) d in
      rw (same, m) refl
