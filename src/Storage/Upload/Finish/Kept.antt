-- ===== src/Storage/Upload/Finish/Kept.antt =====
-- `complete` and `chotSoTruocKhiNoi` leave the session in order, so that it can go on behind a failure.
use telegram_disk.Base.{
  ◌≡◌, refl, sym, subst, inl, inr, ap, ◌<◌, ◌∙◌, [], true, false, length, ◌==◌, if◌then◌else◌, none,
  some, Option, ltb,
}
use telegram_disk.Base.Bits.{Bytes}
use telegram_disk.Base.Result.{Done, Result, ok, err}
use telegram_disk.Storage.ChunkBuffer.Files.{Stdio}
use telegram_disk.Storage.ChunkBuffer.{ChunkBuffer}
use telegram_disk.Storage.Upload.Backend.{Backend}
use telegram_disk.Storage.Upload.Session.{
  Session, ManhBay, KetQua, flushing, thu_het_manh, giao_manh_cho_nen, ghi_nhan_loi,
}
use telegram_disk.Storage.Upload.Session.Rewind.{thu_het-Good, thu_het_idle}
use telegram_disk.Storage.Upload.Receive.{with_world}
use telegram_disk.Storage.Upload.Receive.Steps.{
  Inv, ghi_nhan_loi-Inv, thu_het-Inv, Ready-idle, giao-rest,
}
use telegram_disk.Storage.Upload.Finish.{
  last_manh, landed, complete_chunks, chot_so_truoc_khi_noi, sort_by_index,
}
use telegram_disk.Storage.Upload.Finish.Exact.{
  sort-Records, flushing-Inv, last_manh-Inv, complete_chunks-many,
}

module _ {io : Stdio} {be : Backend} (T : Bytes) where
  -- The rows are sorted already.
  landed-Inv : (r : Result Done × Session io be) → Inv T r.1 → Inv T (landed r).1
  unfolding landed
  landed-Inv (ok _, s) h = record {
    stored = record {
      sized = h.stored.sized;
      many = h.stored.many;
      records = rw (sort-Records T 0 0 s.chunk_records _ h.stored.records) h.stored.records;
      committed = h.stored.committed;
      within = h.stored.within;
    };
    flying = record {
      sound = h.flying.sound;
      flights = rw (sort-Records T 0 0 s.chunk_records _ h.stored.records) h.flying.flights;
      numbered = rw (sort-Records T 0 0 s.chunk_records _ h.stored.records) h.flying.numbered;
      counted = h.flying.counted;
      reached = h.flying.reached;
      whole_hash = h.flying.whole_hash;
    };
    ready = record { idle = h.ready.idle; opened = h.ready.opened; room = h.ready.room };
  }
  landed-Inv (err e, s) h = ghi_nhan_loi-Inv T e s h

  last_manh-none :
      (o : Option (ChunkBuffer io (Backend.World be))) (s : Session io be)
      → s.buffer ≡ o
      → (last_manh o s).buffer ≡ none
  unfolding last_manh
  last_manh-none none s e = e
  last_manh-none (some b) s e =
      elim (ltb 0 s.chunk_written)
        as (λ c. (if c then giao_manh_cho_nen s else record s { buffer = none }).buffer ≡ none) [
          | true ↦ (giao-rest T s b e).0
          | false ↦ refl
        ]

  pub complete-Inv :
      (join : ManhBay io be → KetQua) (s : Session io be) (w : Backend.World be)
      → Inv T s
      → s.is_cancelled ≡ false
      → Inv T (complete_chunks join (s, w)).1.0
  complete-Inv join s w h c =
      let s1 : Session io be = record s { state = flushing } in
      let t = last_manh s1.buffer s1 in
      let (g, z, _) = last_manh-Inv T s1.buffer s1 refl (flushing-Inv T s h) in
      subst (λ r. Inv T r.1.0) (sym (complete_chunks-many T join s w h.stored.many c))
        (landed-Inv (thu_het_manh join t) (
          thu_het-Inv T join t (inl g)
            (Ready-idle T t g.0.sized (last_manh-none s1.buffer s1 refl) z)))

  landed-closed :
      (r : Result Done × Session io be)
      → r.1.dang_bay ≡ []
      → r.1.buffer ≡ none
      → ((landed r).1.dang_bay ≡ []) × ((landed r).1.buffer ≡ none)
  unfolding landed ghi_nhan_loi
  landed-closed (ok _, s) d b = (d, b)
  landed-closed (err e, s) d b = (d, b)

  -- Nothing is in flight or open behind it.
  pub complete-closed :
      (join : ManhBay io be → KetQua) (s : Session io be) (w : Backend.World be)
      → Inv T s
      → s.is_cancelled ≡ false
      → let s' = (complete_chunks join (s, w)).1.0 in (s'.dang_bay ≡ []) × (s'.buffer ≡ none)
  complete-closed join s w h c =
      let s1 : Session io be = record s { state = flushing } in
      let t = last_manh s1.buffer s1 in
      let (g, z, _) = last_manh-Inv T s1.buffer s1 refl (flushing-Inv T s h) in
      let (_, empty, r) = thu_het-Good T join t (inl g) in
      let closed : (thu_het_manh join t).1.buffer ≡ none = elim r [
        | inl (_, _, same) ↦ same.buffer ∙ last_manh-none s1.buffer s1 refl
        | inr (_, _, b, _) ↦ b
      ] in
      subst (λ r. (r.1.0.dang_bay ≡ []) × (r.1.0.buffer ≡ none))
        (sym (complete_chunks-many T join s w h.stored.many c))
        (landed-closed (thu_het_manh join t) empty closed)

  pub complete_idle :
      (join : ManhBay io be → KetQua) (s : Session io be) (w : Backend.World be)
      → 1 < s.so_manh_song_song
      → s.is_cancelled ≡ false
      → s.buffer ≡ none
      → s.dang_bay ≡ []
      → s.manh_hong ≡ false
      → complete_chunks join (s, w)
        ≡ (ok tt, (record s { state = flushing; chunk_records = sort_by_index s.chunk_records }, w))
  unfolding last_manh landed
  complete_idle join s w m c b d z =
      let s1 : Session io be = record s { state = flushing } in
      let last : last_manh s1.buffer s1 ≡ s1 = ap (λ o. last_manh o s1) b in
      complete_chunks-many T join s w m c
      ∙ ap (λ t. with_world w (landed (thu_het_manh join t))) last
      ∙ ap (λ r. with_world w (landed r)) (thu_het_idle T join s1 d z)

  settled-Inv :
      (r : Result Done × Session io be)
      → Inv T r.1
      → Inv T (elim r.0 [ ok _ ↦ r.1 | err e ↦ record r.1 { message = e } ])
  settled-Inv (ok _, s) h = h
  settled-Inv (err e, s) h = record {
    stored = record {
      sized = h.stored.sized;
      many = h.stored.many;
      records = h.stored.records;
      committed = h.stored.committed;
      within = h.stored.within;
    };
    flying = record {
      sound = h.flying.sound;
      flights = h.flying.flights;
      numbered = h.flying.numbered;
      counted = h.flying.counted;
      reached = h.flying.reached;
      whole_hash = h.flying.whole_hash;
    };
    ready = record { idle = h.ready.idle; opened = h.ready.opened; room = h.ready.room };
  }

  pub chot_so-Inv :
      (join : ManhBay io be → KetQua) (s : Session io be)
      → Inv T s
      → Inv T (chot_so_truoc_khi_noi join s)
  unfolding chot_so_truoc_khi_noi
  chot_so-Inv join s h =
      let r = thu_het_manh join s in
      elim (length s.dang_bay == 0)
        as (λ b.
          Inv T (if b then s else elim r.0 [ ok _ ↦ r.1 | err e ↦ record r.1 { message = e } ])) [
            | true ↦ h
            | false ↦ settled-Inv r (thu_het-Inv T join s (inl (h.stored, h.flying)) h.ready)
          ]
