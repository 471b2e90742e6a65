-- ===== src/Storage/Upload/Finish/Placed.antt =====
-- `complete` and `chotSoTruocKhiNoi`, and where the bytes of the rows are.
use telegram_disk.Base.{
  ℕ, ◌≡◌, sym, subst, true, false, Option, none, some, List, [], ◌∷◌, All, length, if◌then◌else◌,
  leb, ltb, ◌==◌, arith,
}
use telegram_disk.Base.Bits.{Bytes}
use telegram_disk.Base.Result.{Done, Result, ok, err}
use telegram_disk.Storage.Chunk.{ChunkEntry}
use telegram_disk.Storage.ChunkBuffer.Files.{Stdio, StdioLaws}
use telegram_disk.Storage.ChunkBuffer.{ChunkBuffer}
use telegram_disk.Storage.Upload.Backend.{Backend}
use telegram_disk.Storage.Upload.Session.{
  Session, ManhBay, KetQua, flushing, thu_het_manh, giao_manh_cho_nen,
}
use telegram_disk.Storage.Upload.Session.Placed.{
  IsPlaced, Placed, Faithful, thu_het-Placed, giao-Placed, ghi_nhan_loi-Placed,
}
use telegram_disk.Storage.Upload.Receive.Placed.{PlacedIn}
use telegram_disk.Storage.Upload.Finish.{
  insert_by_index, sort_by_index, last_manh, landed, complete_chunks, chot_so_truoc_khi_noi,
}
use telegram_disk.Storage.Upload.Finish.Exact.{complete_chunks-many}

module _ (P : ChunkEntry → Type 0) where
  insert-All :
      (r : ChunkEntry) (rs : List ChunkEntry) → P r → All P rs → All P (insert_by_index r rs)
  unfolding insert_by_index
  insert-All r [] p h = (p, h)
  insert-All r (q ∷ qs) p (a, h) =
      elim (leb r.index q.index)
        as (λ b. All P (if b then r ∷ (q ∷ qs) else q ∷ insert_by_index r qs)) [
          | true ↦ (p, (a, h))
          | false ↦ (a, insert-All r qs p h)
        ]

  sort-All : (rs : List ChunkEntry) → All P rs → All P (sort_by_index rs)
  unfolding sort_by_index
  sort-All [] h = h
  sort-All (r ∷ rs) (p, h) = insert-All r (sort_by_index rs) p (sort-All rs h)

module _ {io : Stdio} (laws : StdioLaws io) {be : Backend} (content : ℕ → Bytes) (T : Bytes)
    (join : ManhBay io be → KetQua) (faithful : Faithful laws content T join) where
  flushing-Placed :
      (s : Session io be)
      → Placed laws content T s
      → Placed laws content T (record s { state = flushing })
  flushing-Placed s h = record {
    in_memory = h.in_memory;
    many = h.many;
    rows = h.rows;
    loaded = h.loaded;
    opened = h.opened;
  }

  last_manh-Placed :
      (o : Option (ChunkBuffer io (Backend.World be))) (s : Session io be)
      → Placed laws content T s
      → Placed laws content T (last_manh o s)
  unfolding last_manh
  last_manh-Placed none s h = h
  last_manh-Placed (some b) s h =
      elim (ltb 0 s.chunk_written)
        as (λ c.
          Placed laws content T (if c then giao_manh_cho_nen s else record s { buffer = none })) [
            | true ↦ giao-Placed laws content T s h
            | false ↦ record {
              in_memory = h.in_memory;
              many = h.many;
              rows = h.rows;
              loaded = h.loaded;
              opened = λ b e. absurd (ground (arith, e));
            }
          ]

  landed-Placed :
      (r : Result Done × Session io be)
      → Placed laws content T r.1
      → Placed laws content T (landed r).1
  unfolding landed
  landed-Placed (ok _, s) h = record {
    in_memory = h.in_memory;
    many = h.many;
    rows = sort-All (IsPlaced content T) s.chunk_records h.rows;
    loaded = h.loaded;
    opened = h.opened;
  }
  landed-Placed (err e, s) h = ghi_nhan_loi-Placed laws content T e s h

  pub complete-Placed :
      (s : Session io be) (w : Backend.World be)
      → Placed laws content T s
      → s.is_cancelled ≡ false
      → PlacedIn laws content T join faithful (complete_chunks join (s, w))
  complete-Placed s w h c =
      let s1 : Session io be = record s { state = flushing } in
      let t = last_manh s1.buffer s1 in
      subst (λ r. PlacedIn laws content T join faithful r)
        (sym (complete_chunks-many T join s w h.many c))
        (landed-Placed (thu_het_manh join t) (
          thu_het-Placed laws content T join t faithful
            (last_manh-Placed s1.buffer s1 (flushing-Placed s h))))

  settled-Placed :
      (r : Result Done × Session io be)
      → Placed laws content T r.1
      → Placed laws content T (elim r.0 [ ok _ ↦ r.1 | err e ↦ record r.1 { message = e } ])
  settled-Placed (ok _, s) h = h
  settled-Placed (err e, s) h = record {
    in_memory = h.in_memory;
    many = h.many;
    rows = h.rows;
    loaded = h.loaded;
    opened = h.opened;
  }

  pub chot_so-Placed :
      (s : Session io be)
      → Placed laws content T s
      → Placed laws content T (chot_so_truoc_khi_noi join s)
  unfolding chot_so_truoc_khi_noi
  chot_so-Placed s h =
      let r = thu_het_manh join s in
      elim (length s.dang_bay == 0)
        as (λ b.
          Placed laws content T
            (if b then s else elim r.0 [ ok _ ↦ r.1 | err e ↦ record r.1 { message = e } ])) [
              | true ↦ h
              | false ↦ settled-Placed r (thu_het-Placed laws content T join s faithful h)
            ]
