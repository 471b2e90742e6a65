-- ===== src/Storage/Engine/Blocks.antt =====
-- The chunk that holds a position, and the block that is read of it, from the cache or the backend.
use telegram_disk.Base.{
  ℕ, ◌+◌, ◌%◌, ◌≤◌, ◌<◌, ◌≡◌, refl, sym, ap, ◌∙◌, ◌⊎◌, inl, inr, true, false, Bool-cases, Option,
  none, some, List, [], ◌∷◌, All, length, take, drop, leb, ltb, ◌==◌, le→leb, arith,
}
use telegram_disk.Base.Bits.{Bytes}
use telegram_disk.Base.Result.{Result, ok, err}
use telegram_disk.Storage.Chunk.{ChunkLocation, ChunkEntry, to_location}
use telegram_disk.Storage.BlockCache.{Entry, get}
use telegram_disk.Storage.BlockCache.Kept.{get-All, put-All}
use telegram_disk.Storage.Engine.{
  u64, block_size, Source, find_chunk, Reading, fetched, looked_up, read_block,
}
use mathlib.Core.Path.{ap₂}
use Prim.Native.String.{String}

nonzero : (n : ℕ) → 0 < n → (n == 0) ≡ false
nonzero n h = ground arith

module _ (src : Source) (content : ℕ → Bytes) (F : Bytes) where
  -- The rows `cs` lay the file out from `o` on without a gap, and each document has its part.
  abbrev pub Laid : ℕ → List ChunkEntry → Type 0
  Laid o [] = o ≡ length F
  Laid o (c ∷ cs) =
      (c.offset ≡ o)
      × (o + c.size ≤ length F)
      × (content c.document_id ≡ take c.size (drop o F))
      × Laid (o + c.size) cs

  -- A read fails with a message or gives the bytes of the document.
  abbrev pub Honest : Type 0
  Honest =
      (loc : ChunkLocation) (start len : ℕ) (w : Source.World src)
      → ((e : String) × ((Source.read_range src loc start len w).0 ≡ err e))
        ⊎ ((loc' : ChunkLocation) × ((Source.read_range src loc start len w).0
              ≡ ok (loc', take len (drop start (content loc.document_id)))))

  abbrev pub IsBlock : Entry → Type 0
  IsBlock e = e.bytes ≡ take block_size (drop e.block_offset (content e.document))

  pub record Holding (pos : ℕ) (c : ChunkEntry) : Type 0 where
    pub above : c.offset ≤ pos
    pub below : pos < c.offset + c.size
    pub within : c.offset + c.size ≤ length F
    pub part : content c.document_id ≡ take c.size (drop c.offset F)

  pub find_chunk-Holding :
      (cs : List ChunkEntry) (o pos : ℕ)
      → Laid o cs
      → o ≤ pos
      → pos < length F
      → length F < u64
      → (c : ChunkEntry) × (find_chunk pos cs ≡ some c) × Holding pos c
  unfolding find_chunk
  find_chunk-Holding [] o pos h a b l = absurd (omega arith)
  find_chunk-Holding (c ∷ cs) o pos (e, w, p, h) a b l =
      let wrap : (c.offset + c.size) % u64 ≡ c.offset + c.size = omega (arith, e, w, l) in
      elim (Bool-cases (ltb pos (c.offset + c.size))) [
        | inl t ↦
            let in_front : leb c.offset pos ≡ true = le→leb _ _ (omega (arith, e, a)) in
            (
              c,
              rw (in_front, wrap, t) refl,
              record {
                above = omega (arith, e, a);
                below = ground (arith, t);
                within = omega (arith, e, w);
                part = p ∙ ap (λ n. take c.size (drop n F)) (sym e);
              },
            )
        | inr t ↦
            let r = find_chunk-Holding cs (o + c.size) pos h (ground (arith, t, e)) b l in
            let in_front : leb c.offset pos ≡ true = le→leb _ _ (omega (arith, e, a)) in
            (r.0, rw (in_front, wrap, t) r.1, r.2)
      ]

  abbrev pub Known : Reading src Bytes → Type 0
  Known s = All IsBlock s.cache.order

  -- A block was read, or the backend has failed; the cache holds blocks of documents anyway.
  abbrev pub Blocked : Bytes → Bytes → Result Bytes × Reading src Bytes → Type 0
  Blocked block out (r, s) =
      Known s
      × (s.out ≡ out)
      × ((r ≡ ok block) ⊎ ((x : String) × (r ≡ err (Source.read_error src x))))

  fetched-Blocked :
      (pos : ℕ) (c : ChunkEntry) (start : ℕ) (s : Reading src Bytes) (block : Bytes)
      (r : Result (ChunkLocation × Bytes) × Source.World src)
      → Known s
      → 0 < length block
      → block ≡ take block_size (drop start (content c.document_id))
      → (((e : String) × (r.0 ≡ err e)) ⊎ ((loc' : ChunkLocation) × (r.0 ≡ ok (loc', block))))
      → Blocked block s.out (fetched src pos c start s r)
  unfolding fetched
  fetched-Blocked pos c start s block (err e, w) k p b (inl h) = (k, refl, inr (e, refl))
  fetched-Blocked pos c start s block (ok (loc, x), w) k p b (inl h) = absurd (ground arith)
  fetched-Blocked pos c start s block (err e, w) k p b (inr h) = absurd (ground arith)
  fetched-Blocked pos c start s block (ok (loc, x), w) k p b (inr (loc', h)) =
      let same : x ≡ block = cc h in
      let some_byte : (length x == 0) ≡ false =
        nonzero (length x) (omega (arith, p, ap length same)) in
      rw some_byte
        (put-All IsBlock c.document_id start x s.cache (same ∙ b) k, refl, inl (ap ok same))

  looked_up-Blocked :
      (pos : ℕ) (c : ChunkEntry) (start len : ℕ) (s : Reading src Bytes) (block : Bytes)
      (o : Option Bytes)
      → Honest
      → Known s
      → 0 < length block
      → block ≡ take block_size (drop start (content c.document_id))
      → take len (drop start (content c.document_id)) ≡ block
      → ((o ≡ none) ⊎ (o ≡ some block))
      → Blocked block s.out (looked_up src pos c start len s o)
  unfolding looked_up
  looked_up-Blocked pos c start len s block none honest k p b l (inl h) =
      fetched-Blocked pos c start s block _ k p b (
        unfold to_location in
        elim (honest (to_location c) start len s.world) [
          | inl f ↦ inl f
          | inr (loc, f) ↦ inr (loc, f ∙ ap (λ x. ok (loc, x)) l)
        ])
  looked_up-Blocked pos c start len s block (some x) honest k p b l (inl h) = absurd (ground arith)
  looked_up-Blocked pos c start len s block none honest k p b l (inr h) = absurd (ground arith)
  looked_up-Blocked pos c start len s block (some x) honest k p b l (inr h) =
      (k, refl, inl (ap ok (cc h)))

  pub read_block-Blocked :
      (pos : ℕ) (c : ChunkEntry) (start len : ℕ) (s : Reading src Bytes)
      → Honest
      → Known s
      → let block = take block_size (drop start (content c.document_id)) in
        0 < length block
        → take len (drop start (content c.document_id)) ≡ block
        → Blocked block s.out (read_block src pos c start len s)
  unfolding read_block
  read_block-Blocked pos c start len s honest k p l =
      let g = get-All IsBlock c.document_id start s.cache k in
      looked_up-Blocked pos c start len (record s { cache = (get c.document_id start s.cache).1 }) _
        _ honest g.0 p refl l
        (elim g.1 [
          | inl e ↦ inl e
          | inr (e, f, b, d, o) ↦
              inr (f ∙ ap some (b ∙ ap₂ (λ x y. take block_size (drop x (content y))) o d))
        ])
