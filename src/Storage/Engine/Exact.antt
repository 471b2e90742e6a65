-- ===== src/Storage/Engine/Exact.antt =====
-- The loop of `streamFileRange`, and `readFileRange` against the bytes of the file.
use telegram_disk.Base.{
  ℕ, zero, suc, ◌+◌, ◌-◌, ◌*◌, ◌/◌, ◌%◌, ◌≤◌, ◌<◌, ◌≡◌, refl, sym, ap, ◌∙◌, subst, ◌⊎◌, inl, inr,
  min, false, ◌||◌, Bool-cases, some, List, [], ◌∷◌, ◌++◌, All, length, take, drop, drop-drop,
  length-take, length-drop, take_all, take_split, leb, ltb, ◌==◌, arith,
}
use mathlib.Core.List.{append_assoc, append-nil}
use telegram_disk.Base.Bits.{Bytes}
use telegram_disk.Base.Result.{Done, Result, ok, err}
use telegram_disk.Storage.Chunk.{ChunkEntry}
use telegram_disk.Storage.BlockCache.{BlockCache}
use telegram_disk.Storage.Engine.{
  u64, block_size, Source, FileEntry, Reading, read_block, give, stream_chunk, stream_loop,
  stream_listed, stream_file_range, append_sink, read_file_range,
}
use mathlib.Core.Path.{ap₂}
use Prim.Native.String.{String}
use telegram_disk.Storage.Engine.Blocks.{
  Laid, Honest, IsBlock, Holding, find_chunk-Holding, Known, Blocked, read_block-Blocked,
}

take-drop-take :
    (t i n : ℕ) (xs : Bytes) → i + t ≤ n → take t (drop i (take n xs)) ≡ take t (drop i xs)
take-drop-take zero i n xs h = refl
take-drop-take (suc t) zero zero xs h = absurd (omega arith)
take-drop-take (suc t) zero (suc n) [] h = refl
take-drop-take (suc t) zero (suc n) (x ∷ xs) h =
    ap (◌∷◌ x) (take-drop-take t zero n xs (omega arith))
take-drop-take (suc t) (suc i) zero xs h = absurd (omega arith)
take-drop-take (suc t) (suc i) (suc n) [] h = refl
take-drop-take (suc t) (suc i) (suc n) (x ∷ xs) h = take-drop-take (suc t) i n xs (omega arith)

shorter_lt : (m n : ℕ) → n ≤ m → ltb m n ≡ false
shorter_lt m n h = ground arith

nothing : (c : ChunkEntry) (cs : List ChunkEntry) → [] ≡ c ∷ cs → ⊥
nothing c cs e = omega (arith, ap length e)

take-clip : (b k : ℕ) (xs : Bytes) → k ≡ min b (length xs) → take k xs ≡ take b xs
take-clip b k xs h = elim (Bool-cases (leb (length xs) b)) [
  | inl c ↦
      let l : length xs ≤ b = ground (arith, c) in
      take_all k xs (omega (arith, h, l)) ∙ sym (take_all b xs l)
  | inr c ↦
      let l : b < length xs = ground (arith, c) in
      let e : k ≡ b = omega (arith, h, l) in ap (λ z. take z xs) e
]

shorter : (m n : ℕ) → m < n → leb n m ≡ false
shorter m n h = ground arith

module _ (src : Source) (content : ℕ → Bytes) (F : Bytes) where
  -- All that was asked for is behind what was there before, or the backend has failed.
  abbrev pub Read : ℕ → ℕ → Bytes → Result Done × Reading src Bytes → Type 0
  Read pos n out (r, s) =
      Known src content F s
      × (((r ≡ ok tt) × (s.out ≡ out ++ take n (drop pos F)))
          ⊎ ((x : String) × (r ≡ err (Source.read_error src x))))

  give-Read :
      (pos in_block remaining : ℕ) (block out : Bytes)
      (next : ℕ → ℕ → Reading src Bytes → Result Done × Reading src Bytes)
      (r : Result Bytes × Reading src Bytes)
      → Blocked src content F block out r
      → in_block < length block
      → let n = min (length block - in_block) remaining in
        take n (drop in_block block) ≡ take n (drop pos F)
        → ((s : Reading src Bytes)
            → Known src content F s
            → Read (pos + n) (remaining - n) s.out (next (pos + n) (remaining - n) s))
        → Read pos remaining out (give src (append_sink src) pos in_block remaining next r)
  unfolding give
  give-Read pos in_block remaining block out next (err e, s) (k, o, inl h) l p ih =
      absurd (ground arith)
  give-Read pos in_block remaining block out next (err e, s) (k, o, inr h) l p ih =
      (k, inr (h.0, cc (h.1)))
  give-Read pos in_block remaining block out next (ok b, s) (k, o, inr h) l p ih =
      absurd (ground (arith, h.1))
  give-Read pos in_block remaining block out next (ok b, s) (k, o, inl h) l p ih =
      let same : b ≡ block = cc h in
      let n = min (length block - in_block) remaining in
      let long : leb (length b) in_block ≡ false =
        shorter in_block (length b) (omega (arith, l, ap length same)) in
      let at : min (length b - in_block) remaining ≡ n =
        ap (λ y. min (length y - in_block) remaining) same in
      let piece : take (min (length b - in_block) remaining) (drop in_block b)
          ≡ take n (drop pos F) =
        ap (λ y. take (min (length y - in_block) remaining) (drop in_block y)) same ∙ p in
      let s' : Reading src Bytes = record s { out = s.out ++ take n (drop pos F) } in
      let front = take_split n remaining (drop pos F) (omega arith) in
      let behind = drop-drop pos n F in
      rw (long, piece, at)
        (let (k', r) = ih s' k in
          elim r [
            | inl (e, q) ↦ (
              k',
              inl (
                e,
                q
                    ∙ append_assoc s.out (take n (drop pos F))
                        (take (remaining - n) (drop (pos + n) F))
                    ∙ ap₂ (λ x y. x ++ y) o
                        (ap (λ z. take n (drop pos F) ++ take (remaining - n) z) (sym behind)
                          ∙ sym front),
              ),
            )
            | inr e ↦ (k', inr e)
          ])

  -- A round for the chunk that holds `pos`.
  round-Read :
      (pos remaining : ℕ) (c : ChunkEntry) (s : Reading src Bytes)
      (next : ℕ → ℕ → Reading src Bytes → Result Done × Reading src Bytes)
      → Honest src content F
      → Known src content F s
      → Holding src content F pos c
      → 0 < remaining
      → ((n : ℕ) (s' : Reading src Bytes)
          → 0 < n
          → n ≤ remaining
          → Known src content F s'
          → Read (pos + n) (remaining - n) s'.out (next (pos + n) (remaining - n) s'))
      → Read pos remaining s.out (stream_chunk src (append_sink src) pos remaining next s (some c))
  unfolding stream_chunk
  round-Read pos remaining c s next honest k h p ih =
      let in_chunk = pos - c.offset in
      let start = in_chunk / block_size * block_size in
      let room : start ≤ in_chunk = omega arith in
      let near : in_chunk < start + block_size = omega arith in
      let doc = content c.document_id in
      let size : length doc ≡ c.size =
        ap length h.part
        ∙ omega (arith, length-take c.size (drop c.offset F), length-drop c.offset F, h.within) in
      let block = take block_size (drop start doc) in
      let long : length block ≡ min block_size (c.size - start) =
        omega (arith, length-take block_size (drop start doc), length-drop start doc, size) in
      let len = min block_size (c.size - start) % 4294967296 in
      let inside : in_chunk < c.size = omega (arith, h.above, h.below) in
      let asked : take len (drop start doc) ≡ block =
        take-clip block_size len (drop start doc) (omega (arith, length-drop start doc, size)) in
      let n = min (length block - (in_chunk - start)) remaining in
      let piece : take n (drop (in_chunk - start) block) ≡ take n (drop pos F) =
        take-drop-take n (in_chunk - start) block_size (drop start doc) (omega (arith, long))
        ∙ ap (take n) (
            drop-drop start (in_chunk - start) doc
            ∙ ap (λ z. drop z doc) (omega (arith, room))
            ∙ ap (drop in_chunk) h.part)
        ∙ take-drop-take n in_chunk c.size (drop c.offset F) (omega (arith, long, room, inside))
        ∙ ap (take n)
            (drop-drop c.offset in_chunk F ∙ ap (λ z. drop z F) (omega (arith, h.above))) in
      give-Read pos (in_chunk - start) remaining block s.out next (read_block src pos c start len s)
        (read_block-Blocked src content F pos c start len s honest k
          (omega (arith, long, inside, room)) asked)
        (omega (arith, long, inside, room, near)) piece
        (λ s' k'. ih n s' (omega (arith, long, inside, room, near, p)) (omega arith) k')

  loop-Read :
      (fuel : ℕ) (cs : List ChunkEntry) (pos remaining : ℕ) (s : Reading src Bytes)
      → Honest src content F
      → Laid src content F 0 cs
      → length F < u64
      → Known src content F s
      → remaining ≤ fuel
      → pos + remaining ≤ length F
      → Read pos remaining s.out (stream_loop src fuel (append_sink src) cs pos remaining s)
  unfolding stream_loop
  loop-Read fuel cs pos zero s honest h l k f w = (k, inl (refl, sym (append-nil s.out)))
  loop-Read zero cs pos (suc n) s honest h l k f w = absurd (omega arith)
  loop-Read (suc fuel) cs pos (suc n) s honest h l k f w =
      let (c, e, hold) =
        find_chunk-Holding src content F cs 0 pos h (omega arith) (omega arith) l in
      rw e (
        round-Read pos (suc n) c s (stream_loop src fuel (append_sink src) cs) honest k hold
          (omega arith)
          (λ m s' a b k'.
            loop-Read fuel cs (pos + m) (suc n - m) s' honest h l k' (omega arith) (omega arith)))

  listed-Read :
      (offset n : ℕ) (c : ChunkEntry) (cs : List ChunkEntry) (s : Reading src Bytes)
      (p : Result (List ChunkEntry) × Source.World src)
      → Honest src content F
      → p.0 ≡ ok (c ∷ cs)
      → Laid src content F 0 (c ∷ cs)
      → length F < u64
      → Known src content F s
      → offset + n ≤ length F
      → Read offset n s.out (stream_listed src (append_sink src) offset n s p)
  unfolding stream_listed
  listed-Read offset n c cs s (err x, w) honest e laid l k r = absurd (ground arith)
  listed-Read offset n c cs s (ok [], w) honest e laid l k r = absurd (nothing c cs (cc e))
  listed-Read offset n c cs s (ok (c' ∷ cs'), w) honest e laid l k r =
      let same : c' ∷ cs' ≡ c ∷ cs = cc e in
      loop-Read n (c' ∷ cs') offset n (record s { world = w }) honest
        (subst (Laid src content F 0) (sym same) laid) l k (omega arith) r

  -- Let the rows of a file lay its bytes `F` (fewer than 2^64) out without a gap, let each read of the backend fail
  -- or give the bytes of the stored document, let the cache hold only blocks of these documents, and
  -- let the range lie in the file. Then `readFileRange` gives exactly the asked bytes of the file, or it
  -- fails with the message of a failed read; the cache then still holds only blocks of these documents.
  pub read_file_range-Read :
      (file : FileEntry) (offset n : ℕ) (cache : BlockCache) (w : Source.World src) (c : ChunkEntry)
      (cs : List ChunkEntry)
      → Honest src content F
      → (Source.list_chunks src file.id w).0 ≡ ok (c ∷ cs)
      → Laid src content F 0 (c ∷ cs)
      → length F < u64
      → file.size ≡ length F
      → file.is_folder ≡ false
      → All (IsBlock src content F) cache.order
      → offset + n ≤ length F
      → Read offset n [] (read_file_range src file offset n cache w)
  unfolding read_file_range stream_file_range
  read_file_range-Read file offset n cache w c cs honest listed laid l size plain k r =
      let start : Reading src Bytes = record { cache = cache; world = w; out = [] } in
      let inside : ltb file.size ((offset + n) % u64) ≡ false =
        shorter_lt file.size ((offset + n) % u64) (omega (arith, r, size, l)) in
      elim (Bool-cases (leb file.size offset || n == 0)) [
        | inl a ↦
            let none_left : n ≡ 0 = ground (arith, a, r, size) in
            rw (plain, a) (k, inl (refl, ap (λ m. take m (drop offset F)) (sym none_left)))
        | inr a ↦ rw (plain, a, inside) (listed-Read offset n c cs start _ honest listed laid l k r)
      ]
