-- ===== src/Storage/BlockCache/Kept.antt =====
-- A property of all blocks of the cache under `get` and `put`.
use telegram_disk.Base.{
  ℕ, ◌+◌, ◌-◌, subst, ◌≡◌, refl, ◌⊎◌, inl, inr, true, false, Bool-cases, Option, none, some, List,
  [], ◌∷◌, All, length, ltb, ◌==◌, arith,
}
use telegram_disk.Base.Bits.{Bytes}
use telegram_disk.Storage.BlockCache.{
  Entry, BlockCache, has_key, find, erase, keep_front, evict, evict_locked, got, get, dropped,
  pushed, put, sweep, invalidate,
}

has_key-eq : (d o : ℕ) (x : Entry) → has_key d o x ≡ true → (x.document ≡ d) × (x.block_offset ≡ o)
unfolding has_key
has_key-eq d o x h = ground (arith, h)

module _ (P : Entry → Type 0) where
  pub found-All :
      (d o : ℕ) (es : List Entry) (e : Entry)
      → All P es
      → find d o es ≡ some e
      → P e × (e.document ≡ d) × (e.block_offset ≡ o)
  unfolding find
  found-All d o [] e h f = absurd (ground arith)
  found-All d o (x ∷ xs) e (p, h) f = elim (Bool-cases (has_key d o x)) [
    | inl c ↦
        let same : x ≡ e = ground (arith, c, f) in
        let k : (x.document ≡ d) × (x.block_offset ≡ o) = has_key-eq d o x c in
        subst (λ y. P y × (y.document ≡ d) × (y.block_offset ≡ o)) same (p, k.0, k.1)
    | inr c ↦ found-All d o xs e h (ground (arith, c, f))
  ]

  pub erase-All : (d o : ℕ) (es : List Entry) → All P es → All P (erase d o es)
  unfolding erase
  erase-All d o [] h = h
  erase-All d o (x ∷ xs) (p, h) = elim (Bool-cases (has_key d o x)) [
    | inl c ↦ rw c h
    | inr c ↦ rw c (p, erase-All d o xs h)
  ]

  keep_front-All :
      (capacity : ℕ) (e : Entry) (r : ℕ × List Entry)
      → P e
      → All P r.1
      → All P (keep_front capacity e r).1
  unfolding keep_front
  keep_front-All capacity e (u, []) p h = elim (Bool-cases (ltb capacity u)) [
    | inl c ↦ rw c tt
    | inr c ↦ rw c (p, tt)
  ]
  keep_front-All capacity e (u, x ∷ xs) p h = (p, h)

  pub evict-All :
      (capacity used : ℕ) (es : List Entry) → All P es → All P (evict capacity used es).1
  unfolding evict
  evict-All capacity used [] h = h
  evict-All capacity used (e ∷ es) (p, h) =
      keep_front-All capacity e (evict capacity used es) p (evict-All capacity used es h)

  dropped-All :
      (d o : ℕ) (c : BlockCache) (r : Option Entry) → All P c.order → All P (dropped d o c r).order
  unfolding dropped
  dropped-All d o c none h = h
  dropped-All d o c (some e) h = erase-All d o c.order h

  pub put-All :
      (d o : ℕ) (bytes : Bytes) (c : BlockCache)
      → P (record { document = d; block_offset = o; bytes = bytes })
      → All P c.order
      → All P (put d o bytes c).order
  unfolding put pushed evict_locked
  put-All d o bytes c p h =
      let t : BlockCache = dropped d o c (find d o c.order) in
      let e : Entry = record { document = d; block_offset = o; bytes = bytes } in
      let k =
        evict-All t.capacity (t.used + length bytes) (e ∷ t.order) (p, dropped-All d o c _ h) in
      elim (Bool-cases (length bytes == 0)) [
        | inl a ↦ rw a h
        | inr a ↦ elim (Bool-cases (ltb c.capacity (length bytes))) [
          | inl b ↦ rw (a, b) h
          | inr b ↦ rw (a, b) k
        ]
      ]

  got-All :
      (d o : ℕ) (c : BlockCache) (r : Option Entry)
      → find d o c.order ≡ r
      → All P c.order
      → let (b, c') = got d o c r in
        All P c'.order
        × ((b ≡ none)
            ⊎ ((e : Entry) × (b ≡ some e.bytes) × P e × (e.document ≡ d) × (e.block_offset ≡ o)))
  unfolding got
  got-All d o c none f h = (h, inl refl)
  got-All d o c (some e) f h =
      let k = found-All d o c.order e h f in
      ((k.0, erase-All d o c.order h), inr (e, refl, k.0, k.1, k.2))

  pub get-All :
      (d o : ℕ) (c : BlockCache)
      → All P c.order
      → let (b, c') = get d o c in
        All P c'.order
        × ((b ≡ none)
            ⊎ ((e : Entry) × (b ≡ some e.bytes) × P e × (e.document ≡ d) × (e.block_offset ≡ o)))
  unfolding get
  get-All d o c h = got-All d o c (find d o c.order) refl h

-- What `invalidate` leaves: no block of the document, and no block that was not there.
sweep_gone :
    (d used : ℕ) (es : List Entry) → All (λ e. (e.document == d) ≡ false) (sweep d used es).1
unfolding sweep
sweep_gone d used [] = tt
sweep_gone d used (e ∷ es) = elim (Bool-cases (e.document == d)) [
  | inl c ↦ rw c (sweep_gone d (used - length e.bytes) es)
  | inr c ↦ rw c (c, sweep_gone d used es)
]

pub invalidate_gone :
    (d : ℕ) (c : BlockCache) → All (λ e. (e.document == d) ≡ false) (invalidate d c).order
unfolding invalidate
invalidate_gone d c = sweep_gone d c.used c.order

pub sweep-All :
    (P : Entry → Type 0) (d used : ℕ) (es : List Entry) → All P es → All P (sweep d used es).1
unfolding sweep
sweep-All P d used [] h = h
sweep-All P d used (e ∷ es) (p, h) = elim (Bool-cases (e.document == d)) [
  | inl c ↦ rw c (sweep-All P d (used - length e.bytes) es h)
  | inr c ↦ rw c (p, sweep-All P d used es h)
]

pub invalidate-All :
    (P : Entry → Type 0) (d : ℕ) (c : BlockCache) → All P c.order → All P (invalidate d c).order
unfolding invalidate
invalidate-All P d c h = sweep-All P d c.used c.order h
