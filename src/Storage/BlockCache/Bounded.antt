-- ===== src/Storage/BlockCache/Bounded.antt =====
-- The size that BlockCache counts, and what is found in it.
use telegram_disk.Base.{
  ℕ, ◌+◌, ◌-◌, ◌≤◌, ◌<◌, ◌≡◌, refl, ap, ◌∙◌, ◌⊎◌, inl, inr, true, false, Bool-cases, Option, none,
  some, List, [], ◌∷◌, length, ltb, ◌==◌, arith,
}
use telegram_disk.Base.Bits.{Bytes}
use telegram_disk.Storage.BlockCache.{
  Entry, BlockCache, has_key, find, erase, keep_front, evict, evict_locked, got, get, dropped,
  pushed, put, sweep, invalidate, clear, set_capacity,
}

abbrev pub total : List Entry → ℕ
total [] = 0
total (e ∷ es) = length e.bytes + total es

pub record Bounded (c : BlockCache) : Type 0 where
  pub counted : c.used ≡ total c.order
  pub fits : c.used ≤ c.capacity

keep_front-counted :
    (capacity : ℕ) (e : Entry) (r : ℕ × List Entry) (more : ℕ)
    → r.0 ≡ more + length e.bytes + total r.1
    → let (u, es) = keep_front capacity e r in u ≡ more + total es
unfolding keep_front
keep_front-counted capacity e (u, []) more h = ground (arith, h)
keep_front-counted capacity e (u, x ∷ xs) more h = omega (arith, h)

-- `more` stands for the blocks in front of the list.
evict-counted :
    (capacity used more : ℕ) (es : List Entry)
    → used ≡ more + total es
    → let (u, rest) = evict capacity used es in u ≡ more + total rest
unfolding evict
evict-counted capacity used more [] h = h
evict-counted capacity used more (e ∷ es) h =
    keep_front-counted capacity e (evict capacity used es) more
      (evict-counted capacity used (more + length e.bytes) es (omega (arith, h)))

keep_front-fits :
    (capacity : ℕ) (e : Entry) (r : ℕ × List Entry)
    → ((r.1 ≡ []) ⊎ (r.0 ≤ capacity))
    → let (u, es) = keep_front capacity e r in (es ≡ []) ⊎ (u ≤ capacity)
unfolding keep_front
keep_front-fits capacity e (u, []) h = ground arith
keep_front-fits capacity e (u, x ∷ xs) h = ground (arith, h)

evict-fits :
    (capacity used : ℕ) (es : List Entry)
    → let (u, rest) = evict capacity used es in (rest ≡ []) ⊎ (u ≤ capacity)
unfolding evict
evict-fits capacity used [] = inl refl
evict-fits capacity used (e ∷ es) =
    keep_front-fits capacity e (evict capacity used es) (evict-fits capacity used es)

evict_locked-Bounded : (c : BlockCache) → c.used ≡ total c.order → Bounded (evict_locked c)
unfolding evict_locked
evict_locked-Bounded c h =
    let n = evict-counted c.capacity c.used 0 c.order (omega (arith, h)) in
    record {
      counted = omega (arith, n);
      fits = elim (evict-fits c.capacity c.used c.order) [
        | inl e ↦ omega (arith, n, ap total e)
        | inr l ↦ l
      ];
    }

found-total :
    (d o : ℕ) (es : List Entry) (e : Entry)
    → find d o es ≡ some e
    → total es ≡ length e.bytes + total (erase d o es)
unfolding find erase
found-total d o [] e h = absurd (ground arith)
found-total d o (x ∷ xs) e h = elim (Bool-cases (has_key d o x)) [
  | inl c ↦
      rw c (let same : x ≡ e = ground (arith, c, h) in ap (λ y. length y.bytes + total xs) same)
  | inr c ↦ rw c (omega (arith, found-total d o xs e (ground (arith, c, h))))
]

dropped-Bounded :
    (d o : ℕ) (c : BlockCache) (r : Option Entry)
    → find d o c.order ≡ r
    → Bounded c
    → Bounded (dropped d o c r) × ((dropped d o c r).capacity ≡ c.capacity)
unfolding dropped
dropped-Bounded d o c none e h = (h, refl)
dropped-Bounded d o c (some x) e h =
    let t = found-total d o c.order x e in
    (record { counted = omega (arith, h.counted, t); fits = omega (arith, h.fits) }, refl)

-- Storing a block keeps the cache in bounds: what is counted is what is stored, and at most `capacity_`.
pub put-Bounded : (d o : ℕ) (bytes : Bytes) (c : BlockCache) → Bounded c → Bounded (put d o bytes c)
unfolding put pushed
put-Bounded d o bytes c h =
    let h' = dropped-Bounded d o c (find d o c.order) refl h in
    let t : BlockCache = dropped d o c (find d o c.order) in
    let e : Entry = record { document = d; block_offset = o; bytes = bytes } in
    let p =
      evict_locked-Bounded (record t { order = e ∷ t.order; used = t.used + length bytes })
        (omega (arith, h'.0.counted)) in
    elim (Bool-cases (length bytes == 0)) [
      | inl a ↦ rw a h
      | inr a ↦ elim (Bool-cases (ltb c.capacity (length bytes))) [
        | inl b ↦ rw (a, b) h
        | inr b ↦ rw (a, b) p
      ]
    ]

got-Bounded :
    (d o : ℕ) (c : BlockCache) (r : Option Entry)
    → find d o c.order ≡ r
    → Bounded c
    → Bounded (got d o c r).1
unfolding got
got-Bounded d o c none e h = record { counted = h.counted; fits = h.fits }
got-Bounded d o c (some x) e h = record {
  counted = omega (arith, h.counted, found-total d o c.order x e);
  fits = h.fits;
}

pub get-Bounded : (d o : ℕ) (c : BlockCache) → Bounded c → Bounded (get d o c).1
unfolding get
get-Bounded d o c h = got-Bounded d o c (find d o c.order) refl h

sweep-total :
    (d used more : ℕ) (es : List Entry)
    → used ≡ more + total es
    → let (u, rest) = sweep d used es in (u ≡ more + total rest) × (u ≤ used)
unfolding sweep
sweep-total d used more [] h = (h, omega arith)
sweep-total d used more (e ∷ es) h =
    let gone = sweep-total d (used - length e.bytes) more es (omega (arith, h)) in
    let kept = sweep-total d used (more + length e.bytes) es (omega (arith, h)) in
    elim (Bool-cases (e.document == d)) [
      | inl c ↦ rw c (gone.0, omega (arith, gone.1))
      | inr c ↦ rw c (omega (arith, kept.0), kept.1)
    ]

invalidate-Bounded : (d : ℕ) (c : BlockCache) → Bounded c → Bounded (invalidate d c)
unfolding invalidate
invalidate-Bounded d c h =
    let s = sweep-total d c.used 0 c.order (omega (arith, h.counted)) in
    record { counted = omega (arith, s.0); fits = omega (arith, s.1, h.fits) }

clear-Bounded : (c : BlockCache) → Bounded (clear c)
unfolding clear
clear-Bounded c = record { counted = refl; fits = omega arith }

set_capacity-Bounded : (n : ℕ) (c : BlockCache) → Bounded c → Bounded (set_capacity n c)
unfolding set_capacity
set_capacity-Bounded n c h = evict_locked-Bounded (record c { capacity = n }) h.counted

-- The operations of the cache, one after the other.
pub data Step : Type 0 where
  a_get : ℕ → ℕ → Step
  a_put : ℕ → ℕ → Bytes → Step
  an_invalidate : ℕ → Step
  a_clear : Step
  a_set_capacity : ℕ → Step

abbrev pub step : Step → BlockCache → BlockCache
step (a_get d o) c = (get d o c).1
step (a_put d o bytes) c = put d o bytes c
step (an_invalidate d) c = invalidate d c
step a_clear c = clear c
step (a_set_capacity n) c = set_capacity n c

abbrev pub run : List Step → BlockCache → BlockCache
run [] c = c
run (s ∷ ss) c = run ss (step s c)

step-Bounded : (s : Step) (c : BlockCache) → Bounded c → Bounded (step s c)
step-Bounded (a_get d o) c h = get-Bounded d o c h
step-Bounded (a_put d o bytes) c h = put-Bounded d o bytes c h
step-Bounded (an_invalidate d) c h = invalidate-Bounded d c h
step-Bounded a_clear c h = clear-Bounded c
step-Bounded (a_set_capacity n) c h = set_capacity-Bounded n c h

-- After any sequence of `get`, `put`, `invalidate`, `clear` and `setCapacity` on a cache in
-- bounds, the counted size is the sum of the stored blocks and at most the capacity that is then
-- set.
pub run-Bounded : (ss : List Step) (c : BlockCache) → Bounded c → Bounded (run ss c)
run-Bounded [] c h = h
run-Bounded (s ∷ ss) c h = run-Bounded ss (step s c) (step-Bounded s c h)

keep_front-head :
    (capacity : ℕ) (e : Entry) (r : ℕ × List Entry)
    → r.0 ≡ length e.bytes + total r.1
    → length e.bytes ≤ capacity
    → (rest : List Entry) × ((keep_front capacity e r).1 ≡ e ∷ rest)
unfolding keep_front
keep_front-head capacity e (u, []) h l = ([], ground (arith, h, l))
keep_front-head capacity e (u, x ∷ xs) h l = (x ∷ xs, refl)

evict-head :
    (capacity used : ℕ) (e : Entry) (es : List Entry)
    → used ≡ length e.bytes + total es
    → length e.bytes ≤ capacity
    → (rest : List Entry) × ((evict capacity used (e ∷ es)).1 ≡ e ∷ rest)
unfolding evict
evict-head capacity used e es h l =
    keep_front-head capacity e (evict capacity used es)
      (evict-counted capacity used (length e.bytes) es h) l

find-head :
    (d o : ℕ) (e : Entry) (es : List Entry) → has_key d o e ≡ true → find d o (e ∷ es) ≡ some e
unfolding find
find-head d o e es h = rw h refl

put-order :
    (d o : ℕ) (bytes : Bytes) (c : BlockCache)
    → Bounded c
    → 0 < length bytes
    → length bytes ≤ c.capacity
    → let e : Entry = record { document = d; block_offset = o; bytes = bytes } in
      (rest : List Entry) × ((put d o bytes c).order ≡ e ∷ rest)
unfolding put pushed evict_locked
put-order d o bytes c h p l =
    let a : (length bytes == 0) ≡ false = ground (arith, p) in
    let b : ltb c.capacity (length bytes) ≡ false = ground (arith, l) in
    let h' = dropped-Bounded d o c (find d o c.order) refl h in
    let t : BlockCache = dropped d o c (find d o c.order) in
    let e : Entry = record { document = d; block_offset = o; bytes = bytes } in
    let r =
      evict-head t.capacity (t.used + length bytes) e t.order (omega (arith, h'.0.counted))
        (omega (arith, h'.1, l)) in
    rw (a, b) r

-- In a cache in bounds, a block that is not empty and not larger than the capacity is found by the
-- next `get` with its key, with the bytes that were put, whatever had to be evicted for it.
pub get-put :
    (d o : ℕ) (bytes : Bytes) (c : BlockCache)
    → Bounded c
    → 0 < length bytes
    → length bytes ≤ c.capacity
    → (get d o (put d o bytes c)).0 ≡ some bytes
unfolding get got
get-put d o bytes c h p l =
    let r = put-order d o bytes c h p l in
    let e : Entry = record { document = d; block_offset = o; bytes = bytes } in
    let k : has_key d o e ≡ true = unfold has_key in ground arith in
    ap (λ f. (got d o (put d o bytes c) f).0) (ap (find d o) r.1 ∙ find-head d o e r.0 k)
