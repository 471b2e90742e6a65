-- ===== src/Storage/BlockCache/Memo.antt =====
-- BlockCache against what it promises: a memo of what was last put in, which may forget at any time.
use telegram_disk.Base.{
  ℕ, ◌+◌, ◌-◌, ◌≡◌, refl, ap, ◌∙◌, ◌⊎◌, inl, inr, Bool, true, false, ◌&&◌, not, Bool-cases, Option,
  none, some, List, [], ◌∷◌, All, length, ltb, ◌==◌, if◌then◌else◌, arith, sym, subst,
}
use telegram_disk.Base.Bits.{Bytes}
use telegram_disk.Storage.BlockCache.{
  Entry, BlockCache, has_key, find, erase, keep_front, evict, evict_locked, got, get, dropped,
  pushed, put, sweep, invalidate, clear, set_capacity,
}
use telegram_disk.Storage.BlockCache.Bounded.{
  Step, a_get, a_put, an_invalidate, a_clear, a_set_capacity, step, run,
}
use telegram_disk.Storage.BlockCache.Kept.{
  found-All, erase-All, evict-All, get-All, invalidate-All, invalidate_gone, sweep-All,
}

-- No order, no sizes, no counts: for each document and offset, the block that was put in last, since the
-- document was last invalidated.
pub record Memo : Type 0 where
  pub capacity : ℕ
  pub recall : ℕ → ℕ → Option Bytes

-- An empty block, and one that is larger than the whole cache, are not taken.
abbrev accepts : Memo → Bytes → Bool
accepts m bytes = not (length bytes == 0) && not (ltb m.capacity (length bytes))

abbrev pub memo_step : Step → Memo → Memo
memo_step (a_get d o) m = m
memo_step (a_put d o bytes) m =
    if accepts m bytes
    then record m { recall = λ x y. if x == d && y == o then some bytes else m.recall x y }
    else m
memo_step (an_invalidate d) m = record m { recall = λ x y. if x == d then none else m.recall x y }
memo_step a_clear m = record m { recall = λ _ _. none }
memo_step (a_set_capacity n) m = record m { capacity = n }

abbrev pub memo_run : List Step → Memo → Memo
memo_run [] m = m
memo_run (s ∷ ss) m = memo_run ss (memo_step s m)

abbrev IsOther : ℕ → ℕ → Entry → Type 0
IsOther d o e = has_key d o e ≡ false

-- No two blocks have one key.
abbrev Distinct : List Entry → Type 0
Distinct [] = Unit {0}
Distinct (e ∷ es) = All (IsOther e.document e.block_offset) es × Distinct es

abbrev Recalls : Memo → Entry → Type 0
Recalls m e = m.recall e.document e.block_offset ≡ some e.bytes

pub record Refines (c : BlockCache) (m : Memo) : Type 0 where
  pub same_capacity : c.capacity ≡ m.capacity
  pub distinct : Distinct c.order
  pub recalls : All (Recalls m) c.order

All-zip :
    (P Q R : Entry → Type 0) (es : List Entry)
    → ((e : Entry) → P e → Q e → R e)
    → All P es
    → All Q es
    → All R es
All-zip P Q R [] f p q = tt
All-zip P Q R (e ∷ es) f (a, p) (b, q) = (f e a b, All-zip P Q R es f p q)

erase-Distinct : (d o : ℕ) (es : List Entry) → Distinct es → Distinct (erase d o es)
unfolding erase
erase-Distinct d o [] h = h
erase-Distinct d o (e ∷ es) (a, h) = elim (Bool-cases (has_key d o e)) [
  | inl c ↦ rw c h
  | inr c ↦ rw c (erase-All (IsOther e.document e.block_offset) d o es a, erase-Distinct d o es h)
]

same_key :
    (d o : ℕ) (e x : Entry)
    → has_key d o e ≡ true
    → IsOther e.document e.block_offset x
    → IsOther d o x
unfolding has_key
same_key d o e x h k = ground (arith, h, k)

same_key_All :
    (d o : ℕ) (e : Entry) (es : List Entry)
    → has_key d o e ≡ true
    → All (IsOther e.document e.block_offset) es
    → All (IsOther d o) es
same_key_All d o e [] h k = tt
same_key_All d o e (x ∷ xs) h (a, k) = (same_key d o e x h a, same_key_All d o e xs h k)

erase-IsOther : (d o : ℕ) (es : List Entry) → Distinct es → All (IsOther d o) (erase d o es)
unfolding erase
erase-IsOther d o [] h = tt
erase-IsOther d o (e ∷ es) (a, h) = elim (Bool-cases (has_key d o e)) [
  | inl c ↦ rw c (same_key_All d o e es c a)
  | inr c ↦ rw c (c, erase-IsOther d o es h)
]

find-IsOther : (d o : ℕ) (es : List Entry) → find d o es ≡ none → All (IsOther d o) es
unfolding find
find-IsOther d o [] h = tt
find-IsOther d o (e ∷ es) h = elim (Bool-cases (has_key d o e)) [
  | inl c ↦ absurd (cc (rw c at h))
  | inr c ↦ (c, find-IsOther d o es (rw c at h))
]

keep_front-Distinct :
    (capacity : ℕ) (e : Entry) (r : ℕ × List Entry)
    → All (IsOther e.document e.block_offset) r.1
    → Distinct r.1
    → Distinct (keep_front capacity e r).1
unfolding keep_front
keep_front-Distinct capacity e (u, []) a h = elim (Bool-cases (ltb capacity u)) [
  | inl c ↦ rw c tt
  | inr c ↦ rw c (tt, tt)
]
keep_front-Distinct capacity e (u, x ∷ xs) a h = (a, h)

evict-Distinct :
    (capacity used : ℕ) (es : List Entry) → Distinct es → Distinct (evict capacity used es).1
unfolding evict
evict-Distinct capacity used [] h = h
evict-Distinct capacity used (e ∷ es) (a, h) =
    keep_front-Distinct capacity e (evict capacity used es)
      (evict-All (IsOther e.document e.block_offset) capacity used es a)
      (evict-Distinct capacity used es h)

sweep-Distinct : (d used : ℕ) (es : List Entry) → Distinct es → Distinct (sweep d used es).1
unfolding sweep
sweep-Distinct d used [] h = h
sweep-Distinct d used (e ∷ es) (a, h) = elim (Bool-cases (e.document == d)) [
  | inl c ↦ rw c (sweep-Distinct d (used - length e.bytes) es h)
  | inr c ↦
      rw c (sweep-All (IsOther e.document e.block_offset) d used es a, sweep-Distinct d used es h)
]

fresh_key :
    (d o : ℕ) (e : Entry) (es : List Entry)
    → e.document ≡ d
    → e.block_offset ≡ o
    → All (IsOther d o) es
    → All (IsOther e.document e.block_offset) es
fresh_key d o e es a b h = rw (a, b) h

got-Refines :
    (d o : ℕ) (c : BlockCache) (m : Memo) (r : Option Entry)
    → find d o c.order ≡ r
    → Refines c m
    → Refines (got d o c r).1 m
unfolding got
got-Refines d o c m none f h = record {
  same_capacity = h.same_capacity;
  distinct = h.distinct;
  recalls = h.recalls;
}
got-Refines d o c m (some e) f h =
    let (p, a, b) = found-All (Recalls m) d o c.order e h.recalls f in
    record {
      same_capacity = h.same_capacity;
      distinct = (
        fresh_key d o e (erase d o c.order) a b (erase-IsOther d o c.order h.distinct),
        erase-Distinct d o c.order h.distinct,
      );
      recalls = (p, erase-All (Recalls m) d o c.order h.recalls);
    }

get-Refines : (d o : ℕ) (c : BlockCache) (m : Memo) → Refines c m → Refines (get d o c).1 m
unfolding get
get-Refines d o c m h = got-Refines d o c m (find d o c.order) refl h

dropped_parts :
    (d o : ℕ) (c : BlockCache) (m : Memo) (r : Option Entry)
    → find d o c.order ≡ r
    → Refines c m
    → All (IsOther d o) (dropped d o c r).order
      × Distinct (dropped d o c r).order
      × All (Recalls m) (dropped d o c r).order
      × ((dropped d o c r).capacity ≡ c.capacity)
unfolding dropped
dropped_parts d o c m none f h = (find-IsOther d o c.order f, h.distinct, h.recalls, refl)
dropped_parts d o c m (some e) f h = (
  erase-IsOther d o c.order h.distinct,
  erase-Distinct d o c.order h.distinct,
  erase-All (Recalls m) d o c.order h.recalls,
  refl,
)

-- The memo with one block more.
abbrev noted : ℕ → ℕ → Bytes → Memo → Memo
noted d o bytes m = record m {
  recall = λ x y. if x == d && y == o then some bytes else m.recall x y;
}

noted_other :
    (d o : ℕ) (bytes : Bytes) (m : Memo) (e : Entry)
    → IsOther d o e
    → Recalls m e
    → Recalls (noted d o bytes m) e
unfolding has_key
noted_other d o bytes m e h r = rw h r

noted_same :
    (d o : ℕ) (bytes : Bytes) (m : Memo)
    → Recalls (noted d o bytes m) (record { document = d; block_offset = o; bytes = bytes })
noted_same d o bytes m = ground arith

pushed-Refines :
    (d o : ℕ) (bytes : Bytes) (c : BlockCache) (m : Memo)
    → Refines c m
    → Refines
        (pushed
          (record { document = d; block_offset = o; bytes = bytes })
          (dropped d o c (find d o c.order)))
        (noted d o bytes m)
unfolding pushed evict_locked
pushed-Refines d o bytes c m h =
    let t = dropped d o c (find d o c.order) in
    let (others, distinct, recalls, capacity) = dropped_parts d o c m (find d o c.order) refl h in
    let e : Entry = record { document = d; block_offset = o; bytes = bytes } in
    let all : All (Recalls (noted d o bytes m)) t.order =
      All-zip (IsOther d o) (Recalls m) (Recalls (noted d o bytes m)) t.order
        (noted_other d o bytes m) others recalls in
    record {
      same_capacity = capacity ∙ h.same_capacity;
      distinct = evict-Distinct t.capacity (t.used + length bytes) (e ∷ t.order) (others, distinct);
      recalls =
          evict-All (Recalls (noted d o bytes m)) t.capacity (t.used + length bytes) (e ∷ t.order)
            (noted_same d o bytes m, all);
    }

put-Refines :
    (d o : ℕ) (bytes : Bytes) (c : BlockCache) (m : Memo)
    → Refines c m
    → Refines (put d o bytes c) (memo_step (a_put d o bytes) m)
unfolding put
put-Refines d o bytes c m h =
    let p =
      pushed (record { document = d; block_offset = o; bytes = bytes })
        (dropped d o c (find d o c.order)) in
    let k = pushed-Refines d o bytes c m h in
    subst
      (λ n.
        Refines (put d o bytes c)
          (if not (length bytes == 0) && not (ltb n (length bytes)) then noted d o bytes m else m))
      h.same_capacity
      (elim (length bytes == 0)
        as (λ z.
          Refines (if z then c else if ltb c.capacity (length bytes) then c else p)
            (if not z && not (ltb c.capacity (length bytes)) then noted d o bytes m else m)) [
              | true ↦ h
              | false ↦
                  elim (ltb c.capacity (length bytes))
                    as (λ l.
                      Refines (if l then c else p) (if not l then noted d o bytes m else m)) [
                        | true ↦ h
                        | false ↦ k
                      ]
            ])

forgets_other :
    (d : ℕ) (m : Memo) (e : Entry)
    → (e.document == d) ≡ false
    → Recalls m e
    → Recalls (memo_step (an_invalidate d) m) e
forgets_other d m e h r = rw h r

invalidate-Refines :
    (d : ℕ) (c : BlockCache) (m : Memo)
    → Refines c m
    → Refines (invalidate d c) (memo_step (an_invalidate d) m)
invalidate-Refines d c m h = record {
  same_capacity = unfold invalidate in h.same_capacity;
  distinct = unfold invalidate in sweep-Distinct d c.used c.order h.distinct;
  recalls =
      All-zip (λ e. (e.document == d) ≡ false) (Recalls m) (Recalls (memo_step (an_invalidate d) m))
        (invalidate d c).order (forgets_other d m) (invalidate_gone d c)
        (invalidate-All (Recalls m) d c h.recalls);
}

clear-Refines : (c : BlockCache) (m : Memo) → Refines c m → Refines (clear c) (memo_step a_clear m)
unfolding clear
clear-Refines c m h = record { same_capacity = h.same_capacity; distinct = tt; recalls = tt }

set_capacity-Refines :
    (n : ℕ) (c : BlockCache) (m : Memo)
    → Refines c m
    → Refines (set_capacity n c) (memo_step (a_set_capacity n) m)
unfolding set_capacity evict_locked
set_capacity-Refines n c m h = record {
  same_capacity = refl;
  distinct = evict-Distinct n c.used c.order h.distinct;
  recalls = evict-All (Recalls m) n c.used c.order h.recalls;
}

step-Refines :
    (s : Step) (c : BlockCache) (m : Memo) → Refines c m → Refines (step s c) (memo_step s m)
step-Refines (a_get d o) c m h = get-Refines d o c m h
step-Refines (a_put d o bytes) c m h = put-Refines d o bytes c m h
step-Refines (an_invalidate d) c m h = invalidate-Refines d c m h
step-Refines a_clear c m h = clear-Refines c m h
step-Refines (a_set_capacity n) c m h = set_capacity-Refines n c m h

run-Refines :
    (ss : List Step) (c : BlockCache) (m : Memo) → Refines c m → Refines (run ss c) (memo_run ss m)
run-Refines [] c m h = h
run-Refines (s ∷ ss) c m h = run-Refines ss (step s c) (memo_step s m) (step-Refines s c m h)

abbrev pub empty_cache : ℕ → BlockCache
empty_cache n = record { capacity = n; used = 0; hits = 0; misses = 0; order = [] }

abbrev pub empty_memo : ℕ → Memo
empty_memo n = record { capacity = n; recall = λ _ _. none }

answer :
    (d o : ℕ) (c : BlockCache) (m : Memo)
    → Refines c m
    → ((get d o c).0 ≡ none) ⊎ ((get d o c).0 ≡ m.recall d o)
answer d o c m h = elim (get-All (Recalls m) d o c h.recalls).1 [
  | inl e ↦ inl e
  | inr (e, b, p, x, y) ↦
      inr (b ∙ sym p ∙ ap (λ k. m.recall k e.block_offset) x ∙ ap (m.recall d) y)
]

-- A cache that starts empty, after any `get`, `put`, `invalidate`, `clear` and `setCapacity`: `get` gives
-- nothing, or exactly the block that the memo recalls, the last one put in under this document and
-- offset since the document was last invalidated or the cache cleared.
pub get-memo_run :
    (ss : List Step) (n d o : ℕ)
    → ((get d o (run ss (empty_cache n))).0 ≡ none)
      ⊎ ((get d o (run ss (empty_cache n))).0 ≡ (memo_run ss (empty_memo n)).recall d o)
get-memo_run ss n d o = answer d o (run ss (empty_cache n)) (memo_run ss (empty_memo n)) (
    run-Refines ss (empty_cache n) (empty_memo n)
      (record { same_capacity = refl; distinct = tt; recalls = tt }))
