-- ===== src/Storage/BlockCache.antt =====
-- BlockCache of src/storage/block_cache.cpp. The list `order_` has the newest block first; `index_`
-- finds a block of that list by its key. A key is the pair that `makeKey` prints: two hexadecimal
-- numbers with a colon between them, so different pairs have different texts.
pub mod Bounded
pub mod Kept
pub mod Memo
mod Tests
use telegram_disk.Base.{
  ℕ, zero, suc, ◌+◌, ◌-◌, ◌≤◌, ◌<◌, ◌≡◌, Bool, true, false, ◌&&◌, not, Option, none, some, List, [],
  ◌∷◌, ◌++◌, length, ltb, leb, ◌==◌, if◌then◌else◌,
}
use telegram_disk.Base.Bits.{Bytes}

pub record Entry : Type 0 where
  pub document : ℕ
  pub block_offset : ℕ
  pub bytes : Bytes

pub record BlockCache : Type 0 where
  pub capacity : ℕ
  pub used : ℕ
  pub hits : ℕ
  pub misses : ℕ
  pub order : List Entry

unfoldable pub has_key : ℕ → ℕ → Entry → Bool
has_key document block_offset e = e.document == document && e.block_offset == block_offset

-- `index_.find`.
unfoldable pub find : ℕ → ℕ → List Entry → Option Entry
unfolding has_key
find d o [] = none
find d o (e ∷ es) = let rest = find d o es in if has_key d o e then some e else rest

-- The list without the block of that key, if it is there.
unfoldable pub erase : ℕ → ℕ → List Entry → List Entry
unfolding has_key
erase d o [] = []
erase d o (e ∷ es) = let rest = erase d o es in if has_key d o e then es else e ∷ rest

-- `evictLocked` takes blocks off the back while `used_` is too large: the rest of the list goes
-- first, and its head only if all behind it is gone.
keep_front : ℕ → Entry → ℕ × List Entry → ℕ × List Entry
keep_front capacity e (used, []) =
    if ltb capacity used then (used - length e.bytes, []) else (used, e ∷ [])
keep_front capacity e (used, x ∷ xs) = (used, e ∷ (x ∷ xs))

unfoldable pub evict : ℕ → ℕ → List Entry → ℕ × List Entry
unfolding keep_front
evict capacity used [] = (used, [])
evict capacity used (e ∷ es) = keep_front capacity e (evict capacity used es)

unfoldable pub evict_locked : BlockCache → BlockCache
unfolding evict
evict_locked c = let r = evict c.capacity c.used c.order in record c { used = r.0; order = r.1 }

got : ℕ → ℕ → BlockCache → Option Entry → Option Bytes × BlockCache
got d o c none = (none, record c { misses = c.misses + 1 })
got d o c (some e) = (some e.bytes, record c { order = e ∷ erase d o c.order; hits = c.hits + 1 })

unfoldable pub get : ℕ → ℕ → BlockCache → Option Bytes × BlockCache
unfolding got find erase
get d o c = got d o c (find d o c.order)

dropped : ℕ → ℕ → BlockCache → Option Entry → BlockCache
dropped d o c none = c
dropped d o c (some e) = record c { used = c.used - length e.bytes; order = erase d o c.order }

pushed : Entry → BlockCache → BlockCache
pushed e c = evict_locked (record c { order = e ∷ c.order; used = c.used + length e.bytes })

unfoldable pub put : ℕ → ℕ → Bytes → BlockCache → BlockCache
unfolding dropped pushed evict_locked find erase
put d o bytes c =
    if length bytes == 0
    then c
    else if ltb c.capacity (length bytes)
    then c
    else pushed (record { document = d; block_offset = o; bytes = bytes })
        (dropped d o c (find d o c.order))

pub sweep : ℕ → ℕ → List Entry → ℕ × List Entry
sweep d used [] = (used, [])
sweep d used (e ∷ es) =
    let gone = sweep d (used - length e.bytes) es in
    let kept = sweep d used es in if e.document == d then gone else (kept.0, e ∷ kept.1)

unfoldable pub invalidate : ℕ → BlockCache → BlockCache
unfolding sweep
invalidate d c = let r = sweep d c.used c.order in record c { used = r.0; order = r.1 }

unfoldable pub clear : BlockCache → BlockCache
clear c = record c { used = 0; order = [] }

unfoldable pub set_capacity : ℕ → BlockCache → BlockCache
unfolding evict_locked
set_capacity bytes c = evict_locked (record c { capacity = bytes })
