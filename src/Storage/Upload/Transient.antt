-- ===== src/Storage/Upload/Transient.antt =====
-- `laLoiTamThoi` of src/storage/upload_manager.cpp: is an error one that passes, and how long to
-- wait. Texts are lists of code points.
use telegram_disk.Base.{
  ℕ, ◌+◌, ◌-◌, ◌*◌, ◌≤◌, ◌≡◌, refl, Bool, true, false, ◌&&◌, ◌||◌, Option, none, some, List, [],
  ◌∷◌, drop, length, leb, ltb, ◌==◌, if◌then◌else◌, arith, Option-cases, inl, inr,
}
use telegram_disk.Base.Bits.{Bytes}
use telegram_disk.Text.Ascii.{codes}
use Prim.Native.String.{String}

starts_with : Bytes → Bytes → Bool
starts_with [] s = true
starts_with (p ∷ ps) [] = false
starts_with (p ∷ ps) (c ∷ s) = p == c && starts_with ps s

-- What follows the first occurrence, as `find` and the length of the marker give it.
find_after : Bytes → Bytes → Option Bytes
unfolding starts_with
find_after marker [] = if length marker == 0 then some [] else none
find_after marker (c ∷ s) =
    if starts_with marker (c ∷ s) then some (drop (length marker) (c ∷ s)) else find_after marker s

abbrev server_broken : List String
server_broken =
    "RPC_CALL_FAIL" ∷ "RPC_MCGET_FAIL" ∷ "INTERNAL_SERVER_ERROR" ∷ "WORKER_BUSY_TOO_LONG_RETRY"
    ∷ "MSG_WAIT_FAILED" ∷ "MSGID_DECREASE_RETRY" ∷ "Telegram lỗi nội bộ" ∷ []

abbrev wait_markers : List String
wait_markers =
    "FLOOD_PREMIUM_WAIT_" ∷ "FLOOD_WAIT_" ∷ "SLOWMODE_WAIT_" ∷ "TAKEOUT_INIT_DELAY_"
    ∷ "FLOOD_PREMIUM_WAIT" ∷ "FLOOD_WAIT" ∷ []

contains_any : List String → Bytes → Bool
unfolding find_after
contains_any [] error = false
contains_any (m ∷ ms) error = elim (find_after (codes m) error) [
  | some _ ↦ true
  | none ↦ contains_any ms error
]

skip_separators : Bytes → Bytes
skip_separators [] = []
skip_separators (c ∷ s) = if c == b'_' || c == b' ' then skip_separators s else c ∷ s

-- The digits, up to the first value above a day.
read_seconds : ℕ → Bytes → ℕ
read_seconds n [] = n
read_seconds n (c ∷ s) =
    let n' = n * 10 + (c - 48) in
    let rest = read_seconds n' s in
    if leb b'0' c && leb c b'9' then (if ltb 86400 n' then n' else rest) else n

first_wait : List String → Bytes → Option ℕ
unfolding skip_separators read_seconds find_after
first_wait [] error = none
first_wait (m ∷ ms) error = elim (find_after (codes m) error) [
  | some rest ↦ some (read_seconds 0 (skip_separators rest))
  | none ↦ first_wait ms error
]

-- `some n`: the error passes, after `n` seconds if `n` is not 0.
unfoldable pub transient : Bytes → Option ℕ
unfolding contains_any first_wait
transient error = if contains_any server_broken error then some 0 else first_wait wait_markers error

flood_wait : transient (codes "FLOOD_WAIT_37: wait") ≡ some 37
unfolding transient
flood_wait = refl

slow_mode : transient (codes "SLOWMODE_WAIT_ 5") ≡ some 5
unfolding transient
slow_mode = refl

disk_full : transient (codes "no space left") ≡ none
unfolding transient
disk_full = refl

-- No wait is longer than a day and nine seconds' worth of one more digit.
read_seconds-le : (n : ℕ) (s : Bytes) → n ≤ 86400 → read_seconds n s ≤ 864009
unfolding read_seconds
read_seconds-le n [] h = omega arith
read_seconds-le n (c ∷ s) h = ground (arith, read_seconds-le (n * 10 + (c - 48)) s)

first_wait-le :
    (ms : List String) (error : Bytes) {n : ℕ} → first_wait ms error ≡ some n → n ≤ 864009
unfolding first_wait
first_wait-le [] error e = cc
first_wait-le (m ∷ ms) error {n} e = elim (Option-cases (find_after (codes m) error)) [
  | inl q ↦ first_wait-le ms error (rw (q, first_wait) at e)
  | inr (rest, q) ↦
      let h : some (read_seconds 0 (skip_separators rest)) ≡ some n = rw (q, first_wait) at e in
      ground (arith, read_seconds-le 0 (skip_separators rest))
]

-- The wait that a transient error asks for is bounded.
pub transient-le : (error : Bytes) (n : ℕ) → transient error ≡ some n → n ≤ 864009
unfolding transient
transient-le error n e = ground (arith, first_wait-le wait_markers error {n = n})
