-- ===== src/Storage/ByteRange.antt =====
-- `parseRangeHeader` of src/storage/download_stream.cpp.
use telegram_disk.Base.{
  ℕ, zero, suc, ◌+◌, ◌-◌, ◌≤◌, ◌<◌, ◌≡◌, refl, min, Bool, true, false, Bool-cases, ◌⊎◌, inl, inr,
  not, Option, none, some, List, [], ◌∷◌, length, drop, ltb, leb, ◌==◌, if◌then◌else◌, arith,
}
use telegram_disk.Base.Bits.{Bytes}
use telegram_disk.Text.Ascii.{codes, to_lower}
use telegram_disk.Text.Trim.{trim, starts_with}
use telegram_disk.Text.Number.{parse_uint64}
mod Tests

-- `true` with `out`, `false` alone, and `false` with `unsatisfiable`.
pub data RangeResult : Type 0 where
  range : ℕ → ℕ → RangeResult
  ignored unsatisfiable : RangeResult

-- What stands before and behind the first `c`.
unfoldable pub cut : ℕ → Bytes → Option (Bytes × Bytes)
cut c [] = none
cut c (x ∷ xs) =
    let rest = cut c xs in
    if x == c then some ([], xs) else elim rest [ none ↦ none | some p ↦ some (x ∷ p.0, p.1) ]

-- `-N`: the last N bytes.
suffix_range : ℕ → Option ℕ → RangeResult
suffix_range size none = unsatisfiable
suffix_range size (some n) =
    let suffix = if ltb size n then size else n in
    if n == 0 then unsatisfiable else range (size - suffix) (size - 1)

ended : ℕ → ℕ → Option ℕ → RangeResult
ended size start none = ignored
ended size start (some n) =
    let last = if leb size n then size - 1 else n in
    if ltb last start then unsatisfiable else range start last

started : ℕ → Bytes → Option ℕ → RangeResult
unfolding ended
started size end_text none = ignored
started size end_text (some start) =
    if leb size start
    then unsatisfiable
    else if length end_text == 0
    then ended size start (some (size - 1))
    else ended size start (parse_uint64 end_text)

dashed : ℕ → Option (Bytes × Bytes) → RangeResult
unfolding suffix_range started trim
dashed size none = ignored
dashed size (some (before, behind)) =
    if size == 0
    then unsatisfiable
    else if length (trim before) == 0
    then suffix_range size (parse_uint64 (trim behind))
    else started size (trim behind) (parse_uint64 (trim before))

first_spec : Bytes → Bytes
unfolding cut trim
first_spec spec = elim (cut 44 spec) [ none ↦ spec | some p ↦ trim p.0 ]

unfoldable pub parse_range_header : Bytes → ℕ → RangeResult
unfolding dashed first_spec cut trim starts_with
parse_range_header header size =
    let h = trim header in
    if length h == 0
    then ignored
    else if not (starts_with (to_lower h) (codes "bytes="))
    then ignored
    else dashed size (cut 45 (first_spec (trim (drop 6 h))))

-- A range lies in the file and is not empty.
abbrev pub IsWithin : ℕ → RangeResult → Type 0
IsWithin size (range a b) = (a ≤ b) × (b < size)
IsWithin size ignored = 0 ≤ 0
IsWithin size unsatisfiable = 0 ≤ 0

suffix_range-IsWithin : (size : ℕ) (n : Option ℕ) → 0 < size → IsWithin size (suffix_range size n)
unfolding suffix_range
suffix_range-IsWithin size none h = omega arith
suffix_range-IsWithin size (some n) h = elim (Bool-cases (n == 0)) [
  | inl c ↦ rw c (omega arith)
  | inr c ↦ rw c (ground (arith, c, h))
]

ltb-false : (m n : ℕ) → ltb m n ≡ false → n ≤ m
ltb-false m n h = ground (arith, h)

ended-IsWithin : (size start : ℕ) (n : Option ℕ) → start < size → IsWithin size (ended size start n)
unfolding ended
ended-IsWithin size start none h = omega arith
ended-IsWithin size start (some n) h =
    let last = if leb size n then size - 1 else n in
    let low : last < size = ground (arith, h) in
    elim (Bool-cases (ltb last start)) [
      | inl c ↦ rw c (omega arith)
      | inr c ↦ let le : start ≤ last = ltb-false last start c in rw c (le, low)
    ]

started-IsWithin :
    (size : ℕ) (end_text : Bytes) (n : Option ℕ) → IsWithin size (started size end_text n)
unfolding started
started-IsWithin size end_text none = omega arith
started-IsWithin size end_text (some start) = elim (Bool-cases (leb size start)) [
  | inl c ↦ rw c (omega arith)
  | inr c ↦
      let inside : start < size = ground (arith, c) in
      elim (Bool-cases (length end_text == 0)) [
        | inl d ↦ rw (c, d) (ended-IsWithin size start (some (size - 1)) inside)
        | inr d ↦ rw (c, d) (ended-IsWithin size start (parse_uint64 end_text) inside)
      ]
]

dashed-IsWithin : (size : ℕ) (p : Option (Bytes × Bytes)) → IsWithin size (dashed size p)
unfolding dashed
dashed-IsWithin size none = omega arith
dashed-IsWithin size (some (before, behind)) = elim (Bool-cases (size == 0)) [
  | inl c ↦ rw c (omega arith)
  | inr c ↦ elim (Bool-cases (length (trim before) == 0)) [
    | inl d ↦
        rw (c, d) (suffix_range-IsWithin size (parse_uint64 (trim behind)) (ground (arith, c)))
    | inr d ↦ rw (c, d) (started-IsWithin size (trim behind) (parse_uint64 (trim before)))
  ]
]

-- Whatever the header says, a range that is accepted is not empty and lies in the file.
pub parse_range_header-IsWithin :
    (header : Bytes) (size : ℕ) → IsWithin size (parse_range_header header size)
unfolding parse_range_header
parse_range_header-IsWithin header size = elim (Bool-cases (length (trim header) == 0)) [
  | inl c ↦ rw c (omega arith)
  | inr c ↦ elim (Bool-cases (starts_with (to_lower (trim header)) (codes "bytes="))) [
    | inl d ↦ rw (c, d) (dashed-IsWithin size (cut 45 (first_spec (trim (drop 6 (trim header))))))
    | inr d ↦ rw (c, d) (omega arith)
  ]
]
