-- ===== src/Text/Number.antt =====
-- `parseUInt64` and `parseInt64` of src/common/strutil.cpp.
use telegram_disk.Base.{
  ℕ, ◌+◌, ◌-◌, ◌*◌, ◌%◌, ◌≤◌, ◌<◌, ◌≡◌, refl, Bool, ◌&&◌, not, Option, none, some, [], ◌∷◌, All,
  leb, ltb, ◌==◌, if◌then◌else◌, arith,
}
use telegram_disk.Base.Bits.{Bytes}
use telegram_disk.Text.Trim.{trim}

abbrev pub u64 : ℕ
u64 = 18446744073709551616

unfoldable pub is_digit : ℕ → Bool
is_digit c = leb 48 c && leb c 57

-- The loop over the digits with `v`: the test for an overflow is `nv < v`, on wrapped numbers.
unfoldable pub parse_digits : ℕ → Bytes → Option ℕ
parse_digits v [] = some v
parse_digits v (c ∷ cs) =
    let nv = (v * 10 + (c - 48)) % u64 in
    let rest = parse_digits nv cs in
    if not (is_digit c) then none else if ltb nv v then none else rest

unsigned : Bytes → Option ℕ
unsigned [] = none
unsigned (c ∷ cs) = parse_digits 0 (c ∷ cs)

unfoldable pub parse_uint64 : Bytes → Option ℕ
unfolding parse_digits is_digit trim unsigned
parse_uint64 s = unsigned (trim s)

-- `-static_cast<int64_t>(v)` as the 64 bits of the result.
negated : Option ℕ → Option ℕ
negated none = none
negated (some v) = some ((u64 - v) % u64)

signed : Bytes → Option ℕ
unfolding unsigned negated
signed [] = none
signed (c ∷ cs) =
    if c == 45 then negated (unsigned cs) else if c == 43 then unsigned cs else unsigned (c ∷ cs)

-- The 64 bits of `out`, in two's complement.
unfoldable pub parse_int64 : Bytes → Option ℕ
unfolding signed trim
parse_int64 s = signed (trim s)

-- What a sequence of digits means behind `v`.
abbrev pub decimal : ℕ → Bytes → ℕ
decimal v [] = v
decimal v (c ∷ cs) = decimal (v * 10 + (c - 48)) cs

abbrev pub IsDigit : ℕ → Type 0
IsDigit c = (48 ≤ c) × (c ≤ 57)

decimal_le : (v : ℕ) (cs : Bytes) → v ≤ decimal v cs
decimal_le v [] = omega arith
decimal_le v (c ∷ cs) = omega (arith, decimal_le (v * 10 + (c - 48)) cs)

-- For digits whose value, with `v` in front, fits in 64 bits the loop finds this value.
pub parse_digits-decimal :
    (v : ℕ) (cs : Bytes)
    → All IsDigit cs
    → decimal v cs < u64
    → parse_digits v cs ≡ some (decimal v cs)
unfolding parse_digits is_digit
parse_digits-decimal v [] h l = refl
parse_digits-decimal v (c ∷ cs) (h, hs) l =
    let le = decimal_le (v * 10 + (c - 48)) cs in
    let nv : (v * 10 + (c - 48)) % u64 ≡ v * 10 + (c - 48) = omega (arith, le, l) in
    rw nv (ground (arith, h, parse_digits-decimal (v * 10 + (c - 48)) cs hs l))

-- From a `v` that fits in 64 bits, whatever the loop accepts fits in 64 bits.
pub parse_digits_bound :
    (v : ℕ) (cs : Bytes) (n : ℕ) → v < u64 → parse_digits v cs ≡ some n → n < u64
unfolding parse_digits
parse_digits_bound v [] n h e = ground arith
parse_digits_bound v (c ∷ cs) n h e =
    ground (arith, parse_digits_bound ((v * 10 + (c - 48)) % u64) cs n (omega arith), e)
