-- ===== src/Text/Hex.antt =====
-- `toHex` and `fromHex` of src/common/strutil.cpp.
use telegram_disk.Base.{
  ℕ, ◌+◌, ◌-◌, ◌*◌, ◌/◌, ◌%◌, ◌<◌, ◌≡◌, refl, Option, none, some, [], ◌∷◌, ltb, if◌then◌else◌,
  arith,
}
use telegram_disk.Base.Bits.{Bytes, AreBytes}
use telegram_disk.Text.Ascii.{hex_val}

-- `kHex[n]` for n < 16.
unfoldable pub hex_digit : ℕ → ℕ
hex_digit n = if ltb n 10 then n + 48 else n - 10 + 97

unfoldable pub to_hex : Bytes → Bytes
to_hex [] = []
to_hex (b ∷ bs) = hex_digit (b / 16) ∷ hex_digit (b % 16) ∷ to_hex bs

-- The loop of `fromHex` with `hi`; characters that are no digits are passed over.
from_hex_loop : Option ℕ → Bytes → Bytes
from_hex_loop hi [] = []
from_hex_loop none (c ∷ cs) = elim (hex_val c) [
  | none ↦ from_hex_loop none cs
  | some v ↦ from_hex_loop (some v) cs
]
from_hex_loop (some h) (c ∷ cs) = elim (hex_val c) [
  | none ↦ from_hex_loop (some h) cs
  | some v ↦ (h * 16 + v) ∷ from_hex_loop none cs
]

unfoldable pub from_hex : Bytes → Bytes
unfolding from_hex_loop hex_val
from_hex hex = from_hex_loop none hex

hex_val-hex_digit : (n : ℕ) → n < 16 → hex_val (hex_digit n) ≡ some n
unfolding hex_val hex_digit
hex_val-hex_digit n h = ground arith

from_hex_loop-to_hex : (bs : Bytes) → AreBytes bs → from_hex_loop none (to_hex bs) ≡ bs
unfolding from_hex_loop to_hex
from_hex_loop-to_hex [] h = refl
from_hex_loop-to_hex (b ∷ bs) (h, hs) = ground (
  arith,
  hex_val-hex_digit (b / 16) (omega arith),
  hex_val-hex_digit (b % 16) (omega arith),
  from_hex_loop-to_hex bs hs,
)

-- `fromHex` reads back every sequence of bytes that `toHex` wrote.
pub from_hex-to_hex : (bs : Bytes) → AreBytes bs → from_hex (to_hex bs) ≡ bs
unfolding from_hex
from_hex-to_hex bs h = from_hex_loop-to_hex bs h
