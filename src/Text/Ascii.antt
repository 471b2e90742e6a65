-- ===== src/Text/Ascii.antt =====
-- Bytes as characters, and the functions of src/common/strutil.cpp on single characters.
use Prim.Native.Char.{code}
use Prim.Native.String.{String}
use telegram_disk.Base.{
  ℕ, ◌+◌, ◌-◌, ◌≡◌, ◌&&◌, Option, none, some, [], ◌∷◌, map, leb, if◌then◌else◌, arith,
}
use telegram_disk.Base.Bits.{Bytes}

-- The bytes of a literal, which is ASCII wherever it is used as bytes.
abbrev pub codes : String → Bytes
codes String.[] = []
codes (String.◌∷◌ c s) = code c ∷ codes s

unfoldable pub lower_ascii : ℕ → ℕ
lower_ascii c = if leb b'A' c && leb c b'Z' then c - 65 + 97 else c

unfoldable pub upper_ascii : ℕ → ℕ
upper_ascii c = if leb b'a' c && leb c b'z' then c - 97 + 65 else c

-- `none` is the -1 of the source.
unfoldable pub hex_val : ℕ → Option ℕ
hex_val c =
    if leb b'0' c && leb c b'9'
    then some (c - 48)
    else if leb b'a' c && leb c b'f'
    then some (c - 97 + 10)
    else if leb b'A' c && leb c b'F'
    then some (c - 65 + 10)
    else none

unfoldable pub to_lower : Bytes → Bytes
to_lower s = map lower_ascii s

unfoldable pub to_upper : Bytes → Bytes
to_upper s = map upper_ascii s

pub lower_ascii_idem : (c : ℕ) → lower_ascii (lower_ascii c) ≡ lower_ascii c
unfolding lower_ascii
lower_ascii_idem c = ground arith
