-- ===== src/Tg/TlCodec.antt =====
-- `TlWriter` and `TlReader` of src/tg/tl_codec.cpp. The writer's `buf_` is a list of bytes that grows;
-- a signed number is given and read as its bit pattern. The bytes of a word do not overlap, so `|` of
-- them is a sum.
pub mod Exact
pub mod Fields
mod Tests
use telegram_disk.Base.{
  ℕ, zero, suc, ◌+◌, ◌-◌, ◌*◌, ◌/◌, ◌%◌, Bool, true, false, Option, none, some, List, [], ◌∷◌, ◌++◌,
  length, take, drop, get_or, ltb, leb, ◌==◌, if◌then◌else◌,
}
use telegram_disk.Base.Bits.{Bytes}
use Prim.Native.String.{String}

unfoldable pub write_uint : ℕ → Bytes → Bytes
write_uint v buf = buf ++ (v % 256 ∷ v / 256 % 256 ∷ v / 65536 % 256 ∷ v / 16777216 % 256 ∷ [])

-- The loop over the low `n` bytes of a word.
word_bytes : ℕ → ℕ → Bytes
word_bytes zero v = []
word_bytes (suc n) v = v % 256 ∷ word_bytes n (v / 256)

unfoldable pub write_long : ℕ → Bytes → Bytes
unfolding word_bytes
write_long v buf = buf ++ word_bytes 8 v

abbrev pub write_raw : Bytes → Bytes → Bytes
write_raw bytes buf = buf ++ bytes

length_prefix : ℕ → Bytes
length_prefix len =
    if ltb len 254 then len ∷ [] else 254 ∷ len % 256 ∷ len / 256 % 256 ∷ len / 65536 % 256 ∷ []

-- The loop that fills up to a multiple of four, from `written` bytes on; it takes three rounds at most.
padding : ℕ → ℕ → Bytes
padding zero written = []
padding (suc fuel) written =
    let more = padding fuel (written + 1) in if written % 4 == 0 then [] else 0 ∷ more

unfoldable pub write_bytes : Bytes → Bytes → Bytes
unfolding length_prefix padding
write_bytes bytes buf =
    let prefix = length_prefix (length bytes) in
    buf ++ (prefix ++ (bytes ++ padding 3 (length prefix + length bytes)))

pub record TlReader : Type 0 where
  pub bytes : Bytes
  pub pos : ℕ
  pub is_ok : Bool
  pub error : String

abbrev pub reader : Bytes → TlReader
reader bytes = record { bytes = bytes; pos = 0; is_ok = true; error = "" }

abbrev pub remaining : TlReader → ℕ
remaining r = if ltb r.pos (length r.bytes) then length r.bytes - r.pos else 0

-- The first message stays.
unfoldable pub fail : String → TlReader → TlReader
fail message r = if r.is_ok then record r { is_ok = false; error = message } else r

byte_at : TlReader → ℕ → ℕ
byte_at r i = get_or r.bytes (r.pos + i) 0

unfoldable pub read_uint : TlReader → Option ℕ × TlReader
unfolding byte_at
read_uint r = if ltb (remaining r) 4 then (none, fail "Hết dữ liệu khi đọc int" r) else (
  some (byte_at r 0 + byte_at r 1 * 256 + byte_at r 2 * 65536 + byte_at r 3 * 16777216),
  record r { pos = r.pos + 4 },
)

-- The loop over the `n` bytes of a word.
word_at : ℕ → Bytes → ℕ → ℕ
word_at zero bytes pos = 0
word_at (suc n) bytes pos = get_or bytes pos 0 + 256 * word_at n bytes (pos + 1)

unfoldable pub read_long : TlReader → Option ℕ × TlReader
unfolding word_at
read_long r =
    if ltb (remaining r) 8
    then (none, fail "Hết dữ liệu khi đọc long" r)
    else (some (word_at 8 r.bytes r.pos), record r { pos = r.pos + 8 })

-- `std::to_string` in the message is a parameter.
unfoldable pub read_raw : (ℕ → String) → ℕ → TlReader → Option Bytes × TlReader
read_raw no_bytes n r =
    if ltb (remaining r) n
    then (none, fail (no_bytes n) r)
    else (some (take n (drop r.pos r.bytes)), record r { pos = r.pos + n })

unfoldable pub skip : ℕ → TlReader → Bool × TlReader
skip n r =
    if ltb (remaining r) n
    then (false, fail "Hết dữ liệu khi bỏ qua" r)
    else (true, record r { pos = r.pos + n })

-- The loop over the padding of what starts at `start`.
skip_padding : ℕ → ℕ → TlReader → TlReader
skip_padding zero start r = r
skip_padding (suc fuel) start r =
    let next = skip_padding fuel start (record r { pos = r.pos + 1 }) in
    if (r.pos - start) % 4 == 0 then r else if leb (length r.bytes) r.pos then r else next

read_content : ℕ → ℕ → TlReader → Option Bytes × TlReader
unfolding skip_padding
read_content start len r =
    if ltb (remaining r) len then (none, fail "Chuỗi dài hơn dữ liệu còn lại" r) else (
      some (take len (drop r.pos r.bytes)),
      skip_padding 3 start (record r { pos = r.pos + len }),
    )

-- Behind a first byte of 254 or more, three bytes have the length.
read_long_length : ℕ → TlReader → Option Bytes × TlReader
unfolding byte_at read_content
read_long_length start r =
    if ltb (remaining r) 3
    then (none, fail "Hết dữ liệu khi đọc độ dài chuỗi dài" r)
    else read_content start (byte_at r 0 + byte_at r 1 * 256 + byte_at r 2 * 65536)
        (record r { pos = r.pos + 3 })

unfoldable pub read_bytes : TlReader → Option Bytes × TlReader
unfolding byte_at read_content read_long_length
read_bytes r =
    let first = byte_at r 0 in
    let next : TlReader = record r { pos = r.pos + 1 } in
    if ltb (remaining r) 1
    then (none, fail "Hết dữ liệu khi đọc chuỗi" r)
    else if ltb first 254
    then read_content r.pos first next
    else read_long_length r.pos next
