-- ===== src/Base/Bits.antt =====
-- Bytes and machine words. A byte is a number below 256, a `uintN_t` one below 2 ^ N; shifts and
-- masks of a word are written with `/`, `*` and `%`.
use Prim.Native.Nat.{ℕ, ◌<◌, ◌^◌}
use mathlib.Core.List.{List}
use telegram_disk.Base.Lists.{All}

abbrev pub IsByte : ℕ → Type 0
IsByte b = b < 256

abbrev pub IsU32 : ℕ → Type 0
IsU32 w = w < 2 ^ 32

abbrev pub IsU64 : ℕ → Type 0
IsU64 w = w < 2 ^ 64

abbrev pub Bytes : Type 0
Bytes = List ℕ

abbrev pub AreBytes : Bytes → Type 0
AreBytes = All IsByte
