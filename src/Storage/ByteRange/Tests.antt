-- ===== src/Storage/ByteRange/Tests.antt =====
-- Runs of the range parser.
use telegram_disk.Base.{◌≡◌, refl}
use telegram_disk.Text.Ascii.{codes, to_lower, lower_ascii}
use telegram_disk.Text.Number.{parse_uint64}
use telegram_disk.Storage.ByteRange.{
  range, unsatisfiable, parse_range_header, parse_range_header-IsWithin, IsWithin,
}

parse_range_header-IsWithin_example : IsWithin 100 (parse_range_header (codes "bytes=10-19") 100)
parse_range_header-IsWithin_example = parse_range_header-IsWithin (codes "bytes=10-19") 100

middle : parse_range_header (codes " Bytes=10-19, 30-40") 100 ≡ range 10 19
unfolding parse_range_header to_lower lower_ascii parse_uint64
middle = refl

last_ten : parse_range_header (codes "bytes=-10") 100 ≡ range 90 99
unfolding parse_range_header to_lower lower_ascii parse_uint64
last_ten = refl

outside : parse_range_header (codes "bytes=100-") 100 ≡ unsatisfiable
unfolding parse_range_header to_lower lower_ascii parse_uint64
outside = refl
