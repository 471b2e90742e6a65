-- ===== src/Text/Tests.antt =====
-- Runs of the text functions, and their theorems at concrete inputs.
use telegram_disk.Base.{◌≤◌, ◌≡◌, refl, true, some, [], ◌∷◌, All, ◌++◌, length, arith}
use telegram_disk.Text.Ascii.{codes}
use telegram_disk.Text.Hex.{to_hex, from_hex, from_hex-to_hex}
use telegram_disk.Text.Url.{url_encode, url_decode, url_decode-url_encode}
use telegram_disk.Text.Base64.{base64_encode, b64_char, base64_decode, base64_decode-base64_encode}
use telegram_disk.Text.Number.{is_digit, parse_digits, parse_uint64, decimal, parse_digits-decimal}
use telegram_disk.Text.Path.{
  IsName, normalize_loop, render, normalize_virtual_path, normalize_loop-IsName, normalize_idem,
}
use telegram_disk.Text.Utf8.{encode_utf8, decode_utf8, decode_utf8-encode_utf8}
use telegram_disk.Base.Bits.{Bytes}
use telegram_disk.Text.FileName.{IsClean, sanitize_file_name, sanitize_file_name-IsClean}
use telegram_disk.Text.Escape.{IsPlain, html_escape, html_escape-IsPlain}

from_hex-to_hex_example : from_hex (to_hex (0xab ∷ 0x07 ∷ [])) ≡ 0xab ∷ 0x07 ∷ []
from_hex-to_hex_example = from_hex-to_hex (0xab ∷ 0x07 ∷ []) (omega arith)

from_hex_skips : from_hex (codes "a-B:0") ≡ 0xab ∷ []
unfolding from_hex
from_hex_skips = refl

url_decode-url_encode_example : url_decode (url_encode true (codes "a b/+%")) ≡ codes "a b/+%"
url_decode-url_encode_example = url_decode-url_encode true (codes "a b/+%") (omega arith)

base64_encode_runs : base64_encode (codes "hello") ≡ codes "aGVsbG8="
unfolding base64_encode b64_char
base64_encode_runs = refl

base64_decode-base64_encode_example :
    base64_decode (base64_encode (0 ∷ 255 ∷ 7 ∷ 9 ∷ [])) ≡ 0 ∷ 255 ∷ 7 ∷ 9 ∷ []
base64_decode-base64_encode_example =
    base64_decode-base64_encode (0 ∷ 255 ∷ 7 ∷ 9 ∷ []) (omega arith)

parse_digits-decimal_example : parse_digits 0 (codes "907") ≡ some (decimal 0 (codes "907"))
parse_digits-decimal_example = parse_digits-decimal 0 (codes "907") (omega arith) (omega arith)

three_times_ten_to_19 : parse_uint64 (codes "30000000000000000000") ≡ some 11553255926290448384
unfolding parse_uint64
three_times_ten_to_19 = refl

digits_907 : parse_digits 0 (codes "907") ≡ some 907
unfolding parse_digits is_digit
digits_907 = refl

normalize_loop-IsName_example : All IsName (normalize_loop [] [] (codes "/a/../../b\\c"))
normalize_loop-IsName_example = normalize_loop-IsName [] [] (codes "/a/../../b\\c") tt tt

normalize_runs : normalize_virtual_path (codes "a/./x/../../..//b\\c") ≡ codes "/b/c"
unfolding normalize_virtual_path render
normalize_runs = refl

normalize_idem_example :
    normalize_virtual_path (normalize_virtual_path (codes "a/../b"))
    ≡ normalize_virtual_path (codes "a/../b")
normalize_idem_example = normalize_idem (codes "a/../b")

decode_utf8-encode_utf8_example :
    decode_utf8 (encode_utf8 0x1ec7 ++ (65 ∷ [])) ≡ some (0x1ec7, length (encode_utf8 0x1ec7))
decode_utf8-encode_utf8_example = decode_utf8-encode_utf8 0x1ec7 (65 ∷ []) (omega arith)

html_escape-IsPlain_example : All IsPlain (html_escape (codes "<b title='x'>"))
html_escape-IsPlain_example = html_escape-IsPlain (codes "<b title='x'>")

abbrev odd_name : Bytes
odd_name = codes " ../a?b.txt. "

sanitize_file_name-IsClean_example :
    All IsClean (sanitize_file_name odd_name) × (length (sanitize_file_name odd_name) ≤ 240)
sanitize_file_name-IsClean_example = sanitize_file_name-IsClean odd_name
