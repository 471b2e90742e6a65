-- ===== src/Text/Escape.antt =====
-- `htmlEscape` and `xmlEscape` of src/common/strutil.cpp.
use telegram_disk.Base.{
  ℕ, ◌≢◌, ◌&&◌, not, [], ◌∷◌, ◌++◌, All, All-append, ltb, ◌==◌, if◌then◌else◌, arith,
}
use telegram_disk.Base.Bits.{Bytes}
use telegram_disk.Text.Ascii.{codes}

-- A character of the text and what comes out for it.
unfoldable pub html_char : ℕ → Bytes
html_char c =
    if c == 38
    then codes "&amp;"
    else if c == 60
    then codes "&lt;"
    else if c == 62
    then codes "&gt;"
    else if c == 34
    then codes "&quot;"
    else if c == 39
    then codes "&#39;"
    else c ∷ []

unfoldable pub html_escape : Bytes → Bytes
unfolding html_char
html_escape [] = []
html_escape (c ∷ cs) = html_char c ++ html_escape cs

unfoldable pub xml_char : ℕ → Bytes
xml_char c =
    if c == 38
    then codes "&amp;"
    else if c == 60
    then codes "&lt;"
    else if c == 62
    then codes "&gt;"
    else if c == 34
    then codes "&quot;"
    else if c == 39
    then codes "&apos;"
    else if ltb c 32 && not (c == 9) && not (c == 10) && not (c == 13)
    then []
    else c ∷ []

unfoldable pub xml_escape : Bytes → Bytes
unfolding xml_char
xml_escape [] = []
xml_escape (c ∷ cs) = xml_char c ++ xml_escape cs

-- Neither a bracket nor a quotation mark.
abbrev pub IsPlain : ℕ → Type 0
IsPlain c = (c ≢ 60) × (c ≢ 62) × (c ≢ 34) × (c ≢ 39)

html_char-IsPlain : (c : ℕ) → All IsPlain (html_char c)
unfolding html_char
html_char-IsPlain c = ground arith

xml_char-IsPlain : (c : ℕ) → All IsPlain (xml_char c)
unfolding xml_char
xml_char-IsPlain c = ground arith

-- Escaped text has none of the characters `<`, `>`, `"` and `'`.
pub html_escape-IsPlain : (s : Bytes) → All IsPlain (html_escape s)
unfolding html_escape
html_escape-IsPlain [] = tt
html_escape-IsPlain (c ∷ cs) =
    All-append IsPlain (html_char c) (html_escape cs) (html_char-IsPlain c) (html_escape-IsPlain cs)

-- Text escaped for XML has none of the characters `<`, `>`, `"` and `'`.
pub xml_escape-IsPlain : (s : Bytes) → All IsPlain (xml_escape s)
unfolding xml_escape
xml_escape-IsPlain [] = tt
xml_escape-IsPlain (c ∷ cs) =
    All-append IsPlain (xml_char c) (xml_escape cs) (xml_char-IsPlain c) (xml_escape-IsPlain cs)
