-- ===== src/Text/Url.antt =====
-- `urlEncode` and `urlDecode` of src/common/strutil.cpp.
use telegram_disk.Base.{
  ℕ, ◌+◌, ◌-◌, ◌*◌, ◌/◌, ◌%◌, ◌<◌, ◌≡◌, refl, ap, ◌∙◌, Bool, true, false, ◌&&◌, ◌||◌, Bool-cases,
  inl, inr, Option, none, some, [], ◌∷◌, leb, ltb, ◌==◌, if◌then◌else◌, arith,
}
use telegram_disk.Base.Bits.{Bytes, AreBytes}
use telegram_disk.Text.Ascii.{hex_val}

-- `kHex[n]` for n < 16, in capitals.
unfoldable pub upper_hex_digit : ℕ → ℕ
upper_hex_digit n = if ltb n 10 then n + 48 else n - 10 + 65

unfoldable pub safe : Bool → ℕ → Bool
safe keep_slash c =
    (leb 97 c && leb c 122)
    || (leb 65 c && leb c 90)
    || (leb 48 c && leb c 57)
    || c == 45
    || c == 95
    || c == 46
    || c == 126
    || (keep_slash && c == 47)

unfoldable pub url_encode : Bool → Bytes → Bytes
url_encode keep_slash [] = []
url_encode keep_slash (c ∷ cs) =
    let rest = url_encode keep_slash cs in
    if safe keep_slash c
    then c ∷ rest
    else 37 ∷ (upper_hex_digit (c / 16) ∷ (upper_hex_digit (c % 16) ∷ rest))

-- The byte of `%hl`, if these three characters are one.
escape : ℕ → ℕ → ℕ → Option ℕ
escape c h l =
    if c == 37
    then elim (hex_val h) [
      | none ↦ none
      | some x ↦ elim (hex_val l) [ none ↦ none | some y ↦ some (x * 16 + y) ]
    ]
    else none

unplus : ℕ → ℕ
unplus c = if c == 43 then 32 else c

-- A decoded byte goes on behind its three characters, any other behind itself.
abbrev decoded : Option ℕ → Bytes → Bytes → Bytes
decoded (some b) rest plain = b ∷ rest
decoded none rest plain = plain

unfoldable pub url_decode : Bytes → Bytes
unfolding escape unplus hex_val
url_decode [] = []
url_decode (c ∷ []) = unplus c ∷ []
url_decode (c ∷ (h ∷ [])) = unplus c ∷ url_decode (h ∷ [])
url_decode (c ∷ (h ∷ (l ∷ cs))) =
    decoded (escape c h l) (url_decode cs) (unplus c ∷ url_decode (h ∷ (l ∷ cs)))

hex_val-upper : (n : ℕ) → n < 16 → hex_val (upper_hex_digit n) ≡ some n
unfolding hex_val upper_hex_digit
hex_val-upper n h = ground arith

escape-hex :
    (c : ℕ) → c < 256 → escape 37 (upper_hex_digit (c / 16)) (upper_hex_digit (c % 16)) ≡ some c
unfolding escape
escape-hex c h =
    rw (hex_val-upper (c / 16) (omega arith))
      (rw (hex_val-upper (c % 16) (omega arith)) (ap some (omega arith)))

safe-plain :
    (keep_slash : Bool) (c : ℕ)
    → safe keep_slash c ≡ true
    → ((c == 37) ≡ false) × ((c == 43) ≡ false)
unfolding safe
safe-plain keep_slash c h = ground arith

escape-none : (c h l : ℕ) → (c == 37) ≡ false → escape c h l ≡ none
unfolding escape
escape-none c h l e = ground (arith, e)

unplus-id : (c : ℕ) → (c == 43) ≡ false → unplus c ≡ c
unfolding unplus
unplus-id c e = ground (arith, e)

url_decode-plain :
    (c : ℕ) (cs : Bytes)
    → (c == 37) ≡ false
    → (c == 43) ≡ false
    → url_decode (c ∷ cs) ≡ c ∷ url_decode cs
unfolding url_decode
url_decode-plain c [] a b = ap (λ x. x ∷ []) (unplus-id c b)
url_decode-plain c (h ∷ []) a b = ap (λ x. x ∷ url_decode (h ∷ [])) (unplus-id c b)
url_decode-plain c (h ∷ (l ∷ cs)) a b =
    ap (λ o. decoded o (url_decode cs) (unplus c ∷ url_decode (h ∷ (l ∷ cs)))) (escape-none c h l a)
    ∙ ap (λ x. x ∷ url_decode (h ∷ (l ∷ cs))) (unplus-id c b)

url_decode-escape :
    (c : ℕ) (cs : Bytes)
    → c < 256
    → url_decode (37 ∷ (upper_hex_digit (c / 16) ∷ (upper_hex_digit (c % 16) ∷ cs)))
      ≡ c ∷ url_decode cs
unfolding url_decode
url_decode-escape c cs h =
    let plain =
      unplus 37 ∷ url_decode (upper_hex_digit (c / 16) ∷ (upper_hex_digit (c % 16) ∷ cs)) in
    ap (λ o. decoded o (url_decode cs) plain) (escape-hex c h)

-- `urlDecode` gives back every string of bytes that `urlEncode` wrote, slashes kept or not.
pub url_decode-url_encode :
    (keep_slash : Bool) (s : Bytes) → AreBytes s → url_decode (url_encode keep_slash s) ≡ s
unfolding url_encode
url_decode-url_encode keep_slash [] h = unfold url_decode in refl
url_decode-url_encode keep_slash (c ∷ cs) (h, hs) = elim (Bool-cases (safe keep_slash c)) [
  | inl e ↦
      let p = safe-plain keep_slash c e in
      rw e (url_decode-plain c _ p.0 p.1 ∙ ap (◌∷◌ c) (url_decode-url_encode keep_slash cs hs))
  | inr e ↦ rw e (url_decode-escape c _ h ∙ ap (◌∷◌ c) (url_decode-url_encode keep_slash cs hs))
]
