-- ===== src/Text/Base64.antt =====
-- `base64Encode`, `base64Decode` and `base64UrlEncode` of src/common/strutil.cpp.
use telegram_disk.Base.{
  ℕ, ◌+◌, ◌-◌, ◌*◌, ◌/◌, ◌%◌, ◌^◌, ◌<◌, ◌≡◌, refl, ap, ◌∙◌, ◌&&◌, ◌||◌, Option, none, some, [], ◌∷◌,
  map, leb, ltb, ◌==◌, if◌then◌else◌, arith,
}
use telegram_disk.Base.Bits.{Bytes, AreBytes}

-- `kB64[n]` for n < 64.
unfoldable pub b64_char : ℕ → ℕ
b64_char n =
    if ltb n 26
    then n + 65
    else if ltb n 52
    then n - 26 + 97
    else if ltb n 62
    then n - 52 + 48
    else if n == 62
    then 43
    else 47

-- `table[c]`; the url-safe characters are in it too.
unfoldable pub b64_val : ℕ → Option ℕ
b64_val c =
    if leb 65 c && leb c 90
    then some (c - 65)
    else if leb 97 c && leb c 122
    then some (c - 97 + 26)
    else if leb 48 c && leb c 57
    then some (c - 48 + 52)
    else if c == 43 || c == 45
    then some 62
    else if c == 47 || c == 95
    then some 63
    else none

unfoldable pub base64_encode : Bytes → Bytes
base64_encode [] = []
base64_encode (a ∷ []) =
    let v = a * 65536 in b64_char (v / 262144 % 64) ∷ (b64_char (v / 4096 % 64) ∷ (61 ∷ (61 ∷ [])))
base64_encode (a ∷ (b ∷ [])) =
    let v = a * 65536 + b * 256 in
    b64_char (v / 262144 % 64) ∷ (b64_char (v / 4096 % 64) ∷ (b64_char (v / 64 % 64) ∷ (61 ∷ [])))
base64_encode (a ∷ (b ∷ (c ∷ cs))) =
    let v = a * 65536 + b * 256 + c in
    b64_char (v / 262144 % 64)
    ∷ (b64_char (v / 4096 % 64) ∷ (b64_char (v / 64 % 64) ∷ (b64_char (v % 64) ∷ base64_encode cs)))

-- A character that is in the table is taken, any other passed over.
abbrev taken : Option ℕ → Bytes → (ℕ → Bytes) → Bytes
taken none skip take = skip
taken (some v) skip take = take v

-- The loop of `base64Decode` with `acc` of 32 bits and `bits`.
decode_loop : ℕ → ℕ → Bytes → Bytes
decode_loop acc bits [] = []
decode_loop acc bits (c ∷ cs) = taken (b64_val c) (decode_loop acc bits cs) (λ v.
    let acc' = (acc * 64 + v) % 4294967296 in
    let push = decode_loop acc' (bits - 2) cs in
    let wait = decode_loop acc' (bits + 6) cs in
    if leb 8 (bits + 6) then acc' / 2 ^ (bits - 2) % 256 ∷ push else wait)

unfoldable pub base64_decode : Bytes → Bytes
unfolding decode_loop b64_val
base64_decode s = decode_loop 0 0 s

url_safe : ℕ → ℕ
url_safe c = if c == 43 then 45 else if c == 47 then 95 else c

-- The loop that takes `=` off the end.
drop_padding : Bytes → Bytes
drop_padding [] = []
drop_padding (c ∷ cs) =
    let rest = drop_padding cs in
    elim rest [ [] ↦ if c == 61 then [] else c ∷ [] | x ∷ xs ↦ c ∷ (x ∷ xs) ]

unfoldable pub base64_url_encode : Bytes → Bytes
unfolding base64_encode b64_char url_safe drop_padding
base64_url_encode b = drop_padding (map url_safe (base64_encode b))

b64_val-b64_char : (n : ℕ) → n < 64 → b64_val (b64_char n) ≡ some n
unfolding b64_val b64_char
b64_val-b64_char n h = ground arith

abbrev next : ℕ → ℕ → ℕ
next acc n = (acc * 64 + n) % 4294967296

decode-digit :
    (acc bits n : ℕ) (cs : Bytes)
    → n < 64
    → decode_loop acc bits (b64_char n ∷ cs) ≡ (
        if leb 8 (bits + 6)
        then next acc n / 2 ^ (bits - 2) % 256 ∷ decode_loop (next acc n) (bits - 2) cs
        else decode_loop (next acc n) (bits + 6) cs)
unfolding decode_loop
decode-digit acc bits n cs h =
    ap
      (λ o. taken o (decode_loop acc bits cs) (λ v.
        if leb 8 (bits + 6)
        then next acc v / 2 ^ (bits - 2) % 256 ∷ decode_loop (next acc v) (bits - 2) cs
        else decode_loop (next acc v) (bits + 6) cs))
      (b64_val-b64_char n h)

-- Two digits behind nothing open give a byte and leave four bits.
decode-two :
    (acc p q : ℕ) (cs : Bytes)
    → p < 64
    → q < 64
    → decode_loop acc 0 (b64_char p ∷ (b64_char q ∷ cs))
      ≡ (p * 4 + q / 16) % 256 ∷ decode_loop (next (next acc p) q) 4 cs
decode-two acc p q cs hp hq =
    decode-digit acc 0 p (b64_char q ∷ cs) hp
    ∙ decode-digit (next acc p) 6 q cs hq
    ∙ ap (λ b. b ∷ decode_loop (next (next acc p) q) 4 cs) (omega arith)

decode-third :
    (acc q r : ℕ) (cs : Bytes)
    → q < 64
    → r < 64
    → decode_loop (next acc q) 4 (b64_char r ∷ cs)
      ≡ (q * 16 + r / 4) % 256 ∷ decode_loop (next (next acc q) r) 2 cs
decode-third acc q r cs hq hr =
    decode-digit (next acc q) 4 r cs hr
    ∙ ap (λ b. b ∷ decode_loop (next (next acc q) r) 2 cs) (omega arith)

decode-fourth :
    (acc r s : ℕ) (cs : Bytes)
    → r < 64
    → s < 64
    → decode_loop (next acc r) 2 (b64_char s ∷ cs)
      ≡ (r * 64 + s) % 256 ∷ decode_loop (next (next acc r) s) 0 cs
decode-fourth acc r s cs hr hs =
    decode-digit (next acc r) 2 s cs hs
    ∙ ap (λ b. b ∷ decode_loop (next (next acc r) s) 0 cs) (omega arith)

decode-encode : (acc : ℕ) (bs : Bytes) → AreBytes bs → decode_loop acc 0 (base64_encode bs) ≡ bs
unfolding base64_encode
decode-encode acc [] h = unfold decode_loop in refl
decode-encode acc (a ∷ []) (ha, _) =
    let v = a * 65536 in
    let p = v / 262144 % 64 in
    let q = v / 4096 % 64 in
    decode-two acc p q _ (omega arith) (omega arith)
    ∙ ap (λ x. x ∷ decode_loop (next (next acc p) q) 4 (61 ∷ (61 ∷ []))) (omega (arith, ha))
    ∙ ap (◌∷◌ a) (unfold decode_loop b64_val in refl)
decode-encode acc (a ∷ (b ∷ [])) (ha, (hb, _)) =
    let v = a * 65536 + b * 256 in
    let p = v / 262144 % 64 in
    let q = v / 4096 % 64 in
    let r = v / 64 % 64 in
    decode-two acc p q _ (omega arith) (omega arith)
    ∙ ap (λ x. x ∷ decode_loop (next (next acc p) q) 4 (b64_char r ∷ (61 ∷ [])))
        (omega (arith, ha, hb))
    ∙ ap (◌∷◌ a) (
        decode-third (next acc p) q r _ (omega arith) (omega arith)
        ∙ ap (λ x. x ∷ decode_loop (next (next (next acc p) q) r) 2 (61 ∷ []))
            (omega (arith, ha, hb))
        ∙ ap (◌∷◌ b) (unfold decode_loop b64_val in refl))
decode-encode acc (a ∷ (b ∷ (c ∷ cs))) (ha, (hb, (hc, hs))) =
    let v = a * 65536 + b * 256 + c in
    let p = v / 262144 % 64 in
    let q = v / 4096 % 64 in
    let r = v / 64 % 64 in
    let s = v % 64 in
    let acc' = next (next (next acc p) q) r in
    decode-two acc p q _ (omega arith) (omega arith)
    ∙ ap
        (λ x.
          x ∷ decode_loop (next (next acc p) q) 4 (b64_char r ∷ (b64_char s ∷ base64_encode cs)))
        (omega (arith, ha, hb, hc))
    ∙ ap (◌∷◌ a) (
        decode-third (next acc p) q r _ (omega arith) (omega arith)
        ∙ ap (λ x. x ∷ decode_loop acc' 2 (b64_char s ∷ base64_encode cs))
            (omega (arith, ha, hb, hc))
        ∙ ap (◌∷◌ b) (
            decode-fourth (next (next acc p) q) r s _ (omega arith) (omega arith)
            ∙ ap (λ x. x ∷ decode_loop (next acc' s) 0 (base64_encode cs))
                (omega (arith, ha, hb, hc))
            ∙ ap (◌∷◌ c) (decode-encode (next acc' s) cs hs)))

-- `base64Decode` gives back every sequence of bytes that `base64Encode` wrote, whatever its length.
pub base64_decode-base64_encode : (bs : Bytes) → AreBytes bs → base64_decode (base64_encode bs) ≡ bs
unfolding base64_decode
base64_decode-base64_encode bs h = decode-encode 0 bs h
