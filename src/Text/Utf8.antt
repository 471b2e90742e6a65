-- ===== src/Text/Utf8.antt =====
-- `decodeUtf8`, `encodeUtf8`, `lowerCodepoint`, `toLowerUtf8`, `utf8Length` and
-- `utf8TruncateBytes` of src/common/strutil.cpp. The masks are written as quotients and remainders.
use telegram_disk.Base.{
  ℕ, zero, suc, ◌+◌, ◌*◌, ◌/◌, ◌%◌, ◌≤◌, ◌<◌, ◌≡◌, refl, ap, ◌∙◌, inl, inr, Bool, true, false,
  Bool-cases, ◌&&◌, ◌||◌, not, Option, none, some, [], ◌∷◌, ◌++◌, length, length-take, take, drop,
  ltb, leb, ◌==◌, if◌then◌else◌, arith,
}
use telegram_disk.Base.Bits.{Bytes}

-- `c & 0xC0 == 0x80`.
unfoldable pub continues : ℕ → Bool
continues c = c / 64 == 2

-- `extra` more bytes onto `cp`; a byte that does not continue, or the end, breaks it off.
unfoldable pub more_bytes : ℕ → ℕ → Bytes → Option ℕ
unfolding continues
more_bytes zero cp cs = some cp
more_bytes (suc n) cp [] = none
more_bytes (suc n) cp (c ∷ cs) =
    let rest = more_bytes n (cp * 64 + c % 64) cs in if continues c then rest else none

abbrev sized : ℕ → Option ℕ → Option (ℕ × ℕ)
sized n none = none
sized n (some cp) = some (cp, n)

-- The code point and the number of bytes; `none` is the 0 of the source.
unfoldable pub decode_utf8 : Bytes → Option (ℕ × ℕ)
unfolding more_bytes
decode_utf8 [] = none
decode_utf8 (c ∷ cs) =
    if ltb c 128
    then some (c, 1)
    else if c / 32 == 6
    then sized 2 (more_bytes 1 (c % 32) cs)
    else if c / 16 == 14
    then sized 3 (more_bytes 2 (c % 16) cs)
    else if c / 8 == 30
    then sized 4 (more_bytes 3 (c % 8) cs)
    else none

unfoldable pub encode_utf8 : ℕ → Bytes
encode_utf8 cp =
    if ltb cp 128
    then cp ∷ []
    else if ltb cp 2048
    then (192 + cp / 64) ∷ ((128 + cp % 64) ∷ [])
    else if ltb cp 65536
    then (224 + cp / 4096) ∷ ((128 + cp / 64 % 64) ∷ ((128 + cp % 64) ∷ []))
    else (240 + cp / 262144)
      ∷ ((128 + cp / 4096 % 64) ∷ ((128 + cp / 64 % 64) ∷ ((128 + cp % 64) ∷ [])))

unfoldable pub lower_codepoint : ℕ → ℕ
lower_codepoint cp =
    if leb 65 cp && leb cp 90
    then cp + 32
    else if leb 0x00c0 cp && leb cp 0x00de && not (cp == 0x00d7)
    then cp + 32
    else if leb 0x0100 cp && leb cp 0x017f
    then (if cp % 2 == 0 then cp + 1 else cp)
    else if cp == 0x01a0 || cp == 0x01af
    then cp + 1
    else if leb 0x1e00 cp && leb cp 0x1eff
    then (if cp % 2 == 0 then cp + 1 else cp)
    else if leb 0x0391 cp && leb cp 0x03a9 && not (cp == 0x03a2)
    then cp + 32
    else if leb 0x0410 cp && leb cp 0x042f
    then cp + 32
    else if leb 0x0400 cp && leb cp 0x040f
    then cp + 80
    else cp

-- A round takes one byte or more; a broken byte stays as it is.
lower_loop : ℕ → Bytes → Bytes
lower_loop fuel [] = []
lower_loop zero (c ∷ cs) = []
lower_loop (suc fuel) (c ∷ cs) = elim (decode_utf8 (c ∷ cs)) [
  | none ↦ c ∷ lower_loop fuel cs
  | some p ↦ encode_utf8 (lower_codepoint p.0) ++ lower_loop fuel (drop p.1 (c ∷ cs))
]

unfoldable pub to_lower_utf8 : Bytes → Bytes
unfolding lower_loop decode_utf8 encode_utf8 lower_codepoint
to_lower_utf8 s = lower_loop (length s) s

unfoldable pub utf8_length : Bytes → ℕ
utf8_length [] = 0
utf8_length (c ∷ cs) = if continues c then utf8_length cs else utf8_length cs + 1

-- `cut` goes down while the byte at it continues another.
pub cut_back : ℕ → Bytes → ℕ
unfolding continues
cut_back zero s = 0
cut_back (suc n) s = elim (drop (suc n) s) [
  | [] ↦ suc n
  | c ∷ _ ↦ if continues c then cut_back n s else suc n
]

unfoldable pub utf8_truncate_bytes : Bytes → ℕ → Bytes
unfolding cut_back
utf8_truncate_bytes s max_bytes =
    if leb (length s) max_bytes then s else take (cut_back max_bytes s) s

more_bytes-step :
    (n cp x : ℕ) (cs : Bytes)
    → x < 64
    → more_bytes (suc n) cp ((128 + x) ∷ cs) ≡ more_bytes n (cp * 64 + x) cs
unfolding more_bytes continues
more_bytes-step n cp x cs h =
    let e : (128 + x) % 64 ≡ x = omega (arith, h) in
    let c : ((128 + x) / 64 == 2) ≡ true = ground (arith, h) in rw (e, c) refl

more_bytes-end : (cp : ℕ) (cs : Bytes) → more_bytes 0 cp cs ≡ some cp
unfolding more_bytes
more_bytes-end cp cs = refl

decode-two :
    (a x : ℕ) (rest : Bytes)
    → a < 32
    → x < 64
    → decode_utf8 ((192 + a) ∷ ((128 + x) ∷ rest)) ≡ some (a * 64 + x, 2)
unfolding decode_utf8
decode-two a x rest h k =
    let p : ltb (192 + a) 128 ≡ false = ground arith in
    let q : ((192 + a) / 32 == 6) ≡ true = ground (arith, h) in
    let r : (192 + a) % 32 ≡ a = omega (arith, h) in
    rw (p, q, r) (ap (sized 2) (more_bytes-step 0 a x rest k ∙ more_bytes-end (a * 64 + x) rest))

decode-three :
    (a x y : ℕ) (rest : Bytes)
    → a < 16
    → x < 64
    → y < 64
    → decode_utf8 ((224 + a) ∷ ((128 + x) ∷ ((128 + y) ∷ rest))) ≡ some ((a * 64 + x) * 64 + y, 3)
unfolding decode_utf8
decode-three a x y rest h k l =
    let p : ltb (224 + a) 128 ≡ false = ground arith in
    let q : ((224 + a) / 32 == 6) ≡ false = ground (arith, h) in
    let q' : ((224 + a) / 16 == 14) ≡ true = ground (arith, h) in
    let r : (224 + a) % 16 ≡ a = omega (arith, h) in
    rw (p, q, q', r)
      (ap (sized 3) (
        more_bytes-step 1 a x ((128 + y) ∷ rest) k
        ∙ more_bytes-step 0 (a * 64 + x) y rest l
        ∙ more_bytes-end ((a * 64 + x) * 64 + y) rest))

decode-four :
    (a x y z : ℕ) (rest : Bytes)
    → a < 8
    → x < 64
    → y < 64
    → z < 64
    → decode_utf8 ((240 + a) ∷ ((128 + x) ∷ ((128 + y) ∷ ((128 + z) ∷ rest))))
      ≡ some (((a * 64 + x) * 64 + y) * 64 + z, 4)
unfolding decode_utf8
decode-four a x y z rest h k l m =
    let p : ltb (240 + a) 128 ≡ false = ground arith in
    let q : ((240 + a) / 32 == 6) ≡ false = ground (arith, h) in
    let q' : ((240 + a) / 16 == 14) ≡ false = ground (arith, h) in
    let q'' : ((240 + a) / 8 == 30) ≡ true = ground (arith, h) in
    let r : (240 + a) % 8 ≡ a = omega (arith, h) in
    rw (p, q, q', q'', r)
      (ap (sized 4) (
        more_bytes-step 2 a x ((128 + y) ∷ ((128 + z) ∷ rest)) k
        ∙ more_bytes-step 1 (a * 64 + x) y ((128 + z) ∷ rest) l
        ∙ more_bytes-step 0 ((a * 64 + x) * 64 + y) z rest m
        ∙ more_bytes-end (((a * 64 + x) * 64 + y) * 64 + z) rest))

-- A code point below 0x200000 is read back from its bytes, whatever stands behind them, with the
-- number of these bytes.
pub decode_utf8-encode_utf8 :
    (cp : ℕ) (rest : Bytes)
    → cp < 2097152
    → decode_utf8 (encode_utf8 cp ++ rest) ≡ some (cp, length (encode_utf8 cp))
unfolding encode_utf8
decode_utf8-encode_utf8 cp rest h = elim (Bool-cases (ltb cp 128)) [
  | inl a ↦ rw a (unfold decode_utf8 in rw a refl)
  | inr a ↦ elim (Bool-cases (ltb cp 2048)) [
    | inl b ↦
        let l : cp < 2048 = ground (arith, b) in
        rw (a, b)
          (decode-two (cp / 64) (cp % 64) rest (omega (arith, l)) (omega arith)
            ∙ ap (λ n. some (n, 2)) (omega arith))
    | inr b ↦ elim (Bool-cases (ltb cp 65536)) [
      | inl c ↦
          let l : cp < 65536 = ground (arith, c) in
          rw (a, b, c)
            (decode-three (cp / 4096) (cp / 64 % 64) (cp % 64) rest (omega (arith, l)) (omega arith)
                (omega arith)
              ∙ ap (λ n. some (n, 3)) (omega arith))
      | inr c ↦
          rw (a, b, c)
            (decode-four (cp / 262144) (cp / 4096 % 64) (cp / 64 % 64) (cp % 64) rest
                (omega (arith, h)) (omega arith) (omega arith) (omega arith)
              ∙ ap (λ n. some (n, 4)) (omega arith))
    ]
  ]
]

cut_back_le : (n : ℕ) (s : Bytes) → cut_back n s ≤ n
unfolding cut_back
cut_back_le zero s = omega arith
cut_back_le (suc n) s =
    elim (drop (suc n) s)
      as (λ d.
        (elim d as (λ _. ℕ) [ [] ↦ suc n | ◌∷◌ c _ ↦ if continues c then cut_back n s else suc n ])
        ≤ suc n) [ [] ↦ omega arith | c ∷ _ ↦ ground (arith, cut_back_le n s) ]

-- What `utf8TruncateBytes` leaves is never longer than asked.
pub utf8_truncate_bytes_le :
    (s : Bytes) (max_bytes : ℕ) → length (utf8_truncate_bytes s max_bytes) ≤ max_bytes
unfolding utf8_truncate_bytes
utf8_truncate_bytes_le s max_bytes =
    ground (arith, length-take (cut_back max_bytes s) s, cut_back_le max_bytes s)
