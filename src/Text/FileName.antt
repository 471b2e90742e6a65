-- ===== src/Text/FileName.antt =====
-- `sanitizeFileName` of src/common/strutil.cpp.
use telegram_disk.Base.{
  ℕ, ◌≤◌, ◌≡◌, Bool, false, ◌||◌, ◌&&◌, Bool-cases, inl, inr, [], ◌∷◌, All, All-take, length, ltb,
  leb, ◌==◌, if◌then◌else◌, arith,
}
use telegram_disk.Base.Bits.{Bytes}
use telegram_disk.Text.Ascii.{codes}
use telegram_disk.Text.Trim.{trim, drop_blank, drop_blank_end, is_blank}
use telegram_disk.Text.Utf8.{utf8_truncate_bytes, utf8_truncate_bytes_le, cut_back}

-- The cases of the `switch`: `/ \ : * ? " < > |`.
unfoldable pub is_reserved : ℕ → Bool
is_reserved c =
    c == 47
    || (c == 92
        || (c == 58 || (c == 42 || (c == 63 || (c == 34 || (c == 60 || (c == 62 || c == 124)))))))

-- The loop over the bytes.
unfoldable pub replace_reserved : Bytes → Bytes
unfolding is_reserved
replace_reserved [] = []
replace_reserved (c ∷ cs) =
    let out = replace_reserved cs in
    if ltb c 32 then out else if is_reserved c then 95 ∷ out else c ∷ out

-- `pop_back` as long as a dot stands at the end.
unfoldable pub drop_dots_end : Bytes → Bytes
drop_dots_end [] = []
drop_dots_end (c ∷ cs) =
    let rest = drop_dots_end cs in if c == 46 && length rest == 0 then [] else c ∷ rest

unfoldable pub or_unnamed : Bytes → Bytes
or_unnamed [] = codes "khong-ten"
or_unnamed (c ∷ cs) = c ∷ cs

unfoldable pub sanitize_file_name : Bytes → Bytes
unfolding replace_reserved drop_dots_end or_unnamed trim utf8_truncate_bytes
sanitize_file_name name =
    utf8_truncate_bytes (or_unnamed (drop_dots_end (trim (replace_reserved name)))) 240

-- No byte below 32, and none that is reserved. The source takes only these for control characters: 127 stays.
abbrev pub IsClean : ℕ → Type 0
IsClean c =
    (32 ≤ c) × All (λ r. (c == r) ≡ false) (47 ∷ 92 ∷ 58 ∷ 42 ∷ 63 ∷ 34 ∷ 60 ∷ 62 ∷ 124 ∷ [])

free-IsClean : (c : ℕ) → ltb c 32 ≡ false → is_reserved c ≡ false → IsClean c
unfolding is_reserved
free-IsClean c l h = ground (arith, l, h)

replace_reserved-IsClean : (s : Bytes) → All IsClean (replace_reserved s)
unfolding replace_reserved
replace_reserved-IsClean [] = tt
replace_reserved-IsClean (c ∷ cs) = elim (Bool-cases (ltb c 32)) [
  | inl e ↦ rw e (replace_reserved-IsClean cs)
  | inr e ↦ elim (Bool-cases (is_reserved c)) [
    | inl r ↦ rw (e, r) (ground arith, replace_reserved-IsClean cs)
    | inr r ↦ rw (e, r) (free-IsClean c e r, replace_reserved-IsClean cs)
  ]
]

drop_blank-IsClean : (s : Bytes) → All IsClean s → All IsClean (drop_blank s)
unfolding drop_blank
drop_blank-IsClean [] h = tt
drop_blank-IsClean (c ∷ cs) (h, hs) = elim (Bool-cases (is_blank c)) [
  | inl e ↦ rw e (drop_blank-IsClean cs hs)
  | inr e ↦ rw e (h, hs)
]

drop_blank_end-IsClean : (s : Bytes) → All IsClean s → All IsClean (drop_blank_end s)
unfolding drop_blank_end
drop_blank_end-IsClean [] h = tt
drop_blank_end-IsClean (c ∷ cs) (h, hs) =
    elim (Bool-cases (is_blank c && length (drop_blank_end cs) == 0)) [
      | inl e ↦ rw e tt
      | inr e ↦ rw e (h, drop_blank_end-IsClean cs hs)
    ]

drop_dots_end-IsClean : (s : Bytes) → All IsClean s → All IsClean (drop_dots_end s)
unfolding drop_dots_end
drop_dots_end-IsClean [] h = tt
drop_dots_end-IsClean (c ∷ cs) (h, hs) =
    elim (Bool-cases (c == 46 && length (drop_dots_end cs) == 0)) [
      | inl e ↦ rw e tt
      | inr e ↦ rw e (h, drop_dots_end-IsClean cs hs)
    ]

or_unnamed-IsClean : (s : Bytes) → All IsClean s → All IsClean (or_unnamed s)
unfolding or_unnamed is_reserved
or_unnamed-IsClean [] h = ground arith
or_unnamed-IsClean (c ∷ cs) h = h

utf8_truncate_bytes-All :
    (P : ℕ → Type 0) (s : Bytes) (n : ℕ) → All P s → All P (utf8_truncate_bytes s n)
unfolding utf8_truncate_bytes
utf8_truncate_bytes-All P s n h = elim (Bool-cases (leb (length s) n)) [
  | inl e ↦ rw e h
  | inr e ↦ rw e (All-take P (cut_back n s) s h)
]

-- A sanitized name has at most 240 bytes, and each of them is 32 or more and none of the separators of
-- paths and the other characters that are reserved on Windows: / \ : * ? " < > |.
pub sanitize_file_name-IsClean :
    (name : Bytes)
    → All IsClean (sanitize_file_name name) × (length (sanitize_file_name name) ≤ 240)
unfolding sanitize_file_name
sanitize_file_name-IsClean name =
    let kept = replace_reserved name in
    let trimmed =
      drop_blank_end-IsClean (drop_blank kept)
        (drop_blank-IsClean kept (replace_reserved-IsClean name)) in
    let named = or_unnamed (drop_dots_end (trim kept)) in
    let clean =
      or_unnamed-IsClean (drop_dots_end (trim kept))
        (drop_dots_end-IsClean (trim kept) (unfold trim in trimmed)) in
    (utf8_truncate_bytes-All IsClean named 240 clean, utf8_truncate_bytes_le named 240)
