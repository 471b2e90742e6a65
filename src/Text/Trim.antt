-- ===== src/Text/Trim.antt =====
-- `trim`, `startsWith`, `endsWith` and `iequals` of src/common/strutil.cpp.
use telegram_disk.Base.{
  ℕ, ◌-◌, ◌≤◌, ◌≡◌, refl, ap, ◌∙◌, Bool, true, false, ◌&&◌, ◌||◌, [], ◌∷◌, length, take, drop, leb,
  ◌==◌, if◌then◌else◌, arith,
}
use telegram_disk.Base.Bits.{Bytes}
use telegram_disk.Text.Ascii.{lower_ascii}

unfoldable pub is_blank : ℕ → Bool
is_blank c = c == 32 || c == 9 || c == 13 || c == 10

-- The loop over `b`.
unfoldable pub drop_blank : Bytes → Bytes
drop_blank [] = []
drop_blank (c ∷ cs) = let rest = drop_blank cs in if is_blank c then rest else c ∷ cs

-- The loop over `e`: blanks go as long as nothing else stands behind them.
unfoldable pub drop_blank_end : Bytes → Bytes
drop_blank_end [] = []
drop_blank_end (c ∷ cs) =
    let rest = drop_blank_end cs in if is_blank c && length rest == 0 then [] else c ∷ rest

unfoldable pub trim : Bytes → Bytes
unfolding drop_blank drop_blank_end is_blank
trim s = drop_blank_end (drop_blank s)

unfoldable pub equal_bytes : Bytes → Bytes → Bool
equal_bytes [] [] = true
equal_bytes [] (y ∷ ys) = false
equal_bytes (x ∷ xs) [] = false
equal_bytes (x ∷ xs) (y ∷ ys) = x == y && equal_bytes xs ys

pub equal_bytes→eq : (xs ys : Bytes) → equal_bytes xs ys ≡ true → xs ≡ ys
unfolding equal_bytes
equal_bytes→eq [] [] h = refl
equal_bytes→eq [] (y ∷ ys) h = absurd (ground (arith, h))
equal_bytes→eq (x ∷ xs) [] h = absurd (ground (arith, h))
equal_bytes→eq (x ∷ xs) (y ∷ ys) h =
    let tail : equal_bytes xs ys ≡ true = ground (arith, h) in
    let head : x ≡ y = ground (arith, h) in
    ap (λ a. a ∷ xs) head ∙ ap (λ t. y ∷ t) (equal_bytes→eq xs ys tail)

pub equal_bytes_refl : (xs : Bytes) → equal_bytes xs xs ≡ true
unfolding equal_bytes
equal_bytes_refl [] = refl
equal_bytes_refl (x ∷ xs) = ground (arith, equal_bytes_refl xs)

unfoldable pub starts_with : Bytes → Bytes → Bool
unfolding equal_bytes
starts_with s prefix = leb (length prefix) (length s) && equal_bytes (take (length prefix) s) prefix

unfoldable pub ends_with : Bytes → Bytes → Bool
unfolding equal_bytes
ends_with s suffix =
    leb (length suffix) (length s) && equal_bytes (drop (length s - length suffix) s) suffix

unfoldable pub iequals : Bytes → Bytes → Bool
iequals [] [] = true
iequals [] (y ∷ ys) = false
iequals (x ∷ xs) [] = false
iequals (x ∷ xs) (y ∷ ys) = lower_ascii x == lower_ascii y && iequals xs ys

drop_blank_idem : (s : Bytes) → drop_blank (drop_blank s) ≡ drop_blank s
unfolding drop_blank
drop_blank_idem [] = refl
drop_blank_idem (c ∷ cs) = ground (arith, drop_blank_idem cs)

drop_blank_end_idem : (s : Bytes) → drop_blank_end (drop_blank_end s) ≡ drop_blank_end s
unfolding drop_blank_end
drop_blank_end_idem [] = refl
drop_blank_end_idem (c ∷ cs) = ground (arith, drop_blank_end_idem cs)

length-drop_blank : (s : Bytes) → length (drop_blank s) ≤ length s
unfolding drop_blank
length-drop_blank [] = omega arith
length-drop_blank (c ∷ cs) = ground (arith, length-drop_blank cs)

drop_blank-drop_blank_end :
    (s : Bytes) → drop_blank s ≡ s → drop_blank (drop_blank_end s) ≡ drop_blank_end s
unfolding drop_blank_end drop_blank
drop_blank-drop_blank_end [] h = refl
drop_blank-drop_blank_end (c ∷ cs) h = ground (arith, length-drop_blank cs, ap length h)

-- Trimming twice is trimming once.
pub trim_idem : (s : Bytes) → trim (trim s) ≡ trim s
unfolding trim
trim_idem s =
    ap drop_blank_end (drop_blank-drop_blank_end (drop_blank s) (drop_blank_idem s))
    ∙ drop_blank_end_idem (drop_blank s)
