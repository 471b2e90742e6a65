-- ===== src/Crypto/BigInt.antt =====
-- The words of BigInt of src/crypto/bigint.cpp, the lowest first: `trim`, `compare`, `add`, `sub`
-- and division by one word.
pub mod Value
mod Tests
use telegram_disk.Base.{
  ℕ, zero, suc, ◌+◌, ◌-◌, ◌*◌, ◌/◌, ◌%◌, ◌≤◌, ◌<◌, ◌≡◌, Bool, true, false, ◌&&◌, ◌||◌, Option, none,
  some, List, [], ◌∷◌, ◌++◌, length, drop, ltb, leb, ◌==◌, if◌then◌else◌,
}

abbrev pub word : ℕ
word = 4294967296

abbrev pub u64 : ℕ
u64 = 18446744073709551616

abbrev pub BigInt : Type 0
BigInt = List ℕ

unfoldable pub trim : BigInt → BigInt
trim [] = []
trim (w ∷ ws) = let rest = trim ws in if w == 0 && length rest == 0 then [] else w ∷ rest

unfoldable pub from_uint64 : ℕ → BigInt
from_uint64 v = if v == 0 then [] else v % word ∷ (if v / word == 0 then [] else v / word ∷ [])

-- -1, 0 and 1 of the source.
pub data Sign : Type 0 where
  less same greater : Sign

unfoldable pub compare_word : ℕ → ℕ → Sign
compare_word x y = if x == y then same else if ltb x y then less else greater

-- The loop goes from the top word down, so a word counts only if all above it are equal.
abbrev pub or_lower : Sign → Sign → Sign
or_lower less s = less
or_lower same s = s
or_lower greater s = greater

unfoldable pub compare_words : BigInt → BigInt → Sign
unfolding compare_word
compare_words (x ∷ xs) (y ∷ ys) = or_lower (compare_words xs ys) (compare_word x y)
compare_words [] ys = same
compare_words (x ∷ xs) [] = same

unfoldable pub compare : BigInt → BigInt → Sign
unfolding compare_words
compare a b =
    if length a == length b
    then compare_words a b
    else if ltb (length a) (length b)
    then less
    else greater

unfoldable pub add_loop : ℕ → BigInt → BigInt → BigInt
add_loop carry [] [] = carry ∷ []
add_loop carry [] (y ∷ ys) = let s = (carry + y) % u64 in s % word ∷ add_loop (s / word) [] ys
add_loop carry (x ∷ xs) [] = let s = (carry + x) % u64 in s % word ∷ add_loop (s / word) xs []
add_loop carry (x ∷ xs) (y ∷ ys) =
    let s = (carry + x + y) % u64 in s % word ∷ add_loop (s / word) xs ys

unfoldable pub add : BigInt → BigInt → BigInt
unfolding add_loop trim
add a b = trim (add_loop 0 a b)

-- `d` is below 0 exactly if `need` is larger than the word of `a`.
unfoldable pub sub_loop : ℕ → BigInt → BigInt → BigInt
sub_loop borrow [] b = []
sub_loop borrow (x ∷ xs) [] =
    let short = sub_loop 1 xs [] in
    let enough = sub_loop 0 xs [] in
    if ltb x borrow then (x + word - borrow) ∷ short else (x - borrow) ∷ enough
sub_loop borrow (x ∷ xs) (y ∷ ys) =
    let need = y + borrow in
    let short = sub_loop 1 xs ys in
    let enough = sub_loop 0 xs ys in
    if ltb x need then (x + word - need) ∷ short else (x - need) ∷ enough

unfoldable pub sub : BigInt → BigInt → BigInt
unfolding sub_loop trim
sub a b = trim (sub_loop 0 a b)

-- The fast path of `divmod` for a divisor of one word: quotient and remainder, top word first.
unfoldable pub div_loop : ℕ → BigInt → BigInt × ℕ
div_loop d [] = ([], 0)
div_loop d (x ∷ xs) =
    let r = div_loop d xs in let cur = r.1 * word + x in (cur / d % word ∷ r.0, cur % d)

unfoldable pub divmod_word : BigInt → ℕ → BigInt × BigInt
unfolding div_loop trim
divmod_word a d = let r = div_loop d a in (trim r.0, if r.1 == 0 then [] else r.1 ∷ [])
