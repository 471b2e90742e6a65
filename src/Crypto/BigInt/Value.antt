-- ===== src/Crypto/BigInt/Value.antt =====
-- The numbers that the words of BigInt stand for, and the operations on them.
use telegram_disk.Base.{
  ℕ, ◌+◌, ◌*◌, ◌/◌, ◌%◌, ◌≤◌, ◌<◌, ◌≡◌, refl, ap, inl, inr, Bool-cases, ◌&&◌, [], ◌∷◌, All, length,
  length-zero, ltb, ◌==◌, ==→eq, arith,
}
use telegram_disk.Crypto.BigInt.{
  word, u64, BigInt, trim, Sign, less, same, greater, compare_word, compare_words, or_lower,
  compare, add_loop, add, sub_loop, sub,
}

abbrev pub value : BigInt → ℕ
value [] = 0
value (w ∷ ws) = w + 4294967296 * value ws

abbrev pub AreWords : BigInt → Type 0
AreWords ws = All (λ w. w < 4294967296) ws

value-trim : (ws : BigInt) → value (trim ws) ≡ value ws
unfolding trim
value-trim [] = refl
value-trim (w ∷ ws) = elim (Bool-cases (w == 0 && length (trim ws) == 0)) [
  | inl c ↦
      let zero_word : w ≡ 0 = ground (arith, c) in
      let none_left : length (trim ws) ≡ 0 = ground (arith, c) in
      rw c (omega (arith, zero_word, value-trim ws, ap value (length-zero (trim ws) none_left)))
  | inr c ↦ rw c (omega (arith, value-trim ws))
]

value-add_loop :
    (carry : ℕ) (a b : BigInt)
    → carry ≤ 1
    → AreWords a
    → AreWords b
    → value (add_loop carry a b) ≡ carry + value a + value b
unfolding add_loop
value-add_loop carry [] [] c h k = omega arith
value-add_loop carry [] (y ∷ ys) c h (k, ks) =
    omega (arith, c, k, value-add_loop ((carry + y) % u64 / word) [] ys (omega (arith, c, k)) tt ks)
value-add_loop carry (x ∷ xs) [] c (h, hs) k =
    omega (arith, c, h, value-add_loop ((carry + x) % u64 / word) xs [] (omega (arith, c, h)) hs tt)
value-add_loop carry (x ∷ xs) (y ∷ ys) c (h, hs) (k, ks) = omega (
  arith,
  c,
  h,
  k,
  value-add_loop ((carry + x + y) % u64 / word) xs ys (omega (arith, c, h, k)) hs ks,
)

-- `add` adds: on words of 32 bits its result stands for the sum, and no carry of its 64-bit sums is lost.
pub value-add : (a b : BigInt) → AreWords a → AreWords b → value (add a b) ≡ value a + value b
unfolding add
value-add a b h k =
    omega (arith, value-trim (add_loop 0 a b), value-add_loop 0 a b (omega arith) h k)

value-sub_loop :
    (borrow : ℕ) (a b : BigInt)
    → borrow ≤ 1
    → AreWords a
    → AreWords b
    → value b + borrow ≤ value a
    → value (sub_loop borrow a b) + value b + borrow ≡ value a
unfolding sub_loop
value-sub_loop borrow [] b c h k l = omega arith
value-sub_loop borrow (x ∷ xs) [] c (h, hs) k l = elim (Bool-cases (ltb x borrow)) [
  | inl t ↦
      let lt : x < borrow = ground (arith, t) in
      rw t (
        omega (
          arith,
          lt,
          h,
          c,
          l,
          value-sub_loop 1 xs [] (omega arith) hs tt (omega (arith, lt, c, l)),
        ))
  | inr t ↦
      let le : borrow ≤ x = ground (arith, t) in
      rw t (omega (arith, le, h, c, l, value-sub_loop 0 xs [] (omega arith) hs tt (omega arith)))
]
value-sub_loop borrow (x ∷ xs) (y ∷ ys) c (h, hs) (k, ks) l =
    elim (Bool-cases (ltb x (y + borrow))) [
      | inl t ↦
          let lt : x < y + borrow = ground (arith, t) in
          rw t (
            omega (
              arith,
              lt,
              h,
              k,
              c,
              l,
              value-sub_loop 1 xs ys (omega arith) hs ks (omega (arith, lt, h, k, c, l)),
            ))
      | inr t ↦
          let le : y + borrow ≤ x = ground (arith, t) in
          rw t (
            omega (
              arith,
              le,
              h,
              k,
              c,
              l,
              value-sub_loop 0 xs ys (omega arith) hs ks (omega (arith, le, h, k, c, l)),
            ))
    ]

-- On words of 32 bits `sub` subtracts: if b ≤ a, its result and b add up to a.
pub value-sub :
    (a b : BigInt)
    → AreWords a
    → AreWords b
    → value b ≤ value a
    → value (sub a b) + value b ≡ value a
unfolding sub
value-sub a b h k l =
    omega (
      arith,
      value-trim (sub_loop 0 a b),
      value-sub_loop 0 a b (omega arith) h k (omega (arith, l)),
    )

-- No zero word on top: what `trim` leaves.
abbrev pub IsTrimmed : BigInt → Type 0
IsTrimmed [] = 0 ≤ 0
IsTrimmed (w ∷ []) = 0 < w
IsTrimmed (w ∷ (v ∷ vs)) = IsTrimmed (v ∷ vs)

IsTrimmed-tail : (w : ℕ) (ws : BigInt) → IsTrimmed (w ∷ ws) → IsTrimmed ws
IsTrimmed-tail w [] h = omega arith
IsTrimmed-tail w (v ∷ vs) h = h

IsTrimmed-value : (w : ℕ) (ws : BigInt) → IsTrimmed (w ∷ ws) → 0 < value (w ∷ ws)
IsTrimmed-value w [] h = omega arith
IsTrimmed-value w (v ∷ vs) h = omega (arith, IsTrimmed-value v vs h)

shorter_less : (a b : BigInt) → AreWords a → IsTrimmed b → length a < length b → value a < value b
shorter_less a [] h t l = absurd (omega arith)
shorter_less [] (y ∷ ys) h t l = IsTrimmed-value y ys t
shorter_less (x ∷ xs) (y ∷ ys) (h, hs) t l =
    omega (arith, h, shorter_less xs ys hs (IsTrimmed-tail y ys t) (omega arith))

-- What a sign says of two numbers.
abbrev pub Says : Sign → ℕ → ℕ → Type 0
Says less m n = m < n
Says same m n = m ≡ n
Says greater m n = n < m

or_lower-Says :
    (s : Sign) (x y m n : ℕ)
    → x < 4294967296
    → y < 4294967296
    → Says s m n
    → Says (or_lower s (compare_word x y)) (x + 4294967296 * m) (y + 4294967296 * n)
unfolding compare_word
or_lower-Says less x y m n h k l = omega (arith, l)
or_lower-Says greater x y m n h k l = omega (arith, l)
or_lower-Says same x y m n h k l = elim (Bool-cases (x == y)) [
  | inl c ↦ rw c (omega (arith, ==→eq x y c, l))
  | inr c ↦ elim (Bool-cases (ltb x y)) [
    | inl d ↦ let lt : x < y = ground (arith, d) in rw (c, d) (omega (arith, lt, l))
    | inr d ↦ let lt : y < x = ground (arith, c, d) in rw (c, d) (omega (arith, lt, l))
  ]
]

compare_words-Says :
    (a b : BigInt)
    → AreWords a
    → AreWords b
    → length a ≡ length b
    → Says (compare_words a b) (value a) (value b)
unfolding compare_words
compare_words-Says [] [] h k l = refl
compare_words-Says [] (y ∷ ys) h k l = absurd (omega arith)
compare_words-Says (x ∷ xs) [] h k l = absurd (omega arith)
compare_words-Says (x ∷ xs) (y ∷ ys) (h, hs) (k, ks) l =
    or_lower-Says (compare_words xs ys) x y (value xs) (value ys) h k
      (compare_words-Says xs ys hs ks (omega arith))

-- On words of 32 bits without a zero word on top, `compare` orders as the numbers that they stand
-- for.
pub compare-Says :
    (a b : BigInt)
    → AreWords a
    → AreWords b
    → IsTrimmed a
    → IsTrimmed b
    → Says (compare a b) (value a) (value b)
unfolding compare
compare-Says a b h k s t = elim (Bool-cases (length a == length b)) [
  | inl c ↦ rw c (compare_words-Says a b h k (==→eq _ _ c))
  | inr c ↦ elim (Bool-cases (ltb (length a) (length b))) [
    | inl d ↦ rw (c, d) (shorter_less a b h t (ground (arith, d)))
    | inr d ↦ rw (c, d) (shorter_less b a k s (ground (arith, c, d)))
  ]
]
