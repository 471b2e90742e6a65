-- ===== src/Base/Lists.antt =====
-- Lists under native numbers: size, slices, reads, predicates on every element.
use Prim.Native.Nat.{ℕ, zero, suc, ◌+◌, ◌-◌, ◌≤◌, min}
use mathlib.Core.Path.{◌≡◌, refl, sym, ap, ◌∙◌}
use mathlib.Core.List.{List, [], ◌∷◌, ◌++◌}
use mathlib.Core.Option.{Option, none, some}
use mathlib.Core.Logic.{◌⊎◌, inl, inr}
use native.Mathlib.Omega.{arith}

module _ {ℓ} {A : Type ℓ} where
  abbrev pub length : List A → ℕ
  length [] = 0
  length (x ∷ xs) = suc (length xs)

  abbrev pub take : ℕ → List A → List A
  take zero xs = []
  take (suc n) [] = []
  take (suc n) (x ∷ xs) = x ∷ take n xs

  abbrev pub drop : ℕ → List A → List A
  drop zero xs = xs
  drop (suc n) [] = []
  drop (suc n) (x ∷ xs) = drop n xs

  abbrev pub get_elem? : List A → ℕ → Option A
  get_elem? [] i = none
  get_elem? (x ∷ xs) zero = some x
  get_elem? (x ∷ xs) (suc i) = get_elem? xs i

  abbrev pub get_or : List A → ℕ → A → A
  get_or [] i d = d
  get_or (x ∷ xs) zero d = x
  get_or (x ∷ xs) (suc i) d = get_or xs i d

  abbrev pub replicate : ℕ → A → List A
  replicate zero a = []
  replicate (suc n) a = a ∷ replicate n a

  abbrev pub All {κ} : (A → Type κ) → List A → Type κ
  All P [] = Unit {κ}
  All P (x ∷ xs) = P x × All P xs

module _ {ℓ} {A : Type ℓ} where
  pub length-append : (xs ys : List A) → length (xs ++ ys) ≡ length xs + length ys
  length-append [] ys = omega arith
  length-append (x ∷ xs) ys = omega (arith, length-append xs ys)

  pub length-take : (n : ℕ) (xs : List A) → length (take n xs) ≡ min n (length xs)
  length-take zero xs = omega arith
  length-take (suc n) [] = omega arith
  length-take (suc n) (x ∷ xs) = omega (arith, length-take n xs)

  pub length-drop : (n : ℕ) (xs : List A) → length (drop n xs) ≡ length xs - n
  length-drop zero xs = omega arith
  length-drop (suc n) [] = omega arith
  length-drop (suc n) (x ∷ xs) = omega (arith, length-drop n xs)

  pub length-replicate : (n : ℕ) (a : A) → length (replicate n a) ≡ n
  length-replicate zero a = refl
  length-replicate (suc n) a = ap suc (length-replicate n a)

  pub take-append-drop : (n : ℕ) (xs : List A) → take n xs ++ drop n xs ≡ xs
  take-append-drop zero xs = refl
  take-append-drop (suc n) [] = refl
  take-append-drop (suc n) (x ∷ xs) = ap (◌∷◌ x) (take-append-drop n xs)

  -- A slice at the length of the front part gives the two parts back.
  pub take-append : (xs ys : List A) → take (length xs) (xs ++ ys) ≡ xs
  take-append [] ys = refl
  take-append (x ∷ xs) ys = ap (◌∷◌ x) (take-append xs ys)

  pub drop-append : (xs ys : List A) → drop (length xs) (xs ++ ys) ≡ ys
  drop-append [] ys = refl
  drop-append (x ∷ xs) ys = drop-append xs ys

  pub take_all : (n : ℕ) (xs : List A) → length xs ≤ n → take n xs ≡ xs
  take_all zero [] h = refl
  take_all zero (x ∷ xs) h = absurd (omega arith)
  take_all (suc n) [] h = refl
  take_all (suc n) (x ∷ xs) h = ap (◌∷◌ x) (take_all n xs (omega arith))

  pub drop_all : (n : ℕ) (xs : List A) → length xs ≤ n → drop n xs ≡ []
  drop_all zero [] h = refl
  drop_all zero (x ∷ xs) h = absurd (omega arith)
  drop_all (suc n) [] h = refl
  drop_all (suc n) (x ∷ xs) h = drop_all n xs (omega arith)

  pub drop-drop : (m n : ℕ) (xs : List A) → drop n (drop m xs) ≡ drop (m + n) xs
  drop-drop zero n xs = ap (λ k. drop k xs) (omega arith)
  drop-drop (suc m) zero [] = let e : suc m + 0 ≡ suc m = omega arith in ap (λ k. drop k []) (sym e)
  drop-drop (suc m) (suc n) [] =
      let e : suc m + suc n ≡ suc (m + suc n) = omega arith in ap (λ k. drop k []) (sym e)
  drop-drop (suc m) n (x ∷ xs) =
      let e : suc m + n ≡ suc (m + n) = omega arith in
      drop-drop m n xs ∙ ap (λ k. drop k (x ∷ xs)) (sym e)

  pub All-append {κ} : (P : A → Type κ) (xs ys : List A) → All P xs → All P ys → All P (xs ++ ys)
  All-append P [] ys p q = q
  All-append P (x ∷ xs) ys (h, p) q = (h, All-append P xs ys p q)

  pub All-take {κ} : (P : A → Type κ) (n : ℕ) (xs : List A) → All P xs → All P (take n xs)
  All-take P zero xs p = tt
  All-take P (suc n) [] p = tt
  All-take P (suc n) (x ∷ xs) (h, p) = (h, All-take P n xs p)

  pub All-drop {κ} : (P : A → Type κ) (n : ℕ) (xs : List A) → All P xs → All P (drop n xs)
  All-drop P zero xs p = p
  All-drop P (suc n) [] p = tt
  All-drop P (suc n) (x ∷ xs) (h, p) = All-drop P n xs p

  pub length-zero : (xs : List A) → length xs ≡ 0 → xs ≡ []
  length-zero [] h = refl
  length-zero (x ∷ xs) h = absurd (omega arith)

  -- A slice is a shorter slice and the slice behind it.
  pub take_split :
      (k m : ℕ) (xs : List A) → k ≤ m → take m xs ≡ take k xs ++ take (m - k) (drop k xs)
  take_split zero m xs h = ap (λ j. take j xs) (omega arith)
  take_split (suc k) zero xs h = absurd (omega arith)
  take_split (suc k) (suc m) [] h = sym (take_all (suc m - suc k) [] (omega arith))
  take_split (suc k) (suc m) (x ∷ xs) h =
      let e : suc m - suc k ≡ m - k = omega arith in
      rw e (ap (◌∷◌ x) (take_split k m xs (omega arith)))

  pub List-cases : (xs : List A) → (xs ≡ []) ⊎ ((y : A) × (ys : List A) × (xs ≡ y ∷ ys))
  List-cases [] = inl refl
  List-cases (y ∷ ys) = inr (y, ys, refl)
