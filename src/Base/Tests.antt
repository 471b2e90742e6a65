-- ===== src/Base/Tests.antt =====
-- Tests on numbers as `Bool`, the conditional, and case lemmas that keep the equation.
use Prim.Native.Nat.{ℕ, ◌≤◌, ◌<◌, compare, Ordering}
use mathlib.Core.Path.{◌≡◌, refl}
use mathlib.Core.Logic.{◌⊎◌, inl, inr}
use mathlib.Core.Bool.{Bool, true, false}
use mathlib.Core.Option.{Option, none, some}
use native.Mathlib.Omega.{arith}

infix 50 ◌==◌
infix 1 if◌then◌else◌
abbrev pub ◌==◌ : ℕ → ℕ → Bool
m == n = elim (compare m n) [ Ordering.eq ↦ true | _ ↦ false ]

abbrev pub ltb : ℕ → ℕ → Bool
ltb m n = elim (compare m n) [ Ordering.lt ↦ true | _ ↦ false ]

abbrev pub leb : ℕ → ℕ → Bool
leb m n = elim (compare m n) [ Ordering.gt ↦ false | _ ↦ true ]

abbrev pub if◌then◌else◌ {ℓ} : {A : Type ℓ} → Bool → A → A → A
if true then t else e = t
if false then t else e = e

pub Bool-cases : (b : Bool) → (b ≡ true) ⊎ (b ≡ false)
Bool-cases true = inl refl
Bool-cases false = inr refl

pub Option-cases {ℓ} : {A : Type ℓ} (o : Option A) → (o ≡ none) ⊎ ((a : A) × (o ≡ some a))
Option-cases none = inl refl
Option-cases (some a) = inr (a, refl)

pub eq→== : (m n : ℕ) → m ≡ n → (m == n) ≡ true
eq→== m n h = ground arith

pub ==→eq : (m n : ℕ) → (m == n) ≡ true → m ≡ n
==→eq m n h = ground arith

pub lt→ltb : (m n : ℕ) → m < n → ltb m n ≡ true
lt→ltb m n h = ground arith

pub le→ltb : (m n : ℕ) → n ≤ m → ltb m n ≡ false
le→ltb m n h = ground arith

pub ltb→lt : (m n : ℕ) → ltb m n ≡ true → m < n
ltb→lt m n h = ground arith

pub ltb→le : (m n : ℕ) → ltb m n ≡ false → n ≤ m
ltb→le m n h = ground arith

pub leb→le : (m n : ℕ) → leb m n ≡ true → m ≤ n
leb→le m n h = ground arith

pub leb→lt : (m n : ℕ) → leb m n ≡ false → n < m
leb→lt m n h = ground arith

pub le→leb : (m n : ℕ) → m ≤ n → leb m n ≡ true
le→leb m n h = ground arith

pub lt→leb : (m n : ℕ) → n < m → leb m n ≡ false
lt→leb m n h = ground arith
