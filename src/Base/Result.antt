-- ===== src/Base/Result.antt =====
-- `bool f(..., std::string& error)`: the value that was written, or the message.
use Prim.Native.String.{String}
use Prim.Native.Nat.{ℕ}
use mathlib.Core.Path.{◌≡◌, refl}
use mathlib.Core.Logic.{◌⊎◌, inl, inr}
use mathlib.Core.List.{List}

pub data Result {ℓ} (A : Type ℓ) : Type ℓ where
  ok : A → Result A
  err : String → Result A

infixl 5 ◌>>=◌
abbrev pub ◌>>=◌ {ℓ κ} : {A : Type ℓ} {B : Type κ} → Result A → (A → Result B) → Result B
ok a >>= f = f a
err e >>= f = err e

-- A function that also changes a state `S`, whether it succeeds or fails.
abbrev pub M : Type 0 → Type 0 → Type 0
M S A = S → Result A × S

-- What a `bool` function gives back when it succeeds.
abbrev pub Done : Type 0
Done = Unit {0}

-- A `SinkFn` of src/storage/chunk_buffer.h over what it changes, `S`.
abbrev pub SinkFn : Type 0 → Type 0
SinkFn S = List ℕ → M S Done

-- A step after one that may have failed; the state is kept either way.
abbrev pub and_then : {S A B : Type 0} → Result A × S → (A → M S B) → Result B × S
and_then (ok a, s) k = k a s
and_then (err e, s) k = (err e, s)

pub outcome :
    {S A : Type 0} (r : Result A × S)
    → ((a : A) × (s : S) × (r ≡ (ok a, s))) ⊎ ((e : String) × (s : S) × (r ≡ (err e, s)))
outcome (ok a, s) = inl (a, s, refl)
outcome (err e, s) = inr (e, s, refl)
