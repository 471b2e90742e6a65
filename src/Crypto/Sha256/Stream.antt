-- ===== src/Crypto/Sha256/Stream.antt =====
-- `update` of Sha256 on a stream that comes in parts.
use telegram_disk.Base.{
  ℕ, zero, suc, ◌+◌, ◌-◌, ◌*◌, ◌%◌, ◌^◌, ◌≤◌, ◌<◌, min, ◌≡◌, refl, sym, ap, ◌∙◌, [], ◌∷◌, ◌++◌,
  length, length-append, length-take, length-drop, take, drop, take-append-drop, append_assoc,
  arith,
}
use telegram_disk.Base.Bits.{Bytes}
use telegram_disk.Crypto.Sha256.{Sha256, reset, absorb, update_loop, update}

-- The reference: one byte at a time.
absorb_each : Sha256 → Bytes → Sha256
absorb_each s [] = s
absorb_each s (x ∷ xs) = absorb_each (absorb s (x ∷ [])) xs

-- What holds between two calls: the buffer is not full.
abbrev pub IsOpen : Sha256 → Type 0
IsOpen s = length s.buffer < 64

absorb-IsOpen :
    (s : Sha256) (part : Bytes) → length s.buffer + length part ≤ 64 → IsOpen (absorb s part)
unfolding absorb
absorb-IsOpen s part h = ground (arith, length-append s.buffer part)

absorb_one :
    (s : Sha256) (x : ℕ)
    → length s.buffer < 63
    → absorb s (x ∷ []) ≡ record s { buffer = s.buffer ++ (x ∷ []) }
unfolding absorb
absorb_one s x h = ground (arith, length-append s.buffer (x ∷ []))

absorb_each-append :
    (s : Sha256) (xs ys : Bytes) → absorb_each s (xs ++ ys) ≡ absorb_each (absorb_each s xs) ys
unfolding absorb_each
absorb_each-append s [] ys = refl
absorb_each-append s (x ∷ xs) ys = absorb_each-append (absorb s (x ∷ [])) xs ys

absorb-append :
    (s : Sha256) (x : ℕ) (xs : Bytes)
    → absorb (record s { buffer = s.buffer ++ (x ∷ []) }) xs ≡ absorb s (x ∷ xs)
unfolding absorb
absorb-append s x xs = rw (append_assoc s.buffer (x ∷ []) xs)

-- A part that fits into the buffer is the same as its bytes in turn.
absorb_each-absorb :
    (s : Sha256) (x : ℕ) (xs : Bytes)
    → length s.buffer + length (x ∷ xs) ≤ 64
    → absorb_each s (x ∷ xs) ≡ absorb s (x ∷ xs)
unfolding absorb_each
absorb_each-absorb s x [] h = refl
absorb_each-absorb s x (y ∷ ys) h = rw (absorb_one s x (omega arith)) (
    absorb_each-absorb (record s { buffer = s.buffer ++ (x ∷ []) }) y ys
      (omega (arith, length-append s.buffer (x ∷ [])))
    ∙ absorb-append s x (y ∷ ys))

absorb_each-take :
    (s : Sha256) (k : ℕ) (x : ℕ) (xs : Bytes)
    → 0 < k
    → length s.buffer + k ≤ 64
    → absorb_each s (take k (x ∷ xs)) ≡ absorb s (take k (x ∷ xs))
absorb_each-take s zero x xs p h = absurd (omega arith)
absorb_each-take s (suc k) x xs p h =
    absorb_each-absorb s x (take k xs) (omega (arith, length-take k xs))

update_loop-absorb_each :
    (fuel : ℕ) (s : Sha256) (bytes : Bytes)
    → IsOpen s
    → length bytes ≤ fuel
    → update_loop fuel s bytes ≡ absorb_each s bytes
unfolding update_loop
update_loop-absorb_each zero s [] o h = unfold absorb_each in refl
update_loop-absorb_each zero s (x ∷ xs) o h = absurd (omega arith)
update_loop-absorb_each (suc fuel) s [] o h = unfold absorb_each in refl
update_loop-absorb_each (suc fuel) s (x ∷ xs) o h =
    let k = min (64 - length s.buffer) (length (x ∷ xs)) in
    update_loop-absorb_each fuel (absorb s (take k (x ∷ xs))) (drop k (x ∷ xs))
      (absorb-IsOpen s (take k (x ∷ xs)) (omega (arith, length-take k (x ∷ xs))))
      (omega (arith, length-drop k (x ∷ xs)))
    ∙ ap (λ t. absorb_each t (drop k (x ∷ xs)))
        (sym (absorb_each-take s k x xs (omega arith) (omega arith)))
    ∙ sym (absorb_each-append s (take k (x ∷ xs)) (drop k (x ∷ xs)))
    ∙ ap (absorb_each s) (take-append-drop k (x ∷ xs))

absorb_each-IsOpen : (s : Sha256) (bytes : Bytes) → IsOpen s → IsOpen (absorb_each s bytes)
unfolding absorb_each
absorb_each-IsOpen s [] o = o
absorb_each-IsOpen s (x ∷ xs) o =
    absorb_each-IsOpen (absorb s (x ∷ [])) xs (absorb-IsOpen s (x ∷ []) (omega arith))

add_bits : Sha256 → Bytes → Sha256
add_bits s bytes = record s { bit_count = (s.bit_count + length bytes * 8 % 2 ^ 64) % 2 ^ 64 }

update-absorb_each :
    (s : Sha256) (bytes : Bytes) → IsOpen s → update s bytes ≡ absorb_each (add_bits s bytes) bytes
unfolding update add_bits
update-absorb_each s bytes o = update_loop-absorb_each (length bytes) _ bytes o (omega arith)

-- The counter of bits does not take part in what the bytes do.
absorb-add_bits :
    (s : Sha256) (part bytes : Bytes)
    → absorb (add_bits s bytes) part ≡ add_bits (absorb s part) bytes
unfolding absorb add_bits
absorb-add_bits s part bytes = ground arith

absorb_each-add_bits :
    (s : Sha256) (part bytes : Bytes)
    → absorb_each (add_bits s bytes) part ≡ add_bits (absorb_each s part) bytes
unfolding absorb_each
absorb_each-add_bits s [] bytes = refl
absorb_each-add_bits s (x ∷ xs) bytes =
    rw (absorb-add_bits s (x ∷ []) bytes) (absorb_each-add_bits (absorb s (x ∷ [])) xs bytes)

add_bits-append : (s : Sha256) (xs ys : Bytes) → add_bits (add_bits s xs) ys ≡ add_bits s (xs ++ ys)
unfolding add_bits
add_bits-append s xs ys = ground (arith, length-append xs ys)

pub update-IsOpen : (s : Sha256) (bytes : Bytes) → IsOpen s → IsOpen (update s bytes)
unfolding add_bits
update-IsOpen s bytes o =
    rw (update-absorb_each s bytes o) (absorb_each-IsOpen (add_bits s bytes) bytes o)

pub reset-IsOpen : IsOpen reset
unfolding reset
reset-IsOpen = omega arith

-- Hashing a stream in two calls of `update` leaves the hasher as one call on the whole does:
-- state words, bit counter and held-back bytes, for every hasher whose buffer is not full.
pub update-append :
    (s : Sha256) (xs ys : Bytes) → IsOpen s → update (update s xs) ys ≡ update s (xs ++ ys)
unfolding add_bits
update-append s xs ys o =
    update-absorb_each (update s xs) ys (update-IsOpen s xs o)
    ∙ absorb_each-add_bits (update s xs) ys ys
    ∙ ap (λ t. add_bits (absorb_each t ys) ys)
        (update-absorb_each s xs o ∙ absorb_each-add_bits s xs xs)
    ∙ ap (λ t. add_bits t ys) (absorb_each-add_bits (absorb_each s xs) ys xs)
    ∙ add_bits-append (absorb_each (absorb_each s xs) ys) xs ys
    ∙ ap (λ t. add_bits t (xs ++ ys)) (sym (absorb_each-append s xs ys))
    ∙ sym (absorb_each-add_bits s (xs ++ ys) (xs ++ ys))
    ∙ sym (update-absorb_each s (xs ++ ys) o)

pub update-nil : update reset [] ≡ reset
unfolding update reset
update-nil = refl
