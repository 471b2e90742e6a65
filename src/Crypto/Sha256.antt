-- ===== src/Crypto/Sha256.antt =====
-- The class Sha256 of src/crypto/hash.cpp. `buffer_` with `bufferLen_` is the list of the bytes
-- that are held back; a word is a number below 2 ^ 32, and what wraps in C++ is taken `% 2 ^ 32`.
pub mod Stream
mod Tests
use Prim.Native.Nat.{bit_and, bit_xor}
use telegram_disk.Base.{
  ℕ, zero, suc, ◌+◌, ◌-◌, ◌*◌, ◌/◌, ◌%◌, ◌^◌, min, List, [], ◌∷◌, ◌++◌, length, take, drop, get_or,
  ◌==◌, if◌then◌else◌,
}
use telegram_disk.Base.Bits.{Bytes}

rotr32 : ℕ → ℕ → ℕ
rotr32 x n = (x / 2 ^ n + x * 2 ^ (32 - n) % 2 ^ 32) % 2 ^ 32

load32be : Bytes → ℕ
load32be p = get_or p 0 0 * 2 ^ 24 + get_or p 1 0 * 2 ^ 16 + get_or p 2 0 * 2 ^ 8 + get_or p 3 0

store32be : ℕ → Bytes
store32be v = v / 2 ^ 24 % 256 ∷ v / 2 ^ 16 % 256 ∷ v / 2 ^ 8 % 256 ∷ v % 256 ∷ []

store64be : ℕ → Bytes
unfolding store32be
store64be v = store32be (v / 2 ^ 32 % 2 ^ 32) ++ store32be (v % 2 ^ 32)

abbrev init_state : List ℕ
init_state =
    0x6a09e667 ∷ 0xbb67ae85 ∷ 0x3c6ef372 ∷ 0xa54ff53a ∷ 0x510e527f ∷ 0x9b05688c ∷ 0x1f83d9ab
    ∷ 0x5be0cd19 ∷ []

round_constants : List ℕ
round_constants =
    0x428a2f98 ∷ 0x71374491 ∷ 0xb5c0fbcf ∷ 0xe9b5dba5 ∷ 0x3956c25b ∷ 0x59f111f1 ∷ 0x923f82a4
    ∷ 0xab1c5ed5 ∷ 0xd807aa98 ∷ 0x12835b01 ∷ 0x243185be ∷ 0x550c7dc3 ∷ 0x72be5d74 ∷ 0x80deb1fe
    ∷ 0x9bdc06a7 ∷ 0xc19bf174 ∷ 0xe49b69c1 ∷ 0xefbe4786 ∷ 0x0fc19dc6 ∷ 0x240ca1cc ∷ 0x2de92c6f
    ∷ 0x4a7484aa ∷ 0x5cb0a9dc ∷ 0x76f988da ∷ 0x983e5152 ∷ 0xa831c66d ∷ 0xb00327c8 ∷ 0xbf597fc7
    ∷ 0xc6e00bf3 ∷ 0xd5a79147 ∷ 0x06ca6351 ∷ 0x14292967 ∷ 0x27b70a85 ∷ 0x2e1b2138 ∷ 0x4d2c6dfc
    ∷ 0x53380d13 ∷ 0x650a7354 ∷ 0x766a0abb ∷ 0x81c2c92e ∷ 0x92722c85 ∷ 0xa2bfe8a1 ∷ 0xa81a664b
    ∷ 0xc24b8b70 ∷ 0xc76c51a3 ∷ 0xd192e819 ∷ 0xd6990624 ∷ 0xf40e3585 ∷ 0x106aa070 ∷ 0x19a4c116
    ∷ 0x1e376c08 ∷ 0x2748774c ∷ 0x34b0bcb5 ∷ 0x391c0cb3 ∷ 0x4ed8aa4a ∷ 0x5b9cca4f ∷ 0x682e6ff3
    ∷ 0x748f82ee ∷ 0x78a5636f ∷ 0x84c87814 ∷ 0x8cc70208 ∷ 0x90befffa ∷ 0xa4506ceb ∷ 0xbef9a3f7
    ∷ 0xc67178f2 ∷ []

-- Words 16 to 63 of the message schedule, one for each round that is left.
extend : ℕ → ℕ → List ℕ → List ℕ
unfolding rotr32
extend zero i w = w
extend (suc rounds) i w =
    let x = get_or w (i - 15) 0 in
    let y = get_or w (i - 2) 0 in
    let s0 = bit_xor (bit_xor (rotr32 x 7) (rotr32 x 18)) (x / 2 ^ 3) in
    let s1 = bit_xor (bit_xor (rotr32 y 17) (rotr32 y 19)) (y / 2 ^ 10) in
    let next = (get_or w (i - 16) 0 + s0 + get_or w (i - 7) 0 + s1) % 2 ^ 32 in
    extend rounds (i + 1) (w ++ (next ∷ []))

load_words : ℕ → Bytes → List ℕ
unfolding load32be
load_words zero p = []
load_words (suc n) p = load32be p ∷ load_words n (drop 4 p)

record Vars : Type 0 where
  a : ℕ
  b : ℕ
  c : ℕ
  d : ℕ
  e : ℕ
  f : ℕ
  g : ℕ
  h : ℕ

round : ℕ → ℕ → Vars → Vars
unfolding rotr32
round k w v =
    let s1 = bit_xor (bit_xor (rotr32 v.e 6) (rotr32 v.e 11)) (rotr32 v.e 25) in
    let ch = bit_xor (bit_and v.e v.f) (bit_and (2 ^ 32 - 1 - v.e) v.g) in
    let t1 = (v.h + s1 + ch + k + w) % 2 ^ 32 in
    let s0 = bit_xor (bit_xor (rotr32 v.a 2) (rotr32 v.a 13)) (rotr32 v.a 22) in
    let maj = bit_xor (bit_xor (bit_and v.a v.b) (bit_and v.a v.c)) (bit_and v.b v.c) in
    let t2 = (s0 + maj) % 2 ^ 32 in
    record {
      a = (t1 + t2) % 2 ^ 32;
      b = v.a;
      c = v.b;
      d = v.c;
      e = (v.d + t1) % 2 ^ 32;
      f = v.e;
      g = v.f;
      h = v.g;
    }

rounds : List ℕ → List ℕ → Vars → Vars
unfolding round
rounds [] ws v = v
rounds (k ∷ ks) [] v = v
rounds (k ∷ ks) (w ∷ ws) v = rounds ks ws (round k w v)

process_block : List ℕ → Bytes → List ℕ
unfolding rounds load_words extend round_constants
process_block s p =
    let w = extend 48 16 (load_words 16 p) in
    let word = λ (i : ℕ). get_or s i 0 in
    let start : Vars = record {
      a = word 0;
      b = word 1;
      c = word 2;
      d = word 3;
      e = word 4;
      f = word 5;
      g = word 6;
      h = word 7;
    } in
    let v = rounds round_constants w start in
    (word 0 + v.a) % 2 ^ 32
    ∷ (word 1 + v.b) % 2 ^ 32
    ∷ (word 2 + v.c) % 2 ^ 32
    ∷ (word 3 + v.d) % 2 ^ 32
    ∷ (word 4 + v.e) % 2 ^ 32
    ∷ (word 5 + v.f) % 2 ^ 32
    ∷ (word 6 + v.g) % 2 ^ 32
    ∷ (word 7 + v.h) % 2 ^ 32
    ∷ []

pub record Sha256 : Type 0 where
  pub state : List ℕ
  pub bit_count : ℕ
  pub buffer : Bytes

pub reset : Sha256
reset = record { state = init_state; bit_count = 0; buffer = [] }

-- Bytes go to the end of the buffer; a full buffer is processed and emptied.
absorb : Sha256 → Bytes → Sha256
absorb s part =
    let buffer = s.buffer ++ part in
    if length buffer == 64
    then record s { state = process_block s.state buffer; buffer = [] }
    else record s { buffer = buffer }

-- The loop of `update`. A round takes a byte at least, so `length bytes` rounds are enough.
update_loop : ℕ → Sha256 → Bytes → Sha256
update_loop zero s bytes = s
update_loop (suc fuel) s [] = s
update_loop (suc fuel) s (x ∷ xs) =
    let k = min (64 - length s.buffer) (length (x ∷ xs)) in
    update_loop fuel (absorb s (take k (x ∷ xs))) (drop k (x ∷ xs))

pub update : Sha256 → Bytes → Sha256
unfolding absorb update_loop
update s bytes =
    update_loop (length bytes)
      (record s { bit_count = (s.bit_count + length bytes * 8 % 2 ^ 64) % 2 ^ 64 }) bytes

-- `while (bufferLen_ != 56) update(&zero, 1)`; at most 64 rounds from any buffer below 64 bytes.
pad_loop : ℕ → Sha256 → Sha256
pad_loop zero s = s
pad_loop (suc fuel) s =
    let rest = pad_loop fuel (update s (0 ∷ [])) in if length s.buffer == 56 then s else rest

store_words : List ℕ → Bytes
unfolding store32be
store_words [] = []
store_words (w ∷ ws) = store32be w ++ store_words ws

pub finish : Sha256 → Bytes
unfolding store64be store_words pad_loop process_block update reset
finish s =
    let padded = pad_loop 64 (update s (0x80 ∷ [])) in
    store_words (process_block padded.state (take 56 padded.buffer ++ store64be s.bit_count))

pub hash : Bytes → Bytes
unfolding reset update finish
hash bytes = finish (update reset bytes)
