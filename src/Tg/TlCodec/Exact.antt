-- ===== src/Tg/TlCodec/Exact.antt =====
-- What `TlWriter` has written, `TlReader` reads back.
use telegram_disk.Base.{
  ℕ, zero, suc, ◌+◌, ◌-◌, ◌*◌, ◌/◌, ◌%◌, ◌^◌, ◌<◌, ◌≡◌, refl, sym, ap, ◌∙◌, true, false, Bool-cases,
  inl, inr, some, [], ◌∷◌, ◌++◌, append_assoc, length, take, drop, get_or, length-append,
  length-drop, take-append, drop-append, drop-drop, ltb, leb, ◌==◌, arith,
}
use telegram_disk.Base.Bits.{Bytes, IsU32, IsU64}
use telegram_disk.Tg.TlCodec.{
  write_uint, word_bytes, write_long, length_prefix, padding, write_bytes, TlReader, remaining,
  byte_at, read_uint, word_at, read_long, skip_padding, read_content, read_long_length, read_bytes,
}

-- What is still to be read is `xs`.
abbrev pub Ahead : TlReader → Bytes → Type 0
Ahead r xs = drop r.pos r.bytes ≡ xs

get_or-drop : (pos i : ℕ) (bytes : Bytes) → get_or bytes (pos + i) 0 ≡ get_or (drop pos bytes) i 0
get_or-drop zero i bytes = ap (λ k. get_or bytes k 0) (omega arith)
get_or-drop (suc pos) i [] = refl
get_or-drop (suc pos) i (x ∷ xs) =
    let e : suc pos + i ≡ suc (pos + i) = omega arith in
    ap (λ k. get_or (x ∷ xs) k 0) e ∙ get_or-drop pos i xs

byte_at-Ahead : (r : TlReader) (i : ℕ) (xs : Bytes) → Ahead r xs → byte_at r i ≡ get_or xs i 0
unfolding byte_at
byte_at-Ahead r i xs h = get_or-drop r.pos i r.bytes ∙ ap (λ l. get_or l i 0) h

-- Behind `n` bytes.
Ahead-drop : (pos n : ℕ) (bytes xs : Bytes) → drop pos bytes ≡ xs → drop (pos + n) bytes ≡ drop n xs
Ahead-drop pos n bytes xs h = sym (drop-drop pos n bytes) ∙ ap (drop n) h

Ahead-room : (r : TlReader) (xs : Bytes) → Ahead r xs → remaining r ≡ length xs
Ahead-room r xs h = let n = length-drop r.pos r.bytes in ground (arith, n, ap length h)

-- The numbers of `n` bytes.
abbrev span : ℕ → ℕ
span zero = 1
span (suc n) = 256 * span n

word_at-word_bytes :
    (n v : ℕ) (bytes : Bytes) (pos : ℕ) (rest : Bytes)
    → v < span n
    → drop pos bytes ≡ word_bytes n v ++ rest
    → (word_at n bytes pos ≡ v) × (drop (pos + n) bytes ≡ rest)
unfolding word_at word_bytes
word_at-word_bytes zero v bytes pos rest l h =
    (omega arith, ap (λ p. drop p bytes) (omega arith) ∙ h)
word_at-word_bytes (suc n) v bytes pos rest l h =
    let a : get_or bytes pos 0 ≡ v % 256 =
      ap (λ k. get_or bytes k 0) (omega arith)
      ∙ get_or-drop pos 0 bytes
      ∙ ap (λ xs. get_or xs 0 0) h in
    let (c, d) =
      word_at-word_bytes n (v / 256) bytes (pos + 1) rest (omega (arith, l))
        (Ahead-drop pos 1 bytes _ h) in
    (omega (arith, a, c), ap (λ p. drop p bytes) (omega arith) ∙ d)

pub read_long-write_long :
    (v : ℕ) (r : TlReader) (rest : Bytes)
    → IsU64 v
    → Ahead r (write_long v [] ++ rest)
    → let s : TlReader = record r { pos = r.pos + 8 } in (read_long r ≡ (some v, s)) × Ahead s rest
unfolding read_long write_long
read_long-write_long v r rest l h =
    let (a, b) = word_at-word_bytes 8 v r.bytes r.pos rest l h in
    let room : ltb (remaining r) 8 ≡ false = ground (arith, Ahead-room r _ h) in
    (rw (room, a) refl, b)

-- Four bytes, one by one.
pub read_uint-write_uint :
    (v : ℕ) (r : TlReader) (rest : Bytes)
    → IsU32 v
    → Ahead r (write_uint v [] ++ rest)
    → let s : TlReader = record r { pos = r.pos + 4 } in (read_uint r ≡ (some v, s)) × Ahead s rest
unfolding read_uint write_uint
read_uint-write_uint v r rest l h =
    let room : ltb (remaining r) 4 ≡ false = ground (arith, Ahead-room r _ h) in
    let sum : byte_at r 0 + byte_at r 1 * 256 + byte_at r 2 * 65536 + byte_at r 3 * 16777216 ≡ v =
      omega (
        arith,
        l,
        byte_at-Ahead r 0 _ h,
        byte_at-Ahead r 1 _ h,
        byte_at-Ahead r 2 _ h,
        byte_at-Ahead r 3 _ h,
      ) in
    (rw (room, sum) refl, Ahead-drop r.pos 4 r.bytes _ h)

skip_padding-padding :
    (fuel written start : ℕ) (r : TlReader) (rest : Bytes)
    → r.pos ≡ start + written
    → Ahead r (padding fuel written ++ rest)
    → (p : ℕ) × (skip_padding fuel start r ≡ record r { pos = p }) × (drop p r.bytes ≡ rest)
unfolding skip_padding padding
skip_padding-padding zero written start r rest e h = (r.pos, refl, h)
skip_padding-padding (suc fuel) written start r rest e h =
    let here : ((r.pos - start) % 4 == 0) ≡ (written % 4 == 0) =
      ap (λ n. n % 4 == 0) (omega (arith, e)) in
    elim (Bool-cases (written % 4 == 0)) [
      | inl c ↦ (r.pos, rw (here ∙ c) refl, rw c at h)
      | inr c ↦
          let h' = rw c at h in
          let inside : leb (length r.bytes) r.pos ≡ false =
            ground (arith, length-drop r.pos r.bytes, ap length h') in
          let (p, a, b) =
            skip_padding-padding fuel (written + 1) start (record r { pos = r.pos + 1 }) rest
              (omega (arith, e)) (Ahead-drop r.pos 1 r.bytes _ h') in
          (p, rw (here ∙ c, inside) a, b)
    ]

read_content-Ahead :
    (start len written : ℕ) (r : TlReader) (bytes rest : Bytes)
    → len ≡ length bytes
    → r.pos + len ≡ start + written
    → Ahead r (bytes ++ (padding 3 written ++ rest))
    → (p : ℕ) × (read_content start len r ≡ (some bytes, record r { pos = p }))
      × (drop p r.bytes ≡ rest)
unfolding read_content
read_content-Ahead start len written r bytes rest e at h =
    let tail = padding 3 written ++ rest in
    let room : ltb (remaining r) len ≡ false =
      ground (arith, Ahead-room r _ h, length-append bytes tail, e) in
    let got : take len (drop r.pos r.bytes) ≡ bytes =
      ap (take len) h ∙ ap (λ n. take n (bytes ++ tail)) e ∙ take-append bytes tail in
    let behind =
      Ahead-drop r.pos len r.bytes _ h
      ∙ ap (λ n. drop n (bytes ++ tail)) e
      ∙ drop-append bytes tail in
    let (p, a, b) =
      skip_padding-padding 3 written start (record r { pos = r.pos + len }) rest at behind in
    (p, rw (room, got, a) refl, b)

prefixed :
    (bytes rest prefix : Bytes)
    → length_prefix (length bytes) ≡ prefix
    → write_bytes bytes [] ++ rest
      ≡ prefix ++ (bytes ++ (padding 3 (length prefix + length bytes) ++ rest))
unfolding write_bytes
prefixed bytes rest prefix e =
    let pad = λ (q : Bytes). padding 3 (length q + length bytes) in
    ap (λ q. (q ++ (bytes ++ pad q)) ++ rest) e
    ∙ append_assoc prefix (bytes ++ pad prefix) rest
    ∙ ap (λ q. prefix ++ q) (append_assoc bytes (pad prefix) rest)

-- What a reader gives: the bytes, and the rest ahead.
abbrev pub Reads : TlReader → Bytes → Bytes → Type 0
Reads r bytes rest =
    (p : ℕ) × (read_bytes r ≡ (some bytes, record r { pos = p })) × (drop p r.bytes ≡ rest)

take_short :
    (r : TlReader) (len : ℕ)
    → ltb (remaining r) 1 ≡ false
    → byte_at r 0 ≡ len
    → ltb len 254 ≡ true
    → read_bytes r ≡ read_content r.pos len (record r { pos = r.pos + 1 })
unfolding read_bytes
take_short r len room first c = rw (room, first, c) refl

take_long :
    (r : TlReader) (len : ℕ)
    → let s : TlReader = record r { pos = r.pos + 1 } in
      ltb (remaining r) 1 ≡ false
      → byte_at r 0 ≡ 254
      → ltb (remaining s) 3 ≡ false
      → byte_at s 0 + byte_at s 1 * 256 + byte_at s 2 * 65536 ≡ len
      → read_bytes r ≡ read_content r.pos len (record s { pos = s.pos + 3 })
unfolding read_bytes read_long_length
take_long r len room first more sum = rw (room, first, more, sum) refl

read_short :
    (bytes : Bytes) (r : TlReader) (rest : Bytes)
    → ltb (length bytes) 254 ≡ true
    → Ahead r (write_bytes bytes [] ++ rest)
    → Reads r bytes rest
unfolding length_prefix
read_short bytes r rest c h =
    let len = length bytes in
    let h1 = h ∙ prefixed bytes rest (len ∷ []) (rw c refl) in
    let room : ltb (remaining r) 1 ≡ false = ground (arith, Ahead-room r _ h1) in
    let first : byte_at r 0 ≡ len = byte_at-Ahead r 0 _ h1 in
    let (p, a, b) =
      read_content-Ahead r.pos len (1 + len) (record r { pos = r.pos + 1 }) bytes rest refl
        (omega arith) (Ahead-drop r.pos 1 r.bytes _ h1) in
    (p, take_short r len room first c ∙ a, b)

read_long_form :
    (bytes : Bytes) (r : TlReader) (rest : Bytes)
    → ltb (length bytes) 254 ≡ false
    → length bytes < 2 ^ 24
    → Ahead r (write_bytes bytes [] ++ rest)
    → Reads r bytes rest
unfolding length_prefix
read_long_form bytes r rest c l h =
    let len = length bytes in
    let h1 =
      h
      ∙ prefixed bytes rest (254 ∷ len % 256 ∷ len / 256 % 256 ∷ len / 65536 % 256 ∷ [])
          (rw c refl) in
    let room : ltb (remaining r) 1 ≡ false = ground (arith, Ahead-room r _ h1) in
    let first : byte_at r 0 ≡ 254 = byte_at-Ahead r 0 _ h1 in
    let s : TlReader = record r { pos = r.pos + 1 } in
    let h2 = Ahead-drop r.pos 1 r.bytes _ h1 in
    let more : ltb (remaining s) 3 ≡ false = ground (arith, Ahead-room s _ h2) in
    let sum : byte_at s 0 + byte_at s 1 * 256 + byte_at s 2 * 65536 ≡ len =
      omega (arith, l, byte_at-Ahead s 0 _ h2, byte_at-Ahead s 1 _ h2, byte_at-Ahead s 2 _ h2) in
    let (p, a, b) =
      read_content-Ahead r.pos len (4 + len) (record s { pos = s.pos + 3 }) bytes rest refl
        (omega arith) (Ahead-drop s.pos 3 s.bytes _ h2) in
    (p, take_long r len room first more sum ∙ a, b)

-- What `writeBytes` has written, `readBytes` reads back, with nothing left over of the padding, if the
-- bytes are fewer than 2^24.
pub read_bytes-write_bytes :
    (bytes : Bytes) (r : TlReader) (rest : Bytes)
    → length bytes < 2 ^ 24
    → Ahead r (write_bytes bytes [] ++ rest)
    → Reads r bytes rest
read_bytes-write_bytes bytes r rest l h = elim (Bool-cases (ltb (length bytes) 254)) [
  | inl c ↦ read_short bytes r rest c h
  | inr c ↦ read_long_form bytes r rest c l h
]
