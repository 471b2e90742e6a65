-- ===== src/Tg/TlCodec/Fields.antt =====
-- Several values one after the other, as the fields of a constructor go over the wire.
use telegram_disk.Base.{
  ℕ, ◌+◌, ◌^◌, ◌<◌, ◌≡◌, refl, sym, ap, ◌∙◌, Option, none, some, List, [], ◌∷◌, ◌++◌, append_assoc,
  append-nil, map, All, length, drop,
}
use telegram_disk.Base.Bits.{Bytes, IsU32, IsU64}
use telegram_disk.Tg.TlCodec.{
  write_uint, write_long, write_bytes, TlReader, reader, read_uint, read_long, read_bytes,
}
use telegram_disk.Tg.TlCodec.Exact.{
  Ahead, read_uint-write_uint, read_long-write_long, read_bytes-write_bytes,
}

pub data Field : Type 0 where
  an_int a_long : ℕ → Field
  some_bytes : Bytes → Field

pub data Kind : Type 0 where
  int_kind long_kind bytes_kind : Kind

abbrev pub kind : Field → Kind
kind (an_int v) = int_kind
kind (a_long v) = long_kind
kind (some_bytes b) = bytes_kind

-- What fits: a word of 32 or 64 bits, fewer than 2^24 bytes.
abbrev pub Fits : Field → Type 0
Fits (an_int v) = IsU32 v
Fits (a_long v) = IsU64 v
Fits (some_bytes b) = length b < 2 ^ 24

abbrev pub write_field : Field → Bytes → Bytes
write_field (an_int v) buf = write_uint v buf
write_field (a_long v) buf = write_long v buf
write_field (some_bytes b) buf = write_bytes b buf

abbrev pub write_all : List Field → Bytes → Bytes
write_all [] buf = buf
write_all (f ∷ fs) buf = write_all fs (write_field f buf)

abbrev wrapped : {A : Type 0} → (A → Field) → Option A × TlReader → Option Field × TlReader
wrapped c (some a, r) = (some (c a), r)
wrapped c (none, r) = (none, r)

abbrev pub read_field : Kind → TlReader → Option Field × TlReader
read_field int_kind r = wrapped an_int (read_uint r)
read_field long_kind r = wrapped a_long (read_long r)
read_field bytes_kind r = wrapped some_bytes (read_bytes r)

abbrev before : Field → Option (List Field) × TlReader → Option (List Field) × TlReader
before f (some fs, r) = (some (f ∷ fs), r)
before f (none, r) = (none, r)

abbrev and_read :
    Option Field × TlReader
    → (TlReader → Option (List Field) × TlReader)
    → Option (List Field) × TlReader
and_read (some f, r) k = before f (k r)
and_read (none, r) k = (none, r)

abbrev pub read_all : List Kind → TlReader → Option (List Field) × TlReader
read_all [] r = (some [], r)
read_all (k ∷ ks) r = and_read (read_field k r) (read_all ks)

write_field-append : (f : Field) (buf : Bytes) → write_field f buf ≡ buf ++ write_field f []
unfolding write_uint write_long write_bytes
write_field-append (an_int v) buf = refl
write_field-append (a_long v) buf = refl
write_field-append (some_bytes b) buf = refl

write_all-append : (fs : List Field) (buf : Bytes) → write_all fs buf ≡ buf ++ write_all fs []
write_all-append [] buf = sym (append-nil buf)
write_all-append (f ∷ fs) buf =
    write_all-append fs (write_field f buf)
    ∙ ap (λ b. b ++ write_all fs []) (write_field-append f buf)
    ∙ append_assoc buf (write_field f []) (write_all fs [])
    ∙ ap (λ b. buf ++ b) (sym (write_all-append fs (write_field f [])))

read_field-write_field :
    (f : Field) (r : TlReader) (rest : Bytes)
    → Fits f
    → Ahead r (write_field f [] ++ rest)
    → (p : ℕ) × (read_field (kind f) r ≡ (some f, record r { pos = p })) × (drop p r.bytes ≡ rest)
read_field-write_field (an_int v) r rest l h =
    let (a, b) = read_uint-write_uint v r rest l h in (r.pos + 4, ap (wrapped an_int) a, b)
read_field-write_field (a_long v) r rest l h =
    let (a, b) = read_long-write_long v r rest l h in (r.pos + 8, ap (wrapped a_long) a, b)
read_field-write_field (some_bytes bytes) r rest l h =
    let (p, a, b) = read_bytes-write_bytes bytes r rest l h in (p, ap (wrapped some_bytes) a, b)

read_all-Ahead :
    (fs : List Field) (r : TlReader) (rest : Bytes)
    → All Fits fs
    → Ahead r (write_all fs [] ++ rest)
    → (p : ℕ) × (read_all (map kind fs) r ≡ (some fs, record r { pos = p }))
      × (drop p r.bytes ≡ rest)
read_all-Ahead [] r rest l h = (r.pos, refl, h)
read_all-Ahead (f ∷ fs) r rest (l, ls) h =
    let front : drop r.pos r.bytes ≡ write_field f [] ++ (write_all fs [] ++ rest) =
      h
      ∙ ap (λ b. b ++ rest) (write_all-append fs (write_field f []))
      ∙ append_assoc (write_field f []) (write_all fs []) rest in
    let (p, a, b) = read_field-write_field f r (write_all fs [] ++ rest) l front in
    let (q, c, d) = read_all-Ahead fs (record r { pos = p }) rest ls b in
    (q, ap (λ x. and_read x (read_all (map kind fs))) a ∙ ap (before f) c, d)

-- Values that fit (words of 32 and 64 bits, strings of fewer than 2^24 bytes), written one after the
-- other, are read back in order from the start, with whatever stands behind them still ahead: the padding
-- of each string is skipped exactly.
pub read_all-write_all :
    (fs : List Field) (rest : Bytes)
    → All Fits fs
    → (p : ℕ) × (read_all (map kind fs) (reader (write_all fs [] ++ rest))
        ≡ (some fs, record (reader (write_all fs [] ++ rest)) { pos = p }))
      × (drop p (write_all fs [] ++ rest) ≡ rest)
read_all-write_all fs rest l = read_all-Ahead fs (reader (write_all fs [] ++ rest)) rest l refl
