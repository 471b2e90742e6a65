-- ===== src/Tg/TlCodec/Tests.antt =====
-- An identifier, a string of five bytes and a hash of 64 bits.
use telegram_disk.Base.{ℕ, ◌≡◌, refl, some, List, [], ◌∷◌, ◌++◌, map, drop, arith}
use telegram_disk.Base.Bits.{Bytes}
use telegram_disk.Tg.TlCodec.{reader, write_bytes}
use telegram_disk.Tg.TlCodec.Fields.{
  Field, an_int, a_long, some_bytes, kind, write_all, read_all, read_all-write_all,
}

abbrev sent : List Field
sent = an_int 481674261 ∷ some_bytes (104 ∷ 101 ∷ 108 ∷ 108 ∷ 111 ∷ []) ∷ a_long 7 ∷ []

abbrev wire : Bytes
wire = write_all sent [] ++ (1 ∷ [])

read_all-write_all_example :
    (p : ℕ) × (read_all (map kind sent) (reader wire)
      ≡ (some sent, record (reader wire) { pos = p }))
    × (drop p wire ≡ 1 ∷ [])
read_all-write_all_example =
    read_all-write_all sent (1 ∷ []) (omega arith, (omega arith, (omega arith, tt)))

string_padded :
    write_bytes (104 ∷ 101 ∷ 108 ∷ 108 ∷ 111 ∷ []) [] ≡ 5 ∷ 104 ∷ 101 ∷ 108 ∷ 108 ∷ 111 ∷ 0 ∷ 0 ∷ []
unfolding write_bytes
string_padded = refl
