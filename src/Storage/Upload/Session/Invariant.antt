-- ===== src/Storage/Upload/Session/Invariant.antt =====
-- What holds of a session that sends several chunks at once, against `T`, the bytes that the client
-- has sent from the start of the file on.
use telegram_disk.Base.{
  ℕ, zero, suc, ◌+◌, ◌≤◌, ◌<◌, ◌≡◌, refl, sym, ap, ◌∙◌, false, none, some, List, [], ◌∷◌, ◌++◌,
  length, take, drop, length-append, arith,
}
use telegram_disk.Base.Bits.{Bytes}
use telegram_disk.Crypto.Sha256.{Sha256, reset, update, finish}
use telegram_disk.Text.Hex.{to_hex}
use telegram_disk.Storage.Chunk.{ChunkEntry}
use telegram_disk.Storage.ChunkBuffer.Files.{Stdio}
use telegram_disk.Storage.ChunkBuffer.{ChunkBuffer}
use telegram_disk.Storage.Upload.Backend.{Backend}
use telegram_disk.Storage.Upload.Session.{Session, ManhBay}

-- `size` bytes of `T` from `offset` on.
abbrev pub slice : Bytes → ℕ → ℕ → Bytes
slice T offset size = take size (drop offset T)

-- The hasher behind the bytes `xs`, and the text of their digest.
abbrev pub hashed : Bytes → Sha256
hashed xs = update reset xs

abbrev pub digest : Bytes → Bytes
digest xs = to_hex (finish (hashed xs))

-- The rows `rs` cut `T` from `o` to `e` into chunks without a gap, in order and numbered from `i`;
-- each has the digest of its own bytes.
abbrev pub Records : Bytes → ℕ → ℕ → List ChunkEntry → ℕ → Type 0
Records T i o [] e = o ≡ e
Records T i o (r ∷ rs) e =
    (r.index ≡ i)
    × (r.offset ≡ o)
    × (r.sha256 ≡ digest (slice T o r.size))
    × Records T (i + 1) (o + r.size) rs e

module _ {io : Stdio} {be : Backend} where
  -- The same of the chunks in flight, with the hasher of the whole file behind each.
  abbrev pub Flights : Bytes → ℕ → ℕ → List (ManhBay io be) → ℕ → Type 0
  Flights T i o [] e = o ≡ e
  Flights T i o (m ∷ ms) e =
      (m.index ≡ i)
      × (m.offset ≡ o)
      × (m.sha256 ≡ digest (slice T o m.size))
      × (m.hasher_sau_manh ≡ hashed (take (o + m.size) T))
      × Flights T (i + 1) (o + m.size) ms e

  -- The part that a lost chunk leaves intact.
  pub record Stored (T : Bytes) (s : Session io be) : Type 0 where
    pub sized : 0 < s.chunk_size
    pub many : 1 < s.so_manh_song_song
    pub records : Records T 0 0 s.chunk_records s.committed_bytes
    pub committed : s.hasher_committed ≡ hashed (take s.committed_bytes T)
    pub within : s.committed_bytes ≤ length T

  -- The rest: the flights follow the rows, and the open chunk follows the flights.
  pub record Flying (T : Bytes) (s : Session io be) : Type 0 where
    pub sound : s.manh_hong ≡ false
    pub flights : Flights T (length s.chunk_records) s.committed_bytes s.dang_bay s.chunk_offset
    pub numbered : s.chunk_index ≡ length s.chunk_records + length s.dang_bay
    pub counted : s.received_bytes ≡ s.chunk_offset + s.chunk_written
    pub reached : s.received_bytes ≤ length T
    pub whole_hash : s.hasher ≡ hashed (take s.received_bytes T)

  -- The open chunk, if there is one: its hasher has seen exactly its bytes.
  pub record Ready (T : Bytes) (s : Session io be) : Type 0 where
    pub idle : s.buffer ≡ none → s.chunk_written ≡ 0
    pub opened :
        (b : ChunkBuffer io (Backend.World be))
        → s.buffer ≡ some b
        → s.chunk_hasher ≡ hashed (slice T s.chunk_offset s.chunk_written)
    pub room : s.chunk_written < s.chunk_size

pub Records-append :
    (T : Bytes) (i o : ℕ) (rs : List ChunkEntry) (r : ChunkEntry) (m : ℕ)
    → Records T i o rs m
    → r.index ≡ i + length rs
    → r.offset ≡ m
    → r.sha256 ≡ digest (slice T m r.size)
    → Records T i o (rs ++ (r ∷ [])) (m + r.size)
Records-append T i o [] r m h a b c = ground arith
Records-append T i o (q ∷ rs) r m h a b c =
    (h.0, h.1, h.2, Records-append T (i + 1) (o + q.size) rs r m h.3 (omega arith) b c)

pub Records-le : (T : Bytes) (i o : ℕ) (rs : List ChunkEntry) (e : ℕ) → Records T i o rs e → o ≤ e
Records-le T i o [] e h = omega arith
Records-le T i o (r ∷ rs) e h = omega (arith, Records-le T (i + 1) (o + r.size) rs e h.3)

take-append_le : (n : ℕ) (T more : Bytes) → n ≤ length T → take n (T ++ more) ≡ take n T
take-append_le zero T more h = refl
take-append_le (suc n) [] more h = absurd (omega arith)
take-append_le (suc n) (x ∷ T) more h = ap (◌∷◌ x) (take-append_le n T more (omega arith))

slice-append : (o n : ℕ) (T more : Bytes) → o + n ≤ length T → slice (T ++ more) o n ≡ slice T o n
slice-append zero n T more h = take-append_le n T more (omega arith)
slice-append (suc o) n [] more h =
    elim n as (λ k. suc o + k ≤ 0 → slice more (suc o) k ≡ take k []) [
      | zero ↦ λ _. refl
      | suc k ↦ λ b. absurd (omega arith)
    ]
      h
slice-append (suc o) n (x ∷ T) more h = slice-append o n T more (omega arith)

Records-more :
    (T more : Bytes) (i o : ℕ) (rs : List ChunkEntry) (e : ℕ)
    → Records T i o rs e
    → e ≤ length T
    → Records (T ++ more) i o rs e
Records-more T more i o [] e h l = h
Records-more T more i o (r ∷ rs) e h l =
    let le = Records-le T (i + 1) (o + r.size) rs e h.3 in
    (
      h.0,
      h.1,
      h.2 ∙ ap digest (sym (slice-append o r.size T more (omega arith))),
      Records-more T more (i + 1) (o + r.size) rs e h.3 l,
    )

module _ {io : Stdio} {be : Backend} where
  pub Flights-append :
      (T : Bytes) (i o : ℕ) (ms : List (ManhBay io be)) (m : ManhBay io be) (e : ℕ)
      → Flights T i o ms e
      → m.index ≡ i + length ms
      → m.offset ≡ e
      → m.sha256 ≡ digest (slice T e m.size)
      → m.hasher_sau_manh ≡ hashed (take (e + m.size) T)
      → Flights T i o (ms ++ (m ∷ [])) (e + m.size)
  Flights-append T i o [] m e h a b c d = ground arith
  Flights-append T i o (q ∷ ms) m e h a b c d =
      (h.0, h.1, h.2, h.3, Flights-append T (i + 1) (o + q.size) ms m e h.4 (omega arith) b c d)

  pub Flights-le :
      (T : Bytes) (i o : ℕ) (ms : List (ManhBay io be)) (e : ℕ) → Flights T i o ms e → o ≤ e
  Flights-le T i o [] e h = omega arith
  Flights-le T i o (m ∷ ms) e h = omega (arith, Flights-le T (i + 1) (o + m.size) ms e h.4)

  Flights-more :
      (T more : Bytes) (i o : ℕ) (ms : List (ManhBay io be)) (e : ℕ)
      → Flights T i o ms e
      → e ≤ length T
      → Flights (T ++ more) i o ms e
  Flights-more T more i o [] e h l = h
  Flights-more T more i o (m ∷ ms) e h l =
      let le = Flights-le T (i + 1) (o + m.size) ms e h.4 in
      (
        h.0,
        h.1,
        h.2 ∙ ap digest (sym (slice-append o m.size T more (omega arith))),
        h.3 ∙ ap hashed (sym (take-append_le (o + m.size) T more (omega arith))),
        Flights-more T more (i + 1) (o + m.size) ms e h.4 l,
      )

  -- Bytes that the client sends later change nothing of what holds.
  pub Stored-more : (T more : Bytes) (s : Session io be) → Stored T s → Stored (T ++ more) s
  Stored-more T more s h = record {
    sized = h.sized;
    many = h.many;
    records = Records-more T more 0 0 s.chunk_records s.committed_bytes h.records h.within;
    committed = h.committed ∙ ap hashed (sym (take-append_le s.committed_bytes T more h.within));
    within = omega (arith, h.within, length-append T more);
  }

  pub Flying-more : (T more : Bytes) (s : Session io be) → Flying T s → Flying (T ++ more) s
  Flying-more T more s h = record {
    sound = h.sound;
    flights =
        Flights-more T more (length s.chunk_records) s.committed_bytes s.dang_bay s.chunk_offset
          h.flights (omega (arith, h.counted, h.reached));
    numbered = h.numbered;
    counted = h.counted;
    reached = omega (arith, h.reached, length-append T more);
    whole_hash = h.whole_hash ∙ ap hashed (sym (take-append_le s.received_bytes T more h.reached));
  }

  pub Ready-more :
      (T more : Bytes) (s : Session io be)
      → s.chunk_offset + s.chunk_written ≤ length T
      → Ready T s
      → Ready (T ++ more) s
  Ready-more T more s l h = record {
    idle = h.idle;
    opened = λ b e.
        h.opened b e ∙ ap hashed (sym (slice-append s.chunk_offset s.chunk_written T more l));
    room = h.room;
  }
