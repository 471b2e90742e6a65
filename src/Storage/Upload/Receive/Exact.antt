-- ===== src/Storage/Upload/Receive/Exact.antt =====
-- The invariant and the loop of `receive`, with several chunks at once.
use telegram_disk.Base.{
  ℕ, zero, suc, ◌+◌, ◌-◌, ◌≤◌, ◌<◌, min, ◌≡◌, refl, sym, ap, ◌∙◌, subst, ◌⊎◌, inl, inr, true, false,
  Option, some, [], ◌∷◌, ◌++◌, take-append, drop-append, take-append-drop, length, take, drop,
  drop-drop, length-append, length-take, length-drop, arith, if◌then◌else◌, ◌==◌,
}
use telegram_disk.Base.Bits.{Bytes}
use telegram_disk.Base.Result.{Done, Result, ok, err, and_then}
use mathlib.Core.List.{append_assoc}
use telegram_disk.Storage.ChunkBuffer.Files.{Stdio}
use telegram_disk.Storage.ChunkBuffer.{ChunkBuffer, append}
use telegram_disk.Storage.Upload.Backend.{Backend}
use telegram_disk.Storage.Upload.Session.{
  Session, ManhBay, KetQua, UploadState, preparing, receiving, flushing, completed, cancelled,
  failed,
}
use telegram_disk.Storage.Upload.Receive.{
  append_done, append_piece, dong_if_full, receive_piece, receive_once, or_bao, receive_loop,
  receive_in, receive,
}
use Prim.Native.String.{String}
use telegram_disk.Storage.Upload.Receive.Steps.{
  Inv, Failing, Filling, StepsIn, bao-Inv, ensure_open-Inv, append_done-Inv, dong_if_full-Steps,
}

module _ {io : Stdio} {be : Backend} (T : Bytes) where
  -- The bytes that the client sends are those of the file from the received count on.
  abbrev pub Sends : Session io be → Bytes → Type 0
  Sends s bytes = (tail : Bytes) × (drop s.received_bytes T ≡ bytes ++ tail)

  -- A round takes bytes off the front and stays in order, or fails.
  abbrev pub Round : ℕ → Bytes → Result Bytes × (Session io be × Backend.World be) → Type 0
  Round total bytes (r, (s', w)) =
      ((rest : Bytes) × (r ≡ ok rest)
        × Inv T s'
        × Sends s' rest
        × (length rest < length bytes)
        × (s'.received_bytes + length rest ≡ total))
      ⊎ ((x : String) × (r ≡ err x) × Failing T s')

  -- All of `total` bytes are there if nothing failed; the session is in order anyway.
  abbrev pub Received : ℕ → Result Done × (Session io be × Backend.World be) → Type 0
  Received total (r, (s', w)) = Inv T s' × ((r ≡ ok tt) → s'.received_bytes ≡ total)

  Round-of :
      (s s1 : Session io be) (bytes rest : Bytes)
      (r : Result Done × (Session io be × Backend.World be))
      → StepsIn T s1 r
      → Sends s1 rest
      → length rest < length bytes
      → s1.received_bytes + length rest ≡ s.received_bytes + length bytes
      → Round (s.received_bytes + length bytes) bytes (and_then r (λ _ sw. (ok rest, sw)))
  Round-of s s1 bytes rest (ok _, (s', w)) (inl (e, h, g)) send l n =
      inl
        (rest, refl, h, (send.0, ap (λ n. drop n T) g ∙ send.1), l, ap (λ n. n + length rest) g ∙ n)
  Round-of s s1 bytes rest (err x, (s', w)) (inl (e, h, g)) send l n = ground arith
  Round-of s s1 bytes rest (ok _, (s', w)) (inr (x, e, f)) send l n = ground arith
  Round-of s s1 bytes rest (err x, (s', w)) (inr (y, e, f)) send l n = inr (x, refl, f)

  pub Sends-drop :
      (s s1 : Session io be) (k : ℕ) (bytes : Bytes)
      → Sends s bytes
      → k ≤ length bytes
      → s1.received_bytes ≡ s.received_bytes + k
      → (take k bytes ≡ take (length (take k bytes)) (drop s.received_bytes T))
        × Sends s1 (drop k bytes)
  Sends-drop s s1 k bytes (tail, e) l g =
      let front : length (take k bytes) ≡ k = omega (arith, length-take k bytes, l) in
      let parts : drop s.received_bytes T ≡ take k bytes ++ (drop k bytes ++ tail) =
        e
        ∙ ap (λ b. b ++ tail) (sym (take-append-drop k bytes))
        ∙ append_assoc (take k bytes) (drop k bytes) tail in
      (
        sym (take-append (take k bytes) _) ∙ ap (take (length (take k bytes))) (sym parts),
        (
          tail,
          ap (λ n. drop n T) g
              ∙ sym (drop-drop s.received_bytes k T)
              ∙ ap (drop k) parts
              ∙ ap (λ n. drop n (take k bytes ++ (drop k bytes ++ tail))) (sym front)
              ∙ drop-append (take k bytes) _,
        ),
      )

  -- Whatever the append leaves, the round goes on from there.
  filled-Round :
      (join : ManhBay io be → KetQua) (s : Session io be) (k : ℕ) (bytes : Bytes)
      (a : Result Done × (Session io be × Backend.World be))
      → let (q, (s', w')) = a in
        (((q ≡ ok tt)
            × Filling T s'
            × (s'.received_bytes ≡ s.received_bytes + length (take k bytes)))
          ⊎ ((x : String) × (q ≡ err x) × Inv T s'))
        → Sends s bytes
        → 0 < k
        → k ≤ length bytes
        → Round (s.received_bytes + length bytes) bytes (
            and_then a
              (λ _ sw. and_then (dong_if_full join sw) (λ _ sw'. (ok (drop k bytes), sw'))))
  filled-Round join s k bytes (ok _, (s', w')) (inl (e, h, g)) send p l =
      let n = length-take k bytes in
      let m = length-drop k bytes in
      let at : s'.received_bytes ≡ s.received_bytes + k = omega (arith, g, n, l) in
      Round-of s s' bytes (drop k bytes) (dong_if_full join (s', w'))
        (dong_if_full-Steps T join s' w' h) (Sends-drop s s' k bytes send l at).1
        (omega (arith, m, p, l)) (omega (arith, m, l, at))
  filled-Round join s k bytes (err x, (s', w')) (inl (e, h, g)) send p l = ground arith
  filled-Round join s k bytes (ok _, (s', w')) (inr (x, e, h)) send p l = ground arith
  filled-Round join s k bytes (err x, (s', w')) (inr (y, e, h)) send p l = inr (x, refl, inl h)

  pub append_piece-some :
      (o : Option (ChunkBuffer io (Backend.World be))) (b : ChunkBuffer io (Backend.World be))
      (piece : Bytes) (s : Session io be) (w : Backend.World be)
      → o ≡ some b
      → append_piece o piece (s, w) ≡ append_done s piece (append io piece (b, w))
  unfolding append_piece
  append_piece-some o b piece s w e = ap (λ t. append_piece t piece (s, w)) e

  receive_piece-Round :
      (join : ManhBay io be → KetQua) (s : Session io be) (b : ChunkBuffer io (Backend.World be))
      (w : Backend.World be) (bytes : Bytes)
      → Inv T s
      → s.buffer ≡ some b
      → Sends s bytes
      → 0 < length bytes
      → Round (s.received_bytes + length bytes) bytes (receive_piece join bytes (s, w))
  unfolding receive_piece
  receive_piece-Round join s b w bytes h e send l =
      let k = min (s.chunk_size - s.chunk_written) (length bytes) in
      let room = h.ready.room in
      let p : 0 < k = omega (arith, room, l) in
      let some_room : (k == 0) ≡ false = ground (arith, p) in
      let le : k ≤ length bytes = omega arith in
      let n = length-take k bytes in
      let at =
        Sends-drop s (record s { received_bytes = s.received_bytes + k }) k bytes send le refl in
      let size : length T ≡ length T = refl in
      rw some_room (
        rw (append_piece-some s.buffer b (take k bytes) s w e) (
          filled-Round join s k bytes _
            (append_done-Inv T s b (take k bytes) (append io (take k bytes) (b, w)) h e at.0
              (omega (
                arith,
                n,
                le,
                length-drop s.received_bytes T,
                ap length send.1,
                length-append bytes send.0,
                l,
              ))
              (omega (arith, n, room)))
            send p le))

  pub ensured-Round :
      (join : ManhBay io be → KetQua) (s : Session io be) (w : Backend.World be) (bytes : Bytes)
      → Inv T s
      → Sends s bytes
      → 0 < length bytes
      → Round (s.received_bytes + length bytes) bytes (receive_once join bytes (s, w))
  unfolding receive_once
  ensured-Round join s w bytes h send l =
      let (s', b, e, h', eb, g) = ensure_open-Inv T s w h in
      let round =
        receive_piece-Round join s' b w bytes h' eb (send.0, ap (λ n. drop n T) g ∙ send.1) l in
      rw e (
        subst (λ n. Round n bytes (receive_piece join bytes (s', w))) (ap (λ n. n + length bytes) g)
          round)

  or_bao-Inv :
      (join : ManhBay io be → KetQua) (total : ℕ) (bytes : Bytes)
      (r : Result Bytes × (Session io be × Backend.World be))
      (k : Bytes
        → Session io be × Backend.World be
        → Result Done × (Session io be × Backend.World be))
      → Round total bytes r
      → ((rest : Bytes) (s' : Session io be) (w' : Backend.World be)
          → Inv T s'
          → Sends s' rest
          → length rest < length bytes
          → Received (s'.received_bytes + length rest) (k rest (s', w')))
      → Received total (or_bao join r k)
  unfolding or_bao
  or_bao-Inv join total bytes (ok x, (s', w)) k (inl (rest, e, h, send, l, n)) next =
      let same : x ≡ rest = cc e in
      subst (λ y. Received total (k y (s', w))) (sym same)
        (subst (λ t. Received t (k rest (s', w))) n (next rest s' w h send l))
  or_bao-Inv join total bytes (err x, (s', w)) k (inl (rest, e, h, send, l, n)) next = ground arith
  or_bao-Inv join total bytes (ok _, (s', w)) k (inr (x, e, f)) next = ground arith
  or_bao-Inv join total bytes (err x, (s', w)) k (inr (y, e, f)) next =
      (bao-Inv T join x s' f, λ e. absurd (ground arith))

  receive_loop-Inv :
      (fuel : ℕ) (join : ManhBay io be → KetQua) (bytes : Bytes) (s : Session io be)
      (w : Backend.World be)
      → length bytes < fuel
      → Inv T s
      → Sends s bytes
      → Received (s.received_bytes + length bytes) (receive_loop fuel join bytes (s, w))
  unfolding receive_loop
  receive_loop-Inv fuel join [] s w f h send = (h, λ _. omega arith)
  receive_loop-Inv zero join (x ∷ xs) s w f h send = absurd (omega arith)
  receive_loop-Inv (suc fuel) join (x ∷ xs) s w f h send =
      or_bao-Inv join _ (x ∷ xs) (receive_once join (x ∷ xs) (s, w)) (receive_loop fuel join)
        (ensured-Round join s w (x ∷ xs) h send (omega arith))
        (λ rest s' w' h' send' l. receive_loop-Inv fuel join rest s' w' (omega arith) h' send')

  pub receiving-Inv : (s : Session io be) → Inv T s → Inv T (record s { state = receiving })
  receiving-Inv s h = record {
    stored = record {
      sized = h.stored.sized;
      many = h.stored.many;
      records = h.stored.records;
      committed = h.stored.committed;
      within = h.stored.within;
    };
    flying = record {
      sound = h.flying.sound;
      flights = h.flying.flights;
      numbered = h.flying.numbered;
      counted = h.flying.counted;
      reached = h.flying.reached;
      whole_hash = h.flying.whole_hash;
    };
    ready = record { idle = h.ready.idle; opened = h.ready.opened; room = h.ready.room };
  }

  receive_in-Inv :
      (st : UploadState) (join : ManhBay io be → KetQua) (bytes : Bytes) (s : Session io be)
      (w : Backend.World be)
      → Inv T s
      → Sends s bytes
      → Received (s.received_bytes + length bytes) (receive_in st join bytes (s, w))
  unfolding receive_in
  receive_in-Inv failed join bytes s w h send = (h, λ e. absurd (ground arith))
  receive_in-Inv cancelled join bytes s w h send = (h, λ e. absurd (ground arith))
  receive_in-Inv preparing join bytes s w h send =
      receive_loop-Inv _ join bytes (record s { state = receiving }) w (omega arith)
        (receiving-Inv s h) send
  receive_in-Inv receiving join bytes s w h send =
      receive_loop-Inv _ join bytes (record s { state = receiving }) w (omega arith)
        (receiving-Inv s h) send
  receive_in-Inv flushing join bytes s w h send =
      receive_loop-Inv _ join bytes (record s { state = receiving }) w (omega arith)
        (receiving-Inv s h) send
  receive_in-Inv completed join bytes s w h send =
      receive_loop-Inv _ join bytes (record s { state = receiving }) w (omega arith)
        (receiving-Inv s h) send

  -- With several chunks at once, let the session be in order against the file `T`, and let the
  -- client send bytes of `T` from the received count on. Whatever the buffers and threads report,
  -- the session is in order behind `receive`: stored rows and chunks in flight cut the file
  -- without a gap from 0 to the open chunk, in order and with the digest of their own bytes, and
  -- the hash of the file is that of the bytes counted as received. If `receive` succeeds, it has
  -- counted all bytes sent.
  pub receive-Inv :
      (join : ManhBay io be → KetQua) (bytes : Bytes) (s : Session io be) (w : Backend.World be)
      → Inv T s
      → Sends s bytes
      → Received (s.received_bytes + length bytes) (receive join bytes (s, w))
  unfolding receive
  receive-Inv join bytes s w h send =
      elim s.is_cancelled
        as (λ b. Received (s.received_bytes + length bytes) (
          if b
          then (err "Phiên tải lên đã bị huỷ", (s, w))
          else receive_in s.state join bytes (s, w))) [
            | true ↦ (h, λ e. absurd (ground arith))
            | false ↦ receive_in-Inv s.state join bytes s w h send
          ]
