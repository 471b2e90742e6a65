-- ===== src/Storage/Upload/Receive/Placed.antt =====
-- Where the bytes are while `receive` takes data in, with several chunks at once, in memory.
use telegram_disk.Base.{
  ℕ, zero, suc, ◌+◌, ◌-◌, ◌<◌, min, ◌≡◌, refl, sym, ap, ◌∙◌, subst, true, false, not, ◌&&◌, none,
  some, Option, inl, inr, [], ◌∷◌, length, take, drop, arith, if◌then◌else◌, leb, ltb, ◌==◌,
}
use telegram_disk.Base.Bits.{Bytes}
use telegram_disk.Base.Result.{Done, Result, ok, err, and_then}
use Prim.Native.String.{String}
use telegram_disk.Storage.ChunkBuffer.Files.{Stdio, StdioLaws}
use telegram_disk.Storage.ChunkBuffer.{ChunkBuffer, append}
use telegram_disk.Storage.ChunkBuffer.Exact.{InMemory, append-InMemory}
use telegram_disk.Storage.Upload.Backend.{Backend}
use telegram_disk.Storage.Upload.Session.{
  Session, ManhBay, KetQua, UploadState, preparing, receiving, flushing, completed, cancelled,
  failed, giao_manh_cho_nen, thu_mot_manh, thu_het_manh, close_chunk,
}
use telegram_disk.Storage.Upload.Session.Invariant.{slice}
use telegram_disk.Storage.Upload.Session.Placed.{
  Placed, Faithful, thu_mot-Placed, thu_het-Placed, giao-Placed, ghi_nhan_loi-Placed,
  open_chunk-Placed,
}
use telegram_disk.Storage.Upload.Receive.{
  with_world, drain, dong_manh, bao, ensure_open, append_done, append_piece, dong_if_full,
  receive_piece, receive_once, or_bao, receive_loop, receive_in, receive,
}
use telegram_disk.Storage.Upload.Receive.Steps.{Inv, ensure_open-Inv, slice_grow}
use telegram_disk.Storage.Upload.Receive.Exact.{
  Sends, Round, Sends-drop, append_piece-some, ensured-Round, receiving-Inv,
}

module _ {io : Stdio} (laws : StdioLaws io) {be : Backend} (content : ℕ → Bytes) (T : Bytes)
    (join : ManhBay io be → KetQua) (faithful : Faithful laws content T join) where
  abbrev pub PlacedIn : {A : Type 0} → Result A × (Session io be × Backend.World be) → Type 0
  PlacedIn (r, (s, w)) = Placed laws content T s

  then-Placed :
      (r : Result Done × Session io be) (k : Session io be → Result Done × Session io be)
      → Placed laws content T r.1
      → ((s : Session io be) → Placed laws content T s → Placed laws content T (k s).1)
      → Placed laws content T (and_then r (λ _. k)).1
  then-Placed (ok _, s) k h next = next s h
  then-Placed (err e, s) k h next = h

  then-PlacedIn :
      {A : Type 0} (r : Result Done × (Session io be × Backend.World be))
      (k : Session io be × Backend.World be → Result A × (Session io be × Backend.World be))
      → PlacedIn r
      → ((s : Session io be) (w : Backend.World be)
          → r ≡ (ok tt, (s, w))
          → Placed laws content T s
          → PlacedIn (k (s, w)))
      → PlacedIn (and_then r (λ _. k))
  then-PlacedIn (ok _, (s, w)) k h next = next s w refl h
  then-PlacedIn (err e, (s, w)) k h next = h

  drain-Placed :
      (fuel : ℕ) (s : Session io be)
      → Placed laws content T s
      → Placed laws content T (drain fuel join s).1
  unfolding drain
  drain-Placed zero s h = h
  drain-Placed (suc fuel) s h =
      let rest = and_then (thu_mot_manh join s) (λ _. drain fuel join) in
      elim (leb s.so_manh_song_song (length s.dang_bay))
        as (λ b. Placed laws content T (if b then rest else (ok tt, s)).1) [
          | true ↦
              then-Placed (thu_mot_manh join s) (drain fuel join)
                (thu_mot-Placed laws content T join s faithful h) (drain-Placed fuel)
          | false ↦ h
        ]

  dong_manh-Placed :
      (s : Session io be) (w : Backend.World be)
      → Placed laws content T s
      → PlacedIn (dong_manh join (s, w))
  unfolding dong_manh
  dong_manh-Placed s w h =
      let one : leb s.so_manh_song_song 1 ≡ false = ground (arith, h.many) in
      let d = drain (length s.dang_bay + 1) join (giao_manh_cho_nen s) in
      subst (λ b. PlacedIn (if b then close_chunk (s, w) else with_world w d)) (sym one)
        (drain-Placed (length s.dang_bay + 1) (giao_manh_cho_nen s)
          (giao-Placed laws content T s h))

  dong_if_full-Placed :
      (s : Session io be) (w : Backend.World be)
      → Placed laws content T s
      → PlacedIn (dong_if_full join (s, w))
  unfolding dong_if_full
  dong_if_full-Placed s w h =
      elim (leb s.chunk_size s.chunk_written)
        as (λ b. PlacedIn (if b then dong_manh join (s, w) else (ok tt, (s, w)))) [
          | true ↦ dong_manh-Placed s w h
          | false ↦ h
        ]

  bao-Placed :
      (e : String) (s : Session io be)
      → Placed laws content T s
      → Placed laws content T (bao join e s)
  unfolding bao
  bao-Placed e s h =
      ghi_nhan_loi-Placed laws content T e _
        (elim (ltb 1 s.so_manh_song_song && not (length s.dang_bay == 0))
          as (λ b. Placed laws content T (if b then (thu_het_manh join s).1 else s)) [
            | true ↦ thu_het-Placed laws content T join s faithful h
            | false ↦ h
          ])

  pub ensure_open-Placed :
      (o : Option (ChunkBuffer io (Backend.World be))) (s : Session io be) (w : Backend.World be)
      → Placed laws content T s
      → PlacedIn (ensure_open o (s, w))
  unfolding ensure_open
  ensure_open-Placed none s w h = open_chunk-Placed laws content T s w h
  ensure_open-Placed (some b) s w h = h

  append_done-Placed :
      (s : Session io be) (piece : Bytes)
      (r : Result Done × (ChunkBuffer io (Backend.World be) × Backend.World be))
      → Placed laws content T s
      → r.0 ≡ ok tt
      → InMemory laws r.1.0 (slice T s.chunk_offset (s.chunk_written + length piece))
      → PlacedIn (append_done s piece r)
  unfolding append_done
  append_done-Placed s piece (err e, (b, w)) h o m = absurd (ground (arith, o))
  append_done-Placed s piece (ok _, (b, w)) h o m = record {
    in_memory = h.in_memory;
    many = h.many;
    rows = h.rows;
    loaded = h.loaded;
    opened = λ c e.
        let same : b ≡ c = ground (arith, e) in
        subst (λ d. InMemory laws d (slice T s.chunk_offset (s.chunk_written + length piece))) same
          m;
  }

  append_piece-Placed :
      (s : Session io be) (b : ChunkBuffer io (Backend.World be)) (piece : Bytes)
      (w : Backend.World be)
      → Placed laws content T s
      → s.buffer ≡ some b
      → piece ≡ take (length piece) (drop (s.chunk_offset + s.chunk_written) T)
      → PlacedIn (append_piece s.buffer piece (s, w))
  append_piece-Placed s b piece w h e p =
      let a = append-InMemory laws b _ piece w (h.opened b e) in
      rw (append_piece-some T s.buffer b piece s w e) (
        append_done-Placed s piece (append io piece (b, w)) h a.0 (
          subst (InMemory laws (append io piece (b, w)).1.0)
            (slice_grow T s.chunk_offset s.chunk_written (length piece) piece p) a.1))

  receive_piece-Placed :
      (s : Session io be) (b : ChunkBuffer io (Backend.World be)) (bytes : Bytes)
      (w : Backend.World be)
      → Inv T s
      → Placed laws content T s
      → s.buffer ≡ some b
      → Sends T s bytes
      → PlacedIn (receive_piece join bytes (s, w))
  unfolding receive_piece
  receive_piece-Placed s b bytes w i h e send =
      let k = min (s.chunk_size - s.chunk_written) (length bytes) in
      let at =
        Sends-drop T s (record s { received_bytes = s.received_bytes + k }) k bytes send
          (omega arith) refl in
      let piece = take k bytes in
      let next : Session io be × Backend.World be
          → Result Bytes × (Session io be × Backend.World be) =
        λ sw. and_then (dong_if_full join sw) (λ _ sw'. (ok (drop k bytes), sw')) in
      elim (k == 0)
        as (λ c. PlacedIn (
          if c
          then and_then (dong_manh join (s, w)) (λ _ sw. (ok bytes, sw))
          else and_then (append_piece s.buffer piece (s, w)) (λ _. next))) [
            | true ↦
                then-PlacedIn (dong_manh join (s, w)) (λ sw. (ok bytes, sw))
                  (dong_manh-Placed s w h) (λ s' w' _ h'. h')
            | false ↦
                then-PlacedIn (append_piece s.buffer piece (s, w)) next
                  (append_piece-Placed s b piece w h e
                    (at.0 ∙ ap (λ n. take (length piece) (drop n T)) i.flying.counted))
                  (λ s' w' _ h'.
                    then-PlacedIn (dong_if_full join (s', w')) (λ sw. (ok (drop k bytes), sw))
                      (dong_if_full-Placed s' w' h') (λ s2 w2 _ h2. h2))
          ]

  pub receive_once-Placed :
      (s : Session io be) (bytes : Bytes) (w : Backend.World be)
      → Inv T s
      → Placed laws content T s
      → Sends T s bytes
      → PlacedIn (receive_once join bytes (s, w))
  unfolding receive_once
  receive_once-Placed s bytes w i h send =
      let (s', b, e, i', eb, g) = ensure_open-Inv T s w i in
      let h' = subst (λ r. PlacedIn r) e (ensure_open-Placed s.buffer s w h) in
      rw e (receive_piece-Placed s' b bytes w i' h' eb (send.0, ap (λ n. drop n T) g ∙ send.1))

  or_bao-Placed :
      (total : ℕ) (bytes : Bytes) (r : Result Bytes × (Session io be × Backend.World be))
      (k : Bytes
        → Session io be × Backend.World be
        → Result Done × (Session io be × Backend.World be))
      → Round T total bytes r
      → PlacedIn r
      → ((rest : Bytes) (s : Session io be) (w : Backend.World be)
          → Inv T s
          → Placed laws content T s
          → Sends T s rest
          → length rest < length bytes
          → PlacedIn (k rest (s, w)))
      → PlacedIn (or_bao join r k)
  unfolding or_bao
  or_bao-Placed total bytes (ok x, (s, w)) k (inl (rest, e, i, send, l, n)) h next =
      let same : x ≡ rest = cc e in
      subst (λ y. PlacedIn (k y (s, w))) (sym same) (next rest s w i h send l)
  or_bao-Placed total bytes (ok x, (s, w)) k (inr (y, e, f)) h next = absurd (ground (arith, e))
  or_bao-Placed total bytes (err x, (s, w)) k r h next = bao-Placed x s h

  receive_loop-Placed :
      (fuel : ℕ) (bytes : Bytes) (s : Session io be) (w : Backend.World be)
      → Inv T s
      → Placed laws content T s
      → Sends T s bytes
      → PlacedIn (receive_loop fuel join bytes (s, w))
  unfolding receive_loop
  receive_loop-Placed fuel [] s w i h send = h
  receive_loop-Placed zero (x ∷ xs) s w i h send = h
  receive_loop-Placed (suc fuel) (x ∷ xs) s w i h send =
      or_bao-Placed _ (x ∷ xs) (receive_once join (x ∷ xs) (s, w)) (receive_loop fuel join)
        (ensured-Round T join s w (x ∷ xs) i send (omega arith))
        (receive_once-Placed s (x ∷ xs) w i h send)
        (λ rest s' w' i' h' send' l. receive_loop-Placed fuel rest s' w' i' h' send')

  pub receiving-Placed :
      (s : Session io be)
      → Placed laws content T s
      → Placed laws content T (record s { state = receiving })
  receiving-Placed s h = record {
    in_memory = h.in_memory;
    many = h.many;
    rows = h.rows;
    loaded = h.loaded;
    opened = h.opened;
  }

  receive_in-Placed :
      (st : UploadState) (bytes : Bytes) (s : Session io be) (w : Backend.World be)
      → Inv T s
      → Placed laws content T s
      → Sends T s bytes
      → PlacedIn (receive_in st join bytes (s, w))
  unfolding receive_in
  receive_in-Placed failed bytes s w i h send = h
  receive_in-Placed cancelled bytes s w i h send = h
  receive_in-Placed preparing bytes s w i h send =
      receive_loop-Placed _ bytes _ w (receiving-Inv T s i) (receiving-Placed s h) send
  receive_in-Placed receiving bytes s w i h send =
      receive_loop-Placed _ bytes _ w (receiving-Inv T s i) (receiving-Placed s h) send
  receive_in-Placed flushing bytes s w i h send =
      receive_loop-Placed _ bytes _ w (receiving-Inv T s i) (receiving-Placed s h) send
  receive_in-Placed completed bytes s w i h send =
      receive_loop-Placed _ bytes _ w (receiving-Inv T s i) (receiving-Placed s h) send

  -- With several chunks at once, kept in memory, let the session be in order against `T`, let the
  -- client send bytes of `T` from the received count on, let the document of each row have the row's
  -- bytes of `T`, each chunk in flight and the open chunk hold theirs, and let a thread that reports a
  -- place have stored there what its chunk held. Then `receive` keeps this, whether it succeeds or
  -- fails: no row ever points at other bytes than its own.
  pub receive-Placed :
      (bytes : Bytes) (s : Session io be) (w : Backend.World be)
      → Inv T s
      → Placed laws content T s
      → Sends T s bytes
      → PlacedIn (receive join bytes (s, w))
  unfolding receive
  receive-Placed bytes s w i h send =
      elim s.is_cancelled
        as (λ b. PlacedIn (
          if b
          then (err "Phiên tải lên đã bị huỷ", (s, w))
          else receive_in s.state join bytes (s, w))) [
            | true ↦ h
            | false ↦ receive_in-Placed s.state bytes s w i h send
          ]
