-- ===== src/Storage/Upload/Receive/Live.antt =====
-- `receive` with several chunks at once, in memory, when every thread reports a place.
use telegram_disk.Base.{
  ℕ, zero, suc, ◌+◌, ◌-◌, ◌<◌, min, ◌≡◌, refl, sym, ap, ◌∙◌, subst, true, false, inl, inr, ◌⊎◌, [],
  ◌∷◌, length, take, drop, length-take, length-drop, length-append, some, arith, if◌then◌else◌, leb,
  ◌==◌, Bool-cases, leb→le,
}
use telegram_disk.Base.Bits.{Bytes}
use telegram_disk.Base.Result.{Done, Result, ok, err, and_then}
use Prim.Native.String.{String}
use telegram_disk.Storage.ChunkBuffer.Files.{Stdio, StdioLaws}
use telegram_disk.Storage.ChunkBuffer.{ChunkBuffer, append}
use telegram_disk.Storage.ChunkBuffer.Exact.{append-InMemory}
use telegram_disk.Storage.Upload.Backend.{Backend}
use telegram_disk.Storage.Upload.Session.{
  Session, ManhBay, KetQua, UploadState, preparing, receiving, failed, thu_mot_manh,
  giao_manh_cho_nen, close_chunk,
}
use telegram_disk.Storage.Upload.Session.Live.{Sure, Lands, thu_mot-Sure}
use telegram_disk.Storage.Upload.Session.Placed.{Placed, Faithful}
use telegram_disk.Storage.Upload.Receive.{
  with_world, drain, dong_manh, append_done, dong_if_full, receive_piece, receive_once, or_bao,
  receive_loop, receive_in, receive,
}
use telegram_disk.Storage.Upload.Receive.Steps.{
  Inv, Filling, Steps, thu_mot-Steps, giao-Inv, ensure_open-Inv, append_done-Inv,
}
use telegram_disk.Storage.Upload.Receive.Exact.{
  Sends, Round, Sends-drop, append_piece-some, ensured-Round, receiving-Inv,
}
use telegram_disk.Storage.Upload.Receive.Placed.{
  receive_once-Placed, ensure_open-Placed, receiving-Placed,
}

then-Sure :
    {S A B : Type 0} (r : Result A × S) (k : A → S → Result B × S)
    → Sure r
    → ((a : A) (s : S) → r ≡ (ok a, s) → Sure (k a s))
    → Sure (and_then r k)
then-Sure (ok a, s) k h next = next a s refl
then-Sure (err e, s) k h next = λ x b. absurd (h e refl)

-- A failed session takes no bytes.
pub receive_failed :
    {io : Stdio} {be : Backend} (join : ManhBay io be → KetQua) (bytes : Bytes) (s : Session io be)
    (w : Backend.World be)
    → s.state ≡ failed
    → (receive join bytes (s, w)).1.0 ≡ s
unfolding receive receive_in
receive_failed join bytes s w e = elim (Bool-cases s.is_cancelled) [
  | inl c ↦ rw c refl
  | inr c ↦ rw (c, e) refl
]

module _ {io : Stdio} {be : Backend} (T : Bytes) (join : ManhBay io be → KetQua)
    (lands : Lands join) where
  sound_of :
      (r : Result Done × Session io be) (s' s : Session io be)
      → r ≡ (ok tt, s')
      → Steps T s r
      → Inv T s'
  sound_of (ok _, u) s' s e (inl (_, h, _)) = subst (Inv T) (ap (λ p. p.1) e) h
  sound_of (ok _, u) s' s e (inr (x, b, _)) = absurd (ground (arith, b))
  sound_of (err x, u) s' s e h = absurd (cc (ap (λ p. p.0) e))

  drain-Sure : (fuel : ℕ) (s : Session io be) → Inv T s → Sure (drain fuel join s)
  unfolding drain
  drain-Sure zero s h = λ x b. absurd (ground (arith, b))
  drain-Sure (suc fuel) s h = elim (Bool-cases (leb s.so_manh_song_song (length s.dang_bay))) [
    | inr c ↦ rw c (λ x b. absurd (ground (arith, b)))
    | inl c ↦
        let step = thu_mot-Steps T join s h (omega (arith, leb→le _ _ c, h.stored.many)) in
        let sure = thu_mot-Sure join s lands h.flying.sound in
        rw c (
          then-Sure (thu_mot_manh join s) (λ _. drain fuel join) sure
            (λ _ s' e. drain-Sure fuel s' (sound_of (thu_mot_manh join s) s' s e step)))
  ]

  dong_manh-Sure :
      (s : Session io be) (w : Backend.World be) → Filling T s → Sure (dong_manh join (s, w))
  unfolding dong_manh
  dong_manh-Sure s w h =
      let one : leb s.so_manh_song_song 1 ≡ false = ground (arith, h.stored.many) in
      let d = drain (length s.dang_bay + 1) join (giao_manh_cho_nen s) in
      subst (λ b. Sure (if b then close_chunk (s, w) else with_world w d)) (sym one)
        (drain-Sure (length s.dang_bay + 1) (giao_manh_cho_nen s) (giao-Inv T s h))

  dong_if_full-Sure :
      (s : Session io be) (w : Backend.World be) → Filling T s → Sure (dong_if_full join (s, w))
  unfolding dong_if_full
  dong_if_full-Sure s w h =
      elim (leb s.chunk_size s.chunk_written)
        as (λ b. Sure (if b then dong_manh join (s, w) else (ok tt, (s, w)))) [
          | true ↦ dong_manh-Sure s w h
          | false ↦ λ x b. absurd (ground (arith, b))
        ]

  append_done-Sure :
      (s : Session io be) (piece : Bytes)
      (r : Result Done × (ChunkBuffer io (Backend.World be) × Backend.World be))
      → r.0 ≡ ok tt
      → Sure (append_done s piece r)
  unfolding append_done
  append_done-Sure s piece (ok _, p) e = λ x b. absurd (ground (arith, b))
  append_done-Sure s piece (err y, p) e = absurd (ground (arith, e))

  Filling-of :
      (a : Result Done × (Session io be × Backend.World be)) (s' : Session io be)
      (w' : Backend.World be) (n : ℕ)
      → a ≡ (ok tt, (s', w'))
      → (let (q, (t, v)) = a in
          ((q ≡ ok tt) × Filling T t × (t.received_bytes ≡ n))
          ⊎ ((x : String) × (q ≡ err x) × Inv T t))
      → Filling T s'
  Filling-of (ok _, (t, v)) s' w' n e (inl (_, h, _)) = subst (Filling T) (ap (λ p. p.1.0) e) h
  Filling-of (ok _, (t, v)) s' w' n e (inr (x, b, _)) = absurd (ground (arith, b))
  Filling-of (err x, (t, v)) s' w' n e h = absurd (cc (ap (λ p. p.0) e))

module _ {io : Stdio} (laws : StdioLaws io) {be : Backend} (content : ℕ → Bytes) (T : Bytes)
    (join : ManhBay io be → KetQua) (faithful : Faithful laws content T join)
    (lands : Lands join) where
  receive_piece-Sure :
      (s : Session io be) (b : ChunkBuffer io (Backend.World be)) (bytes : Bytes)
      (w : Backend.World be)
      → Inv T s
      → Placed laws content T s
      → s.buffer ≡ some b
      → Sends T s bytes
      → 0 < length bytes
      → Sure (receive_piece join bytes (s, w))
  unfolding receive_piece
  receive_piece-Sure s b bytes w i h e send l =
      let k = min (s.chunk_size - s.chunk_written) (length bytes) in
      let piece = take k bytes in
      let p : 0 < k = omega (arith, i.ready.room, l) in
      let some_room : (k == 0) ≡ false = ground (arith, p) in
      let at =
        Sends-drop T s (record s { received_bytes = s.received_bytes + k }) k bytes send
          (omega arith) refl in
      let n = length-take k bytes in
      let a = append io piece (b, w) in
      let done =
        append_done-Inv T s b piece a i e at.0
          (omega (
            arith,
            n,
            length-drop s.received_bytes T,
            ap length send.1,
            length-append bytes send.0,
            l,
          ))
          (omega (arith, n, i.ready.room)) in
      rw some_room (
        rw (append_piece-some T s.buffer b piece s w e) (
          then-Sure (append_done s piece a)
            (λ _ sw. and_then (dong_if_full join sw) (λ _ sw'. (ok (drop k bytes), sw')))
            (append_done-Sure T join lands s piece a
              (append-InMemory laws b _ piece w (h.opened b e)).0)
            (λ _ sw q.
              then-Sure (dong_if_full join sw) (λ _ sw'. (ok (drop k bytes), sw'))
                (dong_if_full-Sure T join lands sw.0 sw.1
                  (Filling-of T join lands (append_done s piece a) sw.0 sw.1 _ q done))
                (λ _ _ _ x b. absurd (ground (arith, b))))))

  receive_once-Sure :
      (s : Session io be) (bytes : Bytes) (w : Backend.World be)
      → Inv T s
      → Placed laws content T s
      → Sends T s bytes
      → 0 < length bytes
      → Sure (receive_once join bytes (s, w))
  unfolding receive_once
  receive_once-Sure s bytes w i h send l =
      let (s', b, e, i', eb, g) = ensure_open-Inv T s w i in
      let h' =
        subst (λ r. Placed laws content T r.1.0) e
          (ensure_open-Placed laws content T join faithful s.buffer s w h) in
      rw e (receive_piece-Sure s' b bytes w i' h' eb (send.0, ap (λ n. drop n T) g ∙ send.1) l)

  or_bao-Sure :
      (total : ℕ) (bytes : Bytes) (r : Result Bytes × (Session io be × Backend.World be))
      (k : Bytes
        → Session io be × Backend.World be
        → Result Done × (Session io be × Backend.World be))
      → Round T total bytes r
      → Placed laws content T r.1.0
      → Sure r
      → ((rest : Bytes) (s : Session io be) (w : Backend.World be)
          → Inv T s
          → Placed laws content T s
          → Sends T s rest
          → length rest < length bytes
          → Sure (k rest (s, w)))
      → Sure (or_bao join r k)
  unfolding or_bao
  or_bao-Sure total bytes (ok x, (s, w)) k (inl (rest, e, i, send, l, n)) h sure next =
      let same : x ≡ rest = cc e in
      subst (λ y. Sure (k y (s, w))) (sym same) (next rest s w i h send l)
  or_bao-Sure total bytes (ok x, (s, w)) k (inr (y, e, f)) h sure next = absurd (ground (arith, e))
  or_bao-Sure total bytes (err x, (s, w)) k r h sure next = absurd (sure x refl)

  receive_loop-Sure :
      (fuel : ℕ) (bytes : Bytes) (s : Session io be) (w : Backend.World be)
      → length bytes < fuel
      → Inv T s
      → Placed laws content T s
      → Sends T s bytes
      → Sure (receive_loop fuel join bytes (s, w))
  unfolding receive_loop
  receive_loop-Sure fuel [] s w f i h send = λ x b. absurd (ground (arith, b))
  receive_loop-Sure zero (x ∷ xs) s w f i h send = absurd (omega arith)
  receive_loop-Sure (suc fuel) (x ∷ xs) s w f i h send =
      or_bao-Sure _ (x ∷ xs) (receive_once join (x ∷ xs) (s, w)) (receive_loop fuel join)
        (ensured-Round T join s w (x ∷ xs) i send (omega arith))
        (receive_once-Placed laws content T join faithful s (x ∷ xs) w i h send)
        (receive_once-Sure s (x ∷ xs) w i h send (omega arith))
        (λ rest s' w' i' h' send' l. receive_loop-Sure fuel rest s' w' (omega arith) i' h' send')

  pub receive-Sure :
      (bytes : Bytes) (s : Session io be) (w : Backend.World be)
      → Inv T s
      → Placed laws content T s
      → Sends T s bytes
      → s.is_cancelled ≡ false
      → (s.state ≡ receiving) ⊎ (s.state ≡ preparing)
      → Sure (receive join bytes (s, w))
  unfolding receive receive_in
  receive-Sure bytes s w i h send c st =
      let go =
        receive_loop-Sure (length bytes + 1) bytes (record s { state = receiving }) w (omega arith)
          (receiving-Inv T s i) (receiving-Placed laws content T join faithful s h) send in
      let in_state = λ (u : UploadState). Sure (receive_in u join bytes (s, w)) in
      subst
        (λ b. Sure (
          if b
          then (err "Phiên tải lên đã bị huỷ", (s, w))
          else receive_in s.state join bytes (s, w)))
        (sym c) (elim st [ inl e ↦ subst in_state (sym e) go | inr e ↦ subst in_state (sym e) go ])
