-- ===== src/Storage/Upload/Receive/Steps.antt =====
-- The invariant and the parts of a round of `receive`, with several chunks at once: `bao`, opening
-- the buffer, the append and `dongManh`.
use telegram_disk.Base.{
  ℕ, zero, suc, ◌+◌, ◌-◌, ◌≤◌, ◌<◌, ◌≡◌, refl, sym, ap, ◌∙◌, subst, ◌⊎◌, inl, inr, true, false, not,
  ◌&&◌, Bool-cases, Option-cases, none, some, ◌++◌, List-cases, leb→le, lt→ltb, length, take, drop,
  take_split, drop-drop, arith, if◌then◌else◌, leb, ltb, ◌==◌,
}
use telegram_disk.Base.Bits.{Bytes}
use telegram_disk.Base.Result.{Done, Result, ok, err, and_then}
use telegram_disk.Crypto.Sha256.{reset, update}
use telegram_disk.Crypto.Sha256.Stream.{update-append, update-nil, reset-IsOpen}
use telegram_disk.Storage.ChunkBuffer.Files.{Stdio}
use telegram_disk.Storage.ChunkBuffer.{ChunkBuffer, create}
use telegram_disk.Storage.Upload.Backend.{Backend}
use telegram_disk.Storage.Upload.Session.{
  Session, ManhBay, KetQua, open_chunk, giao_manh_cho_nen, thu_mot_manh, thu_het_manh, ghi_nhan_loi,
  chunk_opened,
}
use telegram_disk.Storage.Upload.Session.Invariant.{slice, hashed, Stored, Flying, Ready}
use telegram_disk.Storage.Upload.Session.Rewind.{thu_het-Good}
use telegram_disk.Storage.Upload.Session.Keep.{Broken, Outcome, Ready-same, giao-Good, thu_mot-Good}
use telegram_disk.Storage.Upload.Receive.{
  drain, dong_manh, bao, ensure_open, append_done, dong_if_full, with_world,
}
use Prim.Native.String.{String}
use mathlib.Core.Path.{ap₂}

-- A slice and the next bytes behind it.
pub slice_grow :
    (T : Bytes) (o n k : ℕ) (piece : Bytes)
    → piece ≡ take k (drop (o + n) T)
    → slice T o n ++ piece ≡ slice T o (n + k)
slice_grow T o n k piece e =
    let same : piece ≡ take (n + k - n) (drop n (drop o T)) =
      e ∙ ap₂ take (omega arith) (sym (drop-drop o n T)) in
    ap (λ p. slice T o n ++ p) same ∙ sym (take_split n (n + k) (drop o T) (omega arith))

hashed-slice :
    (T : Bytes) (o n k : ℕ) (piece : Bytes)
    → piece ≡ take k (drop (o + n) T)
    → update (hashed (slice T o n)) piece ≡ hashed (slice T o (n + k))
hashed-slice T o n k piece e =
    update-append reset (slice T o n) piece reset-IsOpen ∙ ap hashed (slice_grow T o n k piece e)

module _ {io : Stdio} {be : Backend} (T : Bytes) where
  -- The session is in order, and so is its open chunk.
  pub record Inv (s : Session io be) : Type 0 where
    pub stored : Stored T s
    pub flying : Flying T s
    pub ready : Ready T s

  -- What a failing exit leaves to `bao`: all in order, or a chunk lost and others behind it.
  abbrev pub Failing : Session io be → Type 0
  Failing s = Inv s ⊎ (Broken T s × Ready T s × (0 < length s.dang_bay))

  pub Ready-idle :
      (s : Session io be) → 0 < s.chunk_size → s.buffer ≡ none → s.chunk_written ≡ 0 → Ready T s
  Ready-idle s h b w = record { idle = λ _. w; opened = λ c e. cc; room = omega arith }

  pub ghi_nhan_loi-Inv : (e : String) (s : Session io be) → Inv s → Inv (ghi_nhan_loi e s)
  unfolding ghi_nhan_loi
  ghi_nhan_loi-Inv e s h = record {
    stored = record {
      sized = h.stored.sized;
      many = h.stored.many;
      records = h.stored.records;
      committed = h.stored.committed;
      within = h.stored.within;
    };
    flying = record {
      sound = h.flying.sound;
      flights = h.flying.flights;
      numbered = h.flying.numbered;
      counted = h.flying.counted;
      reached = h.flying.reached;
      whole_hash = h.flying.whole_hash;
    };
    ready = record { idle = h.ready.idle; opened = h.ready.opened; room = h.ready.room };
  }

  pub thu_het-Inv :
      (join : ManhBay io be → KetQua) (s : Session io be)
      → Outcome T s
      → Ready T s
      → Inv (thu_het_manh join s).1
  thu_het-Inv join s o ready =
      let (g, e, r) = thu_het-Good T join s o in
      elim r [
        | inl (_, _, same) ↦ record {
          stored = g.0;
          flying = g.1;
          ready = Ready-same T _ s same ready;
        }
        | inr (_, _, b, w) ↦ record {
          stored = g.0;
          flying = g.1;
          ready = Ready-idle _ g.0.sized b w;
        }
      ]

  pub bao-Inv :
      (join : ManhBay io be → KetQua) (e : String) (s : Session io be)
      → Failing s
      → Inv (bao join e s)
  unfolding bao
  bao-Inv join e s (inl h) =
      ghi_nhan_loi-Inv e _
        (elim (ltb 1 s.so_manh_song_song && not (length s.dang_bay == 0))
          as (λ b. Inv (if b then (thu_het_manh join s).1 else s)) [
            | true ↦ thu_het-Inv join s (inl (h.stored, h.flying)) h.ready
            | false ↦ h
          ])
  bao-Inv join e s (inr (b, ready, l)) =
      let go : (ltb 1 s.so_manh_song_song && not (length s.dang_bay == 0)) ≡ true =
        ground (arith, b.0.many) in
      ghi_nhan_loi-Inv e _ (
        subst (λ t. Inv (if t then (thu_het_manh join s).1 else s)) (sym go)
          (thu_het-Inv join s (inr b) ready))

  open_chunk-many :
      (s : Session io be) (w : Backend.World be)
      → 1 < s.so_manh_song_song
      → open_chunk (s, w) ≡ (ok tt, (chunk_opened s none, w))
  unfolding open_chunk
  open_chunk-many s w h = rw (lt→ltb 1 s.so_manh_song_song h) refl

  -- `openChunk` on this path opens the buffer and nothing else.
  pub ensure_open-Inv :
      (s : Session io be) (w : Backend.World be)
      → Inv s
      → (s' : Session io be) × (b : ChunkBuffer io (Backend.World be)) × (ensure_open s.buffer
            (s, w)
          ≡ (ok tt, (s', w)))
        × Inv s'
        × (s'.buffer ≡ some b)
        × (s'.received_bytes ≡ s.received_bytes)
  unfolding ensure_open
  ensure_open-Inv s w h = elim (Option-cases s.buffer) [
    | inr (b, e) ↦ (s, b, ap (λ o. ensure_open o (s, w)) e, h, e, refl)
    | inl e ↦
        let z = h.ready.idle e in
        let b = create io s.che_do_dem (s.spool_path s.chunk_index) none in
        (
          chunk_opened s none,
          b,
          ap (λ o. ensure_open o (s, w)) e ∙ open_chunk-many s w h.stored.many,
          record {
            stored = record {
              sized = h.stored.sized;
              many = h.stored.many;
              records = h.stored.records;
              committed = h.stored.committed;
              within = h.stored.within;
            };
            flying = record {
              sound = h.flying.sound;
              flights = h.flying.flights;
              numbered = h.flying.numbered;
              counted = omega (arith, h.flying.counted, z);
              reached = h.flying.reached;
              whole_hash = h.flying.whole_hash;
            };
            ready = record {
              idle = λ _. refl;
              opened = λ _ _. sym update-nil;
              room = h.stored.sized;
            };
          },
          refl,
          refl,
        )
  ]

  -- Between `append` and the test for a full chunk.
  pub record Filling (s : Session io be) : Type 0 where
    pub stored : Stored T s
    pub flying : Flying T s
    pub store : ChunkBuffer io (Backend.World be)
    pub buffer : s.buffer ≡ some store
    pub part_hash : s.chunk_hasher ≡ hashed (slice T s.chunk_offset s.chunk_written)
    pub unfilled : s.chunk_written ≤ s.chunk_size

  pub append_done-Inv :
      (s : Session io be) (b : ChunkBuffer io (Backend.World be)) (piece : Bytes)
      (r : Result Done × (ChunkBuffer io (Backend.World be) × Backend.World be))
      → Inv s
      → s.buffer ≡ some b
      → piece ≡ take (length piece) (drop s.received_bytes T)
      → s.received_bytes + length piece ≤ length T
      → s.chunk_written + length piece ≤ s.chunk_size
      → let (q, (s', w')) = append_done s piece r in
        ((q ≡ ok tt) × Filling s' × (s'.received_bytes ≡ s.received_bytes + length piece))
        ⊎ ((x : String) × (q ≡ err x) × Inv s')
  unfolding append_done
  append_done-Inv s b piece (err x, (b', w')) h e p l m = inr (
    x,
    refl,
    record {
      stored = record {
        sized = h.stored.sized;
        many = h.stored.many;
        records = h.stored.records;
        committed = h.stored.committed;
        within = h.stored.within;
      };
      flying = record {
        sound = h.flying.sound;
        flights = h.flying.flights;
        numbered = h.flying.numbered;
        counted = h.flying.counted;
        reached = h.flying.reached;
        whole_hash = h.flying.whole_hash;
      };
      ready = record { idle = λ n. cc; opened = λ _ _. h.ready.opened b e; room = h.ready.room };
    },
  )
  append_done-Inv s b piece (ok _, (b', w')) h e p l m = inl (
    refl,
    record {
      stored = record {
        sized = h.stored.sized;
        many = h.stored.many;
        records = h.stored.records;
        committed = h.stored.committed;
        within = h.stored.within;
      };
      flying = record {
        sound = h.flying.sound;
        flights = h.flying.flights;
        numbered = h.flying.numbered;
        counted = omega (arith, h.flying.counted);
        reached = l;
        whole_hash =
            ap (λ g. update g piece) h.flying.whole_hash
            ∙ hashed-slice T 0 s.received_bytes (length piece) piece
                (p ∙ ap (λ n. take (length piece) (drop n T)) (omega arith));
      };
      store = b';
      buffer = refl;
      part_hash =
          ap (λ g. update g piece) (h.ready.opened b e)
          ∙ hashed-slice T s.chunk_offset s.chunk_written (length piece) piece
              (p ∙ ap (λ n. take (length piece) (drop n T)) h.flying.counted);
      unfilled = m;
    },
    refl,
  )

  -- Closing and draining: in order with the same bytes received, or a failing exit.
  abbrev pub Steps : Session io be → Result Done × Session io be → Type 0
  Steps s (r, s') =
      ((r ≡ ok tt) × Inv s' × (s'.received_bytes ≡ s.received_bytes))
      ⊎ ((x : String) × (r ≡ err x) × Failing s')

  Steps-then :
      (s : Session io be) (r : Result Done × Session io be)
      (k : Session io be → Result Done × Session io be)
      → Steps s r
      → ((s' : Session io be) → Inv s' → Steps s' (k s'))
      → Steps s (and_then r (λ _. k))
  Steps-then s (ok _, s') k (inl (e, h, g)) next = elim (next s' h) [
    | inl (e', h', g') ↦ inl (e', h', g' ∙ g)
    | inr f ↦ inr f
  ]
  Steps-then s (err x, s') k (inl (e, h, g)) next = ground arith
  Steps-then s (ok _, s') k (inr (x, e, f)) next = ground arith
  Steps-then s (err x, s') k (inr (y, e, f)) next = inr (x, refl, f)

  pub thu_mot-Steps :
      (join : ManhBay io be → KetQua) (s : Session io be)
      → Inv s
      → 2 ≤ length s.dang_bay
      → Steps s (thu_mot_manh join s)
  thu_mot-Steps join s h l = elim (List-cases s.dang_bay) [
    | inl e ↦ absurd (omega (arith, ap length e))
    | inr (m, ms, e) ↦
        let (r, left, got, same) = thu_mot-Good T join s m ms (h.stored, h.flying) e in
        let ready = Ready-same T _ s same h.ready in
        elim r [
          | inl (o, g) ↦ inl (o, record { stored = g.0; flying = g.1; ready = ready }, got)
          | inr (x, o, b) ↦ inr (x, o, inr (b, ready, omega (arith, ap length left, ap length e)))
        ]
  ]

  pub drain-Inv :
      (fuel : ℕ) (join : ManhBay io be → KetQua) (s : Session io be)
      → Inv s
      → Steps s (drain fuel join s)
  unfolding drain
  drain-Inv zero join s h = inl (refl, h, refl)
  drain-Inv (suc fuel) join s h = elim (Bool-cases (leb s.so_manh_song_song (length s.dang_bay))) [
    | inr c ↦ rw c (inl (refl, h, refl))
    | inl c ↦ rw c (
        Steps-then s (thu_mot_manh join s) (drain fuel join)
          (thu_mot-Steps join s h (omega (arith, leb→le _ _ c, h.stored.many)))
          (drain-Inv fuel join))
  ]

  pub giao-rest :
      (s : Session io be) (b : ChunkBuffer io (Backend.World be))
      → s.buffer ≡ some b
      → let t = giao_manh_cho_nen s in
        (t.buffer ≡ none) × (t.chunk_written ≡ 0) × (t.received_bytes ≡ s.received_bytes)
  unfolding giao_manh_cho_nen
  giao-rest s b e = rw e (refl, refl, refl)

  pub giao-Inv : (s : Session io be) → Filling s → Inv (giao_manh_cho_nen s)
  giao-Inv s h =
      let g = giao-Good T s h.store (h.stored, h.flying) h.part_hash h.buffer in
      let rest = giao-rest s h.store h.buffer in
      record { stored = g.0; flying = g.1; ready = Ready-idle _ g.0.sized rest.0 rest.1 }

  abbrev pub StepsIn : Session io be → Result Done × (Session io be × Backend.World be) → Type 0
  StepsIn s (r, (s', w)) = Steps s (r, s')

  with_world-Steps :
      (s : Session io be) (w : Backend.World be) (r : Result Done × Session io be)
      → Steps s r
      → StepsIn s (with_world w r)
  with_world-Steps s w (r, s') h = h

  dong_manh-Steps :
      (join : ManhBay io be → KetQua) (s : Session io be) (w : Backend.World be)
      → Filling s
      → StepsIn s (dong_manh join (s, w))
  unfolding dong_manh
  dong_manh-Steps join s w h =
      let one : leb s.so_manh_song_song 1 ≡ false = ground (arith, h.stored.many) in
      let t = giao_manh_cho_nen s in
      let d = drain-Inv (length s.dang_bay + 1) join t (giao-Inv s h) in
      let same = (giao-rest s h.store h.buffer).2 in
      rw one (
        with_world-Steps s w (drain (length s.dang_bay + 1) join t)
          (elim d [ inl (e, i, g) ↦ inl (e, i, g ∙ same) | inr f ↦ inr f ]))

  Filling-Inv : (s : Session io be) → Filling s → s.chunk_written < s.chunk_size → Inv s
  Filling-Inv s h l = record {
    stored = h.stored;
    flying = h.flying;
    ready = record { idle = λ n. cc (h.buffer, n); opened = λ _ _. h.part_hash; room = l };
  }

  pub dong_if_full-Steps :
      (join : ManhBay io be → KetQua) (s : Session io be) (w : Backend.World be)
      → Filling s
      → StepsIn s (dong_if_full join (s, w))
  unfolding dong_if_full
  dong_if_full-Steps join s w h = elim (Bool-cases (leb s.chunk_size s.chunk_written)) [
    | inl c ↦ rw c (dong_manh-Steps join s w h)
    | inr c ↦ rw c (inl (refl, Filling-Inv s h (ground (arith, c)), refl))
  ]
