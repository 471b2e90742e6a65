-- ===== src/Storage/ChunkBuffer/Exact.antt =====
-- The bytes that enter and leave a chunk buffer, in memory and on disk.
use telegram_disk.Base.{
  ℕ, zero, suc, ◌+◌, ◌-◌, ◌≤◌, min, ◌≡◌, refl, sym, ap, subst, ◌∙◌, false, ◌⊎◌, inl, inr, none,
  some, [], ◌∷◌, ◌++◌, length, take, drop, length-drop, take-append-drop, drop-drop, length-append,
  take_all, length-zero, take_split, append-nil, arith, ◌==◌, Bool-cases, ==→eq,
}
use mathlib.Core.Path.{ap₂}
use Prim.Native.String.{String}
use telegram_disk.Base.Bits.{Bytes}
use telegram_disk.Base.Result.{ok, SinkFn, outcome}
use telegram_disk.Storage.ChunkBuffer.Files.{Stdio, StdioLaws, IsHealthy}
use telegram_disk.Storage.ChunkBuffer.Fed.{Fed, done, part}
use telegram_disk.Storage.ChunkBuffer.{
  memory, disk, ChunkBuffer, create, append, flush, flush_memory, flush_file, send_loop, read_loop,
  memory_step, disk_read_block,
}

module _ {io : Stdio} (laws : StdioLaws io) {S : Type 0} where
  pub record InMemory (b : ChunkBuffer io S) (held : Bytes) : Type 0 where
    pub mode : b.mode ≡ memory
    pub bytes : b.bytes ≡ held
    pub buffered : b.buffered ≡ length held
    pub alive : b.discarded ≡ false

  pub record OnDisk (b : ChunkBuffer io S) (held : Bytes) : Type 0 where
    pub mode : b.mode ≡ disk
    pub handle : Stdio.File io
    pub file : b.file ≡ some handle
    pub content : StdioLaws.content laws handle ≡ held
    pub position : StdioLaws.position laws handle ≡ length held
    pub buffered : b.buffered ≡ length held
    pub alive : b.discarded ≡ false

  abbrev pub Holds : ChunkBuffer io S → Bytes → Type 0
  Holds b held = InMemory b held ⊎ OnDisk b held

  -- A new disk buffer whose spool file could be opened holds nothing yet.
  create-OnDisk :
      (p : String) (f : Stdio.File io)
      → Stdio.open_file io p ≡ some f
      → Holds (create io disk p none) []
  unfolding create
  create-OnDisk p f e =
      let o = StdioLaws.opened laws p f e in
      inr (record {
        mode = refl;
        handle = f;
        file = e;
        content = length-zero (StdioLaws.content laws f) o.0;
        position = o.1;
        buffered = refl;
        alive = refl;
      })

  -- In memory, nothing can fail.
  pub append-InMemory :
      (b : ChunkBuffer io S) (held piece : Bytes) (t : S)
      → InMemory b held
      → ((append io piece (b, t)).0 ≡ ok tt) × InMemory (append io piece (b, t)).1.0 (held ++ piece)
  unfolding append
  append-InMemory b held [] t h = ground (arith, append-nil held)
  append-InMemory b held (x ∷ xs) t h = ground (arith, length-append held (x ∷ xs))

  -- Under the laws of stdio: a part that `append` accepts joins what the buffer holds, in memory
  -- and on disk.
  pub append-Holds :
      (b : ChunkBuffer io S) (held piece : Bytes) (t : S)
      → Holds b held
      → (append io piece (b, t)).0 ≡ ok tt
      → Holds (append io piece (b, t)).1.0 (held ++ piece)
  unfolding append
  append-Holds b held piece t (inl h) e = inl (append-InMemory b held piece t h).1
  append-Holds b held [] t (inr h) e = inr (record {
    mode = ground arith;
    handle = h.handle;
    file = ground arith;
    content = ground (arith, append-nil held);
    position = ground (arith, append-nil held);
    buffered = ground (arith, append-nil held);
    alive = ground arith;
  })
  append-Holds b held (x ∷ xs) t (inr h) e =
      let w = StdioLaws.written laws h.handle (x ∷ xs) (ground arith) in
      inr (record {
        mode = ground arith;
        handle = (Stdio.fwrite io h.handle (x ∷ xs)).1;
        file = ground arith;
        content = ground (arith, w);
        position = ground (arith, w, length-append held (x ∷ xs));
        buffered = ground (arith, w, length-append held (x ∷ xs));
        alive = ground arith;
      })

  -- The memory loop: a success has fed the sink all that was left.
  send_loop-Fed :
      (fuel : ℕ) (sink : SinkFn S) (left : Bytes) (t : S)
      → (send_loop io fuel sink left t).0 ≡ ok tt
      → Fed sink t left (send_loop io fuel sink left t).1
  unfolding send_loop
  send_loop-Fed fuel sink [] t e = done
  send_loop-Fed zero sink (x ∷ xs) t e = cc
  send_loop-Fed (suc fuel) sink (x ∷ xs) t e =
      let n = min memory_step (length (x ∷ xs)) in
      elim (outcome (sink (take n (x ∷ xs)) t)) [
        | inl (_, u, q) ↦ rw q (
            part (take n (x ∷ xs)) (drop n (x ∷ xs)) q
              (send_loop-Fed fuel sink (drop n (x ∷ xs)) u (rw q at e))
              (sym (take-append-drop n (x ∷ xs))))
        | inr (m, u, q) ↦ absurd (cc (rw q at e))
      ]

  -- The disk loop: a success has fed the sink the `left` bytes behind the read position.
  read_loop-Fed :
      (fuel : ℕ) (sink : SinkFn S) (left : ℕ) (f : Stdio.File io) (t : S)
      → (read_loop io fuel sink left (f, t)).0 ≡ ok tt
      → Fed sink t
          (take left (drop (StdioLaws.position laws f) (StdioLaws.content laws f)))
          (read_loop io fuel sink left (f, t)).1.1
  unfolding read_loop
  read_loop-Fed fuel sink zero f t e = done
  read_loop-Fed zero sink (suc left) f t e = cc
  read_loop-Fed (suc fuel) sink (suc left) f t e =
      let n = min disk_read_block (suc left) in
      let got = (Stdio.fread io f n).0 in
      let f' = (Stdio.fread io f n).1 in
      let here = drop (StdioLaws.position laws f) (StdioLaws.content laws f) in
      let r = StdioLaws.was_read laws f n in
      elim (Bool-cases (length got == 0)) [
        | inl z ↦ cc (rw z at e)
        | inr z ↦ elim (outcome (sink got t)) [
          | inl (_, u, q) ↦
              rw (z, q)
                (part got (take (suc left - length got) (drop (length got) here)) q
                  (let ih = read_loop-Fed fuel sink (suc left - length got) f' u (rw (z, q) at e) in
                    rw
                      (
                        r.2,
                        r.3,
                        ← drop-drop (StdioLaws.position laws f) (length got)
                            (StdioLaws.content laws f),
                      )
                      at ih)
                  (take_split (length got) (suc left) here (omega (arith, r.1))
                    ∙ ap (λ p. p ++ take (suc left - length got) (drop (length got) here))
                        (sym r.0)))
          | inr (m, u, q) ↦ cc (rw (z, q) at e)
        ]
      ]

  abbrev pub Accepts : SinkFn S → Type 0
  Accepts sink = (piece : Bytes) (t : S) → (sink piece t).0 ≡ ok tt

  send_loop-ok :
      (fuel : ℕ) (sink : SinkFn S) (left : Bytes) (t : S)
      → Accepts sink
      → length left ≤ fuel
      → (send_loop io fuel sink left t).0 ≡ ok tt
  unfolding send_loop
  send_loop-ok fuel sink [] t a h = refl
  send_loop-ok zero sink (x ∷ xs) t a h = absurd (omega arith)
  send_loop-ok (suc fuel) sink (x ∷ xs) t a h =
      let n = min memory_step (length (x ∷ xs)) in
      elim (outcome (sink (take n (x ∷ xs)) t)) [
        | inl (_, u, q) ↦
            rw q
              (send_loop-ok fuel sink (drop n (x ∷ xs)) u a (omega (arith, length-drop n (x ∷ xs))))
        | inr (m, u, q) ↦ cc (rw q at (a (take n (x ∷ xs)) t))
      ]

  read_loop-ok :
      (fuel : ℕ) (sink : SinkFn S) (left : ℕ) (f : Stdio.File io) (t : S)
      → Accepts sink
      → IsHealthy io
      → left ≤ fuel
      → left + StdioLaws.position laws f ≤ length (StdioLaws.content laws f)
      → (read_loop io fuel sink left (f, t)).0 ≡ ok tt
  unfolding read_loop
  read_loop-ok fuel sink zero f t a good h room = refl
  read_loop-ok zero sink (suc left) f t a good h room = absurd (omega arith)
  read_loop-ok (suc fuel) sink (suc left) f t a good h room =
      let n = min disk_read_block (suc left) in
      let got = (Stdio.fread io f n).0 in
      let f' = (Stdio.fread io f n).1 in
      let r = StdioLaws.was_read laws f n in
      let full = StdioLaws.read_full laws f n (IsHealthy.no_error good f') in
      elim (Bool-cases (length got == 0)) [
        | inl z ↦ absurd (omega (arith, ==→eq (length got) 0 z, full))
        | inr z ↦ elim (outcome (sink got t)) [
          | inl (_, u, q) ↦
              rw (z, q)
                (read_loop-ok fuel sink (suc left - length got) f' u a good (omega (arith, full))
                  (rw (r.2, r.3) (omega (arith, full))))
          | inr (m, u, q) ↦ cc (rw q at (a got t))
        ]
      ]

  flush_memory-Fed :
      (b : ChunkBuffer io S) (sink : SinkFn S) (t : S)
      → (flush_memory io sink (b, t)).0 ≡ ok tt
      → Fed sink t b.bytes (flush_memory io sink (b, t)).1.1
  unfolding flush_memory
  flush_memory-Fed b sink t e = elim (Bool-cases (length b.bytes == 0)) [
    | inl z ↦ rw z (rw (length-zero b.bytes (==→eq (length b.bytes) 0 z)) done)
    | inr z ↦ elim (outcome (send_loop io (length b.bytes) sink b.bytes t)) [
      | inl (_, u, q) ↦
          rw (z, q) (rw q at (send_loop-Fed (length b.bytes) sink b.bytes t (rw q refl)))
      | inr (m, u, q) ↦ cc (rw (z, q) at e)
    ]
  ]

  flush_file-Fed :
      (b : ChunkBuffer io S) (sink : SinkFn S) (f : Stdio.File io) (t : S)
      → (flush_file io sink (some f) (b, t)).0 ≡ ok tt
      → Fed sink t
          (take b.buffered (StdioLaws.content laws f))
          (flush_file io sink (some f) (b, t)).1.1
  unfolding flush_file
  flush_file-Fed b sink f t e =
      let f1 = (Stdio.fflush io f).1 in
      let f2 = (Stdio.rewind io f1).1 in
      elim (Bool-cases (Stdio.fflush io f).0) [
        | inr z ↦ cc (rw z at e)
        | inl z ↦ elim (Bool-cases (Stdio.rewind io f1).0) [
          | inr y ↦ cc (rw (z, y) at e)
          | inl y ↦
              let w = StdioLaws.rewound laws f1 y in
              elim (outcome (read_loop io b.buffered sink b.buffered (f2, t))) [
                | inr (m, u, q) ↦ cc (rw (z, y, q) at e)
                | inl (_, u, q) ↦ elim (Bool-cases (Stdio.ferror io u.0)) [
                  | inl v ↦ cc (rw (z, y, q, v) at e)
                  | inr v ↦
                      rw (z, y, q, v)
                        (rw (q, w.0, w.1, StdioLaws.flushed laws f z) at
                          (read_loop-Fed b.buffered sink b.buffered f2 t (rw q refl)))
                ]
              ]
        ]
      ]

  flush_memory_ok :
      (b : ChunkBuffer io S) (sink : SinkFn S) (t : S)
      → Accepts sink
      → (flush_memory io sink (b, t)).0 ≡ ok tt
  unfolding flush_memory
  flush_memory_ok b sink t a = elim (Bool-cases (length b.bytes == 0)) [
    | inl z ↦ rw z
    | inr z ↦ elim (outcome (send_loop io (length b.bytes) sink b.bytes t)) [
      | inl (_, u, q) ↦ rw (z, q)
      | inr (m, u, q) ↦ cc (rw q at (send_loop-ok (length b.bytes) sink b.bytes t a (omega arith)))
    ]
  ]

  flush_file_ok :
      (b : ChunkBuffer io S) (sink : SinkFn S) (f : Stdio.File io) (t : S)
      → Accepts sink
      → IsHealthy io
      → b.buffered ≤ length (StdioLaws.content laws f)
      → (flush_file io sink (some f) (b, t)).0 ≡ ok tt
  unfolding flush_file
  flush_file_ok b sink f t a good room =
      let f1 = (Stdio.fflush io f).1 in
      let f2 = (Stdio.rewind io f1).1 in
      let z = IsHealthy.flushes good f in
      let y = IsHealthy.rewinds good f1 in
      let w = StdioLaws.rewound laws f1 y in
      let same = w.0 ∙ StdioLaws.flushed laws f z in
      elim (outcome (read_loop io b.buffered sink b.buffered (f2, t))) [
        | inl (_, u, q) ↦ rw (z, y, q, IsHealthy.no_error good u.0)
        | inr (m, u, q) ↦ cc (
            rw q at (
              read_loop-ok b.buffered sink b.buffered f2 t a good (omega arith)
                (omega (arith, ap length same, w.1))))
      ]

  flush-memory :
      (b : ChunkBuffer io S) (held : Bytes) (sink : SinkFn S) (t : S)
      → InMemory b held
      → flush io (some sink) (b, t) ≡ flush_memory io sink (b, t)
  unfolding flush
  flush-memory b held sink t h = simp (h.alive, h.mode)

  flush-disk :
      (b : ChunkBuffer io S) (held : Bytes) (sink : SinkFn S) (t : S) (h : OnDisk b held)
      → flush io (some sink) (b, t) ≡ flush_file io sink (some h.handle) (b, t)
  unfolding flush
  flush-disk b held sink t h = simp (h.alive, h.mode, h.file)

  -- Under the laws of stdio: when `flush` of a buffer that holds `held`, in memory or in its spool
  -- file, reports success, the sink was given exactly these bytes, in order and without a gap.
  pub flush-Fed :
      (b : ChunkBuffer io S) (held : Bytes) (sink : SinkFn S) (t : S)
      → Holds b held
      → (flush io (some sink) (b, t)).0 ≡ ok tt
      → Fed sink t held (flush io (some sink) (b, t)).1.1
  flush-Fed b held sink t (inl h) e =
      let q = flush-memory b held sink t h in
      rw q (
        subst (λ d. Fed sink t d (flush_memory io sink (b, t)).1.1) h.bytes
          (flush_memory-Fed b sink t (rw q at e)))
  flush-Fed b held sink t (inr h) e =
      let q = flush-disk b held sink t h in
      let whole = ap₂ take h.buffered h.content ∙ take_all (length held) held (omega arith) in
      rw q (
        subst (λ d. Fed sink t d (flush_file io sink (some h.handle) (b, t)).1.1) whole
          (flush_file-Fed b sink h.handle t (rw q at e)))

  -- Under the laws of stdio, a flush of a buffer that holds bytes in memory or on disk succeeds if
  -- the sink takes every part and the disk has no fault: the loops come to their end.
  pub flush_ok :
      (b : ChunkBuffer io S) (held : Bytes) (sink : SinkFn S) (t : S)
      → Holds b held
      → Accepts sink
      → IsHealthy io
      → (flush io (some sink) (b, t)).0 ≡ ok tt
  flush_ok b held sink t (inl h) a good =
      rw (flush-memory b held sink t h) (flush_memory_ok b sink t a)
  flush_ok b held sink t (inr h) a good =
      rw (flush-disk b held sink t h)
        (flush_file_ok b sink h.handle t a good (omega (arith, ap length h.content)))
