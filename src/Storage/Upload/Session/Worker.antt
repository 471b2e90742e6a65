-- ===== src/Storage/Upload/Session/Worker.antt =====
-- The body of the thread that sends a chunk (`giaoManhChoNen`).
use telegram_disk.Base.{ℕ, ◌≡◌, refl, sym, ap, ◌∙◌, inl, false, some, arith}
use telegram_disk.Base.Bits.{Bytes}
use telegram_disk.Base.Result.{Done, Result, ok, err}
use telegram_disk.Storage.Chunk.{ChunkLocation}
use telegram_disk.Storage.ChunkBuffer.Files.{Stdio, StdioLaws}
use telegram_disk.Storage.ChunkBuffer.{ChunkBuffer, flush}
use telegram_disk.Storage.ChunkBuffer.Fed.{Fed}
use telegram_disk.Storage.ChunkBuffer.Exact.{Holds, flush-Fed}
use telegram_disk.Storage.Upload.Backend.{Backend}
use telegram_disk.Storage.Upload.Session.Placed.{Faithful}
use telegram_disk.Storage.Upload.Session.{
  ManhBay, KetQua, writer_sink, worker_finish, worker_send, worker,
}

module _ (be : Backend) where
  -- From the world `w`, a writer was opened, took `held`, and finished as `r`.
  pub record Sent (size index : ℕ) (w : Backend.World be) (held : Bytes) (loc : ChunkLocation)
      (r : KetQua × Backend.World be) : Type 0 where
    pub writer : Backend.Writer be
    pub opened : Backend.World be
    pub fed : Backend.World be
    pub begun : Backend.begin_chunk be size index w ≡ (ok writer, opened)
    pub all_bytes : Fed (writer_sink be false writer) opened held fed
    pub finished : Backend.finish be writer fed ≡ r
    pub landed : r.0 ≡ ok loc

  -- A document has the bytes that its writer was given before it was finished.
  abbrev pub Keeps : (ℕ → Bytes) → Type 0
  Keeps content =
      (size index : ℕ) (w opened fed : Backend.World be) (writer : Backend.Writer be) (held : Bytes)
      (loc : ChunkLocation)
      → Backend.begin_chunk be size index w ≡ (ok writer, opened)
      → Fed (writer_sink be false writer) opened held fed
      → (Backend.finish be writer fed).0 ≡ ok loc
      → content loc.document_id ≡ held

module _ {io : Stdio} (laws : StdioLaws io) {be : Backend} where
  worker_finish-ok :
      (m : ManhBay io be) (wr : Backend.Writer be) (loc : ChunkLocation)
      (r : Result Done × (ChunkBuffer io (Backend.World be) × Backend.World be))
      → (worker_finish m wr r).0 ≡ ok loc
      → (r.0 ≡ ok tt) × (worker_finish m wr r ≡ Backend.finish be wr r.1.1)
  unfolding worker_finish
  worker_finish-ok m wr loc (err e, (b, v)) h = absurd (ground arith)
  worker_finish-ok m wr loc (ok _, (b, v)) h = (refl, refl)

  worker_send-Sent :
      (m : ManhBay io be) (held : Bytes) (w : Backend.World be) (loc : ChunkLocation)
      (r : Result (Backend.Writer be) × Backend.World be)
      → Backend.begin_chunk be m.size m.index w ≡ r
      → Holds laws m.buffer held
      → (worker_send false m r).0 ≡ ok loc
      → Sent be m.size m.index w held loc (worker_send false m r)
  unfolding worker_send
  worker_send-Sent m held w loc (err e, u) b h k = absurd (ground arith)
  worker_send-Sent m held w loc (ok wr, u) b h k =
      let sink = writer_sink be false wr in
      let f = worker_finish-ok m wr loc (flush io (some sink) (m.buffer, u)) k in
      record {
        writer = wr;
        opened = u;
        fed = (flush io (some sink) (m.buffer, u)).1.1;
        begun = b;
        all_bytes = flush-Fed laws m.buffer held sink u h f.0;
        finished = sym f.1;
        landed = k;
      }

  -- A thread that was not cancelled and reports a place has opened a writer of the backend, has given
  -- it exactly the bytes that the chunk's buffer holds, in order, and got this place from `finish`.
  pub worker-Sent :
      (m : ManhBay io be) (held : Bytes) (w : Backend.World be) (loc : ChunkLocation)
      → Holds laws m.buffer held
      → (worker false m w).0 ≡ ok loc
      → Sent be m.size m.index w held loc (worker false m w)
  unfolding worker
  worker-Sent m held w loc h k =
      worker_send-Sent m held w loc (Backend.begin_chunk be m.size m.index w) refl h k

  -- Let a document of the backend have the bytes that its writer was given before it was finished.
  -- Then the threads that are not cancelled, each started in any state of the backend, store what their
  -- chunks hold in memory: the document of the place that such a thread reports has these bytes.
  pub worker-Faithful :
      (content : ℕ → Bytes) (T : Bytes) (at : ManhBay io be → Backend.World be)
      → Keeps be content
      → Faithful laws content T (λ m. (worker false m (at m)).0)
  worker-Faithful content T at keeps m held loc h e =
      let s = worker-Sent m held (at m) loc (inl h) e in
      keeps m.size m.index (at m) s.opened s.fed s.writer held loc s.begun s.all_bytes
        (ap (λ r. r.0) s.finished ∙ s.landed)
