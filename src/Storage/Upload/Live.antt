-- ===== src/Storage/Upload/Live.antt =====
-- Progress of a session: nothing fails on its own.
mod Tests
use telegram_disk.Base.{ℕ, ◌+◌, ◌<◌, ◌≡◌, refl, sym, ap, subst, ◌⊎◌, inl, inr, false, length, arith}
use telegram_disk.Base.Bits.{Bytes}
use telegram_disk.Base.Result.{Done, Result, ok, err}
use telegram_disk.Storage.ChunkBuffer.Files.{Stdio, StdioLaws}
use telegram_disk.Storage.ChunkBuffer.{memory}
use telegram_disk.Storage.Upload.Backend.{Backend}
use telegram_disk.Storage.Upload.Chooser.{Choice}
use telegram_disk.Storage.Upload.Session.{
  Session, ManhBay, KetQua, preparing, receiving, flushing, failed, thu_het_manh,
}
use telegram_disk.Storage.Upload.Session.Placed.{Faithful}
use telegram_disk.Storage.Upload.Session.Live.{Sure, Lands, thu_het_ok}
use telegram_disk.Storage.Upload.Receive.{receive, with_world}
use telegram_disk.Storage.Upload.Receive.Steps.{Inv}
use telegram_disk.Storage.Upload.Receive.Exact.{Sends, receive-Inv}
use telegram_disk.Storage.Upload.Receive.Live.{receive-Sure}
use telegram_disk.Storage.Upload.Finish.{complete_chunks, last_manh, landed}
use telegram_disk.Storage.Upload.Finish.Exact.{flushing-Inv, last_manh-Inv, complete_chunks-many}
use telegram_disk.Storage.Upload.Reach.{fresh, Reach, Reach-InOrder}
use telegram_disk.Storage.Database.{Database}
use telegram_disk.Storage.Upload.Save.{Plan}
use Prim.Native.String.{String}

module _ {io : Stdio} {be : Backend} (T : Bytes) (join : ManhBay io be → KetQua)
    (lands : Lands join) where
  landed_ok :
      (w : Backend.World be) (r : Result Done × Session io be)
      → r.0 ≡ ok tt
      → (with_world w (landed r)).0 ≡ ok tt
  unfolding landed
  landed_ok w (ok _, s) e = refl
  landed_ok w (err x, s) e = absurd (ground (arith, e))

  complete_ok :
      (s : Session io be) (w : Backend.World be)
      → Inv T s
      → s.is_cancelled ≡ false
      → (complete_chunks join (s, w)).0 ≡ ok tt
  complete_ok s w h c =
      let s1 : Session io be = record s { state = flushing } in
      let t = last_manh s1.buffer s1 in
      let (g, _, _) = last_manh-Inv T s1.buffer s1 refl (flushing-Inv T s h) in
      subst (λ r. r.0 ≡ ok tt) (sym (complete_chunks-many T join s w h.stored.many c))
        (landed_ok w (thu_het_manh join t) (thu_het_ok join t lands g.1.sound))

  Sure-ok : (r : Result Done × (Session io be × Backend.World be)) → Sure r → r.0 ≡ ok tt
  Sure-ok (ok _, p) h = refl
  Sure-ok (err x, p) h = absurd (h x refl)

not_failed :
    {io : Stdio} {be : Backend} (s : Session io be)
    → (s.state ≡ receiving) ⊎ (s.state ≡ preparing)
    → s.state ≡ failed
    → ⊥
not_failed s (inl r) e = cc (r, e)
not_failed s (inr p) e = cc (p, e)

module _ {io : Stdio} (laws : StdioLaws io) {be : Backend} (db : Database) (plan : Plan)
    (content : ℕ → Bytes) (T : Bytes) where
  -- Let a session for several chunks at once in memory have been through any calls in any order (each
  -- `complete` among them having failed, in a chunk or in the database), and let it be neither cancelled nor failed nor done. From there on, if every thread reports a
  -- place (and has stored there what its chunk held), `receive` of the next bytes of `T` succeeds and counts
  -- all of them, and `complete` gets through its chunks.
  pub upload-Lands :
      (spool : ℕ → String) (total chunk_size : ℕ) (c : Choice) (s : Session io be)
      (join : ManhBay io be → KetQua) (bytes : Bytes) (w : Backend.World be)
      → 0 < chunk_size
      → 1 < c.so_manh_song_song
      → c.che_do_dem ≡ memory
      → Reach laws db plan content T (fresh spool total chunk_size c) s
      → Faithful laws content T join
      → Lands join
      → s.is_cancelled ≡ false
      → (s.state ≡ receiving) ⊎ (s.state ≡ preparing)
      → Sends T s bytes
      → ((receive join bytes (s, w)).0 ≡ ok tt)
        × ((receive join bytes (s, w)).1.0.received_bytes ≡ s.received_bytes + length bytes)
        × ((complete_chunks join (s, w)).0 ≡ ok tt)
  upload-Lands spool total chunk_size c s join bytes w p m e reach f lands live st send =
      elim (Reach-InOrder laws db plan content T spool total chunk_size c s p m e reach) [
        | inr (inl h) ↦ absurd (cc (h.stopped, live))
        | inr (inr (_, h)) ↦ absurd (not_failed s st h.failed_state)
        | inl (i, h) ↦
            let taken =
              Sure-ok T join lands (receive join bytes (s, w))
                (receive-Sure laws content T join f lands bytes s w i h send live st) in
            (
              taken,
              (receive-Inv T join bytes s w i send).1 taken,
              complete_ok T join lands s w i live,
            )
      ]
