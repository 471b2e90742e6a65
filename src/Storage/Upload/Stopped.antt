-- ===== src/Storage/Upload/Stopped.antt =====
-- The calls on a session that is cancelled.
use telegram_disk.Base.{◌≡◌, refl, true, false, [], length, if◌then◌else◌, ◌==◌}
use telegram_disk.Base.Bits.{Bytes}
use telegram_disk.Storage.ChunkBuffer.Files.{Stdio}
use telegram_disk.Storage.Database.{Database}
use telegram_disk.Storage.Purge.{Stock}
use telegram_disk.Storage.Upload.Backend.{Backend}
use telegram_disk.Storage.Upload.Session.{Session, ManhBay, KetQua}
use telegram_disk.Storage.Upload.Receive.{receive}
use telegram_disk.Storage.Upload.Finish.{complete_chunks, chot_so_truoc_khi_noi, cancel, rollback}
use telegram_disk.Storage.Upload.Save.{Plan, complete}
use Prim.Native.String.{String}

module _ {io : Stdio} {be : Backend} where
  -- A cancelled session has nothing in flight.
  pub record IsStopped (s : Session io be) : Type 0 where
    pub stopped : s.is_cancelled ≡ true
    pub landed : s.dang_bay ≡ []

  -- The calls on a cancelled session do nothing.
  pub receive_stopped :
      (join : ManhBay io be → KetQua) (bytes : Bytes) (s : Session io be) (w : Backend.World be)
      → s.is_cancelled ≡ true
      → (receive join bytes (s, w)).1.0 ≡ s
  unfolding receive
  receive_stopped join bytes s w e = rw e refl

  pub complete_stopped :
      {db : Database} (plan : Plan) (join : ManhBay io be → KetQua) (s : Session io be)
      (t : Stock be db)
      → s.is_cancelled ≡ true
      → (complete plan join (s, t)).1.0 ≡ s
  unfolding complete complete_chunks
  complete_stopped plan join s t e = rw e refl

  pub chot_so_landed :
      (join : ManhBay io be → KetQua) (s : Session io be)
      → s.dang_bay ≡ []
      → chot_so_truoc_khi_noi join s ≡ s
  unfolding chot_so_truoc_khi_noi
  chot_so_landed join s e = rw e refl

  rollback-IsStopped :
      (s : Session io be) (w : Backend.World be) → IsStopped s → IsStopped (rollback s w).0
  unfolding rollback
  rollback-IsStopped s w h =
      let cleared : Session io be × Backend.World be =
        (record s { uploaded = []; chunk_records = [] }, Backend.remove_chunks be s.uploaded w) in
      elim (length s.uploaded == 0) as (λ b. IsStopped (if b then (s, w) else cleared).0) [
        | true ↦ h
        | false ↦ record { stopped = h.stopped; landed = h.landed }
      ]

  pub cancel_stopped :
      (join : ManhBay io be → KetQua) (reason : String) (s : Session io be) (w : Backend.World be)
      → s.is_cancelled ≡ true
      → (cancel join reason s w).0 ≡ s
  unfolding cancel
  cancel_stopped join reason s w e = rw e refl

  pub cancel-IsStopped :
      (join : ManhBay io be → KetQua) (reason : String) (s : Session io be) (w : Backend.World be)
      → s.is_cancelled ≡ false
      → IsStopped (cancel join reason s w).0
  unfolding cancel
  cancel-IsStopped join reason s w e =
      rw e (rollback-IsStopped _ _ (record { stopped = refl; landed = refl }))
