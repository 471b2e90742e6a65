-- ===== src/Storage/Upload/Manager.antt =====
-- The table of sessions of UploadManager (src/storage/upload_manager.cpp): `find`, `claimResumable`, the
-- search for an abandoned session in `begin`, `complete`, `cancel` and `reapStale`. A `std::map` is the
-- list of its values in the order of the keys. The records of uploads in the database are left out: they
-- are only written back.
pub mod Reaped
pub mod Claims
mod Tests
use telegram_disk.Base.{
  ℕ, ◌+◌, ◌*◌, Bool, true, false, ◌&&◌, not, Option, none, some, List, [], ◌∷◌, ltb, leb, ◌==◌,
  if◌then◌else◌,
}
use telegram_disk.Base.Bits.{Bytes}
use telegram_disk.Base.Result.{Done, Result, ok, err}
use telegram_disk.Text.Trim.{equal_bytes}
use telegram_disk.Storage.ChunkBuffer.Files.{Stdio}
use telegram_disk.Storage.Database.{Database, FileEntry}
use telegram_disk.Storage.Purge.{Stock}
use telegram_disk.Storage.Upload.Backend.{Backend}
use telegram_disk.Storage.Upload.Session.{
  Session, ManhBay, KetQua, UploadState, preparing, receiving, flushing, completed, cancelled,
  failed,
}
use telegram_disk.Storage.Upload.Finish.{chot_so_truoc_khi_noi, cancel}
use telegram_disk.Storage.Upload.Save.{Plan, complete}
use Prim.Native.String.{String}

-- A session with what the manager looks at. `target_key` is the normalized path of the file.
pub record Held (io : Stdio) (be : Backend) : Type 0 where
  pub id : Bytes
  pub owner_id : ℕ
  pub target_key : Bytes
  pub busy : Bool
  pub last_activity : ℕ
  pub session : Session io be

is_receiving : UploadState → Bool
is_receiving receiving = true
is_receiving _ = false

module _ {io : Stdio} {be : Backend} where
  -- `find`.
  unfoldable pub find_session : Bytes → List (Held io be) → Option (Held io be)
  find_session id [] = none
  find_session id (h ∷ hs) =
      let rest = find_session id hs in if equal_bytes h.id id then some h else rest

  -- `sessions_.erase`.
  unfoldable pub erase_session : Bytes → List (Held io be) → List (Held io be)
  erase_session id [] = []
  erase_session id (h ∷ hs) =
      let rest = erase_session id hs in if equal_bytes h.id id then rest else h ∷ rest

  unfoldable pub set_session : Bytes → Session io be → List (Held io be) → List (Held io be)
  set_session id s [] = []
  set_session id s (h ∷ hs) =
      let rest = set_session id s hs in
      if equal_bytes h.id id then record h { session = s } ∷ rest else h ∷ rest

  -- A session of that owner that has been left in the middle of that file.
  unfoldable pub is_abandoned : ℕ → Bytes → ℕ → Held io be → Bool
  unfolding is_receiving
  is_abandoned owner_id key total_size h =
      not h.session.is_cancelled
      && (h.owner_id == owner_id
          && (is_receiving h.session.state
              && (not (h.session.received_bytes == 0)
                  && (ltb h.session.received_bytes total_size
                      && (h.session.total_size == total_size && equal_bytes h.target_key key)))))

  -- The first abandoned session that no other request holds is claimed, and its chunks are settled.
  claim_first :
      (ManhBay io be → KetQua)
      → ℕ
      → Bytes
      → ℕ
      → List (Held io be)
      → Option Bytes × List (Held io be)
  claim_first join owner_id key total_size [] = (none, [])
  claim_first join owner_id key total_size (h ∷ hs) =
      let rest = claim_first join owner_id key total_size hs in
      if is_abandoned owner_id key total_size h && not h.busy
      then (
        some h.id,
        record h { busy = true; session = chot_so_truoc_khi_noi join h.session } ∷ hs,
      )
      else (rest.0, h ∷ rest.1)

  unfoldable pub claim_resumable :
      (ManhBay io be → KetQua)
      → ℕ
      → Bytes
      → ℕ
      → List (Held io be)
      → Option Bytes × List (Held io be)
  unfolding claim_first is_abandoned
  claim_resumable join owner_id key total_size table =
      if total_size == 0 then (none, table) else claim_first join owner_id key total_size table

  -- The search of `begin` does not claim: the browser sends many requests for one session.
  unfoldable pub resume_first :
      (ManhBay io be → KetQua)
      → ℕ
      → Bytes
      → ℕ
      → List (Held io be)
      → Option (Bytes × ℕ) × List (Held io be)
  unfolding is_abandoned
  resume_first join owner_id key total_size [] = (none, [])
  resume_first join owner_id key total_size (h ∷ hs) =
      let rest = resume_first join owner_id key total_size hs in
      let s = chot_so_truoc_khi_noi join h.session in
      if is_abandoned owner_id key total_size h
      then (some (h.id, s.received_bytes), record h { session = s } ∷ hs)
      else (rest.0, h ∷ rest.1)

  cancel_held :
      (ManhBay io be → KetQua)
      → String
      → Option (Held io be)
      → List (Held io be)
      → Backend.World be
      → Bool × (List (Held io be) × Backend.World be)
  unfolding erase_session
  cancel_held join reason none table world = (false, (table, world))
  cancel_held join reason (some h) table world =
      (true, (erase_session h.id table, (cancel join reason h.session world).1))

  unfoldable pub cancel_session :
      (ManhBay io be → KetQua)
      → Bytes
      → String
      → List (Held io be)
      → Backend.World be
      → Bool × (List (Held io be) × Backend.World be)
  unfolding cancel_held find_session
  cancel_session join id reason table world =
      cancel_held join reason (find_session id table) table world

  -- `lastActivity() < nowUnix() - timeout`.
  unfoldable pub is_stale : ℕ → ℕ → Held io be → Bool
  is_stale now timeout h = ltb (h.last_activity + timeout) now

  pub stale_ids : ℕ → ℕ → List (Held io be) → List Bytes
  unfolding is_stale
  stale_ids now timeout [] = []
  stale_ids now timeout (h ∷ hs) =
      let rest = stale_ids now timeout hs in if is_stale now timeout h then h.id ∷ rest else rest

  pub cancel_all :
      (ManhBay io be → KetQua)
      → List Bytes
      → List (Held io be)
      → Backend.World be
      → List (Held io be) × Backend.World be
  unfolding cancel_session
  cancel_all join [] table world = (table, world)
  cancel_all join (id ∷ ids) table world =
      let (_, (table', world')) =
        cancel_session join id "Tự huỷ do không có hoạt động" table world in
      cancel_all join ids table' world'

  unfoldable pub reap_stale :
      (ManhBay io be → KetQua)
      → ℕ
      → ℕ
      → List (Held io be)
      → Backend.World be
      → List (Held io be) × Backend.World be
  unfolding cancel_all stale_ids
  reap_stale join now timeout table world =
      if timeout == 0
      then (table, world)
      else cancel_all join (stale_ids now timeout table) table world

module _ {io : Stdio} {be : Backend} {db : Database} where
  -- Only a completed session leaves the table: one that has failed is kept, so that it can go on.
  completed_held :
      Bytes
      → List (Held io be)
      → Result FileEntry × (Session io be × Stock be db)
      → Result FileEntry × (List (Held io be) × Stock be db)
  completed_held id table (ok entry, (s, t)) = (ok entry, (erase_session id table, t))
  completed_held id table (err e, (s, t)) = (err e, (set_session id s table, t))

  complete_held :
      Plan
      → (ManhBay io be → KetQua)
      → String
      → Option (Held io be)
      → List (Held io be)
      → Stock be db
      → Result FileEntry × (List (Held io be) × Stock be db)
  unfolding completed_held
  complete_held plan join missing none table t = (err missing, (table, t))
  complete_held plan join missing (some h) table t =
      completed_held h.id table (complete plan join (h.session, t))

  -- `missing` is the message for an unknown session, which has its identifier.
  unfoldable pub complete_session :
      Plan
      → (ManhBay io be → KetQua)
      → Bytes
      → String
      → List (Held io be)
      → Stock be db
      → Result FileEntry × (List (Held io be) × Stock be db)
  unfolding complete_held find_session
  complete_session plan join id missing table t =
      complete_held plan join missing (find_session id table) table t
