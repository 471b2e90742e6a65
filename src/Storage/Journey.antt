-- ===== src/Storage/Journey.antt =====
-- The way of a file through the program: UploadSession cuts it into chunks, and StorageEngine reads
-- it back from the rows.
mod Tests
use telegram_disk.Base.{
  ℕ, ◌+◌, ◌≤◌, ◌<◌, ◌≡◌, sym, ◌∙◌, subst, ap, ◌⊎◌, inl, inr, false, Bool-cases, true, List, [], ◌∷◌,
  All, length, take, drop, arith, List-cases,
}
use telegram_disk.Base.Bits.{Bytes}
use telegram_disk.Base.Result.{ok}
use telegram_disk.Storage.Chunk.{ChunkEntry}
use telegram_disk.Storage.ChunkBuffer.Files.{Stdio, StdioLaws}
use telegram_disk.Storage.ChunkBuffer.{memory}
use telegram_disk.Storage.BlockCache.{BlockCache}
use telegram_disk.Storage.Engine.{u64, Source, FileEntry, read_file_range}
use telegram_disk.Storage.Engine.Blocks.{Laid, Honest, IsBlock}
use telegram_disk.Storage.Engine.Exact.{Read, read_file_range-Read}
use telegram_disk.Storage.Upload.Backend.{Backend}
use telegram_disk.Storage.Upload.Chooser.{Choice}
use telegram_disk.Storage.Upload.Session.{Session, ManhBay, KetQua, failed}
use telegram_disk.Storage.Upload.Session.Invariant.{Records, Records-le}
use telegram_disk.Storage.Upload.Session.Placed.{IsPlaced, Faithful}
use telegram_disk.Storage.Upload.Finish.{complete_chunks}
use telegram_disk.Storage.Upload.Finish.Exact.{complete-Whole}
use telegram_disk.Storage.Upload.Finish.Placed.{complete-Placed}
use telegram_disk.Storage.Upload.Reach.{fresh, Reach, Reach-InOrder}
use telegram_disk.Storage.Database.{Database}
use telegram_disk.Storage.Upload.Save.{Plan}
use Prim.Native.String.{String}

-- The rows that the database lists are those that were handed on, up to their identifiers and
-- references.
abbrev pub AsHandedOn : List ChunkEntry → List ChunkEntry → Type 0
AsHandedOn [] [] = Unit {0}
AsHandedOn [] (c ∷ cs) = ⊥
AsHandedOn (r ∷ rs) [] = ⊥
AsHandedOn (r ∷ rs) (c ∷ cs) =
    (r.offset ≡ c.offset) × (r.size ≡ c.size) × (r.document_id ≡ c.document_id) × AsHandedOn rs cs

module _ (src : Source) (content : ℕ → Bytes) (T : Bytes) where
  Records-Laid :
      (i o : ℕ) (rs cs : List ChunkEntry)
      → AsHandedOn rs cs
      → Records T i o cs (length T)
      → All (IsPlaced content T) cs
      → Laid src content T o rs
  Records-Laid i o [] [] a h p = h
  Records-Laid i o [] (c ∷ cs) a h p = absurd a
  Records-Laid i o (r ∷ rs) [] a h p = absurd a
  Records-Laid i o (r ∷ rs) (c ∷ cs) (eo, es, ed, a) h (p, ps) =
      let le = Records-le T (i + 1) (o + c.size) cs (length T) h.3 in
      (
        eo ∙ h.1,
        omega (arith, es, le),
        ap content ed
            ∙ p
            ∙ ap (λ n. take c.size (drop n T)) h.1
            ∙ ap (λ n. take n (drop o T)) (sym es),
        Records-Laid (i + 1) (o + r.size) rs cs a
            (subst (λ n. Records T (i + 1) (o + n) cs (length T)) (sym es) h.3) ps,
      )

module _ {io : Stdio} (laws : StdioLaws io) {be : Backend} (db : Database) (plan : Plan)
    (content : ℕ → Bytes) (T : Bytes) (src : Source) where
  -- A cancelled session does not complete.
  complete_cancelled :
      (join : ManhBay io be → KetQua) (s : Session io be) (w : Backend.World be)
      → (complete_chunks join (s, w)).0 ≡ ok tt
      → s.is_cancelled ≡ false
  unfolding complete_chunks
  complete_cancelled join s w e = elim (Bool-cases s.is_cancelled) [
    | inl c ↦ absurd (cc (rw c at e))
    | inr c ↦ c
  ]

  -- Let a session for several chunks at once in memory have been through any calls in any order (with
  -- failures, resumptions, lost chunks; each `complete` among them has failed), and let deduplication be
  -- off or the session not be in the failed state. Let it have received as many bytes as the file `T` has,
  -- and let a further `complete` get through its chunks; each thread that reports a place has stored
  -- there what its chunk held. Then the rows lay `T` out without a gap from 0 to its end, and the
  -- document of each has the row's bytes of `T`.
  pub complete-Laid :
      (spool : ℕ → String) (total chunk_size : ℕ) (c : Choice) (s : Session io be)
      (join : ManhBay io be → KetQua) (w : Backend.World be) (rows : List ChunkEntry)
      → 0 < chunk_size
      → 1 < c.so_manh_song_song
      → c.che_do_dem ≡ memory
      → Reach laws db plan content T (fresh spool total chunk_size c) s
      → (plan.deduplicate ≡ false) ⊎ (s.state ≡ failed → ⊥)
      → Faithful laws content T join
      → s.received_bytes ≡ length T
      → (complete_chunks join (s, w)).0 ≡ ok tt
      → AsHandedOn rows (complete_chunks join (s, w)).1.0.chunk_records
      → Laid src content T 0 rows
  complete-Laid spool total chunk_size c s join w rows p m e reach own f all done handed =
      let live = complete_cancelled join s w done in
      elim (Reach-InOrder laws db plan content T spool total chunk_size c s p m e reach) [
        | inr (inl h) ↦ absurd (cc (h.stopped, live))
        | inr (inr (on, h)) ↦ elim own [
          | inl off ↦ absurd (cc (on, off))
          | inr n ↦ absurd (n h.failed_state)
        ]
        | inl (i, h) ↦ elim (complete-Whole T join s w i live) [
          | inr ((x, bad), _) ↦ absurd (cc (bad, done))
          | inl (_, whole) ↦
              Records-Laid src content T 0 0 rows (complete_chunks join (s, w)).1.0.chunk_records
                handed
                (subst (Records T 0 0 (complete_chunks join (s, w)).1.0.chunk_records) all whole.0)
                (complete-Placed laws content T join f s w h live).rows
        ]
      ]

  -- Let a session for several chunks at once in memory have been through any calls in any order: `receive`
  -- with the next bytes, the settling before a resumption, `cancel`, and whole calls of `complete` that
  -- failed, in a chunk or in the database. Let deduplication be off, or the session not be in the failed
  -- state. Let it have received as many bytes as the file `T` has, and let a further `complete` get
  -- through its chunks; each thread that reports a place has stored there what its chunk held. Let the
  -- database list the rows that the chunk part handed on (up to their identifiers and references), let
  -- each read of the backend fail or give the bytes of the stored document, let the cache hold only
  -- blocks of stored documents, and let `T` have between one and 2^64 - 1 bytes. Then reading any range of
  -- the file gives exactly these bytes of `T`, or it fails with the message of a failed read.
  pub upload-Read :
      (spool : ℕ → String) (total chunk_size : ℕ) (c : Choice) (s : Session io be)
      (join : ManhBay io be → KetQua) (w : Backend.World be) (rows : List ChunkEntry)
      (file : FileEntry) (offset n : ℕ) (cache : BlockCache) (v : Source.World src)
      → 0 < chunk_size
      → 1 < c.so_manh_song_song
      → c.che_do_dem ≡ memory
      → Reach laws db plan content T (fresh spool total chunk_size c) s
      → (plan.deduplicate ≡ false) ⊎ (s.state ≡ failed → ⊥)
      → Faithful laws content T join
      → s.received_bytes ≡ length T
      → (complete_chunks join (s, w)).0 ≡ ok tt
      → AsHandedOn rows (complete_chunks join (s, w)).1.0.chunk_records
      → (Source.list_chunks src file.id v).0 ≡ ok rows
      → Honest src content T
      → file.size ≡ length T
      → file.is_folder ≡ false
      → All (IsBlock src content T) cache.order
      → 0 < length T
      → length T < u64
      → offset + n ≤ length T
      → Read src content T offset n [] (read_file_range src file offset n cache v)
  upload-Read spool total chunk_size c s join w rows file offset n cache v p m e reach own f all
        done handed listed honest size plain known some short inside =
      let laid =
        complete-Laid spool total chunk_size c s join w rows p m e reach own f all done handed in
      elim (List-cases rows) [
        | inl z ↦ absurd (omega (arith, some, rw z at laid))
        | inr (r, rs, z) ↦
            read_file_range-Read src content T file offset n cache v r rs honest (listed ∙ ap ok z)
              (subst (Laid src content T 0) z laid) short size plain known inside
      ]
