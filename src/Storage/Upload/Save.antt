-- ===== src/Storage/Upload/Save.antt =====
-- `complete` of UploadSession behind its chunks: the data of an equal file is used again, the entry and
-- its rows are written, and chunks that no row uses are removed.
pub mod Kept
pub mod Failed
mod Tests
use telegram_disk.Base.{
  ℕ, ◌+◌, Bool, true, false, ◌&&◌, not, Option, none, some, List, [], ◌∷◌, length, ltb, ◌==◌,
  if◌then◌else◌, map,
}
use telegram_disk.Base.Bits.{Bytes}
use telegram_disk.Base.Result.{Done, Result, ok, err, and_then, M}
use telegram_disk.Crypto.Sha256.{finish}
use telegram_disk.Text.Hex.{to_hex}
use telegram_disk.Storage.Chunk.{ChunkLocation, ChunkEntry}
use telegram_disk.Storage.ChunkBuffer.Files.{Stdio}
use telegram_disk.Storage.Database.{Database, FileEntry}
use telegram_disk.Storage.Purge.{Stock, purge_file_data}
use telegram_disk.Storage.Upload.Backend.{Backend}
use telegram_disk.Storage.Upload.Session.{Session, ManhBay, KetQua, UploadState, completed, failed}
use telegram_disk.Storage.Upload.Finish.{complete_chunks}
use Prim.Native.String.{String}

-- What the session has besides its chunks: `deduplicate` of the configuration; whether the policy is
-- to replace and names a file; and the entry with all that does not come from the data (name, path, type,
-- owner, times).
pub record Plan : Type 0 where
  pub deduplicate : Bool
  pub replaces : Bool
  pub replace_file_id : ℕ
  pub draft : FileEntry

-- The first file with the same content that is not the one to be replaced.
pick_source : ℕ → ℕ → List FileEntry → Option FileEntry
pick_source replaced size [] = none
pick_source replaced size (f ∷ fs) =
    let rest = pick_source replaced size fs in
    if not (f.id == replaced) && f.size == size then some f else rest

abbrev without_id : ChunkEntry → ChunkEntry
without_id c = record c { id = 0 }

-- A row uses the document of the place.
is_used : List ChunkEntry → ChunkLocation → Bool
is_used [] loc = false
is_used (c ∷ cs) loc =
    let rest = is_used cs loc in if c.document_id == loc.document_id then true else rest

unfoldable pub orphans : List ChunkEntry → List ChunkLocation → List ChunkLocation
unfolding is_used
orphans rows [] = []
orphans rows (loc ∷ locs) =
    let rest = orphans rows locs in if is_used rows loc then rest else loc ∷ rest

-- The session, and what the engine and the database have.
abbrev pub Saving : Stdio → Backend → Database → Type 0
Saving io be db = Session io be × Stock be db

abbrev entry_of : {io : Stdio} {be : Backend} → Plan → Bytes → ℕ → Session io be → FileEntry
entry_of plan sha size s = record plan.draft {
  is_folder = false;
  size = size;
  sha256 = sha;
  chunk_size = s.chunk_size;
  chunk_count = length s.chunk_records;
}

updated : {W : Type 0} → FileEntry → Result Done × W → Result FileEntry × W
updated entry (ok _, base) = (ok entry, base)
updated entry (err e, base) = (err e, base)

created : {W : Type 0} → FileEntry → Result ℕ × W → Result FileEntry × W
created entry (ok id, base) = (ok (record entry { id = id }), base)
created entry (err e, base) = (err e, base)

-- The rows get the entry's identifier and go to the database one after the other.
add_rows : (db : Database) → ℕ → List ChunkEntry → M (Database.World db) Done
add_rows db id [] base = (ok tt, base)
add_rows db id (c ∷ cs) base =
    and_then (Database.add_chunk db (record c { file_id = id; id = 0 }) base)
      (λ _. add_rows db id cs)

-- A failed write ends the session.
abbrev pub ended : {io : Stdio} {be : Backend} → String → Session io be → Session io be
ended e s = record s { state = failed; message = e }

remove_orphans : {be : Backend} {db : Database} → List ChunkLocation → Stock be db → Stock be db
remove_orphans [] t = t
remove_orphans {be = be} (loc ∷ locs) t = record t {
  store = Backend.remove_chunks be (loc ∷ locs) t.store;
}

module _ {io : Stdio} {be : Backend} {db : Database} where
  abbrev in_base :
      {A : Type 0} → Saving io be db → Result A × Database.World db → Result A × Saving io be db
  in_base (s, t) (r, base) = (r, (s, record t { base = base }))

  -- What was sent is removed; the rows of the source are taken, if they can be listed.
  reuse_rows : Saving io be db → Result (List ChunkEntry) × Database.World db → Saving io be db
  reuse_rows (s, t) (ok rows, base) =
      (record s { chunk_records = map without_id rows }, record t { base = base })
  reuse_rows (s, t) (err e, base) = (s, record t { base = base })

  drop_uploaded : Saving io be db → Saving io be db
  drop_uploaded (s, t) = if length s.uploaded == 0 then (s, t) else (
    record s { uploaded = [] },
    record t { store = Backend.remove_chunks be s.uploaded t.store },
  )

  reuse : Option FileEntry → Saving io be db → Saving io be db
  unfolding reuse_rows drop_uploaded
  reuse none st = st
  reuse (some f) st =
      let st' = drop_uploaded st in reuse_rows st' (Database.list_chunks db f.id st'.1.base)

  found : Plan → ℕ → Saving io be db → Result (List FileEntry) × Database.World db → Saving io be db
  unfolding reuse pick_source
  found plan size (s, t) (ok same, base) =
      reuse (pick_source plan.replace_file_id size same) (s, record t { base = base })
  found plan size (s, t) (err e, base) = (s, record t { base = base })

  deduplicated : Plan → Bytes → ℕ → Saving io be db → Saving io be db
  unfolding found
  deduplicated plan sha size (s, t) =
      if plan.deduplicate && (not (length sha == 0) && ltb 0 size)
      then found plan size (s, t) (Database.find_by_hash db sha t.base)
      else (s, t)

  -- The old file's data is purged, whatever that reports, and its entry takes the new data.
  replace_entry :
      Plan
      → FileEntry
      → Saving io be db
      → Result FileEntry × Database.World db
      → Result FileEntry × Saving io be db
  unfolding updated created
  replace_entry plan entry (s, t) (ok old, base) =
      let t' = (purge_file_data plan.deduplicate old (record t { base = base })).1 in
      let new : FileEntry = record entry {
        id = old.id;
        created_at = old.created_at;
        starred = old.starred;
        share_token = old.share_token;
        share_expires_at = old.share_expires_at;
      } in
      in_base (s, t') (updated new (Database.update_entry db new t'.base))
  replace_entry plan entry (s, t) (err e, base) =
      in_base (s, t) (created entry (Database.create_entry db entry base))

  write_entry : Plan → FileEntry → Saving io be db → Result FileEntry × Saving io be db
  unfolding replace_entry created
  write_entry plan entry (s, t) =
      if plan.replaces
      then replace_entry plan entry (s, t) (Database.get_entry db plan.replace_file_id t.base)
      else in_base (s, t) (created entry (Database.create_entry db entry t.base))

  finished :
      FileEntry
      → Saving io be db
      → Result Done × Database.World db
      → Result FileEntry × Saving io be db
  unfolding remove_orphans
  finished entry (s, t) (ok _, base) = (
    ok entry,
    (
      record s { uploaded = []; state = completed; message = "Hoàn tất" },
      remove_orphans (orphans s.chunk_records s.uploaded) (record t { base = base }),
    ),
  )
  finished entry (s, t) (err e, base) = (err e, (ended e s, record t { base = base }))

  add_all : Result FileEntry × Saving io be db → Result FileEntry × Saving io be db
  unfolding add_rows finished
  add_all (ok entry, (s, t)) = finished entry (s, t) (add_rows db entry.id s.chunk_records t.base)
  add_all (err e, (s, t)) = (err e, (ended e s, t))

  unfoldable pub save : Plan → Saving io be db → Result FileEntry × Saving io be db
  unfolding deduplicated write_entry add_all
  save plan (s, t) =
      let sha = to_hex (finish s.hasher) in
      let size = s.received_bytes in
      let st = deduplicated plan sha size (s, t) in
      add_all (write_entry plan (entry_of plan sha size st.0) st)

  saved :
      Plan
      → Result Done × (Session io be × Backend.World be)
      → Stock be db
      → Result FileEntry × Saving io be db
  unfolding save
  saved plan (ok _, (s, store)) t = save plan (s, record t { store = store })
  saved plan (err e, (s, store)) t = (err e, (s, record t { store = store }))

  -- `complete`: the chunks, then the database.
  unfoldable pub complete :
      Plan → (ManhBay io be → KetQua) → Saving io be db → Result FileEntry × Saving io be db
  unfolding saved
  complete plan join (s, t) = saved plan (complete_chunks join (s, t.store)) t
