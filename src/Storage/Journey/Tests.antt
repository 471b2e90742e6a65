-- ===== src/Storage/Journey/Tests.antt =====
-- A file of five bytes in chunks of two, two at once, through the backend and back.
use telegram_disk.Base.{
  ℕ, ◌≡◌, refl, sym, ap, ◌∙◌, inl, inr, false, ◌&&◌, List, [], ◌∷◌, ◌++◌, append_assoc, append-nil,
  take, drop, ◌==◌, if◌then◌else◌, arith,
}
use telegram_disk.Base.Bits.{Bytes}
use telegram_disk.Base.Result.{Done, Result, ok, err}
use telegram_disk.Storage.Chunk.{ChunkLocation, ChunkEntry, from_location}
use telegram_disk.Storage.ChunkBuffer.Fed.{Fed, done, part}
use telegram_disk.Storage.ChunkBuffer.{memory, flush, append, create}
use telegram_disk.Storage.BlockCache.{BlockCache}
use telegram_disk.Storage.Engine.{Source, FileEntry, read_file_range}
use telegram_disk.Storage.Engine.Blocks.{Honest}
use telegram_disk.Storage.Engine.Exact.{Read}
use telegram_disk.Storage.Upload.Backend.{Backend}
use telegram_disk.Storage.Upload.Chooser.{Choice}
use telegram_disk.Storage.Upload.Session.{
  Session, ManhBay, KetQua, worker, writer_sink, open_chunk, giao_manh_cho_nen, thu_mot_manh,
  thu_manh, thu_het_manh, new_record,
}
use telegram_disk.Storage.Upload.Session.Placed.{Faithful}
use telegram_disk.Storage.Upload.Session.Worker.{Keeps, worker-Faithful}
use telegram_disk.Storage.Upload.Receive.{receive, dong_manh}
use telegram_disk.Storage.Upload.Finish.{complete_chunks, sort_by_index}
use telegram_disk.Storage.Upload.Reach.{fresh, Reach, here, next, receives, completes}
use telegram_disk.Storage.Upload.Save.{save, complete}
use telegram_disk.Storage.Database.{Database}
use telegram_disk.Storage.Purge.{Stock}
use telegram_disk.Storage.Journey.{AsHandedOn, upload-Read}
use telegram_disk.Storage.Samples.{no_disk, no_disk_laws, ledger, plain_plan}

abbrev place_of : ℕ → ChunkLocation
place_of d = record {
  message_id = 5;
  document_id = d;
  access_hash = 7;
  file_reference = [];
  dc_id = 2;
  size = 0;
  account_id = 1;
}

abbrev documents : ℕ → Bytes
documents d =
    if d == 1 then 10 ∷ 11 ∷ [] else if d == 2 then 12 ∷ 13 ∷ [] else if d == 3 then 14 ∷ [] else []

-- The document that a chunk's bytes become.
abbrev filed : Bytes → Result ChunkLocation
filed (a ∷ b ∷ []) =
    if a == 10 && b == 11
    then ok (place_of 1)
    else if a == 12 && b == 13
    then ok (place_of 2)
    else err "CHUNK_LOST"
filed (a ∷ []) = if a == 14 then ok (place_of 3) else err "CHUNK_LOST"
filed _ = err "CHUNK_LOST"

abbrev library : Backend
library = record {
  World = Bytes;
  Writer = Done;
  begin_chunk = λ size index w. (ok tt, []);
  write = λ _ part w. (ok tt, w ++ part);
  finish = λ _ w. (filed w, w);
  abort = λ _ w. [];
  remove_chunks = λ _ w. w;
}

filed-documents :
    (held : Bytes) (loc : ChunkLocation) → filed held ≡ ok loc → documents loc.document_id ≡ held
filed-documents [] loc e = absurd (ground (arith, e))
filed-documents (a ∷ []) loc e = ground (arith, e)
filed-documents (a ∷ b ∷ []) loc e = ground (arith, e)
filed-documents (a ∷ b ∷ c ∷ rest) loc e = absurd (ground (arith, e))

-- What is written stands behind what was there.
Fed-all : {t held u : Bytes} → Fed (writer_sink library false tt) t held u → u ≡ t ++ held
unfolding writer_sink
Fed-all {t = t} done = sym (append-nil t)
Fed-all {t = t} (part piece rest q f e) =
    let step = ap (λ r. r.1) q in
    Fed-all f
    ∙ ap (λ z. z ++ rest) (sym step)
    ∙ append_assoc t piece rest
    ∙ ap (λ z. t ++ z) (sym e)

library-Keeps : Keeps library documents
library-Keeps size index w opened fed writer held loc b f e =
    let start : [] ≡ opened = ap (λ r. r.1) b in
    filed-documents held loc (ap filed (sym (Fed-all f ∙ ap (λ z. z ++ held) (sym start))) ∙ e)

abbrev letter : Bytes
letter = 10 ∷ 11 ∷ 12 ∷ 13 ∷ 14 ∷ []

-- Every thread runs to its end at the join.
abbrev at_once : ManhBay no_disk library → KetQua
at_once m = (worker false m []).0

at_once-Faithful : Faithful no_disk_laws documents letter at_once
at_once-Faithful = worker-Faithful no_disk_laws documents letter (λ m. []) library-Keeps

worker-Faithful_example : Faithful no_disk_laws documents letter at_once
worker-Faithful_example = worker-Faithful no_disk_laws documents letter (λ m. []) library-Keeps

abbrev chosen : Choice
chosen = record { so_manh_song_song = 2; che_do_dem = memory }

abbrev begun : Session no_disk library
begun = fresh (λ _. "spool") 5 2 chosen

abbrev sent : Session no_disk library
sent = (receive at_once letter (begun, [])).1.0

-- A database that takes no entry, so that `complete` fails behind its chunks.
abbrev refusing : Database
refusing = record (ledger 0) { create_entry = λ _ w. (err "locked", w) }

abbrev full : Stock library refusing
full = record {
  cache = record { capacity = 100; used = 0; hits = 0; misses = 0; order = [] };
  store = [];
  base = tt;
}

abbrev retried : Session no_disk library
retried = (complete plain_plan at_once (sent, full)).1.0

refused : (complete plain_plan at_once (sent, full)).0 ≡ err "locked"
unfolding complete save complete_chunks receive fresh open_chunk append create dong_manh
    giao_manh_cho_nen thu_mot_manh thu_manh thu_het_manh sort_by_index worker flush writer_sink
refused = refl

retried-Reach : Reach no_disk_laws refusing plain_plan documents letter begun retried
unfolding fresh
retried-Reach =
    next (next here (receives begun at_once letter [] at_once-Faithful ([], append-nil letter)))
      (completes sent at_once full "locked" at_once-Faithful refused)

all_sent : retried.received_bytes ≡ 5
unfolding receive fresh open_chunk append create dong_manh giao_manh_cho_nen thu_mot_manh thu_manh
    worker flush writer_sink complete save complete_chunks thu_het_manh sort_by_index
all_sent = refl

gets_through : (complete_chunks at_once (retried, [])).0 ≡ ok tt
unfolding receive fresh open_chunk append create dong_manh giao_manh_cho_nen thu_mot_manh thu_manh
    worker flush writer_sink complete save complete_chunks thu_het_manh sort_by_index
gets_through = refl

-- As the database lists them.
abbrev row : ℕ → ℕ → ℕ → ChunkEntry
row d o n = record {
  id = d;
  file_id = 9;
  index = d;
  offset = o;
  size = n;
  message_id = 0;
  document_id = d;
  access_hash = 0;
  file_reference_hex = [];
  dc_id = 2;
  account_id = 1;
  sha256 = [];
}

abbrev rows : List ChunkEntry
rows = row 1 0 2 ∷ row 2 2 2 ∷ row 3 4 1 ∷ []

handed_on : AsHandedOn rows (complete_chunks at_once (retried, [])).1.0.chunk_records
unfolding receive fresh open_chunk append create dong_manh giao_manh_cho_nen thu_mot_manh thu_manh
    worker flush writer_sink complete save complete_chunks thu_het_manh sort_by_index new_record
    from_location
handed_on = ((refl, refl, refl, (refl, refl, refl, (refl, refl, refl, tt))))

abbrev shelf : Source
shelf = record {
  World = Done;
  list_chunks = λ id w. (ok rows, w);
  read_range = λ loc start len w. (ok (loc, take len (drop start (documents loc.document_id))), w);
  update_reference = λ _ _ w. w;
  read_error = λ e. e;
  missing_at = λ _. "";
  empty_at = λ _. "";
  short_at = λ _. "";
}

shelf_Honest : Honest shelf documents letter
shelf_Honest loc start len w = inr (loc, refl)

abbrev book : FileEntry
book = record { id = 9; size = 5; is_folder = false }

abbrev empty_cache : BlockCache
empty_cache = record { capacity = 100; used = 0; hits = 0; misses = 0; order = [] }

upload-Read_example :
    Read shelf documents letter 1 3 [] (read_file_range shelf book 1 3 empty_cache tt)
upload-Read_example =
    upload-Read no_disk_laws refusing plain_plan documents letter shelf (λ _. "spool") 5 2 chosen
      retried at_once [] rows book 1 3 empty_cache tt (omega arith) (omega arith) refl retried-Reach
      (inl refl) at_once-Faithful all_sent gets_through handed_on refl shelf_Honest refl refl tt
      (omega arith) (omega arith) (omega arith)
