-- ===== src/Storage/Upload/Save/Tests.antt =====
-- A session whose last byte is in the open chunk, and one with a chunk that no row uses.
use telegram_disk.Base.{◌≡◌, refl, sym, false, none, some, List, [], ◌∷◌, take, arith}
use telegram_disk.Base.Result.{Done, ok}
use telegram_disk.Crypto.Sha256.{reset, update}
use telegram_disk.Crypto.Sha256.Stream.{update-nil}
use telegram_disk.Storage.Chunk.{ChunkLocation}
use telegram_disk.Storage.ChunkBuffer.{memory}
use telegram_disk.Storage.Database.{FileEntry}
use telegram_disk.Storage.Purge.{Stock}
use telegram_disk.Storage.Upload.Backend.{Backend}
use telegram_disk.Storage.Upload.Session.{
  Session, ManhBay, KetQua, giao_manh_cho_nen, thu_manh, thu_het_manh,
}
use telegram_disk.Storage.Upload.Session.Invariant.{digest}
use telegram_disk.Storage.Upload.Receive.Steps.{Inv}
use telegram_disk.Storage.Upload.Finish.{complete_chunks, sort_by_index}
use telegram_disk.Storage.Upload.Reach.{fresh}
use telegram_disk.Storage.Upload.Save.{save, complete, orphans}
use telegram_disk.Storage.Upload.Save.Kept.{complete_data, OnlyUnused, save-Unused}
use telegram_disk.Storage.Samples.{no_disk, row, book, ledger, plain_plan}

abbrev place : ChunkLocation
place = record {
  message_id = 5;
  document_id = 6;
  access_hash = 7;
  file_reference = [];
  dc_id = 2;
  size = 0;
  account_id = 1;
}

-- The places that were removed.
abbrev bin : Backend
bin = record {
  World = List ChunkLocation;
  Writer = Done;
  begin_chunk = λ size index w. (ok tt, w);
  write = λ _ part w. (ok tt, w);
  finish = λ _ w. (ok place, w);
  abort = λ _ w. w;
  remove_chunks = λ locs w. locs;
}

abbrev shelf : Stock bin (ledger 0)
shelf = record {
  cache = record { capacity = 8; used = 0; hits = 0; misses = 0; order = [] };
  store = [];
  base = tt;
}

-- One byte of one has come, and is in the open chunk.
abbrev last_open : Session no_disk bin
last_open =
    record (fresh (λ _. "spool") 1 2 (record { so_manh_song_song = 2; che_do_dem = memory })) {
      chunk_written = 1;
      received_bytes = 1;
      hasher = update reset (10 ∷ []);
      chunk_hasher = update reset (10 ∷ []);
      buffer = some (record {
        mode = memory;
        sink = none;
        bytes = 10 ∷ [];
        file = none;
        buffered = 1;
        total = 1;
        discarded = false;
      });
    }

last_open-Inv : Inv (10 ∷ []) last_open
unfolding fresh
last_open-Inv = record {
  stored = record {
    sized = omega arith;
    many = omega arith;
    records = refl;
    committed = sym update-nil;
    within = omega arith;
  };
  flying = record {
    sound = refl;
    flights = refl;
    numbered = refl;
    counted = refl;
    reached = omega arith;
    whole_hash = refl;
  };
  ready = record {
    idle = λ e. absurd (ground (arith, e));
    opened = λ b e. refl;
    room = omega arith;
  };
}

abbrev landing : ManhBay no_disk bin → KetQua
landing m = ok place

abbrev entry : FileEntry
entry = record book { size = 1; sha256 = digest (10 ∷ []) }

completes : (complete plain_plan landing (last_open, shelf)).0 ≡ ok entry
unfolding complete save complete_chunks fresh giao_manh_cho_nen thu_manh thu_het_manh sort_by_index
completes = refl

complete_data_example : (entry.size ≡ 1) × (entry.sha256 ≡ digest (take 1 (10 ∷ [])))
unfolding fresh
complete_data_example =
    complete_data (10 ∷ []) plain_plan landing last_open shelf entry last_open-Inv refl completes

-- A second chunk has landed behind a lost one.
abbrev with_orphan : Session no_disk bin
with_orphan = record last_open {
  chunk_records = row ∷ [];
  uploaded = place ∷ (record place { document_id = 7 }) ∷ [];
}

save-Unused_example : OnlyUnused bin (row ∷ []) [] (save plain_plan (with_orphan, shelf)).1.1.store
save-Unused_example = save-Unused plain_plan with_orphan shelf refl refl

one_goes : (save plain_plan (with_orphan, shelf)).1.1.store ≡ record place { document_id = 7 } ∷ []
unfolding save orphans
one_goes = refl
