-- ===== src/Storage/Upload/Tests.antt =====
-- The theorems on an upload of a few bytes, two chunks at once, and one chunk at a time.
use telegram_disk.Base.{
  ◌==◌, if◌then◌else◌, ◌+◌, ◌≡◌, refl, sym, ◌⊎◌, inl, false, none, some, [], ◌∷◌, ◌++◌, arith,
}
use telegram_disk.Base.Bits.{Bytes}
use telegram_disk.Base.Result.{Done, ok, err}
use telegram_disk.Crypto.Sha256.{reset, update}
use telegram_disk.Crypto.Sha256.Stream.{update-nil}
use telegram_disk.Storage.Chunk.{ChunkLocation}
use telegram_disk.Storage.ChunkBuffer.Exact.{Holds}
use telegram_disk.Storage.Upload.Session.Worker.{Sent, worker-Sent}
use telegram_disk.Storage.ChunkBuffer.{memory, stream, flush}
use telegram_disk.Storage.Upload.Backend.{Backend}
use telegram_disk.Storage.Upload.Session.{
  worker, writer_sink, Session, ManhBay, KetQua, preparing, receiving, thu_het_manh, close_chunk,
}
use telegram_disk.Storage.Upload.Session.Invariant.{hashed, digest}
use telegram_disk.Storage.Upload.Session.Rewind.{thu_het-Good}
use telegram_disk.Storage.Upload.Session.Keep.{Good, SameOpen}
use telegram_disk.Storage.Upload.Receive.{receive, bao}
use telegram_disk.Storage.Upload.Receive.Steps.{Inv}
use telegram_disk.Storage.Upload.Receive.Exact.{Received, receive-Inv}
use telegram_disk.Storage.Upload.Receive.Lost.{Lost, close_failure-Lost}
use telegram_disk.Storage.Upload.Finish.{complete_chunks}
use telegram_disk.Storage.Upload.Finish.Exact.{Whole, complete-Whole}
use telegram_disk.Storage.Upload.Chooser.{IsSafe, chon_cach_day, chon_cach_day-IsSafe}
use telegram_disk.Text.Ascii.{codes, to_lower, lower_ascii}
use telegram_disk.Text.Trim.{trim, equal_bytes}
use telegram_disk.Storage.Samples.{no_disk, no_disk_laws}
use Prim.Native.String.{String}

abbrev place : ChunkLocation
place = record {
  message_id = 5;
  document_id = 6;
  access_hash = 7;
  file_reference = [];
  dc_id = 2;
  size = 0;
  account_id = 1;
}

-- A backend that takes all bytes and then cannot finish the chunk.
abbrev unfinished : Backend
unfinished = record {
  World = Bytes;
  Writer = Done;
  begin_chunk = λ size index w. (ok tt, w);
  write = λ _ part w. (ok tt, w ++ part);
  finish = λ _ w. (err "FLOOD_WAIT_3", w);
  abort = λ _ w. [];
  remove_chunks = λ _ w. w;
}

abbrev two_at_once : Session no_disk unfinished
two_at_once = record {
  spool_path = λ _. "spool";
  total_size = 5;
  chunk_size = 2;
  so_manh_song_song = 2;
  che_do_dem = memory;
  chunk_index = 0;
  chunk_written = 0;
  chunk_offset = 0;
  writer = none;
  buffer = none;
  uploaded = [];
  chunk_records = [];
  dang_bay = [];
  committed_bytes = 0;
  hasher_committed = reset;
  manh_hong = false;
  loi_manh_dau = "";
  hasher = reset;
  chunk_hasher = reset;
  received_bytes = 0;
  is_cancelled = false;
  state = preparing;
  message = "";
}

abbrev letter : Bytes
letter = 10 ∷ 11 ∷ 12 ∷ 13 ∷ 14 ∷ []

two_at_once-Inv : Inv letter two_at_once
two_at_once-Inv = record {
  stored = record {
    sized = omega arith;
    many = omega arith;
    records = refl;
    committed = sym update-nil;
    within = omega arith;
  };
  flying = record {
    sound = refl;
    flights = refl;
    numbered = refl;
    counted = refl;
    reached = omega arith;
    whole_hash = sym update-nil;
  };
  ready = record { idle = λ _. refl; opened = λ b e. absurd (ground arith); room = omega arith };
}

-- The first thread loses its chunk.
abbrev lossy : ManhBay no_disk unfinished → KetQua
lossy m = if m.index == 0 then err "CHUNK_LOST" else ok place

receive-Inv_example : Received letter (0 + 5) (receive lossy letter (two_at_once, []))
receive-Inv_example = receive-Inv letter lossy letter two_at_once [] two_at_once-Inv ([], refl)

-- One byte is in the open chunk.
abbrev half_full : Session no_disk unfinished
half_full = record two_at_once {
  chunk_written = 1;
  buffer = some (record {
    mode = memory;
    sink = none;
    bytes = 10 ∷ [];
    file = none;
    buffered = 1;
    total = 1;
    discarded = false;
  });
  hasher = update reset (10 ∷ []);
  chunk_hasher = update reset (10 ∷ []);
  received_bytes = 1;
}

half_full-Inv : Inv letter half_full
half_full-Inv = record {
  stored = record {
    sized = omega arith;
    many = omega arith;
    records = refl;
    committed = sym update-nil;
    within = omega arith;
  };
  flying = record {
    sound = refl;
    flights = refl;
    numbered = refl;
    counted = refl;
    reached = omega arith;
    whole_hash = refl;
  };
  ready = record { idle = λ e. absurd (ground arith); opened = λ b e. refl; room = omega arith };
}

abbrev landing : ManhBay no_disk unfinished → KetQua
landing m = ok place

complete-Whole_example :
    let (r, (s', w')) = complete_chunks landing (half_full, []) in
    ((r ≡ ok tt) × Whole letter 1 s') ⊎ (((x : String) × (r ≡ err x)) × Good letter s')
complete-Whole_example = complete-Whole letter landing half_full [] half_full-Inv refl

-- One chunk of two bytes is in flight.
abbrev in_flight : ManhBay no_disk unfinished
in_flight = record {
  index = 0;
  offset = 0;
  size = 2;
  sha256 = digest (10 ∷ 11 ∷ []);
  hasher_sau_manh = hashed (10 ∷ 11 ∷ []);
  buffer = record {
    mode = memory;
    sink = none;
    bytes = 10 ∷ 11 ∷ [];
    file = none;
    buffered = 2;
    total = 2;
    discarded = false;
  };
}

abbrev one_in_flight : Session no_disk unfinished
one_in_flight = record two_at_once {
  dang_bay = in_flight ∷ [];
  chunk_index = 1;
  chunk_offset = 2;
  hasher = hashed (10 ∷ 11 ∷ []);
  received_bytes = 2;
}

one_in_flight-Good : Good letter one_in_flight
one_in_flight-Good = (
  record {
    sized = omega arith;
    many = omega arith;
    records = refl;
    committed = sym update-nil;
    within = omega arith;
  },
  record {
    sound = refl;
    flights = (refl, refl, refl, refl, refl);
    numbered = refl;
    counted = refl;
    reached = omega arith;
    whole_hash = refl;
  },
)

thu_het-Good_example :
    let (r, s') = thu_het_manh lossy one_in_flight in
    Good letter s'
    × (s'.dang_bay ≡ [])
    × (((r ≡ ok tt) × (s'.received_bytes ≡ 2) × SameOpen s' one_in_flight)
        ⊎ (((x : String) × (r ≡ err x))
            × (s'.received_bytes ≡ s'.committed_bytes)
            × (s'.buffer ≡ none)
            × (s'.chunk_written ≡ 0)))
thu_het-Good_example = thu_het-Good letter lossy one_in_flight (inl one_in_flight-Good)

-- One chunk at a time, streamed: its bytes have left, and the backend does not finish.
abbrev streamed : Session no_disk unfinished
streamed = record two_at_once {
  so_manh_song_song = 1;
  che_do_dem = stream;
  chunk_written = 2;
  writer = some tt;
  buffer = some (record {
    mode = stream;
    sink = none;
    bytes = [];
    file = none;
    buffered = 0;
    total = 2;
    discarded = false;
  });
  hasher = hashed (10 ∷ 11 ∷ []);
  chunk_hasher = hashed (10 ∷ 11 ∷ []);
  received_bytes = 2;
  state = receiving;
}

streamed_fails : (close_chunk (streamed, 10 ∷ 11 ∷ [])).0 ≡ err "FLOOD_WAIT_3"
unfolding close_chunk flush
streamed_fails = refl

close_failure-Lost_example :
    Lost (bao landing "FLOOD_WAIT_3" (close_chunk (streamed, 10 ∷ 11 ∷ [])).1.0) streamed
close_failure-Lost_example =
    close_failure-Lost landing streamed (10 ∷ 11 ∷ []) "FLOOD_WAIT_3" (omega arith) streamed_fails

chon_cach_day-IsSafe_example : IsSafe 4 100 350 50 (chon_cach_day (codes "ram") 4 100 0 350 50)
chon_cach_day-IsSafe_example = chon_cach_day-IsSafe (codes "ram") 4 100 0 350 50

three_fit : (chon_cach_day (codes "RAM") 4 100 0 350 50).so_manh_song_song ≡ 3
unfolding chon_cach_day to_lower lower_ascii trim equal_bytes
three_fit = refl

-- A backend that keeps the bytes.
abbrev keeping : Backend
keeping = record {
  World = Bytes;
  Writer = Done;
  begin_chunk = λ size index w. (ok tt, w);
  write = λ _ part w. (ok tt, w ++ part);
  finish = λ _ w. (ok place, w);
  abort = λ _ w. [];
  remove_chunks = λ _ w. w;
}

abbrev full : ManhBay no_disk keeping
full = record {
  index = 0;
  offset = 0;
  size = 2;
  sha256 = [];
  hasher_sau_manh = reset;
  buffer = record {
    mode = memory;
    sink = none;
    bytes = 10 ∷ 11 ∷ [];
    file = none;
    buffered = 2;
    total = 2;
    discarded = false;
  };
}

full-Holds : Holds no_disk_laws full.buffer (10 ∷ 11 ∷ [])
full-Holds = inl (record { mode = refl; bytes = refl; buffered = refl; alive = refl })

full_lands : (worker false full []).0 ≡ ok place
unfolding worker flush writer_sink
full_lands = refl

worker-Sent_example : Sent keeping 2 0 [] (10 ∷ 11 ∷ []) place (worker false full [])
worker-Sent_example = worker-Sent no_disk_laws full (10 ∷ 11 ∷ []) [] place full-Holds full_lands
