-- ===== src/Storage/ChunkBuffer/Tests.antt =====
-- Runs of ChunkBuffer over a file in memory, and its theorems at concrete inputs.
use telegram_disk.Base.{
  ℕ, zero, suc, ◌+◌, ◌≡◌, refl, true, false, none, some, [], ◌∷◌, ◌++◌, length, length-take,
  length-drop, take, drop, inr, arith, ap, take_all,
}
use telegram_disk.Base.Bits.{Bytes}
use telegram_disk.Base.Result.{ok, err, SinkFn}
use telegram_disk.Storage.ChunkBuffer.Files.{Stdio, StdioLaws, IsHealthy}
use telegram_disk.Storage.ChunkBuffer.Fed.{Fed}
use telegram_disk.Storage.ChunkBuffer.{ChunkBuffer, disk, append, flush}
use telegram_disk.Storage.ChunkBuffer.Exact.{Holds, append-Holds, flush-Fed, flush_ok}

record Tape : Type 0 where
  content : Bytes
  position : ℕ

abbrev tape : Stdio
tape = record {
  File = Tape;
  open_file = λ _. some (record { content = []; position = 0 });
  fwrite = λ f part. (
    length part,
    record { content = take f.position f.content ++ part; position = f.position + length part },
  );
  fflush = λ f. (true, f);
  rewind = λ f. (true, record f { position = 0 });
  fread = λ f n. (
    take n (drop f.position f.content),
    record f { position = f.position + length (take n (drop f.position f.content)) },
  );
  ferror = λ _. false;
}

take_own_length : (n : ℕ) (xs : Bytes) → take n xs ≡ take (length (take n xs)) xs
take_own_length zero xs = refl
take_own_length (suc n) [] = refl
take_own_length (suc n) (x ∷ xs) = ap (◌∷◌ x) (take_own_length n xs)

abbrev empty_tape : Tape
empty_tape = record { content = []; position = 0 }

tape_opened : (f : Tape) → some empty_tape ≡ some f → (length f.content ≡ 0) × (f.position ≡ 0)
tape_opened f e = ground arith

abbrev tape_laws : StdioLaws tape
tape_laws = record {
  content = λ f. f.content;
  position = λ f. f.position;
  opened = λ _ f e. tape_opened f e;
  written =
      λ f part at_end _. (ap (λ d. d ++ part) (take_all f.position f.content (omega arith)), refl);
  flushed = λ f _. refl;
  rewound = λ f _. (refl, refl);
  was_read = λ f n. (
    take_own_length n (drop f.position f.content),
    omega (arith, length-take n (drop f.position f.content)),
    refl,
    refl,
  );
  read_full = λ f n _.
      omega (arith, length-take n (drop f.position f.content), length-drop f.position f.content);
}

abbrev tape_IsHealthy : IsHealthy tape
tape_IsHealthy = record { flushes = λ _. refl; rewinds = λ _. refl; no_error = λ _. refl }

abbrev collect : SinkFn Bytes
collect piece got = (ok tt, got ++ piece)

abbrev refusing : SinkFn Bytes
refusing piece got = (err "FLOOD_WAIT_3", got)

abbrev spooled : ChunkBuffer tape Bytes
spooled = record {
  mode = disk;
  sink = none;
  bytes = [];
  file = some empty_tape;
  buffered = 0;
  total = 0;
  discarded = false;
}

abbrev held_three : ChunkBuffer tape Bytes
held_three = record {
  mode = disk;
  sink = none;
  bytes = [];
  file = some (record { content = 1 ∷ 2 ∷ 3 ∷ []; position = 3 });
  buffered = 3;
  total = 3;
  discarded = false;
}

spooled-Holds : Holds tape_laws spooled []
spooled-Holds = inr (record {
  mode = refl;
  handle = empty_tape;
  file = refl;
  content = refl;
  position = refl;
  buffered = refl;
  alive = refl;
})

held_three-Holds : Holds tape_laws held_three (1 ∷ 2 ∷ 3 ∷ [])
held_three-Holds = inr (record {
  mode = refl;
  handle = record { content = 1 ∷ 2 ∷ 3 ∷ []; position = 3 };
  file = refl;
  content = refl;
  position = refl;
  buffered = refl;
  alive = refl;
})

append-Holds_example : Holds tape_laws (append tape (1 ∷ 2 ∷ []) (spooled, [])).1.0 (1 ∷ 2 ∷ [])
append-Holds_example =
    append-Holds tape_laws spooled [] (1 ∷ 2 ∷ []) [] spooled-Holds (unfold append in refl)

flush-Fed_example : Fed collect [] (1 ∷ 2 ∷ 3 ∷ []) (flush tape (some collect) (held_three, [])).1.1
flush-Fed_example =
    flush-Fed tape_laws held_three (1 ∷ 2 ∷ 3 ∷ []) collect [] held_three-Holds
      (unfold flush in refl)

flush_ok_example : (flush tape (some collect) (held_three, [])).0 ≡ ok tt
flush_ok_example =
    flush_ok tape_laws held_three (1 ∷ 2 ∷ 3 ∷ []) collect [] held_three-Holds (λ _ _. refl)
      tape_IsHealthy

flush_refused : (flush tape (some refusing) (held_three, [])).0 ≡ err "FLOOD_WAIT_3"
unfolding flush
flush_refused = refl
