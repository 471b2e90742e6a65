-- ===== src/Storage/Purge/Tests.antt =====
-- A file of one chunk whose content another file shares, or does not.
use telegram_disk.Base.{ℕ, ◌≡◌, refl, ◌⊎◌, true, false, List, [], ◌∷◌, length}
use telegram_disk.Base.Result.{Done, err}
use telegram_disk.Storage.Chunk.{ChunkLocation}
use telegram_disk.Storage.Upload.Backend.{Backend}
use telegram_disk.Storage.Samples.{book, ledger}
use telegram_disk.Storage.Purge.{Stock, purge_file_data}
use telegram_disk.Storage.Purge.Shared.{Untouched, Removed, IsAlone, purge_file_data-Removed}

-- The places that were removed.
abbrev bin : Backend
bin = record {
  World = List ChunkLocation;
  Writer = Done;
  begin_chunk = λ size index w. (err "", w);
  write = λ _ part w. (err "", w);
  finish = λ _ w. (err "", w);
  abort = λ _ w. w;
  remove_chunks = λ locs w. locs;
}

abbrev shelf : (files : ℕ) → Stock bin (ledger files)
shelf files = record {
  cache = record {
    capacity = 8;
    used = 2;
    hits = 0;
    misses = 0;
    order = record { document = 6; block_offset = 0; bytes = 1 ∷ 2 ∷ [] } ∷ [];
  };
  store = [];
  base = tt;
}

purge_file_data-Removed_example :
    let s' = (purge_file_data true book (shelf 1)).1 in
    Untouched (shelf 1) s'
    ⊎ ((false ≡ false) × Removed 9 (shelf 1) s' × (true ≡ true → IsAlone book (shelf 1)))
purge_file_data-Removed_example = purge_file_data-Removed true book (shelf 1)

-- Alone, its place and its block go; shared, both stay.
alone : length (purge_file_data true book (shelf 1)).1.store ≡ 1
unfolding purge_file_data
alone = refl

stays : length (purge_file_data true book (shelf 2)).1.store ≡ 0
unfolding purge_file_data
stays = refl
