-- ===== src/Storage/Engine/Tests.antt =====
-- `readFileRange` on a file of two chunks.
use telegram_disk.Base.{
  ℕ, ◌≡◌, refl, ◌⊎◌, inr, false, [], ◌∷◌, All, take, drop, ◌==◌, if◌then◌else◌, arith,
}
use telegram_disk.Base.Bits.{Bytes}
use telegram_disk.Base.Result.{Done, ok, err}
use telegram_disk.Storage.Chunk.{ChunkEntry}
use telegram_disk.Storage.BlockCache.{BlockCache}
use telegram_disk.Storage.Engine.{Source, FileEntry, read_file_range}
use telegram_disk.Storage.Engine.Blocks.{Honest, IsBlock}
use telegram_disk.Storage.Engine.Exact.{read_file_range-Read}
use Prim.Native.String.{String}

abbrev documents : ℕ → Bytes
documents d = if d == 1 then 10 ∷ 11 ∷ [] else 12 ∷ []

abbrev row : ℕ → ℕ → ℕ → ChunkEntry
row d o n = record {
  id = d;
  file_id = 9;
  index = d;
  offset = o;
  size = n;
  message_id = 0;
  document_id = d;
  access_hash = 0;
  file_reference_hex = [];
  dc_id = 2;
  account_id = 1;
  sha256 = [];
}

abbrev shelf : Source
shelf = record {
  World = Done;
  list_chunks = λ id w. (ok (row 1 0 2 ∷ row 2 2 1 ∷ []), w);
  read_range = λ loc start len w. (ok (loc, take len (drop start (documents loc.document_id))), w);
  update_reference = λ _ _ w. w;
  read_error = λ e. e;
  missing_at = λ _. "";
  empty_at = λ _. "";
  short_at = λ _. "";
}

abbrev shelf_Honest : Honest shelf documents (10 ∷ 11 ∷ 12 ∷ [])
shelf_Honest loc start len w = inr (loc, refl)

abbrev book : FileEntry
book = record { id = 9; size = 3; is_folder = false }

abbrev empty_cache : BlockCache
empty_cache = record { capacity = 100; used = 0; hits = 0; misses = 0; order = [] }

read_file_range-Read_example :
    let (r, s) = read_file_range shelf book 1 2 empty_cache tt in
    All (IsBlock shelf documents (10 ∷ 11 ∷ 12 ∷ [])) s.cache.order
    × (((r ≡ ok tt) × (s.out ≡ 11 ∷ 12 ∷ [])) ⊎ ((x : String) × (r ≡ err x)))
read_file_range-Read_example =
    read_file_range-Read shelf documents (10 ∷ 11 ∷ 12 ∷ []) book 1 2 empty_cache tt (row 1 0 2)
      (row 2 2 1 ∷ []) shelf_Honest refl (refl, omega arith, refl, (refl, omega arith, refl, refl))
      (omega arith) refl refl tt (omega arith)
