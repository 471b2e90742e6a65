-- ===== src/Storage/Samples.antt =====
-- Sample data that the tests of src/storage share.
use telegram_disk.Base.{ℕ, refl, sym, true, false, none, [], ◌∷◌, length-zero, arith}
use telegram_disk.Base.Result.{Done, ok}
use telegram_disk.Storage.Chunk.{ChunkEntry}
use telegram_disk.Storage.ChunkBuffer.Files.{Stdio, StdioLaws}
use telegram_disk.Storage.Upload.Save.{Plan}
use telegram_disk.Storage.Database.{Database, FileEntry}

-- No file can be opened.
abbrev pub no_disk : Stdio
no_disk = record {
  File = Done;
  open_file = λ _. none;
  fwrite = λ f part. (0, f);
  fflush = λ f. (false, f);
  rewind = λ f. (false, f);
  fread = λ f n. ([], f);
  ferror = λ _. true;
}

pub no_disk_laws : StdioLaws no_disk
no_disk_laws = record {
  content = λ _. [];
  position = λ _. 0;
  opened = λ _ f e. absurd (ground (arith, e));
  written = λ f part _ e. (sym (length-zero part (sym e)), omega (arith, e));
  flushed = λ _ e. absurd (ground (arith, e));
  rewound = λ _ e. absurd (ground (arith, e));
  was_read = λ f n. (refl, omega arith, refl, refl);
  read_full = λ _ _ e. absurd (ground (arith, e));
}

abbrev pub row : ChunkEntry
row = record {
  id = 1;
  file_id = 9;
  index = 0;
  offset = 0;
  size = 2;
  message_id = 3;
  document_id = 6;
  access_hash = 0;
  file_reference_hex = [];
  dc_id = 2;
  account_id = 1;
  sha256 = [];
}

abbrev pub book : FileEntry
book = record {
  id = 9;
  parent_id = 0;
  name = [];
  path = [];
  is_folder = false;
  size = 2;
  mime_type = [];
  sha256 = 97 ∷ [];
  quick_hash = [];
  chunk_size = 2;
  chunk_count = 1;
  created_at = 0;
  modified_at = 0;
  owner_id = 0;
  trashed = false;
  trashed_at = 0;
  share_token = [];
  share_expires_at = 0;
  starred = false;
  note = [];
}

-- A database that finds `files` files with any content.
abbrev pub ledger : ℕ → Database
ledger files = record {
  World = Done;
  create_entry = λ _ w. (ok 9, w);
  update_entry = λ _ w. (ok tt, w);
  get_entry = λ _ w. (ok book, w);
  get_entry_by_path = λ _ w. (ok book, w);
  find_by_hash = λ _ w. (ok [], w);
  find_by_quick_hash = λ _ _ w. (ok [], w);
  find_by_name_in_folder = λ _ _ w. (ok book, w);
  add_chunk = λ _ w. (ok 1, w);
  list_chunks = λ _ w. (ok (row ∷ []), w);
  delete_chunks = λ _ w. (ok tt, w);
  count_files_with_hash = λ _ w. (ok files, w);
}

abbrev pub plain_plan : Plan
plain_plan = record { deduplicate = false; replaces = false; replace_file_id = 0; draft = book }
