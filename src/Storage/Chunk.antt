-- ===== src/Storage/Chunk.antt =====
-- src/tg/tg_account.h and src/db/database.h: where a chunk lies, and its row in the database;
-- `toLocation` and `fromLocation` of src/storage/storage_engine.cpp pass between them. Identifiers
-- are 64-bit patterns, which the code only copies and compares.
use telegram_disk.Base.{ℕ, ◌==◌, if◌then◌else◌, ◌≡◌, arith}
use telegram_disk.Base.Bits.{Bytes, AreBytes}
use telegram_disk.Text.Hex.{to_hex, from_hex, from_hex-to_hex}

pub record ChunkLocation : Type 0 where
  pub message_id : ℕ
  pub document_id : ℕ
  pub access_hash : ℕ
  pub file_reference : Bytes
  pub dc_id : ℕ
  pub size : ℕ
  pub account_id : ℕ

pub record ChunkEntry : Type 0 where
  pub id : ℕ
  pub file_id : ℕ
  pub index : ℕ
  pub offset : ℕ
  pub size : ℕ
  pub message_id : ℕ
  pub document_id : ℕ
  pub access_hash : ℕ
  pub file_reference_hex : Bytes
  pub dc_id : ℕ
  pub account_id : ℕ
  pub sha256 : Bytes

unfoldable pub to_location : ChunkEntry → ChunkLocation
to_location c = record {
  message_id = c.message_id;
  document_id = c.document_id;
  access_hash = c.access_hash;
  file_reference = from_hex c.file_reference_hex;
  dc_id = c.dc_id;
  size = c.size;
  account_id = c.account_id;
}

-- A size of 0 leaves the row's own size.
unfoldable pub from_location : ChunkLocation → ChunkEntry → ChunkEntry
from_location loc c = record c {
  message_id = loc.message_id;
  document_id = loc.document_id;
  access_hash = loc.access_hash;
  file_reference_hex = to_hex loc.file_reference;
  dc_id = loc.dc_id;
  account_id = loc.account_id;
  size = if loc.size == 0 then c.size else loc.size;
}

-- A location with a reference of bytes that is stored in a row is read back from the row
-- unchanged; if its size is 0, the row's size must be 0 before.
pub to_location-from_location :
    (loc : ChunkLocation) (c : ChunkEntry)
    → AreBytes loc.file_reference
    → (loc.size ≡ 0 → c.size ≡ 0)
    → to_location (from_location loc c) ≡ loc
unfolding to_location from_location
to_location-from_location loc c h z = ground (arith, from_hex-to_hex loc.file_reference h)
