-- ===== src/Storage/Upload/Begin.antt =====
-- What `begin` of UploadManager (src/storage/upload_manager.cpp) asks the database before a session:
-- `findDuplicates` and `ensureFolder`. A search that fails gives no files. The texts of errors hold the
-- path, so they are parameters; `now` is the time of the call.
pub mod Duplicates
pub mod Folders
mod Tests
use telegram_disk.Base.{
  ℕ, Bool, true, false, ◌&&◌, not, List, [], ◌∷◌, ◌++◌, length, leb, ◌==◌, if◌then◌else◌,
}
use telegram_disk.Base.Bits.{Bytes}
use telegram_disk.Base.Result.{Result, ok, err, M, and_then}
use telegram_disk.Text.Path.{normalize_virtual_path}
use telegram_disk.Text.Split.{split}
use telegram_disk.Text.Trim.{equal_bytes}
use telegram_disk.Storage.Database.{Database, FileEntry}
use Prim.Native.String.{String}

pub record DuplicateInfo : Type 0 where
  pub file_id : ℕ
  pub name : Bytes
  pub path : Bytes
  pub size : ℕ
  pub modified_at : ℕ
  pub reason : String

abbrev pub duplicate_of : FileEntry → String → DuplicateInfo
duplicate_of f reason = record {
  file_id = f.id;
  name = f.name;
  path = f.path;
  size = f.size;
  modified_at = f.modified_at;
  reason = reason;
}

is_empty : Bytes → Bool
is_empty xs = length xs == 0

-- The file of that name in the folder, if it is not a folder itself.
unfoldable pub same_name : Bytes → ℕ → Result FileEntry → List DuplicateInfo
unfolding is_empty
same_name sha256 size (err e) = []
same_name sha256 size (ok f) =
    let same = f.size == size && (not (is_empty sha256) && equal_bytes f.sha256 sha256) in
    if f.is_folder then [] else duplicate_of f (if same then "giống hệt" else "cùng tên") ∷ []

abbrev or_nothing : {W : Type 0} → Result (List FileEntry) × W → List FileEntry × W
or_nothing (ok fs, w) = (fs, w)
or_nothing (err e, w) = ([], w)

-- By the full digest where it is known, otherwise by the quick one.
unfoldable pub same_content :
    (db : Database) → Bytes → Bytes → ℕ → Database.World db → List FileEntry × Database.World db
unfolding is_empty
same_content db quick_hash sha256 size w =
    if not (is_empty sha256)
    then or_nothing (Database.find_by_hash db sha256 w)
    else if not (is_empty quick_hash)
    then or_nothing (Database.find_by_quick_hash db quick_hash size w)
    else ([], w)

unfoldable pub is_listed : ℕ → List DuplicateInfo → Bool
is_listed id [] = false
is_listed id (d ∷ ds) = let rest = is_listed id ds in if d.file_id == id then true else rest

-- The loop over the files of the same content; it ends when ten are listed.
unfoldable pub list_same : String → List FileEntry → List DuplicateInfo → List DuplicateInfo
unfolding is_listed
list_same reason [] out = out
list_same reason (f ∷ fs) out =
    let already = is_listed f.id out in
    let out' = if already then out else out ++ (duplicate_of f reason ∷ []) in
    let rest = list_same reason fs out' in
    if not already && leb 10 (length out') then out' else rest

unfoldable pub find_duplicates :
    (db : Database)
    → Bytes
    → ℕ
    → Bytes
    → Bytes
    → ℕ
    → Database.World db
    → List DuplicateInfo × Database.World db
unfolding is_empty list_same same_name same_content
find_duplicates db name parent_id quick_hash sha256 size w =
    let (first, w1) = Database.find_by_name_in_folder db parent_id name w in
    let (files, w2) = same_content db quick_hash sha256 size w1 in
    let reason = if is_empty sha256 then "nhiều khả năng cùng nội dung" else "cùng nội dung" in
    (list_same reason files (same_name sha256 size first), w2)

-- What a path that exists may be used for.
abbrev only_folder : {W : Type 0} → String → Result FileEntry × W → Result ℕ × W
only_folder text (err e, w) = (err e, w)
only_folder text (ok f, w) = (if f.is_folder then ok f.id else err text, w)

abbrev folder_entry : ℕ → ℕ → ℕ → Bytes → Bytes → FileEntry
folder_entry now owner_id parent name path = record {
  id = 0;
  parent_id = parent;
  name = name;
  path = path;
  is_folder = true;
  size = 0;
  mime_type = [];
  sha256 = [];
  quick_hash = [];
  chunk_size = 0;
  chunk_count = 0;
  created_at = now;
  modified_at = now;
  owner_id = owner_id;
  trashed = false;
  trashed_at = 0;
  share_token = [];
  share_expires_at = 0;
  starred = false;
  note = [];
}

-- One folder on the way: found, or created.
folder_at :
    (db : Database)
    → FileEntry
    → String
    → Result FileEntry × Database.World db
    → Result ℕ × Database.World db
folder_at db entry text (ok f, w) = only_folder text (ok f, w)
folder_at db entry text (err e, w) = Database.create_entry db entry w

-- The loop over the parts with `parent` and `current`.
unfoldable pub folder_loop :
    (db : Database) → (Bytes → String) → ℕ → ℕ → ℕ → Bytes → List Bytes → M (Database.World db) ℕ
unfolding folder_at
folder_loop db text now owner_id parent current [] w = (ok parent, w)
folder_loop db text now owner_id parent current (part ∷ parts) w =
    let next = current ++ (47 ∷ part) in
    and_then
      (folder_at db (folder_entry now owner_id parent part next) (text next)
        (Database.get_entry_by_path db next w))
      (λ id. folder_loop db text now owner_id id next parts)

folder_or_make :
    (db : Database)
    → (Bytes → String)
    → (Bytes → String)
    → ℕ
    → ℕ
    → Bytes
    → Result FileEntry × Database.World db
    → Result ℕ × Database.World db
unfolding folder_loop
folder_or_make db whole text now owner_id path (ok f, w) = only_folder (whole path) (ok f, w)
folder_or_make db whole text now owner_id path (err e, w) =
    folder_loop db text now owner_id 0 [] (split path 47 false) w

unfoldable pub ensure_folder :
    (db : Database) → (Bytes → String) → (Bytes → String) → ℕ → ℕ → Bytes → M (Database.World db) ℕ
unfolding folder_or_make
ensure_folder db whole text now owner_id path w =
    let normalized = normalize_virtual_path path in
    if equal_bytes normalized (47 ∷ [])
    then (ok 0, w)
    else folder_or_make db whole text now owner_id normalized
        (Database.get_entry_by_path db normalized w)
