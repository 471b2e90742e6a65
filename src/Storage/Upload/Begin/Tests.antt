-- ===== src/Storage/Upload/Begin/Tests.antt =====
-- A database that is the list of its entries, with one file and no folder.
use telegram_disk.Base.{◌+◌, ◌≡◌, refl, List, [], ◌∷◌, length, if◌then◌else◌, ap, arith}
use telegram_disk.Base.Bits.{Bytes}
use telegram_disk.Base.Result.{Result, ok, err}
use telegram_disk.Text.Path.{normalize_virtual_path, push_part}
use telegram_disk.Text.Split.{split}
use telegram_disk.Text.Trim.{equal_bytes, equal_bytes_refl}
use telegram_disk.Storage.Database.{Database, FileEntry}
use telegram_disk.Storage.Samples.{book}
use telegram_disk.Storage.Upload.Begin.{same_content, find_duplicates, ensure_folder}
use telegram_disk.Storage.Upload.Begin.Duplicates.{Lists, find_duplicates-Lists}
use telegram_disk.Storage.Upload.Begin.Folders.{Paths, IsFolder, ensure_folder-IsFolder}
use Prim.Native.String.{String}

abbrev at_path : Bytes → List FileEntry → Result FileEntry
at_path p [] = err "Không tìm thấy"
at_path p (f ∷ fs) = let rest = at_path p fs in if equal_bytes f.path p then ok f else rest

abbrev entries : Database
entries = record {
  World = List FileEntry;
  create_entry = λ f w. (ok (length w + 1), record f { id = length w + 1 } ∷ w);
  update_entry = λ _ w. (ok tt, w);
  get_entry = λ _ w. (err "", w);
  get_entry_by_path = λ p w. (at_path p w, w);
  find_by_hash = λ _ w. (ok w, w);
  find_by_quick_hash = λ _ _ w. (ok w, w);
  find_by_name_in_folder = λ _ _ w. (err "", w);
  add_chunk = λ _ w. (ok 1, w);
  list_chunks = λ _ w. (ok [], w);
  delete_chunks = λ _ w. (ok tt, w);
  count_files_with_hash = λ _ w. (ok 0, w);
}

entries-Paths : Paths entries
entries-Paths = record {
  read = λ p q w. refl;
  created = λ f w id e free made.
      let same : length w + 1 ≡ id = cc made in
      rw (equal_bytes_refl f.path) (ap (λ n. ok (record f { id = n })) same);
}

abbrev text : Bytes → String
text p = "taken"

-- `a/b`.
abbrev wanted : Bytes
wanted = 97 ∷ 47 ∷ 98 ∷ []

made : (ensure_folder entries text text 7 3 wanted []).0 ≡ ok 2
unfolding ensure_folder normalize_virtual_path push_part split equal_bytes
made = refl

not_root : normalize_virtual_path wanted ≡ 47 ∷ [] → ⊥
unfolding normalize_virtual_path push_part equal_bytes
not_root e = let long : length wanted + 1 ≡ 1 = ap length e in omega (arith, long)

ensure_folder-IsFolder_example :
    IsFolder entries
      (normalize_virtual_path wanted)
      2
      (ensure_folder entries text text 7 3 wanted []).1
ensure_folder-IsFolder_example =
    ensure_folder-IsFolder entries entries-Paths text text 7 3 wanted 2 [] not_root made

abbrev digest : Bytes
digest = 1 ∷ []

abbrev shelf : List FileEntry
shelf = book ∷ record book { id = 4 } ∷ book ∷ []

find_duplicates-Lists_example :
    Lists
      (same_content entries [] digest 5 shelf).0
      (find_duplicates entries [] 0 [] digest 5 shelf).0
find_duplicates-Lists_example = find_duplicates-Lists entries [] 0 [] digest 5 shelf

two_listed : length (find_duplicates entries [] 0 [] digest 5 shelf).0 ≡ 2
unfolding find_duplicates same_content
two_listed = refl
