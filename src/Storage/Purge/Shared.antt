-- ===== src/Storage/Purge/Shared.antt =====
-- What `purgeFileData` removes.
use telegram_disk.Base.{
  ℕ, ◌≤◌, ◌≡◌, refl, ◌⊎◌, inl, inr, Bool, true, false, ◌&&◌, not, Bool-cases, List, [], ◌∷◌, map,
  All, length, ◌==◌, arith, ap,
}
use telegram_disk.Base.Result.{Result, ok, err}
use telegram_disk.Storage.Chunk.{ChunkEntry, to_location}
use telegram_disk.Storage.BlockCache.{BlockCache, Entry, invalidate}
use telegram_disk.Storage.BlockCache.Kept.{invalidate_gone, invalidate-All}
use telegram_disk.Storage.Database.{Database, FileEntry}
use telegram_disk.Storage.Upload.Backend.{Backend}
use telegram_disk.Storage.Purge.{
  Stock, forget_all, shared, purge_listed, purge_rows, purge_counted, purge_file_data,
}

-- No block of that document is in the cache.
abbrev pub IsForgotten : ℕ → BlockCache → Type 0
IsForgotten d cache = All (λ (e : Entry). (e.document == d) ≡ false) cache.order

forget_all-IsForgotten :
    (d : ℕ) (cs : List ChunkEntry) (cache : BlockCache)
    → IsForgotten d cache
    → IsForgotten d (forget_all cs cache)
unfolding forget_all
forget_all-IsForgotten d [] cache h = h
forget_all-IsForgotten d (c ∷ cs) cache h =
    forget_all-IsForgotten d cs (invalidate c.document_id cache)
      (invalidate-All (λ e. (e.document == d) ≡ false) c.document_id cache h)

forget_all_gone :
    (cs : List ChunkEntry) (cache : BlockCache)
    → All (λ (c : ChunkEntry). IsForgotten c.document_id (forget_all cs cache)) cs
unfolding forget_all
forget_all_gone [] cache = tt
forget_all_gone (c ∷ cs) cache = (
  forget_all-IsForgotten c.document_id cs (invalidate c.document_id cache)
      (invalidate_gone c.document_id cache),
  forget_all_gone cs (invalidate c.document_id cache),
)

shared_one : (r : Result ℕ) (count : ℕ) → shared r ≡ false → r ≡ ok count → count ≤ 1
unfolding shared
shared_one (ok n) count h e = ground (arith, h, e)
shared_one (err x) count h e = absurd (ground (arith, e))

module _ {be : Backend} {db : Database} where
  -- The rows `cs` of the file were listed; their places were removed, and no block of theirs is left.
  pub record Removed (id : ℕ) (s s' : Stock be db) : Type 0 where
    pub asked : Database.World db
    pub rows : List ChunkEntry
    pub listed : (Database.list_chunks db id asked).0 ≡ ok rows
    pub taken : s'.store ≡ Backend.remove_chunks be (map to_location rows) s.store
    pub forgotten : All (λ (c : ChunkEntry). IsForgotten c.document_id s'.cache) rows

  abbrev pub Untouched : Stock be db → Stock be db → Type 0
  Untouched s s' = (s'.store ≡ s.store) × (s'.cache ≡ s.cache)

  purge_listed-Removed :
      (id : ℕ) (s : Stock be db) (v : Database.World db)
      (r : Result (List ChunkEntry) × Database.World db)
      → Database.list_chunks db id v ≡ r
      → Untouched s (purge_listed id s r).1 ⊎ Removed id s (purge_listed id s r).1
  unfolding purge_listed
  purge_listed-Removed id s v (err e, u) q = inl (refl, refl)
  purge_listed-Removed id s v (ok [], u) q = inl (refl, refl)
  purge_listed-Removed id s v (ok (c ∷ cs), u) q = inr (record {
    asked = v;
    rows = c ∷ cs;
    listed = ap (λ p. p.0) q;
    taken = refl;
    forgotten = forget_all_gone (c ∷ cs) s.cache;
  })

  purge_rows-Removed :
      (file : FileEntry) (s : Stock be db)
      → Untouched s (purge_rows file s).1 ⊎ Removed file.id s (purge_rows file s).1
  unfolding purge_rows
  purge_rows-Removed file s = purge_listed-Removed file.id s s.base _ refl

  -- The count of files with the content is one at most, or it failed.
  abbrev pub IsAlone : FileEntry → Stock be db → Type 0
  IsAlone file s =
      (count : ℕ) → (Database.count_files_with_hash db file.sha256 s.base).0 ≡ ok count → count ≤ 1

  purge_counted-Removed :
      (file : FileEntry) (s : Stock be db) (r : Result ℕ × Database.World db)
      → Untouched s (purge_counted file s r).1
        ⊎ (Removed file.id s (purge_counted file s r).1
            × ((count : ℕ) → r.0 ≡ ok count → count ≤ 1))
  unfolding purge_counted
  purge_counted-Removed file s (r, v) = elim (Bool-cases (shared r)) [
    | inl c ↦ rw c (inl (refl, refl))
    | inr c ↦ elim (purge_rows-Removed file (record s { base = v })) [
      | inl h ↦ rw c (inl h)
      | inr h ↦
          let removed : Removed file.id s (purge_rows file (record s { base = v })).1 = record {
            asked = h.asked;
            rows = h.rows;
            listed = h.listed;
            taken = h.taken;
            forgotten = h.forgotten;
          } in
          rw c (inr (removed, λ count e. shared_one r count c e))
    ]
  ]

  -- `purgeFileData` leaves the backend and the cache alone, or the file is no folder, and it has
  -- removed from the backend exactly the places of the rows that the database lists for the file, and no
  -- block of their documents is left in the cache. Where deduplication is on and the file has a hash,
  -- it does so only if the count of files with this hash is at most one or fails.
  pub purge_file_data-Removed :
      (deduplicate : Bool) (file : FileEntry) (s : Stock be db)
      → let s' = (purge_file_data deduplicate file s).1 in
        Untouched s s'
        ⊎ ((file.is_folder ≡ false)
            × Removed file.id s s'
            × ((deduplicate && not (length file.sha256 == 0)) ≡ true → IsAlone file s))
  unfolding purge_file_data
  purge_file_data-Removed deduplicate file s = elim (Bool-cases file.is_folder) [
    | inl a ↦ rw a (inl (refl, refl))
    | inr a ↦ elim (Bool-cases (deduplicate && not (length file.sha256 == 0))) [
      | inl b ↦
          let r = Database.count_files_with_hash db file.sha256 s.base in
          elim (purge_counted-Removed file s r) [
            | inl h ↦ rw (a, b) (inl h)
            | inr h ↦ rw (a, b) (inr (refl, h.0, λ _. h.1))
          ]
      | inr b ↦ elim (purge_rows-Removed file s) [
        | inl h ↦ rw (a, b) (inl h)
        | inr h ↦ rw (a, b) (inr (refl, h, λ x. absurd (ground (arith, x))))
      ]
    ]
  ]
