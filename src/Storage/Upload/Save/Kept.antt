-- ===== src/Storage/Upload/Save/Kept.antt =====
-- What `complete` writes and removes.
use telegram_disk.Base.{
  ℕ, ◌≡◌, refl, ap, ◌∙◌, ◌⊎◌, inl, inr, true, false, Bool-cases, List, [], ◌∷◌, All, take, ◌==◌,
  if◌then◌else◌, arith,
}
use telegram_disk.Base.Bits.{Bytes}
use telegram_disk.Base.Result.{Done, Result, ok, err}
use telegram_disk.Crypto.Sha256.{finish}
use telegram_disk.Text.Hex.{to_hex}
use telegram_disk.Storage.Chunk.{ChunkLocation, ChunkEntry}
use telegram_disk.Storage.ChunkBuffer.Files.{Stdio}
use telegram_disk.Storage.Database.{Database, FileEntry}
use telegram_disk.Storage.Purge.{Stock}
use telegram_disk.Storage.Upload.Backend.{Backend}
use telegram_disk.Storage.Upload.Session.{Session, ManhBay, KetQua}
use telegram_disk.Storage.Upload.Session.Invariant.{digest}
use telegram_disk.Storage.Upload.Receive.Steps.{Inv}
use telegram_disk.Storage.Upload.Finish.{complete_chunks}
use telegram_disk.Storage.Upload.Finish.Exact.{Whole, complete-Whole}
use telegram_disk.Storage.Upload.Save.{
  Plan, Saving, is_used, orphans, entry_of, updated, created, in_base, remove_orphans,
  replace_entry, write_entry, finished, add_all, deduplicated, save, saved, complete,
}
use Prim.Native.String.{String}

-- No row has the document of the place.
abbrev pub IsUnused : List ChunkEntry → ChunkLocation → Type 0
IsUnused rows loc = All (λ (c : ChunkEntry). (c.document_id == loc.document_id) ≡ false) rows

is_used-none :
    (rows : List ChunkEntry) (loc : ChunkLocation) → is_used rows loc ≡ false → IsUnused rows loc
unfolding is_used
is_used-none [] loc h = tt
is_used-none (c ∷ cs) loc h = elim (Bool-cases (c.document_id == loc.document_id)) [
  | inl e ↦ absurd (cc (rw e at h))
  | inr e ↦ (e, is_used-none cs loc (rw e at h))
]

orphans-IsUnused :
    (rows : List ChunkEntry) (locs : List ChunkLocation) → All (IsUnused rows) (orphans rows locs)
unfolding orphans
orphans-IsUnused rows [] = tt
orphans-IsUnused rows (loc ∷ locs) = elim (Bool-cases (is_used rows loc)) [
  | inl e ↦ rw e (orphans-IsUnused rows locs)
  | inr e ↦ rw e (is_used-none rows loc e, orphans-IsUnused rows locs)
]

created_data :
    {W : Type 0} (entry : FileEntry) (r : Result ℕ × W) (e : FileEntry)
    → (created entry r).0 ≡ ok e
    → (e.size ≡ entry.size) × (e.sha256 ≡ entry.sha256)
unfolding created
created_data entry (ok id, w) e h = ground (arith, h)
created_data entry (err x, w) e h = absurd (ground (arith, h))

updated_data :
    {W : Type 0} (entry : FileEntry) (r : Result Done × W) (e : FileEntry)
    → (updated entry r).0 ≡ ok e
    → (e.size ≡ entry.size) × (e.sha256 ≡ entry.sha256)
unfolding updated
updated_data entry (ok _, w) e h = ground (arith, h)
updated_data entry (err x, w) e h = absurd (ground (arith, h))

-- What happens to the backend: nothing, or places go that no row of the file uses.
abbrev pub OnlyUnused :
    (be : Backend) → List ChunkEntry → Backend.World be → Backend.World be → Type 0
OnlyUnused be rows w w' =
    (w' ≡ w)
    ⊎ ((locs : List ChunkLocation) × (w' ≡ Backend.remove_chunks be locs w)
        × All (IsUnused rows) locs)

remove_orphans-Unused :
    {be : Backend} {db : Database} (rows : List ChunkEntry) (locs : List ChunkLocation)
    (t : Stock be db)
    → All (IsUnused rows) locs
    → OnlyUnused be rows t.store (remove_orphans locs t).store
unfolding remove_orphans
remove_orphans-Unused rows [] t h = inl refl
remove_orphans-Unused rows (loc ∷ locs) t h = inr (loc ∷ locs, refl, h)

module _ {io : Stdio} {be : Backend} {db : Database} where
  -- The entry that is written has the size and the hash.
  abbrev HasData : ℕ → Bytes → Result FileEntry × Saving io be db → Type 0
  HasData size sha r = (e : FileEntry) → r.0 ≡ ok e → (e.size ≡ size) × (e.sha256 ≡ sha)

  replace_entry_data :
      (plan : Plan) (entry : FileEntry) (st : Saving io be db)
      (r : Result FileEntry × Database.World db)
      → HasData entry.size entry.sha256 (replace_entry plan entry st r)
  unfolding replace_entry
  replace_entry_data plan entry (s, t) (ok old, w) = λ e h. updated_data _ _ e h
  replace_entry_data plan entry (s, t) (err x, w) = λ e h. created_data entry _ e h

  write_entry_data :
      (plan : Plan) (entry : FileEntry) (st : Saving io be db)
      → HasData entry.size entry.sha256 (write_entry plan entry st)
  unfolding write_entry
  write_entry_data plan entry (s, t) =
      elim plan.replaces
        as (λ b. HasData entry.size entry.sha256 (
          if b
          then replace_entry plan entry (s, t) (Database.get_entry db plan.replace_file_id t.base)
          else in_base (s, t) (created entry (Database.create_entry db entry t.base)))) [
            | true ↦ replace_entry_data plan entry (s, t) _
            | false ↦ λ e h. created_data entry _ e h
          ]

  finished_data :
      (size : ℕ) (sha : Bytes) (entry : FileEntry) (st : Saving io be db)
      (r : Result Done × Database.World db)
      → entry.size ≡ size
      → entry.sha256 ≡ sha
      → HasData size sha (finished entry st r)
  unfolding finished
  finished_data size sha entry (s, t) (ok _, w) a b e h = ground (arith, h, a, b)
  finished_data size sha entry (s, t) (err x, w) a b e h = absurd (ground (arith, h))

  add_all_data :
      (size : ℕ) (sha : Bytes) (r : Result FileEntry × Saving io be db)
      → HasData size sha r
      → HasData size sha (add_all r)
  unfolding add_all
  add_all_data size sha (ok entry, (s, t)) h =
      let d = h entry refl in finished_data size sha entry (s, t) _ d.0 d.1
  add_all_data size sha (err x, (s, t)) h = λ e b. absurd (ground (arith, b))

  save_data :
      (plan : Plan) (s : Session io be) (t : Stock be db)
      → HasData s.received_bytes (to_hex (finish s.hasher)) (save plan (s, t))
  unfolding save
  save_data plan s t =
      let sha = to_hex (finish s.hasher) in
      let st = deduplicated plan sha s.received_bytes (s, t) in
      let entry = entry_of plan sha s.received_bytes st.0 in
      add_all_data s.received_bytes sha (write_entry plan entry st) (write_entry_data plan entry st)

  saved_data :
      (T : Bytes) (total : ℕ) (plan : Plan) (t : Stock be db)
      (r : Result Done × (Session io be × Backend.World be))
      → (let (q, (s, w)) = r in ((q ≡ ok tt) × Whole T total s) ⊎ ((x : String) × (q ≡ err x)))
      → HasData total (digest (take total T)) (saved plan r t)
  unfolding saved
  saved_data T total plan t (ok _, (s, w)) (inl (_, whole)) =
      let d = save_data plan s (record t { store = w }) in
      λ e b. ((d e b).0 ∙ whole.3, (d e b).1 ∙ ap (λ h. to_hex (finish h)) whole.2)
  saved_data T total plan t (ok _, (s, w)) (inr (x, e)) = absurd (ground (arith, e))
  saved_data T total plan t (err x, (s, w)) h = λ e b. absurd (ground (arith, b))

  -- With several chunks at once, let the session be in order against the file `T` and not cancelled.
  -- When `complete` reports an entry, whatever the plan, the other files and the database, its size
  -- is the count of received bytes, and its hash is the SHA-256 of exactly these bytes of `T`.
  pub complete_data :
      (T : Bytes) (plan : Plan) (join : ManhBay io be → KetQua) (s : Session io be)
      (t : Stock be db) (e : FileEntry)
      → Inv T s
      → s.is_cancelled ≡ false
      → (complete plan join (s, t)).0 ≡ ok e
      → (e.size ≡ s.received_bytes) × (e.sha256 ≡ digest (take s.received_bytes T))
  unfolding complete
  complete_data T plan join s t e i c h =
      saved_data T s.received_bytes plan t (complete_chunks join (s, t.store))
        (elim (complete-Whole T join s t.store i c) [ inl w ↦ inl w | inr (b, _) ↦ inr b ]) e h

  finished-Unused :
      (entry : FileEntry) (s : Session io be) (t : Stock be db)
      (r : Result Done × Database.World db)
      → OnlyUnused be s.chunk_records t.store (finished entry (s, t) r).1.1.store
  unfolding finished
  finished-Unused entry s t (ok _, w) =
      remove_orphans-Unused s.chunk_records (orphans s.chunk_records s.uploaded)
        (record t { base = w }) (orphans-IsUnused s.chunk_records s.uploaded)
  finished-Unused entry s t (err x, w) = inl refl

  add_all-Unused :
      (s : Session io be) (t : Stock be db) (r : Result FileEntry × Database.World db)
      → OnlyUnused be s.chunk_records t.store (add_all (in_base (s, t) r)).1.1.store
  unfolding add_all
  add_all-Unused s t (ok entry, w) = finished-Unused entry s (record t { base = w }) _
  add_all-Unused s t (err x, w) = inl refl

  -- Without deduplication and where no file is replaced, the database part of `complete` removes
  -- from the backend nothing, or places whose documents no row of the file uses, whether the writes to
  -- the database succeed or fail.
  pub save-Unused :
      (plan : Plan) (s : Session io be) (t : Stock be db)
      → plan.deduplicate ≡ false
      → plan.replaces ≡ false
      → OnlyUnused be s.chunk_records t.store (save plan (s, t)).1.1.store
  unfolding save deduplicated write_entry
  save-Unused plan s t d r =
      let sha = to_hex (finish s.hasher) in
      let entry = entry_of plan sha s.received_bytes s in
      rw (d, r) (add_all-Unused s t (created entry (Database.create_entry db entry t.base)))
