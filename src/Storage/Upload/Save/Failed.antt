-- ===== src/Storage/Upload/Save/Failed.antt =====
-- What a `complete` that fails leaves of the session: the manager keeps it in its table.
use telegram_disk.Base.{
  ℕ, ◌<◌, ◌≡◌, refl, sym, subst, ap, inl, inr, false, ◌&&◌, not, Bool-cases, Option, none, some,
  List, [], length, ltb, ◌==◌, arith,
}
use telegram_disk.Base.Bits.{Bytes}
use telegram_disk.Base.Result.{Done, Result, ok, err}
use telegram_disk.Crypto.Sha256.{finish}
use telegram_disk.Text.Hex.{to_hex}
use telegram_disk.Storage.Chunk.{ChunkEntry}
use telegram_disk.Storage.ChunkBuffer.Files.{Stdio}
use telegram_disk.Storage.Database.{Database, FileEntry}
use telegram_disk.Storage.Purge.{Stock}
use telegram_disk.Storage.Upload.Backend.{Backend}
use telegram_disk.Storage.Upload.Session.{Session, ManhBay, KetQua, failed}
use telegram_disk.Storage.Upload.Finish.{complete_chunks}
use telegram_disk.Storage.Upload.Finish.Kept.{complete_idle}
use telegram_disk.Storage.Upload.Save.{
  Plan, Saving, entry_of, replace_entry, write_entry, finished, add_all, ended, reuse_rows,
  drop_uploaded, reuse, found, deduplicated, save, saved, complete,
}
use Prim.Native.String.{String}

module _ {io : Stdio} {be : Backend} where
  -- Nothing in flight, nothing open, no chunk lost.
  pub record IsIdle (s : Session io be) : Type 0 where
    pub many : 1 < s.so_manh_song_song
    pub landed : s.dang_bay ≡ []
    pub closed : s.buffer ≡ none
    pub sound : s.manh_hong ≡ false

  -- What a write to the database that fails leaves.
  pub record IsEnded (s : Session io be) : Type 0 where
    pub idle : IsIdle s
    pub failed_state : s.state ≡ failed

  ended-IsEnded : (e : String) (s : Session io be) → IsIdle s → IsEnded (ended e s)
  ended-IsEnded e s h = record {
    idle = record { many = h.many; landed = h.landed; closed = h.closed; sound = h.sound };
    failed_state = refl;
  }

module _ {io : Stdio} {be : Backend} {db : Database} where
  -- The database part may change the rows and the list of places, no more.
  abbrev HasIdle : Saving io be db → Type 0
  HasIdle st = IsIdle st.0

  reuse_rows-IsIdle :
      (st : Saving io be db) (r : Result (List ChunkEntry) × Database.World db)
      → HasIdle st
      → HasIdle (reuse_rows st r)
  unfolding reuse_rows
  reuse_rows-IsIdle (s, t) (ok rows, w) h = record {
    many = h.many;
    landed = h.landed;
    closed = h.closed;
    sound = h.sound;
  }
  reuse_rows-IsIdle (s, t) (err e, w) h = h

  drop_uploaded-IsIdle : (st : Saving io be db) → HasIdle st → HasIdle (drop_uploaded st)
  unfolding drop_uploaded
  drop_uploaded-IsIdle (s, t) h = elim (Bool-cases (length s.uploaded == 0)) [
    | inl c ↦ rw c h
    | inr c ↦ rw c (record { many = h.many; landed = h.landed; closed = h.closed; sound = h.sound })
  ]

  reuse-IsIdle : (o : Option FileEntry) (st : Saving io be db) → HasIdle st → HasIdle (reuse o st)
  unfolding reuse
  reuse-IsIdle none st h = h
  reuse-IsIdle (some f) st h = reuse_rows-IsIdle (drop_uploaded st) _ (drop_uploaded-IsIdle st h)

  found-IsIdle :
      (plan : Plan) (size : ℕ) (st : Saving io be db)
      (r : Result (List FileEntry) × Database.World db)
      → HasIdle st
      → HasIdle (found plan size st r)
  unfolding found
  found-IsIdle plan size (s, t) (ok same, w) h = reuse-IsIdle _ _ h
  found-IsIdle plan size (s, t) (err e, w) h = h

  deduplicated-IsIdle :
      (plan : Plan) (sha : Bytes) (size : ℕ) (s : Session io be) (t : Stock be db)
      → IsIdle s
      → HasIdle (deduplicated plan sha size (s, t))
  unfolding deduplicated
  deduplicated-IsIdle plan sha size s t h =
      elim (Bool-cases (plan.deduplicate && (not (length sha == 0) && ltb 0 size))) [
        | inl c ↦ rw c (found-IsIdle plan size (s, t) _ h)
        | inr c ↦ rw c h
      ]

  replace_entry_session :
      (plan : Plan) (entry : FileEntry) (st : Saving io be db)
      (r : Result FileEntry × Database.World db)
      → (replace_entry plan entry st r).1.0 ≡ st.0
  unfolding replace_entry
  replace_entry_session plan entry (s, t) (ok old, w) = refl
  replace_entry_session plan entry (s, t) (err e, w) = refl

  write_entry_session :
      (plan : Plan) (entry : FileEntry) (st : Saving io be db)
      → (write_entry plan entry st).1.0 ≡ st.0
  unfolding write_entry
  write_entry_session plan entry (s, t) = elim (Bool-cases plan.replaces) [
    | inl c ↦ rw c (replace_entry_session plan entry (s, t) _)
    | inr c ↦ rw c refl
  ]

  -- What holds behind the deduplication is carried to the session that is left.
  module _ (P Q : Session io be → Type 0)
      (close : (e : String) (s : Session io be) → P s → Q (ended e s)) where
    finished_failed :
        (entry : FileEntry) (st : Saving io be db) (r : Result Done × Database.World db)
        (e : String)
        → P st.0
        → (finished entry st r).0 ≡ err e
        → Q (finished entry st r).1.0
    unfolding finished
    finished_failed entry (s, t) (ok _, w) e p h = absurd (ground (arith, h))
    finished_failed entry (s, t) (err x, w) e p h = close x s p

    add_all_failed :
        (r : Result FileEntry × Saving io be db) (e : String)
        → P r.1.0
        → (add_all r).0 ≡ err e
        → Q (add_all r).1.0
    unfolding add_all
    add_all_failed (ok entry, (s, t)) e p h = finished_failed entry (s, t) _ e p h
    add_all_failed (err x, (s, t)) e p h = close x s p

    save_failed :
        (plan : Plan) (s : Session io be) (t : Stock be db) (e : String)
        → P (deduplicated plan (to_hex (finish s.hasher)) s.received_bytes (s, t)).0
        → (save plan (s, t)).0 ≡ err e
        → Q (save plan (s, t)).1.0
    unfolding save
    save_failed plan s t e p h =
        let sha = to_hex (finish s.hasher) in
        let st = deduplicated plan sha s.received_bytes (s, t) in
        let entry = entry_of plan sha s.received_bytes st.0 in
        add_all_failed (write_entry plan entry st) e
          (subst P (sym (write_entry_session plan entry st)) p) h

  -- A call that fails has failed in the chunks or behind them.
  saved_failed :
      (Q : Session io be → Type 0) (plan : Plan)
      (r : Result Done × (Session io be × Backend.World be)) (t : Stock be db) (e : String)
      → (r.0 ≡ ok tt
          → (t' : Stock be db) → (save plan (r.1.0, t')).0 ≡ err e
          → Q (save plan (r.1.0, t')).1.0)
      → ((x : String) → r.0 ≡ err x → Q r.1.0)
      → (saved plan r t).0 ≡ err e
      → Q (saved plan r t).1.0
  unfolding saved
  saved_failed Q plan (ok _, (s, w)) t e behind within h = behind refl (record t { store = w }) h
  saved_failed Q plan (err x, (s, w)) t e behind within h = within x refl

  pub complete_failed :
      (Q : Session io be → Type 0) (plan : Plan) (join : ManhBay io be → KetQua) (s : Session io be)
      (t : Stock be db) (e : String)
      → let r = complete_chunks join (s, t.store) in
        (r.0 ≡ ok tt
          → (t' : Stock be db) → (save plan (r.1.0, t')).0 ≡ err e
          → Q (save plan (r.1.0, t')).1.0)
        → ((x : String)
            → (complete_chunks join (s, t.store)).0 ≡ err x
            → Q (complete_chunks join (s, t.store)).1.0)
        → (complete plan join (s, t)).0 ≡ err e
        → Q (complete plan join (s, t)).1.0
  unfolding complete
  complete_failed Q plan join s t e behind within h =
      saved_failed Q plan (complete_chunks join (s, t.store)) t e behind within h

  -- Whatever the deduplication did, a session with nothing in flight has ended.
  pub save_failed-IsEnded :
      (plan : Plan) (s : Session io be) (t : Stock be db) (e : String)
      → IsIdle s
      → (save plan (s, t)).0 ≡ err e
      → IsEnded (save plan (s, t)).1.0
  save_failed-IsEnded plan s t e h =
      save_failed IsIdle IsEnded ended-IsEnded plan s t e
        (deduplicated-IsIdle plan (to_hex (finish s.hasher)) s.received_bytes s t h)

  -- Without deduplication the session stays as it was, but for its state and message.
  pub save_failed_plain :
      (P : Session io be → Type 0)
      → ((e : String) (s : Session io be) → P s → P (ended e s))
      → (plan : Plan) (s : Session io be) (t : Stock be db) (e : String) → plan.deduplicate ≡ false
      → P s
      → (save plan (s, t)).0 ≡ err e
      → P (save plan (s, t)).1.0
  save_failed_plain P close plan s t e d p =
      let off : (deduplicated plan (to_hex (finish s.hasher)) s.received_bytes (s, t)).0 ≡ s =
        unfold deduplicated in rw d refl in
      save_failed P P close plan s t e (subst P (sym off) p)

  pub IsEnded-complete :
      (plan : Plan) (join : ManhBay io be → KetQua) (s : Session io be) (t : Stock be db)
      (e : String)
      → IsEnded s
      → s.is_cancelled ≡ false
      → (complete plan join (s, t)).0 ≡ err e
      → IsEnded (complete plan join (s, t)).1.0
  IsEnded-complete plan join s t e h c =
      let i = h.idle in
      let same = complete_idle [] join s t.store i.many c i.closed i.landed i.sound in
      let fine : (complete_chunks join (s, t.store)).0 ≡ ok tt = ap (λ r. r.0) same in
      let idle : IsIdle (complete_chunks join (s, t.store)).1.0 =
        subst (λ r. IsIdle r.1.0) (sym same)
          (record { many = i.many; landed = i.landed; closed = i.closed; sound = i.sound }) in
      complete_failed IsEnded plan join s t e
        (λ _ t' bad. save_failed-IsEnded plan (complete_chunks join (s, t.store)).1.0 t' e idle bad)
        (λ x bad. absurd (cc (fine, bad)))
