-- ===== src/Storage/Upload/Reach.antt =====
-- The life of an upload session: what `UploadManager::begin` makes, and the calls that may follow in
-- any order, with any result.
use telegram_disk.Base.{
  ℕ, ◌<◌, ◌≡◌, refl, sym, ◌⊎◌, inl, inr, true, false, Bool-cases, none, [], arith, subst,
}
use telegram_disk.Base.Bits.{Bytes}
use telegram_disk.Crypto.Sha256.{reset}
use telegram_disk.Crypto.Sha256.Stream.{update-nil}
use telegram_disk.Storage.ChunkBuffer.Files.{Stdio, StdioLaws}
use telegram_disk.Storage.ChunkBuffer.{memory}
use telegram_disk.Storage.Upload.Backend.{Backend}
use telegram_disk.Storage.Upload.Chooser.{Choice}
use telegram_disk.Storage.Upload.Session.{Session, ManhBay, KetQua, preparing}
use telegram_disk.Storage.Upload.Session.Placed.{Placed, Faithful}
use telegram_disk.Storage.Upload.Receive.{receive}
use telegram_disk.Storage.Upload.Receive.Steps.{Inv}
use telegram_disk.Storage.Upload.Receive.Exact.{Sends, receive-Inv}
use telegram_disk.Storage.Upload.Receive.Placed.{receive-Placed}
use telegram_disk.Storage.Upload.Finish.{complete_chunks, chot_so_truoc_khi_noi, cancel}
use telegram_disk.Storage.Upload.Finish.Placed.{complete-Placed, chot_so-Placed}
use telegram_disk.Storage.Upload.Finish.Kept.{complete-Inv, complete-closed, chot_so-Inv}
use telegram_disk.Storage.Database.{Database}
use telegram_disk.Storage.Purge.{Stock}
use telegram_disk.Storage.Upload.Save.{Plan, save, complete, ended}
use telegram_disk.Storage.Upload.Save.Failed.{
  IsIdle, IsEnded, complete_failed, save_failed-IsEnded, save_failed_plain, IsEnded-complete,
}
use telegram_disk.Base.Result.{err}
use telegram_disk.Storage.Upload.Stopped.{
  IsStopped, receive_stopped, complete_stopped, chot_so_landed, cancel_stopped, cancel-IsStopped,
}
use telegram_disk.Storage.Upload.Receive.Live.{receive_failed}
use Prim.Native.String.{String}

-- The members as they are declared, with what `begin` and `chonCachDay` set.
unfoldable pub fresh : {io : Stdio} {be : Backend} → (ℕ → String) → ℕ → ℕ → Choice → Session io be
fresh spool_path total_size chunk_size c = record {
  spool_path = spool_path;
  total_size = total_size;
  chunk_size = chunk_size;
  so_manh_song_song = c.so_manh_song_song;
  che_do_dem = c.che_do_dem;
  chunk_index = 0;
  chunk_written = 0;
  chunk_offset = 0;
  writer = none;
  buffer = none;
  uploaded = [];
  chunk_records = [];
  dang_bay = [];
  committed_bytes = 0;
  hasher_committed = reset;
  manh_hong = false;
  loi_manh_dau = "";
  hasher = reset;
  chunk_hasher = reset;
  received_bytes = 0;
  is_cancelled = false;
  state = preparing;
  message = "";
}

module _ {io : Stdio} (laws : StdioLaws io) {be : Backend} (db : Database) (plan : Plan)
    (content : ℕ → Bytes) (T : Bytes) where
  -- The calls on a session, each with the results of the threads that it joins. The client sends bytes
  -- of `T` from the received count on, as the offset in the request asks of it. `complete` is the
  -- whole call with its database part; when it succeeds the manager takes the session off its table, so no
  -- call comes behind it.
  pub data Step : Session io be → Session io be → Type 0 where
    receives :
        (s : Session io be) (join : ManhBay io be → KetQua) (bytes : Bytes) (w : Backend.World be)
        → Faithful laws content T join
        → Sends T s bytes
        → Step s (receive join bytes (s, w)).1.0
    completes :
        (s : Session io be) (join : ManhBay io be → KetQua) (t : Stock be db) (e : String)
        → Faithful laws content T join
        → (complete plan join (s, t)).0 ≡ err e
        → Step s (complete plan join (s, t)).1.0
    settles :
        (s : Session io be) (join : ManhBay io be → KetQua)
        → Faithful laws content T join
        → Step s (chot_so_truoc_khi_noi join s)
    cancels :
        (s : Session io be) (join : ManhBay io be → KetQua) (reason : String) (w : Backend.World be)
        → Step s (cancel join reason s w).0

  pub data Reach (s : Session io be) : Session io be → Type 0 where
    here : Reach s s
    next : {t u : Session io be} → Reach s t → Step t u → Reach s u

  abbrev IsOrdered : Session io be → Type 0
  IsOrdered s = Inv T s × Placed laws content T s

  -- In order, or cancelled; or deduplication is on, and a `complete` has failed in the database.
  abbrev pub InOrder : Session io be → Type 0
  InOrder s =
      (Inv T s × Placed laws content T s) ⊎ (IsStopped s ⊎ ((plan.deduplicate ≡ true) × IsEnded s))

  fresh-InOrder :
      (spool : ℕ → String) (total chunk_size : ℕ) (c : Choice)
      → 0 < chunk_size
      → 1 < c.so_manh_song_song
      → c.che_do_dem ≡ memory
      → Inv T (fresh {io = io} {be = be} spool total chunk_size c)
        × Placed laws content T (fresh {io = io} {be = be} spool total chunk_size c)
  unfolding fresh
  fresh-InOrder spool total chunk_size c p m e = (
    record {
      stored = record {
        sized = p;
        many = m;
        records = refl;
        committed = sym update-nil;
        within = omega arith;
      };
      flying = record {
        sound = refl;
        flights = refl;
        numbered = refl;
        counted = refl;
        reached = omega arith;
        whole_hash = sym update-nil;
      };
      ready = record { idle = λ _. refl; opened = λ b e. absurd (ground arith); room = p };
    },
    record {
      in_memory = e;
      many = m;
      rows = tt;
      loaded = tt;
      opened = λ b e. absurd (ground arith);
    },
  )

  ended-IsOrdered : (e : String) (s : Session io be) → IsOrdered s → IsOrdered (ended e s)
  ended-IsOrdered e s (i, h) = (
    record {
      stored = record {
        sized = i.stored.sized;
        many = i.stored.many;
        records = i.stored.records;
        committed = i.stored.committed;
        within = i.stored.within;
      };
      flying = record {
        sound = i.flying.sound;
        flights = i.flying.flights;
        numbered = i.flying.numbered;
        counted = i.flying.counted;
        reached = i.flying.reached;
        whole_hash = i.flying.whole_hash;
      };
      ready = record { idle = i.ready.idle; opened = i.ready.opened; room = i.ready.room };
    },
    record {
      in_memory = h.in_memory;
      many = h.many;
      rows = h.rows;
      loaded = h.loaded;
      opened = h.opened;
    },
  )

  -- The database part on a session that is in order and has nothing in flight.
  save-InOrder :
      (s : Session io be) (t : Stock be db) (e : String)
      → IsOrdered s
      → s.dang_bay ≡ []
      → s.buffer ≡ none
      → (save plan (s, t)).0 ≡ err e
      → InOrder (save plan (s, t)).1.0
  save-InOrder s t e (i, h) d b bad = elim (Bool-cases plan.deduplicate) [
    | inl on ↦
        let idle : IsIdle s = record {
          many = h.many;
          landed = d;
          closed = b;
          sound = i.flying.sound;
        } in
        inr (inr (on, save_failed-IsEnded plan s t e idle bad))
    | inr off ↦ inl (save_failed_plain IsOrdered ended-IsOrdered plan s t e off (i, h) bad)
  ]

  completes-InOrder :
      (s : Session io be) (join : ManhBay io be → KetQua) (t : Stock be db) (e : String)
      → Faithful laws content T join
      → IsOrdered s
      → s.is_cancelled ≡ false
      → (complete plan join (s, t)).0 ≡ err e
      → InOrder (complete plan join (s, t)).1.0
  completes-InOrder s join t e f (i, h) c bad =
      let i' = complete-Inv T join s t.store i c in
      let h' = complete-Placed laws content T join f s t.store h c in
      let (d, b) = complete-closed T join s t.store i c in
      complete_failed InOrder plan join s t e
        (λ _ t' x. save-InOrder (complete_chunks join (s, t.store)).1.0 t' e (i', h') d b x)
        (λ _ _. inl (i', h')) bad

  complete-InOrder :
      (s : Session io be) (join : ManhBay io be → KetQua) (t : Stock be db) (e : String)
      → Faithful laws content T join
      → (complete plan join (s, t)).0 ≡ err e
      → InOrder s
      → InOrder (complete plan join (s, t)).1.0
  complete-InOrder s join t e f bad h = elim (Bool-cases s.is_cancelled) [
    | inl c ↦ subst InOrder (sym (complete_stopped plan join s t c)) h
    | inr c ↦ elim h [
      | inl o ↦ completes-InOrder s join t e f o c bad
      | inr (inl st) ↦ absurd (cc (st.stopped, c))
      | inr (inr (on, en)) ↦ inr (inr (on, IsEnded-complete plan join s t e en c bad))
    ]
  ]

  cancels-InOrder :
      (s : Session io be) (join : ManhBay io be → KetQua) (reason : String) (w : Backend.World be)
      → InOrder s
      → InOrder (cancel join reason s w).0
  cancels-InOrder s join reason w h = elim (Bool-cases s.is_cancelled) [
    | inl c ↦ subst InOrder (sym (cancel_stopped join reason s w c)) h
    | inr c ↦ inr (inl (cancel-IsStopped join reason s w c))
  ]

  Step-InOrder : {s t : Session io be} → Step s t → InOrder s → InOrder t
  Step-InOrder (receives s join bytes w f send) (inl (i, h)) = inl (
    (receive-Inv T join bytes s w i send).0,
    receive-Placed laws content T join f bytes s w i h send,
  )
  Step-InOrder (receives s join bytes w f send) (inr (inl h)) =
      subst InOrder (sym (receive_stopped join bytes s w h.stopped)) (inr (inl h))
  Step-InOrder (receives s join bytes w f send) (inr (inr (on, h))) =
      subst InOrder (sym (receive_failed join bytes s w h.failed_state)) (inr (inr (on, h)))
  Step-InOrder (completes s join t e f bad) h = complete-InOrder s join t e f bad h
  Step-InOrder (settles s join f) (inl (i, h)) =
      inl (chot_so-Inv T join s i, chot_so-Placed laws content T join f s h)
  Step-InOrder (settles s join f) (inr (inl h)) =
      subst InOrder (sym (chot_so_landed join s h.landed)) (inr (inl h))
  Step-InOrder (settles s join f) (inr (inr (on, h))) =
      subst InOrder (sym (chot_so_landed join s h.idle.landed)) (inr (inr (on, h)))
  Step-InOrder (cancels s join reason w) h = cancels-InOrder s join reason w h

  Steps-InOrder : {s t : Session io be} → Reach s t → InOrder s → InOrder t
  Steps-InOrder here h = h
  Steps-InOrder (next r st) h = Step-InOrder st (Steps-InOrder r h)

  pub Reach-InOrder :
      (spool : ℕ → String) (total chunk_size : ℕ) (c : Choice) (s : Session io be)
      → 0 < chunk_size
      → 1 < c.so_manh_song_song
      → c.che_do_dem ≡ memory
      → Reach (fresh spool total chunk_size c) s
      → InOrder s
  Reach-InOrder spool total chunk_size c s p m e r =
      Steps-InOrder r (inl (fresh-InOrder spool total chunk_size c p m e))
