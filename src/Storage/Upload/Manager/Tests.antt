-- ===== src/Storage/Upload/Manager/Tests.antt =====
-- Two sessions of one owner, left in the middle of the same file; one is older.
use telegram_disk.Base.{ℕ, ◌≡◌, refl, false, some, List, [], ◌∷◌, arith, length}
use telegram_disk.Base.Bits.{Bytes}
use telegram_disk.Base.Result.{Done, ok, err}
use telegram_disk.Text.Trim.{equal_bytes}
use telegram_disk.Storage.Samples.{no_disk}
use telegram_disk.Storage.ChunkBuffer.{memory}
use telegram_disk.Storage.Upload.Backend.{Backend}
use telegram_disk.Storage.Upload.Session.{Session, ManhBay, KetQua, receiving}
use telegram_disk.Storage.Upload.Reach.{fresh}
use telegram_disk.Storage.Upload.Finish.{chot_so_truoc_khi_noi}
use telegram_disk.Storage.Upload.Manager.{
  Held, claim_resumable, resume_first, is_abandoned, is_stale, reap_stale,
}
use telegram_disk.Storage.Upload.Manager.Reaped.{Distinct, lively}
use telegram_disk.Storage.Upload.Manager.Claims.{
  Once, Request, claim_all, claim_resumable-Once, reap_stale-lively,
}

abbrev idle : Backend
idle = record {
  World = Done;
  Writer = Done;
  begin_chunk = λ size index w. (ok tt, w);
  write = λ _ part w. (ok tt, w);
  finish = λ _ w. (err "", w);
  abort = λ _ w. w;
  remove_chunks = λ _ w. w;
}

abbrev lost : ManhBay no_disk idle → KetQua
lost m = err "CHUNK_LOST"

abbrev half : Session no_disk idle
half = record (fresh (λ _. "spool") 4 2 (record { so_manh_song_song = 2; che_do_dem = memory })) {
  state = receiving;
  received_bytes = 2;
}

abbrev held : ℕ → ℕ → Held no_disk idle
held name time = record {
  id = name ∷ [];
  owner_id = 3;
  target_key = 47 ∷ 97 ∷ [];
  busy = false;
  last_activity = time;
  session = half;
}

abbrev table : List (Held no_disk idle)
table = held 97 100 ∷ held 98 900 ∷ []

abbrev older : Bytes
older = 97 ∷ []

abbrev newer : Bytes
newer = 98 ∷ []

table-Distinct : Distinct table
table-Distinct = (((λ e. ground (arith, e)), tt), (tt, tt))

abbrev key : Bytes
key = 47 ∷ 97 ∷ []

first_claim : (claim_resumable lost 3 key 4 table).0 ≡ some (97 ∷ [])
unfolding claim_resumable is_abandoned equal_bytes fresh
first_claim = refl

abbrev requests : List Request
requests = (3, key, 4) ∷ (3, key, 4) ∷ (3, key, 4) ∷ []

two_given : claim_all lost requests table ≡ older ∷ newer ∷ []
unfolding claim_resumable is_abandoned equal_bytes fresh chot_so_truoc_khi_noi
two_given = refl

claim_resumable-Once_example : Once (claim_all lost requests table)
claim_resumable-Once_example = claim_resumable-Once lost requests table table-Distinct

-- `begin` gives out the session that the first claim holds.
begin_gives_held :
    (resume_first lost 3 key 4 (claim_resumable lost 3 key 4 table).1).0 ≡ some (older, 2)
unfolding resume_first claim_resumable is_abandoned equal_bytes fresh chot_so_truoc_khi_noi
begin_gives_held = refl

reap_stale-lively_example : (reap_stale lost 1000 300 table tt).0 ≡ lively 1000 300 table
reap_stale-lively_example = reap_stale-lively lost 1000 300 table tt (omega arith) table-Distinct

one_left : length (lively 1000 300 table) ≡ 1
unfolding is_stale
one_left = refl
