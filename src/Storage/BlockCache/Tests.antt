-- ===== src/Storage/BlockCache/Tests.antt =====
-- The block cache with room for four bytes.
use telegram_disk.Base.{◌≡◌, ◌⊎◌, refl, none, some, [], ◌∷◌, arith}
use telegram_disk.Storage.BlockCache.{BlockCache, get, put}
use telegram_disk.Storage.BlockCache.Memo.{empty_cache, empty_memo, memo_run, get-memo_run}
use telegram_disk.Storage.BlockCache.Bounded.{
  Bounded, a_put, a_get, an_invalidate, run, run-Bounded, get-put,
}

abbrev small : BlockCache
small = record {
  capacity = 4;
  used = 3;
  hits = 0;
  misses = 0;
  order = record { document = 1; block_offset = 0; bytes = 7 ∷ 8 ∷ 9 ∷ [] } ∷ [];
}

abbrev small_Bounded : Bounded small
small_Bounded = record { counted = refl; fits = omega arith }

run-Bounded_example :
    Bounded (run (a_put 2 0 (5 ∷ 6 ∷ []) ∷ a_get 2 0 ∷ an_invalidate 1 ∷ []) small)
run-Bounded_example =
    run-Bounded (a_put 2 0 (5 ∷ 6 ∷ []) ∷ a_get 2 0 ∷ an_invalidate 1 ∷ []) small small_Bounded

get-put_example : (get 2 0 (put 2 0 (5 ∷ 6 ∷ []) small)).0 ≡ some (5 ∷ 6 ∷ [])
get-put_example = get-put 2 0 (5 ∷ 6 ∷ []) small small_Bounded (omega arith) (omega arith)

get-memo_run_example :
    let ss = a_put 2 0 (5 ∷ 6 ∷ []) ∷ a_put 2 0 (7 ∷ []) ∷ an_invalidate 1 ∷ [] in
    ((get 2 0 (run ss (empty_cache 4))).0 ≡ none)
    ⊎ ((get 2 0 (run ss (empty_cache 4))).0 ≡ (memo_run ss (empty_memo 4)).recall 2 0)
get-memo_run_example =
    get-memo_run (a_put 2 0 (5 ∷ 6 ∷ []) ∷ a_put 2 0 (7 ∷ []) ∷ an_invalidate 1 ∷ []) 4 2 0

last_put :
    (get 2 0 (run (a_put 2 0 (5 ∷ 6 ∷ []) ∷ a_put 2 0 (7 ∷ []) ∷ []) (empty_cache 4))).0
    ≡ some (7 ∷ [])
unfolding get put
last_put = refl
