-- ===== src/Tg/AccountPool.antt =====
-- AccountPool of src/tg/account_pool.cpp: which account a chunk is sent and read with. The accounts
-- are seen through what the choice reads of them.
pub mod Choice
mod Tests
use telegram_disk.Base.{
  ℕ, zero, suc, ◌+◌, ◌-◌, ◌%◌, ◌≡◌, Bool, true, false, ◌&&◌, ◌||◌, not, Option, none, some, List,
  [], ◌∷◌, ◌++◌, length, take, drop, ltb, leb, ◌==◌, if◌then◌else◌,
}
use telegram_disk.Base.Result.{Result, ok, err}

-- `waiting` is the text of a rate limit in `statusText`; `enabled` is `none` without an entry.
pub record Account : Type 0 where
  pub id : ℕ
  pub enabled : Option Bool
  pub authorized : Bool
  pub waiting : Bool

-- `activeUploads_` is a list of pairs with the key first.
pub record AccountPool : Type 0 where
  pub accounts : List Account
  pub round_robin : ℕ
  pub active_uploads : List (ℕ × ℕ)

abbrev pub int_max : ℕ
int_max = 2147483647

unfoldable pub contains : ℕ → List ℕ → Bool
contains x [] = false
contains x (y ∷ ys) = x == y || contains x ys

unfoldable pub load : ℕ → List (ℕ × ℕ) → ℕ
load id [] = 0
load id (p ∷ ps) = let rest = load id ps in if p.0 == id then p.1 else rest

abbrev pub switched_off : Option Bool → Bool
switched_off none = false
switched_off (some b) = not b

-- The tests of the loop of `pickAccount` that pass an account over.
unfoldable pub usable : List ℕ → Account → Bool
unfolding contains
usable bo_qua a =
    not (switched_off a.enabled) && a.authorized && not a.waiting && not (contains a.id bo_qua)

-- The loop with `best` and `bestLoad`.
unfoldable pub pick_loop :
    List (ℕ × ℕ) → List ℕ → Option Account → ℕ → List Account → Option Account
pick_loop uploads bo_qua best best_load [] = best
pick_loop uploads bo_qua best best_load (a ∷ rest) =
    let n = load a.id uploads in
    let better = pick_loop uploads bo_qua (some a) n rest in
    let same = pick_loop uploads bo_qua best best_load rest in
    if usable bo_qua a && ltb n best_load then better else same

-- The accounts from `start` on, round to the one in front of it.
unfoldable pub rotated : ℕ → List Account → List Account
rotated start accounts = drop start accounts ++ take start accounts

unfoldable pub pick_account : List ℕ → AccountPool → Option Account × AccountPool
pick_account bo_qua p = if length p.accounts == 0 then (none, p) else (
  pick_loop p.active_uploads bo_qua none int_max
      (rotated (p.round_robin % length p.accounts) p.accounts),
  record p { round_robin = (p.round_robin + 1) % 18446744073709551616 },
)

-- The account that stored the chunk, if it can be used. The first with its id decides.
unfoldable pub owner : ℕ → List Account → Option Account
owner id [] = none
owner id (a ∷ rest) =
    let later = owner id rest in
    if not (a.id == id)
    then later
    else if not (switched_off a.enabled) && a.authorized
    then some a
    else none

or_pick : Option Account → AccountPool → Option Account × AccountPool
or_pick (some a) p = (some a, p)
or_pick none p = pick_account [] p

unfoldable pub pick_for_read : ℕ → AccountPool → Option Account × AccountPool
unfolding or_pick
pick_for_read account_id p = or_pick (owner account_id p.accounts) p

increment : ℕ → List (ℕ × ℕ) → List (ℕ × ℕ)
increment id [] = (id, 1) ∷ []
increment id (p ∷ ps) =
    let rest = increment id ps in if p.0 == id then (p.0, p.1 + 1) ∷ ps else p ∷ rest

-- A counter does not go below 0: the subtraction stops there, as the test of the source does.
decrement : ℕ → List (ℕ × ℕ) → List (ℕ × ℕ)
decrement id [] = []
decrement id (p ∷ ps) =
    let rest = decrement id ps in if p.0 == id then (p.0, p.1 - 1) ∷ ps else p ∷ rest

unfoldable pub note_upload_started : ℕ → AccountPool → AccountPool
unfolding increment
note_upload_started id p = record p { active_uploads = increment id p.active_uploads }

unfoldable pub note_upload_finished : ℕ → AccountPool → AccountPool
unfolding decrement
note_upload_finished id p = record p { active_uploads = decrement id p.active_uploads }
