-- ===== src/Tg/AccountPool/Choice.antt =====
-- The choice of `pickAccount` and the counters of uploads, against what they are for.
use telegram_disk.Base.{
  ℕ, ◌+◌, ◌-◌, ◌%◌, ◌≤◌, ◌<◌, ◌≡◌, refl, subst, ◌⊎◌, inl, inr, true, false, Bool-cases, ◌&&◌, none,
  some, List, [], ◌∷◌, ◌++◌, All, All-append, length, take, drop, take-append-drop, ltb, ◌==◌,
  if◌then◌else◌, arith,
}
use telegram_disk.Tg.AccountPool.{
  Account, AccountPool, int_max, load, usable, pick_loop, rotated, pick_account,
  note_upload_started, note_upload_finished, increment, decrement,
}

-- No account of the list that can be used has a smaller load than `n`.
abbrev pub Least : List (ℕ × ℕ) → List ℕ → ℕ → List Account → Type 0
Least uploads bo_qua n accs = All (λ a. usable bo_qua a ≡ true → n ≤ load a.id uploads) accs

pick_loop-some :
    (uploads : List (ℕ × ℕ)) (bo_qua : List ℕ) (b : Account) (accs : List Account)
    → usable bo_qua b ≡ true
    → (c : Account) × (pick_loop uploads bo_qua (some b) (load b.id uploads) accs ≡ some c)
      × (usable bo_qua c ≡ true)
      × (load c.id uploads ≤ load b.id uploads)
      × Least uploads bo_qua (load c.id uploads) accs
unfolding pick_loop
pick_loop-some uploads bo_qua b [] u = (b, refl, u, omega arith, tt)
pick_loop-some uploads bo_qua b (a ∷ accs) u =
    elim (Bool-cases (usable bo_qua a && ltb (load a.id uploads) (load b.id uploads))) [
      | inl c ↦
          let ua : usable bo_qua a ≡ true = ground (arith, c) in
          let lt : load a.id uploads < load b.id uploads = ground (arith, c) in
          let (d, e, v, le, least) = pick_loop-some uploads bo_qua a accs ua in
          (d, rw c e, v, omega (arith, le, lt), ((λ _. le), least))
      | inr c ↦
          let (d, e, v, le, least) = pick_loop-some uploads bo_qua b accs u in
          (d, rw c e, v, le, ((λ ua. ground (arith, c, ua, le)), least))
    ]

pick_loop-none :
    (uploads : List (ℕ × ℕ)) (bo_qua : List ℕ) (accs : List Account)
    → ((pick_loop uploads bo_qua none int_max accs ≡ none) × Least uploads bo_qua int_max accs)
      ⊎ ((c : Account) × (pick_loop uploads bo_qua none int_max accs ≡ some c)
          × (usable bo_qua c ≡ true)
          × (load c.id uploads < int_max)
          × Least uploads bo_qua (load c.id uploads) accs)
unfolding pick_loop
pick_loop-none uploads bo_qua [] = inl (refl, tt)
pick_loop-none uploads bo_qua (a ∷ accs) =
    elim (Bool-cases (usable bo_qua a && ltb (load a.id uploads) int_max)) [
      | inl c ↦
          let ua : usable bo_qua a ≡ true = ground (arith, c) in
          let lt : load a.id uploads < int_max = ground (arith, c) in
          let (d, e, v, le, least) = pick_loop-some uploads bo_qua a accs ua in
          inr (d, rw c e, v, omega (arith, le, lt), ((λ _. le), least))
      | inr c ↦ elim (pick_loop-none uploads bo_qua accs) [
        | inl (e, least) ↦ inl (rw c e, ((λ ua. ground (arith, c, ua)), least))
        | inr (d, e, v, lt, least) ↦
            inr (d, rw c e, v, lt, ((λ ua. ground (arith, c, ua, lt)), least))
      ]
    ]

All-parts : (P : Account → Type 0) (xs ys : List Account) → All P (xs ++ ys) → All P xs × All P ys
All-parts P [] ys h = (tt, h)
All-parts P (x ∷ xs) ys (p, h) = let (a, b) = All-parts P xs ys h in ((p, a), b)

-- Turning a list round keeps what holds of all its members, and back.
unrotate :
    (P : Account → Type 0) (n : ℕ) (accs : List Account) → All P (rotated n accs) → All P accs
unfolding rotated
unrotate P n accs h =
    let (front, back) = All-parts P (drop n accs) (take n accs) h in
    subst (All P) (take-append-drop n accs) (All-append P (take n accs) (drop n accs) back front)

-- `pickAccount` with accounts: the chosen account is switched on, logged in, not held up and not
-- passed over, and no such account of the pool has fewer uploads. It chooses none only if every
-- such account has reached the largest count. The start moves on either way.
pub pick_account-Least :
    (bo_qua : List ℕ) (p : AccountPool)
    → 0 < length p.accounts
    → let (r, p') = pick_account bo_qua p in
      (p'.round_robin ≡ (p.round_robin + 1) % 18446744073709551616)
      × (((r ≡ none) × Least p.active_uploads bo_qua int_max p.accounts)
          ⊎ ((a : Account) × (r ≡ some a)
              × (usable bo_qua a ≡ true)
              × Least p.active_uploads bo_qua (load a.id p.active_uploads) p.accounts))
unfolding pick_account
pick_account-Least bo_qua p h =
    let some_account : (length p.accounts == 0) ≡ false = ground (arith, h) in
    let start = p.round_robin % length p.accounts in
    rw some_account (
      refl,
      elim (pick_loop-none p.active_uploads bo_qua (rotated start p.accounts)) [
        | inl (e, least) ↦ inl (e, unrotate _ start p.accounts least)
        | inr (a, e, u, lt, least) ↦ inr (a, e, u, unrotate _ start p.accounts least)
      ],
    )

load-increment :
    (id other : ℕ) (ps : List (ℕ × ℕ))
    → load other (increment id ps) ≡ (if id == other then load other ps + 1 else load other ps)
unfolding load increment
load-increment id other [] = ground arith
load-increment id other (p ∷ ps) = ground (arith, load-increment id other ps)

load-decrement :
    (id other : ℕ) (ps : List (ℕ × ℕ))
    → load other (decrement id ps) ≡ (if id == other then load other ps - 1 else load other ps)
unfolding load decrement
load-decrement id other [] = ground arith
load-decrement id other (p ∷ ps) = ground (arith, load-decrement id other ps)

-- An upload that starts and ends leaves the count of every account as it was.
pub finished-started :
    (id other : ℕ) (p : AccountPool)
    → load other (note_upload_finished id (note_upload_started id p)).active_uploads
      ≡ load other p.active_uploads
unfolding note_upload_finished note_upload_started
finished-started id other p = ground (
  arith,
  load-decrement id other (increment id p.active_uploads),
  load-increment id other p.active_uploads,
)
