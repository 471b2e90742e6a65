-- ===== src/Storage/Upload/Manager/Claims.antt =====
-- Who gets a session of the table by `claimResumable`, and which of them `reapStale` ends. The search of `begin`
-- does not look at claims: it may give out a session that is held (Tests has a run).
use telegram_disk.Base.{
  ℕ, ◌<◌, ◌≡◌, refl, sym, ◌∙◌, true, false, ◌&&◌, not, Bool-cases, inl, inr, Option, none, some,
  List, [], ◌∷◌, All, ◌==◌, arith,
}
use telegram_disk.Base.Bits.{Bytes}
use telegram_disk.Storage.ChunkBuffer.Files.{Stdio}
use telegram_disk.Storage.Upload.Backend.{Backend}
use telegram_disk.Storage.Upload.Session.{ManhBay, KetQua}
use telegram_disk.Storage.Upload.Manager.{
  Held, is_abandoned, claim_first, claim_resumable, stale_ids, reap_stale,
}
use telegram_disk.Storage.Upload.Manager.Reaped.{
  IsNot, Distinct, lively, cancel_all-erase, erase-lively,
}

abbrev given_then : Option Bytes → List Bytes → List Bytes
given_then none ids = ids
given_then (some id) ids = id ∷ ids

abbrev Without : Bytes → List Bytes → Type 0
Without id ids = All (λ other. other ≡ id → ⊥) ids

-- No identifier is there twice.
abbrev pub Once : List Bytes → Type 0
Once [] = Unit {0}
Once (id ∷ ids) = Without id ids × Once ids

given_then-Without :
    (o : Option Bytes) (ids : List Bytes) (id : Bytes)
    → ((given : Bytes) → o ≡ some given → given ≡ id → ⊥)
    → Without id ids
    → Without id (given_then o ids)
given_then-Without none ids id n w = w
given_then-Without (some g) ids id n w = (n g refl, w)

given_then-Once :
    (o : Option Bytes) (ids : List Bytes)
    → ((given : Bytes) → o ≡ some given → Without given ids)
    → Once ids
    → Once (given_then o ids)
given_then-Once none ids w h = h
given_then-Once (some g) ids w h = (w g refl, h)

-- A request for a session: the owner, the path and the size of the file.
abbrev pub Request : Type 0
Request = ℕ × Bytes × ℕ

module _ {io : Stdio} {be : Backend} where
  -- The session of that name is held by a request.
  abbrev IsTaken : Bytes → Held io be → Type 0
  IsTaken id h = h.id ≡ id → h.busy ≡ true

  claimed-IsNot :
      (join : ManhBay io be → KetQua) (owner : ℕ) (key : Bytes) (total : ℕ) (hs : List (Held io be))
      (id k : Bytes)
      → (claim_first join owner key total hs).0 ≡ some id
      → All (IsNot k) hs
      → id ≡ k
      → ⊥
  unfolding claim_first
  claimed-IsNot join owner key total [] id k h n e = ground (arith, h)
  claimed-IsNot join owner key total (x ∷ xs) id k h (n, ns) e =
      elim (Bool-cases (is_abandoned owner key total x && not x.busy)) [
        | inl c ↦
            let first : some x.id ≡ some id = rw c at h in
            let same : x.id ≡ id = cc first in n (same ∙ e)
        | inr c ↦ claimed-IsNot join owner key total xs id k (rw c at h) ns e
      ]

  none-IsTaken :
      (hs : List (Held io be)) (k id : Bytes) → k ≡ id → All (IsNot k) hs → All (IsTaken id) hs
  none-IsTaken [] k id e n = tt
  none-IsTaken (h ∷ hs) k id e (n, ns) = ((λ q. absurd (n (q ∙ sym e))), none-IsTaken hs k id e ns)

  claimed-IsTaken :
      (join : ManhBay io be → KetQua) (owner : ℕ) (key : Bytes) (total : ℕ) (hs : List (Held io be))
      (id : Bytes)
      → Distinct hs
      → (claim_first join owner key total hs).0 ≡ some id
      → All (IsTaken id) (claim_first join owner key total hs).1
  unfolding claim_first
  claimed-IsTaken join owner key total [] id d h = tt
  claimed-IsTaken join owner key total (x ∷ xs) id (n, ns) h =
      elim (Bool-cases (is_abandoned owner key total x && not x.busy)) [
        | inl c ↦
            let first : some x.id ≡ some id = rw c at h in
            rw c ((λ _. refl), none-IsTaken xs x.id id (cc first) n)
        | inr c ↦
            let h' = rw c at h in
            rw c (
              (λ e. absurd (claimed-IsNot join owner key total xs id x.id h' n (sym e))),
              claimed-IsTaken join owner key total xs id ns h',
            )
      ]

  taken_passed :
      (join : ManhBay io be → KetQua) (owner : ℕ) (key : Bytes) (total : ℕ) (hs : List (Held io be))
      (id id' : Bytes)
      → All (IsTaken id) hs
      → (claim_first join owner key total hs).0 ≡ some id'
      → id' ≡ id
      → ⊥
  unfolding claim_first
  taken_passed join owner key total [] id id' t h e = ground (arith, h)
  taken_passed join owner key total (x ∷ xs) id id' (t, ts) h e =
      elim (Bool-cases (is_abandoned owner key total x && not x.busy)) [
        | inl c ↦
            let first : some x.id ≡ some id' = rw c at h in
            let same : x.id ≡ id' = cc first in let busy = t (same ∙ e) in ground (arith, c, busy)
        | inr c ↦ taken_passed join owner key total xs id id' ts (rw c at h) e
      ]

  claim_first-IsTaken :
      (join : ManhBay io be → KetQua) (owner : ℕ) (key : Bytes) (total : ℕ) (hs : List (Held io be))
      (id : Bytes)
      → All (IsTaken id) hs
      → All (IsTaken id) (claim_first join owner key total hs).1
  unfolding claim_first
  claim_first-IsTaken join owner key total [] id t = tt
  claim_first-IsTaken join owner key total (x ∷ xs) id (t, ts) =
      elim (Bool-cases (is_abandoned owner key total x && not x.busy)) [
        | inl c ↦ rw c ((λ _. refl), ts)
        | inr c ↦ rw c (t, claim_first-IsTaken join owner key total xs id ts)
      ]

  claim_first-IsNot :
      (join : ManhBay io be → KetQua) (owner : ℕ) (key : Bytes) (total : ℕ) (hs : List (Held io be))
      (id : Bytes)
      → All (IsNot id) hs
      → All (IsNot id) (claim_first join owner key total hs).1
  unfolding claim_first
  claim_first-IsNot join owner key total [] id n = tt
  claim_first-IsNot join owner key total (x ∷ xs) id (n, ns) =
      elim (Bool-cases (is_abandoned owner key total x && not x.busy)) [
        | inl c ↦ rw c (n, ns)
        | inr c ↦ rw c (n, claim_first-IsNot join owner key total xs id ns)
      ]

  claim_first-Distinct :
      (join : ManhBay io be → KetQua) (owner : ℕ) (key : Bytes) (total : ℕ) (hs : List (Held io be))
      → Distinct hs
      → Distinct (claim_first join owner key total hs).1
  unfolding claim_first
  claim_first-Distinct join owner key total [] d = tt
  claim_first-Distinct join owner key total (x ∷ xs) (n, ns) =
      elim (Bool-cases (is_abandoned owner key total x && not x.busy)) [
        | inl c ↦ rw c (n, ns)
        | inr c ↦ rw c (
          claim_first-IsNot join owner key total xs x.id n,
          claim_first-Distinct join owner key total xs ns,
        )
      ]

  -- `claimResumable` for one request after the other, with no session released in between.
  abbrev pub claim_all : (ManhBay io be → KetQua) → List Request → List (Held io be) → List Bytes
  claim_all join [] table = []
  claim_all join ((owner, key, total) ∷ rs) table =
      let (given, table') = claim_resumable join owner key total table in
      given_then given (claim_all join rs table')

  -- What is given out is not among those that are held already.
  claim_other :
      (join : ManhBay io be → KetQua) (r : Request) (table : List (Held io be)) (id : Bytes)
      → All (IsTaken id) table
      → (given : Bytes) → (claim_resumable join r.0 r.1 r.2 table).0 ≡ some given
      → given ≡ id
      → ⊥
  unfolding claim_resumable
  claim_other join (owner, key, total) table id t given h e = elim (Bool-cases (total == 0)) [
    | inl c ↦ absurd (cc (rw c at h))
    | inr c ↦ taken_passed join owner key total table id given t (rw c at h) e
  ]

  claim-IsTaken :
      (join : ManhBay io be → KetQua) (r : Request) (table : List (Held io be)) (id : Bytes)
      → All (IsTaken id) table
      → All (IsTaken id) (claim_resumable join r.0 r.1 r.2 table).1
  unfolding claim_resumable
  claim-IsTaken join (owner, key, total) table id t = elim (Bool-cases (total == 0)) [
    | inl c ↦ rw c t
    | inr c ↦ rw c (claim_first-IsTaken join owner key total table id t)
  ]

  claim-Distinct :
      (join : ManhBay io be → KetQua) (r : Request) (table : List (Held io be))
      → Distinct table
      → Distinct (claim_resumable join r.0 r.1 r.2 table).1
  unfolding claim_resumable
  claim-Distinct join (owner, key, total) table d = elim (Bool-cases (total == 0)) [
    | inl c ↦ rw c d
    | inr c ↦ rw c (claim_first-Distinct join owner key total table d)
  ]

  given-IsTaken :
      (join : ManhBay io be → KetQua) (r : Request) (table : List (Held io be)) (given : Bytes)
      → Distinct table
      → (claim_resumable join r.0 r.1 r.2 table).0 ≡ some given
      → All (IsTaken given) (claim_resumable join r.0 r.1 r.2 table).1
  unfolding claim_resumable
  given-IsTaken join (owner, key, total) table given d h = elim (Bool-cases (total == 0)) [
    | inl c ↦ absurd (cc (rw c at h))
    | inr c ↦ rw c (claimed-IsTaken join owner key total table given d (rw c at h))
  ]

  claim_all-Without :
      (join : ManhBay io be → KetQua) (rs : List Request) (table : List (Held io be)) (id : Bytes)
      → All (IsTaken id) table
      → Without id (claim_all join rs table)
  claim_all-Without join [] table id t = tt
  claim_all-Without join (r ∷ rs) table id t =
      given_then-Without (claim_resumable join r.0 r.1 r.2 table).0 _ id
        (claim_other join r table id t)
        (claim_all-Without join rs (claim_resumable join r.0 r.1 r.2 table).1 id
          (claim-IsTaken join r table id t))

  -- Let the sessions of a table have different identifiers, and let `claimResumable` run for any
  -- requests, one after the other, with no session released in between. It gives no session out
  -- twice.
  pub claim_resumable-Once :
      (join : ManhBay io be → KetQua) (rs : List Request) (table : List (Held io be))
      → Distinct table
      → Once (claim_all join rs table)
  claim_resumable-Once join [] table d = tt
  claim_resumable-Once join (r ∷ rs) table d =
      let table' = (claim_resumable join r.0 r.1 r.2 table).1 in
      given_then-Once (claim_resumable join r.0 r.1 r.2 table).0 (claim_all join rs table')
        (λ given h. claim_all-Without join rs table' given (given-IsTaken join r table given d h))
        (claim_resumable-Once join rs table' (claim-Distinct join r table d))

  -- Where a timeout is set and the sessions have different identifiers, `reapStale` takes exactly the
  -- sessions off the table whose last activity is longer ago than the timeout; the others stay as they are,
  -- in order.
  pub reap_stale-lively :
      (join : ManhBay io be → KetQua) (now timeout : ℕ) (table : List (Held io be))
      (w : Backend.World be)
      → 0 < timeout
      → Distinct table
      → (reap_stale join now timeout table w).0 ≡ lively now timeout table
  unfolding reap_stale
  reap_stale-lively join now timeout table w p d =
      let on : (timeout == 0) ≡ false = ground (arith, p) in
      rw on (
        cancel_all-erase join (stale_ids now timeout table) table w
        ∙ erase-lively now timeout table d)
