-- ===== src/Storage/Upload/Manager/Reaped.antt =====
-- What is left of the table when sessions are cancelled one after the other.
use telegram_disk.Base.{
  ltb, ◌+◌, ℕ, ◌≡◌, refl, sym, ap, ◌∙◌, false, Bool-cases, inl, inr, Option, none, some, List, [],
  ◌∷◌, All, if◌then◌else◌,
}
use telegram_disk.Base.Bits.{Bytes}
use telegram_disk.Text.Trim.{equal_bytes, equal_bytes→eq, equal_bytes_refl}
use telegram_disk.Storage.ChunkBuffer.Files.{Stdio}
use telegram_disk.Storage.Upload.Backend.{Backend}
use telegram_disk.Storage.Upload.Session.{ManhBay, KetQua}
use telegram_disk.Storage.Upload.Manager.{
  Held, find_session, erase_session, cancel_held, cancel_session, is_stale, stale_ids, cancel_all,
}
use Prim.Native.String.{String}

other_bytes : (xs ys : Bytes) → (xs ≡ ys → ⊥) → equal_bytes xs ys ≡ false
other_bytes xs ys n = elim (Bool-cases (equal_bytes xs ys)) [
  | inl e ↦ absurd (n (equal_bytes→eq xs ys e))
  | inr e ↦ e
]

module _ {io : Stdio} {be : Backend} where
  abbrev pub IsNot : Bytes → Held io be → Type 0
  IsNot id h = h.id ≡ id → ⊥

  -- The keys of a map differ.
  abbrev pub Distinct : List (Held io be) → Type 0
  Distinct [] = Unit {0}
  Distinct (h ∷ hs) = All (IsNot h.id) hs × Distinct hs

  -- The reference: who was last active within the timeout stays, in the same order.
  abbrev pub lively : ℕ → ℕ → List (Held io be) → List (Held io be)
  lively now timeout [] = []
  lively now timeout (h ∷ hs) =
      if ltb (h.last_activity + timeout) now
      then lively now timeout hs
      else h ∷ lively now timeout hs

  abbrev erase_ids : List Bytes → List (Held io be) → List (Held io be)
  erase_ids [] table = table
  erase_ids (id ∷ ids) table = erase_ids ids (erase_session id table)

  erase-none :
      (id : Bytes) (hs : List (Held io be)) → find_session id hs ≡ none → erase_session id hs ≡ hs
  unfolding find_session erase_session
  erase-none id [] h = refl
  erase-none id (x ∷ xs) h = elim (Bool-cases (equal_bytes x.id id)) [
    | inl c ↦ absurd (cc (rw c at h))
    | inr c ↦ rw c (ap (λ t. x ∷ t) (erase-none id xs (rw c at h)))
  ]

  found_id :
      (id : Bytes) (hs : List (Held io be)) (h : Held io be)
      → find_session id hs ≡ some h
      → h.id ≡ id
  unfolding find_session
  found_id id [] h f = absurd (cc f)
  found_id id (x ∷ xs) h f = elim (Bool-cases (equal_bytes x.id id)) [
    | inl c ↦
        let same : x ≡ h = cc (rw c at f) in ap (λ y. y.id) (sym same) ∙ equal_bytes→eq x.id id c
    | inr c ↦ found_id id xs h (rw c at f)
  ]

  cancel_held-erase :
      (join : ManhBay io be → KetQua) (id : Bytes) (reason : String) (table : List (Held io be))
      (w : Backend.World be) (o : Option (Held io be))
      → find_session id table ≡ o
      → (cancel_held join reason o table w).1.0 ≡ erase_session id table
  unfolding cancel_held
  cancel_held-erase join id reason table w none f = sym (erase-none id table f)
  cancel_held-erase join id reason table w (some h) f =
      ap (λ k. erase_session k table) (found_id id table h f)

  pub cancel_all-erase :
      (join : ManhBay io be → KetQua) (ids : List Bytes) (table : List (Held io be))
      (w : Backend.World be)
      → (cancel_all join ids table w).0 ≡ erase_ids ids table
  unfolding cancel_all cancel_session
  cancel_all-erase join [] table w = refl
  cancel_all-erase join (id ∷ ids) table w =
      let r = cancel_held join "Tự huỷ do không có hoạt động" (find_session id table) table w in
      cancel_all-erase join ids r.1.0 r.1.1
      ∙ ap (erase_ids ids) (cancel_held-erase join id _ table w (find_session id table) refl)

  erase_other : (k : Bytes) (hs : List (Held io be)) → All (IsNot k) hs → erase_session k hs ≡ hs
  unfolding erase_session
  erase_other k [] n = refl
  erase_other k (x ∷ xs) (n, ns) = rw (other_bytes x.id k n) (ap (λ t. x ∷ t) (erase_other k xs ns))

  erase_head :
      (x : Held io be) (k : Bytes) (hs : List (Held io be))
      → equal_bytes x.id k ≡ false
      → erase_session k (x ∷ hs) ≡ x ∷ erase_session k hs
  unfolding erase_session
  erase_head x k hs e = rw e refl

  erase_self :
      (x : Held io be) (hs : List (Held io be))
      → erase_session x.id (x ∷ hs) ≡ erase_session x.id hs
  unfolding erase_session
  erase_self x hs = rw (equal_bytes_refl x.id) refl

  -- The head stays if none of the names is its own.
  erase_tail :
      (now timeout : ℕ) (x : Held io be) (hs table : List (Held io be))
      → All (IsNot x.id) hs
      → erase_ids (stale_ids now timeout hs) (x ∷ table)
        ≡ x ∷ erase_ids (stale_ids now timeout hs) table
  unfolding stale_ids erase_session
  erase_tail now timeout x [] table n = refl
  erase_tail now timeout x (h ∷ hs) table (n, ns) = elim (Bool-cases (is_stale now timeout h)) [
    | inr c ↦ rw c (erase_tail now timeout x hs table ns)
    | inl c ↦
        let head = erase_head x h.id table (other_bytes x.id h.id (λ e. n (sym e))) in
        rw c (
          ap (erase_ids (stale_ids now timeout hs)) head
          ∙ erase_tail now timeout x hs (erase_session h.id table) ns)
  ]

  pub erase-lively :
      (now timeout : ℕ) (table : List (Held io be))
      → Distinct table
      → erase_ids (stale_ids now timeout table) table ≡ lively now timeout table
  unfolding stale_ids erase_session is_stale
  erase-lively now timeout [] d = refl
  erase-lively now timeout (h ∷ hs) (n, ns) =
      elim (Bool-cases (ltb (h.last_activity + timeout) now)) [
        | inl c ↦
            let gone = erase_self h hs ∙ erase_other h.id hs n in
            rw c (ap (erase_ids (stale_ids now timeout hs)) gone ∙ erase-lively now timeout hs ns)
        | inr c ↦
            rw c
              (erase_tail now timeout h hs hs n ∙ ap (λ t. h ∷ t) (erase-lively now timeout hs ns))
      ]
