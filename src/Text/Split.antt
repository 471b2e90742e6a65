-- ===== src/Text/Split.antt =====
-- `split` and `join` of src/common/strutil.cpp.
use telegram_disk.Base.{
  ◌<◌, ◌+◌, All, false, arith, length-append, ℕ, ◌≡◌, refl, sym, ap, ◌∙◌, Bool, true, ◌||◌, not,
  Bool-cases, inl, inr, List, [], ◌∷◌, ◌++◌, length, ◌==◌, ==→eq, if◌then◌else◌,
}
use mathlib.Core.List.{append_assoc, append-nil}
use telegram_disk.Base.Bits.{Bytes}

-- The loop of `split` with `cur`; the parts come out in front of those of the rest.
split_loop : ℕ → Bool → Bytes → Bytes → List Bytes
split_loop sep keep_empty cur [] = if keep_empty || not (length cur == 0) then cur ∷ [] else []
split_loop sep keep_empty cur (c ∷ cs) =
    let parts = split_loop sep keep_empty [] cs in
    let longer = split_loop sep keep_empty (cur ++ (c ∷ [])) cs in
    if c == sep
    then (if keep_empty || not (length cur == 0) then cur ∷ parts else parts)
    else longer

unfoldable pub split : Bytes → ℕ → Bool → List Bytes
unfolding split_loop
split s sep keep_empty = split_loop sep keep_empty [] s

join_rest : Bytes → List Bytes → Bytes
join_rest sep [] = []
join_rest sep (p ∷ ps) = sep ++ (p ++ join_rest sep ps)

unfoldable pub join : List Bytes → Bytes → Bytes
unfolding join_rest
join [] sep = []
join (p ∷ ps) sep = p ++ join_rest sep ps

join-cons :
    (sep : ℕ) (p : Bytes) (cur : Bytes) (cs : Bytes)
    → join (p ∷ split_loop sep true cur cs) (sep ∷ [])
      ≡ p ++ (sep ∷ join (split_loop sep true cur cs) (sep ∷ []))
unfolding join split_loop
join-cons sep p cur [] = refl
join-cons sep p cur (c ∷ cs) = elim (Bool-cases (c == sep)) [
  | inl e ↦ rw e refl
  | inr e ↦ rw e (join-cons sep p (cur ++ (c ∷ [])) cs)
]

join-split_loop : (sep : ℕ) (cur s : Bytes) → join (split_loop sep true cur s) (sep ∷ []) ≡ cur ++ s
unfolding split_loop
join-split_loop sep cur [] = unfold join join_rest in refl
join-split_loop sep cur (c ∷ cs) = elim (Bool-cases (c == sep)) [
  | inl e ↦ rw e (
      join-cons sep cur [] cs
      ∙ ap (λ t. cur ++ (sep ∷ t)) (join-split_loop sep [] cs)
      ∙ ap (λ x. cur ++ (x ∷ cs)) (sym (==→eq c sep e)))
  | inr e ↦ rw e (join-split_loop sep (cur ++ (c ∷ [])) cs ∙ append_assoc cur (c ∷ []) cs)
]

-- With empty parts kept, joining the parts of a split at the same separator gives the text back.
pub join-split : (s : Bytes) (sep : ℕ) → join (split s sep true) (sep ∷ []) ≡ s
unfolding split
join-split s sep = join-split_loop sep [] s

split_loop-name :
    (sep : ℕ) (cur p : Bytes)
    → 0 < length cur + length p
    → All (λ c. (c == sep) ≡ false) p
    → split_loop sep false cur p ≡ (cur ++ p) ∷ []
unfolding split_loop
split_loop-name sep cur [] n a =
    let some_cur : (length cur == 0) ≡ false = ground (arith, n) in
    rw some_cur (ap (λ t. t ∷ []) (sym (append-nil cur)))
split_loop-name sep cur (c ∷ cs) n (e, es) =
    let size = length-append cur (c ∷ []) in
    rw e (
      split_loop-name sep (cur ++ (c ∷ [])) cs (omega (arith, size)) es
      ∙ ap (λ t. t ∷ []) (append_assoc cur (c ∷ []) cs))

split_loop-append :
    (sep : ℕ) (cur s p : Bytes)
    → 0 < length p
    → All (λ c. (c == sep) ≡ false) p
    → split_loop sep false cur (s ++ (sep ∷ p)) ≡ split_loop sep false cur s ++ (p ∷ [])
unfolding split_loop
split_loop-append sep cur [] p n a =
    let same : (sep == sep) ≡ true = ground arith in
    let last = split_loop-name sep [] p (omega (arith, n)) a in
    elim (Bool-cases (length cur == 0)) [
      | inl e ↦ rw (same, e) last
      | inr e ↦ rw (same, e) (ap (λ t. cur ∷ t) last)
    ]
split_loop-append sep cur (c ∷ cs) p n a =
    let parts = split_loop-append sep [] cs p n a in
    elim (Bool-cases (c == sep)) [
      | inr e ↦ rw e (split_loop-append sep (cur ++ (c ∷ [])) cs p n a)
      | inl e ↦ elim (Bool-cases (length cur == 0)) [
        | inl z ↦ rw (e, z) parts
        | inr z ↦ rw (e, z) (ap (λ t. cur ∷ t) parts)
      ]
    ]

-- A last part that is not empty and has no separator comes out behind the others.
pub split-append :
    (sep : ℕ) (s p : Bytes)
    → 0 < length p
    → All (λ c. (c == sep) ≡ false) p
    → split (s ++ (sep ∷ p)) sep false ≡ split s sep false ++ (p ∷ [])
unfolding split
split-append sep s p n a = split_loop-append sep [] s p n a
