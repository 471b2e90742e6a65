-- ===== src/Text/Path.antt =====
-- `normalizeVirtualPath` of src/common/strutil.cpp.
use telegram_disk.Base.{
  ◌⊎◌, ◌<◌, arith, ℕ, ◌≡◌, refl, sym, ap, ◌∙◌, Bool, false, ◌||◌, Bool-cases, inl, inr, List, [],
  ◌∷◌, ◌++◌, All, All-append, All-drop, length, drop, ◌==◌, if◌then◌else◌,
}
use mathlib.Core.List.{append_assoc, append-nil}
use telegram_disk.Base.Bits.{Bytes}
use telegram_disk.Text.Ascii.{codes}
use telegram_disk.Text.Trim.{equal_bytes}

abbrev pub is_slash : ℕ → Bool
is_slash c = c == 47 || c == 92

-- `flush`: `stack` has its last part first here.
unfoldable pub push_part : Bytes → List Bytes → List Bytes
push_part cur stack =
    if length cur == 0 || equal_bytes cur (codes ".")
    then stack
    else if equal_bytes cur (codes "..")
    then drop 1 stack
    else cur ∷ stack

-- The loop over the path with `cur`, and the last `flush`.
unfoldable pub normalize_loop : Bytes → List Bytes → Bytes → List Bytes
normalize_loop cur stack [] = push_part cur stack
normalize_loop cur stack (c ∷ cs) =
    let next = normalize_loop [] (push_part cur stack) cs in
    let longer = normalize_loop (cur ++ (c ∷ [])) stack cs in if is_slash c then next else longer

unfoldable pub render : List Bytes → Bytes
render [] = []
render (p ∷ stack) = render stack ++ (47 ∷ p)

rooted : List Bytes → Bytes
unfolding render
rooted [] = 47 ∷ []
rooted (p ∷ stack) = render (p ∷ stack)

unfoldable pub normalize_virtual_path : Bytes → Bytes
unfolding rooted normalize_loop push_part equal_bytes
normalize_virtual_path path = rooted (normalize_loop [] [] path)

abbrev pub NoSlash : Bytes → Type 0
NoSlash p = All (λ c. is_slash c ≡ false) p

-- A part that stands for a name: not empty, not `.` or `..`, and without a separator.
abbrev pub IsName : Bytes → Type 0
IsName p =
    ((length p == 0) ≡ false)
    × (equal_bytes p (codes ".") ≡ false)
    × (equal_bytes p (codes "..") ≡ false)
    × NoSlash p

push_part-IsName :
    (cur : Bytes) (stack : List Bytes)
    → NoSlash cur
    → All IsName stack
    → All IsName (push_part cur stack)
unfolding push_part
push_part-IsName cur stack n h = elim (Bool-cases (length cur == 0)) [
  | inl e ↦ rw e h
  | inr e ↦ elim (Bool-cases (equal_bytes cur (codes "."))) [
    | inl e' ↦ rw (e, e') h
    | inr e' ↦ elim (Bool-cases (equal_bytes cur (codes ".."))) [
      | inl e'' ↦ rw (e, e', e'') (All-drop IsName 1 stack h)
      | inr e'' ↦ rw (e, e', e'') ((e, e', e'', n), h)
    ]
  ]
]

-- Started on names and a part without a separator, as on nothing at all, the loop leaves names
-- alone, whatever the path is: none is empty, `.` or `..`, and none has a separator.
pub normalize_loop-IsName :
    (cur : Bytes) (stack : List Bytes) (path : Bytes)
    → NoSlash cur
    → All IsName stack
    → All IsName (normalize_loop cur stack path)
unfolding normalize_loop
normalize_loop-IsName cur stack [] n h = push_part-IsName cur stack n h
normalize_loop-IsName cur stack (c ∷ cs) n h = elim (Bool-cases (is_slash c)) [
  | inl e ↦
      rw e (normalize_loop-IsName [] (push_part cur stack) cs tt (push_part-IsName cur stack n h))
  | inr e ↦ rw e (
      normalize_loop-IsName (cur ++ (c ∷ [])) stack cs
        (All-append (λ x. is_slash x ≡ false) cur (c ∷ []) n (e, tt)) h)
]

push_part-name : (p : Bytes) (stack : List Bytes) → IsName p → push_part p stack ≡ p ∷ stack
unfolding push_part
push_part-name p stack (a, b, c, d) = rw (a, b, c) refl

normalize_loop-append :
    (cur p : Bytes) (stack : List Bytes) (rest : Bytes)
    → NoSlash p
    → normalize_loop cur stack (p ++ rest) ≡ normalize_loop (cur ++ p) stack rest
unfolding normalize_loop
normalize_loop-append cur [] stack rest n =
    ap (λ c. normalize_loop c stack rest) (sym (append-nil cur))
normalize_loop-append cur (c ∷ p) stack rest (e, n) = rw e (
    normalize_loop-append (cur ++ (c ∷ [])) p stack rest n
    ∙ ap (λ x. normalize_loop x stack rest) (append_assoc cur (c ∷ []) p))

-- A rendered stack followed by a separator is read back as that stack.
normalize_loop-render :
    (stack : List Bytes) (rest : Bytes)
    → All IsName stack
    → normalize_loop [] [] (render stack ++ (47 ∷ rest)) ≡ normalize_loop [] stack rest
unfolding render
normalize_loop-render [] rest h = unfold normalize_loop push_part in refl
normalize_loop-render (p ∷ stack) rest (n, h) =
    ap (normalize_loop [] []) (append_assoc (render stack) (47 ∷ p) (47 ∷ rest))
    ∙ normalize_loop-render stack (p ++ (47 ∷ rest)) h
    ∙ normalize_loop-append [] p stack (47 ∷ rest) n.3
    ∙ unfold normalize_loop in ap (λ s. normalize_loop [] s rest) (push_part-name p stack n)

normalize_loop-rooted :
    (stack : List Bytes) → All IsName stack → normalize_loop [] [] (rooted stack) ≡ stack
unfolding rooted render
normalize_loop-rooted [] h = unfold normalize_loop push_part in refl
normalize_loop-rooted (p ∷ stack) (n, h) =
    normalize_loop-render stack p h
    ∙ ap (normalize_loop [] stack) (sym (append-nil p))
    ∙ normalize_loop-append [] p stack [] n.3
    ∙ unfold normalize_loop in push_part-name p stack n

rooted_stack :
    (names : List Bytes)
    → All IsName names
    → (rooted names ≡ 47 ∷ [])
      ⊎ ((stack : List Bytes) × All IsName stack
          × (0 < length stack)
          × (rooted names ≡ render stack))
unfolding rooted
rooted_stack [] h = inl refl
rooted_stack (p ∷ ps) h = inr (p ∷ ps, h, omega arith, refl)

-- Normalising a path twice is normalising it once.
pub normalize_idem :
    (path : Bytes)
    → normalize_virtual_path (normalize_virtual_path path) ≡ normalize_virtual_path path
unfolding normalize_virtual_path
normalize_idem path =
    ap rooted
      (normalize_loop-rooted (normalize_loop [] [] path) (normalize_loop-IsName [] [] path tt tt))

-- A normalized path is `/`, or the names of a stack, the last one first.
pub normalize_stack :
    (path : Bytes)
    → (normalize_virtual_path path ≡ 47 ∷ [])
      ⊎ ((stack : List Bytes) × All IsName stack
          × (0 < length stack)
          × (normalize_virtual_path path ≡ render stack))
unfolding normalize_virtual_path
normalize_stack path =
    rooted_stack (normalize_loop [] [] path) (normalize_loop-IsName [] [] path tt tt)
