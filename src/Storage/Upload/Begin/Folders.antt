-- ===== src/Storage/Upload/Begin/Folders.antt =====
-- What `ensureFolder` leaves at the path.
use telegram_disk.Base.{
  ℕ, ◌<◌, ◌≡◌, refl, sym, ap, ◌∙◌, true, false, Bool-cases, inl, inr, subst, List, [], ◌∷◌, ◌++◌,
  All, length, length-append, append_assoc, append-nil, ◌==◌, if◌then◌else◌, arith,
}
use telegram_disk.Base.Bits.{Bytes}
use telegram_disk.Base.Result.{Result, ok, err, and_then}
use telegram_disk.Text.Path.{NoSlash, IsName, render, normalize_virtual_path, normalize_stack}
use telegram_disk.Text.Split.{split, split-append}
use telegram_disk.Text.Trim.{equal_bytes, equal_bytes→eq}
use telegram_disk.Storage.Database.{Database, FileEntry}
use telegram_disk.Storage.Upload.Begin.{
  folder_entry, folder_at, folder_loop, folder_or_make, ensure_folder,
}
use Prim.Native.String.{String}

-- What the paths of a database promise: looking up changes no answer, and an entry that is created
-- at a free path is found there with its identifier.
pub record Paths (db : Database) : Type 0 where
  pub read :
      (p q : Bytes) (w : Database.World db)
      → (Database.get_entry_by_path db p (Database.get_entry_by_path db q w).1).0
        ≡ (Database.get_entry_by_path db p w).0
  pub created :
      (f : FileEntry) (w : Database.World db) (id : ℕ) (e : String)
      → (Database.get_entry_by_path db f.path w).0 ≡ err e
      → (Database.create_entry db f w).0 ≡ ok id
      → (Database.get_entry_by_path db f.path (Database.create_entry db f w).1).0
        ≡ ok (record f { id = id })

-- A folder with this identifier stands at the path.
pub record IsFolder (db : Database) (path : Bytes) (id : ℕ) (w : Database.World db) : Type 0 where
  pub entry : FileEntry
  pub found : (Database.get_entry_by_path db path w).0 ≡ ok entry
  pub folder : entry.is_folder ≡ true
  pub numbered : entry.id ≡ id

-- The path of parts, one under the other.
abbrev below : List Bytes → Bytes
below [] = []
below (p ∷ ps) = 47 ∷ (p ++ below ps)

below-snoc : (ps : List Bytes) (p : Bytes) → below (ps ++ (p ∷ [])) ≡ below ps ++ (47 ∷ p)
below-snoc [] p = ap (λ t. 47 ∷ t) (append-nil p)
below-snoc (x ∷ xs) p =
    ap (λ t. 47 ∷ t) (ap (λ t. x ++ t) (below-snoc xs p) ∙ sym (append_assoc x (below xs) (47 ∷ p)))

no_separator : (p : Bytes) → NoSlash p → All (λ c. (c == 47) ≡ false) p
no_separator [] h = tt
no_separator (c ∷ cs) (h, hs) = (ground (arith, h), no_separator cs hs)

below-split :
    (stack : List Bytes) → All IsName stack → below (split (render stack) 47 false) ≡ render stack
unfolding render
below-split [] h = unfold split in refl
below-split (p ∷ stack) (n, h) =
    let some_name : 0 < length p = ground (arith, n.0) in
    ap below (split-append 47 (render stack) p some_name (no_separator p n.3))
    ∙ below-snoc (split (render stack) 47 false) p
    ∙ ap (λ t. t ++ (47 ∷ p)) (below-split stack h)

render_long : (stack : List Bytes) → 0 < length stack → 0 < length (render stack)
unfolding render
render_long [] n = absurd (omega (arith, n))
render_long (p ∷ stack) n = let size = length-append (render stack) (47 ∷ p) in omega (arith, size)

module _ (db : Database) (laws : Paths db) where
  only-IsFolder-IsFolder :
      (path : Bytes) (text : String) (id : ℕ) (w : Database.World db) (f : FileEntry)
      → (Database.get_entry_by_path db path w).0 ≡ ok f
      → (if f.is_folder then ok f.id else err text) ≡ ok id
      → IsFolder db path id w
  only-IsFolder-IsFolder path text id w f h e = elim (Bool-cases f.is_folder) [
    | inl c ↦ record { entry = f; found = h; folder = c; numbered = cc (rw c at e) }
    | inr c ↦ absurd (cc (rw c at e))
  ]

  folder_at-IsFolder :
      (f : FileEntry) (text : String) (id : ℕ) (w : Database.World db) (r : Result FileEntry)
      → f.is_folder ≡ true
      → (Database.get_entry_by_path db f.path w).0 ≡ r
      → (folder_at db f text (r, w)).0 ≡ ok id
      → IsFolder db f.path id (folder_at db f text (r, w)).1
  unfolding folder_at
  folder_at-IsFolder f text id w (ok g) c h e = only-IsFolder-IsFolder f.path text id w g h e
  folder_at-IsFolder f text id w (err m) c h e = record {
    entry = record f { id = id };
    found = laws.created f w id m h e;
    folder = c;
    numbered = refl;
  }

  and_then-IsFolder :
      (r : Result ℕ × Database.World db) (k : ℕ → Database.World db → Result ℕ × Database.World db)
      (way path : Bytes) (id : ℕ)
      → ((n : ℕ) → r.0 ≡ ok n → IsFolder db way n r.1)
      → ((n : ℕ) (w : Database.World db)
          → IsFolder db way n w
          → (k n w).0 ≡ ok id
          → IsFolder db path id (k n w).1)
      → (and_then r k).0 ≡ ok id
      → IsFolder db path id (and_then r k).1
  and_then-IsFolder (ok n, w) k way path id first next h = next n w (first n refl) h
  and_then-IsFolder (err e, w) k way path id first next h = absurd (cc h)

  -- The first step of the loop needs no folder; the others are below the one before.
  IsFolder-step-IsFolder :
      (text : Bytes → String) (now owner parent : ℕ) (current p : Bytes) (ps : List Bytes) (id : ℕ)
      (w : Database.World db)
      → ((n : ℕ) (v : Database.World db)
          → IsFolder db (current ++ (47 ∷ p)) n v
          → (folder_loop db text now owner n (current ++ (47 ∷ p)) ps v).0 ≡ ok id
          → IsFolder db
              ((current ++ (47 ∷ p)) ++ below ps)
              id
              (folder_loop db text now owner n (current ++ (47 ∷ p)) ps v).1)
      → (folder_loop db text now owner parent current (p ∷ ps) w).0 ≡ ok id
      → IsFolder db
          (current ++ below (p ∷ ps))
          id
          (folder_loop db text now owner parent current (p ∷ ps) w).1
  unfolding folder_loop
  IsFolder-step-IsFolder text now owner parent current p ps id w next h =
      let way = current ++ (47 ∷ p) in
      let f = folder_entry now owner parent p way in
      let seen = Database.get_entry_by_path db way w in
      let whole = append_assoc current (47 ∷ p) (below ps) in
      and_then-IsFolder (folder_at db f (text way) seen) _ way (current ++ below (p ∷ ps)) id
        (λ n e. folder_at-IsFolder f (text way) n seen.1 seen.0 refl (laws.read way way w) e)
        (λ n v at e.
          subst (λ q. IsFolder db q id (folder_loop db text now owner n way ps v).1) whole
            (next n v at e))
        h

  folder_loop-IsFolder :
      (text : Bytes → String) (now owner parent : ℕ) (current : Bytes) (parts : List Bytes) (id : ℕ)
      (w : Database.World db)
      → IsFolder db current parent w
      → (folder_loop db text now owner parent current parts w).0 ≡ ok id
      → IsFolder db
          (current ++ below parts)
          id
          (folder_loop db text now owner parent current parts w).1
  folder_loop-IsFolder text now owner parent current [] id w at h =
      unfold folder_loop in
      subst (λ q. IsFolder db q id w) (sym (append-nil current))
        (record {
          entry = at.entry;
          found = at.found;
          folder = at.folder;
          numbered = at.numbered ∙ cc h;
        })
  folder_loop-IsFolder text now owner parent current (p ∷ ps) id w at h =
      IsFolder-step-IsFolder text now owner parent current p ps id w
        (λ n v below_at e.
          folder_loop-IsFolder text now owner n (current ++ (47 ∷ p)) ps id v below_at e)
        h

  IsFolder-parts-IsFolder :
      (text : Bytes → String) (now owner : ℕ) (parts : List Bytes) (id : ℕ) (w : Database.World db)
      → 0 < length (below parts)
      → (folder_loop db text now owner 0 [] parts w).0 ≡ ok id
      → IsFolder db (below parts) id (folder_loop db text now owner 0 [] parts w).1
  IsFolder-parts-IsFolder text now owner [] id w n h = absurd (omega (arith, n))
  IsFolder-parts-IsFolder text now owner (p ∷ ps) id w n h =
      IsFolder-step-IsFolder text now owner 0 [] p ps id w
        (λ k v at e. folder_loop-IsFolder text now owner k (47 ∷ p) ps id v at e) h

  folder_or_make-IsFolder :
      (whole part : Bytes → String) (now owner : ℕ) (path : Bytes) (id : ℕ) (w : Database.World db)
      (r : Result FileEntry)
      → (Database.get_entry_by_path db path w).0 ≡ r
      → 0 < length path
      → below (split path 47 false) ≡ path
      → (folder_or_make db whole part now owner path (r, w)).0 ≡ ok id
      → IsFolder db path id (folder_or_make db whole part now owner path (r, w)).1
  unfolding folder_or_make
  folder_or_make-IsFolder whole part now owner path id w (ok f) e n s h =
      only-IsFolder-IsFolder path (whole path) id w f e h
  folder_or_make-IsFolder whole part now owner path id w (err m) e n s h =
      subst (λ q. IsFolder db q id (folder_loop db part now owner 0 [] (split path 47 false) w).1) s
        (IsFolder-parts-IsFolder part now owner (split path 47 false) id w
          (subst (λ q. 0 < length q) (sym s) n) h)

  -- Under the promises of the database's paths, and for a path that is not the root: when `ensureFolder`
  -- succeeds, a folder with the identifier that it gives stands at the normalized path.
  pub ensure_folder-IsFolder :
      (whole part : Bytes → String) (now owner : ℕ) (path : Bytes) (id : ℕ) (w : Database.World db)
      → (normalize_virtual_path path ≡ 47 ∷ [] → ⊥)
      → (ensure_folder db whole part now owner path w).0 ≡ ok id
      → IsFolder db
          (normalize_virtual_path path)
          id
          (ensure_folder db whole part now owner path w).1
  unfolding ensure_folder
  ensure_folder-IsFolder whole part now owner path id w n h =
      let full = normalize_virtual_path path in
      elim (Bool-cases (equal_bytes full (47 ∷ []))) [
        | inl c ↦ absurd (n (equal_bytes→eq full (47 ∷ []) c))
        | inr c ↦ elim (normalize_stack path) [
          | inl root ↦ absurd (n root)
          | inr (stack, names, long, same) ↦
              let seen = Database.get_entry_by_path db full w in
              let size = subst (λ q. 0 < length q) (sym same) (render_long stack long) in
              let parts =
                subst (λ q. below (split q 47 false) ≡ q) (sym same) (below-split stack names) in
              rw c (
                folder_or_make-IsFolder whole part now owner full id seen.1 seen.0
                  (laws.read full full w) size parts (rw c at h))
        ]
      ]
