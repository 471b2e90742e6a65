-- ===== src/Storage/Upload/Begin/Duplicates.antt =====
-- What `findDuplicates` lists.
use telegram_disk.Base.{
  ℕ, ◌≤◌, ◌<◌, ◌≡◌, refl, true, false, ◌||◌, ◌⊎◌, Bool-cases, inl, inr, List, [], ◌∷◌, ◌++◌, All,
  length, leb, length-append, arith,
}
use telegram_disk.Base.Bits.{Bytes}
use telegram_disk.Base.Result.{Result, ok, err}
use telegram_disk.Storage.Database.{Database, FileEntry}
use telegram_disk.Storage.Upload.Begin.{
  DuplicateInfo, duplicate_of, same_name, same_content, is_listed, list_same, find_duplicates,
}
use Prim.Native.String.{String}

-- No file is there twice.
abbrev Once : List DuplicateInfo → Type 0
Once [] = Unit {0}
Once (d ∷ ds) = (is_listed d.file_id ds ≡ false) × Once ds

is_listed-append :
    (id : ℕ) (xs ys : List DuplicateInfo)
    → is_listed id (xs ++ ys) ≡ (is_listed id xs || is_listed id ys)
unfolding is_listed
is_listed-append id [] ys = refl
is_listed-append id (x ∷ xs) ys = ground (arith, is_listed-append id xs ys)

Once-snoc :
    (ds : List DuplicateInfo) (d : DuplicateInfo)
    → is_listed d.file_id ds ≡ false
    → Once ds
    → Once (ds ++ (d ∷ []))
unfolding is_listed
Once-snoc [] d n o = (refl, tt)
Once-snoc (x ∷ xs) d n (o, os) = (
  rw (is_listed-append x.file_id xs (d ∷ [])) (ground (arith, n, o)),
  Once-snoc xs d (ground (arith, n)) os,
)

-- No file twice, ten at most, and below ten every one of `files`.
pub record Lists (files : List FileEntry) (out : List DuplicateInfo) : Type 0 where
  pub once : Once out
  pub at_most : length out ≤ 10
  pub every : (length out ≡ 10) ⊎ All (λ f. is_listed f.id out ≡ true) files

abbrev longer : String → FileEntry → List DuplicateInfo → List DuplicateInfo
longer reason f out = out ++ (duplicate_of f reason ∷ [])

list_same-skip :
    (reason : String) (f : FileEntry) (fs : List FileEntry) (out : List DuplicateInfo)
    → is_listed f.id out ≡ true
    → list_same reason (f ∷ fs) out ≡ list_same reason fs out
unfolding list_same
list_same-skip reason f fs out e = rw e refl

list_same-add :
    (reason : String) (f : FileEntry) (fs : List FileEntry) (out : List DuplicateInfo)
    → is_listed f.id out ≡ false
    → leb 10 (length (longer reason f out)) ≡ false
    → list_same reason (f ∷ fs) out ≡ list_same reason fs (longer reason f out)
unfolding list_same
list_same-add reason f fs out e c = rw (e, c) refl

list_same-end :
    (reason : String) (f : FileEntry) (fs : List FileEntry) (out : List DuplicateInfo)
    → is_listed f.id out ≡ false
    → leb 10 (length (longer reason f out)) ≡ true
    → list_same reason (f ∷ fs) out ≡ longer reason f out
unfolding list_same
list_same-end reason f fs out e c = rw (e, c) refl

longer_listed :
    (reason : String) (f : FileEntry) (out : List DuplicateInfo) (id : ℕ)
    → is_listed id out ≡ true
    → is_listed id (longer reason f out) ≡ true
longer_listed reason f out id h =
    let both = is_listed-append id out (duplicate_of f reason ∷ []) in ground (arith, both, h)

longer_self :
    (reason : String) (f : FileEntry) (out : List DuplicateInfo)
    → is_listed f.id (longer reason f out) ≡ true
unfolding is_listed
longer_self reason f [] = ground arith
longer_self reason f (x ∷ xs) = ground (arith, longer_self reason f xs)

list_same-kept :
    (reason : String) (fs : List FileEntry) (out : List DuplicateInfo) (id : ℕ)
    → is_listed id out ≡ true
    → is_listed id (list_same reason fs out) ≡ true
list_same-kept reason [] out id h = unfold list_same in h
list_same-kept reason (f ∷ fs) out id h = elim (Bool-cases (is_listed f.id out)) [
  | inl e ↦ rw (list_same-skip reason f fs out e) (list_same-kept reason fs out id h)
  | inr e ↦
      let h' = longer_listed reason f out id h in
      elim (Bool-cases (leb 10 (length (longer reason f out)))) [
        | inl c ↦ rw (list_same-end reason f fs out e c) h'
        | inr c ↦
            rw (list_same-add reason f fs out e c)
              (list_same-kept reason fs (longer reason f out) id h')
      ]
]

Lists-cons :
    (f : FileEntry) (fs : List FileEntry) (out : List DuplicateInfo)
    → is_listed f.id out ≡ true
    → Lists fs out
    → Lists (f ∷ fs) out
Lists-cons f fs out h l = record {
  once = l.once;
  at_most = l.at_most;
  every = elim l.every [ inl full ↦ inl full | inr all ↦ inr (h, all) ];
}

list_same-Lists :
    (reason : String) (fs : List FileEntry) (out : List DuplicateInfo)
    → Once out
    → length out < 10
    → Lists fs (list_same reason fs out)
list_same-Lists reason [] out o n =
    unfold list_same in record { once = o; at_most = omega (arith, n); every = inr tt }
list_same-Lists reason (f ∷ fs) out o n =
    let more = longer reason f out in
    let size = length-append out (duplicate_of f reason ∷ []) in
    elim (Bool-cases (is_listed f.id out)) [
      | inl e ↦ rw (list_same-skip reason f fs out e) (
          Lists-cons f fs (list_same reason fs out) (list_same-kept reason fs out f.id e)
            (list_same-Lists reason fs out o n))
      | inr e ↦
          let o' = Once-snoc out (duplicate_of f reason) e o in
          let self = longer_self reason f out in
          elim (Bool-cases (leb 10 (length more))) [
            | inl c ↦ rw (list_same-end reason f fs out e c) (record {
              once = o';
              at_most = omega (arith, size, n);
              every = inl (ground (arith, size, n, c));
            })
            | inr c ↦ rw (list_same-add reason f fs out e c) (
                Lists-cons f fs (list_same reason fs more) (list_same-kept reason fs more f.id self)
                  (list_same-Lists reason fs more o' (ground (arith, c))))
          ]
    ]

same_name-Once : (sha256 : Bytes) (size : ℕ) (r : Result FileEntry) → Once (same_name sha256 size r)
unfolding same_name
same_name-Once sha256 size (err e) = tt
same_name-Once sha256 size (ok f) = elim (Bool-cases f.is_folder) [
  | inl e ↦ rw e tt
  | inr e ↦ rw e (unfold is_listed in refl, tt)
]

same_name-short :
    (sha256 : Bytes) (size : ℕ) (r : Result FileEntry) → length (same_name sha256 size r) < 10
unfolding same_name
same_name-short sha256 size (err e) = omega arith
same_name-short sha256 size (ok f) = ground arith

-- `findDuplicates` lists no file twice and ten at most; if it lists fewer, every file that the search
-- for the content gave is listed.
pub find_duplicates-Lists :
    (db : Database) (name : Bytes) (parent_id : ℕ) (quick_hash sha256 : Bytes) (size : ℕ)
    (w : Database.World db)
    → Lists
        (same_content db quick_hash sha256 size
          (Database.find_by_name_in_folder db parent_id name w).1).0
        (find_duplicates db name parent_id quick_hash sha256 size w).0
unfolding find_duplicates
find_duplicates-Lists db name parent_id quick_hash sha256 size w =
    let first = (Database.find_by_name_in_folder db parent_id name w).0 in
    list_same-Lists _ _ (same_name sha256 size first) (same_name-Once sha256 size first)
      (same_name-short sha256 size first)
