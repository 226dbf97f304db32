-- ===== src/Stages/Hashes/Laws.antt =====
-- The hash files end up in the database, and the uncompressed images go.
use pmfuzz.Base.{
  Bool, true, false, ◌&&◌, ◌||◌, List, [], ◌∷◌, ◌≡◌, inl, inr, refl, ap, ◌∙◌, arith, if◌then◌else◌,
  Text, text_eq, text_eq_iff, text_eq_refl, text_eq_sym, contains, Distinct, keep, All, Option,
  none, some, ok, Bool-cases,
}
use pmfuzz.Str.{occurs}
use pmfuzz.Str.Number.{strip}
use pmfuzz.NameHandler.Patterns.{is_hash_f}
use pmfuzz.Stages.Folder.{Folder, names, get, is_some, is_file, put}
use pmfuzz.Stages.Folder.Laws.{get-put, contains-names}
use pmfuzz.Stages.Update.Sites.{contains-keep}
use pmfuzz.Stages.Stage1.Cases.{or_else}
use pmfuzz.Stages.Hashes.{
  remove, hash_k, add_hashes, add_cs_hash_lcl, is_uncmpr, remove_uncmpr, clean_up_uncmpr_lcl,
}

pub get-remove :
    (x name : Text) (files : Folder)
    → get x (remove name files) ≡ (if text_eq x name then none else get x files)
unfolding get remove
get-remove x name [] = ground arith
get-remove x name ((n, content) ∷ files) = elim (Bool-cases (text_eq name n)) [
  | inl e ↦
      let same : name ≡ n = (text_eq_iff name n).0 e in
      rw (e, get-remove x name files) (rw same (ground arith))
  | inr e ↦ elim (Bool-cases (text_eq x n)) [
    | inl f ↦
        let same : x ≡ n = (text_eq_iff x n).0 f in
        let other : text_eq x name ≡ false = text_eq_sym x name ∙ ap (text_eq name) same ∙ e in
        rw (e, f, other) refl
    | inr f ↦ rw (e, f) (get-remove x name files)
  ]
]

abbrev stripped : Option Text → Option Text
stripped none = none
stripped (some content) = some (strip content)

-- The hash that a database gets for a key: of the last file with this key.
abbrev pub last_hash : Folder → Text → List Text → Option Text
last_hash img_dir k [] = none
last_hash img_dir k (f ∷ fs) =
    or_else (last_hash img_dir k fs)
      (if text_eq k (hash_k f) then stripped (get f img_dir) else none)

-- The file is there and holds one line.
abbrev pub HoldsHash : Folder → Text → Type 0
HoldsHash img_dir f =
    (content : Text) × (get f img_dir ≡ some content) × (occurs b'\n' (strip content) ≡ false)

merge_gone :
    (later now : Bool) (o : Option Text)
    → (if later then none else if now then none else o) ≡ (if now || later then none else o)
merge_gone later now o = ground arith

later_hash :
    (last : Option Text) (same : Bool) (hash_v : Text) (old : Option Text)
    → or_else last (if same then some hash_v else old)
      ≡ or_else (or_else last (if same then some hash_v else none)) old
later_hash none true hash_v old = refl
later_hash none false hash_v old = refl
later_hash (some v) same hash_v old = refl

module _ (img_dir : Folder) (f : Text) where
  get-others :
      (g : Text) (fs : List Text)
      → contains (g ∷ fs) f ≡ false
      → get g (remove f img_dir) ≡ get g img_dir
  unfolding contains
  get-others g fs h =
      get-remove g f img_dir
      ∙ (let apart : text_eq g f ≡ false = ground (arith, text_eq_sym g f) in rw apart refl)

  HoldsHash-remove :
      (fs : List Text)
      → contains fs f ≡ false
      → All (HoldsHash img_dir) fs
      → All (HoldsHash (remove f img_dir)) fs
  unfolding contains
  HoldsHash-remove [] h k = tt
  HoldsHash-remove (g ∷ fs) h ((content, there, line), ks) =
      ((content, get-others g fs h ∙ there, line), HoldsHash-remove fs (ground arith) ks)

  last_hash-remove :
      (k : Text) (fs : List Text)
      → contains fs f ≡ false
      → last_hash (remove f img_dir) k fs ≡ last_hash img_dir k fs
  unfolding contains
  last_hash-remove k [] h = refl
  last_hash-remove k (g ∷ fs) h = rw (last_hash-remove k fs (ground arith), get-others g fs h) refl

add_hashes_lem :
    (fs : List Text) (img_dir hash_db : Folder)
    → Distinct fs
    → All (HoldsHash img_dir) fs
    → (img' : Folder) × (db' : Folder) × (add_hashes fs img_dir hash_db ≡ ok (img', db'))
      × ((x : Text) → get x img' ≡ (if contains fs x then none else get x img_dir))
      × ((k : Text) → get k db' ≡ or_else (last_hash img_dir k fs) (get k hash_db))
unfolding add_hashes contains
add_hashes_lem [] img_dir hash_db d h = (img_dir, hash_db, refl, λ x. refl, λ k. refl)
add_hashes_lem (f ∷ fs) img_dir hash_db (absent, d) ((content, there, line), hs) =
    let hash_v = strip content in
    let (img', db', e, left, stored) =
      add_hashes_lem fs (remove f img_dir) (put (hash_k f) hash_v hash_db) d
        (HoldsHash-remove img_dir f fs absent hs) in
    (
      img',
      db',
      rw (there, line) e,
      λ x.
          left x
          ∙ ap (λ o. if contains fs x then none else o) (get-remove x f img_dir)
          ∙ merge_gone (contains fs x) (text_eq x f) (get x img_dir),
      λ k.
          stored k
          ∙ rw (last_hash-remove img_dir f k fs absent, get-put k (hash_k f) hash_v hash_db, there)
              (later_hash (last_hash img_dir k fs) (text_eq k (hash_k f)) hash_v (get k hash_db)),
    )

Distinct-keep : (p : Text → Bool) (xs : List Text) → Distinct xs → Distinct (keep p xs)
unfolding keep
Distinct-keep p [] d = tt
Distinct-keep p (x ∷ xs) (absent, d) = elim (Bool-cases (p x)) [
  | inl e ↦ rw e (contains-keep p xs x ∙ rw absent refl, Distinct-keep p xs d)
  | inr e ↦ rw e (Distinct-keep p xs d)
]

gone : (o : Option Text) (b : Bool) → (if is_some o && b then none else o) ≡ (if b then none else o)
gone none b = ground arith
gone (some content) b = refl

-- Where the names of the image directory are distinct and each of its hash files holds one line,
-- `add_cs_hash_lcl` does not fail: the hash files go, all other files stay, and the database has for
-- each key the hash of the last file with this key, or else what it had.
pub add_cs_hash_lcl_lem :
    (img_dir hash_db : Folder)
    → Distinct (names img_dir)
    → All (HoldsHash img_dir) (keep is_hash_f (names img_dir))
    → (img' : Folder) × (db' : Folder) × (add_cs_hash_lcl img_dir hash_db ≡ ok (img', db'))
      × ((x : Text) → get x img' ≡ (if is_hash_f x then none else get x img_dir))
      × ((k : Text)
          → get k db'
            ≡ or_else (last_hash img_dir k (keep is_hash_f (names img_dir))) (get k hash_db))
unfolding add_cs_hash_lcl
add_cs_hash_lcl_lem img_dir hash_db d h =
    let (img', db', e, left, stored) =
      add_hashes_lem (keep is_hash_f (names img_dir)) img_dir hash_db
        (Distinct-keep is_hash_f (names img_dir) d) h in
    (
      img',
      db',
      e,
      λ x.
          left x
          ∙ rw (contains-keep is_hash_f (names img_dir) x, contains-names img_dir x)
              (unfold is_file in gone (get x img_dir) (is_hash_f x)),
      stored,
    )

remove_uncmpr_lem :
    (fs : List Text) (img_dir : Folder) (x : Text)
    → get x (remove_uncmpr fs img_dir)
      ≡ (if contains fs x && is_uncmpr x then none else get x img_dir)
unfolding remove_uncmpr contains
remove_uncmpr_lem [] img_dir x = refl
remove_uncmpr_lem (f ∷ fs) img_dir x =
    remove_uncmpr_lem fs (if is_uncmpr f then remove f img_dir else img_dir) x
    ∙ (elim (Bool-cases (text_eq x f)) [
      | inl e ↦
          let same : x ≡ f = (text_eq_iff x f).0 e in
          rw same (ground (arith, get-remove f f img_dir, text_eq_refl f))
      | inr e ↦ ground (arith, get-remove x f img_dir)
    ])

-- No uncompressed crash site or image is left, and every other file is as before.
pub clean_up_uncmpr_lcl_lem :
    (img_dir : Folder) (x : Text)
    → get x (clean_up_uncmpr_lcl img_dir) ≡ (if is_uncmpr x then none else get x img_dir)
unfolding clean_up_uncmpr_lcl
clean_up_uncmpr_lcl_lem img_dir x =
    remove_uncmpr_lem (names img_dir) img_dir x
    ∙ rw (contains-names img_dir x) (unfold is_file in gone (get x img_dir) (is_uncmpr x))
