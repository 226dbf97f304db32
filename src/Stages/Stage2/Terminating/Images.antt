-- ===== src/Stages/Stage2/Terminating/Images.antt =====
-- An image directory whose hash files can be read into the database, and what keeps it so.
use mathlib.Core.Bool.{true≢false}
use mathlib.Core.List.{reverse, reverse-append}
use mathlib.Core.Path.{subst}
use pmfuzz.Base.{
  Bool, true, false, ◌||◌, List, [], ◌∷◌, ◌++◌, ◌≡◌, inl, inr, refl, sym, ap, ◌∙◌, arith,
  if◌then◌else◌, Text, codes, text_eq, text_eq_iff, text_eq_sym, contains, Distinct, keep, All,
  Option, none, some, ok, Bool-cases,
}
use pmfuzz.Str.{occurs, starts_with}
use pmfuzz.Str.Number.{strip}
use pmfuzz.NameHandler.Grammar.{Name, render, render_end}
use pmfuzz.NameHandler.Patterns.{is_hash_f}
use pmfuzz.NameHandler.Metadata.Apart.{image_of}
use pmfuzz.Stages.Folder.{Folder, names, get, is_some, is_file, put}
use pmfuzz.Stages.Folder.Laws.{get-put, contains-names}
use pmfuzz.Stages.Update.Sites.{Has, listed-Has}
use pmfuzz.Stages.Hashes.{remove, is_uncmpr, remove_uncmpr, clean_up_uncmpr_lcl, add_cs_hash_lcl}
use pmfuzz.Stages.Hashes.Laws.{HoldsHash, get-remove, clean_up_uncmpr_lcl_lem, add_cs_hash_lcl_lem}

-- No file is listed twice, and each hash file holds one line.
abbrev pub IsHashed : Folder → Type 0
IsHashed img_dir =
    Distinct (names img_dir)
    × ((f content : Text)
        → is_hash_f f ≡ true
        → get f img_dir ≡ some content
        → occurs b'\n' (strip content) ≡ false)

is_some-put :
    (b : Bool) (content : Text) (o : Option Text)
    → is_some (if b then some content else o) ≡ (b || is_some o)
is_some-put true content o = refl
is_some-put false content o = refl

Distinct-put :
    (name content : Text) (files : Folder)
    → Distinct (names files)
    → Distinct (names (put name content files))
unfolding names put contains is_file
Distinct-put name content [] d = (refl, tt)
Distinct-put name content ((n, old) ∷ files) (absent, d) = elim (Bool-cases (text_eq name n)) [
  | inl e ↦ rw e (absent, d)
  | inr e ↦
      let listed : contains (names (put name content files)) n ≡ false =
        contains-names (put name content files) n
        ∙ ap is_some (get-put n name content files)
        ∙ is_some-put (text_eq n name) content (get n files)
        ∙ rw (text_eq_sym n name, e, sym (contains-names files n)) absent in
      rw e (listed, Distinct-put name content files d)
]

is_some-remove :
    (b : Bool) (o : Option Text) → is_some o ≡ false → is_some (if b then none else o) ≡ false
is_some-remove true o h = refl
is_some-remove false o h = h

Distinct-remove :
    (name : Text) (files : Folder) → Distinct (names files) → Distinct (names (remove name files))
unfolding names remove is_file
Distinct-remove name [] d = d
Distinct-remove name ((n, content) ∷ files) (absent, d) = elim (Bool-cases (text_eq name n)) [
  | inl e ↦ rw e (Distinct-remove name files d)
  | inr e ↦
      let listed : contains (names (remove name files)) n ≡ false =
        contains-names (remove name files) n
        ∙ ap is_some (get-remove n name files)
        ∙ is_some-remove (text_eq n name) (get n files) (sym (contains-names files n) ∙ absent) in
      rw e (listed, Distinct-remove name files d)
]

Distinct-remove_uncmpr :
    (fs : List Text) (files : Folder)
    → Distinct (names files)
    → Distinct (names (remove_uncmpr fs files))
unfolding remove_uncmpr
Distinct-remove_uncmpr [] files d = d
Distinct-remove_uncmpr (f ∷ fs) files d = elim (Bool-cases (is_uncmpr f)) [
  | inl e ↦ rw e (Distinct-remove_uncmpr fs (remove f files) (Distinct-remove f files d))
  | inr e ↦ rw e (Distinct-remove_uncmpr fs files d)
]

image_end : (s : Text) → is_hash_f (s ++ codes ".pm_pool.tar.gz") ≡ false
unfolding is_hash_f starts_with
image_end s =
    ap (λ t. starts_with t (reverse (codes ".hash"))) (reverse-append s (codes ".pm_pool.tar.gz"))

image-not_hash : (n : Name) → is_hash_f (image_of n) ≡ false
image-not_hash n = ap is_hash_f (render_end n (codes ".pm_pool.tar.gz")) ∙ image_end (render n [])

-- What is put is no hash file, or a hash file with one line.
pub IsHashed-put_file :
    (name content : Text) (img_dir : Folder)
    → (is_hash_f name ≡ true → occurs b'\n' (strip content) ≡ false)
    → IsHashed img_dir
    → IsHashed (put name content img_dir)
IsHashed-put_file name content img_dir line (d, lines) = (
  Distinct-put name content img_dir d,
  λ f old hash there. elim (Bool-cases (text_eq f name)) [
    | inl e ↦
        let same : some content ≡ some old =
          sym (get-put f name content img_dir ∙ rw e refl) ∙ there in
        let one : content ≡ old = cc in
        subst (λ t. occurs b'\n' (strip t) ≡ false) one
          (line (sym (ap is_hash_f ((text_eq_iff f name).0 e)) ∙ hash))
    | inr e ↦ lines f old hash (sym (get-put f name content img_dir ∙ rw e refl) ∙ there)
  ],
)

pub IsHashed-put :
    (n : Name) (img : Text) (img_dir : Folder)
    → IsHashed img_dir
    → IsHashed (put (image_of n) img img_dir)
IsHashed-put n img img_dir (d, lines) = (
  Distinct-put (image_of n) img img_dir d,
  λ f content hash there. elim (Bool-cases (text_eq f (image_of n))) [
    | inl e ↦
        absurd (
          true≢false
            (sym hash ∙ ap is_hash_f ((text_eq_iff f (image_of n)).0 e) ∙ image-not_hash n))
    | inr e ↦ lines f content hash (sym (get-put f (image_of n) img img_dir ∙ rw e refl) ∙ there)
  ],
)

kept :
    (b : Bool) (o : Option Text) (content : Text)
    → (if b then none else o) ≡ some content
    → o ≡ some content
kept b o content h = ground arith

pub IsHashed-clean_up :
    (img_dir : Folder) → IsHashed img_dir → IsHashed (clean_up_uncmpr_lcl img_dir)
unfolding clean_up_uncmpr_lcl
IsHashed-clean_up img_dir (d, lines) = (
  Distinct-remove_uncmpr (names img_dir) img_dir d,
  λ f content hash there. lines f content hash (
      kept (is_uncmpr f) (get f img_dir) content (sym (clean_up_uncmpr_lcl_lem img_dir f) ∙ there)),
)

pub hashes-All :
    (img_dir : Folder) (xs : List Text)
    → IsHashed img_dir
    → All (Has img_dir) xs
    → All (HoldsHash img_dir) (keep is_hash_f xs)
unfolding keep
hashes-All img_dir [] hashed h = tt
hashes-All img_dir (x ∷ xs) hashed ((content, there), hs) = elim (Bool-cases (is_hash_f x)) [
  | inl e ↦ rw e ((content, there, hashed.1 x content e there), hashes-All img_dir xs hashed hs)
  | inr e ↦ rw e (hashes-All img_dir xs hashed hs)
]

-- The end of a run leaves neither an uncompressed image nor a hash file.
pub tidied :
    (img_dir hash_db : Folder)
    → IsHashed img_dir
    → (img' : Folder) × (db' : Folder) × (add_cs_hash_lcl (clean_up_uncmpr_lcl img_dir) hash_db
        ≡ ok (img', db'))
      × ((x : Text) → get x img' ≡ (if is_hash_f x || is_uncmpr x then none else get x img_dir))
tidied img_dir hash_db hashed =
    let clean = clean_up_uncmpr_lcl img_dir in
    let still = IsHashed-clean_up img_dir hashed in
    let (img', db', e, left, stored) =
      add_cs_hash_lcl_lem clean hash_db still.0
        (hashes-All clean (names clean) still (listed-Has clean)) in
    (img', db', e, λ x. left x ∙ rw (clean_up_uncmpr_lcl_lem img_dir x) (ground arith))
