-- ===== src/Stages/Update/Sites.antt =====
-- The copy of crash sites, and the files that a listing names.
use pmfuzz.Base.{
  Bool, true, false, not, ◌&&◌, ◌||◌, List, [], ◌∷◌, ◌≡◌, inl, inr, refl, sym, ◌∙◌, arith,
  if◌then◌else◌, Text, text_eq, text_eq_iff, text_eq_refl, contains, keep, map, All, Option, none,
  some, ok, Bool-cases,
}
use pmfuzz.NameHandler.Grammar.{Name}
use pmfuzz.NameHandler.Patterns.{is_cmpr_crash_site}
use pmfuzz.NameHandler.Metadata.Apart.{testcase_of}
use pmfuzz.Stages.Folder.{Folder, names, get, is_some, is_file, put}
use pmfuzz.Stages.Folder.Laws.{get-put, contains-names, copypreserve-some}
use pmfuzz.Stages.Update.{update_cs}

-- The file is there.
abbrev pub Has : Folder → Text → Type 0
Has folder name = (content : Text) × (get name folder ≡ some content)

contains-cons :
    (a : Text) (ys xs : List Text)
    → All (λ x. contains ys x ≡ true) xs
    → All (λ x. contains (a ∷ ys) x ≡ true) xs
unfolding contains
contains-cons a ys [] h = tt
contains-cons a ys (x ∷ xs) (h, hs) = (ground arith, contains-cons a ys xs hs)

contains_self : (xs : List Text) → All (λ x. contains xs x ≡ true) xs
unfolding contains
contains_self [] = tt
contains_self (x ∷ xs) = (rw (text_eq_refl x) refl, contains-cons x xs xs (contains_self xs))

has_of_is_some : (o : Option Text) → is_some o ≡ true → (content : Text) × (o ≡ some content)
has_of_is_some none h = cc
has_of_is_some (some content) h = (content, refl)

pub listed-Has : (folder : Folder) → All (Has folder) (names folder)
unfolding is_file
listed-Has folder = go (names folder) (contains_self (names folder))
  where
    go : (xs : List Text) → All (λ x. contains (names folder) x ≡ true) xs → All (Has folder) xs
    go [] h = tt
    go (x ∷ xs) (h, hs) =
        (has_of_is_some (get x folder) (sym (contains-names folder x) ∙ h), go xs hs)

copied_one :
    (img_dir : Folder) (f content : Text) (fs : List Text) (gbl : Folder) (x : Text)
    → get f img_dir ≡ some content
    → (is_cmpr_crash_site f && not (contains (names gbl) f)) ≡ true
    → (if contains fs x && is_cmpr_crash_site x && not (is_file (put f content gbl) x)
        then get x img_dir
        else get x (put f content gbl))
      ≡ (if (text_eq x f || contains fs x) && is_cmpr_crash_site x && not (is_file gbl x)
          then get x img_dir
          else get x gbl)
unfolding is_file
copied_one img_dir f content fs gbl x there copied = elim (Bool-cases (text_eq x f)) [
  | inl e ↦
      let same : x ≡ f = (text_eq_iff x f).0 e in
      rw same (ground (arith, get-put f f content gbl, text_eq_refl f, contains-names gbl f))
  | inr e ↦ rw (get-put x f content gbl, e) refl
]

skipped_one :
    (img_dir : Folder) (f : Text) (fs : List Text) (gbl : Folder) (x : Text)
    → (is_cmpr_crash_site f && not (contains (names gbl) f)) ≡ false
    → (if contains fs x && is_cmpr_crash_site x && not (is_file gbl x)
        then get x img_dir
        else get x gbl)
      ≡ (if (text_eq x f || contains fs x) && is_cmpr_crash_site x && not (is_file gbl x)
          then get x img_dir
          else get x gbl)
skipped_one img_dir f fs gbl x kept = elim (Bool-cases (text_eq x f)) [
  | inl e ↦
      let same : x ≡ f = (text_eq_iff x f).0 e in
      rw same (ground (arith, text_eq_refl f, contains-names gbl f))
  | inr e ↦ rw e refl
]

-- The second loop: of the crash sites that were not listed, each is copied, and nothing else changes.
pub update_cs_lem :
    (img_dir : Folder) (fnames : List Text) (gbl : Folder)
    → All (Has img_dir) fnames
    → (after : Folder) × (update_cs img_dir fnames gbl ≡ ok after)
      × ((x : Text)
          → get x after ≡ (
              if contains fnames x && is_cmpr_crash_site x && not (is_file gbl x)
              then get x img_dir
              else get x gbl))
unfolding update_cs contains
update_cs_lem img_dir [] gbl h = (gbl, refl, λ x. refl)
update_cs_lem img_dir (f ∷ fs) gbl ((content, there), hs) =
    elim (Bool-cases (is_cmpr_crash_site f && not (contains (names gbl) f))) [
      | inl copied ↦
          let next = put f content gbl in
          let (after, e, found) = update_cs_lem img_dir fs next hs in
          (
            after,
            rw (copied, copypreserve-some f f content img_dir gbl there) e,
            λ x. found x ∙ copied_one img_dir f content fs gbl x there copied,
          )
      | inr kept ↦
          let (after, e, found) = update_cs_lem img_dir fs gbl hs in
          (after, rw kept e, λ x. found x ∙ skipped_one img_dir f fs gbl x kept)
    ]

pub contains-keep :
    (p : Text → Bool) (xs : List Text) (x : Text) → contains (keep p xs) x ≡ (contains xs x && p x)
unfolding contains keep
contains-keep p [] x = refl
contains-keep p (y ∷ xs) x = elim (Bool-cases (text_eq x y)) [
  | inl e ↦
      let same : x ≡ y = (text_eq_iff x y).0 e in
      rw same (ground (arith, contains-keep p xs y, text_eq_refl y))
  | inr e ↦ rw e (ground (arith, contains-keep p xs x))
]

pub All-keep : (P : Text → Type 0) (p : Text → Bool) (xs : List Text) → All P xs → All P (keep p xs)
unfolding keep
All-keep P p [] h = tt
All-keep P p (x ∷ xs) (h, hs) = elim (Bool-cases (p x)) [
  | inl e ↦ rw e (h, All-keep P p xs hs)
  | inr e ↦ rw e (All-keep P p xs hs)
]

pub All-of-map :
    (P : Text → Type 0) (ns : List Name)
    → All P (map testcase_of ns)
    → All (λ n. P (testcase_of n)) ns
All-of-map P [] h = tt
All-of-map P (n ∷ ns) (h, hs) = (h, All-of-map P ns hs)

pub first_site :
    (a b : Option Text)
    → (if is_some a && true && not (is_some b) then a else b) ≡ (if is_some b then b else a)
first_site none none = refl
first_site none (some b) = refl
first_site (some a) none = refl
first_site (some a) (some b) = refl

pub no_site :
    (listed is_site new : Bool) (x y : Option Text)
    → is_site ≡ false
    → (if listed && is_site && new then x else y) ≡ y
no_site listed is_site new x y h = ground arith
