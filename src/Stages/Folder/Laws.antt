-- ===== src/Stages/Folder/Laws.antt =====
-- What a copy leaves in a directory.
use pmfuzz.Base.{
  false, [], ◌∷◌, ◌≡◌, refl, ap, ◌∙◌, inl, inr, if◌then◌else◌, Text, text_eq, eq_of_text_eq,
  text_eq_sym, contains, Option, none, some, Bool-cases, ok,
}
use pmfuzz.Stages.Folder.{Folder, names, get, is_file, put, copypreserve, copy_if_there}

pub get-put :
    (x name content : Text) (files : Folder)
    → get x (put name content files) ≡ (if text_eq x name then some content else get x files)
unfolding get put
get-put x name content [] = refl
get-put x name content ((n, old) ∷ files) = elim (Bool-cases (text_eq name n)) [
  | inl e ↦
      rw (e, ap (text_eq x) (eq_of_text_eq name n e))
        (elim (Bool-cases (text_eq x n)) [ inl f ↦ rw f refl | inr f ↦ rw f refl ])
  | inr e ↦ elim (Bool-cases (text_eq x n)) [
    | inl f ↦
        let other : text_eq x name ≡ false =
          text_eq_sym x name ∙ ap (text_eq name) (eq_of_text_eq x n f) ∙ e in
        rw (e, f, other) refl
    | inr f ↦ rw (e, f) (get-put x name content files)
  ]
]

-- The listing has the names of the files.
pub contains-names : (files : Folder) (x : Text) → contains (names files) x ≡ is_file files x
unfolding names get is_file contains
contains-names [] x = refl
contains-names ((n, content) ∷ files) x = elim (Bool-cases (text_eq x n)) [
  | inl e ↦ rw e refl
  | inr e ↦ rw e (contains-names files x)
]

-- Other files are as before.
pub get-copy_if_there :
    (x src dst : Text) (from to : Folder)
    → text_eq x dst ≡ false
    → get x (copy_if_there src from dst to) ≡ get x to
unfolding copy_if_there
get-copy_if_there x src dst from to e = through (get src from)
  where
    through :
        (o : Option Text)
        → get x (elim o as (λ _. Folder) [ none ↦ to | some content ↦ put dst content to ])
          ≡ get x to
    through none = refl
    through (some content) = get-put x dst content to ∙ rw e refl

pub copypreserve-some :
    (src dst content : Text) (from to : Folder)
    → get src from ≡ some content
    → copypreserve src from dst to ≡ ok (put dst content to)
unfolding copypreserve
copypreserve-some src dst content from to e = rw e refl
