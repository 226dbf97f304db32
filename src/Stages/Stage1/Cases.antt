-- ===== src/Stages/Stage1/Cases.antt =====
-- The cases of a queue, and which of them a name is collected from.
use mathlib.Core.Bool.{true≢false}
use pmfuzz.Base.{
  true, false, List, [], ◌∷◌, ◌++◌, ◌≡◌, inl, inr, refl, sym, ap, ◌∙◌, if◌then◌else◌, Text, codes,
  text_eq, text_eq_iff, contains, Option, none, some, ok, Bool-cases,
}
use pmfuzz.Str.{replace}
use pmfuzz.NameHandler.Grammar.{Name, IsName}
use pmfuzz.NameHandler.Lineage.{clean_tc_name}
use pmfuzz.NameHandler.Metadata.Apart.{testcase_of}
use pmfuzz.Stages.Folder.{Folder, names, get, is_some, is_file}
use pmfuzz.Stages.Folder.Laws.{contains-names}
use pmfuzz.Stages.Stage1.{Target}

-- A case of the queue with the name that it is collected under.
abbrev pub Case : Type 0
Case = Text × Name

abbrev pub map_src : Text → Text
map_src g = codes "map_" ++ replace g (codes ".testcase") []

-- The case and its map are there, and the program makes an image from it.
abbrev pub IsGood : Target → Folder → Case → Type 0
IsGood target queue (g, n) =
    IsName n
    × (clean_tc_name g ≡ ok (testcase_of n))
    × ((content : Text) × (img : Text) × (get g queue ≡ some content)
        × (target.image content ≡ some img))
    × ((traces : Text) × (get (map_src g) queue ≡ some traces))

abbrev pub or_else : Option Text → Option Text → Option Text
or_else none old = old
or_else (some content) old = some content

-- The content of the last case with a name.
abbrev pub last_case : Folder → Text → List Case → Option Text
last_case queue t [] = none
last_case queue t ((g, n) ∷ cases) =
    or_else (last_case queue t cases) (if text_eq t (testcase_of n) then get g queue else none)

same_case :
    (found : List Text) (n m : Name)
    → contains found (testcase_of n) ≡ true
    → contains found (testcase_of m) ≡ false
    → text_eq (testcase_of m) (testcase_of n) ≡ false
same_case found n m old new = elim (Bool-cases (text_eq (testcase_of m) (testcase_of n))) [
  | inl e ↦
      let same : testcase_of m ≡ testcase_of n = (text_eq_iff _ _).0 e in
      absurd (true≢false (sym old ∙ sym (ap (contains found) same) ∙ new))
  | inr e ↦ e
]

pub or_else_none : (o : Option Text) → or_else o none ≡ o
or_else_none none = refl
or_else_none (some content) = refl

or_else_assoc : (a b c : Option Text) → or_else (or_else a b) c ≡ or_else a (or_else b c)
or_else_assoc none b c = refl
or_else_assoc (some content) b c = refl

pub found_before :
    (found : List Text) (queue : Folder) (g : Text) (n : Name) (cases : List Case) (m : Name)
    (old : Option Text)
    → contains found (testcase_of n) ≡ true
    → (if contains found (testcase_of m)
        then old
        else or_else (last_case queue (testcase_of m) cases) old)
      ≡ (if contains found (testcase_of m)
          then old
          else or_else (last_case queue (testcase_of m) ((g, n) ∷ cases)) old)
found_before found queue g n cases m old h = elim (Bool-cases (contains found (testcase_of m))) [
  | inl e ↦ rw e refl
  | inr e ↦ rw (e, same_case found n m h e, or_else_none) refl
]

pub collected_now :
    (found : List Text) (queue : Folder) (g : Text) (n : Name) (cases : List Case) (m : Name)
    (old next : Option Text)
    → contains found (testcase_of n) ≡ false
    → next ≡ (if text_eq (testcase_of m) (testcase_of n) then get g queue else old)
    → ((content : Text) × (img : Text) × (get g queue ≡ some content) × Unit {0})
    → (if contains found (testcase_of m)
        then next
        else or_else (last_case queue (testcase_of m) cases) next)
      ≡ (if contains found (testcase_of m)
          then old
          else or_else (last_case queue (testcase_of m) ((g, n) ∷ cases)) old)
collected_now found queue g n cases m old next h e (content, img, there, _) =
    elim (Bool-cases (text_eq (testcase_of m) (testcase_of n))) [
      | inl same ↦
          let t : testcase_of m ≡ testcase_of n = (text_eq_iff _ _).0 same in
          let new : contains found (testcase_of m) ≡ false = ap (contains found) t ∙ h in
          rw
            (
              new,
              same,
              or_else_assoc,
              there,
              e ∙ ap (λ b. if b then get g queue else old) same ∙ there,
            )
            refl
      | inr other ↦ rw (e, other, or_else_none) refl
    ]

pub last_some : (o : Option Text) (content : Text) → is_some (or_else o (some content)) ≡ true
last_some none content = refl
last_some (some old) content = refl

pub new_only :
    (files : Folder) (t : Text) (last : Option Text)
    → (if contains (names files) t then get t files else or_else last (get t files))
      ≡ (if is_file files t then get t files else last)
unfolding is_file
new_only files t last = rw (contains-names files t) (unfold is_file in by_file (get t files) last)
  where
    by_file :
        (o last : Option Text)
        → (if is_some o then o else or_else last o) ≡ (if is_some o then o else last)
    by_file none last = or_else_none last
    by_file (some content) last = refl
