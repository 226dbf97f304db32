-- ===== src/Core/Machine/Listing.antt =====
-- How the calls change which stage directories are listed.
use mathlib.Core.Path.{subst}
use pmfuzz.Base.{
  ℕ, Bool, true, false, not, ◌||◌, List, [], ◌∷◌, ◌++◌, ◌≡◌, refl, sym, ap, ◌∙◌, arith,
  if◌then◌else◌, Text, codes, text_eq, contains, keep, Bool-cases, inl, inr, append-nil,
  text_eq_refl, eq_of_text_eq, text_eq_iff, some, ok, map,
}
use mathlib.Core.List.{map-append}
use pmfuzz.NameHandler.Stage.Laws.{dir_name}
use pmfuzz.Stages.State.{State, sync}
use pmfuzz.Stages.State.Laws.{
  Entry, special, stage_dir, entry_name, larger_ℕ, latest, ints, scan-entries,
}
use pmfuzz.Core.World.{make_entry, remove_entry}

-- The stages and iterations of a listing, in its order.
abbrev pub stages_in : List Entry → List (ℕ × ℕ)
stages_in [] = []
stages_in (special _ ∷ es) = stages_in es
stages_in (stage_dir s i ∷ es) = (s, i) ∷ stages_in es

-- Names of stages and special names, of which the stages are these.
abbrev pub Lists : List (ℕ × ℕ) → List Text → Type 0
Lists ps l = (es : List Entry) × (l ≡ map entry_name es) × (stages_in es ≡ ps)

abbrev pub has_dir : List (ℕ × ℕ) → ℕ × ℕ → Bool
has_dir [] p = false
has_dir ((a, b) ∷ ps) (s, i) = text_eq (dir_name s i) (dir_name a b) || has_dir ps (s, i)

abbrev pub drop_dir : ℕ × ℕ → List (ℕ × ℕ) → List (ℕ × ℕ)
drop_dir (s, i) = keep (λ (a, b). not (text_eq (dir_name s i) (dir_name a b)))

abbrev pub last_of : ℕ × ℕ → List (ℕ × ℕ) → ℕ × ℕ
last_of best [] = best
last_of best (p ∷ ps) = last_of (larger_ℕ best p) ps

stages_in-append : (es fs : List Entry) → stages_in (es ++ fs) ≡ stages_in es ++ stages_in fs
stages_in-append [] fs = refl
stages_in-append (special _ ∷ es) fs = stages_in-append es fs
stages_in-append (stage_dir s i ∷ es) fs = ap (◌∷◌ (s, i)) (stages_in-append es fs)

latest-stages_in : (best : ℕ × ℕ) (es : List Entry) → latest best es ≡ last_of best (stages_in es)
latest-stages_in best [] = refl
latest-stages_in best (special _ ∷ es) = latest-stages_in best es
latest-stages_in best (stage_dir s i ∷ es) = latest-stages_in (larger_ℕ best (s, i)) es

contains-stages_in :
    (es : List Entry) (s i : ℕ)
    → contains (map entry_name es) (dir_name s i) ≡ has_dir (stages_in es) (s, i)
unfolding contains text_eq
contains-stages_in [] s i = refl
contains-stages_in (special n ∷ es) s i = contains-stages_in es s i
contains-stages_in (stage_dir a b ∷ es) s i = rw (contains-stages_in es s i) refl

Lists-append :
    (ps : List (ℕ × ℕ)) (l : List Text) (e : Entry)
    → Lists ps l
    → Lists (ps ++ stages_in (e ∷ [])) (l ++ (entry_name e ∷ []))
Lists-append ps l e (es, names, stages) = (
  es ++ (e ∷ []),
  ap (λ t. t ++ (entry_name e ∷ [])) names ∙ sym (map-append entry_name es (e ∷ [])),
  stages_in-append es (e ∷ []) ∙ ap (λ t. t ++ stages_in (e ∷ [])) stages,
)

-- A special directory changes no stage.
pub make_special :
    (ps : List (ℕ × ℕ)) (n : Text) (l : List Text) → Lists ps l → Lists ps (make_entry (b'@' ∷ n) l)
unfolding make_entry
make_special ps n l h = elim (Bool-cases (contains l (b'@' ∷ n))) [
  | inl e ↦ rw e h
  | inr e ↦ rw e (
      subst (λ qs. Lists qs (l ++ ((b'@' ∷ n) ∷ []))) (append-nil ps)
        (Lists-append ps l (special n) h))
]

make_there :
    (ps : List (ℕ × ℕ)) (s i : ℕ) (l : List Text)
    → Lists ps l
    → has_dir ps (s, i) ≡ true
    → make_entry (dir_name s i) l ≡ l
unfolding make_entry
make_there ps s i l (es, names, stages) h = rw (names, contains-stages_in es s i, stages, h) refl

make_stage :
    (ps : List (ℕ × ℕ)) (s i : ℕ) (l : List Text)
    → Lists ps l
    → has_dir ps (s, i) ≡ false
    → Lists (ps ++ ((s, i) ∷ [])) (make_entry (dir_name s i) l)
unfolding make_entry
make_stage ps s i l (es, names, stages) k =
    let absent : contains l (dir_name s i) ≡ false =
      ap (λ t. contains t (dir_name s i)) names
      ∙ contains-stages_in es s i
      ∙ ap (λ qs. has_dir qs (s, i)) stages
      ∙ k in
    rw absent (Lists-append ps l (stage_dir s i) (es, names, stages))

remove_names :
    (es : List Entry) (s i : ℕ)
    → Lists (drop_dir (s, i) (stages_in es)) (remove_entry (dir_name s i) (map entry_name es))
unfolding remove_entry keep text_eq
remove_names [] s i = ([], refl, refl)
remove_names (special n ∷ es) s i =
    let (fs, names, stages) = remove_names es s i in
    (special n ∷ fs, ap (◌∷◌ (b'@' ∷ n)) names, stages)
remove_names (stage_dir a b ∷ es) s i =
    let (fs, names, stages) = remove_names es s i in
    elim (Bool-cases (text_eq (dir_name s i) (dir_name a b))) [
      | inl e ↦ rw e (fs, names, stages)
      | inr e ↦ rw e (stage_dir a b ∷ fs, ap (◌∷◌ (dir_name a b)) names, ap (◌∷◌ (a, b)) stages)
    ]

abbrev pub add_dir : ℕ × ℕ → List (ℕ × ℕ) → List (ℕ × ℕ)
add_dir p ps = if has_dir ps p then ps else ps ++ (p ∷ [])

-- A stage directory is listed once it is made.
pub make_dir :
    (ps : List (ℕ × ℕ)) (s i : ℕ) (l : List Text)
    → Lists ps l
    → Lists (add_dir (s, i) ps) (make_entry (dir_name s i) l)
make_dir ps s i l h = elim (Bool-cases (has_dir ps (s, i))) [
  | inl e ↦ rw (e, make_there ps s i l h e) h
  | inr e ↦ rw e (make_stage ps s i l h e)
]

pub remove_stage :
    (ps : List (ℕ × ℕ)) (s i : ℕ) (l : List Text)
    → Lists ps l
    → Lists (drop_dir (s, i) ps) (remove_entry (dir_name s i) l)
unfolding remove_entry
remove_stage ps s i l (es, names, stages) = rw (names, sym stages) (remove_names es s i)

pub sync-Lists :
    (ps : List (ℕ × ℕ)) (l : List Text) (state : State)
    → Lists ps l
    → sync state l
      ≡ ok (record {
        found = some (ints (last_of (0, 0) ps));
        _dedup_exists = state._dedup_exists || contains l (codes "@dedup");
      })
unfolding sync
sync-Lists ps l state (es, names, stages) =
    rw (names, scan-entries (0, 0) state._dedup_exists es, latest-stages_in (0, 0) es, stages) refl

-- Which entries stay.
contains-append :
    (l m : List Text) (other : Text)
    → contains (l ++ m) other ≡ (contains l other || contains m other)
unfolding contains
contains-append [] m other = refl
contains-append (x ∷ l) m other = rw (contains-append l m other) (ground arith)

pub contains_make :
    (name other : Text) (l : List Text)
    → contains l other ≡ true
    → contains (make_entry name l) other ≡ true
unfolding make_entry
contains_make name other l h = ground (arith, contains-append l (name ∷ []) other)

pub contains_made : (name : Text) (l : List Text) → contains (make_entry name l) name ≡ true
unfolding make_entry contains
contains_made name l = ground (arith, contains-append l (name ∷ []) name, text_eq_refl name)

pub contains_remove :
    (name other : Text) (l : List Text)
    → text_eq name other ≡ false
    → contains l other ≡ true
    → contains (remove_entry name l) other ≡ true
unfolding remove_entry keep contains
contains_remove name other [] ne h = h
contains_remove name other (x ∷ l) ne h = elim (Bool-cases (text_eq name x)) [
  | inl e ↦
      let same : name ≡ x = eq_of_text_eq name x e in
      let apart : text_eq other x ≡ false =
        ground (arith, text_eq_iff other x, same, text_eq_iff name other) in
      rw (e) (contains_remove name other l ne (ground arith))
  | inr e ↦ rw e (ground (arith, contains_remove name other l ne))
]
