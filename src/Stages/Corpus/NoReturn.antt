-- ===== src/Stages/Corpus/NoReturn.antt =====
-- A testcase that `minimize_corpus_gbl` dropped, and the calls of `update_global` that follow.
use mathlib.Core.Path.{subst}
use pmfuzz.Base.{
  Bool, true, false, not, ◌&&◌, ◌||◌, List, [], ◌∷◌, ◌≡◌, inl, inr, refl, ◌∙◌, arith, if◌then◌else◌,
  Text, contains, keep, map, All, Option, none, some, Result, ok, ◌>>=◌, Bool-cases,
}
use pmfuzz.NameHandler.Grammar.{Name, IsName}
use pmfuzz.NameHandler.Patterns.{is_tc}
use pmfuzz.NameHandler.Metadata.Apart.{testcase_of, image_of, placeholder_of}
use pmfuzz.Stages.Folder.{Folder, names, get, is_some, is_file}
use pmfuzz.Stages.Folder.Laws.{contains-names}
use pmfuzz.Stages.Update.{update_global}
use pmfuzz.Stages.Update.Sites.{Has}
use pmfuzz.Stages.Update.LocalLoop.{map_of}
use pmfuzz.Stages.Update.Keeping.{Keeps, update_global-Keeps}
use pmfuzz.Stages.Update.Global.{update_global_lem}
use pmfuzz.Stages.Corpus.{Corpus, minimize_corpus_gbl}
use pmfuzz.Stages.Corpus.Global.{minimize_corpus_gbl_lem}

-- The directories of a stage that calls `update_global`: its testcases are names, with their images.
pub record Sender : Type 0 where
  pub tc_dir : Folder
  pub img_dir : Folder
  pub ns : List Name
  pub listed : keep (λ f. is_tc f false) (names tc_dir) ≡ map testcase_of ns
  pub named : All IsName ns
  pub imaged : All (λ n. Has img_dir (image_of n)) ns

-- The stages call `update_global` one after another.
unfoldable pub update_globals : List Sender → Folder → Result Folder
update_globals [] gbl = ok gbl
update_globals (s ∷ ss) gbl = do next ← update_global s.tc_dir s.img_dir gbl; update_globals ss next

known_next :
    (tc_dir img_dir gbl next : Folder) (m : Name)
    → update_global tc_dir img_dir gbl ≡ ok next
    → (is_file gbl (testcase_of m) || is_file gbl (placeholder_of m)) ≡ true
    → (is_file next (testcase_of m) || is_file next (placeholder_of m)) ≡ true
known_next tc_dir img_dir gbl next m e h = elim (Bool-cases (is_file gbl (testcase_of m))) [
  | inl there ↦
      let kept : is_file next (testcase_of m) ≡ true =
        subst (Keeps (testcase_of m)) e
          (update_global-Keeps (testcase_of m) tc_dir img_dir gbl there) in
      rw kept refl
  | inr other ↦
      let kept : is_file next (placeholder_of m) ≡ true =
        subst (Keeps (placeholder_of m)) e
          (update_global-Keeps (placeholder_of m) tc_dir img_dir gbl (ground arith)) in
      rw kept (ground arith)
]

-- A testcase that is dropped leaves its placeholder.
known_left :
    (out was left : Bool) (old new : Option Text)
    → is_some old ≡ true
    → new ≡ (if is_some old && not out then none else old)
    → left ≡ ((is_some old && not out) || was)
    → (is_some new || left) ≡ true
known_left out was left old new h k l = ground arith

-- A testcase that the store has, or whose placeholder it has, is left as it is.
stays_known :
    (ss : List Sender) (gbl : Folder) (m : Name)
    → IsName m
    → (is_file gbl (testcase_of m) || is_file gbl (placeholder_of m)) ≡ true
    → (after : Folder) × (update_globals ss gbl ≡ ok after)
      × (get (testcase_of m) after ≡ get (testcase_of m) gbl)
unfolding update_globals
stays_known [] gbl m hm h = (gbl, refl, refl)
stays_known (s ∷ ss) gbl m hm h =
    let (next, e, t, _, _) =
      update_global_lem s.tc_dir s.img_dir gbl s.ns m s.listed s.named s.imaged hm in
    let (after, e', t') = stays_known ss next m hm (known_next s.tc_dir s.img_dir gbl next m e h) in
    (
      after,
      rw e e',
      t'
          ∙ t
          ∙ rw (contains-names gbl (testcase_of m), contains-names gbl (placeholder_of m))
              (ground arith),
    )

-- Where the testcases of the global store are names, each with its map: after `minimize_corpus_gbl`
-- with an afl-cmin that does not fail and a target that makes the temporary image, any stages may call `update_global` in any order, each with
-- testcases that are names and have their images. No call fails, and a testcase that the store had is
-- in the store at the end, as it was, if afl-cmin left it, and is not there otherwise, whichever stages
-- still have it.
pub update_globals-minimize_corpus_gbl :
    (cmin : Folder → Folder → List Text) (note : Text) (gbl : Folder) (ns : List Name)
    (ss : List Sender) (m : Name)
    → keep (λ f. is_tc f false) (names gbl) ≡ map testcase_of ns
    → All IsName ns
    → All (λ n. Has gbl (map_of n)) ns
    → IsName m
    → is_file gbl (testcase_of m) ≡ true
    → (corpus : Corpus) × (after : Folder) × ((minimize_corpus_gbl
            (λ i p. some (cmin i p))
            true
            note
            gbl
          >>= update_globals ss)
        ≡ ok after)
      × ((f : Text) → is_file corpus.indir f ≡ (is_file gbl f && is_tc f false))
      × (get (testcase_of m) after ≡ (
          if contains (cmin corpus.indir corpus.mapdir) (testcase_of m)
          then get (testcase_of m) gbl
          else none))
unfolding is_file
update_globals-minimize_corpus_gbl cmin note gbl ns ss m listed h k hm there =
    let (corpus, next, e, found, t, _, _, p) =
      minimize_corpus_gbl_lem cmin note gbl ns m listed h k hm in
    let (after, e', t') = stays_known ss next m hm (
      known_left (contains (cmin corpus.indir corpus.mapdir) (testcase_of m))
        (is_file gbl (placeholder_of m)) _ (get (testcase_of m) gbl) (get (testcase_of m) next)
        there t p) in
    (corpus, after, rw e e', found, t' ∙ t ∙ rw there (ground arith))
