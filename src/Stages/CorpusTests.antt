-- ===== src/Stages/CorpusTests.antt =====
-- The theorems about the minimized corpora at small directories.
use pmfuzz.Base.{
  Bool, true, false, not, ◌&&◌, ◌||◌, List, [], ◌∷◌, ◌≡◌, refl, if◌then◌else◌, Text, codes, text_eq,
  contains, keep, map, ok, none, some, ◌>>=◌,
}
use pmfuzz.Str.Path.{basename}
use pmfuzz.NameHandler.Grammar.{Name, IsName}
use pmfuzz.NameHandler.Patterns.{is_tc, is_regex}
use pmfuzz.NameHandler.Metadata.Apart.{testcase_of, image_of, placeholder_of}
use pmfuzz.Stages.Folder.{Folder, names, get, is_file}
use pmfuzz.Stages.Update.LocalLoop.{map_of}
use pmfuzz.Stages.Corpus.{Corpus, minimize_corpus_gbl, minimize_corpus_lcl}
use pmfuzz.Stages.Corpus.Shared.{has_any}
use pmfuzz.Stages.Corpus.Local.{minimize_corpus_lcl_lem}
use pmfuzz.Stages.Corpus.NoReturn.{Sender, update_globals, update_globals-minimize_corpus_gbl}

abbrev five : Name
five = record { first = codes "5"; rest = [] }

abbrev six : Name
six = record { first = codes "6"; rest = [] }

five-IsName : IsName five
five-IsName = ((refl, tt), tt)

six-IsName : IsName six
six-IsName = ((refl, tt), tt)

abbrev store : Folder
store =
    (codes "id=5.testcase", codes "t")
    ∷ (codes "map_id=5.testcase", codes "m")
    ∷ (codes "id=6.testcase", codes "u")
    ∷ (codes "map_id=6.testcase", codes "v")
    ∷ (codes "id=5.pm_pool.tar.gz", codes "i")
    ∷ []

-- The run of afl-cmin leaves the second testcase.
abbrev leaves_six : Folder → Folder → List Text
leaves_six indir mapdir = codes "id=6.testcase" ∷ []

two_stored : keep (λ f. is_tc f false) (names store) ≡ map testcase_of (five ∷ six ∷ [])
unfolding names keep is_tc is_regex basename
two_stored = refl

map_five : get (map_of five) store ≡ some (codes "m")
unfolding get text_eq
map_five = refl

map_six : get (map_of six) store ≡ some (codes "v")
unfolding get text_eq
map_six = refl

five_stored : is_file store (testcase_of five) ≡ true
unfolding is_file get text_eq
five_stored = refl

abbrev testcases : Folder
testcases = (codes "id=5.testcase", codes "t") ∷ []

abbrev images : Folder
images = (codes "id=5.pm_pool.tar.gz", codes "i") ∷ []

one_testcase : keep (λ f. is_tc f false) (names testcases) ≡ map testcase_of (five ∷ [])
unfolding names keep is_tc is_regex basename
one_testcase = refl

no_testcase : keep (λ f. is_tc f false) (names []) ≡ map testcase_of []
unfolding names keep
no_testcase = refl

image_there : get (image_of five) images ≡ some (codes "i")
unfolding get text_eq
image_there = refl

-- A stage that still has the first testcase.
abbrev sender : Sender
sender = record {
  tc_dir = testcases;
  img_dir = images;
  ns = five ∷ [];
  listed = one_testcase;
  named = (five-IsName, tt);
  imaged = ((codes "i", image_there), tt);
}

update_globals-minimize_corpus_gbl_example :
    (corpus : Corpus) × (after : Folder) × ((minimize_corpus_gbl
          (λ i p. some (leaves_six i p))
          true
          (codes "now")
          store
        >>= update_globals (sender ∷ []))
      ≡ ok after)
    × ((f : Text) → is_file corpus.indir f ≡ (is_file store f && is_tc f false))
    × (get (testcase_of five) after ≡ (
        if contains (leaves_six corpus.indir corpus.mapdir) (testcase_of five)
        then get (testcase_of five) store
        else none))
update_globals-minimize_corpus_gbl_example =
    update_globals-minimize_corpus_gbl leaves_six (codes "now") store (five ∷ six ∷ [])
      (sender ∷ []) five two_stored (five-IsName, (six-IsName, tt))
      ((codes "m", map_five), ((codes "v", map_six), tt)) five-IsName five_stored

minimize_corpus_lcl_lem_example :
    (corpus : Corpus) × (is_dropped : Bool) × (tc_dir' : Folder) × (gbl' : Folder)
    × (minimize_corpus_lcl (λ i p. some (leaves_six i p)) (codes "now") [] testcases store
        ≡ ok (tc_dir', gbl'))
    × ((f : Text)
        → is_file corpus.indir f ≡ ((is_file [] f || is_file testcases f) && is_tc f false))
    × (is_dropped ≡ (
        is_file corpus.indir (testcase_of five)
        && not (contains (leaves_six corpus.indir corpus.mapdir) (testcase_of five))))
    × (get (testcase_of five) tc_dir'
        ≡ (if is_dropped then none else get (testcase_of five) testcases))
    × (get (testcase_of five) gbl' ≡ (if is_dropped then none else get (testcase_of five) store))
    × (get (image_of five) gbl' ≡ get (image_of five) store)
    × (is_file gbl' (placeholder_of five)
        ≡ (is_file store (placeholder_of five) || (is_dropped && has_any store five)))
minimize_corpus_lcl_lem_example =
    minimize_corpus_lcl_lem leaves_six (codes "now") [] testcases store (five ∷ []) [] five
      no_testcase one_testcase tt (five-IsName, tt) five-IsName
