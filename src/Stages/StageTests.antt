-- ===== src/Stages/StageTests.antt =====
-- The theorems about the stages' loops at small directories and timers.
use pmfuzz.Base.{
  false, List, [], ◌∷◌, ◌≡◌, refl, if◌then◌else◌, Text, codes, text_eq, contains, keep, map, none,
  some, ok, All, Distinct,
}
use pmfuzz.Str.{starts_with, replace, split_at, occurs}
use pmfuzz.Str.Number.{strip, lstrip}
use pmfuzz.NameHandler.Grammar.{Name}
use pmfuzz.NameHandler.Lineage.{clean_tc_name}
use pmfuzz.NameHandler.Metadata.Apart.{testcase_of}
use pmfuzz.NameHandler.Patterns.{is_hash_f}
use pmfuzz.Helper.PTimer.{PTimer}
use pmfuzz.Stages.Folder.{Folder, names, get, is_file}
use pmfuzz.Stages.Hashes.{add_cs_hash_lcl}
use pmfuzz.Stages.Hashes.Laws.{HoldsHash, last_hash, add_cs_hash_lcl_lem}
use pmfuzz.Stages.Stage1.{Target, Local, collect_results}
use pmfuzz.Stages.Stage1.Cases.{Case, IsGood, last_case, or_else}
use pmfuzz.Stages.Stage1.Collect.{collect_results_lem}
use pmfuzz.Stages.Stage2.{Timers}

abbrev no_timers : Timers
no_timers n = none

abbrev two_cases : List Text
two_cases = codes "id=1" ∷ codes "id=2" ∷ []

abbrev run_out : Timers
run_out n = some (record { start = 3; length = 10 })

abbrev opened : PTimer
opened = record {
  state = record { start = 3; length = 10 };
  file = some (record { start = 3; length = 10 });
}

abbrev target : Target
target = record {
  image = λ content. some (codes "img");
  finj_enabled = false;
  randval = λ g. 0;
  tc_gen_crash_sites = λ g images. ok images;
}

abbrev queue : Folder
queue = (codes "id:7,src:0", codes "t") ∷ (codes "map_id:7,src:0", codes "m") ∷ []

abbrev seven : Name
seven = record { first = codes "7"; rest = [] }

abbrev cases : List Case
cases = (codes "id:7,src:0", seven) ∷ []

abbrev empty_stage : Local
empty_stage = record { tc_dir = []; img_dir = [] }

cases_of_queue :
    keep (λ name. starts_with name (codes "id")) (names queue) ≡ map (λ (g, n). g) cases
unfolding keep starts_with names
cases_of_queue = refl

cases-IsGood : All (IsGood target queue) cases
unfolding clean_tc_name split_at get text_eq replace
cases-IsGood =
    ((((refl, tt), tt), refl, (codes "t", codes "img", refl, refl), (codes "m", refl)), tt)

collect_results_lem_example :
    (after : Local) × (collect_results target queue empty_stage ≡ ok after)
    × ((m : Name)
        → get (testcase_of m) after.tc_dir ≡ (
            if is_file empty_stage.tc_dir (testcase_of m)
            then get (testcase_of m) empty_stage.tc_dir
            else last_case queue (testcase_of m) cases))
    × (collect_results target queue after ≡ ok after)
collect_results_lem_example =
    collect_results_lem target queue (λ g images. (images, refl)) cases empty_stage cases_of_queue
      cases-IsGood

abbrev hashed : Folder
hashed = (codes "id=1.crash_site.hash", codes "2cf2") ∷ (codes "id=1.pm_pool", codes "x") ∷ []

hashed-Distinct : Distinct (names hashed)
unfolding names text_eq contains
hashed-Distinct = (refl, (refl, tt))

hashed-HoldsHash : All (HoldsHash hashed) (keep is_hash_f (names hashed))
unfolding names keep is_hash_f get text_eq strip occurs lstrip
hashed-HoldsHash = ((codes "2cf2", refl, refl), tt)

add_cs_hash_lcl_lem_example :
    (img' : Folder) × (db' : Folder) × (add_cs_hash_lcl hashed [] ≡ ok (img', db'))
    × ((x : Text) → get x img' ≡ (if is_hash_f x then none else get x hashed))
    × ((k : Text)
        → get k db' ≡ or_else (last_hash hashed k (keep is_hash_f (names hashed))) (get k []))
add_cs_hash_lcl_lem_example = add_cs_hash_lcl_lem hashed [] hashed-Distinct hashed-HoldsHash
