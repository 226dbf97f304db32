-- ===== src/Stages/Tests.antt =====
-- The theorems about stages/dedup.py and stages/stage2.py at small stores.
use pmfuzz.Stages.Stage2.{Job, Progress, visit_all, slots}
use pmfuzz.Stages.Stage2.Slots.{starts, visit_all_lem, slots-cores}
use pmfuzz.Base.{
  ℕ, none, ◌+◌, ◌≤◌, ◌⊎◌, arith, Distinct, true, false, not, List, [], ◌∷◌, ◌++◌, ◌≡◌, refl, Text,
  codes, contains, text_eq, keep, map, All, some, ok, err, file_not_found, ◌>>◌,
}
use pmfuzz.Base.Answers.{Outcomes, answer}
use pmfuzz.Str.Path.{join, ends_with_sep, basename}
use pmfuzz.Str.Path.Laws.{IsDir, in_dir}
use pmfuzz.NameHandler.Grammar.{Name, IsName}
use pmfuzz.NameHandler.Patterns.{is_tc, is_regex}
use pmfuzz.Stages.Dedup.{by_map, engine_files, files_to_drop}
use pmfuzz.Stages.Dedup.Laws.{tc_file, engine_files_none}
use pmfuzz.Stages.Dedup.CrashSites.{files_to_drop-Distinct}

abbrev three : Name
three = record { first = codes "3"; rest = [] }

three-IsName : IsName three
three-IsName = ((refl, tt), tt)

store-IsDir : IsDir (codes "/o/@dedup")
unfolding ends_with_sep
store-IsDir = refl

-- The map comes before its testcase.
abbrev store : List Text
store = codes "map_id=3.testcase" ∷ codes "id=3.testcase" ∷ codes "notes" ∷ []

store-listed :
    keep (λ f. is_tc f false) (map (join (codes "/o/@dedup")) store)
    ≡ map (λ m. in_dir (codes "/o/@dedup") (tc_file m)) (three ∷ [])
unfolding keep is_tc is_regex join basename
store-listed = refl

engine_files_none_example : engine_files by_map (codes "/o/@dedup") store ≡ ok []
engine_files_none_example =
    engine_files_none (codes "/o/@dedup") store-IsDir by_map three [] store (three-IsName, tt)
      store-listed

abbrev sites : List Text
sites = codes "id=1.crash_site.tar.gz" ∷ codes "id=2.crash_site.tar.gz" ∷ []

abbrev same_hash : Text → Text
same_hash name = codes "2cf2"

sites-Distinct : Distinct sites
unfolding contains text_eq
sites-Distinct = (refl, (refl, tt))

files_to_drop-Distinct_example :
    (dropped : List Text) × (files_to_drop (λ name. some (codes "2cf2")) [] sites ≡ ok dropped)
    × Distinct (map same_hash (keep (λ y. not (contains dropped y)) sites))
    × All
        (λ x.
          contains (map same_hash (keep (λ y. not (contains dropped y)) sites)) (same_hash x)
          ≡ true)
        sites
files_to_drop-Distinct_example =
    files_to_drop-Distinct (λ name. some (codes "2cf2")) same_hash sites (refl, (refl, tt))
      sites-Distinct

abbrev none_yet : Progress
none_yet = record { run_count = 1; timers = (λ n. none); jobs = [] }

-- The second job fails.
abbrev full : Outcomes Job
full [] job = ok tt
full (before ∷ more) job = err file_not_found

visit_all_lem_example :
    (q : Progress) × (js : List Job) × (visit_all full 2 60 100
        (codes "id=1" ∷ codes "id=2" ∷ [])
        none_yet
      ≡ (answer full none_yet.jobs js >> ok q))
    × (q.jobs ≡ none_yet.jobs ++ js)
    × (q.run_count ≡ none_yet.run_count + starts js)
    × ((q.run_count ≡ none_yet.run_count) ⊎ (q.run_count ≤ 2))
visit_all_lem_example = visit_all_lem full 2 60 100 (codes "id=1" ∷ codes "id=2" ∷ []) none_yet

abbrev single : ℕ
single = 1

slots-cores_example :
    (((slots true single).0 + (slots true single).1) ≤ single)
    ⊎ ((true ≡ true) × (single ≡ 1) × (slots true single ≡ (1, 1)))
slots-cores_example = slots-cores true single (omega arith)
