-- ===== src/Core/Tests.antt =====
-- The theorems about core/dedupengine.py at three testcases.
use pmfuzz.Base.{List, [], ◌∷◌, ◌≡◌, refl, Text, codes, text_eq, some, keep, ok, map}
use pmfuzz.Str.Path.{basename, ends_with_sep}
use pmfuzz.NameHandler.Grammar.{comma}
use pmfuzz.NameHandler.Patterns.{is_regex, is_map}
use pmfuzz.Core.DedupEngine.{Files, run}
use pmfuzz.NameHandler.Metadata.Family.{Kind}
use pmfuzz.Core.DedupEngine.Deleting.{path_of, Found, IsFound}
use pmfuzz.Core.DedupEngine.Store.{IsDeleted}
use pmfuzz.Core.DedupEngine.Members.{AllButOldest}
use pmfuzz.Core.DedupEngine.WholeRun.{run_lem}

abbrev contents : Files
contents p = some (codes "data")

abbrev found : Found
found = record { dir = codes "/g"; name = record { first = codes "1"; rest = [] }; kind = Kind.map }

found-IsFound : IsFound found
unfolding ends_with_sep
found-IsFound = (refl, ((refl, tt), tt))

abbrev found_child : Found
found_child = record {
  dir = codes "/g";
  name = record { first = codes "1"; rest = comma (codes "2") ∷ [] };
  kind = Kind.map;
}

found_child-IsFound : IsFound found_child
unfolding ends_with_sep
found_child-IsFound = (refl, ((refl, tt), ((refl, tt), tt)))

abbrev listed : List Text
listed =
    codes "/g/id=1.testcase" ∷ codes "/g/map_id=1,id=2.testcase" ∷ codes "/g/map_id=1.testcase" ∷ []

maps_of_listed : keep is_map listed ≡ map path_of (found_child ∷ found ∷ [])
unfolding is_map is_regex basename keep
maps_of_listed = refl

run_lem_example :
    (after : Files) × (dropped : List Found) × (run
        (λ c. c)
        (codes "Deleted")
        is_map
        listed
        contents
      ≡ ok after)
    × IsDeleted (codes "Deleted") dropped contents after
    × ((key : Text)
        → AllButOldest
            (keep (λ t. text_eq key (codes "data")) (map path_of (found_child ∷ found ∷ [])))
            (keep (λ t. text_eq key (codes "data")) (map path_of dropped)))
run_lem_example =
    run_lem (λ t. codes "data") (λ c. c) (codes "Deleted") is_map listed contents
      (found_child ∷ found ∷ []) maps_of_listed (found_child-IsFound, (found-IsFound, tt))
      ((codes "data", refl, refl), ((codes "data", refl, refl), tt))
