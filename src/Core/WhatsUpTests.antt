-- ===== src/Core/WhatsUpTests.antt =====
-- Maps at which the theorem on the counts of paths applies. A bit array is its list of bytes here.
use pmfuzz.Base.{
  ℕ, suc, zero, true, not, ◌||◌, List, [], ◌∷◌, ◌≡◌, refl, ap, arith, if◌then◌else◌, ◌==◌, codes,
  text_eq, length, keep, All, ok, err, value_error,
}
use pmfuzz.NameHandler.Patterns.{is_map}
use pmfuzz.Stages.Folder.{Folder, names, get}
use pmfuzz.Core.WhatsUp.{BitArrays, get_total_paths}
use pmfuzz.Core.WhatsUp.Paths.{hit, count_below, HasUnion, HasMap, any_hits, get_total_paths_lem}

-- Two bytes, of which the hits matter.
abbrev either : ℕ → ℕ → ℕ
either x y = if x == 0 then y else x

abbrev merge : List ℕ → List ℕ → List ℕ
merge [] ys = []
merge (x ∷ xs) [] = x ∷ xs
merge (x ∷ xs) (y ∷ ys) = either x y ∷ merge xs ys

abbrev bytes : BitArrays
bytes = record {
  Bits = List ℕ;
  fromfile = λ content. content;
  union = λ x y. if length x == length y then ok (merge x y) else err value_error;
  tobytes = λ x. x;
}

either_hit : (x y : ℕ) → not (either x y == 0) ≡ (not (x == 0) || not (y == 0))
either_hit x y = ground arith

length-merge : (x y : List ℕ) → length (merge x y) ≡ length x
length-merge [] ys = refl
length-merge (x ∷ xs) [] = refl
length-merge (x ∷ xs) (y ∷ ys) = ap suc (length-merge xs ys)

hit-merge :
    (x y : List ℕ) → length x ≡ length y → (i : ℕ) → hit i (merge x y) ≡ (hit i x || hit i y)
hit-merge [] [] h i = refl
hit-merge [] (y ∷ ys) h i = ground arith
hit-merge (x ∷ xs) [] h i = ground arith
hit-merge (x ∷ xs) (y ∷ ys) h zero = either_hit x y
hit-merge (x ∷ xs) (y ∷ ys) h (suc i) = hit-merge xs ys (ground arith) i

bytes-HasUnion : HasUnion bytes
bytes-HasUnion x y h =
    let same : (length x == length y) ≡ true = ground arith in
    (merge x y, rw same refl, length-merge x y, hit-merge x y h)

abbrev dedup_store : Folder
dedup_store =
    (codes "map_id=1.testcase", 1 ∷ 0 ∷ 0 ∷ []) ∷ (codes "map_id=2.testcase", 2 ∷ 0 ∷ 3 ∷ []) ∷ []

abbrev running_store : Folder
running_store = (codes "map_id=3.testcase", 0 ∷ 5 ∷ 0 ∷ []) ∷ []

maps_listed :
    keep is_map (names dedup_store) ≡ codes "map_id=1.testcase" ∷ codes "map_id=2.testcase" ∷ []
unfolding keep is_map names pmfuzz.NameHandler.Patterns.is_regex pmfuzz.Str.Path.basename
maps_listed = refl

maps-HasMap :
    All
      (HasMap bytes dedup_store (λ fname. fname) 3)
      (codes "map_id=1.testcase" ∷ codes "map_id=2.testcase" ∷ [])
unfolding get text_eq
maps-HasMap = ((1 ∷ 0 ∷ 0 ∷ [], refl, refl), ((2 ∷ 0 ∷ 3 ∷ [], refl, refl), tt))

running-HasMap :
    All (HasMap bytes running_store (λ fname. fname) 3) (keep is_map (names running_store))
unfolding keep is_map names get text_eq pmfuzz.NameHandler.Patterns.is_regex
    pmfuzz.Str.Path.basename
running-HasMap = ((0 ∷ 5 ∷ 0 ∷ [], refl, refl), tt)

get_total_paths_lem_example :
    get_total_paths bytes dedup_store 2 running_store
    ≡ ok (
        count_below 3 (λ i.
          any_hits bytes dedup_store
            (λ fname. fname)
            (codes "map_id=1.testcase" ∷ codes "map_id=2.testcase" ∷ [])
            i
          || any_hits bytes running_store (λ fname. fname) (keep is_map (names running_store)) i))
get_total_paths_lem_example =
    get_total_paths_lem bytes bytes-HasUnion 3 dedup_store running_store 2
      (codes "map_id=1.testcase") (codes "map_id=2.testcase" ∷ []) maps_listed maps-HasMap
      running-HasMap
