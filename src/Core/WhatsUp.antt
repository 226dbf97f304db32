-- ===== src/Core/WhatsUp.antt =====
-- core/whatsup.py: the counts of paths, over the maps of the global store and of the iteration that is
-- running. The package for bit arrays is an argument; a directory is a `Folder`.
pub mod Paths
use pmfuzz.Base.{
  ℕ, suc, ◌+◌, Bool, true, false, not, List, [], ◌∷◌, ◌≡◌, refl, if◌then◌else◌, ◌==◌, Text, codes,
  keep, Option, none, some, Result, ok, err, aborted, file_not_found, type_error, ◌>>=◌, of_option,
}
use pmfuzz.Str.{replace}
use pmfuzz.NameHandler.Patterns.{is_map, is_pm_map}
use pmfuzz.Stages.Folder.{Folder, names, get}

-- `bitarray`, `fromfile` on the content of a file, `|` and `tobytes`.
pub record BitArrays : Type 1 where
  pub Bits : Type 0
  pub fromfile : Text → Bits
  pub union : Bits → Bits → Result Bits
  pub tobytes : Bits → List ℕ

-- The loop of `get_cumulative_map`
unfoldable pub cumulate :
    (b : BitArrays) → Folder → (Text → Text) → List Text → Option b.Bits → Result (Option b.Bits)
cumulate b tcdir rename [] cumulative = ok cumulative
cumulate b tcdir rename (f ∷ fs) none = do
  content ← of_option file_not_found (get (rename f) tcdir)
  cumulate b tcdir rename fs (some (b.fromfile content))
cumulate b tcdir rename (f ∷ fs) (some cumulative) = do
  content ← of_option file_not_found (get (rename f) tcdir)
  merged ← b.union cumulative (b.fromfile content)
  cumulate b tcdir rename fs (some merged)

-- `get_cumulative_map(tcdir, filt, rename)`
unfoldable pub get_cumulative_map :
    (b : BitArrays) → Folder → (Text → Bool) → (Text → Text) → Result (Option b.Bits)
get_cumulative_map b tcdir filt rename = cumulate b tcdir rename (keep filt (names tcdir)) none

-- `combine_maps(*maps)`: the first map may not be missing where a later one is there.
unfoldable pub combine_rest :
    (b : BitArrays) → Option b.Bits → List (Option b.Bits) → Result (Option b.Bits)
combine_rest b cumulative [] = ok cumulative
combine_rest b cumulative (none ∷ maps) = combine_rest b cumulative maps
combine_rest b none (some m ∷ maps) = err type_error
combine_rest b (some cumulative) (some m ∷ maps) = do
  merged ← b.union cumulative m
  combine_rest b (some merged) maps

unfoldable pub combine_maps : (b : BitArrays) → List (Option b.Bits) → Result (Option b.Bits)
combine_maps b [] = err aborted
combine_maps b (m ∷ maps) = combine_rest b m maps

-- `count_tuples(map)`
abbrev pub count_bytes : List ℕ → ℕ
count_bytes [] = 0
count_bytes (byte ∷ bytes) = if byte == 0 then count_bytes bytes else suc (count_bytes bytes)

unfoldable pub count_tuples : (b : BitArrays) → Option b.Bits → ℕ
count_tuples b none = 0
count_tuples b (some m) = count_bytes (b.tobytes m)

-- `get_inclusive_map(…)`, over the testcases of the iteration.
unfoldable pub get_inclusive_map :
    (b : BitArrays) → ℕ → Folder → (Text → Bool) → (Text → Text) → Result (Option b.Bits)
get_inclusive_map b cur_stage testcase_d filt rename =
    if not (cur_stage == 1) then get_cumulative_map b testcase_d filt rename else ok none

unfoldable pub total :
    (b : BitArrays) → Folder → ℕ → Folder → (Text → Bool) → (Text → Text) → Result ℕ
total b dedup stage_max testcase_d filt rename = do
  stored ← get_cumulative_map b dedup filt rename
  running ← get_inclusive_map b stage_max testcase_d filt rename
  combined ← combine_maps b (stored ∷ running ∷ [])
  ok (count_tuples b combined)

-- `get_total_paths(…)` and `get_total_pm_paths(…)`, over the global store and the iteration.
unfoldable pub get_total_paths : BitArrays → Folder → ℕ → Folder → Result ℕ
get_total_paths b dedup stage_max testcase_d =
    total b dedup stage_max testcase_d is_map (λ fname. fname)

unfoldable pub get_total_pm_paths : BitArrays → Folder → ℕ → Folder → Result ℕ
get_total_pm_paths b dedup stage_max testcase_d =
    total b dedup stage_max testcase_d is_pm_map (λ fname. replace fname (codes "pm_") [])
