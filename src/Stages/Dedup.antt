-- ===== src/Stages/Dedup.antt =====
-- stages/dedup.py: which files of the local and of the global store are used, and which crash sites
-- and testcases its deduplication drops.
pub mod Laws
pub mod CrashSites
use pmfuzz.Base.{
  ℕ, Bool, true, false, not, ◌&&◌, ◌||◌, List, [], ◌∷◌, ◌++◌, ◌≡◌, refl, if◌then◌else◌, ◌==◌, Text,
  codes, text_eq, contains, keep, map, Option, none, some, Result, ok, err, aborted, value_error,
  ◌>>=◌, ◌>>◌, abort_if, of_option, ℤ, pos, eq_ℤ,
}
use pmfuzz.Str.{replace, is_in, split_at, before}
use pmfuzz.Str.Number.{int}
use pmfuzz.Str.Path.{basename, join, dirname}
use pmfuzz.NameHandler.Patterns.{
  is_regex, is_tc, is_map, is_pm_map, is_cmpr_crash_site, cmpr_pm_img_ext, tc_ext,
}
use pmfuzz.NameHandler.Metadata.{get_metadata_files, testcase_name}
use pmfuzz.NameHandler.Lineage.{get_lineage, token_ids, token_id}

abbrev pub in_ids : List ℤ → ℤ → Bool
in_ids [] i = false
in_ids (j ∷ ids) i = eq_ℤ i j || in_ids ids i

-- The set difference `lineage - ids` is empty.
abbrev pub all_in : List ℤ → List ℤ → Bool
all_in ids [] = true
all_in ids (i ∷ lineage) = in_ids ids i && all_in ids lineage

-- `should_use_tc`, over `select_ids`, which is empty where the configuration has none.
unfoldable pub should_use_tc : List ℤ → Text → Result Bool
should_use_tc [] tc_p = ok true
should_use_tc (i ∷ ids) tc_p = do lineage ← get_lineage tc_p; ok (all_in (i ∷ ids) lineage)

unfoldable pub should_use_cs : List ℤ → Text → Result Bool
should_use_cs ids tc_p = should_use_tc ids (replace tc_p cmpr_pm_img_ext tc_ext)

-- A testcase with its image, where the directory has it.
abbrev pub with_image : List Text → Text → Text → Text × Option Text
with_image files tc img = (tc, if contains files img then some img else none)

-- `local_dedup_list`, over the listing of the local store.
unfoldable pub local_dedup_list : List Text → List (Text × Option Text)
local_dedup_list files =
    map (λ tc. with_image files tc (replace tc (codes ".testcase") (codes ".pm_pool")))
      (keep (λ f. is_tc f true) files)

-- The entries that a test which may fail lets pass, in order.
unfoldable pub select {ℓ} : {A : Type ℓ} → (A → Result Bool) → List A → Result (List A)
select test [] = ok []
select test (x ∷ xs) = do
  use_it ← test x
  rest ← select test xs
  ok (if use_it then x ∷ rest else rest)

unfoldable pub local_dedup_list_st2 : List ℤ → List Text → Result (List (Text × Option Text))
local_dedup_list_st2 ids files = select (λ (tc, _). should_use_tc ids tc) (local_dedup_list files)

-- `local_dedup_list_cs` and its selection for stage 2, over the path and the listing of the store.
unfoldable pub local_dedup_list_cs : Text → List Text → List Text
local_dedup_list_cs dir files = keep is_cmpr_crash_site (map (join dir) files)

unfoldable pub local_dedup_list_cs_st2 : List ℤ → Text → List Text → Result (List Text)
local_dedup_list_cs_st2 ids dir files = select (should_use_cs ids) (local_dedup_list_cs dir files)

-- `global_dedup_list_tc`, over the path and the listing of the global store.
unfoldable pub with_images : List Text → List Text → Result (List (Text × Option Text))
with_images files [] = ok []
with_images files (tc ∷ tcs) = do
  metadata ← get_metadata_files tc false
  rest ← with_images files tcs
  ok (with_image files tc metadata.pm_cmpr_pool ∷ rest)

unfoldable pub global_dedup_list_tc : Text → List Text → Result (List (Text × Option Text))
global_dedup_list_tc dir files =
    let paths = map (join dir) files in with_images paths (keep (λ f. is_tc f false) paths)

-- What `pmfuzz.stage.dedup.global.fdedup` names.
pub data FileDedup : Type 0 where
  by_pm_map by_map other : FileDedup

abbrev pub first_of : Text × Option Text → Text
first_of (tc, _) = tc

abbrev pub checked : FileDedup → List Text → List Text
checked by_pm_map paths = keep is_pm_map paths
checked by_map paths = keep is_map paths
checked other paths = []

-- The file deduplication of `_deduplicate_gbl`: the files that its `DedupEngine` compares, which are
-- those of the list that the engine's checker lets pass. An empty list cannot be unpacked.
abbrev pub unpacked : FileDedup → List (Text × Option Text) → Result (List Text)
unpacked fdedup [] = err value_error
unpacked fdedup (entry ∷ entries) = ok (checked fdedup (map first_of (entry ∷ entries)))

unfoldable pub engine_files : FileDedup → Text → List Text → Result (List Text)
engine_files fdedup dir files = do entries ← global_dedup_list_tc dir files; unpacked fdedup entries

-- The loop of `deduplicate_crash_sites_lcl`: the names whose hash was seen before. The hash is that
-- of the database of crash sites, which has to have it.
unfoldable pub files_to_drop : (Text → Option Text) → List Text → List Text → Result (List Text)
files_to_drop db hash_seen [] = ok []
files_to_drop db hash_seen (name ∷ names) = do
  hash_v ← of_option aborted (db (replace name (codes ".tar.gz") []))
  let seen = contains hash_seen hash_v
  rest ← files_to_drop db (if seen then hash_seen else hash_v ∷ hash_seen) names
  ok (if seen then name ∷ rest else rest)

-- `deduplicate_crash_sites_lcl`: the listing of the image directory afterwards.
unfoldable pub deduplicate_crash_sites_lcl :
    (Text → Option Text) → Text → List Text → Result (List Text)
deduplicate_crash_sites_lcl db img_dir files = do
  dropped ← files_to_drop db [] (map basename (keep is_cmpr_crash_site (map (join img_dir) files)))
  ok (keep (λ f. not (contains dropped f)) files)

dedup_runs :
    (should_use_tc (pos 3 ∷ pos 4 ∷ []) (codes "id=3,id=5.testcase") ≡ ok false)
    × (local_dedup_list
          (codes "id=1.testcase" ∷ codes "id=1.pm_pool" ∷ codes "map_id=1.testcase" ∷ [])
        ≡ (codes "id=1.testcase", some (codes "id=1.pm_pool")) ∷ [])
    × (deduplicate_crash_sites_lcl
          (λ c. some (codes "h"))
          (codes "/d")
          (codes "id=1.crash_site.tar.gz" ∷ codes "id=1.hash" ∷ codes "id=2.crash_site.tar.gz" ∷ [])
        ≡ ok (codes "id=1.crash_site.tar.gz" ∷ codes "id=1.hash" ∷ []))
unfolding should_use_tc local_dedup_list deduplicate_crash_sites_lcl get_lineage get_metadata_files
    is_tc is_regex testcase_name is_in token_ids split_at join dirname replace token_id before int
    keep contains text_eq is_cmpr_crash_site files_to_drop basename
dedup_runs = (refl, refl, refl)
