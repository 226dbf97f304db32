-- ===== src/Stages/Update.antt =====
-- stages/dedup.py, `update_global` and `update_local`: how testcases and crash sites travel between
-- the directories of a stage and the global store. The files of a directory go by their names.
pub mod Sites
pub mod Files
pub mod Families
pub mod Global
pub mod LocalLoop
pub mod Local
pub mod Keeping
use pmfuzz.Base.{
  ℕ, Bool, true, false, not, ◌&&◌, ◌||◌, List, [], ◌∷◌, ◌++◌, ◌≡◌, refl, if◌then◌else◌, ◌==◌, Text,
  codes, contains, keep, map, Option, none, some, Result, ok, err, aborted, key_error, ◌>>=◌, ◌>>◌,
  abort_if, of_option,
}
use pmfuzz.Str.{replace}
use pmfuzz.Str.Path.{basename}
use pmfuzz.NameHandler.Patterns.{is_tc, is_cmpr_crash_site}
use pmfuzz.NameHandler.Metadata.{get_metadata_files}
use pmfuzz.NameHandler.Lineage.{iter_cnt}
use pmfuzz.Stages.Dedup.{global_dedup_list_tc, local_dedup_list_cs}
use pmfuzz.Stages.Folder.{Folder, names, get, is_file, put, copypreserve, copy_if_there}

-- The three directories of a stage: `tc_dir`, `img_dir` and `dedup_dir_gbl`.
-- `local_testcases_list`: every testcase has its image.
unfoldable pub pair_images : Folder → List Text → Result (List (Text × Text))
pair_images img_dir [] = ok []
pair_images img_dir (tc ∷ tcs) = do
  let imgname = replace tc (codes ".testcase") (codes ".pm_pool.tar.gz")
  abort_if (not (is_file img_dir imgname))
  rest ← pair_images img_dir tcs
  ok ((tc, imgname) ∷ rest)

unfoldable pub local_testcases_list : Folder → Folder → Result (List (Text × Text))
local_testcases_list tc_dir img_dir = pair_images img_dir (keep (λ f. is_tc f false) (names tc_dir))

-- One testcase with its maps and its image, unless the listing of the global store from the start of
-- the call has it or its placeholder.
abbrev pub copy_family : Folder → Folder → Text → Text → Folder → Result Folder
copy_family tc_dir img_dir tc img gbl = do
  g₁ ← copypreserve tc tc_dir tc gbl
  let g₂ = copy_if_there (codes "map_" ++ tc) tc_dir (codes "map_" ++ tc) g₁
  let g₃ = copy_if_there (codes "pm_map_" ++ tc) tc_dir (codes "pm_map_" ++ tc) g₂
  copypreserve img img_dir img g₃

unfoldable pub update_tcs :
    Folder → Folder → List Text → List (Text × Text) → Folder → Result Folder
update_tcs tc_dir img_dir gbl_tc_files [] gbl = ok gbl
update_tcs tc_dir img_dir gbl_tc_files ((tc, img) ∷ entries) gbl = do
  metadata ← get_metadata_files tc true
  placeholder ← of_option key_error metadata.deleted
  next ←
      (if not (contains gbl_tc_files tc) && not (contains gbl_tc_files placeholder)
        then copy_family tc_dir img_dir tc img gbl
        else ok gbl)
  update_tcs tc_dir img_dir gbl_tc_files entries next

-- The crash sites that the store does not list yet.
unfoldable pub update_cs : Folder → List Text → Folder → Result Folder
update_cs img_dir [] gbl = ok gbl
update_cs img_dir (fname ∷ fnames) gbl = do
  let should_copy = not (contains (names gbl) fname)
  next ←
      (if is_cmpr_crash_site fname && should_copy
        then copypreserve fname img_dir fname gbl
        else ok gbl)
  update_cs img_dir fnames next

-- `update_global()` on the directories `tc_dir`, `img_dir` and `dedup_dir_gbl`.
unfoldable pub update_global : Folder → Folder → Folder → Result Folder
update_global tc_dir img_dir gbl = do
  entries ← local_testcases_list tc_dir img_dir
  next ← update_tcs tc_dir img_dir (names gbl) entries gbl
  update_cs img_dir (names img_dir) next

-- `global_dedup_list_cs`
unfoldable pub global_dedup_list_cs : Folder → List Text
global_dedup_list_cs gbl = keep is_cmpr_crash_site (names gbl)

abbrev pub without_min : Text → Text
without_min f = replace f (codes ".min") []

-- One testcase with its image and its maps; the missing image aborts behind the first copy.
unfoldable pub copy_to_local : Folder → Text → Option Text → Text → Folder → Result Folder
copy_to_local gbl tc none dest loc = do l₁ ← copypreserve tc gbl (without_min dest) loc; err aborted
copy_to_local gbl tc (some img) dest loc = do
  l₁ ← copypreserve tc gbl (without_min dest) loc
  l₂ ← copypreserve img gbl (without_min (basename img)) l₁
  metadata ← get_metadata_files (basename tc) false
  l₃ ← copypreserve metadata.map gbl metadata.map l₂
  ok (copy_if_there metadata.pm_map gbl metadata.pm_map l₃)

-- The testcases of the iteration that the listing of the local store, from the start of the call, has
-- not.
unfoldable pub update_local_tcs :
    ℕ → ℕ → Folder → List Text → List (Text × Option Text) → Folder → Result Folder
update_local_tcs stage iter_id gbl loc_tc_files [] loc = ok loc
update_local_tcs stage iter_id gbl loc_tc_files ((tc, img) ∷ entries) loc = do
  let dest_name_tc = without_min (basename tc)
  abort_if (not (stage == 2))
  n ← iter_cnt (basename tc)
  next ←
      (if not (contains loc_tc_files dest_name_tc) && n == iter_id
        then copy_to_local gbl tc img dest_name_tc loc
        else ok loc)
  update_local_tcs stage iter_id gbl loc_tc_files entries next

unfoldable pub update_local_cs : Folder → List Text → Folder → Result Folder
update_local_cs gbl [] loc = ok loc
update_local_cs gbl (cs ∷ css) loc = do
  next ←
      (if not (contains (names loc) (basename cs))
        then copypreserve cs gbl (basename cs) loc
        else ok loc)
  update_local_cs gbl css next

-- `update_local()` on the directories `dedup_dir_gbl` and `dedup_dir_loc`.
unfoldable pub update_local : ℕ → ℕ → Folder → Folder → Result Folder
update_local stage iter_id gbl loc = do
  entries ← global_dedup_list_tc [] (names gbl)
  next ← update_local_tcs stage iter_id gbl (map without_min (names loc)) entries loc
  update_local_cs gbl (global_dedup_list_cs gbl) next
