-- ===== src/Stages/Stage1.antt =====
-- stages/stage1.py: the collection of the testcases from AFL's queue. A directory is a `Folder`. The
-- compressed image that the program under test makes from a testcase (helper/target.py `gen_img`) is an argument,
-- none where it aborts, and so is what a testcase is injected with (`tc_gen_crash_sites`), which works
-- on the image directory.
pub mod Cases
pub mod Collect
use pmfuzz.Base.{
  ℕ, Bool, true, false, not, ◌&&◌, List, [], ◌∷◌, ◌++◌, ◌≡◌, refl, if◌then◌else◌, ltb, Text, codes,
  contains, keep, Option, none, some, Result, ok, err, aborted, file_not_found, ◌>>=◌, ◌>>◌,
  abort_if, of_option,
}
use pmfuzz.Str.{replace, starts_with}
use pmfuzz.Str.Path.{basename}
use pmfuzz.NameHandler.Lineage.{clean_tc_name}
use pmfuzz.NameHandler.Metadata.{get_metadata_files}
use pmfuzz.Stages.Folder.{Folder, names, get, is_file, put, copypreserve, copy_if_there}

-- The program under test, as it is run on the content of a testcase, and the injection of failures:
-- whether it is enabled, the numbers that `randrange(100)` gives, by testcase, and what it does to the
-- image directory.
pub record Target : Type 0 where
  pub image : Text → Option Text
  pub finj_enabled : Bool
  pub randval : Text → ℕ
  pub tc_gen_crash_sites : Text → Folder → Result Folder

-- The local directories.
pub record Local : Type 0 where
  pub tc_dir : Folder
  pub img_dir : Folder

-- `_collect_map(source_name, clean_name)`: the map has to be there, the PM map need not.
unfoldable pub _collect_map : Folder → Text → Text → Folder → Result Folder
_collect_map o_tc_dir source_name clean_name tc_dir = do
  let src = codes "map_" ++ replace source_name (codes ".testcase") []
  let pm_src = codes "pm_map_" ++ replace source_name (codes ".testcase") []
  abort_if (not (is_file o_tc_dir src))
  with_map ← copypreserve src o_tc_dir (codes "map_" ++ clean_name) tc_dir
  ok (copy_if_there pm_src o_tc_dir (codes "pm_map_" ++ clean_name) with_map)

-- `gen_img(dest_dir)` of helper/target.py: the image of a testcase, compressed in the directory.
unfoldable pub gen_img : Target → Text → Text → Folder → Result Folder
gen_img target testcase_f content dest_dir = do
  img ← of_option aborted (target.image content)
  metadata ← get_metadata_files testcase_f false
  put_at ← get_metadata_files (basename metadata.pm_pool) false
  ok (put put_at.pm_cmpr_pool img dest_dir)

-- `collect_tc(source_name, clean_name)`
unfoldable pub collect_tc : Target → Folder → Text → Text → Local → Result Local
collect_tc target o_tc_dir source_name clean_name stage = do
  copied ← copypreserve source_name o_tc_dir clean_name stage.tc_dir
  mapped ← _collect_map o_tc_dir source_name clean_name copied
  content ← of_option file_not_found (get clean_name mapped)
  images ← gen_img target clean_name content stage.img_dir
  images' ←
      (if target.finj_enabled && ltb (target.randval source_name) 5
        then target.tc_gen_crash_sites source_name images
        else ok images)
  ok (record { tc_dir = mapped; img_dir = images' })

-- The loop of `collect_results`, over the cases of the queue and the cases found before.
unfoldable pub collect_each : Target → Folder → List Text → List Text → Local → Result Local
collect_each target o_tc_dir found_cases [] stage = ok stage
collect_each target o_tc_dir found_cases (gen_case ∷ gen_cases) stage = do
  clean_name ← clean_tc_name gen_case
  next ←
      (if not (contains found_cases clean_name)
        then collect_tc target o_tc_dir gen_case clean_name stage
        else ok stage)
  collect_each target o_tc_dir found_cases gen_cases next

-- `collect_results()`
unfoldable pub collect_results : Target → Folder → Local → Result Local
collect_results target o_tc_dir stage =
    collect_each target o_tc_dir (names stage.tc_dir)
      (keep (λ name. starts_with name (codes "id")) (names o_tc_dir)) stage
