-- ===== src/NameHandler/Metadata.antt =====
-- `get_metadata_files` and the functions about extensions of name_handler.py.
pub mod Family
pub mod Apart
use pmfuzz.Base.{
  Bool, true, false, not, List, [], ◌∷◌, ◌++◌, ◌≡◌, refl, if◌then◌else◌, Text, codes, Option, none,
  some, Result, ok, err, ◌>>=◌, ◌>>◌, abort_if,
}
use pmfuzz.Str.{is_in, replace}
use pmfuzz.Str.Path.{basename, dirname, join}
use pmfuzz.NameHandler.Patterns.{ext_list, is_tc, is_regex}

-- The dict that `get_metadata_files` returns. The key 'deleted' is there only on request.
pub record MetadataFiles : Type 0 where
  pub testcase : Text
  pub clean : Text
  pub min_testcase : Text
  pub pm_map : Text
  pub map : Text
  pub deleted : Option Text
  pub crash_site : Text
  pub crash_cmpr_site : Text
  pub pm_pool : Text
  pub pm_cmpr_pool : Text

-- The chain of replacements that leads to the testcase's own name.
unfoldable pub testcase_name : Text → Text
testcase_name name =
    if is_in (codes "pm_map") name
    then replace name (codes "pm_map_") []
    else if is_in (codes "map") name
    then replace name (codes "map_") []
    else if is_in (codes ".pm_pool.tar.gz") name
    then replace name (codes ".pm_pool.tar.gz") (codes ".testcase")
    else if is_in (codes ".pm_pool") name
    then replace name (codes ".pm_pool") (codes ".testcase")
    else if is_in (codes ".crash_site.tar.gz") name
    then replace name (codes ".crash_site.tar.gz") (codes ".testcase")
    else if is_in (codes ".crash_site") name
    then replace name (codes ".crash_site") (codes ".testcase")
    else if is_in (codes ".min") name
    then replace name (codes ".min") []
    else name

abbrev pub files_of : Text → Text → Text → Bool → MetadataFiles
files_of dir base bare deleted = record {
  testcase = join dir base;
  clean = join dir bare;
  min_testcase = join dir (bare ++ codes ".min.testcase");
  pm_map = join dir (codes "pm_map_" ++ base);
  map = join dir (codes "map_" ++ base);
  deleted = if deleted then some (join dir (bare ++ codes ".deleted")) else none;
  crash_site = join dir (bare ++ codes ".crash_site");
  crash_cmpr_site = join dir (bare ++ codes ".crash_site.tar.gz");
  pm_pool = join dir (bare ++ codes ".pm_pool");
  pm_cmpr_pool = join dir (bare ++ codes ".pm_pool.tar.gz");
}

-- `get_metadata_files(testcase, deleted=…)`
unfoldable pub get_metadata_files : Text → Bool → Result MetadataFiles
get_metadata_files testcase deleted = do
  let base = testcase_name (basename testcase)
  abort_if (not (is_tc base false))
  ok (files_of (dirname testcase) base (replace base (codes ".testcase") []) deleted)

-- The first extension of the list that occurs in the name.
unfoldable pub first_ext : List Text → Text → Text
first_ext [] name = []
first_ext (ext ∷ exts) name =
    let later = first_ext exts name in if is_in ext name then codes "." ++ ext else later

-- `get_extension(testcase)`
unfoldable pub get_extension : Text → Text
get_extension testcase = first_ext ext_list (basename testcase)

-- `get_tc_min(testcase, tc_ext)`
unfoldable pub get_tc_min : Text → Text → Text
get_tc_min testcase tc_ext = replace testcase tc_ext [] ++ (codes ".min" ++ tc_ext)

-- The examples of the docstrings.
abbrev files_example : MetadataFiles
files_example = record {
  testcase = codes "/a/id=010.testcase";
  clean = codes "/a/id=010";
  min_testcase = codes "/a/id=010.min.testcase";
  pm_map = codes "/a/pm_map_id=010.testcase";
  map = codes "/a/map_id=010.testcase";
  deleted = none;
  crash_site = codes "/a/id=010.crash_site";
  crash_cmpr_site = codes "/a/id=010.crash_site.tar.gz";
  pm_pool = codes "/a/id=010.pm_pool";
  pm_cmpr_pool = codes "/a/id=010.pm_pool.tar.gz";
}

metadata_runs :
    (get_metadata_files (codes "/a/id=010.pm_pool") false ≡ ok files_example)
    × (get_extension (codes "map_id=1.id=98,id=2,id=2.testcase") ≡ codes ".testcase")
    × (get_tc_min (codes "id=010.testcase") (codes ".testcase") ≡ codes "id=010.min.testcase")
unfolding get_metadata_files testcase_name get_extension get_tc_min is_tc is_regex is_in replace
    basename dirname join first_ext
metadata_runs = (refl, refl, refl)
