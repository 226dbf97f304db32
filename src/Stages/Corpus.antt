-- ===== src/Stages/Corpus.antt =====
-- stages/dedup.py, `minimize_corpus_gbl` and `minimize_corpus_lcl`: the testcases that afl-cmin leaves
-- out are dropped from the stores. The files of a directory go by their names. What afl-cmin keeps of a
-- corpus with its maps is an argument, none where it fails; the content of a placeholder, which has
-- the time, is another.
pub mod Families
pub mod Dropping
pub mod Shared
pub mod Copies
pub mod Global
pub mod Local
pub mod NoReturn
use pmfuzz.Base.{
  Bool, true, false, not, ◌&&◌, ◌||◌, List, [], ◌∷◌, ◌++◌, ◌≡◌, refl, if◌then◌else◌, Text, codes,
  contains, keep, map, Option, none, some, Result, ok, err, aborted, key_error, file_not_found,
  ◌>>=◌, ◌>>◌, of_option,
}
use pmfuzz.Str.{ends_with}
use pmfuzz.NameHandler.Patterns.{is_tc, is_map, is_pm_map}
use pmfuzz.NameHandler.Metadata.{MetadataFiles, get_metadata_files}
use pmfuzz.Core.DedupEngine.{values}
use pmfuzz.Stages.Dedup.{global_dedup_list_tc, first_of}
use pmfuzz.Stages.Folder.{Folder, names, get, is_file, put, copypreserve, copy_if_there}
use pmfuzz.Stages.Hashes.{remove}

-- What `run_afl_cmin` leaves in its output directory, from the testcases and their maps.
abbrev pub Cmin : Type 0
Cmin = Folder → Folder → Option (List Text)

-- The temporary directories.
pub record Corpus : Type 0 where
  pub indir : Folder
  pub mapdir : Folder

abbrev pub empty_corpus : Corpus
empty_corpus = record { indir = []; mapdir = [] }

-- The testcases of the global store, each with its map, and with its PM map where there is one.
unfoldable pub copy_corpus : Folder → List Text → Corpus → Result Corpus
copy_corpus gbl [] corpus = ok corpus
copy_corpus gbl (tc ∷ tcs) corpus = do
  let map_f = codes "map_" ++ tc
  let pm_map_f = codes "pm_map_" ++ tc
  indir ← copypreserve tc gbl tc corpus.indir
  mapdir ← copypreserve map_f gbl map_f corpus.mapdir
  copy_corpus gbl tcs
      (record { indir = indir; mapdir = copy_if_there pm_map_f gbl pm_map_f mapdir })

-- The testcases that are not left.
abbrev pub dropped_files : Folder → List Text → List Text
dropped_files indir out = keep (λ f. not (contains out f)) (names indir)

-- `os.remove` of each file, where it is there.
unfoldable pub remove_each : List Text → Folder → Folder
remove_each [] dir = dir
remove_each (f ∷ fs) dir = remove_each fs (remove f dir)

abbrev pub no_archive : Text → Bool
no_archive f = not (ends_with f (codes ".tar.gz"))

-- The dropped testcases leave the global store with all their files but the archives, each for a
-- placeholder.
unfoldable pub drop_gbl : Text → List Text → Folder → Result Folder
drop_gbl note [] gbl = ok gbl
drop_gbl note (f ∷ fs) gbl = do
  metadata_files ← get_metadata_files f false
  with_deleted ← get_metadata_files f true
  placeholder_f ← of_option key_error with_deleted.deleted
  drop_gbl note fs
      (put placeholder_f note (remove_each (keep no_archive (values metadata_files)) gbl))

-- `minimize_corpus_gbl()`, over what afl-cmin does and whether the program made the temporary image,
-- which is removed at the end.
unfoldable pub minimize_corpus_gbl : Cmin → Bool → Text → Folder → Result Folder
minimize_corpus_gbl cmin made_img note gbl = do
  entries ← global_dedup_list_tc [] (names gbl)
  let tcs = keep (λ f. is_tc f false) (map first_of entries)
  corpus ← copy_corpus gbl tcs empty_corpus
  out ← of_option aborted (cmin corpus.indir corpus.mapdir)
  after ← drop_gbl note (dropped_files corpus.indir out) gbl
  if made_img then ok after else err file_not_found

-- The testcases of a directory, and its maps.
unfoldable pub add_corpus : Folder → List Text → Corpus → Result Corpus
add_corpus dir [] corpus = ok corpus
add_corpus dir (f ∷ fs) corpus = do
  indir ← (if is_tc f false then copypreserve f dir f corpus.indir else ok corpus.indir)
  let is_any_map = not (is_tc f false) && (is_map f || is_pm_map f)
  let mapdir = if is_any_map then copy_if_there f dir f corpus.mapdir else corpus.mapdir
  add_corpus dir fs (record { indir = indir; mapdir = mapdir })

-- The dropped testcases leave the directory of the stage.
unfoldable pub drop_local : List Text → Folder → Result Folder
drop_local [] tc_dir = ok tc_dir
drop_local (f ∷ fs) tc_dir = do
  metadata_files ← get_metadata_files f false
  drop_local fs (remove_each (values metadata_files) tc_dir)

-- A file leaves the global store for a placeholder, where it is there.
abbrev pub drop_type : Text → Text → Text → Folder → Folder
drop_type note placeholder_f f gbl =
    if is_file gbl f then put placeholder_f note (remove f gbl) else gbl

unfoldable pub drop_types : Text → Text → List Text → Folder → Folder
drop_types note placeholder_f [] gbl = gbl
drop_types note placeholder_f (f ∷ fs) gbl =
    drop_types note placeholder_f fs (drop_type note placeholder_f f gbl)

abbrev pub types_to_delete : MetadataFiles → List Text
types_to_delete m = m.testcase ∷ m.min_testcase ∷ m.pm_map ∷ m.map ∷ []

unfoldable pub drop_shared : Text → List Text → Folder → Result Folder
drop_shared note [] gbl = ok gbl
drop_shared note (f ∷ fs) gbl = do
  metadata_files ← get_metadata_files f false
  with_deleted ← get_metadata_files f true
  placeholder_f ← of_option key_error with_deleted.deleted
  drop_shared note fs (drop_types note placeholder_f (types_to_delete metadata_files) gbl)

-- `minimize_corpus_lcl()`, on `dedup_dir_loc`, `tc_dir` and `dedup_dir_gbl`: the last two as they are
-- left. The temporary image is there from the start.
unfoldable pub minimize_corpus_lcl :
    Cmin → Text → Folder → Folder → Folder → Result (Folder × Folder)
minimize_corpus_lcl cmin note loc tc_dir gbl = do
  shared ← add_corpus loc (names loc) empty_corpus
  corpus ← add_corpus tc_dir (names tc_dir) shared
  out ← of_option aborted (cmin corpus.indir corpus.mapdir)
  tc_dir' ← drop_local (dropped_files corpus.indir out) tc_dir
  gbl' ← drop_shared note (dropped_files corpus.indir out) gbl
  ok (tc_dir', gbl')
