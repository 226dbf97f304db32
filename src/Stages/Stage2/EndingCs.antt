-- ===== src/Stages/Stage2/EndingCs.antt =====
-- stages/stage2.py, `_terminate_cs`: the end of the run of a crash site, up to its call of `Dedup.run`.
-- It collects as `_terminate_testcase` does, and then runs the engine over the maps of the stage.
pub mod Laws
pub mod Prefix
use pmfuzz.Base.{
  ℤ, text_eq, Bool, true, false, not, List, [], ◌∷◌, ◌++◌, ◌≡◌, refl, if◌then◌else◌, Text, codes,
  keep, map, Option, none, some, Result, ok, err, aborted, value_error, ◌>>=◌, ◌>>◌, abort_if,
  of_option,
}
use pmfuzz.Str.{starts_with}
use pmfuzz.Str.Path.{basename, join}
use pmfuzz.Str.Number.{int}
use pmfuzz.NameHandler.Patterns.{is_map}
use pmfuzz.NameHandler.Lineage.{clean_tc_name}
use pmfuzz.NameHandler.Image.{Get, get_parent_img}
use pmfuzz.Core.DedupEngine.{Files, run}
use pmfuzz.Stages.Folder.{Folder, names, get}
use pmfuzz.Stages.Stage1.{Target, Local}
use pmfuzz.Stages.Hashes.{clean_up_uncmpr_lcl, add_cs_hash_lcl}
use pmfuzz.Stages.Stage2.Terminating.{Job, run_jobs, inject}

-- What a run on a crash site left: the file with its process, the listing of `img_loc`, where its image
-- stands in a directory, and its queue.
pub record CsRun : Type 0 where
  pub pid_f : Option Text
  pub img_loc : List Text
  pub q_dir : Folder

-- `glob(imgpm + '*')` in `img_loc`; no name has a special character.
abbrev pub dir2del : Text → List Text → List Text
dir2del csname img_loc = keep (λ d. starts_with d (codes "pmfuzz-cs-run-" ++ csname)) img_loc

-- There is exactly one directory to remove.
abbrev pub one_match : List Text → Result Text
one_match [] = err aborted
one_match (dir ∷ []) = ok dir
one_match (dir ∷ dir' ∷ dirs) = err aborted

-- The jobs of the loop over the queue, each behind the look for an image of the crash site in the global
-- store, over the test whether a file is there.
unfoldable pub cs_jobs_of : (Text → Bool) → Text → Text → Folder → List Text → Result (List Job)
cs_jobs_of is_file gbl_dir csname q_dir [] = ok []
cs_jobs_of is_file gbl_dir csname q_dir (childtc ∷ children) = do
  exp_img_path ← get_parent_img is_file (csname ++ codes ".testcase") gbl_dir Get.exists true
  abort_if (not (is_file exp_img_path))
  clean ← clean_tc_name childtc
  jobs ← cs_jobs_of is_file gbl_dir csname q_dir children
  ok ((q_dir, childtc, csname ++ (b',' ∷ clean)) ∷ jobs)

-- The files of a directory by path.
unfoldable pub files_in : Text → Folder → Files
files_in dir [] p = none
files_in dir ((name, content) ∷ files) p =
    let later = files_in dir files p in if text_eq p (join dir name) then some content else later

-- The run, the directory of testcases by path behind the engine, the images, the database of crash
-- sites, and whether `Dedup.run` is called next.
pub record CsTerminated : Type 0 where
  pub run : CsRun
  pub files : Files
  pub img_dir : Folder
  pub hash_db : Folder
  pub to_dedup : Bool

-- What the end does outside: the digest of the engine and the text of its placeholders, `os.kill`, an
-- order of the jobs, and which files are there.
pub record Outside : Type 0 where
  pub sha256 : Text → Text
  pub note : Text
  pub kill : ℤ → Result (Unit {0})
  pub schedule : List Job → List Job
  pub is_file : Text → Bool

-- The case of a process file.
unfoldable pub terminate_cs_running :
    Target → Outside → Text → Text → Text → Text → CsRun → Local → Folder → Result CsTerminated
terminate_cs_running target outside gbl_dir tc_path csname pid_text run_left stage hash_db = do
  pid ← of_option value_error (int pid_text)
  outside.kill pid
  dir ← one_match (dir2del csname run_left.img_loc)
  let img_loc = keep (λ d. not (text_eq d dir)) run_left.img_loc
  let q_dir_contents = keep (λ f. starts_with f (codes "id")) (names run_left.q_dir)
  jobs ← cs_jobs_of outside.is_file gbl_dir csname run_left.q_dir q_dir_contents
  collected ← run_jobs target (outside.schedule jobs) stage
  images ← inject target q_dir_contents collected.img_dir
  (img_dir, hash_db') ← add_cs_hash_lcl (clean_up_uncmpr_lcl images) hash_db
  files ←
      run outside.sha256 outside.note is_map (map (join tc_path) (names collected.tc_dir))
        (files_in tc_path collected.tc_dir)
  ok (record {
    run = record { pid_f = none; img_loc = img_loc; q_dir = run_left.q_dir };
    files = files;
    img_dir = img_dir;
    hash_db = hash_db';
    to_dedup = true;
  })

-- `_terminate_cs(csname, timer)`, over the paths of the global store and of the directory of testcases.
unfoldable pub _terminate_cs :
    Target → Outside → Text → Text → Text → CsRun → Local → Folder → Result CsTerminated
_terminate_cs target outside gbl_dir tc_path csname run_left stage hash_db = elim run_left.pid_f [
  | none ↦ ok (record {
    run = run_left;
    files = files_in tc_path stage.tc_dir;
    img_dir = stage.img_dir;
    hash_db = hash_db;
    to_dedup = false;
  })
  | some pid_text ↦
      terminate_cs_running target outside gbl_dir tc_path csname pid_text run_left stage hash_db
]
