-- ===== src/Stages/Stage2/Terminating.antt =====
-- stages/stage2.py: the end of the run of a testcase, `_terminate_testcase`, and what it collects,
-- `collect_tc`, up to its call of `Dedup.run`. Each process of a pool is one step, and the steps come in an
-- order that is an argument. The failure of a process ends the run. The injection of failures works on
-- the image directory and comes behind the collection.
pub mod Orders
pub mod Images
pub mod Jobs
pub mod Ended
use pmfuzz.Base.{
  ℕ, ℤ, Bool, true, false, not, ◌&&◌, List, [], ◌∷◌, ◌++◌, ◌≡◌, refl, if◌then◌else◌, ltb, Text,
  codes, keep, Option, none, some, Result, ok, err, file_not_found, value_error, ◌>>=◌, ◌>>◌,
  abort_if, of_option,
}
use pmfuzz.Str.{starts_with}
use pmfuzz.Str.Path.{basename}
use pmfuzz.Str.Number.{int}
use pmfuzz.NameHandler.Lineage.{clean_tc_name}
use pmfuzz.Stages.Folder.{Folder, names, get, is_file, put, copypreserve, copy_if_there}
use pmfuzz.Stages.Stage1.{Target, Local, gen_img}
use pmfuzz.Stages.Hashes.{clean_up_uncmpr_lcl, add_cs_hash_lcl}

-- `collect_tc(o_tc_dir, source_name, clean_name)`
unfoldable pub collect_tc : Target → Folder → Text → Text → Local → Result Local
collect_tc target o_tc_dir source_name clean_name stage = do
  let src = basename source_name
  let dest = basename clean_name
  copied ← copypreserve src o_tc_dir dest stage.tc_dir
  let mapped = copy_if_there (codes "map_" ++ src) o_tc_dir (codes "map_" ++ dest) copied
  let both = copy_if_there (codes "pm_map_" ++ src) o_tc_dir (codes "pm_map_" ++ dest) mapped
  content ← of_option file_not_found (get dest both)
  images ← gen_img target dest content stage.img_dir
  ok (record { tc_dir = both; img_dir = images })

-- A job of the pool `prl_ct`: the queue, the child in it, and its clean name.
abbrev pub Job : Type 0
Job = Folder × Text × Text

unfoldable pub run_jobs : Target → List Job → Local → Result Local
run_jobs target [] stage = ok stage
run_jobs target ((q_dir, childtc, clean_name) ∷ jobs) stage = do
  next ← collect_tc target q_dir childtc clean_name stage
  run_jobs target jobs next

-- The jobs of the loop over the queue, each behind the check of the image in the global store.
unfoldable pub jobs_of : Folder → Text → Folder → List Text → Result (List Job)
jobs_of gbl testcasename q_dir [] = ok []
jobs_of gbl testcasename q_dir (childtc ∷ children) = do
  abort_if (not (is_file gbl (testcasename ++ codes ".pm_pool.tar.gz")))
  clean ← clean_tc_name childtc
  jobs ← jobs_of gbl testcasename q_dir children
  ok ((q_dir, childtc, testcasename ++ (b',' ∷ clean)) ∷ jobs)

abbrev pub cs_gen_thresh : ℕ
cs_gen_thresh = 2

-- The jobs of the pool `prl_gen_cs`.
unfoldable pub inject : Target → List Text → Folder → Result Folder
inject target [] img_dir = ok img_dir
inject target (childtc ∷ children) img_dir = do
  next ←
      (if target.finj_enabled && ltb (target.randval childtc) cs_gen_thresh
        then target.tc_gen_crash_sites childtc img_dir
        else ok img_dir)
  inject target children next

-- What a run of AFL left: the file with its process, the directory of its image, and its queue.
pub record AflRun : Type 0 where
  pub pid_f : Option Text
  pub has_img_dir : Bool
  pub q_dir : Folder

-- The local directories with the database of crash sites, and whether `Dedup.run` is called next.
pub record Terminated : Type 0 where
  pub run : AflRun
  pub stage : Local
  pub hash_db : Folder
  pub to_dedup : Bool

-- The case of a process file. No name that starts with `id` is `.state`.
unfoldable pub terminate_running :
    Target
    → (ℤ → Result (Unit {0}))
    → (List Job → List Job)
    → Folder
    → Text
    → Text
    → AflRun
    → Local
    → Folder
    → Result Terminated
terminate_running target kill schedule gbl testcasename pid_text run stage hash_db = do
  pid ← of_option value_error (int pid_text)
  kill pid
  if run.has_img_dir then ok tt else err file_not_found
  let q_dir_contents = keep (λ f. starts_with f (codes "id")) (names run.q_dir)
  jobs ← jobs_of gbl testcasename run.q_dir q_dir_contents
  collected ← run_jobs target (schedule jobs) stage
  images ← inject target q_dir_contents collected.img_dir
  (img_dir, hash_db') ← add_cs_hash_lcl (clean_up_uncmpr_lcl images) hash_db
  ok (record {
    run = record { pid_f = none; has_img_dir = false; q_dir = run.q_dir };
    stage = record { tc_dir = collected.tc_dir; img_dir = img_dir };
    hash_db = hash_db';
    to_dedup = true;
  })

-- `_terminate_testcase(testcasename, timer)`, over `os.kill`, an order of the jobs, and the global store.
unfoldable pub _terminate_testcase :
    Target
    → (ℤ → Result (Unit {0}))
    → (List Job → List Job)
    → Folder
    → Text
    → AflRun
    → Local
    → Folder
    → Result Terminated
_terminate_testcase target kill schedule gbl testcasename run stage hash_db = elim run.pid_f [
  | none ↦ ok (record { run = run; stage = stage; hash_db = hash_db; to_dedup = false })
  | some text ↦ terminate_running target kill schedule gbl testcasename text run stage hash_db
]
