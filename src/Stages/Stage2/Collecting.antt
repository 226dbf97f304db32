-- ===== src/Stages/Stage2/Collecting.antt =====
-- stages/stage2.py, `collect_results`: what earlier runs of the program left in AFL's directories of the
-- iteration. The jobs of the pool come in an order that is an argument.
pub mod Queues
pub mod Found
pub mod Orphans
use pmfuzz.Base.{
  Bool, true, false, not, List, [], ◌∷◌, ◌++◌, ◌≡◌, if◌then◌else◌, Text, codes, contains, keep, map,
  Option, Result, ok, err, ◌>>=◌,
}
use pmfuzz.Str.{starts_with}
use pmfuzz.Str.Path.{basename, dirname, join}
use pmfuzz.NameHandler.Lineage.{clean_tc_name}
use pmfuzz.Stages.Folder.{Folder, names}
use pmfuzz.Stages.Stage1.{Target, Local}
use pmfuzz.Stages.Stage2.Terminating.{Job, run_jobs}

-- `get_o_tc_dirs()`, over the listing of `afl_dir`
unfoldable pub get_o_tc_dirs : Text → List Text → List Text
get_o_tc_dirs afl_dir o_tc_dirs =
    map (λ name. join (join (join afl_dir name) (codes "master_fuzzer")) (codes "queue")) o_tc_dirs

-- The jobs for the cases of one queue.
unfoldable pub new_jobs : List Text → Text → Folder → List Text → Result (List Job)
new_jobs found_cases o_dir q_dir [] = ok []
new_jobs found_cases o_dir q_dir (gen_case ∷ gen_cases) = do
  let parent_name = dirname (dirname o_dir) ++ codes ","
  clean ← clean_tc_name gen_case
  jobs ← new_jobs found_cases o_dir q_dir gen_cases
  ok (
      if not (contains found_cases (basename (parent_name ++ clean)))
      then (q_dir, gen_case, parent_name ++ clean) ∷ jobs
      else jobs)

-- The jobs for all queues, each with its path.
unfoldable pub all_new_jobs : List Text → List (Text × Folder) → Result (List Job)
all_new_jobs found_cases [] = ok []
all_new_jobs found_cases ((o_dir, q_dir) ∷ o_dirs) = do
  jobs ←
      new_jobs found_cases o_dir q_dir (keep (λ name. starts_with name (codes "id")) (names q_dir))
  rest ← all_new_jobs found_cases o_dirs
  ok (jobs ++ rest)

-- `collect_results()`
unfoldable pub collect_results :
    Target → (List Job → List Job) → List (Text × Folder) → Local → Result Local
collect_results target schedule o_dirs stage = do
  jobs ← all_new_jobs (names stage.tc_dir) o_dirs
  run_jobs target (schedule jobs) stage
