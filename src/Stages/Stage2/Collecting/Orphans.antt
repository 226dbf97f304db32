-- ===== src/Stages/Stage2/Collecting/Orphans.antt =====
-- What the collection of an iteration leaves in the directory of testcases.
use mathlib.Core.List.{Permᴰ}
use pmfuzz.Base.{List, [], ◌≡◌, refl, ◌∙◌, if◌then◌else◌, Text, Distinct, keep, map, All, none, ok}
use pmfuzz.NameHandler.Grammar.{Name}
use pmfuzz.NameHandler.Metadata.Apart.{testcase_of}
use pmfuzz.Stages.Folder.{names, get, is_file}
use pmfuzz.Stages.Stage1.{Target, Local}
use pmfuzz.Stages.Stage2.Terminating.{Job, run_jobs}
use pmfuzz.Stages.Stage2.Terminating.Orders.{All-Perm, Distinct-Perm}
use pmfuzz.Stages.Stage2.Terminating.Jobs.{IsGoodJob, dest_of, written, written-Perm, run_jobs_lem}
use pmfuzz.Stages.Stage2.Collecting.{collect_results}
use pmfuzz.Stages.Stage2.Collecting.Queues.{
  Run, IsRun, queue_of, run_jobs_of, is_new, all_new_jobs-runs, runs-AllGood,
}
use pmfuzz.Stages.Stage2.Collecting.Found.{
  keep-All, dests-Distinct, keep_none, no_elements, kept_or_new, written-keep, each_written,
  all_found,
}

-- Where the queues of an iteration stand in the directories of their testcases, and the children in
-- them have distinct names and make images, the collection does not fail, in whatever order the jobs of
-- the pool come: every testcase that was there before is as it was, and every other is the child
-- with its name, if there is one. A second collection of the same queues changes nothing.
pub stage2_results_lem :
    (target : Target) (schedule : List Job → List Job) (d : Text) (rs : List Run) (stage : Local)
    → All (IsRun target d) rs
    → Distinct (map dest_of (run_jobs_of d rs))
    → ((jobs : List Job) → Permᴰ (schedule jobs) jobs)
    → (after : Local) × (collect_results target schedule (map queue_of rs) stage ≡ ok after)
      × ((m : Name)
          → get (testcase_of m) after.tc_dir ≡ (
              if is_file stage.tc_dir (testcase_of m)
              then get (testcase_of m) stage.tc_dir
              else written (run_jobs_of d rs) (testcase_of m) none))
      × (collect_results target schedule (map queue_of rs) after ≡ ok after)
unfolding collect_results run_jobs
stage2_results_lem target schedule d rs stage runs distinct order =
    let all = run_jobs_of d rs in
    let good = runs-AllGood target d rs runs in
    let new = is_new (names stage.tc_dir) in
    let fresh = dests-Distinct new all distinct in
    let (after, e, _, at) =
      run_jobs_lem target (λ i. Unit) (λ k img i h. h) (schedule (keep new all)) stage
        (All-Perm (IsGoodJob target) (order (keep new all))
          (keep-All (IsGoodJob target) new all good))
        (Distinct-Perm dest_of (order (keep new all)) fresh) tt in
    let at' : (m : Name)
        → get (testcase_of m) after.tc_dir ≡ (
            if is_file stage.tc_dir (testcase_of m)
            then get (testcase_of m) stage.tc_dir
            else written all (testcase_of m) none) =
      λ m.
        at m
        ∙ written-Perm (testcase_of m) (get (testcase_of m) stage.tc_dir) (order (keep new all))
            fresh
        ∙ written-keep (names stage.tc_dir) all (testcase_of m) (get (testcase_of m) stage.tc_dir)
        ∙ kept_or_new stage.tc_dir all (testcase_of m) in
    let none_left = keep_none (names after.tc_dir) all (
      all_found target stage.tc_dir after.tc_dir all all good (each_written target all good) at') in
    let idle : schedule [] ≡ [] = no_elements (schedule []) (All-Perm (λ j. ⊥) (order []) tt) in
    (
      after,
      rw (all_new_jobs-runs target d (names stage.tc_dir) rs runs) e,
      at',
      rw (all_new_jobs-runs target d (names after.tc_dir) rs runs, none_left, idle) refl,
    )
