-- ===== src/Stages/TerminatingTests.antt =====
-- The end of a run of AFL, and queues, at which the theorems on them apply.
use mathlib.Core.List.{Permᴰ}
use pmfuzz.Base.{
  pos, Bool, true, false, ◌||◌, List, [], ◌∷◌, ◌≡◌, refl, if◌then◌else◌, Text, codes, text_eq,
  contains, Distinct, keep, map, All, Option, none, some, ok,
}
use pmfuzz.Str.{starts_with, split_at, occurs}
use pmfuzz.Str.Path.{basename, dirname}
use pmfuzz.Str.Number.{int, strip, lstrip}
use pmfuzz.NameHandler.Grammar.{Name}
use pmfuzz.NameHandler.Lineage.{clean_tc_name}
use pmfuzz.NameHandler.Patterns.{is_hash_f}
use pmfuzz.NameHandler.Metadata.Apart.{testcase_of, image_of}
use pmfuzz.Stages.Folder.{Folder, names, get, is_file}
use pmfuzz.Stages.Stage1.{Target, Local}
use pmfuzz.Stages.Hashes.{is_uncmpr}
use pmfuzz.Stages.Stage2.Terminating.{Job, Terminated, _terminate_testcase}
use pmfuzz.Stages.Stage2.Terminating.Images.{IsHashed}
use pmfuzz.Stages.Stage2.Terminating.Jobs.{dest_of, written}
use pmfuzz.Stages.Stage2.Collecting.{collect_results}
use pmfuzz.Stages.Stage2.Collecting.Queues.{Run, IsRun, queue_of, run_jobs_of}
use pmfuzz.Stages.Stage2.Collecting.Orphans.{stage2_results_lem}
use pmfuzz.Stages.Stage2.Terminating.Ended.{Child, IsGoodChild, job_of, _terminate_testcase_lem}

abbrev target : Target
target = record {
  image = λ content. some (codes "img");
  finj_enabled = true;
  randval = λ g. 0;
  tc_gen_crash_sites = λ g images. ok images;
}

abbrev seven : Name
seven = record { first = codes "7"; rest = [] }

abbrev children : List Child
children =
    (codes "id:1,src:0", record { first = codes "1"; rest = [] })
    ∷ (codes "id:2,src:0", record { first = codes "2"; rest = [] })
    ∷ []

abbrev left_queue : Folder
left_queue = (codes "id:1,src:0", codes "t") ∷ (codes "id:2,src:0", codes "u") ∷ []

abbrev image_dir : Folder
image_dir = (codes "id=1.crash_site.hash", codes "2cf2") ∷ []

abbrev global_store : Folder
global_store = (image_of seven, codes "img") ∷ []

-- The second job is done first.
swap_first : List Job → List Job
swap_first [] = []
swap_first (a ∷ []) = a ∷ []
swap_first (a ∷ b ∷ jobs) = b ∷ a ∷ jobs

swap_first-Perm : (jobs : List Job) → Permᴰ (swap_first jobs) jobs
unfolding swap_first
swap_first-Perm [] = Permᴰ.nil
swap_first-Perm (a ∷ []) = Permᴰ.cons refl Permᴰ.nil
swap_first-Perm (a ∷ b ∷ jobs) = Permᴰ.swap refl refl

abbrev ended_stage : Local
ended_stage = record { tc_dir = []; img_dir = image_dir }

one_line :
    (b : Bool) (content : Text)
    → ◌≡◌ {A = Option Text} (if b then some (codes "2cf2") else none) (some content)
    → occurs b'\n' (strip content) ≡ false
unfolding occurs strip lstrip
one_line true content h = let e : content ≡ codes "2cf2" = cc in rw e refl
one_line false content h = cc

image_dir-IsHashed : IsHashed image_dir
unfolding names get contains
image_dir-IsHashed = (
  (refl, tt),
  λ f content hash there. one_line (text_eq f (codes "id=1.crash_site.hash")) content there,
)

children-IsGoodChild : All (IsGoodChild target left_queue) children
unfolding clean_tc_name split_at get text_eq basename
children-IsGoodChild = (
  (((refl, tt), tt), refl, (codes "t", codes "img", refl, refl)),
  ((((refl, tt), tt), refl, (codes "u", codes "img", refl, refl)), tt),
)

children-Distinct : Distinct (map dest_of (map (job_of left_queue seven) children))
unfolding contains text_eq basename
children-Distinct = (refl, (refl, tt))

_terminate_testcase_lem_example :
    (t : Terminated) × (_terminate_testcase target
        (λ pid. ok tt)
        swap_first
        global_store
        (codes "id=7")
        (record { pid_f = some (codes "42"); has_img_dir = true; q_dir = left_queue })
        ended_stage
        []
      ≡ ok t)
    × ((m : Name)
        → get (testcase_of m) t.stage.tc_dir
          ≡ written
              (map (job_of left_queue seven) children)
              (testcase_of m)
              (get (testcase_of m) []))
    × ((x : Text) → (is_hash_f x || is_uncmpr x) ≡ true → get x t.stage.img_dir ≡ none)
    × (t.to_dedup ≡ true)
    × (_terminate_testcase target
          (λ pid. ok tt)
          swap_first
          global_store
          (codes "id=7")
          t.run
          t.stage
          t.hash_db
        ≡ ok (record { run = t.run; stage = t.stage; hash_db = t.hash_db; to_dedup = false }))
unfolding int is_file get text_eq keep starts_with names
_terminate_testcase_lem_example =
    _terminate_testcase_lem target (λ pid. ok tt) swap_first global_store seven children
      (codes "42") (pos 42) left_queue ended_stage [] ((refl, tt), tt) refl refl refl refl
      children-IsGoodChild children-Distinct image_dir-IsHashed swap_first-Perm
      (λ g i hashed. (i, refl, hashed))

abbrev runs : List Run
runs =
    record {
      o_dir = codes "out/afl/id=7/master_fuzzer/queue";
      q_dir = left_queue;
      parent = seven;
      children = children;
    }
    ∷ []

runs-IsRun : All (IsRun target (codes "out/afl")) runs
unfolding dirname keep starts_with names
runs-IsRun = ((((refl, tt), tt), refl, refl, children-IsGoodChild), tt)

runs-Distinct : Distinct (map dest_of (run_jobs_of (codes "out/afl") runs))
unfolding contains text_eq basename
runs-Distinct = (refl, (refl, tt))

abbrev second_done : Local
second_done = record { tc_dir = (codes "id=7,id=2.testcase", codes "old") ∷ []; img_dir = [] }

stage2_results_lem_example :
    (after : Local) × (collect_results target swap_first (map queue_of runs) second_done ≡ ok after)
    × ((m : Name)
        → get (testcase_of m) after.tc_dir ≡ (
            if is_file second_done.tc_dir (testcase_of m)
            then get (testcase_of m) second_done.tc_dir
            else written (run_jobs_of (codes "out/afl") runs) (testcase_of m) none))
    × (collect_results target swap_first (map queue_of runs) after ≡ ok after)
stage2_results_lem_example =
    stage2_results_lem target swap_first (codes "out/afl") runs second_done runs-IsRun runs-Distinct
      swap_first-Perm
