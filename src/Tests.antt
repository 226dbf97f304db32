-- ===== src/Tests.antt =====
-- The theorems about stages/state.py, helper/ptimer.py and core/pmfuzz.py at concrete inputs.
use pmfuzz.Core.Machine.Aborts.{before_abort, round_aborts}
use pmfuzz.Helper.Parallel.{
  Parallel, failure_cont, running, new_parallel, poll, alive_cnt, count_alive,
}
use pmfuzz.Helper.Parallel.Bound.{running_in, then_step, no_step, polls, running_in-cores}
use pmfuzz.Base.{
  ◌≤◌, err, aborted, file_not_found, length, ltb, if◌then◌else◌, ◌>>◌, text_eq, ℕ, true, false,
  List, [], ◌∷◌, ◌++◌, ◌≡◌, ◌⊎◌, ◌||◌, refl, codes, contains, some, ok, map, arith,
}
use pmfuzz.Stages.State.{new_state, sync}
use pmfuzz.Stages.State.Laws.{
  Entry, special, stage_dir, entry_name, Within, Holds, ints, sync_latest,
}
use pmfuzz.Str.Number.{str_ℕ}
use pmfuzz.Core.World.{World, Call}
use pmfuzz.Base.Answers.{Outcomes, answer}
use pmfuzz.Core.Machine.{Options, Answers, round, run_pmfuzz}
use pmfuzz.Core.Machine.Abstract.{idle, first, iterating, InPhase, calls_of}
use pmfuzz.Core.Machine.Runs.{all_calls, round_refines, run_pmfuzz_refines}

abbrev listing : List Entry
listing = stage_dir 2 13 ∷ special (codes "dedup") ∷ stage_dir 1 40 ∷ []

sync_latest_example :
    (p : ℕ × ℕ) × (sync new_state (map entry_name listing)
      ≡ ok (record {
        found = some (ints p);
        _dedup_exists = false || contains (map entry_name listing) (codes "@dedup");
      }))
    × Within p listing
    × (Holds p listing ⊎ (p ≡ (0, 0)))
sync_latest_example = sync_latest new_state listing

abbrev options : Options
options = record {
  global_minimize_corpus = true;
  global_minimize_tc = false;
  local_minimize_tc = false;
  disable_stage2 = false;
}

abbrev yes_yes : Answers
yes_yes = record { expired = true; completed = true }

abbrev empty_dir : World
empty_dir = record { entries = []; calls = [] }

abbrev second_dir : World
second_dir = record {
  entries = map entry_name (stage_dir 1 1 ∷ special (codes "dedup") ∷ stage_dir 2 4 ∷ []);
  calls = [];
}

second_dir-InPhase : InPhase (iterating 4) second_dir.entries
unfolding contains text_eq
second_dir-InPhase =
    (omega arith, (stage_dir 1 1 ∷ special (codes "dedup") ∷ stage_dir 2 4 ∷ [], refl, refl), refl)

-- A disk with no room for the calls behind the tenth.
abbrev no_room : Outcomes Call
no_room calls call = if ltb 10 (length calls) then err file_not_found else ok tt

-- The third round on an empty directory ends at its second call behind the tenth.
stops_there :
    answer no_room [] (all_calls options (yes_yes ∷ yes_yes ∷ yes_yes ∷ yes_yes ∷ []) idle)
    ≡ err file_not_found
unfolding answer
stops_there = refl

round_refines_example :
    (w' : World) × (round no_room options yes_yes second_dir
      ≡ (answer no_room [] (calls_of options yes_yes (iterating 4)) >> ok w'))
    × (w'.calls ≡ [] ++ calls_of options yes_yes (iterating 4))
    × InPhase (iterating 5) w'.entries
round_refines_example =
    round_refines no_room options (refl, refl) yes_yes (iterating 4) second_dir second_dir-InPhase

run_pmfuzz_refines_example :
    (w' : World) × (run_pmfuzz no_room options
        (some (codes "y"))
        []
        (yes_yes ∷ yes_yes ∷ yes_yes ∷ yes_yes ∷ [])
        empty_dir
      ≡ (answer no_room [] (all_calls options (yes_yes ∷ yes_yes ∷ yes_yes ∷ yes_yes ∷ []) idle)
          >> ok w'))
    × (w'.calls ≡ [] ++ all_calls options (yes_yes ∷ yes_yes ∷ yes_yes ∷ yes_yes ∷ []) idle)
    × InPhase (iterating 3) w'.entries
run_pmfuzz_refines_example =
    run_pmfuzz_refines no_room options (refl, refl) [] (yes_yes ∷ yes_yes ∷ yes_yes ∷ yes_yes ∷ [])
      idle empty_dir ([], refl, refl)

abbrev first_dir : World
first_dir = record { entries = codes "stage=1,iter=1" ∷ []; calls = [] }

abbrev minimizing : Options
minimizing = record {
  global_minimize_corpus = true;
  global_minimize_tc = true;
  local_minimize_tc = true;
  disable_stage2 = false;
}

round_aborts_example :
    round no_room minimizing yes_yes first_dir ≡ (answer no_room [] before_abort >> err aborted)
unfolding str_ℕ
round_aborts_example =
    round_aborts minimizing refl no_room yes_yes first first_dir tt (stage_dir 1 1 ∷ [], refl, refl)

abbrev two_cores : Parallel
two_cores = record { cores = 2; failure_mode = failure_cont; pobjs = [] }

abbrev one_runs : Parallel
one_runs = record {
  cores = 2;
  failure_mode = failure_cont;
  pobjs = record { pid = 8; status = running } ∷ [];
}

starts : poll 8 two_cores ≡ ok (true, one_runs)
unfolding poll alive_cnt count_alive
starts = refl

made : new_parallel 2 failure_cont ≡ ok two_cores
unfolding new_parallel
made = refl

running_in-cores_example : running_in one_runs.pobjs ≤ 2
running_in-cores_example = running_in-cores 2 failure_cont two_cores one_runs made (
    then_step two_cores two_cores one_runs (no_step two_cores)
      (polls 8 true two_cores one_runs starts))
