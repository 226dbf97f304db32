-- ===== src/Core/Machine.antt =====
-- core/pmfuzz.py: the state machine over the stages. What the calls of the stages and of deduplication give
-- is an argument; a call that fails ends the run.
pub mod Listing
pub mod Calls
pub mod Abstract
pub mod Tracing
pub mod Phases
pub mod Runs
pub mod Aborts
use pmfuzz.Base.{
  ℕ, Bool, true, false, not, ◌&&◌, ◌||◌, List, [], ◌∷◌, ◌++◌, ◌≡◌, refl, if◌then◌else◌, Text, codes,
  Option, none, some, Result, ok, err, aborted, ◌>>=◌, ◌>>◌, abort_if, ℤ, pos, ltb_ℤ, eq_ℤ, succ_ℤ,
}
use pmfuzz.Base.Answers.{Outcomes}
use pmfuzz.Helper.Ask.{ask_yn}
use pmfuzz.Stages.State.{State, new_state, sync, stage, iter_id}
use pmfuzz.Core.World.{
  Call, stage1_run, stage1_whatsup, stage1_collect, update_global, timer_start_new, dedup_run,
  stage2_run, stage2_resume, stage2_terminate, DedupArgs, World, emit, makedirs, new_stage1,
  new_dedup, new_stage2, stage2_clear_dirs, run_steps,
}

-- `pmfuzz.stage.dedup.global.minimize_corpus` and `….minimize_tc`, `pmfuzz.stage.dedup.local.minimize_tc`,
-- and `disable_stage2`.
pub record Options : Type 0 where
  pub global_minimize_corpus : Bool
  pub global_minimize_tc : Bool
  pub local_minimize_tc : Bool
  pub disable_stage2 : Bool

-- What the clock and the running fuzzers answer in one round: whether the timer of stage 1 has
-- expired, and whether the iteration of stage 2 is completed.
pub record Answers : Type 0 where
  pub expired : Bool
  pub completed : Bool

unfoldable pub run_stage1 : Outcomes Call → World → Result World
run_stage1 outcomes w = do
  w₁ ← new_stage1 w
  w₂ ← emit outcomes stage1_run w₁
  emit outcomes stage1_whatsup w₂

unfoldable pub run_dedup : Outcomes Call → ℤ → ℤ → DedupArgs → World → Result World
run_dedup outcomes s i args w = do w₁ ← new_dedup s i w; run_steps outcomes s i args w₁

-- The stage and the iteration that a new `State` finds.
unfoldable pub find_stage : World → Result (ℤ × ℤ)
find_stage w = do state ← sync new_state w.entries; s ← stage state; i ← iter_id state; ok (s, i)

-- A completed iteration is terminated, deduplicated and cleared, and the next one is run.
unfoldable pub advance : Outcomes Call → Options → ℤ → ℤ → World → Result World
advance outcomes o s i w = do
  w₁ ← emit outcomes (stage2_terminate s i) w
  w₂ ←
      run_dedup outcomes s i
        (record {
          fdedup = true;
          min_corpus = o.global_minimize_corpus;
          min_tc = o.global_minimize_tc;
          gbl = true;
        })
        w₁
  w₃ ← stage2_clear_dirs outcomes s i w₂
  w₄ ← new_stage2 s (succ_ℤ i) w₃
  emit outcomes (stage2_run s (succ_ℤ i)) w₄

unfoldable pub run_stage2 : Outcomes Call → Options → Bool → World → Result World
run_stage2 outcomes o completed w = do
  (s, i) ← find_stage w
  (if eq_ℤ s (pos 1)
      then (new_stage2 (pos 2) (pos 1) w >>= λ w₁. emit outcomes (stage2_run (pos 2) (pos 1)) w₁)
      else (new_stage2 s i w >>= λ w₁.
          if completed then advance outcomes o s i w₁ else emit outcomes (stage2_resume s i) w₁))

abbrev pub no_steps : DedupArgs
no_steps = record { fdedup = false; min_corpus = false; min_tc = false; gbl = false }

abbrev pub local_steps : Options → DedupArgs
local_steps o = record {
  fdedup = false;
  min_corpus = false;
  min_tc = o.local_minimize_tc;
  gbl = false;
}

abbrev pub corpus_steps : DedupArgs
corpus_steps = record { fdedup = false; min_corpus = true; min_tc = false; gbl = true }

unfoldable pub collect_stage1 : Outcomes Call → Options → World → Result World
collect_stage1 outcomes o w = do
  w₁ ← new_stage1 w
  w₂ ← run_dedup outcomes (pos 1) (pos 1) no_steps w₁
  w₂' ← emit outcomes stage1_collect w₂
  w₃ ← new_dedup (pos 1) (pos 1) w₂'
  w₄ ← run_steps outcomes (pos 1) (pos 1) (local_steps o) w₃
  w₅ ← emit outcomes update_global w₄
  (if o.disable_stage2 then run_steps outcomes (pos 1) (pos 1) corpus_steps w₅ else ok w₅)

-- STAGE1_WAITTIME
abbrev pub stage1_waittime : ℕ
stage1_waittime = 5

-- One round of the loop of `run_pmfuzz`, which a `sleep` ends.
unfoldable pub round : Outcomes Call → Options → Answers → World → Result World
round outcomes o a w = do
  (s, i) ← find_stage w
  w₁ ← (if not (eq_ℤ s (pos 0)) then collect_stage1 outcomes o w else ok w)
  (if eq_ℤ s (pos 0)
      then (run_stage1 outcomes w₁ >>= λ w₂. emit outcomes (timer_start_new stage1_waittime) w₂)
      else if eq_ℤ s (pos 1) && not o.disable_stage2
      then (if a.expired then run_stage2 outcomes o a.completed w₁ else ok w₁)
      else if eq_ℤ s (pos 2) && not o.disable_stage2
      then run_stage2 outcomes o a.completed w₁
      else if not o.disable_stage2
      then err aborted
      else ok w₁)

unfoldable pub rounds : Outcomes Call → Options → List Answers → World → Result World
rounds outcomes o [] w = ok w
rounds outcomes o (a ∷ answers) w = do w₁ ← round outcomes o a w; rounds outcomes o answers w₁

-- What `run_pmfuzz` does in front of the loop: `@info`, the check of the saved state, and the
-- question whether to resume it.
unfoldable pub begin : Option Text → List Text → World → Result World
begin force_yes lines w = do
  let w₁ = makedirs (codes "@info") w
  state ← sync new_state w₁.entries
  s ← stage state
  abort_if (ltb_ℤ (pos 1) s && not state._dedup_exists)
  resp ← (if not (eq_ℤ s (pos 1)) && not (eq_ℤ s (pos 0)) then ask_yn force_yes lines else ok true)
  abort_if (not resp)
  ok w₁

-- `run_pmfuzz` for as many rounds as there are answers.
unfoldable pub run_pmfuzz :
    Outcomes Call → Options → Option Text → List Text → List Answers → World → Result World
run_pmfuzz outcomes o force_yes lines answers w = do
  w₁ ← begin force_yes lines w
  rounds outcomes o answers w₁
