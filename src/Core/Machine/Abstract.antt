-- ===== src/Core/Machine/Abstract.antt =====
-- The machine with three phases that core/pmfuzz.py implements: its phases, what is listed in each,
-- the next phase, and the calls of a round.
use pmfuzz.Base.{
  ℕ, suc, ◌≤◌, true, false, not, ◌&&◌, List, [], ◌∷◌, ◌++◌, ◌≡◌, if◌then◌else◌, Text, codes,
  contains, pos,
}
use pmfuzz.Core.World.{
  Call, stage1_run, stage1_whatsup, stage1_collect, update_global, timer_start_new, dedup_run,
  stage2_run, stage2_resume, stage2_terminate, stage2_clear,
}
use pmfuzz.Core.Machine.{Options, Answers, no_steps, local_steps, corpus_steps, stage1_waittime}
use pmfuzz.Core.Machine.Listing.{Lists}
use pmfuzz.Core.Machine.Calls.{one, two}

-- No stage, stage 1, or an iteration of stage 2.
pub data Phase : Type 0 where
  idle first : Phase
  iterating : ℕ → Phase

abbrev pub dirs_of : Phase → List (ℕ × ℕ)
dirs_of idle = []
dirs_of first = one
dirs_of (iterating k) = two k

-- The stages that are listed are those of the phase; stage 2 has deduplicated before it.
abbrev pub InPhase : Phase → List Text → Type 0
InPhase idle l = Lists [] l
InPhase first l = Lists one l
InPhase (iterating k) l = (1 ≤ k) × Lists (two k) l × (contains l (codes "@dedup") ≡ true)

-- Stage 1 starts at once, stage 2 once the timer of stage 1 has expired, and the next iteration of
-- it once this one is completed.
abbrev pub next_phase : Options → Answers → Phase → Phase
next_phase o a idle = first
next_phase o a first = if not o.disable_stage2 && a.expired then iterating 1 else first
next_phase o a (iterating k) =
    if not o.disable_stage2 && a.completed then iterating (suc k) else iterating k

-- The calls that collect the results of stage 1.
abbrev pub collecting : Options → List Call
collecting o =
    dedup_run (pos 1) (pos 1) no_steps
    ∷ stage1_collect
    ∷ dedup_run (pos 1) (pos 1) (local_steps o)
    ∷ update_global
    ∷ (if o.disable_stage2 then dedup_run (pos 1) (pos 1) corpus_steps ∷ [] else [])

-- The calls that end an iteration and run the next.
abbrev pub advancing : Options → ℕ → List Call
advancing o k =
    stage2_terminate (pos 2) (pos k)
    ∷ dedup_run (pos 2) (pos k) (record {
      fdedup = true;
      min_corpus = o.global_minimize_corpus;
      min_tc = o.global_minimize_tc;
      gbl = true;
    })
    ∷ stage2_clear (pos 2) (pos k)
    ∷ stage2_run (pos 2) (pos (suc k))
    ∷ []

-- All the calls of a round.
abbrev pub calls_of : Options → Answers → Phase → List Call
calls_of o a idle = stage1_run ∷ stage1_whatsup ∷ timer_start_new stage1_waittime ∷ []
calls_of o a first =
    collecting o
    ++ (if not o.disable_stage2 && a.expired then stage2_run (pos 2) (pos 1) ∷ [] else [])
calls_of o a (iterating k) =
    collecting o
    ++ (if o.disable_stage2
        then []
        else if a.completed
        then advancing o k
        else stage2_resume (pos 2) (pos k) ∷ [])

-- With these options the steps of deduplication do not abort.
abbrev pub Implemented : Options → Type 0
Implemented o = (o.local_minimize_tc ≡ false) × (o.global_minimize_tc ≡ false)
