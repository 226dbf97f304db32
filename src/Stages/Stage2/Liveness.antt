-- ===== src/Stages/Stage2/Liveness.antt =====
-- Every testcase of an iteration gets its turn.
use pmfuzz.Base.{
  ℕ, ◌+◌, ◌≤◌, ◌<◌, Bool, true, false, not, ◌&&◌, ◌||◌, List, [], ◌∷◌, ◌≡◌, ◌⊎◌, inl, inr, refl,
  arith, length, Text, Result, ok, ◌>>=◌, Bool-cases, map, ℤ, codes, ◌++◌,
}
use pmfuzz.Base.Answers.{Outcomes}
use pmfuzz.Stages.Dedup.{select, should_use_tc}
use pmfuzz.Helper.PTimer.{new_ptimer, is_new, expired}
use pmfuzz.Stages.Stage2.{Timers, keep_timer, Job, stop, resume}
use pmfuzz.Stages.Stage2.Ending.{completed, kill_all}
use pmfuzz.Stages.Stage2.Visits.{state_at, fresh, timer_of}

-- Each timer that was started has run out behind the bound.
abbrev pub RunsOut : ℕ → Timers → Type 0
RunsOut bound timers =
    (x : Text)
    → (fresh timers x ≡ true) ⊎ ((state_at timers x).start + (state_at timers x).length ≤ bound)

-- The names of the testcases of `local_dedup_list_st2`, from those of the local store.
unfoldable pub selected : List ℤ → List Text → Result (List Text)
selected select_ids = select (λ name. should_use_tc select_ids (name ++ codes ".testcase"))

-- The sessions of a fuzzing run without failure injection: one `resume` at each of the times, on the
-- testcases that are selected from the local store, and on crash sites.
unfoldable pub sessions :
    Outcomes Job
    → List ℤ
    → ℕ
    → ℕ
    → (Text → Bool)
    → List Text
    → List Text
    → List ℕ
    → Timers
    → Result Timers
sessions outcomes select_ids cores tc_timeout pid_exists tcs css [] timers = ok timers
sessions outcomes select_ids cores tc_timeout pid_exists tcs css (now ∷ nows) timers = do
  chosen ← selected select_ids tcs
  p ← resume outcomes false cores tc_timeout now pid_exists chosen css timers
  sessions outcomes select_ids cores tc_timeout pid_exists tcs css nows p.timers

-- The times lie behind a bound, each further behind the one before than a testcase runs.
abbrev pub IsSpaced : ℕ → ℕ → List ℕ → ℕ → Type 0
IsSpaced tc_timeout bound [] later = bound < later
IsSpaced tc_timeout bound (now ∷ nows) later =
    (bound < now) × IsSpaced tc_timeout (now + tc_timeout) nows later

-- Of a completed iteration, `kill_all` stops every testcase.
pub kill_all-completed :
    (now : ℕ) (names : List Text) (timers after : Timers)
    → completed now names timers ≡ ok (true, after)
    → kill_all now names timers ≡ ok (map stop names, after)
unfolding completed kill_all new_ptimer
kill_all-completed now [] timers after h = ground arith
kill_all-completed now (name ∷ names) timers after h =
    let t = timer_of timers name in
    elim (Bool-cases (is_new t || not (expired now t))) [
      | inl e ↦ absurd (halted (rw e at h))
      | inr e ↦
          let rest = kill_all-completed now names (keep_timer name t timers) after (rw e at h) in
          let over : (not (is_new t) && expired now t) ≡ true = ground arith in rw (rest, over) refl
    ]
  where
    halted : {b : Timers} → ◌≡◌ {A = Result (Bool × Timers)} (ok (false, b)) (ok (true, after)) → ⊥
    halted e = cc
