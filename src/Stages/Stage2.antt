-- ===== src/Stages/Stage2.antt =====
-- stages/stage2.py: which testcases and crash sites `resume` stops and starts. What these jobs give is an
-- argument.
pub mod Slots
pub mod Ending
pub mod Terminating
pub mod EndingCs
pub mod Running
pub mod Collecting
pub mod Visits
pub mod Liveness
use pmfuzz.Base.{
  ℕ, ◌+◌, ◌/◌, Bool, true, false, not, ◌&&◌, ◌||◌, List, [], ◌∷◌, ◌++◌, ◌≡◌, refl, if◌then◌else◌,
  ◌==◌, ltb, Text, codes, text_eq, Option, none, some, Result, ok, err, ◌>>=◌, ◌>>◌, abort_if,
}
use pmfuzz.Base.Answers.{Outcomes}
use pmfuzz.Helper.PTimer.{PTimer, Countdown, new_ptimer, is_new, expired, start_new}

-- The files of the timers in the local store, by the name of the testcase or crash site.
abbrev pub Timers : Type 0
Timers = Text → Option Countdown

abbrev pub keep_timer : Text → PTimer → Timers → Timers
keep_timer name t timers n = if text_eq n name then t.file else timers n

-- `_terminate_testcase` or `_terminate_cs`, and `_run_testcase` or `_run_cs`.
pub data Job : Type 0 where
  stop start : Text → Job

-- `run_count` and what has been done so far.
pub record Progress : Type 0 where
  pub run_count : ℕ
  pub timers : Timers
  pub jobs : List Job

-- `get_run_count` for one of the two lists; `pid_exists` is psutil's answer for the process of a name.
unfoldable pub get_run_count : (Text → Bool) → ℕ → List Text → Timers → Result (ℕ × Timers)
get_run_count pid_exists now [] timers = ok (0, timers)
get_run_count pid_exists now (name ∷ names) timers = do
  t ← new_ptimer true (timers name)
  let runs = not (is_new t) && not (expired now t)
  abort_if (runs && not (pid_exists name))
  (n, after) ← get_run_count pid_exists now names (keep_timer name t timers)
  ok (if runs then n + 1 else n, after)

-- A job that fails ends the loop.
abbrev pub do_job : Outcomes Job → Job → ℕ → Timers → List Job → Result Progress
do_job outcomes job run_count timers jobs = do
  outcomes jobs job
  ok (record { run_count = run_count; timers = timers; jobs = jobs ++ (job ∷ []) })

-- What is done for a name whose timer is opened as `t`: `later` are the timers if it is started.
abbrev pub treat :
    Outcomes Job → ℕ → Bool → Bool → Text → Timers → Timers → Progress → Result Progress
treat outcomes cores fresh over name opened later p =
    if not fresh
    then (if over
        then do_job outcomes (stop name) p.run_count opened p.jobs
        else ok (record { run_count = p.run_count; timers = opened; jobs = p.jobs }))
    else if ltb p.run_count cores
    then do_job outcomes (start name) (p.run_count + 1) later p.jobs
    else ok (record { run_count = p.run_count; timers = opened; jobs = p.jobs })

-- The body of the loops of `resume`, with the number of slots.
unfoldable pub visit : Outcomes Job → ℕ → ℕ → ℕ → Text → Progress → Result Progress
visit outcomes cores tc_timeout now name p = do
  t ← new_ptimer true (p.timers name)
  let opened = keep_timer name t p.timers
  let later = keep_timer name (start_new tc_timeout now t) opened
  treat outcomes cores (is_new t) (expired now t) name opened later p

unfoldable pub visit_all : Outcomes Job → ℕ → ℕ → ℕ → List Text → Progress → Result Progress
visit_all outcomes cores tc_timeout now [] p = ok p
visit_all outcomes cores tc_timeout now (name ∷ names) p = do
  next ← visit outcomes cores tc_timeout now name p
  visit_all outcomes cores tc_timeout now names next

-- The slots for testcases and for crash sites.
unfoldable pub slots : Bool → ℕ → ℕ × ℕ
slots finj_enabled cores =
    let half = cores / 2 in
    if finj_enabled
    then (if half == 0 then 1 else half, if half == 0 then 1 else half)
    else (cores, 0)

-- `resume()` behind `update_local`, over the names of the testcases and of the crash sites that
-- `local_dedup_list_st2` and `local_dedup_list_cs_st2` select from the local store, what its jobs give, for one reading of the clock. The first two counts are for the status line.
unfoldable pub resume :
    Outcomes Job
    → Bool
    → ℕ
    → ℕ
    → ℕ
    → (Text → Bool)
    → List Text
    → List Text
    → Timers
    → Result Progress
resume outcomes finj_enabled cores tc_timeout now pid_exists tcs css timers = do
  (tc_status, t₁) ← get_run_count pid_exists now tcs timers
  (cs_status, t₂) ← get_run_count pid_exists now css t₁
  (run_count, t₃) ← get_run_count pid_exists now tcs t₂
  let (cores_tc, cores_cs) = slots finj_enabled cores
  p ←
      visit_all outcomes cores_tc tc_timeout now tcs
        (record { run_count = run_count; timers = t₃; jobs = [] })
  (if finj_enabled
      then (get_run_count pid_exists now css p.timers >>= λ (cs_count, t₄).
          visit_all outcomes cores_cs tc_timeout now css
            (record { run_count = cs_count; timers = t₄; jobs = p.jobs }))
      else ok p)
