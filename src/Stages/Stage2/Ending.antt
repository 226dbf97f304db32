-- ===== src/Stages/Stage2/Ending.antt =====
-- stages/stage2.py: when an iteration is completed, and what `kill_all` stops. The names are those of
-- the testcases of the local store.
use pmfuzz.Base.{
  ℕ, Bool, true, false, not, ◌&&◌, ◌||◌, List, [], ◌∷◌, if◌then◌else◌, Text, Result, ok, ◌>>=◌,
}
use pmfuzz.Helper.PTimer.{new_ptimer, is_new, expired}
use pmfuzz.Stages.Stage2.{Timers, keep_timer, Job, stop}

-- `completed`, with the timers as their constructor leaves them: the loop ends at the first testcase
-- that was not started or has time left.
unfoldable pub completed : ℕ → List Text → Timers → Result (Bool × Timers)
completed now [] timers = ok (true, timers)
completed now (name ∷ names) timers = do
  t ← new_ptimer true (timers name)
  let opened = keep_timer name t timers
  let rest = completed now names opened
  (if is_new t || not (expired now t) then ok (false, opened) else rest)

-- `kill_all()`: the testcases whose time has run out are stopped.
unfoldable pub kill_all : ℕ → List Text → Timers → Result (List Job × Timers)
kill_all now [] timers = ok ([], timers)
kill_all now (name ∷ names) timers = do
  t ← new_ptimer true (timers name)
  (jobs, after) ← kill_all now names (keep_timer name t timers)
  ok (if not (is_new t) && expired now t then stop name ∷ jobs else jobs, after)
