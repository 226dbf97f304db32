-- ===== src/Helper/Parallel/Waiting.antt =====
-- `wait` returns when the last process has ended.
use pmfuzz.Base.{
  ℕ, zero, suc, ◌+◌, ◌<◌, ◌≤◌, ℤ, List, [], ◌∷◌, ◌≡◌, inl, inr, ap, ◌∙◌, arith, if◌then◌else◌, ltb,
  some, Bool-cases, map,
}
use pmfuzz.Helper.Parallel.{Status, running, exited, Process, alive, wait}

-- A process with the look from which on it has ended, and its exit code.
pub record Lifetime : Type 0 where
  pub pid : ℕ
  pub end : ℕ
  pub code : ℤ

abbrev pub status_at : ℕ → Lifetime → Status
status_at now job = if ltb now job.end then running else exited job.code

-- The processes at a look.
abbrev pub processes_at : List Lifetime → ℕ → List Process
processes_at jobs now = map (λ job. record { pid = job.pid; status = status_at now job }) jobs

-- The look at which the last process has ended.
abbrev pub last_end : List Lifetime → ℕ
last_end [] = 0
last_end (job ∷ jobs) = if ltb (last_end jobs) job.end then job.end else last_end jobs

alive-processes_at :
    (jobs : List Lifetime) (now : ℕ) → alive (processes_at jobs now) ≡ ltb now (last_end jobs)
unfolding alive
alive-processes_at [] now = ground arith
alive-processes_at (job ∷ jobs) now = elim (Bool-cases (ltb now job.end)) [
  | inl e ↦ rw e (ground arith)
  | inr e ↦ rw e (alive-processes_at jobs now ∙ ground arith)
]

wait_from :
    (jobs : List Lifetime) (fuel now : ℕ)
    → now ≤ last_end jobs
    → last_end jobs < now + fuel
    → wait fuel now (processes_at jobs) ≡ some (last_end jobs)
unfolding wait
wait_from jobs zero now h k = absurd (omega arith)
wait_from jobs (suc fuel) now h k = elim (Bool-cases (ltb now (last_end jobs))) [
  | inl e ↦
      rw (alive-processes_at jobs now, e)
        (wait_from jobs fuel (now + 1) (ground arith) (omega arith))
  | inr e ↦
      let here : now ≡ last_end jobs = ground arith in
      rw (alive-processes_at jobs now, e) (ap some here)
]

-- Whatever processes a pool has, and with whatever exit codes they end: with more fuel than looks up
-- to the end of the last process, `wait` returns, and at the first look at which all have ended.
pub wait_lem :
    (jobs : List Lifetime) (fuel : ℕ)
    → last_end jobs < fuel
    → (wait fuel 0 (processes_at jobs) ≡ some (last_end jobs))
      × ((now : ℕ) → alive (processes_at jobs now) ≡ ltb now (last_end jobs))
wait_lem jobs fuel h = (wait_from jobs fuel 0 (omega arith) (omega arith), alive-processes_at jobs)
