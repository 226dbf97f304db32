-- ===== src/Helper/Parallel.antt =====
-- helper/parallel.py: a pool of processes of a bounded size.
pub mod Bound
pub mod Waiting
use pmfuzz.Base.{
  ℕ, zero, suc, ◌+◌, Option, none, some, Bool, true, false, not, ◌&&◌, List, [], ◌∷◌, ◌++◌, ◌≡◌,
  refl, if◌then◌else◌, ◌==◌, ltb, Result, ok, err, aborted, ◌>>=◌, ◌>>◌, abort_if, ℤ, pos, negsuc,
  eq_ℤ,
}

-- What a process is at: it runs, or it has ended with an exit code.
pub data Status : Type 0 where
  running : Status
  exited : ℤ → Status

pub record Process : Type 0 where
  pub pid : ℕ
  pub status : Status

-- FAILURE_EXIT and FAILURE_CONT
pub data FailureMode : Type 0 where
  failure_exit failure_cont : FailureMode

-- The attributes that change or decide: `cores`, `failure_mode` and `pobjs`.
pub record Parallel : Type 0 where
  pub cores : ℕ
  pub failure_mode : FailureMode
  pub pobjs : List Process

-- `Parallel(func, cores, …)`
unfoldable pub new_parallel : ℕ → FailureMode → Result Parallel
new_parallel cores mode = do
  abort_if (ltb cores 1)
  ok (record { cores = cores; failure_mode = mode; pobjs = [] })

abbrev pub is_exit : FailureMode → Bool
is_exit failure_exit = true
is_exit failure_cont = false

-- The loop of `alive_cnt`: how many processes run, and the processes with the ended ones deleted.
unfoldable pub count_alive : FailureMode → List Process → Result (ℕ × List Process)
count_alive mode [] = ok (0, [])
count_alive mode (p ∷ ps) = elim p.status [
  | running ↦ (count_alive mode ps >>= λ (n, rest). ok (n + 1, p ∷ rest))
  | exited code ↦
      (if is_exit mode && not (eq_ℤ code (pos 0)) then err aborted else count_alive mode ps)
]

-- `alive_cnt()`
unfoldable pub alive_cnt : Parallel → Result (ℕ × Parallel)
alive_cnt pool = do
  (n, rest) ← count_alive pool.failure_mode pool.pobjs
  ok (n, record { cores = pool.cores; failure_mode = pool.failure_mode; pobjs = rest })

-- One evaluation of the condition of the loop of `run`, and what is behind the loop where it fails:
-- whether the new process has been started.
unfoldable pub poll : ℕ → Parallel → Result (Bool × Parallel)
poll pid pool = do
  (n, pool₁) ← alive_cnt pool
  let started : Process = record { pid = pid; status = running }
  ok (
      if n == pool.cores then (false, pool₁) else (
        true,
        record {
          cores = pool.cores;
          failure_mode = pool.failure_mode;
          pobjs = pool₁.pobjs ++ (started ∷ []);
        },
      ))

-- `alive`
unfoldable pub alive : List Process → Bool
alive [] = false
alive (p ∷ ps) = elim p.status [ running ↦ true | exited _ ↦ alive ps ]

-- The loop of `wait()`, over what each look at the pool finds, on fuel: the look at which it returns.
unfoldable pub wait : ℕ → ℕ → (ℕ → List Process) → Option ℕ
wait zero now pobjs = none
wait (suc fuel) now pobjs =
    let later = wait fuel (now + 1) pobjs in if alive (pobjs now) then later else some now

abbrev done : Process
done = record { pid = 1; status = exited (pos 0) }

abbrev failed : Process
failed = record { pid = 2; status = exited (negsuc 8) }

pool_runs :
    (count_alive failure_exit (done ∷ failed ∷ []) ≡ err aborted)
    × (count_alive failure_cont (done ∷ failed ∷ []) ≡ ok (0, []))
    × (alive (done ∷ failed ∷ []) ≡ false)
unfolding count_alive alive
pool_runs = (refl, refl, refl)
