-- ===== src/Helper/Parallel/Bound.antt =====
-- A pool never runs more processes than it has cores.
use mathlib.Core.Path.{subst}
use pmfuzz.Base.{
  ltb, ℕ, ◌+◌, ◌≤◌, Bool, true, false, not, ◌&&◌, ◌||◌, aborted, List, [], ◌∷◌, ◌++◌, ◌≡◌, refl,
  sym, ap, ◌∙◌, arith, if◌then◌else◌, ◌==◌, Result, ok, err, ◌>>=◌, ℤ, pos, eq_ℤ, Bool-cases, inl,
  inr,
}
use pmfuzz.Helper.Parallel.{
  Status, running, exited, Process, FailureMode, Parallel, count_alive, alive_cnt, poll,
  new_parallel, is_exit,
}

abbrev pub one_if : Status → ℕ
one_if running = 1
one_if (exited _) = 0

-- How many processes run, and which.
abbrev pub running_in : List Process → ℕ
running_in [] = 0
running_in (p ∷ ps) = one_if p.status + running_in ps

abbrev add_if : Status → Process → List Process → List Process
add_if running p ps = p ∷ ps
add_if (exited _) p ps = ps

abbrev pub running_of : List Process → List Process
running_of [] = []
running_of (p ∷ ps) = add_if p.status p (running_of ps)

-- Whether a process ended with a code that the mode does not accept.
abbrev fails : FailureMode → Status → Bool
fails mode running = false
fails mode (exited code) = is_exit mode && not (eq_ℤ code (pos 0))

abbrev pub any_fails : FailureMode → List Process → Bool
any_fails mode [] = false
any_fails mode (p ∷ ps) = fails mode p.status || any_fails mode ps

-- A process ends with any code, or `run` looks at the pool and starts its process or waits on.
pub data Step : Parallel → Parallel → Type 0 where
  ends :
      (cores : ℕ) (mode : FailureMode) (before behind : List Process) (pid : ℕ) (code : ℤ)
      → Step
          (record {
            cores = cores;
            failure_mode = mode;
            pobjs = before ++ (record { pid = pid; status = running } ∷ behind);
          })
          (record {
            cores = cores;
            failure_mode = mode;
            pobjs = before ++ (record { pid = pid; status = exited code } ∷ behind);
          })
  polls :
      (pid : ℕ) (started : Bool) (pool pool' : Parallel)
      → poll pid pool ≡ ok (started, pool')
      → Step pool pool'

pub data Steps : Parallel → Parallel → Type 0 where
  no_step : (pool : Parallel) → Steps pool pool
  then_step :
      (pool pool' pool'' : Parallel) → Steps pool pool' → Step pool' pool'' → Steps pool pool''

running_in-append : (ps qs : List Process) → running_in (ps ++ qs) ≡ running_in ps + running_in qs
running_in-append [] qs = omega arith
running_in-append (p ∷ ps) qs = omega (arith, running_in-append ps qs)

-- The count of one process.
abbrev counted :
    FailureMode → Status → Process → Result (ℕ × List Process) → Result (ℕ × List Process)
counted mode s p rest = elim s [
  | running ↦ (rest >>= λ (n, ps). ok (n + 1, p ∷ ps))
  | exited code ↦ (if is_exit mode && not (eq_ℤ code (pos 0)) then err aborted else rest)
]

counted_lem :
    (mode : FailureMode) (s : Status) (p : Process) (bad : Bool) (n : ℕ) (ps : List Process)
    → counted mode s p (if bad then err aborted else ok (n, ps))
      ≡ (if fails mode s || bad then err aborted else ok (one_if s + n, add_if s p ps))
counted_lem mode running p true n ps = refl
counted_lem mode running p false n ps = ap (λ m. ok (m, p ∷ ps)) (omega arith)
counted_lem mode (exited code) p bad n ps = ground arith

-- `count_alive` counts the processes that run and keeps them in order, unless one of the others
-- failed in a mode that does not accept it.
pub count_alive_lem :
    (mode : FailureMode) (ps : List Process)
    → count_alive mode ps
      ≡ (if any_fails mode ps then err aborted else ok (running_in ps, running_of ps))
unfolding count_alive
count_alive_lem mode [] = refl
count_alive_lem mode (p ∷ ps) =
    ap (counted mode p.status p) (count_alive_lem mode ps)
    ∙ counted_lem mode p.status p (any_fails mode ps) (running_in ps) (running_of ps)

running_in-add_if :
    (s : Status) (p : Process) (ps : List Process)
    → p.status ≡ s
    → running_in (add_if s p ps) ≡ one_if s + running_in ps
running_in-add_if running p ps e = rw e refl
running_in-add_if (exited _) p ps e = omega arith

running_in-running_of : (ps : List Process) → running_in (running_of ps) ≡ running_in ps
running_in-running_of [] = refl
running_in-running_of (p ∷ ps) =
    running_in-add_if p.status p (running_of ps) refl
    ∙ ap (λ n. one_if p.status + n) (running_in-running_of ps)

-- What `run` leaves after one look at the pool: it aborts, waits, or has started its process.
poll_lem :
    (pid : ℕ) (pool : Parallel)
    → poll pid pool ≡ (
        if any_fails pool.failure_mode pool.pobjs
        then err aborted
        else ok (
            if running_in pool.pobjs == pool.cores
            then (
              false,
              record {
                cores = pool.cores;
                failure_mode = pool.failure_mode;
                pobjs = running_of pool.pobjs;
              },
            )
            else (
              true,
              record {
                cores = pool.cores;
                failure_mode = pool.failure_mode;
                pobjs = running_of pool.pobjs ++ (record { pid = pid; status = running } ∷ []);
              },
            )))
unfolding poll alive_cnt
poll_lem pid pool = elim (Bool-cases (any_fails pool.failure_mode pool.pobjs)) [
  | inl e ↦ rw (count_alive_lem pool.failure_mode pool.pobjs, e) refl
  | inr e ↦ rw (count_alive_lem pool.failure_mode pool.pobjs, e) refl
]

-- The pool has this many cores and runs no more processes.
abbrev Fits : ℕ → Parallel → Type 0
Fits n pool = (pool.cores ≡ n) × (running_in pool.pobjs ≤ n)

abbrev FitsAfter : ℕ → Result (Bool × Parallel) → Type 0
FitsAfter n (err _) = Unit
FitsAfter n (ok (_, pool)) = Fits n pool

poll-FitsAfter : (n pid : ℕ) (pool : Parallel) → Fits n pool → FitsAfter n (poll pid pool)
poll-FitsAfter n pid pool (c, h) =
    subst (FitsAfter n) (sym (poll_lem pid pool))
      (elim (Bool-cases (any_fails pool.failure_mode pool.pobjs)) [
        | inl e ↦ rw e tt
        | inr e ↦ elim (Bool-cases (running_in pool.pobjs == pool.cores)) [
          | inl f ↦ rw (e, f) (c, rw (running_in-running_of pool.pobjs) h)
          | inr f ↦
              rw (e, f)
                (
                  c,
                  rw
                      (
                        running_in-append (running_of pool.pobjs)
                            (record { pid = pid; status = running } ∷ []),
                        running_in-running_of pool.pobjs,
                      )
                      (ground arith),
                )
        ]
      ])

Step-Fits : (n : ℕ) (pool pool' : Parallel) → Step pool pool' → Fits n pool → Fits n pool'
Step-Fits n _ _ (ends cores mode before behind pid code) (c, h) =
    let was = running_in-append before (record { pid = pid; status = running } ∷ behind) in
    let is = running_in-append before (record { pid = pid; status = exited code } ∷ behind) in
    (c, omega (arith, was, is))
Step-Fits n _ _ (polls pid started pool pool' e) k =
    subst (FitsAfter n) e (poll-FitsAfter n pid pool k)

Steps-Fits : (n : ℕ) (pool pool' : Parallel) → Steps pool pool' → Fits n pool → Fits n pool'
Steps-Fits n _ _ (no_step pool) k = k
Steps-Fits n _ _ (then_step pool pool' pool'' steps step) k =
    Step-Fits n pool' pool'' step (Steps-Fits n pool pool' steps k)

abbrev FitsNew : ℕ → Result Parallel → Type 0
FitsNew n (err _) = Unit
FitsNew n (ok pool) = Fits n pool

new_parallel-Fits : (n : ℕ) (mode : FailureMode) → FitsNew n (new_parallel n mode)
unfolding new_parallel
new_parallel-Fits n mode = elim (Bool-cases (ltb n 1)) [
  | inl e ↦ rw e tt
  | inr e ↦ rw e (refl, ground arith)
]

-- Whatever ends with whatever code and whoever asks in whatever order, a pool that was made for a
-- number of cores never runs more processes than these.
pub running_in-cores :
    (n : ℕ) (mode : FailureMode) (start pool : Parallel)
    → new_parallel n mode ≡ ok start
    → Steps start pool
    → running_in pool.pobjs ≤ n
running_in-cores n mode start pool e steps =
    (Steps-Fits n start pool steps (subst (FitsNew n) e (new_parallel-Fits n mode))).1
