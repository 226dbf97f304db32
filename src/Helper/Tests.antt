-- ===== src/Helper/Tests.antt =====
-- Inputs at which the theorems on the helpers apply.
use pmfuzz.Base.{
  arith, ℕ, pos, negsuc, Bool, true, false, List, [], ◌∷◌, ◌++◌, ◌≡◌, refl, if◌then◌else◌, ltb,
  ◌==◌, Text, codes, text_eq, Option, none, some, Result, ok, err, ◌>>=◌,
}
use pmfuzz.Str.{occurs}
use pmfuzz.Helper.Config.{
  Value, Items, Fields, number, text, list, dict, nil, cons, end, field, item, Repl, translate,
  constr_path_repl, subs_path, check, get_item, walk, get_direct, get_env,
}
use pmfuzz.Helper.Config.Keys.{IsPlain, translated, check-subs_path}
use pmfuzz.Helper.Parallel.{alive, wait}
use pmfuzz.Helper.Parallel.Waiting.{Lifetime, processes_at, last_end, wait_lem}
use pmfuzz.Helper.Shell.{Ending, exited, timeout_expired, check_crash_site}
use pmfuzz.Helper.Shell.Laws.{run_and_tell, told, run_and_tell_lem, check_crash_site_lem}

abbrev env : Fields
env = field (codes "PMEM_NO_FLUSH") (text (codes "1")) end

abbrev target : Fields
target = field (codes "cmd") (text (codes "%BIN%/mapcli")) (
    field (codes "env") (dict env) (
      field (codes "args") (list (cons (text (codes "%ROOT%")) (cons (dict env) nil))) (
        field (codes "persist_enable_env") (text (codes "PMEM_IS_PMEM_FORCE=1"))
          (field (codes "persist_disable_env") (text (codes "PMEM_IS_PMEM_FORCE=0")) end))))

abbrev cfg : Fields
cfg = field (codes "version") (number (pos 2)) (field (codes "target") (dict target) end)

cfg-IsPlain : IsPlain cfg
unfolding IsPlain
cfg-IsPlain = _

check-subs_path_example :
    (subs_path (constr_path_repl (codes "/pm")) cfg
      ≡ ok (translated (constr_path_repl (codes "/pm")) cfg))
    × (check cfg (translated (constr_path_repl (codes "/pm")) cfg) ≡ check cfg cfg)
check-subs_path_example = check-subs_path (constr_path_repl (codes "/pm")) cfg cfg cfg-IsPlain

config_runs :
    (get_direct cfg (codes "target.env.PMEM_NO_FLUSH") ≡ ok (text (codes "1")))
    × (check cfg cfg ≡ ok _)
unfolding get_direct get_item walk check item text_eq pmfuzz.Str.split_at pmfuzz.Helper.Config.index
    pmfuzz.Helper.Config.flatten_from pmfuzz.Helper.Config.update_flat pmfuzz.Helper.Config.put_flat
    pmfuzz.Base.contains
config_runs = (refl, refl)

abbrev signal_name : ℕ → Option Text
signal_name n = if n == 11 then some (codes "SIGSEGV") else none

-- A program that takes two seconds to run into a bad access.
abbrev two_seconds : Option ℕ → Ending
two_seconds none = exited (negsuc 10)
two_seconds (some timeout) = if ltb timeout 2 then timeout_expired else exited (negsuc 10)

abbrev tester : List Text
tester = codes "mapcli" ∷ codes "check" ∷ []

run_and_tell_lem_example :
    ((run_and_tell signal_name tester two_seconds (some 0) >>= λ (descr, success). ok success)
      ≡ told signal_name (two_seconds (some 1)))
    × (¬ (
        run_and_tell signal_name tester two_seconds (some 0)
        ≡ ok (codes "Process timed out", true)))
run_and_tell_lem_example = run_and_tell_lem signal_name tester two_seconds (some 0)

check_crash_site_lem_example :
    check_crash_site signal_name (codes "mapcli") tester two_seconds ≡ ok true
unfolding text_eq
check_crash_site_lem_example =
    check_crash_site_lem signal_name (codes "mapcli") tester two_seconds false refl refl

-- The process that fails is the last one to end, and no one notices.
abbrev jobs : List Lifetime
jobs = record { pid = 7; end = 2; code = pos 0 } ∷ record { pid = 8; end = 5; code = negsuc 8 } ∷ []

wait_lem_example :
    (wait 6 0 (processes_at jobs) ≡ some (last_end jobs))
    × ((now : ℕ) → alive (processes_at jobs now) ≡ ltb now (last_end jobs))
wait_lem_example = wait_lem jobs 6 (omega arith)
