-- ===== src/Interfaces/Tests.antt =====
-- The theorems about the commands at a small configuration.
use pmfuzz.Base.{
  ℕ, true, false, ◌||◌, List, [], ◌≡◌, refl, if◌then◌else◌, Text, codes, text_eq, pos, Option, none,
  some, ok, err, aborted, ◌>>=◌,
}
use pmfuzz.Str.{replace, split_at}
use pmfuzz.NameHandler.Image.{set_img_path}
use pmfuzz.Helper.Config.{Fields, text, dict, item, index, get_item, walk, get_direct}
use pmfuzz.Helper.Shell.{Ending, exited}
use pmfuzz.Helper.Shell.Laws.{told}
use pmfuzz.Interfaces.Env.{or_else}
use pmfuzz.Interfaces.Afl.{Words}
use pmfuzz.Interfaces.FailureInjection.{Program, run_failure_inj}
use pmfuzz.Interfaces.FailureInjection.Laws.{run_failure_inj_lem}
use pmfuzz.Interfaces.Sample.{env, no_create, cfg, no_create-Once, command}

-- A program that exits with 0.
abbrev runs : Fields → Words → Ending
runs e cmd = exited (pos 0)

abbrev no_name : ℕ → Option Text
no_name n = none

injected :
    (get_direct cfg (codes "target.env") ≡ ok (dict env))
    × (get_direct cfg (codes "pmfuzz.failure_injection.img_gen_mode.dont_create_env")
        ≡ ok (dict no_create))
    × (get_direct cfg (codes "pmfuzz.img_loc") ≡ ok (text (codes "/mnt")))
unfolding get_direct get_item item index walk split_at text_eq
injected = (refl, refl, refl)

abbrev program : Program
program e cmd testcase_f timeout = exited (pos 0)

run_failure_inj_lem_example :
    (run_env : Fields) × (cmd : List Text) × (run_failure_inj no_name program
        (λ p. true)
        cfg
        command
        (codes "/mnt/i")
        (codes "/tc")
        (codes "id=5.testcase")
        false
      ≡ (if false || true
          then (told no_name (program run_env cmd (codes "/tc") (some 30)) >>= λ success.
              if success then ok (run_env, cmd) else err aborted)
          else err aborted))
    × (cmd ≡ (set_img_path command (codes "/mnt/i") (codes "/mnt")).1)
    × ((k : Text)
        → item k run_env ≡ (
            if text_eq k (codes "FI_IMG_SUFFIX")
            then some (text (replace (codes "id=5.testcase") (codes ".testcase") []))
            else or_else (item k no_create) (item k env)))
run_failure_inj_lem_example =
    run_failure_inj_lem no_name program (λ p. true) cfg command (codes "/mnt/i") (codes "/tc")
      (codes "id=5.testcase") false env no_create (codes "/mnt") injected.0 injected.1
      no_create-Once injected.2 refl
