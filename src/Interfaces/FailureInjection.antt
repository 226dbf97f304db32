-- ===== src/Interfaces/FailureInjection.antt =====
-- interfaces/failureinjection.py: the environment and the command of a run with injected failures, and
-- what is made of its end.
pub mod Laws
use pmfuzz.Base.{
  ℕ, Bool, true, false, not, ◌&&◌, List, [], ◌∷◌, ◌≡◌, refl, if◌then◌else◌, Text, codes, Option,
  none, some, Result, ok, err, attribute_error, file_not_found, ◌>>=◌, ◌>>◌, abort_if, map,
}
use pmfuzz.Str.{replace}
use pmfuzz.NameHandler.Image.{set_img_path}
use pmfuzz.Interfaces.Env.{update}
use pmfuzz.Interfaces.Afl.{as_text}
use pmfuzz.Helper.Shell.{Ending, exec_shell, translate_exit_code}
use pmfuzz.Helper.Config.{
  Value, Fields, null, bool, number, float, text, list, dict, end, field, set_item, get_direct,
  as_dict,
}

-- `env.update(new)` of two values; it takes what `dict(new)` takes.
abbrev pub update_value : Value → Value → Result Fields
update_value (dict env) new = do d ← as_dict new; ok (update env d)
update_value null new = err attribute_error
update_value (bool b) new = err attribute_error
update_value (number n) new = err attribute_error
update_value (float t) new = err attribute_error
update_value (text t) new = err attribute_error
update_value (list xs) new = err attribute_error

-- `get_failure_inj_env`. The configuration hands out copies, so it is not changed.
unfoldable pub get_failure_inj_env : Fields → Bool → Result Fields
get_failure_inj_env cfg create = do
  env ← get_direct cfg (codes "target.env")
  new ← get_direct cfg (
      if create
      then codes "pmfuzz.failure_injection.img_gen_mode.create_env"
      else codes "pmfuzz.failure_injection.img_gen_mode.dont_create_env")
  update_value env new

-- `gen_failure_inj_cmd`
unfoldable pub gen_failure_inj_cmd : Fields → List Text → Text → Bool → Result (Fields × List Text)
gen_failure_inj_cmd cfg tgtcmd imgpath create = do
  env ← get_failure_inj_env cfg create
  img_loc ← get_direct cfg (codes "pmfuzz.img_loc")
  loc ← as_text img_loc
  let (_, tgtcmd_loc) = set_img_path tgtcmd imgpath loc
  ok (env, tgtcmd_loc)

-- The program under test, on an environment, a command and a testcase.
abbrev pub Program : Type 0
Program = Fields → List Text → Text → Option ℕ → Ending

-- `run_failure_inj(cfg, cfg.tgtcmd, imgpath, testcase_f, clean_name, create)`, over which files are
-- there: the environment and the command of the run.
unfoldable pub run_failure_inj :
    (ℕ → Option Text)
    → Program
    → (Text → Bool)
    → Fields
    → List Text
    → Text
    → Text
    → Text
    → Bool
    → Result (Fields × List Text)
run_failure_inj signal_name program is_file cfg tgtcmd imgpath testcase_f clean_name create = do
  abort_if (not create && not (is_file imgpath))
  (inj_env, cmd) ← gen_failure_inj_cmd cfg tgtcmd imgpath create
  let suffix = text (replace clean_name (codes ".testcase") [])
  let env = set_item (codes "FI_IMG_SUFFIX") suffix inj_env
  if not (is_file testcase_f) then err file_not_found else do
    exit_code ← exec_shell (map text cmd) (program env cmd testcase_f) 0 true (some 30)
    (descr_str, success) ← translate_exit_code signal_name (some exit_code)
    abort_if (not success)
    ok (env, cmd)
