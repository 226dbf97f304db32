-- ===== src/Interfaces/Afl.antt =====
-- interfaces/afl.py: the commands of AFL, and what `run_afl` starts and writes. What the programs do is
-- not part of it. A command has the values of the configuration as they are.
pub mod Laws
pub mod Minimizing
use pmfuzz.Base.{
  ℕ, zero, suc, ◌+◌, Bool, true, false, not, List, [], ◌∷◌, ◌++◌, ◌≡◌, refl, if◌then◌else◌, ◌==◌,
  ltb, Text, codes, Option, none, some, Result, ok, err, type_error, file_not_found, ◌>>=◌, ◌>>◌,
  abort_if, map, eq_ℤ, pos,
}
use pmfuzz.Str.{is_in, replace}
use pmfuzz.Str.Path.{join}
use pmfuzz.Str.Number.{str_ℕ}
use pmfuzz.NameHandler.Image.{pm_img_mrk}
use pmfuzz.Interfaces.Env.{update}
use pmfuzz.Helper.Shell.{Ending, timeout_expired, as_word, exec_shell, translate_exit_code}
use pmfuzz.Helper.Config.{
  Value, Fields, null, bool, number, float, text, list, dict, nil, cons, end, field, item, set_item,
  index, get_item, get_direct, split_kv, get_env,
}

-- Words of a command.
abbrev pub Words : Type 0
Words = List Value

abbrev pub words : List Text → Words
words = map text

-- Whether `if` takes a value for true. A float that is zero is left out.
abbrev pub is_true : Value → Bool
is_true null = false
is_true (bool b) = b
is_true (number n) = not (eq_ℤ n (pos 0))
is_true (float t) = true
is_true (text []) = false
is_true (text (c ∷ t)) = true
is_true (list nil) = false
is_true (list (cons v xs)) = true
is_true (dict end) = false
is_true (dict (field k v d)) = true

-- `os.path.join(v, name)` and `text + v` take texts only.
abbrev pub as_text : Value → Result Text
as_text v = as_word v

-- `cfg[section][key]`
abbrev pub get_in : Fields → Text → Text → Result Value
get_in cfg section key = do v ← get_item cfg section; index v key

abbrev pub fuzzer_name : Bool → ℕ → Text
fuzzer_name false coreid = codes "master_fuzzer"
fuzzer_name true coreid = codes "slave_fuzzer_" ++ str_ℕ coreid

abbrev pub afl_name : Bool → ℕ → List Text
afl_name slave coreid = (if slave then codes "-S" else codes "-M") ∷ fuzzer_name slave coreid ∷ []

-- `gen_afl_cmd`
unfoldable pub gen_afl_cmd : Text → Text → Fields → List Text → Bool → ℕ → Result (Fields × Words)
gen_afl_cmd indir outdir cfg tgtcmd slave coreid = do
  env ← get_env cfg false
  prioritize_pm_path ← get_direct cfg (codes "afl.prioritize_pm_path.enable")
  setting ← get_direct cfg (
      if is_true prioritize_pm_path
      then codes "afl.prioritize_pm_path.env.enable"
      else codes "afl.prioritize_pm_path.env.disable")
  (name, value) ← split_kv setting
  bin_dir ← get_direct cfg (codes "pmfuzz.bin_dir")
  bin ← as_text bin_dir
  tmout ← get_direct cfg (codes "target.tmout")
  mlimit ← get_direct cfg (codes "target.mlimit")
  ok (
    set_item name (text value) env,
    words (join bin (codes "afl-fuzz") ∷ codes "-i" ∷ indir ∷ codes "-o" ∷ outdir ∷ [])
        ++ (words (codes "-s" ∷ codes "1024" ∷ codes "-t" ∷ [])
            ++ (tmout ∷ text (codes "-m") ∷ mlimit ∷ []))
        ++ words (afl_name slave coreid ++ (codes "--" ∷ tgtcmd)),
  )

-- `gen_afl_tmin_cmd`
unfoldable pub gen_afl_tmin_cmd : Text → Text → Fields → List Text → Bool → Result (Fields × Words)
gen_afl_tmin_cmd indir outdir cfg tgtcmd persist_tgt = do
  env ← get_env cfg persist_tgt
  bin_dir ← get_in cfg (codes "pmfuzz") (codes "bin_dir")
  bin ← as_text bin_dir
  tmout ← get_in cfg (codes "target") (codes "tmout")
  mlimit ← get_in cfg (codes "target") (codes "mlimit")
  ok (
    env,
    words (join bin (codes "afl-tmin") ∷ codes "-i" ∷ indir ∷ codes "-o" ∷ outdir ∷ codes "-t" ∷ [])
        ++ (tmout ∷ text (codes "-m") ∷ mlimit ∷ words (codes "--" ∷ tgtcmd)),
  )

abbrev pub map_words : Fields → Option Text → Result Words
map_words cfg none = ok (words ([] ∷ [] ∷ []))
map_words cfg (some dir) = do
  cpmap ← get_direct cfg (codes "afl.cpmap")
  ok (words (codes "-M" ∷ dir ∷ codes "-c" ∷ []) ++ (cpmap ∷ []))

-- `gen_afl_cmin_cmd`, over `os.environ`. Without a directory of maps two words are empty.
unfoldable pub gen_afl_cmin_cmd :
    Fields → Text → Text → Fields → List Text → Option Text → Result (Fields × Words)
gen_afl_cmin_cmd environ indir outdir cfg tgtcmd mapdir = do
  env ← get_env cfg false
  let cur_env = update environ (set_item (codes "AFL_KEEP_TRACES") (text (codes "1")) env)
  bin ← get_direct cfg (codes "afl.cmin")
  tmout ← get_in cfg (codes "target") (codes "tmout")
  mlimit ← get_in cfg (codes "target") (codes "mlimit")
  maps ← map_words cfg mapdir
  ok (
    cur_env,
    (bin ∷ words (codes "-i" ∷ indir ∷ codes "-o" ∷ outdir ∷ codes "-t" ∷ []))
        ++ (tmout ∷ text (codes "-m") ∷ mlimit ∷ [])
        ++ maps
        ++ words (codes "--" ∷ tgtcmd),
  )

-- What `run_afl` does outside: the run of the program that makes an image, on an input unless it is
-- empty, the start of a fuzzer, and the file with its pid.
pub data Event : Type 0 where
  made_image : Fields → List Text → Option Text → Event
  started : Fields → Words → ℕ → Event
  wrote_pid : Text → Text → Event

abbrev pub stdin_of : Option Value → Result (Option Text)
stdin_of none = ok none
stdin_of (some empty_img) = do
  stdin ← index empty_img (codes "stdin")
  content ← as_text stdin
  ok (some (content ++ (10 ∷ [])))

-- `cfg['target']`, which is a dict wherever `get_env` does not fail.
abbrev pub as_target : Value → Result Fields
as_target (dict d) = ok d
as_target null = err type_error
as_target (bool b) = err type_error
as_target (number n) = err type_error
as_target (float t) = err type_error
as_target (text t) = err type_error
as_target (list xs) = err type_error

-- `gen_tgt_img`
unfoldable pub gen_tgt_img : List Text → Fields → Result Event
gen_tgt_img tgtcmd cfg = do
  env ← get_env cfg true
  v ← get_item cfg (codes "target")
  target ← as_target v
  stdin ← stdin_of (item (codes "empty_img") target)
  ok (made_image env tgtcmd stdin)

-- Every word with the marker.
abbrev pub mark_all : Text → List Text → List Text
mark_all imgname =
    map (λ word. if is_in pm_img_mrk word then replace word pm_img_mrk imgname else word)

-- What a run finds outside: the name that `mkstemp` gives to the image of a core, the pid that the
-- system gives to its fuzzer, and whether the fuzzer has made its directory when its pid is written.
pub record Outside : Type 0 where
  pub imgname : ℕ → Text
  pub pid : ℕ → ℕ
  pub is_dir : Text → Bool

abbrev pub write_pid : Outside → Text → ℕ → Result Event
write_pid outside outdir coreid =
    let dir = join outdir (fuzzer_name (not (coreid == 0)) coreid) in
    if outside.is_dir dir
    then ok (wrote_pid (join dir (codes "pid")) (str_ℕ (outside.pid coreid)))
    else err file_not_found

-- The fuzzer of one core, the image before it. Nothing is started on a dry run.
unfoldable pub run_core :
    Outside → Text → Text → List Text → Fields → Bool → Bool → ℕ → Result (List ℕ × List Event)
run_core outside indir outdir tgtcmd cfg dry_run gen_img coreid = do
  let tgtcmd_loc = mark_all (outside.imgname coreid) tgtcmd
  images ← (if gen_img then (gen_tgt_img tgtcmd_loc cfg >>= λ image. ok (image ∷ [])) else ok [])
  (env, cmd) ← gen_afl_cmd indir outdir cfg tgtcmd_loc (not (coreid == 0)) coreid
  if dry_run
      then ok ([], images)
      else (exec_shell cmd (λ timeout. timeout_expired) (outside.pid coreid) false none >>= λ pid.
          write_pid outside outdir coreid >>= λ file.
          ok
            (outside.pid coreid ∷ [], images ++ (started env cmd (outside.pid coreid) ∷ file ∷ [])))

unfoldable pub run_cores :
    Outside → Text → Text → List Text → Fields → Bool → Bool → ℕ → ℕ → Result (List ℕ × List Event)
run_cores outside indir outdir tgtcmd cfg dry_run gen_img coreid zero = ok ([], [])
run_cores outside indir outdir tgtcmd cfg dry_run gen_img coreid (suc left) = do
  (pids, events) ← run_core outside indir outdir tgtcmd cfg dry_run gen_img coreid
  (more_pids, more) ← run_cores outside indir outdir tgtcmd cfg dry_run gen_img (coreid + 1) left
  ok (pids ++ more_pids, events ++ more)

-- `run_afl`: the pids it returns, with what it did.
unfoldable pub run_afl :
    Outside → Text → Text → List Text → Fields → ℕ → Bool → Bool → Result (List ℕ × List Event)
run_afl outside indir outdir tgtcmd cfg cores dry_run gen_img =
    run_cores outside indir outdir tgtcmd cfg dry_run gen_img 0 cores

-- `run_afl_cmin`: the output directory that it returns, over how the program ends.
unfoldable pub run_afl_cmin :
    (ℕ → Option Text)
    → (Fields → Words → Ending)
    → Fields
    → Text
    → Text
    → List Text
    → Fields
    → Bool
    → Option Text
    → Result Text
run_afl_cmin signal_name call environ outdir indir tgtcmd cfg dry_run mapdir = do
  (env, cmd) ← gen_afl_cmin_cmd environ indir outdir cfg tgtcmd mapdir
  if dry_run then ok outdir else do
    exit_code ← exec_shell cmd (λ timeout. call env cmd) 0 true none
    (exit_code_descr, success) ← translate_exit_code signal_name (some exit_code)
    abort_if (not success)
    ok outdir
