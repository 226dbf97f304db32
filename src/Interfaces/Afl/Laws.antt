-- ===== src/Interfaces/Afl/Laws.antt =====
-- What `run_afl` starts and writes, and when `run_afl_cmin` does not abort.
use pmfuzz.Base.{
  ℕ, zero, suc, ◌+◌, true, false, not, List, [], ◌∷◌, ◌≡◌, if◌then◌else◌, ◌==◌, Text, codes, Option,
  some, ok,
}
use pmfuzz.Str.Path.{join}
use pmfuzz.Str.Number.{str_ℕ}
use pmfuzz.Helper.Config.{Value, Fields, text, dict, item, set_item, get_direct, split_kv, get_env}
use pmfuzz.Interfaces.Afl.{
  Words, words, is_true, fuzzer_name, Event, made_image, started, wrote_pid, stdin_of, mark_all,
  Outside,
}

-- A configuration with all that the commands take from it; the limits are texts.
pub record Ready (cfg : Fields) : Type 0 where
  pub env : Fields
  pub env_is : get_env cfg false ≡ ok env
  pub image_env : Fields
  pub image_env_is : get_env cfg true ≡ ok image_env
  pub target : Fields
  pub target_is : item (codes "target") cfg ≡ some (dict target)
  pub stdin : Option Text
  pub stdin_is : stdin_of (item (codes "empty_img") target) ≡ ok stdin
  pub prioritize : Value
  pub prioritize_is : get_direct cfg (codes "afl.prioritize_pm_path.enable") ≡ ok prioritize
  pub setting : Value
  pub setting_is :
      get_direct cfg (
        if is_true prioritize
        then codes "afl.prioritize_pm_path.env.enable"
        else codes "afl.prioritize_pm_path.env.disable")
      ≡ ok setting
  pub name : Text
  pub value : Text
  pub split_is : split_kv setting ≡ ok (name, value)
  pub bin : Text
  pub bin_is : get_direct cfg (codes "pmfuzz.bin_dir") ≡ ok (text bin)
  pub tmout : Text
  pub tmout_is : get_direct cfg (codes "target.tmout") ≡ ok (text tmout)
  pub mlimit : Text
  pub mlimit_is : get_direct cfg (codes "target.mlimit") ≡ ok (text mlimit)

-- The name of the fuzzer of a core.
abbrev pub name_of : ℕ → Text
name_of coreid = fuzzer_name (not (coreid == 0)) coreid

abbrev pub upto : ℕ → ℕ → List ℕ
upto coreid zero = []
upto coreid (suc left) = coreid ∷ upto (coreid + 1) left

-- The fuzzers that were started, with their pids, and the files with pids that were written.
unfoldable pub starts : List Event → List (Fields × Words × ℕ)
starts [] = []
starts (made_image env tgtcmd stdin ∷ events) = starts events
starts (started env cmd pid ∷ events) = (env, cmd, pid) ∷ starts events
starts (wrote_pid file content ∷ events) = starts events

unfoldable pub pid_files : List Event → List (Text × Text)
pid_files [] = []
pid_files (made_image env tgtcmd stdin ∷ events) = pid_files events
pid_files (started env cmd pid ∷ events) = pid_files events
pid_files (wrote_pid file content ∷ events) = (file, content) ∷ pid_files events

module _ (outside : Outside) (indir outdir : Text) (tgtcmd : List Text) (cfg : Fields)
    (r : Ready cfg) where
  -- The environment and the command of the fuzzer of a core.
  abbrev pub fuzz_env : Fields
  fuzz_env = set_item r.name (text r.value) r.env

  abbrev fuzz_words : ℕ → List Text
  fuzz_words coreid =
      join r.bin (codes "afl-fuzz")
      ∷ codes "-i"
      ∷ indir
      ∷ codes "-o"
      ∷ outdir
      ∷ codes "-s"
      ∷ codes "1024"
      ∷ codes "-t"
      ∷ r.tmout
      ∷ codes "-m"
      ∷ r.mlimit
      ∷ (if coreid == 0 then codes "-M" else codes "-S")
      ∷ name_of coreid
      ∷ codes "--"
      ∷ mark_all (outside.imgname coreid) tgtcmd

  abbrev pub fuzz_cmd : ℕ → Words
  fuzz_cmd coreid = words (fuzz_words coreid)

  abbrev pub fuzzer : ℕ → Fields × Words × ℕ
  fuzzer coreid = (fuzz_env, fuzz_cmd coreid, outside.pid coreid)

  abbrev pub pid_file : ℕ → Text × Text
  pid_file coreid = (join (join outdir (name_of coreid)) (codes "pid"), str_ℕ (outside.pid coreid))

  abbrev own_events : ℕ → List Event
  own_events coreid =
      started fuzz_env (fuzz_cmd coreid) (outside.pid coreid)
      ∷ wrote_pid (join (join outdir (name_of coreid)) (codes "pid")) (str_ℕ (outside.pid coreid))
      ∷ []
