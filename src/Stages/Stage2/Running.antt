-- ===== src/Stages/Stage2/Running.antt =====
-- stages/stage2.py: the start of a run of AFL on a testcase and on a crash site, `_run_testcase` and
-- `_run_cs`, over the commands of helper/common.py and `run_afl`. The directory of an image is made anew.
pub mod Laws
use pmfuzz.Base.{
  ℕ, ℤ, Bool, true, false, not, List, [], ◌∷◌, ◌++◌, ◌≡◌, Text, codes, text_eq, Result, ok, err,
  ◌>>=◌, ◌>>◌, abort_if,
}
use pmfuzz.Str.Path.{basename, join}
use pmfuzz.NameHandler.Patterns.{crash_site_ext, cmpr_crash_site_ext}
use pmfuzz.NameHandler.Stage.{get_outdir_name}
use pmfuzz.NameHandler.Image.{set_img_path}
use pmfuzz.Helper.Config.{Fields, get_direct}
use pmfuzz.Helper.Tar.{RunTar, decompress}
use pmfuzz.Interfaces.Afl.{Event, Outside, as_text, get_in, run_afl}

-- The paths of an iteration, and its number.
pub record Place : Type 0 where
  pub stage : ℤ
  pub iter_id : ℤ
  pub srcdir : Text
  pub outdir : Text
  pub dedup_dir_gbl : Text
  pub dedup_dir_loc : Text

-- AFL's directory of a run.
unfoldable pub tc_dir_of : Place → Text → Result Text
tc_dir_of place name = do
  stage_dir ← get_outdir_name place.stage place.iter_id
  ok (join (join (join place.outdir stage_dir) (codes ".afl-results")) name)

-- `get_result_dir(name)`
unfoldable pub get_result_dir : Place → Text → Result Text
get_result_dir place name = do
  tc_dir ← tc_dir_of place name
  ok (join tc_dir (codes "master_fuzzer"))

-- `get_img_dir(testcasename)`
unfoldable pub get_img_dir : Fields → Text → Result Text
get_img_dir cfg testcasename = do
  img_loc ← get_in cfg (codes "pmfuzz") (codes "img_loc")
  dir ← as_text img_loc
  ok (join dir (codes "stage2-input-" ++ (testcasename ++ codes "/")))

-- `nh.set_img_path(self.cfg.tgtcmd, img_path, self.cfg)`
abbrev pub set_image : Fields → List Text → Text → Result (Text × List Text)
set_image cfg tgtcmd img_path = do
  img_loc ← get_direct cfg (codes "pmfuzz.img_loc")
  loc ← as_text img_loc
  ok (set_img_path tgtcmd img_path loc)

-- `_run_testcase(testcasename)`: the pids that are started, with what `run_afl` does.
unfoldable pub _run_testcase :
    RunTar
    → (Text → Bool)
    → Outside
    → Place
    → Fields
    → List Text
    → Bool
    → Text
    → Result (List ℕ × List Event)
_run_testcase run_tar is_file outside place cfg tgtcmd dry_run testcasename = do
  imgdestdir ← get_img_dir cfg testcasename
  outdir ← tc_dir_of place testcasename
  (img_path, tgtcmd_loc) ← set_image cfg tgtcmd (join imgdestdir (testcasename ++ codes ".pm_pool"))
  let img_src_path = join place.dedup_dir_gbl (basename img_path)
  abort_if (text_eq img_path [])
  decompress run_tar is_file (img_src_path ++ codes ".tar.gz") imgdestdir false
  run_afl outside place.srcdir outdir tgtcmd_loc cfg 1 dry_run false

-- Every process is there.
unfoldable pub all_alive : (ℕ → Bool) → List ℕ → Result (Unit {0})
all_alive pid_exists [] = ok tt
all_alive pid_exists (pid ∷ pids) = do abort_if (not (pid_exists pid)); all_alive pid_exists pids

-- `_run_cs(csname)`, over the directory that `mkdtemp` makes and which processes are there at the end.
unfoldable pub _run_cs :
    RunTar
    → (Text → Bool)
    → Outside
    → (ℕ → Bool)
    → Text
    → Place
    → Fields
    → List Text
    → Bool
    → Text
    → Result (List ℕ × List Event)
_run_cs run_tar is_file outside pid_exists imgdir place cfg tgtcmd dry_run csname = do
  let cspath = join place.dedup_dir_loc (csname ++ (b'.' ∷ cmpr_crash_site_ext))
  pmdir ← get_in cfg (codes "pmfuzz") (codes "img_loc")
  decompress run_tar is_file cspath (imgdir ++ codes "/") false
  let imgpm = join imgdir (csname ++ (b'.' ∷ crash_site_ext))
  outdir ← tc_dir_of place csname
  (img_path, tgtcmd_loc) ← set_image cfg tgtcmd imgpm
  abort_if (text_eq img_path [])
  (pids, events) ← run_afl outside place.srcdir outdir tgtcmd_loc cfg 1 dry_run false
  all_alive pid_exists pids
  ok (pids, events)
