-- ===== src/Stages/CrashImages.antt =====
-- The crash images that an injection of failures leaves in its directory, and what the stages make of
-- them: `process_new_crash_sites` of stages/stage2.py and `compress_new_crash_sites` of stages/stage1.py.
-- The images go by their names. The digest of hashlib, the archive of a content, and the check of a
-- crash site are arguments. The jobs of the two pools of stage 1 come in the order of the images; which
-- failures `alive_cnt` of helper/parallel.py sees before the last job has started is an argument too.
pub mod Processing
pub mod Compressing
pub mod Keys
pub mod Stored
use pmfuzz.Base.{
  ℕ, zero, suc, ◌+◌, ◌-◌, ℤ, Bool, true, false, not, ◌&&◌, List, [], ◌∷◌, ◌++◌, ◌≡◌, refl,
  if◌then◌else◌, ◌==◌, Text, codes, keep, Option, none, some, Result, ok, err, aborted, value_error,
  file_not_found, ◌>>=◌, ◌>>◌, of_option,
}
use pmfuzz.Str.{starts_with, replace}
use pmfuzz.Str.Number.{is_digit}
use pmfuzz.Str.Path.{basename}
use pmfuzz.NameHandler.Patterns.{crash_site_ext, pm_img_ext, hash_f_ext, tc_ext}
use pmfuzz.Stages.Dedup.{should_use_cs}
use pmfuzz.Stages.Folder.{Folder, names, get, put}
use pmfuzz.Stages.Hashes.{remove}

-- The length of the digits and the bracket behind `<pid=`; one digit at least.
unfoldable pub pid_end : Text → Bool → Option ℕ
pid_end [] after = none
pid_end (c ∷ s) after =
    let more = pid_end s true in
    if is_digit c
    then elim more [ none ↦ none | some n ↦ some (suc n) ]
    else if c == b'>' && after
    then some 1
    else none

unfoldable pub behind : ℕ → Text → Text
behind zero s = s
behind (suc n) [] = []
behind (suc n) (c ∷ s) = behind n s

-- The length of a match of `<pid=\d+>` at the start.
abbrev pub pid_match : Text → Option ℕ
pid_match s =
    if starts_with s (codes "<pid=")
    then elim (pid_end (behind 5 s) false) [ none ↦ none | some n ↦ some (n + 5) ]
    else none

-- `re.sub(r"<pid=\d+>", "", img)`, with the number of characters of a match that are still left out.
unfoldable pub drop_pid_from : ℕ → Text → Text
drop_pid_from skip [] = []
drop_pid_from (suc skip) (c ∷ s) = drop_pid_from skip s
drop_pid_from zero (c ∷ s) =
    let rest = drop_pid_from zero s in
    elim (pid_match (c ∷ s)) [ none ↦ c ∷ rest | some n ↦ drop_pid_from (n - 1) s ]

unfoldable pub drop_pid : Text → Text
unfolding drop_pid_from
drop_pid img = drop_pid_from 0 img

-- What the processing of an image calls outside: the digest, the archive, the check of the crash site,
-- and for each of the two pools of stage 1 whether a failure of the job of an image is there when the
-- pool starts a later job.
pub record Tools : Type 0 where
  pub sha256 : Text → Text
  pub archive : Text → Text
  pub check_crash_site : Text → Result (Unit {0})
  pub hash_noticed : Text → Bool
  pub archive_noticed : Text → Bool

-- The directory of the crash images, and the image directory of the stage.
abbrev pub Dirs : Type 0
Dirs = Folder × Folder

-- The body of the loop of `process_new_crash_sites`; an image is compressed only if it would be used.
unfoldable pub process_image : Tools → List ℤ → Text → Dirs → Result Dirs
process_image tools select_ids img (pm_dir, img_dir) = do
  tools.check_crash_site img
  let clean_img = drop_pid img
  use_it ← should_use_cs select_ids clean_img
  content ← of_option file_not_found (get img pm_dir)
  let dst = basename (clean_img ++ codes ".tar.gz")
  let hash_f = basename clean_img ++ codes ".hash"
  ok (
    remove img pm_dir,
    if use_it
        then put hash_f (tools.sha256 content) (put dst (tools.archive content) img_dir)
        else img_dir,
  )

unfoldable pub process_images : Tools → List ℤ → List Text → Dirs → Result Dirs
process_images tools select_ids [] dirs = ok dirs
process_images tools select_ids (img ∷ imgs) dirs = do
  next ← process_image tools select_ids img dirs
  process_images tools select_ids imgs next

-- The files that `glob` finds for the pattern with a star behind its last dot.
abbrev pub new_images : Text → Folder → List Text
new_images stem pm_dir = keep (λ name. starts_with name (stem ++ codes ".")) (names pm_dir)

-- `process_new_crash_sites(parent_img, clean_name)`
unfoldable pub process_new_crash_sites : Tools → List ℤ → Text → Text → Dirs → Result Dirs
process_new_crash_sites tools select_ids parent_img clean_name (pm_dir, img_dir) =
    let stem =
      replace parent_img (b'.' ∷ crash_site_ext) []
      ++ (b'.' ∷ replace clean_name (codes ".testcase") []) in
    process_images tools select_ids (new_images stem pm_dir) (pm_dir, img_dir)

-- The name behind the first dot.
unfoldable pub after_dot : Text → Result Text
after_dot [] = err value_error
after_dot (c ∷ s) = let rest = after_dot s in if c == b'.' then ok s else rest

-- `crash_img_name` of stages/stage1.py: the random part goes.
abbrev pub crash_img_name : Text → Result Text
crash_img_name img = after_dot (basename (drop_pid img))

-- What a job leaves: one that fails ends the program only if a later start of a job notices it.
unfoldable pub settle : Bool → Folder → Result Folder → Result Folder
settle noticed before (ok after) = ok after
settle noticed before (err e) = if noticed then err aborted else ok before

-- `get_hash(img)`
abbrev pub get_hash : Tools → Folder → Text → Folder → Result Folder
get_hash tools pm_dir img img_dir = do
  name ← crash_img_name img
  content ← of_option file_not_found (get img pm_dir)
  ok (put (name ++ codes ".hash") (tools.sha256 content) img_dir)

unfoldable pub get_hashes : Tools → Folder → List Text → Folder → Result Folder
get_hashes tools pm_dir [] img_dir = ok img_dir
get_hashes tools pm_dir (img ∷ imgs) img_dir = do
  next ← settle (tools.hash_noticed img) img_dir (get_hash tools pm_dir img img_dir)
  get_hashes tools pm_dir imgs next

abbrev pub compress_new_crash_site : Tools → Folder → Text → Folder → Result Folder
compress_new_crash_site tools pm_dir img img_dir = do
  name ← crash_img_name img
  tools.check_crash_site img
  content ← of_option file_not_found (get img pm_dir)
  ok (put (name ++ codes ".tar.gz") (tools.archive content) img_dir)

unfoldable pub compress_each : Tools → Folder → List Text → Folder → Result Folder
compress_each tools pm_dir [] img_dir = ok img_dir
compress_each tools pm_dir (img ∷ imgs) img_dir = do
  next ←
      settle (tools.archive_noticed img) img_dir (compress_new_crash_site tools pm_dir img img_dir)
  compress_each tools pm_dir imgs next

unfoldable pub remove_all : List Text → Folder → Folder
remove_all [] pm_dir = pm_dir
remove_all (img ∷ imgs) pm_dir = remove_all imgs (remove img pm_dir)

-- `compress_new_crash_sites(parent_img, clean_name)`: all hashes come before all archives.
unfoldable pub compress_new_crash_sites : Tools → Text → Text → Dirs → Result Dirs
compress_new_crash_sites tools parent_img clean_name (pm_dir, img_dir) = do
  let stem =
      replace parent_img (b'.' ∷ pm_img_ext) [] ++ (b'.' ∷ replace clean_name (b'.' ∷ tc_ext) [])
  let new_crash_imgs = new_images stem pm_dir
  hashed ← get_hashes tools pm_dir new_crash_imgs img_dir
  compressed ← compress_each tools pm_dir new_crash_imgs hashed
  ok (remove_all new_crash_imgs pm_dir, compressed)

image_runs :
    (drop_pid (codes "/d/id=5<pid=731>.id=3.2.crash_site") ≡ codes "/d/id=5.id=3.2.crash_site")
    × (drop_pid (codes "a<pid=>b<pid=12") ≡ codes "a<pid=>b<pid=12")
    × (after_dot (codes "pmfuzz-tmp-img-abc.id=5.1.crash_site") ≡ ok (codes "id=5.1.crash_site"))
unfolding drop_pid drop_pid_from pid_end behind starts_with after_dot
image_runs = (refl, refl, refl)
