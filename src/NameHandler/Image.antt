-- ===== src/NameHandler/Image.antt =====
-- The image path in the target's command, and the image of a parent.
pub mod Laws
use pmfuzz.Base.{
  ℕ, Bool, true, false, not, ◌&&◌, ◌||◌, List, [], ◌∷◌, ◌++◌, ◌≡◌, refl, if◌then◌else◌, Text, codes,
  text_eq, Option, none, some, Result, ok, err, aborted, ◌>>=◌, ◌>>◌, abort_if, map,
}
use pmfuzz.Str.{is_in, replace}
use pmfuzz.Str.Path.{basename, dirname, join}
use pmfuzz.NameHandler.Metadata.{get_metadata_files}
use pmfuzz.NameHandler.Lineage.{get_testcase_parent}

abbrev pub pm_img_mrk : Text
pm_img_mrk = codes "__POOL_IMAGE__"

-- The first word with the marker, with the marker replaced; the words behind it are kept.
unfoldable pub mark_image : List Text → Text → List Text
mark_image [] path = []
mark_image (word ∷ words) path =
    let rest = mark_image words path in
    if is_in pm_img_mrk word then replace word pm_img_mrk path ∷ words else word ∷ rest

unfoldable pub has_mark : List Text → Bool
has_mark [] = false
has_mark (word ∷ words) = is_in pm_img_mrk word || has_mark words

-- `set_img_name(tgtcmd, new_img_name, cfg)`; `img_loc` is `cfg('pmfuzz.img_loc')`.
unfoldable pub set_img_name : List Text → Text → Text → Text × List Text
set_img_name tgtcmd new_img_name img_loc =
    let img_path = join img_loc new_img_name in
    (if has_mark tgtcmd then img_path else [], mark_image tgtcmd img_path)

-- `set_img_path(tgtcmd, new_img_path, cfg)`
unfoldable pub set_img_path : List Text → Text → Text → Text × List Text
set_img_path tgtcmd new_img_path img_loc =
    let (img_path, tgtcmd_loc) = set_img_name tgtcmd (codes "DUMMY_NAME") img_loc in
    (
      new_img_path,
      map (λ word. if is_in img_path word then replace word img_path new_img_path else word)
          tgtcmd_loc,
    )

-- `get_img_dir(tgtcmd)`: the directory of the last word with the marker.
unfoldable pub img_dir_from : Option Text → List Text → Option Text
img_dir_from result [] = result
img_dir_from result (token ∷ tokens) =
    img_dir_from (if is_in pm_img_mrk token then some (dirname token) else result) tokens

unfoldable pub get_img_dir : List Text → Option Text
unfolding img_dir_from
get_img_dir = img_dir_from none

-- Which image `get_parent_img` is to name; any other word aborts.
pub data Get : Type 0 where
  exists complete cs other : Get

-- `get_parent_img(testcasepath, dir, get, isparent)`, over the test whether a file is there.
unfoldable pub pick_img : Get → (Text → Bool) → Text → Text → Result Text
pick_img exists is_file cs_path complete_path = do
  abort_if (is_file cs_path && is_file complete_path)
  if is_file cs_path
      then ok cs_path
      else if is_file complete_path
      then ok complete_path
      else err aborted
pick_img cs is_file cs_path complete_path = ok cs_path
pick_img complete is_file cs_path complete_path = ok complete_path
pick_img other is_file cs_path complete_path = err aborted

unfoldable pub valid_get : Get → Result (Unit {0})
valid_get exists = ok tt
valid_get complete = ok tt
valid_get cs = ok tt
valid_get other = err aborted

unfoldable pub get_parent_img : (Text → Bool) → Text → Text → Get → Bool → Result Text
get_parent_img is_file testcasepath dir get isparent = do
  valid_get get
  clean ← get_metadata_files (basename testcasepath) false
  base ← (if isparent then ok clean.testcase else get_testcase_parent clean.testcase)
  files ← get_metadata_files base false
  pick_img get is_file (join dir files.crash_cmpr_site) (join dir files.pm_cmpr_pool)

image_runs :
    (set_img_name
        (codes "a" ∷ codes "__POOL_IMAGE__" ∷ codes "b" ∷ [])
        (codes "n")
        (codes "/mnt/pmem0")
      ≡ (codes "/mnt/pmem0/n", codes "a" ∷ codes "/mnt/pmem0/n" ∷ codes "b" ∷ []))
    × (set_img_path
          (codes "a" ∷ codes "__POOL_IMAGE__" ∷ codes "b" ∷ [])
          (codes "/tmp/")
          (codes "/mnt/pmem0")
        ≡ (codes "/tmp/", codes "a" ∷ codes "/tmp/" ∷ codes "b" ∷ []))
    × (set_img_path (codes "ab" ∷ []) (codes "/t") (codes "/mnt/pmem0")
        ≡ (codes "/t", codes "/ta/tb/t" ∷ []))
    × (get_img_dir (codes "x" ∷ codes "/mnt/pmem0/__POOL_IMAGE__" ∷ []) ≡ some (codes "/mnt/pmem0"))
unfolding set_img_name set_img_path mark_image has_mark get_img_dir is_in replace join dirname
image_runs = (refl, refl, refl, refl)
