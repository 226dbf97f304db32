-- ===== src/Stages/Hashes.antt =====
-- `add_cs_hash_lcl` of stages/stage1.py and stages/stage2.py and `clean_up_uncmpr_lcl` of
-- stages/stage2.py, on the image directory and the database of crash sites.
pub mod Laws
use pmfuzz.Base.{
  Bool, true, false, not, ◌&&◌, ◌||◌, List, [], ◌∷◌, ◌≡◌, refl, if◌then◌else◌, Text, codes, text_eq,
  keep, Result, ok, err, file_not_found, ◌>>=◌, ◌>>◌, abort_if, of_option,
}
use pmfuzz.Str.{replace, ends_with, occurs}
use pmfuzz.Str.Number.{strip}
use pmfuzz.NameHandler.Patterns.{is_hash_f, crash_site_ext, pm_img_ext, hash_f_ext}
use pmfuzz.Stages.Folder.{Folder, names, get, put}

-- `os.remove`
unfoldable pub remove : Text → Folder → Folder
remove name [] = []
remove name ((n, content) ∷ files) =
    let later = remove name files in if text_eq name n then later else (n, content) ∷ later

abbrev pub hash_k : Text → Text
hash_k fname = replace fname (b'.' ∷ hash_f_ext) []

-- The loop over the hash files, with the image directory and the database.
unfoldable pub add_hashes : List Text → Folder → Folder → Result (Folder × Folder)
add_hashes [] img_dir hash_db = ok (img_dir, hash_db)
add_hashes (fname ∷ fnames) img_dir hash_db = do
  content ← of_option file_not_found (get fname img_dir)
  abort_if (occurs b'\n' (strip content))
  add_hashes fnames (remove fname img_dir) (put (hash_k fname) (strip content) hash_db)

unfoldable pub add_cs_hash_lcl : Folder → Folder → Result (Folder × Folder)
add_cs_hash_lcl img_dir hash_db = add_hashes (keep is_hash_f (names img_dir)) img_dir hash_db

-- Uncompressed crash sites and images.
abbrev pub is_uncmpr : Text → Bool
is_uncmpr fname = ends_with fname crash_site_ext || ends_with fname pm_img_ext

unfoldable pub remove_uncmpr : List Text → Folder → Folder
remove_uncmpr [] img_dir = img_dir
remove_uncmpr (fname ∷ fnames) img_dir =
    remove_uncmpr fnames (if is_uncmpr fname then remove fname img_dir else img_dir)

unfoldable pub clean_up_uncmpr_lcl : Folder → Folder
clean_up_uncmpr_lcl img_dir = remove_uncmpr (names img_dir) img_dir
