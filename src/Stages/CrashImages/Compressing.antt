-- ===== src/Stages/CrashImages/Compressing.antt =====
-- What `compress_new_crash_sites` writes into the image directory.
use mathlib.Core.Bool.{true≢false}
use pmfuzz.Base.{
  false, List, [], ◌∷◌, ◌++◌, ◌≡◌, refl, sym, ap, ◌∙◌, arith, Text, codes, text_eq, text_eq_refl,
  contains, Distinct, map, All, some, ok,
}
use pmfuzz.Str.{occurs}
use pmfuzz.Str.Number.{strip}
use pmfuzz.NameHandler.Grammar.{Name, IsName}
use pmfuzz.NameHandler.Patterns.{is_hash_f}
use pmfuzz.Stages.Folder.{Folder, get, put}
use pmfuzz.Stages.Folder.Laws.{get-put}
use pmfuzz.Stages.Stage2.Terminating.Images.{IsHashed, IsHashed-put_file}
use pmfuzz.Stages.CrashImages.{Tools, crash_img_name, settle, get_hashes, compress_each}
use pmfuzz.Stages.CrashImages.Processing.{crash_of, whole_site, site-not_hash}

-- A new image, with the name of its crash site and its content.
pub record NewImage : Type 0 where
  pub img : Text
  pub name : Name
  pub content : Text

abbrev pub image_name : NewImage → Text
image_name c = c.img

abbrev pub hash_file : NewImage → Text
hash_file c = crash_of c.name ++ codes ".hash"

abbrev pub site_file : NewImage → Text
site_file c = crash_of c.name ++ codes ".tar.gz"

-- The image is there, its check does not abort, and behind its random part is the crash site of its
-- name.
abbrev pub IsNewImage : Tools → Folder → NewImage → Type 0
IsNewImage tools pm_dir c =
    IsName c.name
    × (tools.check_crash_site c.img ≡ ok tt)
    × (crash_img_name c.img ≡ ok (crash_of c.name))
    × (get c.img pm_dir ≡ some c.content)

-- A file of each image was written, and nothing else changed.
pub record Written (file content : NewImage → Text) (cs : List NewImage) (before after : Folder)
    : Type 0 where
  pub here : All (λ c. get (file c) after ≡ some (content c)) cs
  pub others : (x : Text) → contains (map file cs) x ≡ false → get x after ≡ get x before

Written-none : (file content : NewImage → Text) (dir : Folder) → Written file content [] dir dir
Written-none file content dir = record { here = tt; others = λ x h. refl }

Written-one :
    (file content : NewImage → Text) (c : NewImage) (cs : List NewImage) (before after : Folder)
    → contains (map file cs) (file c) ≡ false
    → Written file content cs (put (file c) (content c) before) after
    → Written file content (c ∷ cs) before after
unfolding contains
Written-one file content c cs before after absent w = record {
  here = (
    w.others (file c) absent
        ∙ get-put (file c) (file c) (content c) before
        ∙ rw (text_eq_refl (file c)) refl,
    w.here,
  );
  others = λ x h.
      let apart : text_eq x (file c) ≡ false = ground arith in
      w.others x (ground arith) ∙ get-put x (file c) (content c) before ∙ rw apart refl;
}

module _ (tools : Tools) (pm_dir : Folder)
    (line : (c : Text) → occurs b'\n' (strip (tools.sha256 c)) ≡ false) where
  abbrev pub hash_of : NewImage → Text
  hash_of c = tools.sha256 c.content

  abbrev pub archive_of : NewImage → Text
  archive_of c = tools.archive c.content

  pub get_hashes_lem :
      (cs : List NewImage) (img_dir : Folder)
      → All (IsNewImage tools pm_dir) cs
      → Distinct (map hash_file cs)
      → IsHashed img_dir
      → (after : Folder) × (get_hashes tools pm_dir (map image_name cs) img_dir ≡ ok after)
        × IsHashed after
        × Written hash_file hash_of cs img_dir after
  unfolding get_hashes settle
  get_hashes_lem [] img_dir h d hashed =
      (img_dir, refl, hashed, Written-none hash_file hash_of img_dir)
  get_hashes_lem (c ∷ cs) img_dir ((named, checked, clean, there), hs) (absent, d) hashed =
      let next = put (hash_file c) (hash_of c) img_dir in
      let (after, e, still, w) =
        get_hashes_lem cs next hs d
          (IsHashed-put_file (hash_file c) (hash_of c) img_dir (λ k. line c.content) hashed) in
      (after, rw (clean, there) e, still, Written-one hash_file hash_of c cs img_dir after absent w)

  pub compress_each_lem :
      (cs : List NewImage) (img_dir : Folder)
      → All (IsNewImage tools pm_dir) cs
      → Distinct (map site_file cs)
      → IsHashed img_dir
      → (after : Folder) × (compress_each tools pm_dir (map image_name cs) img_dir ≡ ok after)
        × IsHashed after
        × Written site_file archive_of cs img_dir after
  unfolding compress_each settle
  compress_each_lem [] img_dir h d hashed =
      (img_dir, refl, hashed, Written-none site_file archive_of img_dir)
  compress_each_lem (c ∷ cs) img_dir ((named, checked, clean, there), hs) (absent, d) hashed =
      let next = put (site_file c) (archive_of c) img_dir in
      let no_hash : is_hash_f (site_file c) ≡ false =
        ap is_hash_f (whole_site c.name) ∙ site-not_hash c.name in
      let (after, e, still, w) = compress_each_lem cs next hs d (
        IsHashed-put_file (site_file c) (archive_of c) img_dir
          (λ k. absurd (true≢false (sym k ∙ no_hash))) hashed) in
      (
        after,
        rw (clean, checked, there) e,
        still,
        Written-one site_file archive_of c cs img_dir after absent w,
      )
