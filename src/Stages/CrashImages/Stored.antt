-- ===== src/Stages/CrashImages/Stored.antt =====
-- The crash sites of an injection of stage 1 and their hashes in the database.
use pmfuzz.Base.{
  true, false, List, [], ◌∷◌, ◌++◌, ◌≡◌, inl, inr, refl, sym, ap, ◌∙◌, if◌then◌else◌, Text, codes,
  text_eq, text_eq_iff, contains, Distinct, keep, map, All, none, some, ok, Bool-cases,
}
use pmfuzz.Str.{occurs, replace}
use pmfuzz.Str.Number.{strip}
use pmfuzz.NameHandler.Grammar.{IsName}
use pmfuzz.NameHandler.Patterns.{is_hash_f, pm_img_ext, tc_ext}
use pmfuzz.NameHandler.Metadata.Apart.{site_of, text_eq-apart}
use pmfuzz.Stages.Folder.{Folder, names, get, is_file}
use pmfuzz.Stages.Folder.Laws.{contains-names}
use pmfuzz.Stages.Update.Sites.{Has, listed-Has, contains-keep}
use pmfuzz.Stages.Hashes.{hash_k, add_cs_hash_lcl}
use pmfuzz.Stages.Hashes.Laws.{last_hash, add_cs_hash_lcl_lem}
use pmfuzz.Stages.Stage1.Cases.{or_else}
use pmfuzz.Stages.Stage2.Terminating.Images.{IsHashed, hashes-All}
use pmfuzz.Stages.CrashImages.{Tools, new_images, compress_new_crash_sites, remove_all}
use pmfuzz.Stages.CrashImages.Processing.{crash_of, whole_site, site-not_hash, hash_end, site-hash}
use pmfuzz.Stages.CrashImages.Compressing.{
  NewImage, image_name, hash_file, site_file, IsNewImage, Written, get_hashes_lem,
  compress_each_lem,
}
use pmfuzz.Stages.CrashImages.Keys.{key_of_hash, key_of_site, last_hash_only, hash_name}

-- A hash file is not the archive of an image.
not_site :
    (cs : List NewImage) (f : Text) → is_hash_f f ≡ true → contains (map site_file cs) f ≡ false
unfolding contains
not_site [] f h = refl
not_site (c ∷ cs) f h =
    rw
      (
        text_eq-apart is_hash_f f (site_file c) h
            (ap is_hash_f (whole_site c.name) ∙ site-not_hash c.name),
        not_site cs f h,
      )
      refl

-- The crash site of an image is not a hash file, however many images there are.
not_hash :
    (cs : List NewImage) (c : NewImage) → contains (map hash_file cs) (site_of c.name) ≡ false
unfolding contains
not_hash [] c = refl
not_hash (d ∷ cs) c = rw (site-hash c.name (crash_of d.name), not_hash cs c) refl

-- No hash file is in the directory.
abbrev pub HasNoHash : Folder → Type 0
HasNoHash img_dir = (f : Text) → is_hash_f f ≡ true → get f img_dir ≡ none

-- The archive of the image is its compressed crash site, and its hash is in the database under the key
-- that the deduplication looks up.
abbrev pub IsStored : Tools → Folder → Folder → NewImage → Type 0
IsStored tools img_dir hash_db c =
    (get (site_of c.name) img_dir ≡ some (tools.archive c.content))
    × (get (replace (site_of c.name) (codes ".tar.gz") []) hash_db
        ≡ some (strip (tools.sha256 c.content)))

module _ (tools : Tools) (cs : List NewImage) (img_dir hashed mid : Folder)
    (named : All (λ c. IsName c.name) cs) (clean : HasNoHash img_dir)
    (hashes : Written hash_file (λ c. tools.sha256 c.content) cs img_dir hashed)
    (sites : Written site_file (λ c. tools.archive c.content) cs hashed mid) where
  -- Each hash file is that of an image.
  of_image : (f : Text) → is_hash_f f ≡ true → Has mid f → contains (map hash_file cs) f ≡ true
  of_image f hash (content, there) = elim (Bool-cases (contains (map hash_file cs) f)) [
    | inl e ↦ e
    | inr e ↦
        let absent : get f mid ≡ none =
          sites.others f (not_site cs f hash) ∙ hashes.others f e ∙ clean f hash in
        let same : none ≡ some content = sym absent ∙ there in cc
  ]

  one_key :
      (c : NewImage) (fs : List Text)
      → IsName c.name
      → All (Has mid) fs
      → All (λ f. text_eq (crash_of c.name) (hash_k f) ≡ true → f ≡ hash_file c) (keep is_hash_f fs)
  unfolding keep
  one_key c [] h k = tt
  one_key c (f ∷ fs) h (there, k) = elim (Bool-cases (is_hash_f f)) [
    | inl e ↦ rw e (
      λ same.
          hash_name cs f named (of_image f e there)
          ∙ ap (λ t. t ++ codes ".hash") (sym ((text_eq_iff (crash_of c.name) (hash_k f)).0 same)),
      one_key c fs h k,
    )
    | inr e ↦ rw e (one_key c fs h k)
  ]

  at_key :
      (c : NewImage)
      → IsName c.name
      → get (hash_file c) hashed ≡ some (tools.sha256 c.content)
      → last_hash mid (crash_of c.name) (keep is_hash_f (names mid))
        ≡ some (strip (tools.sha256 c.content))
  unfolding is_file
  at_key c h there =
      let f = hash_file c in
      let hash : is_hash_f f ≡ true = hash_end (crash_of c.name) in
      let still : get f mid ≡ some (tools.sha256 c.content) =
        sites.others f (not_site cs f hash) ∙ there in
      last_hash_only mid (crash_of c.name) f (tools.sha256 c.content) still
        (keep is_hash_f (names mid)) (key_of_hash c.name h)
        (one_key c (names mid) h (listed-Has mid))
        (contains-keep is_hash_f (names mid) f ∙ rw (contains-names mid f, still, hash) refl)

  module _ (img' db' hash_db : Folder)
      (left : (x : Text) → get x img' ≡ (if is_hash_f x then none else get x mid))
      (stored : (k : Text)
        → get k db' ≡ or_else (last_hash mid k (keep is_hash_f (names mid))) (get k hash_db)) where
    each-IsStored :
        (ds : List NewImage)
        → All (λ c. IsName c.name) ds
        → All (λ c. get (hash_file c) hashed ≡ some (tools.sha256 c.content)) ds
        → All (λ c. get (site_file c) mid ≡ some (tools.archive c.content)) ds
        → All (IsStored tools img' db') ds
    each-IsStored [] h k m = tt
    each-IsStored (c ∷ ds) (h, hs) (there, theres) (archived, archives) = (
      (
        left (site_of c.name)
            ∙ rw (site-not_hash c.name) (ap (λ t. get t mid) (sym (whole_site c.name)) ∙ archived),
        ap (λ t. get t db') (key_of_site c.name h)
            ∙ stored (crash_of c.name)
            ∙ rw (at_key c h there) refl,
      ),
      each-IsStored ds hs theres archives,
    )

IsNewImage-names :
    (tools : Tools) (pm_dir : Folder) (cs : List NewImage)
    → All (IsNewImage tools pm_dir) cs
    → All (λ c. IsName c.name) cs
IsNewImage-names tools pm_dir [] h = tt
IsNewImage-names tools pm_dir (c ∷ cs) (h, hs) = (h.0, IsNewImage-names tools pm_dir cs hs)

-- Where the new images of the injection have crash sites of names behind their random parts, pass the
-- check and give distinct files, the digests are single lines, and the image directory has distinct names
-- and no hash file, `compress_new_crash_sites` and then `add_cs_hash_lcl` do not fail: the archive of
-- each image is the compressed crash site of its name, the database has the digest of the image under the
-- key that the deduplication looks up for this crash site, and no hash file is left.
pub add_cs_hash_lcl-compress_new_crash_sites :
    (tools : Tools) (line : (c : Text) → occurs b'\n' (strip (tools.sha256 c)) ≡ false)
    (parent_img clean_name : Text) (cs : List NewImage) (pm_dir img_dir hash_db : Folder)
    → new_images
        (replace parent_img (b'.' ∷ pm_img_ext) []
          ++ (b'.' ∷ replace clean_name (b'.' ∷ tc_ext) []))
        pm_dir
      ≡ map image_name cs
    → All (IsNewImage tools pm_dir) cs
    → Distinct (map hash_file cs)
    → Distinct (map site_file cs)
    → IsHashed img_dir
    → HasNoHash img_dir
    → (mid : Folder) × (img' : Folder) × (db' : Folder) × (compress_new_crash_sites tools parent_img
          clean_name
          (pm_dir, img_dir)
        ≡ ok (remove_all (map image_name cs) pm_dir, mid))
      × (add_cs_hash_lcl mid hash_db ≡ ok (img', db'))
      × All (IsStored tools img' db') cs
      × HasNoHash img'
unfolding compress_new_crash_sites
add_cs_hash_lcl-compress_new_crash_sites tools line parent_img clean_name cs pm_dir img_dir hash_db
      found h d_hash d_site ready clean =
    let (hashed, e, ready', hashes) = get_hashes_lem tools pm_dir line cs img_dir h d_hash ready in
    let (mid, e', ready'', sites) = compress_each_lem tools pm_dir line cs hashed h d_site ready' in
    let (img', db', e'', left, stored) =
      add_cs_hash_lcl_lem mid hash_db ready''.0
        (hashes-All mid (names mid) ready'' (listed-Has mid)) in
    let named = IsNewImage-names tools pm_dir cs h in
    (
      mid,
      img',
      db',
      rw (found, e, e') refl,
      e'',
      each-IsStored tools cs img_dir hashed mid named clean hashes sites img' db' hash_db left
          stored cs named hashes.here sites.here,
      λ f hash. left f ∙ rw hash refl,
    )
