-- ===== src/Stages/Update/Families.antt =====
-- The loop of `update_global` over the testcases of a stage.
use pmfuzz.Base.{
  Bool, true, false, not, ◌&&◌, List, [], ◌∷◌, ◌++◌, ◌≡◌, inl, inr, refl, ap, ◌∙◌, if◌then◌else◌,
  Text, codes, text_eq, text_eq_iff, contains, map, All, some, ok, Bool-cases,
}
use pmfuzz.Str.{replace, replace_from}
use pmfuzz.Str.Path.Laws.{no_dir-IsDir}
use pmfuzz.NameHandler.Grammar.{Name, IsName}
use pmfuzz.NameHandler.Grammar.Search.{replace-render}
use pmfuzz.NameHandler.Metadata.Family.{Kind, get_metadata_files-file_name}
use pmfuzz.NameHandler.Metadata.Apart.{
  testcase_of, image_of, site_of, placeholder_of, same_kind, same_placeholder, text_eq_kind,
}
use pmfuzz.Stages.Folder.{Folder, get, is_file, put, copy_if_there}
use pmfuzz.Stages.Folder.Laws.{get-put, get-copy_if_there, copypreserve-some}
use pmfuzz.Stages.Update.{pair_images, copy_family, update_tcs}
use pmfuzz.Stages.Update.Sites.{Has}
use pmfuzz.Stages.Update.Files.{
  testcase-image, image-testcase, site-testcase, site-image, copied_later, stale_later,
}

-- The image of a testcase in `local_testcases_list`.
replace-image :
    (n : Name)
    → IsName n
    → replace (testcase_of n) (codes ".testcase") (codes ".pm_pool.tar.gz") ≡ image_of n
unfolding replace replace_from
replace-image n h =
    replace-render b't' (codes "estcase") refl (codes ".pm_pool.tar.gz") n (codes ".testcase") h

unfoldable pub entries : List Name → List (Text × Text)
entries [] = []
entries (n ∷ ns) = (testcase_of n, image_of n) ∷ entries ns

pub pair_images_lem :
    (img_dir : Folder) (ns : List Name)
    → All IsName ns
    → All (λ n. Has img_dir (image_of n)) ns
    → pair_images img_dir (map testcase_of ns) ≡ ok (entries ns)
unfolding pair_images is_file entries
pair_images_lem img_dir [] h k = refl
pair_images_lem img_dir (n ∷ ns) (h, hs) ((content, there), ks) =
    rw (replace-image n h, there, pair_images_lem img_dir ns hs ks) refl

-- Which testcases the global store has neither now nor had before.
abbrev pub is_fresh : List Text → Name → Bool
is_fresh listing n =
    not (contains listing (testcase_of n)) && not (contains listing (placeholder_of n))

-- The store after the copy of one testcase, at a name without a map's prefix.
get-family :
    (x t i tc img map_n pm_map_n : Text) (tc_dir gbl : Folder)
    → text_eq x map_n ≡ false
    → text_eq x pm_map_n ≡ false
    → get x (
        put i img (
          copy_if_there pm_map_n tc_dir pm_map_n (copy_if_there map_n tc_dir map_n (put t tc gbl))))
      ≡ (if text_eq x i then some img else if text_eq x t then some tc else get x gbl)
get-family x t i tc img map_n pm_map_n tc_dir gbl h k =
    rw
      (
        get-put x i img (
            copy_if_there pm_map_n tc_dir pm_map_n
              (copy_if_there map_n tc_dir map_n (put t tc gbl))),
        get-copy_if_there x pm_map_n pm_map_n tc_dir
            (copy_if_there map_n tc_dir map_n (put t tc gbl)) k,
        get-copy_if_there x map_n map_n tc_dir (put t tc gbl) h,
        get-put x t tc gbl,
      )
      refl

module _ (tc_dir img_dir : Folder) (m : Name) (hm : IsName m) where
  -- What the copy of one testcase does to the files of `m`.
  abbrev AfterOne : Name → Folder → Folder → Type 0
  AfterOne n gbl next =
      (get (testcase_of m) next ≡ (
        if text_eq (testcase_of m) (testcase_of n)
        then get (testcase_of n) tc_dir
        else get (testcase_of m) gbl))
      × (get (image_of m) next ≡ (
          if text_eq (testcase_of m) (testcase_of n)
          then get (image_of n) img_dir
          else get (image_of m) gbl))
      × (get (site_of m) next ≡ get (site_of m) gbl)

  copy_family_lem :
      (n : Name) (gbl : Folder)
      → IsName n
      → Has tc_dir (testcase_of n)
      → Has img_dir (image_of n)
      → (next : Folder) × (copy_family tc_dir img_dir (testcase_of n) (image_of n) gbl ≡ ok next)
        × AfterOne n gbl next
  unfolding text_eq
  copy_family_lem n gbl hn (tc, there) (img, there') =
      let t = testcase_of n in
      let i = image_of n in
      let map_n = codes "map_" ++ t in
      let pm_map_n = codes "pm_map_" ++ t in
      let g₃ =
        copy_if_there pm_map_n tc_dir pm_map_n (copy_if_there map_n tc_dir map_n (put t tc gbl)) in
      (
        put i img g₃,
        rw (copypreserve-some t t tc tc_dir gbl there)
            (copypreserve-some i i img img_dir g₃ there'),
        (
          get-family (testcase_of m) t i tc img map_n pm_map_n tc_dir gbl refl refl
              ∙ rw (testcase-image m n hm hn, there) refl,
          get-family (image_of m) t i tc img map_n pm_map_n tc_dir gbl refl refl
              ∙ rw
                  (
                    image-testcase m n hm hn,
                    text_eq_kind m n hm hn Kind.pm_cmpr_pool Kind.testcase,
                    there',
                  )
                  refl,
          get-family (site_of m) t i tc img map_n pm_map_n tc_dir gbl refl refl
              ∙ rw (site-image m n hm hn, site-testcase m n hm hn) refl,
        ),
      )

  module _ (listing : List Text) where
    same_fresh :
        (n : Name)
        → IsName n
        → text_eq (testcase_of m) (testcase_of n) ≡ true
        → is_fresh listing m ≡ is_fresh listing n
    same_fresh n hn e =
        let same : testcase_of m ≡ testcase_of n = (text_eq_iff _ _).0 e in
        rw (same, same_placeholder m n hm hn Kind.testcase same) refl

    -- What the first loop does to the files of `m`.
    abbrev pub AfterAll : List Name → Folder → Folder → Type 0
    AfterAll ns gbl after =
        (get (testcase_of m) after ≡ (
          if contains (map testcase_of ns) (testcase_of m) && is_fresh listing m
          then get (testcase_of m) tc_dir
          else get (testcase_of m) gbl))
        × (get (image_of m) after ≡ (
            if contains (map testcase_of ns) (testcase_of m) && is_fresh listing m
            then get (image_of m) img_dir
            else get (image_of m) gbl))
        × (get (site_of m) after ≡ get (site_of m) gbl)

    pub update_tcs_lem :
        (ns : List Name) (gbl : Folder)
        → All IsName ns
        → All (λ n. Has tc_dir (testcase_of n)) ns
        → All (λ n. Has img_dir (image_of n)) ns
        → (after : Folder) × (update_tcs tc_dir img_dir listing (entries ns) gbl ≡ ok after)
          × AfterAll ns gbl after
    unfolding update_tcs contains entries
    update_tcs_lem [] gbl h k l = (gbl, refl, (refl, refl, refl))
    update_tcs_lem (n ∷ ns) gbl (hn, hs) (k, ks) (l, ls) =
        let metadata = get_metadata_files-file_name [] n no_dir-IsDir hn Kind.testcase true in
        let same = text_eq (testcase_of m) (testcase_of n) in
        let inside = contains (map testcase_of ns) (testcase_of m) in
        elim (Bool-cases (is_fresh listing n)) [
          | inl fresh ↦
              let (next, e, (t, i, s)) = copy_family_lem n gbl hn k l in
              let (after, e', (t', i', s')) = update_tcs_lem ns next hs ks ls in
              (
                after,
                rw (metadata, fresh, e) e',
                (
                  t'
                      ∙ copied_later same inside (is_fresh listing m) (is_fresh listing n) _ _ _ _
                          (same_fresh n hn) (λ q. ap (λ x. get x tc_dir) ((text_eq_iff _ _).0 q))
                          fresh t,
                  i'
                      ∙ copied_later same inside (is_fresh listing m) (is_fresh listing n) _ _ _ _
                          (same_fresh n hn)
                          (λ q.
                            ap (λ x. get x img_dir)
                              (same_kind m n hm hn Kind.testcase Kind.pm_cmpr_pool
                                ((text_eq_iff _ _).0 q)))
                          fresh i,
                  s' ∙ s,
                ),
              )
          | inr stale ↦
              let (after, e', (t', i', s')) = update_tcs_lem ns gbl hs ks ls in
              (
                after,
                rw (metadata, stale) e',
                (
                  t'
                      ∙ stale_later same inside (is_fresh listing m) (is_fresh listing n) _ _
                          (same_fresh n hn) stale,
                  i'
                      ∙ stale_later same inside (is_fresh listing m) (is_fresh listing n) _ _
                          (same_fresh n hn) stale,
                  s',
                ),
              )
        ]
