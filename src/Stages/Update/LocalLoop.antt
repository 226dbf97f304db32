-- ===== src/Stages/Update/LocalLoop.antt =====
-- The loop of `update_local` over the testcases of the global store.
use pmfuzz.Base.{
  ℕ, ◌+◌, Bool, true, false, not, ◌&&◌, List, [], ◌∷◌, ◌≡◌, inl, inr, refl, sym, ap, ◌∙◌, arith,
  if◌then◌else◌, ◌==◌, length, Text, codes, text_eq, text_eq_iff, contains, map, All, Option, some,
  ok, Bool-cases,
}
use pmfuzz.Str.{replace, replace_from}
use pmfuzz.Str.Path.{basename}
use pmfuzz.Str.Path.Laws.{no_dir-IsDir, basename_file}
use pmfuzz.NameHandler.Grammar.{Name, IsName}
use pmfuzz.NameHandler.Grammar.Search.{replace-render}
use pmfuzz.NameHandler.Lineage.{iter_cnt}
use pmfuzz.NameHandler.Lineage.Laws.{comma_ids, iter_cnt-file_name}
use pmfuzz.NameHandler.Metadata.Family.{
  Kind, file_name, file_name-IsFile, get_metadata_files-file_name,
}
use pmfuzz.NameHandler.Metadata.Apart.{testcase_of, image_of, site_of, text_eq_kind, same_kind}
use pmfuzz.Stages.Dedup.{with_images}
use pmfuzz.Stages.Folder.{Folder, names, get, is_some, is_file, put, copy_if_there}
use pmfuzz.Stages.Folder.Laws.{get-put, contains-names, get-copy_if_there, copypreserve-some}
use pmfuzz.Stages.Update.{without_min, copy_to_local, update_local_tcs}
use pmfuzz.Stages.Update.Sites.{Has}
use pmfuzz.Stages.Update.Files.{
  testcase-image, image-testcase, site-testcase, site-image, copied_later, stale_later,
}

abbrev pub map_of : Name → Text
map_of n = file_name Kind.map n

module _ (n : Name) (h : IsName n) where
  base_of : (k : Kind) → basename (file_name k n) ≡ file_name k n
  base_of k = basename_file (file_name k n) (file_name-IsFile [] n no_dir-IsDir h k)

  min_of_testcase : without_min (testcase_of n) ≡ testcase_of n
  unfolding replace replace_from
  min_of_testcase = replace-render b'm' (codes "in") refl [] n (codes ".testcase") h

  min_of_image : without_min (image_of n) ≡ image_of n
  unfolding replace replace_from
  min_of_image = replace-render b'm' (codes "in") refl [] n (codes ".pm_pool.tar.gz") h

-- The testcases of an iteration that a store does not list, leaving `.min` aside.
abbrev pub is_wanted : ℕ → List Text → Name → Bool
is_wanted iter_id listing n =
    not (contains listing (testcase_of n)) && (length (comma_ids n.rest) + 1) == iter_id

get-local :
    (x t i tc img c map_n pm_map_n : Text) (gbl loc : Folder)
    → text_eq x map_n ≡ false
    → text_eq x pm_map_n ≡ false
    → get x (copy_if_there pm_map_n gbl pm_map_n (put map_n c (put i img (put t tc loc))))
      ≡ (if text_eq x i then some img else if text_eq x t then some tc else get x loc)
get-local x t i tc img c map_n pm_map_n gbl loc h k =
    rw
      (
        get-copy_if_there x pm_map_n pm_map_n gbl (put map_n c (put i img (put t tc loc))) k,
        get-put x map_n c (put i img (put t tc loc)),
        h,
        get-put x i img (put t tc loc),
        get-put x t tc loc,
      )
      refl

unfoldable pub local_entries : List Name → List (Text × Option Text)
local_entries [] = []
local_entries (n ∷ ns) = (testcase_of n, some (image_of n)) ∷ local_entries ns

pub with_images_lem :
    (gbl : Folder) (ns : List Name)
    → All IsName ns
    → All (λ n. Has gbl (image_of n)) ns
    → with_images (names gbl) (map testcase_of ns) ≡ ok (local_entries ns)
unfolding with_images local_entries
with_images_lem gbl [] h k = refl
with_images_lem gbl (n ∷ ns) (h, hs) ((img, there), ks) =
    let listed : contains (names gbl) (image_of n) ≡ true =
      contains-names gbl (image_of n) ∙ (unfold is_file in ap is_some there) in
    rw
      (
        get_metadata_files-file_name [] n no_dir-IsDir h Kind.testcase false,
        with_images_lem gbl ns hs ks,
        listed,
      )
      refl

module _ (gbl : Folder) (m : Name) (hm : IsName m) where
  abbrev AfterOne : Name → Folder → Folder → Type 0
  AfterOne n loc next =
      (get (testcase_of m) next ≡ (
        if text_eq (testcase_of m) (testcase_of n)
        then get (testcase_of n) gbl
        else get (testcase_of m) loc))
      × (get (image_of m) next ≡ (
          if text_eq (testcase_of m) (testcase_of n)
          then get (image_of n) gbl
          else get (image_of m) loc))
      × (get (site_of m) next ≡ get (site_of m) loc)

  copy_to_local_lem :
      (n : Name) (loc : Folder)
      → IsName n
      → Has gbl (testcase_of n)
      → Has gbl (image_of n)
      → Has gbl (map_of n)
      → (next : Folder) × (copy_to_local gbl (testcase_of n) (some (image_of n)) (testcase_of n) loc
          ≡ ok next)
        × AfterOne n loc next
  unfolding text_eq copy_to_local
  copy_to_local_lem n loc hn (tc, there) (img, there') (c, there'') =
      let t = testcase_of n in
      let i = image_of n in
      let map_n = map_of n in
      let pm_map_n = file_name Kind.pm_map n in
      let l₁ = put t tc loc in
      let l₂ = put i img l₁ in
      (
        copy_if_there pm_map_n gbl pm_map_n (put map_n c l₂),
        rw
            (
              min_of_testcase n hn,
              copypreserve-some t t tc gbl loc there,
              base_of n hn Kind.pm_cmpr_pool,
              min_of_image n hn,
              copypreserve-some i i img gbl l₁ there',
              base_of n hn Kind.testcase,
              get_metadata_files-file_name [] n no_dir-IsDir hn Kind.testcase false,
              copypreserve-some map_n map_n c gbl l₂ there'',
            )
            refl,
        (
          get-local (testcase_of m) t i tc img c map_n pm_map_n gbl loc refl refl
              ∙ rw (testcase-image m n hm hn, there) refl,
          get-local (image_of m) t i tc img c map_n pm_map_n gbl loc refl refl
              ∙ rw
                  (
                    image-testcase m n hm hn,
                    text_eq_kind m n hm hn Kind.pm_cmpr_pool Kind.testcase,
                    there',
                  )
                  refl,
          get-local (site_of m) t i tc img c map_n pm_map_n gbl loc refl refl
              ∙ rw (site-image m n hm hn, site-testcase m n hm hn) refl,
        ),
      )

  module _ (iter_id : ℕ) (listing : List Text) where
    same_commas :
        (n : Name)
        → IsName n
        → testcase_of m ≡ testcase_of n
        → length (comma_ids m.rest) ≡ length (comma_ids n.rest)
    same_commas n hn e =
        let counts : ok (length (comma_ids m.rest) + 1) ≡ ok (length (comma_ids n.rest) + 1) =
          sym (iter_cnt-file_name [] m Kind.testcase no_dir-IsDir hm)
          ∙ ap iter_cnt e
          ∙ iter_cnt-file_name [] n Kind.testcase no_dir-IsDir hn in
        ground arith

    same_wanted :
        (n : Name)
        → IsName n
        → text_eq (testcase_of m) (testcase_of n) ≡ true
        → is_wanted iter_id listing m ≡ is_wanted iter_id listing n
    same_wanted n hn e =
        let same : testcase_of m ≡ testcase_of n = (text_eq_iff _ _).0 e in
        rw (same, same_commas n hn same) refl

    abbrev pub AfterAll : List Name → Folder → Folder → Type 0
    AfterAll ns loc after =
        (get (testcase_of m) after ≡ (
          if contains (map testcase_of ns) (testcase_of m) && is_wanted iter_id listing m
          then get (testcase_of m) gbl
          else get (testcase_of m) loc))
        × (get (image_of m) after ≡ (
            if contains (map testcase_of ns) (testcase_of m) && is_wanted iter_id listing m
            then get (image_of m) gbl
            else get (image_of m) loc))
        × (get (site_of m) after ≡ get (site_of m) loc)

    pub update_local_tcs_lem :
        (ns : List Name) (loc : Folder)
        → All IsName ns
        → All (λ n. Has gbl (testcase_of n)) ns
        → All (λ n. Has gbl (image_of n)) ns
        → All (λ n. Has gbl (map_of n)) ns
        → (after : Folder) × (update_local_tcs 2 iter_id gbl listing (local_entries ns) loc
            ≡ ok after)
          × AfterAll ns loc after
    unfolding update_local_tcs contains local_entries
    update_local_tcs_lem [] loc h k l r = (loc, refl, (refl, refl, refl))
    update_local_tcs_lem (n ∷ ns) loc (hn, hs) (k, ks) (l, ls) (r, rs) =
        let count = iter_cnt-file_name [] n Kind.testcase no_dir-IsDir hn in
        let base = base_of n hn Kind.testcase in
        let min = min_of_testcase n hn in
        let same = text_eq (testcase_of m) (testcase_of n) in
        let inside = contains (map testcase_of ns) (testcase_of m) in
        let wanted_m = is_wanted iter_id listing m in
        let wanted_n = is_wanted iter_id listing n in
        elim (Bool-cases wanted_n) [
          | inl wanted ↦
              let (next, e, (t, i, s)) = copy_to_local_lem n loc hn k l r in
              let (after, e', (t', i', s')) = update_local_tcs_lem ns next hs ks ls rs in
              (
                after,
                rw (base, min, count, wanted, e) e',
                (
                  t'
                      ∙ copied_later same inside wanted_m wanted_n _ _ _ _ (same_wanted n hn)
                          (λ q. ap (λ x. get x gbl) ((text_eq_iff _ _).0 q)) wanted t,
                  i'
                      ∙ copied_later same inside wanted_m wanted_n _ _ _ _ (same_wanted n hn)
                          (λ q.
                            ap (λ x. get x gbl)
                              (same_kind m n hm hn Kind.testcase Kind.pm_cmpr_pool
                                ((text_eq_iff _ _).0 q)))
                          wanted i,
                  s' ∙ s,
                ),
              )
          | inr other ↦
              let (after, e', (t', i', s')) = update_local_tcs_lem ns loc hs ks ls rs in
              (
                after,
                rw (base, min, count, other) e',
                (
                  t' ∙ stale_later same inside wanted_m wanted_n _ _ (same_wanted n hn) other,
                  i' ∙ stale_later same inside wanted_m wanted_n _ _ (same_wanted n hn) other,
                  s',
                ),
              )
        ]
