-- ===== src/Stages/Update/Global.antt =====
-- What `update_global` leaves in the global store.
use mathlib.Core.Path.{subst}
use pmfuzz.Base.{
  false, ◌&&◌, List, ◌≡◌, sym, ap, ◌∙◌, arith, if◌then◌else◌, contains, keep, map, All, ok,
}
use pmfuzz.NameHandler.Grammar.{Name, IsName}
use pmfuzz.NameHandler.Patterns.{is_tc}
use pmfuzz.NameHandler.Patterns.Laws.{is_tc-render}
use pmfuzz.NameHandler.Metadata.Apart.{
  testcase_of, image_of, site_of, testcase-not_site, image-not_site, site-IsSite,
}
use pmfuzz.Stages.Folder.{Folder, names, get, is_file}
use pmfuzz.Stages.Folder.Laws.{contains-names}
use pmfuzz.Stages.Update.{local_testcases_list, update_global}
use pmfuzz.Stages.Update.Sites.{
  Has, listed-Has, update_cs_lem, contains-keep, All-keep, All-of-map, first_site, no_site,
}
use pmfuzz.Stages.Update.Families.{pair_images_lem, is_fresh, update_tcs_lem}

-- Where the testcases of the stage are names, each with its image, `update_global` does not fail. A
-- testcase and its image are then those of the stage if the stage has the testcase and the store
-- listed neither it nor its placeholder before, and as before otherwise: what was deleted does not
-- come back, and what was there is not overwritten. A compressed crash site is the one that the store
-- had, or else that of the stage.
pub update_global_lem :
    (tc_dir img_dir gbl : Folder) (ns : List Name) (m : Name)
    → keep (λ f. is_tc f false) (names tc_dir) ≡ map testcase_of ns
    → All IsName ns
    → All (λ n. Has img_dir (image_of n)) ns
    → IsName m
    → (after : Folder) × (update_global tc_dir img_dir gbl ≡ ok after)
      × (get (testcase_of m) after ≡ (
          if is_file tc_dir (testcase_of m) && is_fresh (names gbl) m
          then get (testcase_of m) tc_dir
          else get (testcase_of m) gbl))
      × (get (image_of m) after ≡ (
          if is_file tc_dir (testcase_of m) && is_fresh (names gbl) m
          then get (image_of m) img_dir
          else get (image_of m) gbl))
      × (get (site_of m) after
          ≡ (if is_file gbl (site_of m) then get (site_of m) gbl else get (site_of m) img_dir))
unfolding update_global local_testcases_list is_file
update_global_lem tc_dir img_dir gbl ns m listed h k hm =
    let tc_there : All (λ n. Has tc_dir (testcase_of n)) ns = All-of-map (Has tc_dir) ns (
      subst (All (Has tc_dir)) listed
        (All-keep (Has tc_dir) (λ f. is_tc f false) (names tc_dir) (listed-Has tc_dir))) in
    let inside : contains (map testcase_of ns) (testcase_of m) ≡ is_file tc_dir (testcase_of m) =
      ap (λ xs. contains xs (testcase_of m)) (sym listed)
      ∙ contains-keep (λ f. is_tc f false) (names tc_dir) (testcase_of m)
      ∙ rw (is_tc-render m hm, contains-names tc_dir (testcase_of m)) (ground arith) in
    let (next, e, (t, i, s)) = update_tcs_lem tc_dir img_dir m hm (names gbl) ns gbl h tc_there k in
    let (after, e', found) = update_cs_lem img_dir (names img_dir) next (listed-Has img_dir) in
    (
      after,
      rw (listed, pair_images_lem img_dir ns h k, e) e',
      found (testcase_of m)
          ∙ no_site (contains (names img_dir) (testcase_of m)) _ _ _ _ (testcase-not_site m hm)
          ∙ t
          ∙ ap
              (λ b.
                if b && is_fresh (names gbl) m
                then get (testcase_of m) tc_dir
                else get (testcase_of m) gbl)
              inside,
      found (image_of m)
          ∙ no_site (contains (names img_dir) (image_of m)) _ _ _ _ (image-not_site m hm)
          ∙ i
          ∙ ap
              (λ b.
                if b && is_fresh (names gbl) m
                then get (image_of m) img_dir
                else get (image_of m) gbl)
              inside,
      found (site_of m)
          ∙ rw (site-IsSite m hm, contains-names img_dir (site_of m), s)
              (first_site (get (site_of m) img_dir) (get (site_of m) gbl)),
    )
