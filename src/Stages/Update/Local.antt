-- ===== src/Stages/Update/Local.antt =====
-- What `update_local` leaves in the local store of an iteration.
use mathlib.Core.Path.{subst}
use pmfuzz.Base.{
  ℕ, Bool, true, false, not, ◌&&◌, List, [], ◌∷◌, ◌≡◌, inl, inr, refl, sym, ap, ◌∙◌, arith,
  if◌then◌else◌, Text, contains, keep, map, All, Option, none, some, Result, ok, err, ◌>>=◌,
  Bool-cases,
}
use pmfuzz.Str.Path.{basename, join}
use pmfuzz.NameHandler.Grammar.{Name, IsName}
use pmfuzz.NameHandler.Patterns.{is_tc, is_cmpr_crash_site}
use pmfuzz.NameHandler.Patterns.Laws.{is_tc-render}
use pmfuzz.NameHandler.Metadata.Apart.{
  testcase_of, image_of, site_of, testcase-not_site, image-not_site, site-IsSite,
}
use pmfuzz.Stages.Dedup.{global_dedup_list_tc}
use pmfuzz.Stages.Folder.{Folder, names, get, is_some, is_file, copypreserve}
use pmfuzz.Stages.Folder.Laws.{contains-names}
use pmfuzz.Stages.Update.{
  global_dedup_list_cs, without_min, update_local_cs, update_cs, update_local,
}
use pmfuzz.Stages.Update.Sites.{
  Has, listed-Has, update_cs_lem, contains-keep, All-keep, All-of-map, no_site,
}
use pmfuzz.Stages.Update.LocalLoop.{map_of, is_wanted, with_images_lem, update_local_tcs_lem}

same_next :
    (r : Result Folder) (f g : Folder → Result Folder)
    → ((folder : Folder) → f folder ≡ g folder)
    → (r >>= f) ≡ (r >>= g)
same_next (ok folder) f g h = h folder
same_next (err e) f g h = refl

-- On plain names that are crash sites the loop is that of `update_global`.
update_local_cs-update_cs :
    (gbl : Folder) (css : List Text) (loc : Folder)
    → All (λ f. basename f ≡ f) css
    → All (λ f. is_cmpr_crash_site f ≡ true) css
    → update_local_cs gbl css loc ≡ update_cs gbl css loc
unfolding update_local_cs update_cs
update_local_cs-update_cs gbl [] loc h k = refl
update_local_cs-update_cs gbl (cs ∷ css) loc (h, hs) (k, ks) =
    rw (h, k)
      (same_next (if not (contains (names loc) cs) then copypreserve cs gbl cs loc else ok loc)
        (update_local_cs gbl css) (update_cs gbl css)
        (λ folder. update_local_cs-update_cs gbl css folder hs ks))

keep_passes : (p : Text → Bool) (xs : List Text) → All (λ f. p f ≡ true) (keep p xs)
unfolding keep
keep_passes p [] = tt
keep_passes p (x ∷ xs) = elim (Bool-cases (p x)) [
  | inl e ↦ rw e (e, keep_passes p xs)
  | inr e ↦ rw e (keep_passes p xs)
]

pub map_join_nothing : (xs : List Text) → map (join []) xs ≡ xs
unfolding join
map_join_nothing [] = refl
map_join_nothing (x ∷ xs) = ap (◌∷◌ x) (map_join_nothing xs)

listed_site :
    (a b : Option Text)
    → (if (is_some a && true) && true && not (is_some b) then a else b)
      ≡ (if is_some b then b else a)
listed_site none none = refl
listed_site none (some b) = refl
listed_site (some a) none = refl
listed_site (some a) (some b) = refl

-- Where the testcases of the global store are names, each with its image and its map, `update_local`
-- of an iteration of stage 2 does not fail. A testcase and its image are then those of the global
-- store if this has the testcase, as many ids of it as the iteration stand behind commas, the first
-- one counted, and the local store did not list it; otherwise they are as before. A compressed crash
-- site is the one that was there, or else that of the global store.
pub update_local_lem :
    (iter_id : ℕ) (gbl loc : Folder) (ns : List Name) (m : Name)
    → All (λ f. basename f ≡ f) (names gbl)
    → keep (λ f. is_tc f false) (names gbl) ≡ map testcase_of ns
    → All IsName ns
    → All (λ n. Has gbl (image_of n)) ns
    → All (λ n. Has gbl (map_of n)) ns
    → IsName m
    → (after : Folder) × (update_local 2 iter_id gbl loc ≡ ok after)
      × (get (testcase_of m) after ≡ (
          if is_file gbl (testcase_of m) && is_wanted iter_id (map without_min (names loc)) m
          then get (testcase_of m) gbl
          else get (testcase_of m) loc))
      × (get (image_of m) after ≡ (
          if is_file gbl (testcase_of m) && is_wanted iter_id (map without_min (names loc)) m
          then get (image_of m) gbl
          else get (image_of m) loc))
      × (get (site_of m) after
          ≡ (if is_file loc (site_of m) then get (site_of m) loc else get (site_of m) gbl))
unfolding update_local global_dedup_list_tc global_dedup_list_cs is_file
update_local_lem iter_id gbl loc ns m plain listed h k l hm =
    let is_testcase : Text → Bool = λ f. is_tc f false in
    let there : All (λ n. Has gbl (testcase_of n)) ns = All-of-map (Has gbl) ns (
      subst (All (Has gbl)) listed (All-keep (Has gbl) is_testcase (names gbl) (listed-Has gbl))) in
    let inside : contains (map testcase_of ns) (testcase_of m) ≡ is_file gbl (testcase_of m) =
      ap (λ xs. contains xs (testcase_of m)) (sym listed)
      ∙ contains-keep is_testcase (names gbl) (testcase_of m)
      ∙ rw (is_tc-render m hm, contains-names gbl (testcase_of m)) (ground arith) in
    let listing = map without_min (names loc) in
    let css = keep is_cmpr_crash_site (names gbl) in
    let (next, e, (t, i, s)) = update_local_tcs_lem gbl m hm iter_id listing ns loc h there k l in
    let (after, e', found) =
      update_cs_lem gbl css next
        (All-keep (Has gbl) is_cmpr_crash_site (names gbl) (listed-Has gbl)) in
    let sites : update_local_cs gbl css next ≡ ok after =
      update_local_cs-update_cs gbl css next
        (All-keep (λ f. basename f ≡ f) is_cmpr_crash_site (names gbl) plain)
        (keep_passes is_cmpr_crash_site (names gbl))
      ∙ e' in
    (
      after,
      rw (map_join_nothing (names gbl), listed, with_images_lem gbl ns h k, e) sites,
      found (testcase_of m)
          ∙ no_site (contains css (testcase_of m)) _ _ _ _ (testcase-not_site m hm)
          ∙ t
          ∙ ap
              (λ b.
                if b && is_wanted iter_id listing m
                then get (testcase_of m) gbl
                else get (testcase_of m) loc)
              inside,
      found (image_of m)
          ∙ no_site (contains css (image_of m)) _ _ _ _ (image-not_site m hm)
          ∙ i
          ∙ ap
              (λ b.
                if b && is_wanted iter_id listing m
                then get (image_of m) gbl
                else get (image_of m) loc)
              inside,
      found (site_of m)
          ∙ rw
              (
                contains-keep is_cmpr_crash_site (names gbl) (site_of m),
                site-IsSite m hm,
                contains-names gbl (site_of m),
                s,
              )
              (listed_site (get (site_of m) gbl) (get (site_of m) loc)),
    )
