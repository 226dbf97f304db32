-- ===== src/Stages/UpdateTests.antt =====
-- The theorems about `update_global` and `update_local` at small directories.
use pmfuzz.Base.{
  false, ◌&&◌, [], ◌∷◌, ◌≡◌, refl, if◌then◌else◌, codes, text_eq, contains, keep, map, ok, All,
  some,
}
use pmfuzz.Str.{replace, is_in, split_at}
use pmfuzz.Str.Path.{basename, join, dirname}
use pmfuzz.NameHandler.Grammar.{Name, IsName}
use pmfuzz.NameHandler.Patterns.{is_tc, is_regex, is_cmpr_crash_site}
use pmfuzz.NameHandler.Metadata.{get_metadata_files, testcase_name}
use pmfuzz.NameHandler.Metadata.Apart.{testcase_of, image_of, site_of}
use pmfuzz.NameHandler.Lineage.{ancestor_cnt, iter_cnt}
use pmfuzz.Stages.Dedup.{global_dedup_list_tc, with_images}
use pmfuzz.Stages.Folder.{Folder, names, get, is_file, put, copypreserve, copy_if_there}
use pmfuzz.Stages.Update.{
  update_global, update_local, without_min, local_testcases_list, pair_images, update_tcs,
  update_cs, copy_to_local, global_dedup_list_cs, update_local_cs, update_local_tcs,
}
use pmfuzz.Stages.Update.Families.{is_fresh}
use pmfuzz.Stages.Update.Global.{update_global_lem}
use pmfuzz.Stages.Update.LocalLoop.{is_wanted}
use pmfuzz.Stages.Update.Local.{update_local_lem}

abbrev five : Name
five = record { first = codes "5"; rest = [] }

five-IsName : IsName five
five-IsName = ((refl, tt), tt)

abbrev testcases : Folder
testcases = (codes "id=5.testcase", codes "t") ∷ (codes "map_id=5.testcase", codes "m") ∷ []

abbrev images : Folder
images = (codes "id=5.pm_pool.tar.gz", codes "i") ∷ (codes "id=5.crash_site.tar.gz", codes "c") ∷ []

abbrev store : Folder
store =
    (codes "id=5.testcase", codes "t")
    ∷ (codes "map_id=5.testcase", codes "m")
    ∷ (codes "id=5.pm_pool.tar.gz", codes "i")
    ∷ []

one_testcase : keep (λ f. is_tc f false) (names testcases) ≡ map testcase_of (five ∷ [])
unfolding names keep is_tc is_regex basename
one_testcase = refl

one_stored : keep (λ f. is_tc f false) (names store) ≡ map testcase_of (five ∷ [])
unfolding names keep is_tc is_regex basename
one_stored = refl

image_there : get (image_of five) images ≡ some (codes "i")
unfolding get text_eq
image_there = refl

image_stored : get (image_of five) store ≡ some (codes "i")
unfolding get text_eq
image_stored = refl

map_stored : get (codes "map_id=5.testcase") store ≡ some (codes "m")
unfolding get text_eq
map_stored = refl

plain_names : All (λ f. basename f ≡ f) (names store)
unfolding names basename
plain_names = (refl, (refl, (refl, tt)))

update_global_lem_example :
    (after : Folder) × (update_global testcases images [] ≡ ok after)
    × (get (testcase_of five) after ≡ (
        if is_file testcases (testcase_of five) && is_fresh (names []) five
        then get (testcase_of five) testcases
        else get (testcase_of five) []))
    × (get (image_of five) after ≡ (
        if is_file testcases (testcase_of five) && is_fresh (names []) five
        then get (image_of five) images
        else get (image_of five) []))
    × (get (site_of five) after
        ≡ (if is_file [] (site_of five) then get (site_of five) [] else get (site_of five) images))
update_global_lem_example =
    update_global_lem testcases images [] (five ∷ []) five one_testcase (five-IsName, tt)
      ((codes "i", image_there), tt) five-IsName

update_local_lem_example :
    (after : Folder) × (update_local 2 1 store [] ≡ ok after)
    × (get (testcase_of five) after ≡ (
        if is_file store (testcase_of five) && is_wanted 1 (map without_min (names [])) five
        then get (testcase_of five) store
        else get (testcase_of five) []))
    × (get (image_of five) after ≡ (
        if is_file store (testcase_of five) && is_wanted 1 (map without_min (names [])) five
        then get (image_of five) store
        else get (image_of five) []))
    × (get (site_of five) after
        ≡ (if is_file [] (site_of five) then get (site_of five) [] else get (site_of five) store))
update_local_lem_example =
    update_local_lem 1 store [] (five ∷ []) five plain_names one_stored (five-IsName, tt)
      ((codes "i", image_stored), tt) ((codes "m", map_stored), tt) five-IsName

-- A run: the second testcase of the store belongs to iteration 2.
local_runs :
    (update_global testcases images ((codes "id=5.deleted", codes "d") ∷ [])
      ≡ ok ((codes "id=5.deleted", codes "d") ∷ (codes "id=5.crash_site.tar.gz", codes "c") ∷ []))
    × (update_local 2 2 store [] ≡ ok [])
unfolding update_global update_local local_testcases_list pair_images keep names is_tc is_regex
    is_file get text_eq replace update_tcs get_metadata_files testcase_name is_in contains join
    dirname ancestor_cnt iter_cnt is_cmpr_crash_site global_dedup_list_tc with_images copy_if_there
    copypreserve put copy_to_local global_dedup_list_cs update_cs update_local_cs update_local_tcs
    basename split_at
local_runs = (refl, refl)
