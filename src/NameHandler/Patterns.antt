-- ===== src/NameHandler/Patterns.antt =====
-- The naming patterns of name_handler.py and their tests.
pub mod Laws
use pmfuzz.Base.{
  ℕ, Bool, true, false, not, ◌&&◌, ◌||◌, List, [], ◌∷◌, ◌++◌, ◌≡◌, refl, ◌==◌, Text, codes,
}
use pmfuzz.Str.{ends_with}
use pmfuzz.Str.Path.{basename}
use pmfuzz.Regex.{Regex, char, seq, lit, search_anchored}
use pmfuzz.NameHandler.Grammar.{name_re}

abbrev pub tc_ext : Text
tc_ext = codes "testcase"

abbrev pub hash_f_ext : Text
hash_f_ext = codes "hash"

abbrev pub cmpr_crash_site_ext : Text
cmpr_crash_site_ext = codes "crash_site.tar.gz"

abbrev pub crash_site_ext : Text
crash_site_ext = codes "crash_site"

abbrev pub cmpr_pm_img_ext : Text
cmpr_pm_img_ext = codes "pm_pool.tar.gz"

abbrev pub pm_img_ext : Text
pm_img_ext = codes "pm_pool"

abbrev pub ext_list : List Text
ext_list =
    tc_ext ∷ hash_f_ext ∷ cmpr_crash_site_ext ∷ crash_site_ext ∷ cmpr_pm_img_ext ∷ pm_img_ext ∷ []

-- An unescaped dot: any character but a newline.
abbrev any : Regex
any = char (λ c. not (c == b'\n'))

abbrev pub tar_gz : Text → Regex
tar_gz stem = seq (lit stem) (seq any (seq (lit (codes "tar")) (seq any (lit (codes "gz")))))

abbrev pub tc_min_regex : Regex
tc_min_regex = name_re (lit (codes ".min.testcase"))

abbrev pub tc_regex : Regex
tc_regex = name_re (lit (codes ".testcase"))

abbrev pub map_regex : Regex
map_regex = seq (lit (codes "map_")) tc_regex

abbrev pub pm_map_regex : Regex
pm_map_regex = seq (lit (codes "pm_map_")) tc_regex

abbrev pub crash_site_regex : Regex
crash_site_regex = name_re (lit (codes ".crash_site"))

abbrev pub cmpr_crash_site_regex : Regex
cmpr_crash_site_regex = name_re (tar_gz (codes ".crash_site"))

abbrev pub pm_img_regex : Regex
pm_img_regex = name_re (lit (codes ".pm_pool"))

abbrev pub pm_cmpr_img_regex : Regex
pm_cmpr_img_regex = name_re (tar_gz (codes ".pm_pool"))

unfoldable pub is_regex : Text → Regex → Bool
unfolding search_anchored basename
is_regex filename regex = search_anchored regex (basename filename)

-- `is_tc(filename, all=…)`
unfoldable pub is_tc : Text → Bool → Bool
is_tc filename all = is_regex filename tc_regex || (all && is_regex filename tc_min_regex)

unfoldable pub is_min_tc : Text → Bool
is_min_tc filename = is_regex filename tc_min_regex

unfoldable pub is_generic_tc : Text → Bool
is_generic_tc filename = is_tc filename true

unfoldable pub is_cmpr_img : Text → Bool
is_cmpr_img filename = is_regex filename pm_cmpr_img_regex

unfoldable pub is_img : Text → Bool
is_img filename = is_regex filename pm_img_regex

unfoldable pub is_map : Text → Bool
is_map filename = is_regex filename map_regex

unfoldable pub is_pm_map : Text → Bool
is_pm_map filename = is_regex filename pm_map_regex

unfoldable pub is_hash_f : Text → Bool
unfolding ends_with
is_hash_f filename = ends_with filename (b'.' ∷ hash_f_ext)

unfoldable pub is_crash_site : Text → Bool
is_crash_site filename = is_regex filename crash_site_regex

unfoldable pub is_cmpr_crash_site : Text → Bool
is_cmpr_crash_site filename = is_regex filename cmpr_crash_site_regex

-- The examples of the docstrings.
is_tc_runs :
    (is_tc (codes "id=010.id=19,id=012,id=013.testcase") false ≡ true)
    × (is_tc (codes "id=010id=19,id=012,id=013.testcase") false ≡ false)
    × (is_tc (codes "id=010.id=19,id=012,id=013.min.testcase") false ≡ false)
    × (is_tc (codes "id=010.id=19,id=012,id=013.min.testcase") true ≡ true)
unfolding is_tc is_regex
is_tc_runs = (refl, refl, refl, refl)

is_cmpr_runs :
    (is_cmpr_img (codes "/mnt/tmpfs/results/@dedup/id=000069.pm_pool.tar.gz") ≡ true)
    × (is_cmpr_crash_site (codes "id=000011.id=000046.79.crash_site.tar.gz") ≡ false)
    × (is_cmpr_crash_site (codes "id=000033.id=000027.crash_site.tar.gz") ≡ true)
unfolding is_cmpr_img is_cmpr_crash_site is_regex
is_cmpr_runs = (refl, refl, refl)
