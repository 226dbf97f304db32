-- ===== src/NameHandler/Tests.antt =====
-- The theorems about name_handler.py at `/out/id=3.id=7,id=12` and its files.
use pmfuzz.Base.{
  Bool, true, false, [], ◌∷◌, ◌++◌, ◌≡◌, refl, Text, codes, ok, ◌>>=◌, pos, ◌↔◌, arith,
}
use pmfuzz.Str.{interleave, is_in}
use pmfuzz.Str.Path.{basename, ends_with_sep}
use pmfuzz.Str.Path.Laws.{IsDir}
use pmfuzz.Regex.Laws.{IsTail}
use pmfuzz.NameHandler.Grammar.{Name, Link, IsName, render}
use pmfuzz.NameHandler.Patterns.{is_tc, is_cmpr_crash_site}
use pmfuzz.NameHandler.Patterns.Laws.{is_tc_iff, is_cmpr_crash_site_dots}
use pmfuzz.NameHandler.Metadata.{get_metadata_files}
use pmfuzz.NameHandler.Metadata.Family.{Kind, metadata_of, get_metadata_files-file_name}
use pmfuzz.NameHandler.Stage.{get_outdir_name, get_stage_inf}
use pmfuzz.NameHandler.Stage.Laws.{get_stage_inf-get_outdir_name}
use pmfuzz.NameHandler.Lineage.{get_testcase_parent, init}
use pmfuzz.NameHandler.Lineage.Parent.{get_testcase_parent-render}
use pmfuzz.NameHandler.Image.{set_img_path, has_mark}
use pmfuzz.NameHandler.Image.Laws.{set_img_path_none}

abbrev name : Name
name = record { first = codes "3"; rest = Link.dot (codes "7") ∷ Link.comma (codes "12") ∷ [] }

name-IsName : IsName name
name-IsName = ((refl, tt), ((refl, tt), ((refl, (refl, tt)), tt)))

out : IsDir (codes "/out")
unfolding ends_with_sep
out = refl

get_metadata_files-file_name_example :
    get_metadata_files (codes "/out/map_id=3.id=7,id=12.testcase") true
    ≡ ok (metadata_of (codes "/out") name true)
get_metadata_files-file_name_example =
    get_metadata_files-file_name (codes "/out") name out name-IsName Kind.map true

get_testcase_parent-render_example :
    get_testcase_parent (codes "/out/id=3.id=7,id=12.testcase") ≡ ok (codes "id=3.id=7.testcase")
unfolding init
get_testcase_parent-render_example = get_testcase_parent-render (codes "/out") name out name-IsName

get_stage_inf-get_outdir_name_example :
    (get_outdir_name (pos 2) (pos 13) >>= get_stage_inf) ≡ ok (pos 2, pos 13)
get_stage_inf-get_outdir_name_example =
    get_stage_inf-get_outdir_name 2 13 (ground arith) (ground arith)

is_tc_iff_example : (is_tc (codes "/out/id=3.testcase") false ≡ true) ↔ (
    (n : Name) × IsName n
    × (e : Text) × IsTail e
    × (basename (codes "/out/id=3.testcase") ≡ render n (codes ".testcase") ++ e))
is_tc_iff_example = is_tc_iff (codes "/out/id=3.testcase")

is_cmpr_crash_site_dots_example :
    is_cmpr_crash_site (codes "id=3.id=7,id=12.crash_site-tar-gz") ≡ true
is_cmpr_crash_site_dots_example =
    is_cmpr_crash_site_dots name b'-' b'-' name-IsName (ground arith, ground arith)
      (ground arith, ground arith)

marks : has_mark (codes "run" ∷ []) ≡ false
unfolding has_mark is_in
marks = refl

-- A command with no marker, and one whose second word is the marker.
set_img_path_none_example :
    set_img_path (codes "run" ∷ []) (codes "P") (codes "/tmp/") ≡ (codes "P", codes "PrPuPnP" ∷ [])
unfolding interleave
set_img_path_none_example = set_img_path_none (codes "run" ∷ []) (codes "P") (codes "/tmp/") marks

abbrev only_images : Text → Bool
only_images p = is_in (codes "pm_pool") p
