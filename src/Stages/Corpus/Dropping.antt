-- ===== src/Stages/Corpus/Dropping.antt =====
-- What the loops over the dropped testcases leave.
use pmfuzz.Base.{
  Bool, true, false, ◌&&◌, ◌||◌, List, [], ◌∷◌, ◌≡◌, refl, ap, ◌∙◌, arith, if◌then◌else◌, Text,
  text_eq, contains, keep, map, All, Option, none, some, ok,
}
use pmfuzz.Str.Path.Laws.{no_dir-IsDir}
use pmfuzz.NameHandler.Grammar.{Name, IsName}
use pmfuzz.NameHandler.Metadata.Family.{Kind, metadata_of, get_metadata_files-file_name}
use pmfuzz.NameHandler.Metadata.Apart.{testcase_of, image_of, placeholder_of}
use pmfuzz.Core.DedupEngine.{values}
use pmfuzz.Stages.Folder.{Folder, get, is_some, is_file, put}
use pmfuzz.Stages.Folder.Laws.{get-put}
use pmfuzz.Stages.Hashes.{remove}
use pmfuzz.Stages.Hashes.Laws.{get-remove}
use pmfuzz.Stages.Update.Sites.{contains-keep}
use pmfuzz.Stages.Update.LocalLoop.{map_of}
use pmfuzz.Stages.Corpus.{no_archive, remove_each, drop_gbl}
use pmfuzz.Stages.Corpus.Families.{
  values-testcase, values-map, values-placeholder, image-placeholder, testcase-placeholder,
  map-placeholder, placeholder-placeholder, testcase-no_archive, map-no_archive, image-archive,
}

pub get-remove_each :
    (x : Text) (fs : List Text) (dir : Folder)
    → get x (remove_each fs dir) ≡ (if contains fs x then none else get x dir)
unfolding remove_each contains
get-remove_each x [] dir = refl
get-remove_each x (f ∷ fs) dir =
    get-remove_each x fs (remove f dir) ∙ rw (get-remove x f dir) (ground arith)

-- What a dropped testcase takes with it, at a name.
abbrev after_drop : Text → Text → Name → Option Text → Option Text
after_drop note x n old =
    if text_eq x (placeholder_of n)
    then some note
    else if contains (values (metadata_of [] n false)) x && no_archive x
    then none
    else old

get-drop_gbl :
    (note x : Text) (n : Name) (gbl : Folder)
    → get x (
        put
          (placeholder_of n)
          note
          (remove_each (keep no_archive (values (metadata_of [] n false))) gbl))
      ≡ after_drop note x n (get x gbl)
get-drop_gbl note x n gbl =
    rw
      (
        get-put x (placeholder_of n) note
            (remove_each (keep no_archive (values (metadata_of [] n false))) gbl),
        get-remove_each x (keep no_archive (values (metadata_of [] n false))) gbl,
        contains-keep no_archive (values (metadata_of [] n false)) x,
      )
      refl

abbrev pub dropped : List Name → Name → Bool
dropped ns m = contains (map testcase_of ns) (testcase_of m)

pub none_twice :
    (same later : Bool) (old next : Option Text)
    → next ≡ (if same then none else old)
    → (if later then none else next) ≡ (if same || later then none else old)
none_twice same later old next h = ground arith

there_twice :
    (same later was next : Bool) → next ≡ (same || was) → (later || next) ≡ ((same || later) || was)
there_twice same later was next h = ground arith

module _ (note : Text) (m : Name) (hm : IsName m) where
  -- The testcase and its map go, for a placeholder; the image stays.
  pub drop_gbl_lem :
      (ns : List Name) (gbl : Folder)
      → All IsName ns
      → (after : Folder) × (drop_gbl note (map testcase_of ns) gbl ≡ ok after)
        × (get (testcase_of m) after ≡ (if dropped ns m then none else get (testcase_of m) gbl))
        × (get (map_of m) after ≡ (if dropped ns m then none else get (map_of m) gbl))
        × (get (image_of m) after ≡ get (image_of m) gbl)
        × (is_file after (placeholder_of m) ≡ (dropped ns m || is_file gbl (placeholder_of m)))
  unfolding drop_gbl contains is_file
  drop_gbl_lem [] gbl h = (gbl, refl, refl, refl, refl, refl)
  drop_gbl_lem (n ∷ ns) gbl (hn, hs) =
      let next =
        put (placeholder_of n) note
          (remove_each (keep no_archive (values (metadata_of [] n false))) gbl) in
      let same = text_eq (testcase_of m) (testcase_of n) in
      let t : get (testcase_of m) next ≡ (if same then none else get (testcase_of m) gbl) =
        get-drop_gbl note (testcase_of m) n gbl
        ∙ rw (testcase-placeholder m n hm hn, values-testcase m n hm hn, testcase-no_archive m)
            (ground arith) in
      let p : get (map_of m) next ≡ (if same then none else get (map_of m) gbl) =
        get-drop_gbl note (map_of m) n gbl
        ∙ rw (map-placeholder m n hm hn, values-map m n hm hn, map-no_archive m) (ground arith) in
      let i : get (image_of m) next ≡ get (image_of m) gbl =
        get-drop_gbl note (image_of m) n gbl
        ∙ rw (image-placeholder m n hm hn, image-archive m) (ground arith) in
      let q : is_some (get (placeholder_of m) next)
          ≡ (same || is_some (get (placeholder_of m) gbl)) =
        ap is_some (get-drop_gbl note (placeholder_of m) n gbl)
        ∙ rw (placeholder-placeholder m n hm hn, values-placeholder m n hm hn) (ground arith) in
      let (after, e, t', p', i', q') = drop_gbl_lem ns next hs in
      (
        after,
        rw
            (
              get_metadata_files-file_name [] n no_dir-IsDir hn Kind.testcase false,
              get_metadata_files-file_name [] n no_dir-IsDir hn Kind.testcase true,
            )
            e,
        t' ∙ none_twice same (dropped ns m) _ _ t,
        p' ∙ none_twice same (dropped ns m) _ _ p,
        i' ∙ i,
        q' ∙ there_twice same (dropped ns m) _ _ q,
      )
