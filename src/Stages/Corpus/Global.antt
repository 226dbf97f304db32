-- ===== src/Stages/Corpus/Global.antt =====
-- What `minimize_corpus_gbl` leaves in the global store.
use mathlib.Core.Path.{subst}
use pmfuzz.Base.{
  true, false, not, ◌&&◌, ◌||◌, List, [], ◌∷◌, ◌++◌, ◌≡◌, refl, sym, ap, ◌∙◌, arith, if◌then◌else◌,
  Text, codes, contains, keep, map, All, Option, none, some, ok,
}
use pmfuzz.Str.Path.Laws.{no_dir-IsDir}
use pmfuzz.NameHandler.Grammar.{Name, IsName}
use pmfuzz.NameHandler.Patterns.{is_tc}
use pmfuzz.NameHandler.Patterns.Laws.{is_tc-render}
use pmfuzz.NameHandler.Metadata.Family.{Kind, get_metadata_files-file_name}
use pmfuzz.NameHandler.Metadata.Apart.{testcase_of, image_of, placeholder_of}
use pmfuzz.Stages.Dedup.{first_of, with_images, global_dedup_list_tc}
use pmfuzz.Stages.Folder.{Folder, names, get, is_file}
use pmfuzz.Stages.Folder.Laws.{contains-names}
use pmfuzz.Stages.Update.Sites.{Has, listed-Has, contains-keep, All-keep}
use pmfuzz.Stages.Update.LocalLoop.{map_of}
use pmfuzz.Stages.Update.Local.{map_join_nothing}
use pmfuzz.Stages.Corpus.{Corpus, empty_corpus, minimize_corpus_gbl}
use pmfuzz.Stages.Corpus.Dropping.{dropped, drop_gbl_lem}
use pmfuzz.Stages.Corpus.Copies.{
  IsTestcase, testcases-IsTestcase, copy_corpus_lem, dropped_files_lem,
}

-- The listing of testcases has them, whether their images are there or not.
pub firsts-with_images :
    (files : List Text) (ns : List Name)
    → All IsName ns
    → (es : List (Text × Option Text)) × (with_images files (map testcase_of ns) ≡ ok es)
      × (map first_of es ≡ map testcase_of ns)
unfolding with_images
firsts-with_images files [] h = ([], refl, refl)
firsts-with_images files (n ∷ ns) (h, hs) =
    let (es, e, q) = firsts-with_images files ns hs in
    let img = if contains files (image_of n) then some (image_of n) else none in
    (
      (testcase_of n, img) ∷ es,
      rw (get_metadata_files-file_name [] n no_dir-IsDir h Kind.testcase false, e) refl,
      ap (λ xs. testcase_of n ∷ xs) q,
    )

pub keep_testcases :
    (ns : List Name)
    → All IsName ns
    → keep (λ f. is_tc f false) (map testcase_of ns) ≡ map testcase_of ns
unfolding keep
keep_testcases [] h = refl
keep_testcases (n ∷ ns) (h, hs) =
    rw (is_tc-render n h) (ap (λ xs. testcase_of n ∷ xs) (keep_testcases ns hs))

pub All-to-map :
    (P : Text → Type 0) (ns : List Name)
    → All (λ n. P (testcase_of n)) ns
    → All P (map testcase_of ns)
All-to-map P [] h = tt
All-to-map P (n ∷ ns) (h, hs) = (h, All-to-map P ns hs)

-- A directory's testcases, and what the first steps of `minimize_corpus_gbl` make of them.
module _ (gbl : Folder) (ns : List Name) (m : Name) (hm : IsName m) where
  pub inside_store :
      keep (λ f. is_tc f false) (names gbl) ≡ map testcase_of ns
      → contains (map testcase_of ns) (testcase_of m) ≡ is_file gbl (testcase_of m)
  inside_store listed =
      ap (λ xs. contains xs (testcase_of m)) (sym listed)
      ∙ contains-keep (λ f. is_tc f false) (names gbl) (testcase_of m)
      ∙ rw (is_tc-render m hm, contains-names gbl (testcase_of m)) (ground arith)

-- Where the testcases of the global store are names, each with its map, and afl-cmin does not fail,
-- `minimize_corpus_gbl` does not fail. It gives afl-cmin the testcases of the store and no other file.
-- A testcase and its map are then gone if the store had the testcase and afl-cmin did not leave it,
-- and as before otherwise. An image is as before, and a placeholder is there if it was there or if the
-- testcase is gone.
pub minimize_corpus_gbl_lem :
    (cmin : Folder → Folder → List Text) (note : Text) (gbl : Folder) (ns : List Name) (m : Name)
    → keep (λ f. is_tc f false) (names gbl) ≡ map testcase_of ns
    → All IsName ns
    → All (λ n. Has gbl (map_of n)) ns
    → IsName m
    → (corpus : Corpus) × (after : Folder) × (minimize_corpus_gbl
          (λ i p. some (cmin i p))
          true
          note
          gbl
        ≡ ok after)
      × ((f : Text) → is_file corpus.indir f ≡ (is_file gbl f && is_tc f false))
      × (get (testcase_of m) after ≡ (
          if is_file gbl (testcase_of m)
            && not (contains (cmin corpus.indir corpus.mapdir) (testcase_of m))
          then none
          else get (testcase_of m) gbl))
      × (get (map_of m) after ≡ (
          if is_file gbl (testcase_of m)
            && not (contains (cmin corpus.indir corpus.mapdir) (testcase_of m))
          then none
          else get (map_of m) gbl))
      × (get (image_of m) after ≡ get (image_of m) gbl)
      × (is_file after (placeholder_of m) ≡ (
          (is_file gbl (testcase_of m)
            && not (contains (cmin corpus.indir corpus.mapdir) (testcase_of m)))
          || is_file gbl (placeholder_of m)))
unfolding minimize_corpus_gbl global_dedup_list_tc names is_file get
minimize_corpus_gbl_lem cmin note gbl ns m listed h k hm =
    let there : All (Has gbl) (map testcase_of ns) =
      subst (All (Has gbl)) listed
        (All-keep (Has gbl) (λ f. is_tc f false) (names gbl) (listed-Has gbl)) in
    let (es, e, firsts) = firsts-with_images (names gbl) ns h in
    let (corpus, copied, g) =
      copy_corpus_lem gbl (map testcase_of ns) empty_corpus there
        (All-to-map (λ t. Has gbl (codes "map_" ++ t)) ns k) in
    let out = cmin corpus.indir corpus.mapdir in
    let (ds, hd, d, which) =
      dropped_files_lem corpus.indir out (g.every IsTestcase (testcases-IsTestcase ns h) tt) in
    let (after, q, t, p, i, r) = drop_gbl_lem note m hm ds gbl hd in
    let found : (f : Text) → is_file corpus.indir f ≡ (is_file gbl f && is_tc f false) = λ f.
      g.found f
      ∙ ap (λ xs. contains xs f || false) (sym listed)
      ∙ rw (contains-keep (λ f. is_tc f false) (names gbl) f, contains-names gbl f)
          (ground arith) in
    let gone : dropped ds m ≡ (is_file gbl (testcase_of m) && not (contains out (testcase_of m))) =
      which m ∙ rw (found (testcase_of m), is_tc-render m hm) (ground arith) in
    (
      corpus,
      after,
      rw (map_join_nothing (names gbl), listed, e, firsts, keep_testcases ns h, copied, d, q) refl,
      found,
      t ∙ ap (λ b. if b then none else get (testcase_of m) gbl) gone,
      p ∙ ap (λ b. if b then none else get (map_of m) gbl) gone,
      i,
      r ∙ ap (λ b. b || is_file gbl (placeholder_of m)) gone,
    )
