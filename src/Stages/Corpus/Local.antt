-- ===== src/Stages/Corpus/Local.antt =====
-- What `minimize_corpus_lcl` leaves in the directory of the stage and in the global store.
use pmfuzz.Base.{
  Bool, false, not, ◌&&◌, ◌||◌, List, [], ◌≡◌, refl, sym, ◌∙◌, arith, if◌then◌else◌, Text, contains,
  keep, map, All, none, some, ok,
}
use mathlib.Core.Path.{subst}
use pmfuzz.NameHandler.Grammar.{Name, IsName}
use pmfuzz.NameHandler.Patterns.{is_tc}
use pmfuzz.NameHandler.Metadata.Apart.{testcase_of, image_of, placeholder_of}
use pmfuzz.Stages.Folder.{Folder, names, get, is_file}
use pmfuzz.Stages.Folder.Laws.{contains-names}
use pmfuzz.Stages.Update.Sites.{listed-Has, contains-keep}
use pmfuzz.Stages.Corpus.{Corpus, empty_corpus, minimize_corpus_lcl}
use pmfuzz.Stages.Corpus.Dropping.{dropped}
use pmfuzz.Stages.Corpus.Shared.{has_any, drop_local_lem, drop_shared_lem}
use pmfuzz.Stages.Corpus.Copies.{
  IsTestcase, testcases-IsTestcase, Gathers, add_corpus_lem, dropped_files_lem,
}

-- The testcases of both directories.
gathered :
    (loc tc_dir : Folder) (corpus₁ corpus₂ : Corpus)
    → Gathers (keep (λ f. is_tc f false) (names loc)) [] corpus₁.indir
    → Gathers (keep (λ f. is_tc f false) (names tc_dir)) corpus₁.indir corpus₂.indir
    → (f : Text) → is_file corpus₂.indir f ≡ ((is_file loc f || is_file tc_dir f) && is_tc f false)
unfolding is_file get
gathered loc tc_dir corpus₁ corpus₂ g₁ g₂ f =
    g₂.found f
    ∙ rw
        (
          g₁.found f,
          contains-keep (λ t. is_tc t false) (names loc) f,
          contains-keep (λ t. is_tc t false) (names tc_dir) f,
          contains-names loc f,
          contains-names tc_dir f,
        )
        (ground arith)

-- Where the testcases of the local store and of the stage's directory are names and afl-cmin does not
-- fail, `minimize_corpus_lcl` does not fail. It gives afl-cmin the testcases of these two directories
-- and no other file; call one of them dropped if afl-cmin did not leave it. A testcase that was
-- dropped is gone from the directory of the stage and from the global store, and another one is as
-- before there. The images of the global store are as before. A placeholder is in the global store if
-- it was there, or if its testcase was dropped and the store had the testcase, its minimized testcase
-- or one of its maps.
pub minimize_corpus_lcl_lem :
    (cmin : Folder → Folder → List Text) (note : Text) (loc tc_dir gbl : Folder) (ns ls : List Name)
    (m : Name)
    → keep (λ f. is_tc f false) (names loc) ≡ map testcase_of ls
    → keep (λ f. is_tc f false) (names tc_dir) ≡ map testcase_of ns
    → All IsName ls
    → All IsName ns
    → IsName m
    → (corpus : Corpus) × (is_dropped : Bool) × (tc_dir' : Folder) × (gbl' : Folder)
      × (minimize_corpus_lcl (λ i p. some (cmin i p)) note loc tc_dir gbl ≡ ok (tc_dir', gbl'))
      × ((f : Text)
          → is_file corpus.indir f ≡ ((is_file loc f || is_file tc_dir f) && is_tc f false))
      × (is_dropped ≡ (
          is_file corpus.indir (testcase_of m)
          && not (contains (cmin corpus.indir corpus.mapdir) (testcase_of m))))
      × (get (testcase_of m) tc_dir' ≡ (if is_dropped then none else get (testcase_of m) tc_dir))
      × (get (testcase_of m) gbl' ≡ (if is_dropped then none else get (testcase_of m) gbl))
      × (get (image_of m) gbl' ≡ get (image_of m) gbl)
      × (is_file gbl' (placeholder_of m)
          ≡ (is_file gbl (placeholder_of m) || (is_dropped && has_any gbl m)))
unfolding minimize_corpus_lcl names
minimize_corpus_lcl_lem cmin note loc tc_dir gbl ns ls m listed₁ listed₂ h₁ h₂ hm =
    let all_names : (dir : Folder) (qs : List Name)
        → keep (λ f. is_tc f false) (names dir) ≡ map testcase_of qs
        → All IsName qs
        → All IsTestcase (keep (λ f. is_tc f false) (names dir)) =
      λ dir qs e h. subst (All IsTestcase) (sym e) (testcases-IsTestcase qs h) in
    let (shared, e₁, g₁) = add_corpus_lem loc (names loc) empty_corpus (listed-Has loc) in
    let (corpus, e₂, g₂) = add_corpus_lem tc_dir (names tc_dir) shared (listed-Has tc_dir) in
    let out = cmin corpus.indir corpus.mapdir in
    let (ds, hd, d, which) = dropped_files_lem corpus.indir out (
      g₂.every IsTestcase (all_names tc_dir ns listed₂ h₂)
        (g₁.every IsTestcase (all_names loc ls listed₁ h₁) tt)) in
    let (tc_dir', q, t) = drop_local_lem m ds tc_dir hm hd in
    let (gbl', q', t', i, r) = drop_shared_lem note m hm ds gbl hd in
    (
      corpus,
      dropped ds m,
      tc_dir',
      gbl',
      rw (e₁, e₂, d, q, q') refl,
      gathered loc tc_dir shared corpus g₁ g₂,
      which m,
      t,
      t',
      i,
      r,
    )
