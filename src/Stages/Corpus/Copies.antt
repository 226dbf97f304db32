-- ===== src/Stages/Corpus/Copies.antt =====
-- Which testcases `minimize_corpus_gbl` and `minimize_corpus_lcl` give to afl-cmin.
use pmfuzz.Base.{
  Bool, false, not, ◌&&◌, ◌||◌, List, [], ◌∷◌, ◌++◌, ◌≡◌, inl, inr, refl, sym, ap, ◌∙◌, arith,
  if◌then◌else◌, Text, codes, text_eq, contains, keep, map, All, ok, Bool-cases,
}
use pmfuzz.NameHandler.Grammar.{Name, IsName}
use pmfuzz.NameHandler.Patterns.{is_tc, is_map, is_pm_map}
use pmfuzz.NameHandler.Metadata.Apart.{testcase_of}
use pmfuzz.Stages.Folder.{Folder, names, is_file, put, copy_if_there}
use pmfuzz.Stages.Folder.Laws.{get-put, contains-names, copypreserve-some}
use pmfuzz.Stages.Update.Sites.{Has, contains-keep, All-keep}
use pmfuzz.Stages.Corpus.{Corpus, copy_corpus, add_corpus, dropped_files}
use pmfuzz.Stages.Corpus.Dropping.{dropped}

-- The text is the testcase of a name.
abbrev pub IsTestcase : Text → Type 0
IsTestcase f = (n : Name) × IsName n × (f ≡ testcase_of n)

pub testcases-IsTestcase : (ns : List Name) → All IsName ns → All IsTestcase (map testcase_of ns)
testcases-IsTestcase [] h = tt
testcases-IsTestcase (n ∷ ns) (h, hs) = ((n, h, refl), testcases-IsTestcase ns hs)

pub names_of_testcases :
    (fs : List Text)
    → All IsTestcase fs
    → (ds : List Name) × All IsName ds × (fs ≡ map testcase_of ds)
names_of_testcases [] h = ([], tt, refl)
names_of_testcases (f ∷ fs) ((n, h, e), hs) =
    let (ds, k, e') = names_of_testcases fs hs in (n ∷ ds, (h, k), rw (e, e') refl)

names-put :
    (P : Text → Type 0) (name content : Text) (dir : Folder)
    → P name
    → All P (names dir)
    → All P (names (put name content dir))
unfolding names put
names-put P name content [] h hs = (h, tt)
names-put P name content ((n, old) ∷ files) h (k, ks) = elim (Bool-cases (text_eq name n)) [
  | inl e ↦ rw e (k, ks)
  | inr e ↦ rw e (k, names-put P name content files h ks)
]

is_file-put :
    (x name content : Text) (dir : Folder)
    → is_file (put name content dir) x ≡ (text_eq x name || is_file dir x)
unfolding is_file
is_file-put x name content dir = rw (get-put x name content dir) (ground arith)

-- The corpus has the given testcases besides those it had, and no other file.
pub record Gathers (tcs : List Text) (before after : Folder) : Type 1 where
  pub found : (x : Text) → is_file after x ≡ (contains tcs x || is_file before x)
  pub every : (P : Text → Type 0) → All P tcs → All P (names before) → All P (names after)

Gathers-none : (dir : Folder) → Gathers [] dir dir
unfolding contains
Gathers-none dir = record { found = λ x. refl; every = λ P h k. k }

Gathers-one :
    (t content : Text) (tcs : List Text) (before after : Folder)
    → Gathers tcs (put t content before) after
    → Gathers (t ∷ tcs) before after
unfolding contains
Gathers-one t content tcs before after g = record {
  found = λ x. g.found x ∙ rw (is_file-put x t content before) (ground arith);
  every = λ P (h, hs) k. g.every P hs (names-put P t content before h k);
}

pub copy_corpus_lem :
    (gbl : Folder) (tcs : List Text) (corpus : Corpus)
    → All (Has gbl) tcs
    → All (λ t. Has gbl (codes "map_" ++ t)) tcs
    → (after : Corpus) × (copy_corpus gbl tcs corpus ≡ ok after)
      × Gathers tcs corpus.indir after.indir
unfolding copy_corpus
copy_corpus_lem gbl [] corpus h k = (corpus, refl, Gathers-none corpus.indir)
copy_corpus_lem gbl (t ∷ tcs) corpus ((content, there), hs) ((c, there'), ks) =
    let pm_map_f = codes "pm_map_" ++ t in
    let mapdir = copy_if_there pm_map_f gbl pm_map_f (put (codes "map_" ++ t) c corpus.mapdir) in
    let next : Corpus = record { indir = put t content corpus.indir; mapdir = mapdir } in
    let (after, e, g) = copy_corpus_lem gbl tcs next hs ks in
    (
      after,
      rw
          (
            copypreserve-some t t content gbl corpus.indir there,
            copypreserve-some (codes "map_" ++ t) (codes "map_" ++ t) c gbl corpus.mapdir there',
          )
          e,
      Gathers-one t content tcs corpus.indir after.indir g,
    )

pub add_corpus_lem :
    (dir : Folder) (fs : List Text) (corpus : Corpus)
    → All (Has dir) fs
    → (after : Corpus) × (add_corpus dir fs corpus ≡ ok after)
      × Gathers (keep (λ f. is_tc f false) fs) corpus.indir after.indir
unfolding add_corpus keep
add_corpus_lem dir [] corpus h = (corpus, refl, Gathers-none corpus.indir)
add_corpus_lem dir (f ∷ fs) corpus ((content, there), hs) = elim (Bool-cases (is_tc f false)) [
  | inl e ↦
      let next : Corpus = record { indir = put f content corpus.indir; mapdir = corpus.mapdir } in
      let (after, q, g) = add_corpus_lem dir fs next hs in
      (
        after,
        rw (e, copypreserve-some f f content dir corpus.indir there) q,
        rw e (Gathers-one f content _ corpus.indir after.indir g),
      )
  | inr e ↦
      let mapdir =
        if is_map f || is_pm_map f then copy_if_there f dir f corpus.mapdir else corpus.mapdir in
      let next : Corpus = record { indir = corpus.indir; mapdir = mapdir } in
      let (after, q, g) = add_corpus_lem dir fs next hs in (after, rw e q, rw e g)
]

-- What is dropped of a corpus of testcases: those that are not left.
pub dropped_files_lem :
    (indir : Folder) (out : List Text)
    → All IsTestcase (names indir)
    → (ds : List Name) × All IsName ds
      × (dropped_files indir out ≡ map testcase_of ds)
      × ((m : Name)
          → dropped ds m ≡ (is_file indir (testcase_of m) && not (contains out (testcase_of m))))
dropped_files_lem indir out h =
    let is_out : Text → Bool = λ f. not (contains out f) in
    let (ds, k, e) =
      names_of_testcases (dropped_files indir out) (All-keep IsTestcase is_out (names indir) h) in
    (
      ds,
      k,
      e,
      λ m.
          ap (λ xs. contains xs (testcase_of m)) (sym e)
          ∙ contains-keep is_out (names indir) (testcase_of m)
          ∙ ap (λ b. b && is_out (testcase_of m)) (contains-names indir (testcase_of m)),
    )
