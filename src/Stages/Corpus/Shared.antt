-- ===== src/Stages/Corpus/Shared.antt =====
-- What the loops of `minimize_corpus_lcl` over the dropped testcases leave.
use pmfuzz.Base.{
  Bool, true, false, not, ◌&&◌, ◌||◌, List, [], ◌∷◌, ◌≡◌, inl, inr, refl, ap, ◌∙◌, arith,
  if◌then◌else◌, Text, text_eq, text_eq_iff, text_eq_refl, contains, map, All, Option, none, some,
  ok, Bool-cases,
}
use pmfuzz.Str.Path.Laws.{no_dir-IsDir}
use pmfuzz.NameHandler.Grammar.{Name, IsName}
use pmfuzz.NameHandler.Metadata.Family.{Kind, file_name, metadata_of, get_metadata_files-file_name}
use pmfuzz.NameHandler.Metadata.Apart.{
  testcase_of, image_of, placeholder_of, same_placeholder, same_kind,
}
use pmfuzz.Core.DedupEngine.{values}
use pmfuzz.Stages.Folder.{Folder, get, is_some, is_file}
use pmfuzz.Stages.Folder.Laws.{get-put}
use pmfuzz.Stages.Hashes.{remove}
use pmfuzz.Stages.Hashes.Laws.{get-remove}
use pmfuzz.Stages.Update.LocalLoop.{map_of}
use pmfuzz.Stages.Corpus.{
  remove_each, drop_local, drop_type, drop_types, types_to_delete, drop_shared,
}
use pmfuzz.Stages.Corpus.Families.{
  values-testcase, types-testcase, types-min, types-map, types-pm_map, min-placeholder,
  pm_map-placeholder, map-placeholder, types-image, types-placeholder, image-placeholder,
  testcase-placeholder, placeholder-placeholder,
}
use pmfuzz.Stages.Corpus.Dropping.{get-remove_each, dropped, none_twice}

pub drop_local_lem :
    (m : Name) (ns : List Name) (tc_dir : Folder)
    → IsName m
    → All IsName ns
    → (after : Folder) × (drop_local (map testcase_of ns) tc_dir ≡ ok after)
      × (get (testcase_of m) after ≡ (if dropped ns m then none else get (testcase_of m) tc_dir))
unfolding drop_local contains
drop_local_lem m [] tc_dir hm h = (tc_dir, refl, refl)
drop_local_lem m (n ∷ ns) tc_dir hm (hn, hs) =
    let next = remove_each (values (metadata_of [] n false)) tc_dir in
    let t : get (testcase_of m) next
        ≡ (if text_eq (testcase_of m) (testcase_of n) then none else get (testcase_of m) tc_dir) =
      get-remove_each (testcase_of m) (values (metadata_of [] n false)) tc_dir
      ∙ rw (values-testcase m n hm hn) refl in
    let (after, e, t') = drop_local_lem m ns next hm hs in
    (
      after,
      rw (get_metadata_files-file_name [] n no_dir-IsDir hn Kind.testcase false) e,
      t' ∙ none_twice (text_eq (testcase_of m) (testcase_of n)) (dropped ns m) _ _ t,
    )

no_file : (same : Bool) (o : Option Text) → is_some o ≡ false → o ≡ (if same then none else o)
no_file same none h = ground arith
no_file same (some content) h = cc

-- A file that leaves takes nothing else with it.
get-drop_type :
    (note placeholder_f f x : Text) (gbl : Folder)
    → text_eq x placeholder_f ≡ false
    → get x (drop_type note placeholder_f f gbl) ≡ (if text_eq x f then none else get x gbl)
unfolding is_file
get-drop_type note placeholder_f f x gbl apart = elim (Bool-cases (is_some (get f gbl))) [
  | inl e ↦ rw (e, get-put x placeholder_f note (remove f gbl), get-remove x f gbl, apart) refl
  | inr e ↦ elim (Bool-cases (text_eq x f)) [
    | inl same ↦
        let gone : is_some (get x gbl) ≡ false =
          ap (λ t. is_some (get t gbl)) ((text_eq_iff x f).0 same) ∙ e in
        rw e (no_file (text_eq x f) (get x gbl) gone)
    | inr other ↦ rw (e, other) refl
  ]
]

get-drop_types :
    (note placeholder_f : Text) (fs : List Text) (x : Text) (gbl : Folder)
    → text_eq x placeholder_f ≡ false
    → get x (drop_types note placeholder_f fs gbl) ≡ (if contains fs x then none else get x gbl)
unfolding drop_types contains
get-drop_types note placeholder_f [] x gbl apart = refl
get-drop_types note placeholder_f (f ∷ fs) x gbl apart =
    get-drop_types note placeholder_f fs x (drop_type note placeholder_f f gbl) apart
    ∙ rw (get-drop_type note placeholder_f f x gbl apart) (ground arith)

-- One of the files is there.
abbrev any_file : Folder → List Text → Bool
any_file gbl [] = false
any_file gbl (f ∷ fs) = is_file gbl f || any_file gbl fs

-- One of the files that `minimize_corpus_lcl` removes from the global store is there.
abbrev pub has_any : Folder → Name → Bool
has_any gbl m = any_file gbl (types_to_delete (metadata_of [] m false))

-- The placeholder comes for the first file that is there.
placeholder_types :
    (note placeholder_f : Text) (fs : List Text) (gbl : Folder)
    → contains fs placeholder_f ≡ false
    → is_file (drop_types note placeholder_f fs gbl) placeholder_f
      ≡ (is_file gbl placeholder_f || any_file gbl fs)
unfolding drop_types contains is_file
placeholder_types note p [] gbl h = ground arith
placeholder_types note p (f ∷ fs) gbl h =
    let rest : contains fs p ≡ false = ground arith in
    let later = placeholder_types note p fs (drop_type note p f gbl) rest in
    elim (Bool-cases (is_some (get f gbl))) [
      | inl e ↦
          let here : is_some (get p (drop_type note p f gbl)) ≡ true =
            rw (e, get-put p p note (remove f gbl), text_eq_refl p) refl in
          later ∙ rw (here, e) (ground arith)
      | inr e ↦ later ∙ rw e refl
    ]

comes_twice :
    (same later was any next left : Bool)
    → next ≡ (was || (same && any))
    → left ≡ (not same && any)
    → (next || (later && left)) ≡ (was || ((same || later) && any))
comes_twice same later was any next left h k = ground arith

module _ (note : Text) (m : Name) (hm : IsName m) where
  -- What one dropped testcase does to the files of `m`.
  abbrev next_of : Name → Folder → Folder
  next_of n gbl = drop_types note (placeholder_of n) (types_to_delete (metadata_of [] n false)) gbl

  placeholder_next :
      (n : Name) (gbl : Folder)
      → IsName n
      → is_file (next_of n gbl) (placeholder_of m) ≡ (
          is_file gbl (placeholder_of m)
          || (text_eq (testcase_of m) (testcase_of n) && has_any gbl m))
  unfolding is_file
  placeholder_next n gbl hn = elim (Bool-cases (text_eq (testcase_of m) (testcase_of n))) [
    | inl e ↦
        let same : testcase_of m ≡ testcase_of n = (text_eq_iff _ _).0 e in
        let other : (k : Kind) → file_name k m ≡ file_name k n =
          λ k. same_kind m n hm hn Kind.testcase k same in
        rw
          (
            e,
            same_placeholder m n hm hn Kind.testcase same,
            same,
            other Kind.min_testcase,
            placeholder_types note (placeholder_of n) (types_to_delete (metadata_of [] n false)) gbl
                (types-placeholder n n hn hn),
          )
          refl
    | inr e ↦
        let unchanged : get (placeholder_of m) (next_of n gbl) ≡ get (placeholder_of m) gbl =
          get-drop_types note (placeholder_of n) (types_to_delete (metadata_of [] n false))
            (placeholder_of m) gbl (placeholder-placeholder m n hm hn ∙ e)
          ∙ rw (types-placeholder m n hm hn) refl in
        rw (unchanged, e) (ground arith)
  ]

  -- A file of a kind that leaves.
  gone_next :
      (x : Text) (n : Name) (gbl : Folder)
      → text_eq x (placeholder_of n) ≡ false
      → contains (types_to_delete (metadata_of [] n false)) x
        ≡ text_eq (testcase_of m) (testcase_of n)
      → get x (next_of n gbl)
        ≡ (if text_eq (testcase_of m) (testcase_of n) then none else get x gbl)
  gone_next x n gbl apart e =
      get-drop_types note (placeholder_of n) (types_to_delete (metadata_of [] n false)) x gbl apart
      ∙ rw e refl

  any_next :
      (n : Name) (gbl : Folder)
      → IsName n
      → has_any (next_of n gbl) m ≡ (not (text_eq (testcase_of m) (testcase_of n)) && has_any gbl m)
  unfolding is_file
  any_next n gbl hn =
      rw
        (
          gone_next (testcase_of m) n gbl (testcase-placeholder m n hm hn)
              (types-testcase m n hm hn),
          gone_next (file_name Kind.min_testcase m) n gbl (min-placeholder m n hm hn)
              (types-min m n hm hn),
          gone_next (file_name Kind.pm_map m) n gbl (pm_map-placeholder m n hm hn)
              (types-pm_map m n hm hn),
          gone_next (map_of m) n gbl (map-placeholder m n hm hn) (types-map m n hm hn),
        )
        (ground arith)

  pub drop_shared_lem :
      (ns : List Name) (gbl : Folder)
      → All IsName ns
      → (after : Folder) × (drop_shared note (map testcase_of ns) gbl ≡ ok after)
        × (get (testcase_of m) after ≡ (if dropped ns m then none else get (testcase_of m) gbl))
        × (get (image_of m) after ≡ get (image_of m) gbl)
        × (is_file after (placeholder_of m)
            ≡ (is_file gbl (placeholder_of m) || (dropped ns m && has_any gbl m)))
  unfolding drop_shared contains
  drop_shared_lem [] gbl h = (gbl, refl, refl, refl, ground arith)
  drop_shared_lem (n ∷ ns) gbl (hn, hs) =
      let next = next_of n gbl in
      let same = text_eq (testcase_of m) (testcase_of n) in
      let i : get (image_of m) next ≡ get (image_of m) gbl =
        get-drop_types note (placeholder_of n) (types_to_delete (metadata_of [] n false))
          (image_of m) gbl (image-placeholder m n hm hn)
        ∙ rw (types-image m n hm hn) refl in
      let (after, e, t', i', p') = drop_shared_lem ns next hs in
      (
        after,
        rw
            (
              get_metadata_files-file_name [] n no_dir-IsDir hn Kind.testcase false,
              get_metadata_files-file_name [] n no_dir-IsDir hn Kind.testcase true,
            )
            e,
        t'
            ∙ none_twice same (dropped ns m) _ _ (
                gone_next (testcase_of m) n gbl (testcase-placeholder m n hm hn)
                  (types-testcase m n hm hn)),
        i' ∙ i,
        p'
            ∙ comes_twice same (dropped ns m) _ _ _ _ (placeholder_next n gbl hn)
                (any_next n gbl hn),
      )
