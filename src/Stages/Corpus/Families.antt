-- ===== src/Stages/Corpus/Families.antt =====
-- Which of the files of one testcase is a given file of another.
use mathlib.Core.List.{reverse, reverse-append, append_cancel_right}
use pmfuzz.Base.{
  ℕ, true, false, not, [], ◌++◌, ◌≡◌, refl, sym, ap, ◌∙◌, arith, Text, codes, text_eq, text_eq_iff,
  text_eq_sym, eq_of_iff, contains,
}
use pmfuzz.Str.{occurs, starts_with, ends_with}
use pmfuzz.NameHandler.Grammar.{Name, IsName, render, render_end}
use pmfuzz.NameHandler.Grammar.Search.{is_foreign, occurs-render}
use pmfuzz.NameHandler.Metadata.Family.{Kind, file_name, metadata_of}
use pmfuzz.NameHandler.Metadata.Apart.{
  testcase_of, image_of, placeholder_of, text_eq-apart, text_eq_kind, same_placeholder,
}
use pmfuzz.Core.DedupEngine.{values}
use pmfuzz.Stages.Update.LocalLoop.{map_of}
use pmfuzz.Stages.Corpus.{no_archive, types_to_delete}

-- Two names whose endings differ in a character that no id has.
ends_apart :
    (c : ℕ) (m n : Name) (s t : Text)
    → is_foreign c ≡ true
    → IsName m
    → IsName n
    → occurs c s ≡ true
    → occurs c t ≡ false
    → text_eq (render m s) (render n t) ≡ false
ends_apart c m n s t foreign hm hn h k =
    text_eq-apart (occurs c) (render m s) (render n t) (occurs-render c m s foreign hm ∙ h)
      (occurs-render c n t foreign hn ∙ k)

ends_apart_sym :
    (c : ℕ) (m n : Name) (s t : Text)
    → is_foreign c ≡ true
    → IsName m
    → IsName n
    → occurs c s ≡ false
    → occurs c t ≡ true
    → text_eq (render m s) (render n t) ≡ false
ends_apart_sym c m n s t foreign hm hn h k =
    text_eq_sym (render m s) (render n t) ∙ ends_apart c n m t s foreign hn hm k h

module _ (m n : Name) (hm : IsName m) (hn : IsName n) where
  -- Of the files of `n`, only the testcase is that of `m`, only the map is that of `m`, and so on.
  pub values-testcase :
      contains (values (metadata_of [] n false)) (testcase_of m)
      ≡ text_eq (testcase_of m) (testcase_of n)
  unfolding contains text_eq occurs
  values-testcase =
      rw
        (
          ends_apart b't' m n (codes ".testcase") [] refl hm hn refl refl,
          ends_apart_sym b'm' m n (codes ".testcase") (codes ".min.testcase") refl hm hn refl refl,
          ends_apart_sym b'r' m n (codes ".testcase") (codes ".crash_site") refl hm hn refl refl,
          ends_apart_sym b'r' m n (codes ".testcase") (codes ".crash_site.tar.gz") refl hm hn refl
              refl,
          ends_apart_sym b'p' m n (codes ".testcase") (codes ".pm_pool") refl hm hn refl refl,
          ends_apart_sym b'p' m n (codes ".testcase") (codes ".pm_pool.tar.gz") refl hm hn refl
              refl,
        )
        (ground arith)

  pub values-map :
      contains (values (metadata_of [] n false)) (map_of m)
      ≡ text_eq (testcase_of m) (testcase_of n)
  unfolding contains text_eq
  values-map = ground arith

  pub values-placeholder : contains (values (metadata_of [] n false)) (placeholder_of m) ≡ false
  unfolding contains text_eq occurs
  values-placeholder =
      rw
        (
          ends_apart b'l' m n (codes ".deleted") (codes ".testcase") refl hm hn refl refl,
          ends_apart b'l' m n (codes ".deleted") [] refl hm hn refl refl,
          ends_apart b'l' m n (codes ".deleted") (codes ".min.testcase") refl hm hn refl refl,
          ends_apart b'l' m n (codes ".deleted") (codes ".crash_site") refl hm hn refl refl,
          ends_apart b'l' m n (codes ".deleted") (codes ".crash_site.tar.gz") refl hm hn refl refl,
          ends_apart_sym b'p' m n (codes ".deleted") (codes ".pm_pool") refl hm hn refl refl,
          ends_apart_sym b'p' m n (codes ".deleted") (codes ".pm_pool.tar.gz") refl hm hn refl refl,
        )
        refl

  pub types-testcase :
      contains (types_to_delete (metadata_of [] n false)) (testcase_of m)
      ≡ text_eq (testcase_of m) (testcase_of n)
  unfolding contains text_eq occurs
  types-testcase =
      rw (ends_apart_sym b'm' m n (codes ".testcase") (codes ".min.testcase") refl hm hn refl refl)
        (ground arith)

  pub types-min :
      contains (types_to_delete (metadata_of [] n false)) (file_name Kind.min_testcase m)
      ≡ text_eq (testcase_of m) (testcase_of n)
  unfolding contains text_eq occurs
  types-min =
      rw
        (
          ends_apart b'm' m n (codes ".min.testcase") (codes ".testcase") refl hm hn refl refl,
          text_eq_kind m n hm hn Kind.min_testcase Kind.testcase,
        )
        (ground arith)

  pub types-map :
      contains (types_to_delete (metadata_of [] n false)) (map_of m)
      ≡ text_eq (testcase_of m) (testcase_of n)
  unfolding contains text_eq
  types-map = ground arith

  pub types-pm_map :
      contains (types_to_delete (metadata_of [] n false)) (file_name Kind.pm_map m)
      ≡ text_eq (testcase_of m) (testcase_of n)
  unfolding contains text_eq
  types-pm_map = ground arith

  pub min-placeholder : text_eq (file_name Kind.min_testcase m) (placeholder_of n) ≡ false
  unfolding occurs
  min-placeholder =
      ends_apart_sym b'l' m n (codes ".min.testcase") (codes ".deleted") refl hm hn refl refl

  pub pm_map-placeholder : text_eq (file_name Kind.pm_map m) (placeholder_of n) ≡ false
  unfolding text_eq
  pm_map-placeholder = refl

  pub types-image : contains (types_to_delete (metadata_of [] n false)) (image_of m) ≡ false
  unfolding contains text_eq occurs
  types-image =
      rw
        (
          ends_apart b'z' m n (codes ".pm_pool.tar.gz") (codes ".testcase") refl hm hn refl refl,
          ends_apart b'z' m n (codes ".pm_pool.tar.gz") (codes ".min.testcase") refl hm hn refl
              refl,
        )
        refl

  pub types-placeholder :
      contains (types_to_delete (metadata_of [] n false)) (placeholder_of m) ≡ false
  unfolding contains text_eq occurs
  types-placeholder =
      rw
        (
          ends_apart b'l' m n (codes ".deleted") (codes ".testcase") refl hm hn refl refl,
          ends_apart b'l' m n (codes ".deleted") (codes ".min.testcase") refl hm hn refl refl,
        )
        refl

  pub image-placeholder : text_eq (image_of m) (placeholder_of n) ≡ false
  unfolding occurs
  image-placeholder =
      ends_apart b'z' m n (codes ".pm_pool.tar.gz") (codes ".deleted") refl hm hn refl refl

  pub testcase-placeholder : text_eq (testcase_of m) (placeholder_of n) ≡ false
  unfolding occurs
  testcase-placeholder =
      ends_apart_sym b'l' m n (codes ".testcase") (codes ".deleted") refl hm hn refl refl

  pub map-placeholder : text_eq (map_of m) (placeholder_of n) ≡ false
  unfolding text_eq
  map-placeholder = refl

  pub placeholder-placeholder :
      text_eq (placeholder_of m) (placeholder_of n) ≡ text_eq (testcase_of m) (testcase_of n)
  placeholder-placeholder =
      eq_of_iff (text_eq (placeholder_of m) (placeholder_of n))
        (text_eq (testcase_of m) (testcase_of n))
        (λ h. (text_eq_iff _ _).1 (back ((text_eq_iff _ _).0 h)))
        (λ h.
          (text_eq_iff _ _).1 (same_placeholder m n hm hn Kind.testcase ((text_eq_iff _ _).0 h)))
    where
      back : placeholder_of m ≡ placeholder_of n → testcase_of m ≡ testcase_of n
      back e =
          let bare : render m [] ≡ render n [] =
            append_cancel_right (render m []) (render n []) (codes ".deleted")
              (sym (render_end m (codes ".deleted")) ∙ e ∙ render_end n (codes ".deleted")) in
          render_end m (codes ".testcase")
          ∙ ap (λ s. s ++ codes ".testcase") bare
          ∙ sym (render_end n (codes ".testcase"))

-- The files that `minimize_corpus_gbl` leaves are archives.
testcase_end : (s : Text) → no_archive (s ++ codes ".testcase") ≡ true
unfolding ends_with starts_with
testcase_end s =
    ap (λ t. not (starts_with t (reverse (codes ".tar.gz")))) (reverse-append s (codes ".testcase"))

image_end : (s : Text) → no_archive (s ++ codes ".pm_pool.tar.gz") ≡ false
unfolding ends_with starts_with
image_end s =
    ap (λ t. not (starts_with t (reverse (codes ".tar.gz"))))
      (reverse-append s (codes ".pm_pool.tar.gz"))

pub testcase-no_archive : (n : Name) → no_archive (testcase_of n) ≡ true
testcase-no_archive n =
    ap no_archive (render_end n (codes ".testcase")) ∙ testcase_end (render n [])

pub map-no_archive : (n : Name) → no_archive (map_of n) ≡ true
map-no_archive n =
    ap (λ t. no_archive (codes "map_" ++ t)) (render_end n (codes ".testcase"))
    ∙ testcase_end (codes "map_" ++ render n [])

pub image-archive : (n : Name) → no_archive (image_of n) ≡ false
image-archive n = ap no_archive (render_end n (codes ".pm_pool.tar.gz")) ∙ image_end (render n [])
