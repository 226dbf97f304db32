-- ===== src/NameHandler/Metadata/Apart.antt =====
-- The files of testcases differ by their endings and prefixes, and files of one kind as the testcases.
use mathlib.Core.Bool.{true≢false}
use pmfuzz.Base.{
  Bool, true, false, ◌||◌, [], ◌++◌, ◌≡◌, inl, inr, refl, sym, ap, ◌∙◌, arith, Text, codes, text_eq,
  text_eq_iff, eq_of_iff, some, ok, Bool-cases,
}
use pmfuzz.Str.{occurs}
use pmfuzz.Str.Laws.{occurs-append}
use pmfuzz.Str.Path.{basename}
use pmfuzz.Str.Path.Laws.{no_dir-IsDir, basename_file}
use pmfuzz.Regex.Laws.{lit_iff}
use pmfuzz.NameHandler.Grammar.{Name, IsName, render}
use pmfuzz.NameHandler.Grammar.Search.{occurs-render}
use pmfuzz.NameHandler.Patterns.{is_cmpr_crash_site, tar_gz}
use pmfuzz.NameHandler.Patterns.Laws.{is_regex_iff, is_cmpr_crash_site_dots}
use pmfuzz.NameHandler.Metadata.{MetadataFiles, get_metadata_files}
use pmfuzz.NameHandler.Metadata.Family.{
  Kind, file_name, file_name-IsFile, metadata_of, get_metadata_files-file_name,
}

-- The testcase, its compressed image, its compressed crash site and its placeholder.
abbrev pub testcase_of : Name → Text
testcase_of n = file_name Kind.testcase n

abbrev pub image_of : Name → Text
image_of n = file_name Kind.pm_cmpr_pool n

abbrev pub site_of : Name → Text
site_of n = file_name Kind.crash_cmpr_site n

abbrev pub placeholder_of : Name → Text
placeholder_of n = render n (codes ".deleted")

-- Two texts are different where a test tells them apart.
pub text_eq-apart :
    (test : Text → Bool) (s t : Text) → test s ≡ true → test t ≡ false → text_eq s t ≡ false
text_eq-apart test s t h k = elim (Bool-cases (text_eq s t)) [
  | inl e ↦ absurd (true≢false (sym h ∙ ap test ((text_eq_iff s t).0 e) ∙ k))
  | inr e ↦ e
]

same_metadata :
    (k : Kind) (m n : Name)
    → IsName m
    → IsName n
    → file_name k m ≡ file_name k n
    → metadata_of [] m true ≡ metadata_of [] n true
same_metadata k m n hm hn e =
    let q : ok (metadata_of [] m true) ≡ ok (metadata_of [] n true) =
      sym (get_metadata_files-file_name [] m no_dir-IsDir hm k true)
      ∙ ap (λ t. get_metadata_files t true) e
      ∙ get_metadata_files-file_name [] n no_dir-IsDir hn k true in
    cc

abbrev file_in : Kind → MetadataFiles → Text
file_in Kind.testcase f = f.testcase
file_in Kind.min_testcase f = f.min_testcase
file_in Kind.map f = f.map
file_in Kind.pm_map f = f.pm_map
file_in Kind.crash_site f = f.crash_site
file_in Kind.crash_cmpr_site f = f.crash_cmpr_site
file_in Kind.pm_pool f = f.pm_pool
file_in Kind.pm_cmpr_pool f = f.pm_cmpr_pool

file_in-metadata_of : (k : Kind) (n : Name) → file_in k (metadata_of [] n true) ≡ file_name k n
file_in-metadata_of Kind.testcase n = refl
file_in-metadata_of Kind.min_testcase n = refl
file_in-metadata_of Kind.map n = refl
file_in-metadata_of Kind.pm_map n = refl
file_in-metadata_of Kind.crash_site n = refl
file_in-metadata_of Kind.crash_cmpr_site n = refl
file_in-metadata_of Kind.pm_pool n = refl
file_in-metadata_of Kind.pm_cmpr_pool n = refl

module _ (m n : Name) (hm : IsName m) (hn : IsName n) where
  -- Files of one kind are the same where those of another kind are.
  pub same_kind : (k l : Kind) → file_name k m ≡ file_name k n → file_name l m ≡ file_name l n
  same_kind k l e =
      sym (file_in-metadata_of l m)
      ∙ ap (file_in l) (same_metadata k m n hm hn e)
      ∙ file_in-metadata_of l n

  pub same_placeholder :
      (k : Kind) → file_name k m ≡ file_name k n → placeholder_of m ≡ placeholder_of n
  same_placeholder k e =
      let q : some (placeholder_of m) ≡ some (placeholder_of n) =
        ap (λ (f : MetadataFiles). f.deleted) (same_metadata k m n hm hn e) in
      cc

  pub text_eq_kind :
      (k l : Kind)
      → text_eq (file_name k m) (file_name k n) ≡ text_eq (file_name l m) (file_name l n)
  text_eq_kind k l =
      eq_of_iff (text_eq (file_name k m) (file_name k n)) (text_eq (file_name l m) (file_name l n))
        (λ h. (text_eq_iff _ _).1 (same_kind k l ((text_eq_iff _ _).0 h)))
        (λ h. (text_eq_iff _ _).1 (same_kind l k ((text_eq_iff _ _).0 h)))

-- A name without `h` is no compressed crash site.
pub is_cmpr_crash_site_lacks :
    (f : Text) → basename f ≡ f → occurs b'h' f ≡ false → is_cmpr_crash_site f ≡ false
unfolding is_cmpr_crash_site
is_cmpr_crash_site_lacks f base h = elim (Bool-cases (is_cmpr_crash_site f)) [
  | inl e ↦
      let (n, hn, t, (u, v, p, mu, _), w, _, q) =
        (is_regex_iff (tar_gz (codes ".crash_site")) f).0 e in
      let stem : u ≡ codes ".crash_site" = (lit_iff (codes ".crash_site") u).0 mu in
      let inside : occurs b'h' (codes ".crash_site" ++ v) ≡ true = unfold occurs in refl in
      let there : occurs b'h' (render n t ++ w) ≡ true =
        occurs-append b'h' (render n t) w
        ∙ ap (λ b. b || occurs b'h' w)
            (occurs-render b'h' n t refl hn
              ∙ ap (occurs b'h') (p ∙ ap (λ s. s ++ v) stem)
              ∙ inside) in
      absurd (true≢false (sym there ∙ ap (occurs b'h') (sym q ∙ base) ∙ h))
  | inr e ↦ e
]

module _ (n : Name) (h : IsName n) where
  pub testcase-not_site : is_cmpr_crash_site (testcase_of n) ≡ false
  testcase-not_site =
      is_cmpr_crash_site_lacks (testcase_of n)
        (basename_file (testcase_of n) (file_name-IsFile [] n no_dir-IsDir h Kind.testcase))
        (occurs-render b'h' n (codes ".testcase") refl h ∙ (unfold occurs in refl))

  pub image-not_site : is_cmpr_crash_site (image_of n) ≡ false
  image-not_site =
      is_cmpr_crash_site_lacks (image_of n)
        (basename_file (image_of n) (file_name-IsFile [] n no_dir-IsDir h Kind.pm_cmpr_pool))
        (occurs-render b'h' n (codes ".pm_pool.tar.gz") refl h ∙ (unfold occurs in refl))

  pub site-IsSite : is_cmpr_crash_site (site_of n) ≡ true
  site-IsSite =
      is_cmpr_crash_site_dots n b'.' b'.' h (ground arith, ground arith)
        (ground arith, ground arith)
