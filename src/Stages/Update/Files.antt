-- ===== src/Stages/Update/Files.antt =====
-- The files of two testcases, and what a loop of copies leaves of one.
use pmfuzz.Base.{
  Bool, true, false, ◌&&◌, ◌||◌, ◌≡◌, refl, ◌∙◌, arith, if◌then◌else◌, Text, codes, text_eq, Option,
}
use pmfuzz.Str.{occurs}
use pmfuzz.NameHandler.Grammar.{Name, IsName}
use pmfuzz.NameHandler.Grammar.Search.{occurs-render}
use pmfuzz.NameHandler.Metadata.Apart.{testcase_of, image_of, site_of, text_eq-apart}

module _ (m n : Name) (hm : IsName m) (hn : IsName n) where
  pub testcase-image : text_eq (testcase_of m) (image_of n) ≡ false
  testcase-image =
      text_eq-apart (occurs b's') (testcase_of m) (image_of n)
        (occurs-render b's' m (codes ".testcase") refl hm ∙ (unfold occurs in refl))
        (occurs-render b's' n (codes ".pm_pool.tar.gz") refl hn ∙ (unfold occurs in refl))

  pub image-testcase : text_eq (image_of m) (testcase_of n) ≡ false
  image-testcase =
      text_eq-apart (occurs b'z') (image_of m) (testcase_of n)
        (occurs-render b'z' m (codes ".pm_pool.tar.gz") refl hm ∙ (unfold occurs in refl))
        (occurs-render b'z' n (codes ".testcase") refl hn ∙ (unfold occurs in refl))

  pub site-testcase : text_eq (site_of m) (testcase_of n) ≡ false
  site-testcase =
      text_eq-apart (occurs b'h') (site_of m) (testcase_of n)
        (occurs-render b'h' m (codes ".crash_site.tar.gz") refl hm ∙ (unfold occurs in refl))
        (occurs-render b'h' n (codes ".testcase") refl hn ∙ (unfold occurs in refl))

  pub site-image : text_eq (site_of m) (image_of n) ≡ false
  site-image =
      text_eq-apart (occurs b'h') (site_of m) (image_of n)
        (occurs-render b'h' m (codes ".crash_site.tar.gz") refl hm ∙ (unfold occurs in refl))
        (occurs-render b'h' n (codes ".pm_pool.tar.gz") refl hn ∙ (unfold occurs in refl))

pub copied_later :
    (same inside fresh_m fresh_n : Bool) (new_m new_n old next : Option Text)
    → (same ≡ true → fresh_m ≡ fresh_n)
    → (same ≡ true → new_m ≡ new_n)
    → fresh_n ≡ true
    → next ≡ (if same then new_n else old)
    → (if inside && fresh_m then new_m else next)
      ≡ (if (same || inside) && fresh_m then new_m else old)
copied_later true inside fresh_m fresh_n new_m new_n old next f g h e =
    ground (arith, f refl, g refl)
copied_later false inside fresh_m fresh_n new_m new_n old next f g h e = rw e refl

pub stale_later :
    (same inside fresh_m fresh_n : Bool) (new old : Option Text)
    → (same ≡ true → fresh_m ≡ fresh_n)
    → fresh_n ≡ false
    → (if inside && fresh_m then new else old) ≡ (if (same || inside) && fresh_m then new else old)
stale_later true inside fresh_m fresh_n new old f h = ground (arith, f refl)
stale_later false inside fresh_m fresh_n new old f h = refl
