-- ===== src/Stages/Update/Keeping.antt =====
-- `update_global` loses no file of the global store.
use pmfuzz.Base.{
  Bool, true, false, not, ◌&&◌, List, [], ◌∷◌, ◌≡◌, refl, ap, ◌∙◌, if◌then◌else◌, Text, contains,
  Option, none, some, Result, ok, err, file_not_found, key_error, of_option, text_eq, ◌>>=◌,
}
use pmfuzz.NameHandler.Patterns.{is_cmpr_crash_site}
use pmfuzz.NameHandler.Metadata.{get_metadata_files}
use pmfuzz.Stages.Folder.{Folder, names, get, is_some, is_file, put, copypreserve, copy_if_there}
use pmfuzz.Stages.Folder.Laws.{get-put}
use pmfuzz.Stages.Update.{update_global, update_tcs, update_cs, copy_family, local_testcases_list}

-- A result that is a store with the file, or a failure.
abbrev pub Keeps : Text → Result Folder → Type 0
Keeps x (ok folder) = is_file folder x ≡ true
Keeps x (err e) = Unit {0}

after_any {ℓ} :
    {A : Type ℓ}
    → (x : Text) (r : Result A) (f : A → Result Folder) → ((a : A) → Keeps x (f a))
    → Keeps x (r >>= f)
after_any x (ok a) f h = h a
after_any x (err e) f h = tt

after-Keeps :
    (x : Text) (r : Result Folder) (f : Folder → Result Folder)
    → Keeps x r
    → ((folder : Folder) → is_file folder x ≡ true → Keeps x (f folder))
    → Keeps x (r >>= f)
after-Keeps x (ok folder) f h k = k folder h
after-Keeps x (err e) f h k = tt

put_keeps :
    (x name content : Text) (gbl : Folder)
    → is_file gbl x ≡ true
    → is_file (put name content gbl) x ≡ true
unfolding is_file
put_keeps x name content gbl h =
    ap is_some (get-put x name content gbl) ∙ either (text_eq x name) (get x gbl) h
  where
    either :
        (same : Bool) (o : Option Text)
        → is_some o ≡ true
        → is_some (if same then some content else o) ≡ true
    either true o k = refl
    either false o k = k

copypreserve-Keeps :
    (x src : Text) (from : Folder) (dst : Text) (gbl : Folder)
    → is_file gbl x ≡ true
    → Keeps x (copypreserve src from dst gbl)
unfolding copypreserve
copypreserve-Keeps x src from dst gbl h =
    after_any x (of_option file_not_found (get src from)) (λ content. ok (put dst content gbl))
      (λ content. put_keeps x dst content gbl h)

copy_if_there_keeps :
    (x src : Text) (from : Folder) (dst : Text) (gbl : Folder)
    → is_file gbl x ≡ true
    → is_file (copy_if_there src from dst gbl) x ≡ true
unfolding copy_if_there
copy_if_there_keeps x src from dst gbl h = through (get src from)
  where
    through :
        (o : Option Text)
        → is_file (elim o as (λ _. Folder) [ none ↦ gbl | some content ↦ put dst content gbl ]) x
          ≡ true
    through none = h
    through (some content) = put_keeps x dst content gbl h

copy_family-Keeps :
    (x : Text) (tc_dir img_dir : Folder) (tc img : Text) (gbl : Folder)
    → is_file gbl x ≡ true
    → Keeps x (copy_family tc_dir img_dir tc img gbl)
copy_family-Keeps x tc_dir img_dir tc img gbl h =
    after-Keeps x (copypreserve tc tc_dir tc gbl) _ (copypreserve-Keeps x tc tc_dir tc gbl h)
      (λ g k.
        copypreserve-Keeps x img img_dir img _
          (copy_if_there_keeps x _ tc_dir _ _ (copy_if_there_keeps x _ tc_dir _ g k)))

either-Keeps :
    (x : Text) (b : Bool) (r : Result Folder) (gbl : Folder)
    → is_file gbl x ≡ true
    → Keeps x r
    → Keeps x (if b then r else ok gbl)
either-Keeps x true r gbl h k = k
either-Keeps x false r gbl h k = h

update_tcs-Keeps :
    (x : Text) (tc_dir img_dir : Folder) (listing : List Text) (entries : List (Text × Text))
    (gbl : Folder)
    → is_file gbl x ≡ true
    → Keeps x (update_tcs tc_dir img_dir listing entries gbl)
unfolding update_tcs
update_tcs-Keeps x tc_dir img_dir listing [] gbl h = h
update_tcs-Keeps x tc_dir img_dir listing ((tc, img) ∷ entries) gbl h =
    after_any x (get_metadata_files tc true) _ (λ metadata.
      after_any x (of_option key_error metadata.deleted) _ (λ placeholder.
        after-Keeps x
          (if not (contains listing tc) && not (contains listing placeholder)
            then copy_family tc_dir img_dir tc img gbl
            else ok gbl)
          _ (either-Keeps x _ _ gbl h (copy_family-Keeps x tc_dir img_dir tc img gbl h))
          (λ next k. update_tcs-Keeps x tc_dir img_dir listing entries next k)))

update_cs-Keeps :
    (x : Text) (img_dir : Folder) (fnames : List Text) (gbl : Folder)
    → is_file gbl x ≡ true
    → Keeps x (update_cs img_dir fnames gbl)
unfolding update_cs
update_cs-Keeps x img_dir [] gbl h = h
update_cs-Keeps x img_dir (f ∷ fs) gbl h =
    after-Keeps x
      (if is_cmpr_crash_site f && not (contains (names gbl) f)
        then copypreserve f img_dir f gbl
        else ok gbl)
      _ (either-Keeps x _ _ gbl h (copypreserve-Keeps x f img_dir f gbl h))
      (λ next k. update_cs-Keeps x img_dir fs next k)

-- No file of the global store is lost.
pub update_global-Keeps :
    (x : Text) (tc_dir img_dir gbl : Folder)
    → is_file gbl x ≡ true
    → Keeps x (update_global tc_dir img_dir gbl)
unfolding update_global
update_global-Keeps x tc_dir img_dir gbl h =
    after_any x (local_testcases_list tc_dir img_dir) _ (λ entries.
      after-Keeps x (update_tcs tc_dir img_dir (names gbl) entries gbl) _
        (update_tcs-Keeps x tc_dir img_dir (names gbl) entries gbl h)
        (λ next k. update_cs-Keeps x img_dir (names img_dir) next k))
