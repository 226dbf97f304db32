-- ===== src/Stages/Stage1/Collect.antt =====
-- What the collection of stage 1 leaves in the directory of testcases.
use pmfuzz.Base.{
  true, false, ◌&&◌, List, [], ◌∷◌, ◌++◌, ◌≡◌, inl, inr, refl, ap, ◌∙◌, arith, if◌then◌else◌, ltb,
  Text, codes, text_eq, text_eq_refl, contains, keep, map, All, some, ok, Bool-cases,
}
use pmfuzz.Str.{replace, starts_with}
use pmfuzz.Str.Path.Laws.{no_dir-IsDir, basename_file}
use pmfuzz.NameHandler.Grammar.{Name, IsName}
use pmfuzz.NameHandler.Metadata.Family.{
  Kind, file_name, file_name-IsFile, get_metadata_files-file_name,
}
use pmfuzz.NameHandler.Metadata.Apart.{testcase_of, image_of}
use pmfuzz.Stages.Folder.{Folder, names, get, is_some, is_file, put, copy_if_there}
use pmfuzz.Stages.Folder.Laws.{get-put, contains-names, get-copy_if_there, copypreserve-some}
use pmfuzz.Stages.Stage1.{
  Target, Local, _collect_map, gen_img, collect_tc, collect_each, collect_results,
}
use pmfuzz.Stages.Stage1.Cases.{
  Case, map_src, IsGood, or_else, last_case, found_before, collected_now, last_some, new_only,
}

-- The image of a testcase goes where its name says.
pub gen_img_lem :
    (target : Target) (n : Name) (content img : Text) (images : Folder)
    → IsName n
    → target.image content ≡ some img
    → gen_img target (testcase_of n) content images ≡ ok (put (image_of n) img images)
unfolding gen_img
gen_img_lem target n content img images h e =
    rw
      (
        e,
        get_metadata_files-file_name [] n no_dir-IsDir h Kind.testcase false,
        basename_file (file_name Kind.pm_pool n)
            (file_name-IsFile [] n no_dir-IsDir h Kind.pm_pool),
        get_metadata_files-file_name [] n no_dir-IsDir h Kind.pm_pool false,
      )
      refl

module _ (target : Target) (queue : Folder)
    (injects : (g : Text) (images : Folder)
      → (after : Folder) × (target.tc_gen_crash_sites g images ≡ ok after)) where
  injected :
      (g : Text) (images : Folder)
      → (after : Folder) × ((if target.finj_enabled && ltb (target.randval g) 5
            then target.tc_gen_crash_sites g images
            else ok images)
          ≡ ok after)
  injected g images = elim (Bool-cases (target.finj_enabled && ltb (target.randval g) 5)) [
    | inl e ↦ rw e (injects g images)
    | inr e ↦ rw e (images, refl)
  ]

  collect_tc_lem :
      (g : Text) (n : Name) (stage : Local)
      → IsGood target queue (g, n)
      → (next : Local) × (collect_tc target queue g (testcase_of n) stage ≡ ok next)
        × ((m : Name)
            → get (testcase_of m) next.tc_dir ≡ (
                if text_eq (testcase_of m) (testcase_of n)
                then get g queue
                else get (testcase_of m) stage.tc_dir))
  unfolding collect_tc _collect_map is_file text_eq
  collect_tc_lem g n stage (hn, clean, (content, img, there, made), (traces, mapped)) =
      let t = testcase_of n in
      let copied = put t content stage.tc_dir in
      let with_map = put (codes "map_" ++ t) traces copied in
      let pm_src = codes "pm_map_" ++ replace g (codes ".testcase") [] in
      let done = copy_if_there pm_src queue (codes "pm_map_" ++ t) with_map in
      let at : (m : Name)
          → get (testcase_of m) done ≡ (
              if text_eq (testcase_of m) t
              then some content
              else get (testcase_of m) stage.tc_dir) =
        λ m.
          get-copy_if_there (testcase_of m) pm_src (codes "pm_map_" ++ t) queue with_map refl
          ∙ get-put (testcase_of m) (codes "map_" ++ t) traces copied
          ∙ get-put (testcase_of m) t content stage.tc_dir in
      let here : get t done ≡ some content = at n ∙ rw (text_eq_refl t) refl in
      let (images, e) = injected g (put (image_of n) img stage.img_dir) in
      (
        record { tc_dir = done; img_dir = images },
        rw
            (
              copypreserve-some g t content queue stage.tc_dir there,
              mapped,
              copypreserve-some (map_src g) (codes "map_" ++ t) traces queue copied mapped,
              here,
              gen_img_lem target n content img stage.img_dir hn made,
              e,
            )
            refl,
        λ m. at m ∙ rw there refl,
      )

  collect_each_lem :
      (found : List Text) (cases : List Case) (stage : Local)
      → All (IsGood target queue) cases
      → (after : Local) × (collect_each target queue found (map (λ (g, n). g) cases) stage
          ≡ ok after)
        × ((m : Name)
            → get (testcase_of m) after.tc_dir ≡ (
                if contains found (testcase_of m)
                then get (testcase_of m) stage.tc_dir
                else or_else
                    (last_case queue (testcase_of m) cases)
                    (get (testcase_of m) stage.tc_dir)))
  unfolding collect_each
  collect_each_lem found [] stage h = (stage, refl, λ m. ground arith)
  collect_each_lem found ((g, n) ∷ cases) stage (good, hs) =
      elim (Bool-cases (contains found (testcase_of n))) [
        | inl old ↦
            let (after, e, at) = collect_each_lem found cases stage hs in
            (
              after,
              rw (good.1, old) e,
              λ m.
                  at m
                  ∙ found_before found queue g n cases m (get (testcase_of m) stage.tc_dir) old,
            )
        | inr new ↦
            let (next, e, one) = collect_tc_lem g n stage good in
            let (after, e', at) = collect_each_lem found cases next hs in
            (
              after,
              rw (good.1, new, e) e',
              λ m.
                  at m
                  ∙ collected_now found queue g n cases m (get (testcase_of m) stage.tc_dir) _ new
                      (one m) (good.2.0, good.2.1, good.2.2, tt),
            )
      ]

  -- A second call has nothing to do.
  collect_again :
      (found : List Text) (cases : List Case) (stage : Local)
      → All (IsGood target queue) cases
      → All (λ (g, n). contains found (testcase_of n) ≡ true) cases
      → collect_each target queue found (map (λ (g, n). g) cases) stage ≡ ok stage
  unfolding collect_each
  collect_again found [] stage h k = refl
  collect_again found ((g, n) ∷ cases) stage (good, hs) (k, ks) =
      rw (good.1, k) (collect_again found cases stage hs ks)

  some_case :
      (g : Text) (n : Name) (cases : List Case) (t : Text)
      → is_some (last_case queue t cases) ≡ true
      → is_some (last_case queue t ((g, n) ∷ cases)) ≡ true
  some_case g n cases t h = ground arith

  last_case-All :
      (all cases : List Case)
      → All (λ (g, n). is_some (last_case queue (testcase_of n) all) ≡ true) cases
      → (stage after : Folder)
      → ((m : Name)
          → get (testcase_of m) after ≡ (
              if is_file stage (testcase_of m)
              then get (testcase_of m) stage
              else last_case queue (testcase_of m) all))
      → All (λ (g, n). contains (names after) (testcase_of n) ≡ true) cases
  unfolding is_file
  last_case-All all [] h stage after at = tt
  last_case-All all ((g, n) ∷ cases) (h, hs) stage after at = (
    contains-names after (testcase_of n) ∙ ap is_some (at n) ∙ ground arith,
    last_case-All all cases hs stage after at,
  )

  grown_cases :
      (g : Text) (n : Name) (all cases : List Case)
      → All (λ (g, n). is_some (last_case queue (testcase_of n) all) ≡ true) cases
      → All (λ (g', n'). is_some (last_case queue (testcase_of n') ((g, n) ∷ all)) ≡ true) cases
  grown_cases g n all [] h = tt
  grown_cases g n all ((g', n') ∷ cases) (h, hs) =
      (some_case g n all (testcase_of n') h, grown_cases g n all cases hs)

  each_case :
      (cases : List Case)
      → All (IsGood target queue) cases
      → All (λ (g, n). is_some (last_case queue (testcase_of n) cases) ≡ true) cases
  each_case [] h = tt
  each_case ((g, n) ∷ cases) ((hn, clean, (content, img, there, made), traces), hs) = (
    rw (text_eq_refl (testcase_of n), there)
        (last_some (last_case queue (testcase_of n) cases) content),
    grown_cases g n cases cases (each_case cases hs),
  )

  -- For cases of the queue that have names, contents that make images, and maps, and an injection of
  -- failures that does not fail, the collection does not fail: every testcase that was collected
  -- before is as it was, every other is the last case of the queue with its name, if there is one. A
  -- second collection of the same queue changes nothing.
  pub collect_results_lem :
      (cases : List Case) (stage : Local)
      → keep (λ name. starts_with name (codes "id")) (names queue) ≡ map (λ (g, n). g) cases
      → All (IsGood target queue) cases
      → (after : Local) × (collect_results target queue stage ≡ ok after)
        × ((m : Name)
            → get (testcase_of m) after.tc_dir ≡ (
                if is_file stage.tc_dir (testcase_of m)
                then get (testcase_of m) stage.tc_dir
                else last_case queue (testcase_of m) cases))
        × (collect_results target queue after ≡ ok after)
  unfolding collect_results
  collect_results_lem cases stage listed h =
      let (after, e, at) = collect_each_lem (names stage.tc_dir) cases stage h in
      let at' : (m : Name)
          → get (testcase_of m) after.tc_dir ≡ (
              if is_file stage.tc_dir (testcase_of m)
              then get (testcase_of m) stage.tc_dir
              else last_case queue (testcase_of m) cases) =
        λ m. at m ∙ new_only stage.tc_dir (testcase_of m) (last_case queue (testcase_of m) cases) in
      (
        after,
        rw listed e,
        at',
        rw listed (
            collect_again (names after.tc_dir) cases after h
              (last_case-All cases cases (each_case cases h) stage.tc_dir after.tc_dir at')),
      )
