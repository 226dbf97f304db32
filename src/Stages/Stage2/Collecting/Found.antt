-- ===== src/Stages/Stage2/Collecting/Found.antt =====
-- Which jobs are left out since their testcases were found, and what the others write.
use pmfuzz.Base.{
  Bool, true, false, List, [], ◌∷◌, ◌≡◌, inl, inr, refl, sym, ap, ◌∙◌, arith, if◌then◌else◌, Text,
  text_eq, text_eq_iff, text_eq_refl, contains, Distinct, keep, map, All, Option, none, some,
  Bool-cases,
}
use pmfuzz.Str.Path.{basename}
use pmfuzz.NameHandler.Grammar.{Name}
use pmfuzz.NameHandler.Metadata.Apart.{testcase_of}
use pmfuzz.Stages.Folder.{Folder, names, get, is_some, is_file}
use pmfuzz.Stages.Folder.Laws.{contains-names}
use pmfuzz.Stages.Stage1.{Target}
use pmfuzz.Stages.Stage2.Terminating.{Job}
use pmfuzz.Stages.Stage2.Terminating.Jobs.{IsGoodJob, dest_of, written}
use pmfuzz.Stages.Stage2.Collecting.Queues.{is_new}

pub keep-All : (P : Job → Type 0) (p : Job → Bool) (xs : List Job) → All P xs → All P (keep p xs)
unfolding keep
keep-All P p [] hs = tt
keep-All P p (x ∷ xs) (h, hs) = elim (Bool-cases (p x)) [
  | inl e ↦ rw e (h, keep-All P p xs hs)
  | inr e ↦ rw e (keep-All P p xs hs)
]

drop_found :
    (found : List Text) (t dest : Text) (old new rest : Option Text)
    → contains found dest ≡ true
    → (if contains found t then old else rest)
      ≡ (if contains found t then old else if text_eq t dest then new else rest)
drop_found found t dest old new rest h = elim (Bool-cases (text_eq t dest)) [
  | inl e ↦
      let there : contains found t ≡ true = ap (contains found) ((text_eq_iff t dest).0 e) ∙ h in
      rw there refl
  | inr e ↦ rw e refl
]

keep_new :
    (found : List Text) (t dest : Text) (old new rest : Option Text)
    → contains found dest ≡ false
    → (if text_eq t dest then new else if contains found t then old else rest)
      ≡ (if contains found t then old else if text_eq t dest then new else rest)
keep_new found t dest old new rest h = elim (Bool-cases (text_eq t dest)) [
  | inl e ↦
      let absent : contains found t ≡ false = ap (contains found) ((text_eq_iff t dest).0 e) ∙ h in
      rw (e, absent) refl
  | inr e ↦ rw e refl
]

-- What stood there is not collected again.
pub written-keep :
    (found : List Text) (jobs : List Job) (t : Text) (old : Option Text)
    → written (keep (is_new found) jobs) t old
      ≡ (if contains found t then old else written jobs t old)
unfolding keep
written-keep found [] t old = ground arith
written-keep found ((q_dir, g, path) ∷ jobs) t old =
    elim (Bool-cases (contains found (basename path))) [
      | inl e ↦ rw e (
          written-keep found jobs t old
          ∙ drop_found found t (basename path) old (get (basename g) q_dir) (written jobs t old) e)
      | inr e ↦
          rw (e, written-keep found jobs t old)
            (keep_new found t (basename path) old (get (basename g) q_dir) (written jobs t old) e)
    ]

absent-keep :
    (p : Job → Bool) (jobs : List Job) (t : Text)
    → contains (map dest_of jobs) t ≡ false
    → contains (map dest_of (keep p jobs)) t ≡ false
unfolding keep contains
absent-keep p [] t h = refl
absent-keep p (j ∷ jobs) t h = elim (Bool-cases (p j)) [
  | inl e ↦
      let apart : text_eq t (dest_of j) ≡ false = ground arith in
      rw (e, apart) (absent-keep p jobs t (ground arith))
  | inr e ↦ rw e (absent-keep p jobs t (ground arith))
]

pub dests-Distinct :
    (p : Job → Bool) (jobs : List Job)
    → Distinct (map dest_of jobs)
    → Distinct (map dest_of (keep p jobs))
unfolding keep
dests-Distinct p [] d = tt
dests-Distinct p (j ∷ jobs) (absent, d) = elim (Bool-cases (p j)) [
  | inl e ↦ rw e (absent-keep p jobs (dest_of j) absent, dests-Distinct p jobs d)
  | inr e ↦ rw e (dests-Distinct p jobs d)
]

pub keep_none :
    (found : List Text) (jobs : List Job)
    → All (λ j. contains found (dest_of j) ≡ true) jobs
    → keep (is_new found) jobs ≡ []
unfolding keep
keep_none found [] hs = refl
keep_none found (j ∷ jobs) (h, hs) = rw h (keep_none found jobs hs)

pub no_elements : (jobs : List Job) → All (λ j. ⊥) jobs → jobs ≡ []
no_elements [] hs = refl
no_elements (j ∷ jobs) (h, hs) = absurd h

module _ (target : Target) where
  more_written :
      (j : Job) (jobs : List Job) (t : Text)
      → IsGoodJob target j
      → is_some (written jobs t none) ≡ true
      → is_some (written (j ∷ jobs) t none) ≡ true
  more_written (q_dir, g, path) jobs t (named, (content, img, there, made)) h =
      elim (Bool-cases (text_eq t (basename path))) [ inl e ↦ rw (e, there) refl | inr e ↦ rw e h ]

  each_more :
      (j : Job) (all jobs : List Job)
      → IsGoodJob target j
      → All (λ i. is_some (written all (dest_of i) none) ≡ true) jobs
      → All (λ i. is_some (written (j ∷ all) (dest_of i) none) ≡ true) jobs
  each_more j all [] good hs = tt
  each_more j all (i ∷ jobs) good (h, hs) =
      (more_written j all (dest_of i) good h, each_more j all jobs good hs)

  pub each_written :
      (jobs : List Job)
      → All (IsGoodJob target) jobs
      → All (λ j. is_some (written jobs (dest_of j) none) ≡ true) jobs
  each_written [] hs = tt
  each_written ((q_dir, g, path) ∷ jobs) ((named, (content, img, there, made)), hs) = (
    rw (text_eq_refl (basename path), there) refl,
    each_more (q_dir, g, path) jobs jobs (named, (content, img, there, made))
        (each_written jobs hs),
  )

  pub all_found :
      (stage after : Folder) (all jobs : List Job)
      → All (IsGoodJob target) jobs
      → All (λ j. is_some (written all (dest_of j) none) ≡ true) jobs
      → ((m : Name)
          → get (testcase_of m) after ≡ (
              if is_file stage (testcase_of m)
              then get (testcase_of m) stage
              else written all (testcase_of m) none))
      → All (λ j. contains (names after) (dest_of j) ≡ true) jobs
  unfolding is_file
  all_found stage after all [] good hs at = tt
  all_found stage after all ((q_dir, g, path) ∷ jobs) (((k, hk, named), made), good) (h, hs) at = (
    ap (contains (names after)) named
        ∙ contains-names after (testcase_of k)
        ∙ ap is_some (at k)
        ∙ by_file (get (testcase_of k) stage) _
            (ap (λ t. is_some (written all t none)) (sym named) ∙ h),
    all_found stage after all jobs good hs at,
  )
    where
      by_file : (o w : Option Text) → is_some w ≡ true → is_some (if is_some o then o else w) ≡ true
      by_file none w e = e
      by_file (some content) w e = refl

pub kept_or_new :
    (tc_dir : Folder) (jobs : List Job) (t : Text)
    → (if contains (names tc_dir) t then get t tc_dir else written jobs t (get t tc_dir))
      ≡ (if is_file tc_dir t then get t tc_dir else written jobs t none)
unfolding is_file
kept_or_new tc_dir jobs t = rw (contains-names tc_dir t) (unfold is_file in by_file (get t tc_dir))
  where
    by_file :
        (o : Option Text)
        → (if is_some o then o else written jobs t o)
          ≡ (if is_some o then o else written jobs t none)
    by_file none = refl
    by_file (some content) = refl
