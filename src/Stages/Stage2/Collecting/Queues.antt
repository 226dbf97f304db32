-- ===== src/Stages/Stage2/Collecting/Queues.antt =====
-- The queues of an iteration, and the jobs that collect them.
use pmfuzz.Base.{
  Bool, not, List, [], ◌∷◌, ◌++◌, ◌≡◌, inl, inr, refl, ap, ◌∙◌, Text, codes, contains, keep, map,
  All, All-append, ok, Bool-cases, append_assoc,
}
use pmfuzz.Str.{starts_with}
use pmfuzz.Str.Path.{dirname}
use pmfuzz.Str.Path.Laws.{in_dir, no_dir-IsDir, basename-in_dir}
use pmfuzz.NameHandler.Grammar.{Name, IsName, render}
use pmfuzz.NameHandler.Metadata.Family.{Kind, file_name-IsFile}
use pmfuzz.NameHandler.Metadata.Apart.{testcase_of}
use pmfuzz.Stages.Folder.{Folder, names}
use pmfuzz.Stages.Stage1.{Target}
use pmfuzz.Stages.Stage2.Terminating.{Job}
use pmfuzz.Stages.Stage2.Terminating.Jobs.{
  child_of, child_of-IsName, testcase_of-child_of, IsGoodJob, dest_of,
}
use pmfuzz.Stages.Stage2.Terminating.Ended.{Child, IsGoodChild}
use pmfuzz.Stages.Stage2.Collecting.{new_jobs, all_new_jobs}

-- A run of AFL: the path of its queue, the queue, the testcase that was run, and its children.
pub record Run : Type 0 where
  pub o_dir : Text
  pub q_dir : Folder
  pub parent : Name
  pub children : List Child

-- The queue stands two directories below that of the testcase, and no child fails.
abbrev pub IsRun : Target → Text → Run → Type 0
IsRun target d r =
    IsName r.parent
    × (dirname (dirname r.o_dir) ≡ in_dir d (render r.parent []))
    × (keep (λ name. starts_with name (codes "id")) (names r.q_dir) ≡ map (λ (g, m). g) r.children)
    × All (IsGoodChild target r.q_dir) r.children

abbrev pub queue_of : Run → Text × Folder
queue_of r = (r.o_dir, r.q_dir)

abbrev pub run_job : Text → Run → Child → Job
run_job d r (g, m) = (r.q_dir, g, in_dir d (testcase_of (child_of r.parent m)))

abbrev pub run_jobs_of : Text → List Run → List Job
run_jobs_of d [] = []
run_jobs_of d (r ∷ rs) = map (run_job d r) r.children ++ run_jobs_of d rs

abbrev pub is_new : List Text → Job → Bool
is_new found j = not (contains found (dest_of j))

in_dir-append : (d s t : Text) → in_dir d s ++ t ≡ in_dir d (s ++ t)
in_dir-append [] s t = refl
in_dir-append (c ∷ d) s t = simp append_assoc

clean_path :
    (d : Text) (n m : Name)
    → (in_dir d (render n []) ++ codes ",") ++ testcase_of m ≡ in_dir d (testcase_of (child_of n m))
clean_path d n m =
    append_assoc (in_dir d (render n [])) (codes ",") (testcase_of m)
    ∙ in_dir-append d (render n []) (b',' ∷ testcase_of m)
    ∙ ap (in_dir d) (testcase_of-child_of n m)

keep_both : (p : Job → Bool) (xs ys : List Job) → keep p (xs ++ ys) ≡ keep p xs ++ keep p ys
unfolding keep
keep_both p [] ys = refl
keep_both p (x ∷ xs) ys = elim (Bool-cases (p x)) [
  | inl e ↦ rw e (ap (◌∷◌ x) (keep_both p xs ys))
  | inr e ↦ rw e (keep_both p xs ys)
]

module _ (target : Target) (d : Text) where
  new_jobs-children :
      (found : List Text) (r : Run) (children : List Child)
      → dirname (dirname r.o_dir) ≡ in_dir d (render r.parent [])
      → All (IsGoodChild target r.q_dir) children
      → new_jobs found r.o_dir r.q_dir (map (λ (g, m). g) children)
        ≡ ok (keep (is_new found) (map (run_job d r) children))
  unfolding new_jobs keep
  new_jobs-children found r [] at hs = refl
  new_jobs-children found r ((g, m) ∷ children) at ((hm, clean, made), hs) =
      rw (at, clean, new_jobs-children found r children at hs, clean_path d r.parent m) refl

  pub all_new_jobs-runs :
      (found : List Text) (rs : List Run)
      → All (IsRun target d) rs
      → all_new_jobs found (map queue_of rs) ≡ ok (keep (is_new found) (run_jobs_of d rs))
  unfolding all_new_jobs keep
  all_new_jobs-runs found [] hs = refl
  all_new_jobs-runs found (r ∷ rs) ((hn, at, listed, good), hs) =
      rw
        (
          listed,
          new_jobs-children found r r.children at good,
          all_new_jobs-runs found rs hs,
          keep_both (is_new found) (map (run_job d r) r.children) (run_jobs_of d rs),
        )
        refl

  children-AllGood :
      (r : Run) (children : List Child)
      → IsName r.parent
      → All (IsGoodChild target r.q_dir) children
      → All (IsGoodJob target) (map (run_job d r) children)
  children-AllGood r [] hn hs = tt
  children-AllGood r ((g, m) ∷ children) hn ((hm, clean, made), hs) =
      let c = child_of r.parent m in
      let hc = child_of-IsName r.parent m hn hm in
      (
        (
          (
            c,
            hc,
            basename-in_dir d (testcase_of c) (file_name-IsFile [] c no_dir-IsDir hc Kind.testcase),
          ),
          made,
        ),
        children-AllGood r children hn hs,
      )

  pub runs-AllGood :
      (rs : List Run) → All (IsRun target d) rs → All (IsGoodJob target) (run_jobs_of d rs)
  runs-AllGood [] hs = tt
  runs-AllGood (r ∷ rs) ((hn, at, listed, good), hs) =
      All-append (IsGoodJob target) (map (run_job d r) r.children) (run_jobs_of d rs)
        (children-AllGood r r.children hn good) (runs-AllGood rs hs)
