-- ===== src/Stages/Stage2/Terminating/Ended.antt =====
-- What the end of a run of AFL leaves.
use mathlib.Core.List.{Permᴰ}
use pmfuzz.Base.{
  ℤ, true, false, ◌&&◌, ◌||◌, List, [], ◌∷◌, ◌++◌, ◌≡◌, inl, inr, refl, sym, ap, ◌∙◌, ltb, Text,
  codes, Distinct, keep, map, All, none, some, Result, ok, Bool-cases,
}
use pmfuzz.Str.{starts_with}
use pmfuzz.Str.Number.{int}
use pmfuzz.Str.Path.Laws.{no_dir-IsDir, basename_file}
use pmfuzz.NameHandler.Metadata.Family.{Kind, file_name-IsFile}
use pmfuzz.NameHandler.Grammar.{Name, IsName, render, render_end}
use pmfuzz.NameHandler.Lineage.{clean_tc_name}
use pmfuzz.NameHandler.Patterns.{is_hash_f}
use pmfuzz.NameHandler.Metadata.Apart.{testcase_of, image_of}
use pmfuzz.Stages.Folder.{Folder, names, get, is_file}
use pmfuzz.Stages.Stage1.{Target, Local}
use pmfuzz.Stages.Hashes.{is_uncmpr}
use pmfuzz.Stages.Stage2.Terminating.{
  Job, jobs_of, cs_gen_thresh, inject, Terminated, terminate_running, _terminate_testcase,
}
use pmfuzz.Stages.Stage2.Terminating.Orders.{All-Perm, Distinct-Perm}
use pmfuzz.Stages.Stage2.Terminating.Images.{IsHashed, IsHashed-put, tidied}
use pmfuzz.Stages.Stage2.Terminating.Jobs.{
  child_of, child_of-IsName, testcase_of-child_of, Makes, IsGoodJob, dest_of, written, written-Perm,
  run_jobs_lem,
}

-- A child in the queue with its name: it is there, and the program makes an image from it.
abbrev pub Child : Type 0
Child = Text × Name

abbrev pub IsGoodChild : Target → Folder → Child → Type 0
IsGoodChild target q_dir (g, m) =
    IsName m × (clean_tc_name g ≡ ok (testcase_of m)) × Makes target q_dir g

abbrev pub job_of : Folder → Name → Child → Job
job_of q_dir n (g, m) = (q_dir, g, testcase_of (child_of n m))

-- The injection of failures does not fail, and its hash files can be read.
abbrev pub Injects : Target → Type 0
Injects target =
    (g : Text) (i : Folder)
    → IsHashed i
    → (after : Folder) × (target.tc_gen_crash_sites g i ≡ ok after) × IsHashed after

pub inject_lem :
    (target : Target) (gs : List Text) (i : Folder)
    → Injects target
    → IsHashed i
    → (after : Folder) × (inject target gs i ≡ ok after) × IsHashed after
unfolding inject
inject_lem target [] i h hashed = (i, refl, hashed)
inject_lem target (g ∷ gs) i h hashed =
    elim (Bool-cases (target.finj_enabled && ltb (target.randval g) cs_gen_thresh)) [
      | inl e ↦
          let (next, made, still) = h g i hashed in
          let (after, rest, done) = inject_lem target gs next h still in
          (after, rw (e, made) rest, done)
      | inr e ↦
          let (after, rest, done) = inject_lem target gs i h hashed in (after, rw e rest, done)
    ]

module _ (target : Target) (q_dir : Folder) (n : Name) (h : IsName n) where
  jobs_of-children :
      (gbl : Folder) (children : List Child)
      → is_file gbl (image_of n) ≡ true
      → All (IsGoodChild target q_dir) children
      → jobs_of gbl (render n []) q_dir (map (λ (g, m). g) children)
        ≡ ok (map (job_of q_dir n) children)
  unfolding jobs_of
  jobs_of-children gbl [] there hs = refl
  jobs_of-children gbl ((g, m) ∷ children) there ((hm, clean, made), hs) =
      let image : is_file gbl (render n [] ++ codes ".pm_pool.tar.gz") ≡ true =
        ap (is_file gbl) (sym (render_end n (codes ".pm_pool.tar.gz"))) ∙ there in
      rw (image, clean, jobs_of-children gbl children there hs, testcase_of-child_of n m) refl

  pub children-IsGoodJob :
      (children : List Child)
      → All (IsGoodChild target q_dir) children
      → All (IsGoodJob target) (map (job_of q_dir n) children)
  children-IsGoodJob [] hs = tt
  children-IsGoodJob ((g, m) ∷ children) ((hm, clean, made), hs) = (
    (
      (
        child_of n m,
        child_of-IsName n m h hm,
        basename_file (testcase_of (child_of n m)) (
            file_name-IsFile [] (child_of n m) no_dir-IsDir (child_of-IsName n m h hm)
              Kind.testcase),
      ),
      made,
    ),
    children-IsGoodJob children hs,
  )

-- Where a process can be killed, its image and the image of its testcase are there, the children in its
-- queue have distinct names and make images, and the injection of failures does not fail and writes
-- hash files that can be read, the end of a testcase's run does not fail, in whatever order the jobs
-- of the pool come: every child is then a testcase behind the comma of its parent, every other
-- testcase is as it was, no hash file and no uncompressed image is left, `Dedup.run` is called next,
-- and a second end changes nothing.
pub _terminate_testcase_lem :
    (target : Target) (kill : ℤ → Result (Unit {0})) (schedule : List Job → List Job) (gbl : Folder)
    (n : Name) (children : List Child) (pid_text : Text) (pid : ℤ) (q_dir : Folder) (stage : Local)
    (hash_db : Folder)
    → IsName n
    → int pid_text ≡ some pid
    → kill pid ≡ ok tt
    → is_file gbl (image_of n) ≡ true
    → keep (λ f. starts_with f (codes "id")) (names q_dir) ≡ map (λ (g, m). g) children
    → All (IsGoodChild target q_dir) children
    → Distinct (map dest_of (map (job_of q_dir n) children))
    → IsHashed stage.img_dir
    → ((jobs : List Job) → Permᴰ (schedule jobs) jobs)
    → Injects target
    → (t : Terminated) × (_terminate_testcase target kill schedule gbl
          (render n [])
          (record { pid_f = some pid_text; has_img_dir = true; q_dir = q_dir })
          stage
          hash_db
        ≡ ok t)
      × ((m : Name)
          → get (testcase_of m) t.stage.tc_dir
            ≡ written
                (map (job_of q_dir n) children)
                (testcase_of m)
                (get (testcase_of m) stage.tc_dir))
      × ((x : Text) → (is_hash_f x || is_uncmpr x) ≡ true → get x t.stage.img_dir ≡ none)
      × (t.to_dedup ≡ true)
      × (_terminate_testcase target kill schedule gbl (render n []) t.run t.stage t.hash_db
          ≡ ok (record { run = t.run; stage = t.stage; hash_db = t.hash_db; to_dedup = false }))
unfolding _terminate_testcase terminate_running
_terminate_testcase_lem target kill schedule gbl n children pid_text pid q_dir stage hash_db h
      number killed image listed good d hashed order injects =
    let jobs = map (job_of q_dir n) children in
    let (after, e, still, at) =
      run_jobs_lem target IsHashed IsHashed-put (schedule jobs) stage
        (All-Perm (IsGoodJob target) (order jobs)
          (children-IsGoodJob target q_dir n h children good))
        (Distinct-Perm dest_of (order jobs) d) hashed in
    let (images, made, done) =
      inject_lem target (map (λ (g, m). g) children) after.img_dir injects still in
    let (img_dir, db, stored, left) = tidied images hash_db done in
    (
      record {
        run = record { pid_f = none; has_img_dir = false; q_dir = q_dir };
        stage = record { tc_dir = after.tc_dir; img_dir = img_dir };
        hash_db = db;
        to_dedup = true;
      },
      rw
          (
            number,
            killed,
            listed,
            jobs_of-children target q_dir n h gbl children image good,
            e,
            made,
            stored,
          )
          refl,
      λ m. at m ∙ written-Perm (testcase_of m) (get (testcase_of m) stage.tc_dir) (order jobs) d,
      λ x gone. left x ∙ rw gone refl,
      refl,
      refl,
    )
