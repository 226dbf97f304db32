-- ===== src/Stages/Stage2/EndingCs/Laws.antt =====
-- What the end of a run on a crash site collects, and what its engine gets.
use mathlib.Core.List.{Permᴰ}
use pmfuzz.Base.{
  ℤ, Bool, true, false, not, ◌&&◌, ◌||◌, List, [], ◌∷◌, ◌++◌, ◌≡◌, inl, inr, refl, sym, ap, ◌∙◌,
  arith, Text, codes, Distinct, keep, map, All, none, some, ok, text_eq, ◌>>=◌, Bool-cases,
}
use pmfuzz.Str.{starts_with}
use pmfuzz.Str.Number.{int}
use pmfuzz.Str.Path.{join}
use pmfuzz.Str.Path.Laws.{no_dir-IsDir}
use pmfuzz.NameHandler.Grammar.{Name, IsName, render, render_end}
use pmfuzz.NameHandler.Patterns.{is_map, is_hash_f}
use pmfuzz.NameHandler.Image.{Get, valid_get, pick_img, get_parent_img}
use pmfuzz.NameHandler.Image.Laws.{get_parent_img_self}
use pmfuzz.NameHandler.Metadata.Family.{Kind}
use pmfuzz.NameHandler.Metadata.Apart.{testcase_of}
use pmfuzz.Core.DedupEngine.{run}
use pmfuzz.Stages.Folder.{Folder, names, get}
use pmfuzz.Stages.Stage1.{Target, Local}
use pmfuzz.Stages.Hashes.{is_uncmpr}
use pmfuzz.Stages.Stage2.Terminating.{Job}
use pmfuzz.Stages.Stage2.Terminating.Orders.{All-Perm, Distinct-Perm}
use pmfuzz.Stages.Stage2.Terminating.Images.{IsHashed, IsHashed-put, tidied}
use pmfuzz.Stages.Stage2.Terminating.Jobs.{
  testcase_of-child_of, IsGoodJob, dest_of, written, written-Perm, run_jobs_lem,
}
use pmfuzz.Stages.Stage2.Terminating.Ended.{
  Child, IsGoodChild, job_of, Injects, inject_lem, children-IsGoodJob,
}
use pmfuzz.Stages.Stage2.EndingCs.{
  dir2del, Outside, cs_jobs_of, files_in, terminate_cs_running, _terminate_cs,
}

-- The global store has one image of the crash site: its compressed crash site or its compressed pool.
abbrev pub HasOne : (Text → Bool) → Text → Name → Type 0
HasOne is_file dir n =
    ((is_file (join dir (render n (codes ".crash_site.tar.gz")))
        && is_file (join dir (render n (codes ".pm_pool.tar.gz"))))
      ≡ false)
    × ((is_file (join dir (render n (codes ".crash_site.tar.gz")))
          || is_file (join dir (render n (codes ".pm_pool.tar.gz"))))
        ≡ true)

picked :
    (is_file : Text → Bool) (cs_path complete_path : Text)
    → (is_file cs_path && is_file complete_path) ≡ false
    → (is_file cs_path || is_file complete_path) ≡ true
    → (exp_img_path : Text) × (pick_img Get.exists is_file cs_path complete_path ≡ ok exp_img_path)
      × (is_file exp_img_path ≡ true)
unfolding pick_img
picked is_file cs_path complete_path both one = elim (Bool-cases (is_file cs_path)) [
  | inl e ↦ (cs_path, rw (both, e) refl, e)
  | inr e ↦
      let there : is_file complete_path ≡ true = ground arith in
      (complete_path, rw (e, there) refl, there)
]

module _ (target : Target) (q_dir : Folder) (n : Name) (h : IsName n) where
  image_found :
      (is_file : Text → Bool) (gbl_dir : Text)
      → HasOne is_file gbl_dir n
      → (exp_img_path : Text) × (get_parent_img is_file
            (render n [] ++ codes ".testcase")
            gbl_dir
            Get.exists
            true
          ≡ ok exp_img_path)
        × (is_file exp_img_path ≡ true)
  unfolding valid_get
  image_found is_file gbl_dir (both, one) =
      let (exp_img_path, e, there) =
        picked is_file (join gbl_dir (render n (codes ".crash_site.tar.gz")))
          (join gbl_dir (render n (codes ".pm_pool.tar.gz"))) both one in
      (
        exp_img_path,
        ap (λ t. get_parent_img is_file t gbl_dir Get.exists true)
              (sym (render_end n (codes ".testcase")))
            ∙ get_parent_img_self is_file [] gbl_dir n Kind.testcase Get.exists no_dir-IsDir h
            ∙ e,
        there,
      )

  cs_jobs_of-children :
      (is_file : Text → Bool) (gbl_dir : Text) (children : List Child)
      → HasOne is_file gbl_dir n
      → All (IsGoodChild target q_dir) children
      → cs_jobs_of is_file gbl_dir (render n []) q_dir (map (λ (g, m). g) children)
        ≡ ok (map (job_of q_dir n) children)
  unfolding cs_jobs_of
  cs_jobs_of-children is_file gbl_dir [] one hs = refl
  cs_jobs_of-children is_file gbl_dir ((g, m) ∷ children) one ((hm, clean, made), hs) =
      let (exp_img_path, e, there) = image_found is_file gbl_dir one in
      rw
        (
          e,
          there,
          clean,
          cs_jobs_of-children is_file gbl_dir children one hs,
          testcase_of-child_of n m,
        )
        refl

-- Where a process can be killed, one directory with an image of the run and one image of the crash site
-- are there, the children in its queue have distinct names and make images, and the injection of
-- failures does not fail and writes hash files that can be read: the end of the run collects, in
-- whatever order the jobs of the pool come, every child as a testcase behind the comma of the
-- crash site, every other testcase is as it was, and no hash file and no uncompressed image is left.
-- The end is then what a run of the engine over the maps of these testcases makes of them, fails where
-- this fails, and leaves no process file and no directory of the run, and `Dedup.run` is called next.
pub _terminate_cs_lem :
    (target : Target) (outside : Outside) (gbl_dir tc_path : Text) (n : Name)
    (children : List Child) (pid_text : Text) (pid : ℤ) (dir : Text) (img_loc : List Text)
    (q_dir : Folder) (stage : Local) (hash_db : Folder)
    → IsName n
    → int pid_text ≡ some pid
    → outside.kill pid ≡ ok tt
    → dir2del (render n []) img_loc ≡ dir ∷ []
    → HasOne outside.is_file gbl_dir n
    → keep (λ f. starts_with f (codes "id")) (names q_dir) ≡ map (λ (g, m). g) children
    → All (IsGoodChild target q_dir) children
    → Distinct (map dest_of (map (job_of q_dir n) children))
    → IsHashed stage.img_dir
    → ((jobs : List Job) → Permᴰ (outside.schedule jobs) jobs)
    → Injects target
    → (collected : Local) × (db : Folder) × (_terminate_cs target outside gbl_dir tc_path
          (render n [])
          (record { pid_f = some pid_text; img_loc = img_loc; q_dir = q_dir })
          stage
          hash_db
        ≡ (run outside.sha256 outside.note is_map
              (map (join tc_path) (names collected.tc_dir))
              (files_in tc_path collected.tc_dir)
            >>= λ files. ok (record {
              run = record {
                pid_f = none;
                img_loc = keep (λ d. not (text_eq d dir)) img_loc;
                q_dir = q_dir;
              };
              files = files;
              img_dir = collected.img_dir;
              hash_db = db;
              to_dedup = true;
            })))
      × ((m : Name)
          → get (testcase_of m) collected.tc_dir
            ≡ written
                (map (job_of q_dir n) children)
                (testcase_of m)
                (get (testcase_of m) stage.tc_dir))
      × ((x : Text) → (is_hash_f x || is_uncmpr x) ≡ true → get x collected.img_dir ≡ none)
unfolding _terminate_cs terminate_cs_running
_terminate_cs_lem target outside gbl_dir tc_path n children pid_text pid dir img_loc q_dir stage
      hash_db h number killed match one listed good d hashed order injects =
    let jobs = map (job_of q_dir n) children in
    let (after, e, still, at) =
      run_jobs_lem target IsHashed IsHashed-put (outside.schedule jobs) stage
        (All-Perm (IsGoodJob target) (order jobs)
          (children-IsGoodJob target q_dir n h children good))
        (Distinct-Perm dest_of (order jobs) d) hashed in
    let (images, made, done) =
      inject_lem target (map (λ (g, m). g) children) after.img_dir injects still in
    let (img_dir, db, stored, left) = tidied images hash_db done in
    (
      record { tc_dir = after.tc_dir; img_dir = img_dir },
      db,
      rw
          (
            number,
            killed,
            match,
            listed,
            cs_jobs_of-children target q_dir n h outside.is_file gbl_dir children one good,
            e,
            made,
            stored,
          )
          refl,
      λ m. at m ∙ written-Perm (testcase_of m) (get (testcase_of m) stage.tc_dir) (order jobs) d,
      λ x gone. left x ∙ rw gone refl,
    )
