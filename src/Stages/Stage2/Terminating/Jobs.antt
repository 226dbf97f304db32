-- ===== src/Stages/Stage2/Terminating/Jobs.antt =====
-- The names of the children of a testcase, and what the jobs of `_terminate_testcase` collect, in whatever order they come.
use mathlib.Core.List.{Permᴰ}
use pmfuzz.Base.{
  Bool, ◌&&◌, false, List, [], ◌∷◌, ◌++◌, ◌≡◌, inl, inr, refl, sym, ap, ◌∙◌, arith, if◌then◌else◌,
  Text, codes, text_eq, text_eq_iff, text_eq_refl, contains, Distinct, map, All, All-append, Option,
  some, ok, Bool-cases,
}
use pmfuzz.Str.Path.{basename}
use pmfuzz.NameHandler.Grammar.{
  Name, comma, IsName, render, render_id, render_end, render_links-append,
}
use pmfuzz.NameHandler.Metadata.Apart.{testcase_of, image_of}
use pmfuzz.Stages.Folder.{Folder, get, put, copy_if_there}
use pmfuzz.Stages.Folder.Laws.{get-put, get-copy_if_there, copypreserve-some}
use pmfuzz.Stages.Stage1.{Target, Local}
use pmfuzz.Stages.Stage1.Collect.{gen_img_lem}
use pmfuzz.Stages.Stage2.Terminating.{collect_tc, Job, run_jobs}
use pmfuzz.Stages.Stage2.Terminating.Orders.{Distinct-Perm}

-- A child of a testcase stands behind a comma.
abbrev pub child_of : Name → Name → Name
child_of n m = record { first = n.first; rest = n.rest ++ (comma m.first ∷ m.rest) }

pub child_of-IsName : (n m : Name) → IsName n → IsName m → IsName (child_of n m)
child_of-IsName n m (h, hs) (k, ks) = (h, All-append _ n.rest (comma m.first ∷ m.rest) hs (k, ks))

pub testcase_of-child_of :
    (n m : Name) → render n [] ++ (b',' ∷ testcase_of m) ≡ testcase_of (child_of n m)
testcase_of-child_of n m = sym (
    ap (render_id n.first) (render_links-append n.rest (comma m.first ∷ m.rest) (codes ".testcase"))
    ∙ render_end n (b',' ∷ testcase_of m))

-- The image of a content that the queue has can be made.
abbrev pub Makes : Target → Folder → Text → Type 0
Makes target q_dir g =
    (content : Text) × (img : Text) × (get (basename g) q_dir ≡ some content)
    × (target.image content ≡ some img)

-- A job that does not fail.
abbrev pub IsGoodJob : Target → Job → Type 0
IsGoodJob target (q_dir, g, clean_name) =
    ((k : Name) × IsName k × (basename clean_name ≡ testcase_of k)) × Makes target q_dir g

-- The name that a job writes.
abbrev pub dest_of : Job → Text
dest_of (q_dir, g, clean_name) = basename clean_name

-- The content that the jobs write under a name.
abbrev pub written : List Job → Text → Option Text → Option Text
written [] t old = old
written ((q_dir, g, clean_name) ∷ jobs) t old =
    if text_eq t (basename clean_name) then get (basename g) q_dir else written jobs t old

written_absent :
    (jobs : List Job) (t : Text) (old : Option Text)
    → contains (map dest_of jobs) t ≡ false
    → written jobs t old ≡ old
unfolding contains
written_absent [] t old absent = refl
written_absent ((q_dir, g, clean_name) ∷ jobs) t old absent =
    let apart : text_eq t (basename clean_name) ≡ false = ground arith in
    rw apart (written_absent jobs t old (ground arith))

first_wins :
    (q_dir : Folder) (g clean_name : Text) (jobs : List Job) (t : Text) (old : Option Text)
    → contains (map dest_of jobs) (basename clean_name) ≡ false
    → written jobs t (if text_eq t (basename clean_name) then get (basename g) q_dir else old)
      ≡ written ((q_dir, g, clean_name) ∷ jobs) t old
first_wins q_dir g clean_name jobs t old absent =
    elim (Bool-cases (text_eq t (basename clean_name))) [
      | inl e ↦ rw e (
          written_absent jobs t (get (basename g) q_dir)
            (ap (contains (map dest_of jobs)) ((text_eq_iff t (basename clean_name)).0 e) ∙ absent))
      | inr e ↦ rw e refl
    ]

swapped :
    (s t : Bool) (a b c : Option Text)
    → (s && t) ≡ false
    → (if s then a else if t then b else c) ≡ (if t then b else if s then a else c)
swapped s t a b c h = ground arith

-- Jobs with distinct names write the same in whatever order they come.
pub written-Perm :
    (t : Text) (old : Option Text) {js ks : List Job}
    → Permᴰ js ks
    → Distinct (map dest_of ks)
    → written js t old ≡ written ks t old
unfolding contains
written-Perm t old Permᴰ.nil d = refl
written-Perm t old (Permᴰ.cons e p) (absent, d) = rw (e, written-Perm t old p d) refl
written-Perm t old (Permᴰ.swap {a' = a} {b' = b} e f) (absent, d) =
    rw (e, f)
      (swapped (text_eq t (dest_of b)) (text_eq t (dest_of a)) _ _ _
        (one_name t (dest_of a) (dest_of b) (ground arith)))
  where
    one_name : (t a b : Text) → text_eq a b ≡ false → (text_eq t b && text_eq t a) ≡ false
    one_name t a b apart = elim (Bool-cases (text_eq t a)) [
      | inl e ↦
          let same : t ≡ a = (text_eq_iff t a).0 e in rw (ap (λ x. text_eq x b) same, apart) refl
      | inr e ↦ ground arith
    ]
written-Perm t old (Permᴰ.trans p q) d =
    written-Perm t old p (Distinct-Perm dest_of q d) ∙ written-Perm t old q d

-- What the images keep is a parameter.
module _ (target : Target) (Keeps : Folder → Type 0)
    (Keeps-put : (k : Name) (img : Text) (i : Folder)
      → Keeps i
      → Keeps (put (image_of k) img i)) where
  collect_tc_st2_lem :
      (j : Job) (stage : Local)
      → IsGoodJob target j
      → Keeps stage.img_dir
      → (next : Local) × (collect_tc target j.0 j.1 j.2 stage ≡ ok next)
        × Keeps next.img_dir
        × ((m : Name)
            → get (testcase_of m) next.tc_dir ≡ (
                if text_eq (testcase_of m) (dest_of j)
                then get (basename j.1) j.0
                else get (testcase_of m) stage.tc_dir))
  unfolding collect_tc text_eq
  collect_tc_st2_lem (q_dir, g, clean_name) stage ((k, hk, named), (content, img, there, made))
        hashed =
      let t = testcase_of k in
      let src = basename g in
      let copied = put t content stage.tc_dir in
      let mapped = copy_if_there (codes "map_" ++ src) q_dir (codes "map_" ++ t) copied in
      let both = copy_if_there (codes "pm_map_" ++ src) q_dir (codes "pm_map_" ++ t) mapped in
      let at : (m : Name)
          → get (testcase_of m) both ≡ (
              if text_eq (testcase_of m) t
              then some content
              else get (testcase_of m) stage.tc_dir) =
        λ m.
          get-copy_if_there (testcase_of m) (codes "pm_map_" ++ src) (codes "pm_map_" ++ t) q_dir
            mapped refl
          ∙ get-copy_if_there (testcase_of m) (codes "map_" ++ src) (codes "map_" ++ t) q_dir copied
              refl
          ∙ get-put (testcase_of m) t content stage.tc_dir in
      let here : get t both ≡ some content = at k ∙ rw (text_eq_refl t) refl in
      (
        record { tc_dir = both; img_dir = put (image_of k) img stage.img_dir },
        rw
            (
              named,
              copypreserve-some src t content q_dir stage.tc_dir there,
              here,
              gen_img_lem target k content img stage.img_dir hk made,
            )
            refl,
        Keeps-put k img stage.img_dir hashed,
        λ m. at m ∙ rw (there, named) refl,
      )

  pub run_jobs_lem :
      (jobs : List Job) (stage : Local)
      → All (IsGoodJob target) jobs
      → Distinct (map dest_of jobs)
      → Keeps stage.img_dir
      → (after : Local) × (run_jobs target jobs stage ≡ ok after)
        × Keeps after.img_dir
        × ((m : Name)
            → get (testcase_of m) after.tc_dir
              ≡ written jobs (testcase_of m) (get (testcase_of m) stage.tc_dir))
  unfolding run_jobs
  run_jobs_lem [] stage hs d hashed = (stage, refl, hashed, λ m. refl)
  run_jobs_lem ((q_dir, g, clean_name) ∷ jobs) stage (good, hs) (absent, d) hashed =
      let (next, e, hashed', one) = collect_tc_st2_lem (q_dir, g, clean_name) stage good hashed in
      let (after, e', done, at) = run_jobs_lem jobs next hs d hashed' in
      (
        after,
        rw e e',
        done,
        λ m.
            at m
            ∙ ap (written jobs (testcase_of m)) (one m)
            ∙ first_wins q_dir g clean_name jobs (testcase_of m) (get (testcase_of m) stage.tc_dir)
                absent,
      )
