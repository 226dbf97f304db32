-- ===== src/Interfaces/FailureInjection/Laws.antt =====
-- What a run with injected failures is given, and when it aborts.
use pmfuzz.Base.{
  ℕ, Bool, true, not, ◌&&◌, ◌||◌, List, [], ◌≡◌, inl, inr, refl, ◌∙◌, arith, if◌then◌else◌, Text,
  codes, text_eq, Option, some, ok, err, aborted, ◌>>=◌, Bool-cases,
}
use pmfuzz.Str.{replace}
use pmfuzz.NameHandler.Image.{set_img_path}
use pmfuzz.Interfaces.Env.{Once, or_else, update, item-update}
use pmfuzz.Helper.Config.{Fields, text, dict, item, set_item, get_direct}
use pmfuzz.Helper.Config.Lookup.{item-set_item}
use pmfuzz.Helper.Shell.{exec_shell}
use pmfuzz.Helper.Shell.Laws.{join_words-texts, told, told_next}
use pmfuzz.Interfaces.FailureInjection.{
  Program, get_failure_inj_env, gen_failure_inj_cmd, run_failure_inj,
}

guard : (create there : Bool) → (not create && not there) ≡ not (create || there)
guard create there = ground arith

pub run_failure_inj_lem :
    (signal_name : ℕ → Option Text) (program : Program) (is_file : Text → Bool) (cfg : Fields)
    (tgtcmd : List Text) (imgpath testcase_f clean_name : Text) (create : Bool) (env new : Fields)
    (loc : Text)
    → get_direct cfg (codes "target.env") ≡ ok (dict env)
    → get_direct cfg (
        if create
        then codes "pmfuzz.failure_injection.img_gen_mode.create_env"
        else codes "pmfuzz.failure_injection.img_gen_mode.dont_create_env")
      ≡ ok (dict new)
    → Once new
    → get_direct cfg (codes "pmfuzz.img_loc") ≡ ok (text loc)
    → is_file testcase_f ≡ true
    → (run_env : Fields) × (cmd : List Text) × (run_failure_inj signal_name program is_file cfg
          tgtcmd imgpath testcase_f clean_name create
        ≡ (if create || is_file imgpath
            then (told signal_name (program run_env cmd testcase_f (some 30)) >>= λ success.
                if success then ok (run_env, cmd) else err aborted)
            else err aborted))
      × (cmd ≡ (set_img_path tgtcmd imgpath loc).1)
      × ((k : Text)
          → item k run_env ≡ (
              if text_eq k (codes "FI_IMG_SUFFIX")
              then some (text (replace clean_name (codes ".testcase") []))
              else or_else (item k new) (item k env)))
unfolding run_failure_inj gen_failure_inj_cmd get_failure_inj_env exec_shell
run_failure_inj_lem signal_name program is_file cfg tgtcmd imgpath testcase_f clean_name create env
      new loc h k once l there =
    let run_env =
      set_item (codes "FI_IMG_SUFFIX") (text (replace clean_name (codes ".testcase") []))
        (update env new) in
    (
      run_env,
      (set_img_path tgtcmd imgpath loc).1,
      elim (Bool-cases (create || is_file imgpath)) [
        | inl e ↦
            rw
              (
                guard create (is_file imgpath),
                e,
                h,
                k,
                l,
                there,
                (join_words-texts (set_img_path tgtcmd imgpath loc).1).1,
              )
              (told_next signal_name
                (program run_env (set_img_path tgtcmd imgpath loc).1 testcase_f (some 30))
                (run_env, (set_img_path tgtcmd imgpath loc).1))
        | inr e ↦ rw (guard create (is_file imgpath), e) refl
      ],
      refl,
      λ x.
          item-set_item x (codes "FI_IMG_SUFFIX") _ (update env new)
          ∙ rw (item-update x env new once) refl,
    )
