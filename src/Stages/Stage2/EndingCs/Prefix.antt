-- ===== src/Stages/Stage2/EndingCs/Prefix.antt =====
-- The end of a run on a crash site while another one runs whose name begins alike.
use pmfuzz.Base.{
  ℤ, Bool, true, List, [], ◌∷◌, ◌++◌, ◌≡◌, inl, inr, refl, ap, ◌∙◌, Text, codes, keep, some, ok,
  err, aborted, Bool-cases, append_assoc,
}
use pmfuzz.Str.{starts_with}
use pmfuzz.Str.Laws.{starts_with-append}
use pmfuzz.Str.Number.{int}
use pmfuzz.Stages.Folder.{Folder}
use pmfuzz.Stages.Stage1.{Target, Local}
use pmfuzz.Stages.Stage2.EndingCs.{one_match, Outside, terminate_cs_running, _terminate_cs}

module _ (p : Text → Bool) where
  some_kept :
      (xs : List Text) (y : Text) (ys : List Text)
      → p y ≡ true
      → (z : Text) × (zs : List Text) × (keep p (xs ++ (y ∷ ys)) ≡ z ∷ zs)
  unfolding keep
  some_kept [] y ys h = (y, keep p ys, rw h refl)
  some_kept (x ∷ xs) y ys h = elim (Bool-cases (p x)) [
    | inl e ↦ (x, keep p (xs ++ (y ∷ ys)), rw e refl)
    | inr e ↦ let (z, zs, q) = some_kept xs y ys h in (z, zs, rw e q)
  ]

  two_kept :
      (xs : List Text) (y : Text) (ys : List Text) (z : Text) (zs : List Text)
      → p y ≡ true
      → p z ≡ true
      → one_match (keep p (xs ++ (y ∷ (ys ++ (z ∷ zs))))) ≡ err aborted
  unfolding keep
  two_kept [] y ys z zs h k = let (a, rest, q) = some_kept ys z zs k in rw (h, q) refl
  two_kept (x ∷ xs) y ys z zs h k = elim (Bool-cases (p x)) [
    | inl e ↦ let (a, rest, q) = some_kept xs y (ys ++ (z ∷ zs)) h in rw (e, q) refl
    | inr e ↦ rw e (two_kept xs y ys z zs h k)
  ]

-- While another crash site runs whose name begins with the name of this one, the end of this one aborts
-- behind the kill of its process: the directories of both begin with its name.
pub _terminate_cs_prefix :
    (target : Target) (outside : Outside)
    (gbl_dir tc_path csname rest random random' pid_text : Text) (pid : ℤ)
    (before between after : List Text) (q_dir : Folder) (stage : Local) (hash_db : Folder)
    → int pid_text ≡ some pid
    → outside.kill pid ≡ ok tt
    → _terminate_cs target outside gbl_dir tc_path csname
        (record {
          pid_f = some pid_text;
          img_loc =
              before
              ++ ((codes "pmfuzz-cs-run-" ++ (csname ++ random))
                  ∷ (between
                      ++ ((codes "pmfuzz-cs-run-" ++ ((csname ++ rest) ++ random')) ∷ after)));
          q_dir = q_dir;
        })
        stage
        hash_db
      ≡ err aborted
unfolding _terminate_cs terminate_cs_running
_terminate_cs_prefix target outside gbl_dir tc_path csname rest random random' pid_text pid before
      between after q_dir stage hash_db number killed =
    let prefix = codes "pmfuzz-cs-run-" in
    let own : starts_with (prefix ++ (csname ++ random)) (prefix ++ csname) ≡ true =
      starts_with-append (prefix ++ csname) random in
    let others : starts_with (prefix ++ ((csname ++ rest) ++ random')) (prefix ++ csname) ≡ true =
      ap (λ t. starts_with (prefix ++ t) (prefix ++ csname)) (append_assoc csname rest random')
      ∙ starts_with-append (prefix ++ csname) (rest ++ random') in
    rw
      (
        number,
        killed,
        two_kept (λ d. starts_with d (prefix ++ csname)) before (prefix ++ (csname ++ random))
            between (prefix ++ ((csname ++ rest) ++ random')) after own others,
      )
      refl
