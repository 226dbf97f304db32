-- ===== src/Core/Machine/Aborts.antt =====
-- Where the state machine aborts: the local minimisation of single testcases.
use mathlib.Core.Path.{subst}
use pmfuzz.Base.{
  ℕ, ◌≤◌, true, List, [], ◌∷◌, ◌≡◌, refl, ap, ◌∙◌, arith, Result, ok, err, aborted, ◌>>◌, ◌>>=◌,
  if◌then◌else◌, abort_if, pos,
}
use pmfuzz.Base.Answers.{Outcomes, answer, then_bind, then_then}
use pmfuzz.NameHandler.Stage.Laws.{dir_name}
use pmfuzz.Core.World.{
  Call, stage1_collect, update_global, dedup_run, World, emit, record_call, makedirs, new_stage1,
  new_dedup, run_steps,
}
use pmfuzz.Core.Machine.{
  Options, Answers, no_steps, local_steps, corpus_steps, run_dedup, collect_stage1, round,
}
use pmfuzz.Core.Machine.Listing.{Lists, add_dir, make_dir}
use pmfuzz.Core.Machine.Calls.{outdir_name, new_dedup-At, one, two, add_dir-one, add_dir-two_first}
use pmfuzz.Core.Machine.Abstract.{Phase, idle, first, iterating, InPhase}
use pmfuzz.Core.Machine.Phases.{find_stage-Lists}

-- Stage 1 has been started.
abbrev pub Started : Phase → Type 0
Started idle = ⊥
Started first = Unit
Started (iterating k) = Unit

-- The calls before the abort.
abbrev pub before_abort : List Call
before_abort = dedup_run (pos 1) (pos 1) no_steps ∷ stage1_collect ∷ []

stopped :
    (r : Result (Unit {0})) (f : World → Result World)
    → ((r >> err aborted) >>= f) ≡ (r >> err aborted)
stopped (ok u) f = refl
stopped (err e) f = refl

module _ (o : Options) (asked : o.local_minimize_tc ≡ true) (outcomes : Outcomes Call) where
  run_steps_aborts :
      (w : World) → run_steps outcomes (pos 1) (pos 1) (local_steps o) w ≡ err aborted
  unfolding run_steps
  run_steps_aborts w =
      ap (λ b. abort_if b >> emit outcomes (dedup_run (pos 1) (pos 1) (local_steps o)) w) asked

  -- What comes behind the collection.
  behind : World → Result World
  behind w = do
    w₃ ← new_dedup (pos 1) (pos 1) w
    w₄ ← run_steps outcomes (pos 1) (pos 1) (local_steps o) w₃
    w₅ ← emit outcomes update_global w₄
    (if o.disable_stage2 then run_steps outcomes (pos 1) (pos 1) corpus_steps w₅ else ok w₅)

  two_calls :
      (before : List Call) (w : World)
      → w.calls ≡ before
      → behind (record_call stage1_collect (record_call (dedup_run (pos 1) (pos 1) no_steps) w))
        ≡ err aborted
      → (emit outcomes (dedup_run (pos 1) (pos 1) no_steps) w >>= λ w₂.
          (emit outcomes stage1_collect w₂ >>= behind))
        ≡ (answer outcomes before before_abort >> err aborted)
  unfolding answer
  two_calls before w same h =
      let first = outcomes w.calls (dedup_run (pos 1) (pos 1) no_steps) in
      let v = record_call (dedup_run (pos 1) (pos 1) no_steps) w in
      let second = outcomes v.calls stage1_collect in
      then_bind first (ok v) _
      ∙ ap (λ m. first >> m)
          (then_bind second (ok (record_call stage1_collect v)) behind ∙ ap (λ m. second >> m) h)
      ∙ then_then first second (err aborted)
      ∙ ap (λ r. (first >> r) >> err aborted) (ended second)
      ∙ ap (λ b. answer outcomes b before_abort >> err aborted) same
    where
      ended : (r : Result (Unit {0})) → r ≡ (r >> ok tt)
      ended (ok u) = refl
      ended (err e) = refl

  collect_aborts :
      (ps : List (ℕ × ℕ)) (w : World)
      → add_dir (1, 1) ps ≡ ps
      → Lists ps w.entries
      → collect_stage1 outcomes o w ≡ (answer outcomes w.calls before_abort >> err aborted)
  unfolding collect_stage1 new_stage1 run_dedup run_steps behind
  collect_aborts ps w same h =
      let one_le : 1 ≤ 1 = omega arith in
      let w₁ = makedirs (dir_name 1 1) w in
      let h₁ : Lists ps w₁.entries =
        subst (λ qs. Lists qs w₁.entries) same (make_dir ps 1 1 w.entries h) in
      let (w₂, e₂, (c₂, l₂, d₂)) = new_dedup-At ps 1 1 w₁ one_le one_le h₁ in
      let v = record_call stage1_collect (record_call (dedup_run (pos 1) (pos 1) no_steps) w₂) in
      let (w₃, e₃, k₃) =
        new_dedup-At ps 1 1 v one_le one_le (subst (λ qs. Lists qs w₂.entries) same l₂) in
      rw (outdir_name 1 1 one_le one_le, e₂)
        (two_calls w.calls w₂ c₂ (rw (e₃, run_steps_aborts w₃) refl))

  -- Where the local minimisation of single testcases is asked for, every round on an output directory
  -- in which stage 1 has been started ends in an error, whatever the timers answer: it aborts behind the
  -- collection of stage 1, unless one of the two calls before fails, which ends it with the error of that
  -- call.
  pub round_aborts :
      (a : Answers) (p : Phase) (w : World)
      → Started p
      → InPhase p w.entries
      → round outcomes o a w ≡ (answer outcomes w.calls before_abort >> err aborted)
  unfolding round
  round_aborts a idle w s h = absurd s
  round_aborts a first w s h =
      rw (find_stage-Lists one w h, collect_aborts one w add_dir-one h) (stopped _ _)
  round_aborts a (iterating k) w s (hk, h, d) =
      rw (find_stage-Lists (two k) w h, collect_aborts (two k) w (add_dir-two_first k) h)
        (stopped _ _)
