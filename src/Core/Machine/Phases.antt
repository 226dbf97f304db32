-- ===== src/Core/Machine/Phases.antt =====
-- The state machine of core/pmfuzz.py refines a machine with three phases.
use pmfuzz.Base.{
  ℕ, suc, ◌≤◌, Bool, true, false, Bool-cases, inl, inr, not, ◌&&◌, List, [], ◌∷◌, ◌++◌, ◌≡◌, refl,
  sym, ap, ◌∙◌, arith, if◌then◌else◌, append_assoc, append-nil, codes, contains, ok, pos,
}
use mathlib.Core.Path.{subst}
use pmfuzz.Base.Answers.{all_return}
use pmfuzz.Stages.State.{new_state, stage, iter_id}
use pmfuzz.NameHandler.Stage.Laws.{dir_name}
use pmfuzz.Core.World.{
  Call, stage1_collect, update_global, dedup_run, stage2_run, stage2_resume, stage2_terminate,
  DedupArgs, World, record_call, makedirs, new_stage1,
}
use pmfuzz.Core.Machine.{
  Options, Answers, run_stage1, find_stage, advance, run_stage2, no_steps, local_steps,
  corpus_steps, collect_stage1, round,
}
use pmfuzz.Core.Machine.Listing.{Lists, add_dir, last_of, make_dir, sync-Lists}
use pmfuzz.Core.Machine.Calls.{
  At, Gives, outdir_name, new_dedup-At, run_dedup-At, run_steps_passes, new_stage2-At, clear-At,
  one, two, add_dir-one, add_dir-two_first, add_dir-one-two, add_dir-two, drop_dir-two,
}
use pmfuzz.Core.Machine.Abstract.{
  Phase, idle, first, iterating, InPhase, next_phase, collecting, advancing, calls_of, Implemented,
}

-- The stage and the iteration that a listing shows.
pub find_stage-Lists :
    (ps : List (ℕ × ℕ)) (w : World)
    → Lists ps w.entries
    → find_stage w ≡ ok (pos ((last_of (0, 0) ps).0), pos ((last_of (0, 0) ps).1))
unfolding find_stage stage iter_id
find_stage-Lists ps w h = rw (sync-Lists ps w.entries new_state h) refl

in_again :
    (completed : Bool) (k : ℕ) (w : World)
    → 1 ≤ k
    → Lists (two (if completed then suc k else k)) w.entries
    → contains w.entries (codes "@dedup") ≡ true
    → InPhase (if completed then iterating (suc k) else iterating k) w.entries
in_again true k w hk l d = (omega arith, l, d)
in_again false k w hk l d = (hk, l, d)

module _ (o : Options) (able : Implemented o) where
  collect-At :
      (ps : List (ℕ × ℕ)) (w : World)
      → add_dir (1, 1) ps ≡ ps
      → Lists ps w.entries
      → Gives (w.calls ++ collecting o) ps (collect_stage1 all_return o w)
  unfolding collect_stage1 new_stage1
  collect-At ps w same h =
      let one_le : 1 ≤ 1 = omega arith in
      let w₁ = makedirs (dir_name 1 1) w in
      let h₁ : Lists ps w₁.entries =
        subst (λ qs. Lists qs w₁.entries) same (make_dir ps 1 1 w.entries h) in
      let (w₂, e₂, (c₂, l₂, d₂)) = run_dedup-At ps 1 1 no_steps w₁ refl one_le one_le h₁ in
      let w₂' = record_call stage1_collect w₂ in
      let (w₃, e₃, (c₃, l₃, d₃)) =
        new_dedup-At ps 1 1 w₂' one_le one_le (subst (λ qs. Lists qs w₂.entries) same l₂) in
      let l₄ : Lists ps w₃.entries = subst (λ qs. Lists qs w₃.entries) same l₃ in
      let e₄ = run_steps_passes 1 1 (local_steps o) w₃ able.0 in
      let w₅ =
        record_call update_global (record_call (dedup_run (pos 1) (pos 1) (local_steps o)) w₃) in
      let e₅ = run_steps_passes 1 1 corpus_steps w₅ refl in
      elim (Bool-cases o.disable_stage2) [
        | inl e ↦
            rw (outdir_name 1 1 one_le one_le, e₂, e₃, e₄, e)
              (
                record_call (dedup_run (pos 1) (pos 1) corpus_steps) w₅,
                e₅,
                (rw (c₃, c₂) (simp append_assoc), l₄, d₃),
              )
        | inr e ↦
            rw (outdir_name 1 1 one_le one_le, e₂, e₃, e₄, e)
              (w₅, refl, (rw (c₃, c₂) (simp append_assoc), l₄, d₃))
      ]

  advance-At :
      (k : ℕ) (cs : List Call) (w : World)
      → 1 ≤ k
      → At cs (two k) w
      → Gives (cs ++ advancing o k) (two (suc k)) (advance all_return o (pos 2) (pos k) w)
  unfolding advance
  advance-At k cs w hk (c, l, d) =
      let args : DedupArgs = record {
        fdedup = true;
        min_corpus = o.global_minimize_corpus;
        min_tc = o.global_minimize_tc;
        gbl = true;
      } in
      let w₁ = record_call (stage2_terminate (pos 2) (pos k)) w in
      let (w₂, e₂, (c₂, l₂, d₂)) = run_dedup-At (two k) 2 k args w₁ able.1 (omega arith) hk l in
      let m₂ : Lists (two k) w₂.entries = subst (λ qs. Lists qs w₂.entries) (add_dir-two k) l₂ in
      let (w₃, e₃, (c₃, l₃, d₃)) = clear-At w₂.calls (two k) k w₂ hk (refl, m₂, d₂) in
      let m₃ : Lists one w₃.entries = subst (λ qs. Lists qs w₃.entries) (drop_dir-two k) l₃ in
      let (w₄, e₄, (c₄, l₄, d₄)) = new_stage2-At one (suc k) w₃ (omega arith) m₃ in
      let m₄ : Lists (two (suc k)) w₄.entries =
        subst (λ qs. Lists qs w₄.entries)
          (ap (add_dir (2, suc k)) (add_dir-one-two (suc k)) ∙ add_dir-two (suc k)) l₄ in
      rw (e₂, e₃, e₄) (_, refl, (rw (c₄, c₃, c₂, c) (simp append_assoc), m₄, d₄))

  run_stage2_first :
      (cs : List Call) (w : World) (completed : Bool)
      → At cs one w
      → Gives
          (cs ++ (stage2_run (pos 2) (pos 1) ∷ []))
          (two 1)
          (run_stage2 all_return o completed w)
  unfolding run_stage2
  run_stage2_first cs w completed (c, l, d) =
      let (w₁, e₁, (c₁, l₁, d₁)) = new_stage2-At one 1 w (omega arith) l in
      let m₁ : Lists (two 1) w₁.entries =
        subst (λ qs. Lists qs w₁.entries) (ap (add_dir (2, 1)) (add_dir-one-two 1) ∙ add_dir-two 1)
          l₁ in
      rw (find_stage-Lists one w l, e₁) (_, refl, (rw (c₁, c) refl, m₁, d₁))

  run_stage2_again :
      (k : ℕ) (cs : List Call) (w : World) (completed : Bool)
      → 1 ≤ k
      → At cs (two k) w
      → Gives
          (cs ++ (if completed then advancing o k else stage2_resume (pos 2) (pos k) ∷ []))
          (two (if completed then suc k else k))
          (run_stage2 all_return o completed w)
  unfolding run_stage2
  run_stage2_again k cs w completed hk (c, l, d) =
      let (w₁, e₁, (c₁, l₁, d₁)) = new_stage2-At (two k) k w hk l in
      let m₁ : Lists (two k) w₁.entries =
        subst (λ qs. Lists qs w₁.entries) (ap (add_dir (2, k)) (add_dir-two k) ∙ add_dir-two k)
          l₁ in
      elim (Bool-cases completed) [
        | inl e ↦ rw (find_stage-Lists (two k) w l, e₁, e) (advance-At k cs w₁ hk (c₁ ∙ c, m₁, d₁))
        | inr e ↦ rw (find_stage-Lists (two k) w l, e₁, e) (_, refl, (rw (c₁, c) refl, m₁, d₁))
      ]

  -- Behind the collection of stage 1.
  round_first :
      (a : Answers) (cs : List Call) (w w₁ : World)
      → Lists one w.entries
      → collect_stage1 all_return o w ≡ ok w₁
      → At cs one w₁
      → (w' : World) × (round all_return o a w ≡ ok w')
        × (w'.calls
            ≡ cs
              ++ (if not o.disable_stage2 && a.expired
                  then stage2_run (pos 2) (pos 1) ∷ []
                  else []))
        × InPhase (next_phase o a first) w'.entries
  unfolding round run_stage2 advance
  round_first a cs w w₁ h e₁ (c₁, l₁, d₁) =
      let (w₂, e₂, (c₂, l₂, d₂)) = run_stage2_first cs w₁ a.completed (c₁, l₁, d₁) in
      elim (Bool-cases o.disable_stage2) [
        | inl e ↦ rw (find_stage-Lists one w h, e₁, e) (w₁, refl, c₁ ∙ sym (append-nil cs), l₁)
        | inr e ↦ elim (Bool-cases a.expired) [
          | inl f ↦ rw (find_stage-Lists one w h, e₁, e, f) (w₂, e₂, c₂, (omega arith, l₂, d₂))
          | inr f ↦ rw (find_stage-Lists one w h, e₁, e, f) (w₁, refl, c₁ ∙ sym (append-nil cs), l₁)
        ]
      ]

  round_again :
      (a : Answers) (k : ℕ) (cs : List Call) (w w₁ : World)
      → 1 ≤ k
      → Lists (two k) w.entries
      → collect_stage1 all_return o w ≡ ok w₁
      → At cs (two k) w₁
      → (w' : World) × (round all_return o a w ≡ ok w')
        × (w'.calls
            ≡ cs
              ++ (if o.disable_stage2
                  then []
                  else if a.completed
                  then advancing o k
                  else stage2_resume (pos 2) (pos k) ∷ []))
        × InPhase (next_phase o a (iterating k)) w'.entries
  unfolding round run_stage2 advance
  round_again a k cs w w₁ hk h e₁ (c₁, l₁, d₁) =
      let (w₂, e₂, (c₂, l₂, d₂)) = run_stage2_again k cs w₁ a.completed hk (c₁, l₁, d₁) in
      elim (Bool-cases o.disable_stage2) [
        | inl e ↦
            rw (find_stage-Lists (two k) w h, e₁, e)
              (w₁, refl, c₁ ∙ sym (append-nil cs), (hk, l₁, d₁))
        | inr e ↦
            let c = c₂ in
            rw (find_stage-Lists (two k) w h, e₁, e) (w₂, e₂, c, in_again a.completed k w₂ hk l₂ d₂)
      ]

  -- Where no call fails.
  pub round_returns :
      (a : Answers) (p : Phase) (w : World)
      → InPhase p w.entries
      → (w' : World) × (round all_return o a w ≡ ok w')
        × (w'.calls ≡ w.calls ++ calls_of o a p)
        × InPhase (next_phase o a p) w'.entries
  unfolding round run_stage1 new_stage1
  round_returns a idle w h =
      let one_le : 1 ≤ 1 = omega arith in
      rw (find_stage-Lists [] w h, outdir_name 1 1 one_le one_le)
        (_, refl, simp append_assoc, make_dir [] 1 1 w.entries h)
  round_returns a first w h =
      let (w₁, e₁, k) = collect-At one w add_dir-one h in
      let (w', e, c, k') = round_first a (w.calls ++ collecting o) w w₁ h e₁ k in
      (w', e, c ∙ simp append_assoc, k')
  round_returns a (iterating k) w (hk, h, d) =
      let (w₁, e₁, m) = collect-At (two k) w (add_dir-two_first k) h in
      let (w', e, c, m') = round_again a k (w.calls ++ collecting o) w w₁ hk h e₁ m in
      (w', e, c ∙ simp append_assoc, m')
