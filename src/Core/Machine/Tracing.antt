-- ===== src/Core/Machine/Tracing.antt =====
-- The state machine makes its calls one after another, and the first that fails ends it: what it gives
-- over any outcomes of its calls is told by what it gives where no call fails.
use pmfuzz.Base.{
  Bool, true, false, not, ◌&&◌, List, [], ◌∷◌, ◌++◌, ◌≡◌, refl, sym, ap, ◌∙◌, append_assoc,
  append-nil, if◌then◌else◌, Text, Result, ok, err, aborted, ◌>>=◌, ◌>>◌, abort_if, ℤ, pos, succ_ℤ,
  eq_ℤ, ltb_ℤ,
}
use pmfuzz.Base.Answers.{Outcomes, all_return, answer, then_bind, answer-then}
use pmfuzz.NameHandler.Stage.{get_outdir_name}
use pmfuzz.Core.World.{
  Call, stage1_run, stage1_whatsup, stage1_collect, update_global, timer_start_new, dedup_run,
  stage2_run, stage2_resume, stage2_terminate, stage2_clear, DedupArgs, World, record_call, emit,
  makedirs, rmtree, new_stage1, new_dedup, new_stage2, stage2_clear_dirs, run_steps,
}
use pmfuzz.Core.Machine.{
  Options, Answers, run_stage1, run_dedup, find_stage, advance, run_stage2, no_steps, local_steps,
  corpus_steps, collect_stage1, stage1_waittime, round, rounds,
}

module _ (outcomes : Outcomes Call) where
  -- The second is the first behind the calls that the first makes.
  abbrev pub Traced : World → Result World → Result World → Type 0
  Traced w silent m =
      (cs : List Call) × (m ≡ (answer outcomes w.calls cs >> silent))
      × ((after : World) → silent ≡ ok after → after.calls ≡ w.calls ++ cs)

  -- What makes no call.
  abbrev Quiet : World → Result World → Type 0
  Quiet w m = (after : World) → m ≡ ok after → after.calls ≡ w.calls

  calls_in : Result World → List Call
  calls_in (ok v) = v.calls
  calls_in (err e) = []

  Quiet-ok : (w v : World) → v.calls ≡ w.calls → Quiet w (ok v)
  unfolding calls_in
  Quiet-ok w v h after e = ap calls_in (sym e) ∙ h

  Quiet-bind {ℓ} :
      {A : Type ℓ}
      → (w : World) (r : Result A) (g : A → Result World) → ((a : A) → Quiet w (g a))
      → Quiet w (r >>= g)
  Quiet-bind w (ok a) g h = h a
  Quiet-bind w (err e) g h = λ after k. cc

  Quiet-guard : (w : World) (b : Bool) (m : Result World) → Quiet w m → Quiet w (abort_if b >> m)
  Quiet-guard w true m h = λ after e. cc
  Quiet-guard w false m h = h

  Quiet-next :
      (w : World) (m : Result World) (g : World → Result World)
      → Quiet w m
      → ((v : World) → Quiet v (g v))
      → Quiet w (m >>= g)
  Quiet-next w (ok v) g h k = λ after e. k v after e ∙ h v refl
  Quiet-next w (err e) g h k = λ after e. cc

  Traced-quiet : (w : World) (m : Result World) → Quiet w m → Traced w m m
  unfolding answer
  Traced-quiet w m h = ([], refl, λ after e. h after e ∙ sym (append-nil w.calls))

  Traced-emit : (c : Call) (w : World) → Traced w (emit all_return c w) (emit outcomes c w)
  unfolding answer calls_in
  Traced-emit c w = (c ∷ [], told (outcomes w.calls c), λ after e. ap calls_in (sym e))
    where
      told :
          (r : Result (Unit {0}))
          → (r >> ok (record_call c w)) ≡ ((r >> ok tt) >> ok (record_call c w))
      told (ok u) = refl
      told (err e) = refl

  Traced-bind :
      (w : World) (silent m : Result World) (g f : World → Result World)
      → Traced w silent m
      → ((v : World) → Traced v (g v) (f v))
      → Traced w (silent >>= g) (m >>= f)
  Traced-bind w (err e) m g f (cs, told, made) k =
      (cs, rw told (then_bind (answer outcomes w.calls cs) (err e) f), λ after h. cc)
  Traced-bind w (ok v) m g f (cs, told, made) k =
      let (ds, told', made') = k v in
      let front : v.calls ≡ w.calls ++ cs = made v refl in
      (
        cs ++ ds,
        rw told (then_bind (answer outcomes w.calls cs) (ok v) f)
            ∙ ap (λ r. answer outcomes w.calls cs >> r)
                (told' ∙ ap (λ b. answer outcomes b ds >> g v) front)
            ∙ answer-then outcomes w.calls cs ds (g v),
        λ after h. made' after h ∙ ap (λ b. b ++ ds) front ∙ append_assoc w.calls cs ds,
      )

  Traced-if :
      (b : Bool) (w : World) (x y m n : Result World)
      → Traced w x m
      → Traced w y n
      → Traced w (if b then x else y) (if b then m else n)
  Traced-if true w x y m n h k = h
  Traced-if false w x y m n h k = k

  new_stage1-Quiet : (w : World) → Quiet w (new_stage1 w)
  unfolding new_stage1
  new_stage1-Quiet w = Quiet-bind w _ _ (λ name. Quiet-ok w _ refl)

  new_dedup-Quiet : (s i : ℤ) (w : World) → Quiet w (new_dedup s i w)
  unfolding new_dedup
  new_dedup-Quiet s i w = Quiet-bind w _ _ (λ name. Quiet-ok w _ refl)

  new_stage2-Quiet : (s i : ℤ) (w : World) → Quiet w (new_stage2 s i w)
  unfolding new_stage2
  new_stage2-Quiet s i w = Quiet-bind w _ _ (λ name. Quiet-guard w (not (eq_ℤ s (pos 2))) _ (
      Quiet-guard w (ltb_ℤ i (pos 1)) _ (
        Quiet-next w (new_dedup s i w) _ (new_dedup-Quiet s i w)
          (λ v. Quiet-ok v (makedirs name v) refl))))

  run_steps-Traced :
      (s i : ℤ) (args : DedupArgs) (w : World)
      → Traced w (run_steps all_return s i args w) (run_steps outcomes s i args w)
  unfolding run_steps
  run_steps-Traced s i args w = guarded args.min_tc
    where
      guarded :
          (b : Bool)
          → Traced w
              (abort_if b >> emit all_return (dedup_run s i args) w)
              (abort_if b >> emit outcomes (dedup_run s i args) w)
      guarded true = Traced-quiet w (err aborted) (λ after e. cc)
      guarded false = Traced-emit (dedup_run s i args) w

  run_dedup-Traced :
      (s i : ℤ) (args : DedupArgs) (w : World)
      → Traced w (run_dedup all_return s i args w) (run_dedup outcomes s i args w)
  unfolding run_dedup
  run_dedup-Traced s i args w =
      Traced-bind w _ _ _ _ (Traced-quiet w _ (new_dedup-Quiet s i w)) (run_steps-Traced s i args)

  clear-Traced :
      (s i : ℤ) (w : World)
      → Traced w (stage2_clear_dirs all_return s i w) (stage2_clear_dirs outcomes s i w)
  unfolding stage2_clear_dirs
  clear-Traced s i w = named (get_outdir_name s i)
    where
      named :
          (r : Result Text)
          → Traced w
              (r >>= λ name. emit all_return (stage2_clear s i) (rmtree name w))
              (r >>= λ name. emit outcomes (stage2_clear s i) (rmtree name w))
      named (ok name) = Traced-emit (stage2_clear s i) (rmtree name w)
      named (err e) = Traced-quiet w (err e) (λ after k. cc)

  -- An iteration that is completed, and the next.
  advance-Traced :
      (o : Options) (s i : ℤ) (w : World)
      → Traced w (advance all_return o s i w) (advance outcomes o s i w)
  unfolding advance
  advance-Traced o s i w = Traced-bind w _ _ _ _ (Traced-emit (stage2_terminate s i) w) (λ w₁.
      Traced-bind w₁ _ _ _ _ (run_dedup-Traced s i _ w₁) (λ w₂.
        Traced-bind w₂ _ _ _ _ (clear-Traced s i w₂) (λ w₃.
          Traced-bind w₃ _ _ _ _ (Traced-quiet w₃ _ (new_stage2-Quiet s (succ_ℤ i) w₃))
            (Traced-emit (stage2_run s (succ_ℤ i))))))

  found-Traced :
      (r : Result (ℤ × ℤ)) (w : World) (g f : ℤ × ℤ → Result World)
      → ((p : ℤ × ℤ) → Traced w (g p) (f p))
      → Traced w (r >>= g) (r >>= f)
  found-Traced (ok p) w g f h = h p
  found-Traced (err e) w g f h = Traced-quiet w (err e) (λ after k. cc)

  run_stage2-Traced :
      (o : Options) (completed : Bool) (w : World)
      → Traced w (run_stage2 all_return o completed w) (run_stage2 outcomes o completed w)
  unfolding run_stage2
  run_stage2-Traced o completed w = found-Traced (find_stage w) w _ _ (λ (s, i).
      Traced-if (eq_ℤ s (pos 1)) w _ _ _ _
        (Traced-bind w _ _ _ _ (Traced-quiet w _ (new_stage2-Quiet (pos 2) (pos 1) w))
          (Traced-emit (stage2_run (pos 2) (pos 1))))
        (Traced-bind w _ _ _ _ (Traced-quiet w _ (new_stage2-Quiet s i w)) (λ w₁.
          Traced-if completed w₁ _ _ _ _ (advance-Traced o s i w₁)
            (Traced-emit (stage2_resume s i) w₁))))

  collect-Traced :
      (o : Options) (w : World)
      → Traced w (collect_stage1 all_return o w) (collect_stage1 outcomes o w)
  unfolding collect_stage1
  collect-Traced o w = Traced-bind w _ _ _ _ (Traced-quiet w _ (new_stage1-Quiet w)) (λ w₁.
      Traced-bind w₁ _ _ _ _ (run_dedup-Traced (pos 1) (pos 1) no_steps w₁) (λ w₂.
        Traced-bind w₂ _ _ _ _ (Traced-emit stage1_collect w₂) (λ w₃.
          Traced-bind w₃ _ _ _ _ (Traced-quiet w₃ _ (new_dedup-Quiet (pos 1) (pos 1) w₃)) (λ w₄.
            Traced-bind w₄ _ _ _ _ (run_steps-Traced (pos 1) (pos 1) (local_steps o) w₄) (λ w₅.
              Traced-bind w₅ _ _ _ _ (Traced-emit update_global w₅) (λ w₆.
                Traced-if o.disable_stage2 w₆ _ _ _ _
                  (run_steps-Traced (pos 1) (pos 1) corpus_steps w₆)
                  (Traced-quiet w₆ _ (Quiet-ok w₆ w₆ refl))))))))

  started-Traced :
      (w : World)
      → Traced w
          (run_stage1 all_return w >>= emit all_return (timer_start_new stage1_waittime))
          (run_stage1 outcomes w >>= emit outcomes (timer_start_new stage1_waittime))
  unfolding run_stage1
  started-Traced w =
      Traced-bind w _ _ _ _
        (Traced-bind w _ _ _ _ (Traced-quiet w _ (new_stage1-Quiet w))
          (λ w₁. Traced-bind w₁ _ _ _ _ (Traced-emit stage1_run w₁) (Traced-emit stage1_whatsup)))
        (Traced-emit (timer_start_new stage1_waittime))

  same : (w : World) → Traced w (ok w) (ok w)
  same w = Traced-quiet w (ok w) (Quiet-ok w w refl)

  -- One round.
  pub round-Traced :
      (o : Options) (a : Answers) (w : World)
      → Traced w (round all_return o a w) (round outcomes o a w)
  unfolding round
  round-Traced o a w = found-Traced (find_stage w) w _ _ (λ (s, i).
      Traced-bind w _ _ _ _
        (Traced-if (not (eq_ℤ s (pos 0))) w _ _ _ _ (collect-Traced o w) (same w))
        (λ w₁. Traced-if (eq_ℤ s (pos 0)) w₁ _ _ _ _ (started-Traced w₁) (
          Traced-if (eq_ℤ s (pos 1) && not o.disable_stage2) w₁ _ _ _ _
            (Traced-if a.expired w₁ _ _ _ _ (run_stage2-Traced o a.completed w₁) (same w₁))
            (Traced-if (eq_ℤ s (pos 2) && not o.disable_stage2) w₁ _ _ _ _
              (run_stage2-Traced o a.completed w₁)
              (Traced-if (not o.disable_stage2) w₁ _ _ _ _
                (Traced-quiet w₁ (err aborted) (λ after e. cc)) (same w₁))))))

  pub rounds-Traced :
      (o : Options) (answers : List Answers) (w : World)
      → Traced w (rounds all_return o answers w) (rounds outcomes o answers w)
  unfolding rounds
  rounds-Traced o [] w = same w
  rounds-Traced o (a ∷ answers) w =
      Traced-bind w _ _ _ _ (round-Traced o a w) (rounds-Traced o answers)
