-- ===== src/Stages/Stage2/Slots.antt =====
-- The scheduling of stage 2 keeps to its slots.
use pmfuzz.Base.{
  ℕ, ◌+◌, ◌≤◌, Bool, true, false, List, [], ◌∷◌, ◌++◌, ◌≡◌, ◌⊎◌, inl, inr, refl, arith, ltb, Text,
  ok, err, Result, ◌>>◌, Bool-cases, sym, ap, ◌∙◌, append-nil, append_assoc,
}
use pmfuzz.Base.Answers.{Outcomes, answer, then_bind, answer-then}
use pmfuzz.Helper.PTimer.{new_ptimer}
use pmfuzz.Stages.Stage2.{Timers, treat, Job, stop, start, Progress, visit, visit_all, slots}

-- How many of the jobs start something.
abbrev pub starts : List Job → ℕ
starts [] = 0
starts (stop _ ∷ jobs) = starts jobs
starts (start _ ∷ jobs) = starts jobs + 1

starts-append : (js ks : List Job) → starts (js ++ ks) ≡ starts js + starts ks
starts-append [] ks = omega arith
starts-append (stop _ ∷ js) ks = starts-append js ks
starts-append (start _ ∷ js) ks = omega (arith, starts-append js ks)

-- The count has grown by what was started, and only up to the slots.
abbrev Keeps : ℕ → Progress → Progress → Type 0
Keeps cores p q =
    (q.run_count + starts p.jobs ≡ p.run_count + starts q.jobs)
    × ((q.run_count ≡ p.run_count) ⊎ (q.run_count ≤ cores))

once : (r : Result (Unit {0})) (q : Progress) → (r >> ok q) ≡ ((r >> ok tt) >> ok q)
once (ok u) q = refl
once (err e) q = refl

treat-Keeps :
    (outcomes : Outcomes Job) (cores : ℕ) (fresh over : Bool) (name : Text) (opened later : Timers)
    (p : Progress)
    → (q : Progress) × (js : List Job) × (treat outcomes cores fresh over name opened later p
        ≡ (answer outcomes p.jobs js >> ok q))
      × (q.jobs ≡ p.jobs ++ js)
      × Keeps cores p q
unfolding answer
treat-Keeps outcomes cores false true name opened later p = (
  _,
  stop name ∷ [],
  once (outcomes p.jobs (stop name)) _,
  refl,
  (omega (arith, starts-append p.jobs (stop name ∷ [])), inl refl),
)
treat-Keeps outcomes cores false false name opened later p =
    (_, [], refl, sym (append-nil p.jobs), (refl, inl refl))
treat-Keeps outcomes cores true over name opened later p =
    elim (Bool-cases (ltb p.run_count cores)) [
      | inl e ↦ rw e (
        _,
        start name ∷ [],
        once (outcomes p.jobs (start name)) _,
        refl,
        (omega (arith, starts-append p.jobs (start name ∷ [])), inr (ground arith)),
      )
      | inr e ↦ rw e (_, [], refl, sym (append-nil p.jobs), (refl, inl refl))
    ]

visit-Keeps :
    (outcomes : Outcomes Job) (cores tc_timeout now : ℕ) (name : Text) (p : Progress)
    → (q : Progress) × (js : List Job) × (visit outcomes cores tc_timeout now name p
        ≡ (answer outcomes p.jobs js >> ok q))
      × (q.jobs ≡ p.jobs ++ js)
      × Keeps cores p q
unfolding visit new_ptimer
visit-Keeps outcomes cores tc_timeout now name p = treat-Keeps outcomes cores _ _ name _ _ p

-- For whatever names and timers, the loop of `resume` does some jobs one after another and fails exactly
-- where one of them fails, with what the first of these gives. Otherwise its count grows by one for each
-- start among them, and it is unchanged at the end or within the slots.
pub visit_all_lem :
    (outcomes : Outcomes Job) (cores tc_timeout now : ℕ) (names : List Text) (p : Progress)
    → (q : Progress) × (js : List Job) × (visit_all outcomes cores tc_timeout now names p
        ≡ (answer outcomes p.jobs js >> ok q))
      × (q.jobs ≡ p.jobs ++ js)
      × (q.run_count ≡ p.run_count + starts js)
      × ((q.run_count ≡ p.run_count) ⊎ (q.run_count ≤ cores))
unfolding visit_all answer
visit_all_lem outcomes cores tc_timeout now [] p =
    (p, [], refl, sym (append-nil p.jobs), omega arith, inl refl)
visit_all_lem outcomes cores tc_timeout now (name ∷ names) p =
    let (q, js, e, done, (grown, within)) = visit-Keeps outcomes cores tc_timeout now name p in
    let (r, ks, f, done', grown', within') = visit_all_lem outcomes cores tc_timeout now names q in
    (
      r,
      js ++ ks,
      rw e (
          then_bind (answer outcomes p.jobs js) (ok q) _
          ∙ ap (λ m. answer outcomes p.jobs js >> m)
              (f ∙ ap (λ b. answer outcomes b ks >> ok r) done)
          ∙ answer-then outcomes p.jobs js ks (ok r)),
      done' ∙ ap (λ b. b ++ ks) done ∙ append_assoc p.jobs js ks,
      omega (arith, grown, grown', starts-append js ks, starts-append p.jobs js, ap starts done),
      ground arith,
    )

-- With at least one core, the slots together are within the cores, unless failure injection is
-- enabled on a single core, which gets one slot of each kind.
pub slots-cores :
    (finj_enabled : Bool) (cores : ℕ)
    → 1 ≤ cores
    → (((slots finj_enabled cores).0 + (slots finj_enabled cores).1) ≤ cores)
      ⊎ ((finj_enabled ≡ true) × (cores ≡ 1) × (slots finj_enabled cores ≡ (1, 1)))
unfolding slots
slots-cores finj_enabled cores h = ground arith
