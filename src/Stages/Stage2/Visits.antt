-- ===== src/Stages/Stage2/Visits.antt =====
-- What the loop of `resume` does to the timers of an iteration.
use mathlib.Core.Bool.{true≢false}
use pmfuzz.Base.{
  ℕ, suc, ◌≤◌, ◌<◌, Bool, true, false, List, [], ◌∷◌, ◌≡◌, ◌⊎◌, inl, inr, refl, sym, ap, ◌∙◌, arith,
  if◌then◌else◌, ltb, ◌==◌, Text, text_eq, text_eq_refl, text_eq_iff, contains, All, some, ok,
  Bool-cases,
}
use pmfuzz.Base.Answers.{all_return}
use pmfuzz.Helper.PTimer.{
  Countdown, PTimer, zero_state, read, new_ptimer, is_new, start_new, start, set, clear,
}
use pmfuzz.Stages.Stage2.{Timers, keep_timer, Progress, treat, visit, visit_all}

-- The timer of a name, as it is read.
abbrev pub state_at : Timers → Text → Countdown
state_at timers x = read zero_state (timers x)

abbrev pub fresh : Timers → Text → Bool
fresh timers x = (state_at timers x).start == 0

abbrev pub timer_of : Timers → Text → PTimer
timer_of timers name = record { state = state_at timers name; file = some (state_at timers name) }

abbrev pub SameTimers : Timers → Timers → Type 0
SameTimers after timers = (x : Text) → state_at after x ≡ state_at timers x

pub opened-SameTimers :
    (timers : Timers) (name : Text)
    → SameTimers (keep_timer name (timer_of timers name) timers) timers
opened-SameTimers timers name x = elim (Bool-cases (text_eq x name)) [
  | inl e ↦ rw e (ap (state_at timers) (sym ((text_eq_iff x name).0 e)))
  | inr e ↦ rw e refl
]

module _ (cores tc_timeout now : ℕ) (later : 0 < now) where
  abbrev pub started : Countdown
  started = record { start = now; length = tc_timeout }

  -- What a visit can do to a timer: nothing, or its start.
  abbrev pub MayStart : Timers → Timers → Type 0
  MayStart after timers =
      (x : Text)
      → (state_at after x ≡ state_at timers x)
        ⊎ ((fresh timers x ≡ true) × (state_at after x ≡ started))

  MayStart-trans : (a b c : Timers) → MayStart b a → MayStart c b → MayStart c a
  MayStart-trans a b c h k x = elim (h x) [
    | inl e ↦ elim (k x) [ inl f ↦ inl (f ∙ e) | inr (f, s) ↦ inr (rw e at f, s) ]
    | inr (e, s) ↦ elim (k x) [
      | inl f ↦ inr (e, f ∙ s)
      | inr (f, _) ↦ absurd (not_fresh (rw s at f))
    ]
  ]
    where
      not_fresh : (now == 0) ≡ true → ⊥
      not_fresh h = ground arith

  -- A visit of a new testcase starts it where a slot is free.
  abbrev AfterVisit : Text → Progress → Progress → Type 0
  AfterVisit name p q =
      MayStart q.timers p.timers
      × (fresh p.timers name ≡ true → p.run_count < cores → fresh q.timers name ≡ false)
      × (fresh p.timers name ≡ false → (q.run_count ≡ p.run_count) × SameTimers q.timers p.timers)

  apart : {b : Bool} → true ≡ b → b ≡ false → ⊥
  apart e f = true≢false (e ∙ f)

  treat_lem :
      (is_fresh over : Bool) (name : Text) (opened after : Timers) (p : Progress)
      → is_fresh ≡ fresh p.timers name
      → SameTimers opened p.timers
      → ((x : Text) → state_at after x ≡ (if text_eq x name then started else state_at p.timers x))
      → (q : Progress) × (treat all_return cores is_fresh over name opened after p ≡ ok q)
        × AfterVisit name p q
  treat_lem false true name opened after p e same set_to =
      (_, refl, (λ x. inl (same x), λ f. cc, λ f. (refl, same)))
  treat_lem false false name opened after p e same set_to =
      (_, refl, (λ x. inl (same x), λ f. cc, λ f. (refl, same)))
  treat_lem true over name opened after p e same set_to =
      elim (Bool-cases (ltb p.run_count cores)) [
        | inl room ↦ rw room (
          _,
          refl,
          (
            λ x. elim (Bool-cases (text_eq x name)) [
              | inl f ↦
                  inr (ap (fresh p.timers) ((text_eq_iff x name).0 f) ∙ sym e, set_to x ∙ rw f refl)
              | inr f ↦ inl (set_to x ∙ rw f refl)
            ],
            λ f lt. rw (set_to name, text_eq_refl name) (ground arith),
            λ f. absurd (apart e f),
          ),
        )
        | inr full ↦
            rw full (_, refl, (λ x. inl (same x), λ f lt. ground arith, λ f. absurd (apart e f)))
      ]

  visit_lem :
      (name : Text) (p : Progress)
      → (q : Progress) × (visit all_return cores tc_timeout now name p ≡ ok q) × AfterVisit name p q
  unfolding visit new_ptimer is_new start_new start set clear
  visit_lem name p =
      let opened = keep_timer name (timer_of p.timers name) p.timers in
      let same = opened-SameTimers p.timers name in
      let run_to = start_new tc_timeout now (timer_of p.timers name) in
      treat_lem (fresh p.timers name) _ name opened (keep_timer name run_to opened) p refl same
        (λ x. elim (Bool-cases (text_eq x name)) [ inl f ↦ rw f refl | inr f ↦ rw f refl ])

  -- With a free slot, a loop over testcases of which one is new starts one at least.
  abbrev pub Progressed : List Text → Timers → Timers → Type 0
  Progressed names timers after =
      All (λ x. fresh timers x ≡ false) names
      ⊎ ((y : Text) × (contains names y ≡ true) × (fresh timers y ≡ true) × (fresh after y ≡ false))

  pub stays_started :
      (a b : Timers) (x : Text) → MayStart b a → fresh a x ≡ false → fresh b x ≡ false
  stays_started a b x h f = elim (h x) [ inl e ↦ rw e f | inr (g, e) ↦ cc ]

  pub before_started :
      (a b : Timers) (x : Text) → MayStart b a → fresh b x ≡ true → fresh a x ≡ true
  before_started a b x h f = elim (Bool-cases (fresh a x)) [
    | inl e ↦ e
    | inr e ↦ let g = stays_started a b x h e in cc
  ]

  pub All-before :
      (a b : Timers) (names : List Text)
      → ((x : Text) → fresh b x ≡ false → fresh a x ≡ false)
      → All (λ x. fresh b x ≡ false) names
      → All (λ x. fresh a x ≡ false) names
  All-before a b [] h k = tt
  All-before a b (x ∷ names) h (k, ks) = (h x k, All-before a b names h ks)

  visit_all-MayStart :
      (names : List Text) (p : Progress)
      → (q : Progress) × (visit_all all_return cores tc_timeout now names p ≡ ok q)
        × MayStart q.timers p.timers
  unfolding visit_all
  visit_all-MayStart [] p = (p, refl, λ x. inl refl)
  visit_all-MayStart (name ∷ names) p =
      let (r, e, (may, _, _)) = visit_lem name p in
      let (q, e', may') = visit_all-MayStart names r in
      (q, rw e e', MayStart-trans p.timers r.timers q.timers may may')

  carry :
      (name : Text) (names : List Text) (a b c : Timers)
      → fresh a name ≡ false
      → SameTimers b a
      → Progressed names b c
      → Progressed (name ∷ names) a c
  unfolding contains
  carry name names a b c f same (inl none_new) =
      inl (f, All-before a b names (λ x g. rw (same x) at g) none_new)
  carry name names a b c f same (inr (y, inside, new, done)) =
      inr (y, ground arith, rw (same y) at new, done)

  pub visit_all_started :
      (names : List Text) (p : Progress)
      → p.run_count < cores
      → (q : Progress) × (visit_all all_return cores tc_timeout now names p ≡ ok q)
        × MayStart q.timers p.timers
        × Progressed names p.timers q.timers
  unfolding visit_all contains
  visit_all_started [] p lt = (p, refl, λ x. inl refl, inl tt)
  visit_all_started (name ∷ names) p lt =
      let (r, e, (may, starts, idle)) = visit_lem name p in
      elim (Bool-cases (fresh p.timers name)) [
        | inl new ↦
            let (q, e', may') = visit_all-MayStart names r in
            (
              q,
              rw e e',
              MayStart-trans p.timers r.timers q.timers may may',
              inr (
                name,
                rw (text_eq_refl name) refl,
                new,
                stays_started r.timers q.timers name may' (starts new lt),
              ),
            )
        | inr old ↦
            let (count, same) = idle old in
            let (q, e', may', progress) = visit_all_started names r (rw count lt) in
            (
              q,
              rw e e',
              MayStart-trans p.timers r.timers q.timers may may',
              carry name names p.timers r.timers q.timers old same progress,
            )
      ]

-- How many testcases were never started.
abbrev pub count_new : List Text → Timers → ℕ
count_new [] timers = 0
count_new (x ∷ names) timers =
    if fresh timers x then suc (count_new names timers) else count_new names timers

module _ (timers after : Timers)
    (back : (x : Text) → fresh after x ≡ true → fresh timers x ≡ true) where
  count_new_le : (names : List Text) → count_new names after ≤ count_new names timers
  count_new_le [] = omega arith
  count_new_le (x ∷ names) = elim (Bool-cases (fresh after x)) [
    | inl e ↦ rw (e, back x e) (omega (arith, count_new_le names))
    | inr e ↦ rw e (elim (Bool-cases (fresh timers x)) [
      | inl f ↦ rw f (omega (arith, count_new_le names))
      | inr f ↦ rw f (count_new_le names)
    ])
  ]

  pub count_new_lt :
      (names : List Text) (y : Text)
      → contains names y ≡ true
      → fresh timers y ≡ true
      → fresh after y ≡ false
      → count_new names after < count_new names timers
  unfolding contains
  count_new_lt [] y inside f g = cc
  count_new_lt (x ∷ names) y inside f g = elim (Bool-cases (text_eq y x)) [
    | inl e ↦
        let same : y ≡ x = (text_eq_iff y x).0 e in
        rw (ap (fresh after) (sym same) ∙ g, ap (fresh timers) (sym same) ∙ f)
          (omega (arith, count_new_le names))
    | inr e ↦
        let rest = count_new_lt names y (rw e at inside) f g in
        elim (Bool-cases (fresh after x)) [
          | inl h ↦ rw (h, back x h) (omega arith)
          | inr h ↦ rw h (elim (Bool-cases (fresh timers x)) [
            | inl k ↦ rw k (omega arith)
            | inr k ↦ rw k rest
          ])
        ]
  ]
