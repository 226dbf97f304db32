-- ===== src/Core/Machine/Runs.antt =====
-- Whole runs of the state machine, from an empty output directory or a saved one.
use pmfuzz.Base.{
  List, [], ◌∷◌, ◌++◌, ◌≡◌, refl, sym, append_assoc, append-nil, Text, codes, text_eq, some, ok, ap,
  ◌∙◌, Result, ◌>>◌,
}
use pmfuzz.Base.Answers.{Outcomes, all_return, answer}
use pmfuzz.Helper.Ask.{ask_yn}
use pmfuzz.Stages.State.{new_state, stage}
use pmfuzz.Core.World.{Call, World, make_entry, makedirs}
use pmfuzz.Core.Machine.{Options, Answers, round, rounds, begin, run_pmfuzz}
use pmfuzz.Core.Machine.Listing.{make_special, sync-Lists, contains_make}
use pmfuzz.Core.Machine.Calls.{one, two}
use pmfuzz.Core.Machine.Abstract.{
  Phase, idle, first, iterating, InPhase, next_phase, calls_of, Implemented,
}
use pmfuzz.Core.Machine.Phases.{round_returns}
use pmfuzz.Core.Machine.Tracing.{Traced, round-Traced, rounds-Traced}

module _ (o : Options) where
  -- The phase and the calls after some rounds.
  abbrev pub phase_after : List Answers → Phase → Phase
  phase_after [] p = p
  phase_after (a ∷ answers) p = phase_after answers (next_phase o a p)

  abbrev pub all_calls : List Answers → Phase → List Call
  all_calls [] p = []
  all_calls (a ∷ answers) p = calls_of o a p ++ all_calls answers (next_phase o a p)

module _ (o : Options) (able : Implemented o) where
  rounds_refines :
      (answers : List Answers) (p : Phase) (w : World)
      → InPhase p w.entries
      → (w' : World) × (rounds all_return o answers w ≡ ok w')
        × (w'.calls ≡ w.calls ++ all_calls o answers p)
        × InPhase (phase_after o answers p) w'.entries
  unfolding rounds
  rounds_refines [] p w h = (w, refl, sym (append-nil w.calls), h)
  rounds_refines (a ∷ answers) p w h =
      let (w₁, e₁, c₁, h₁) = round_returns o able a p w h in
      let (w₂, e₂, c₂, h₂) = rounds_refines answers (next_phase o a p) w₁ h₁ in
      (
        w₂,
        rw e₁ e₂,
        rw (c₂, c₁)
            (append_assoc w.calls (calls_of o a p) (all_calls o answers (next_phase o a p))),
        h₂,
      )

  -- The saved state passes the check, and a run that is told to resume goes on.
  begin_refines :
      (lines : List Text) (p : Phase) (w : World)
      → InPhase p w.entries
      → (begin (some (codes "y")) lines w ≡ ok (makedirs (codes "@info") w))
        × InPhase p (make_entry (codes "@info") w.entries)
  unfolding begin stage ask_yn text_eq
  begin_refines lines idle w h =
      let k = make_special [] (codes "info") w.entries h in
      (rw (sync-Lists [] (make_entry (codes "@info") w.entries) new_state k) refl, k)
  begin_refines lines first w h =
      let k = make_special one (codes "info") w.entries h in
      (rw (sync-Lists one (make_entry (codes "@info") w.entries) new_state k) refl, k)
  begin_refines lines (iterating n) w (hn, h, d) =
      let k = make_special (two n) (codes "info") w.entries h in
      let d' = contains_make (codes "@info") (codes "@dedup") w.entries d in
      (
        rw (sync-Lists (two n) (make_entry (codes "@info") w.entries) new_state k, d') refl,
        (hn, k, d'),
      )

abbrev rest_of : List Call → List Call
rest_of [] = []
rest_of (c ∷ cs) = cs

append-cancel : (xs ys zs : List Call) → xs ++ ys ≡ xs ++ zs → ys ≡ zs
append-cancel [] ys zs h = h
append-cancel (x ∷ xs) ys zs h = append-cancel xs ys zs (ap rest_of h)

-- What is told by the calls where none fails.
follow :
    (outcomes : Outcomes Call) (w w' : World) (silent m : Result World) (cs : List Call)
    → Traced outcomes w silent m
    → silent ≡ ok w'
    → w'.calls ≡ w.calls ++ cs
    → m ≡ (answer outcomes w.calls cs >> ok w')
follow outcomes w w' silent m cs (ds, told, made) e c =
    let same : ds ≡ cs = append-cancel w.calls ds cs (sym (made w' e) ∙ c) in
    told
    ∙ ap (λ r. answer outcomes w.calls ds >> r) e
    ∙ ap (λ xs. answer outcomes w.calls xs >> ok w') same

module _ (outcomes : Outcomes Call) (o : Options) (able : Implemented o) where
  -- With options that ask for no minimisation of single testcases, one round on an output directory in
  -- a phase makes just the calls of that phase, in this order. It fails exactly where one of them fails,
  -- with what the first of these gives; otherwise it leads to the next phase.
  pub round_refines :
      (a : Answers) (p : Phase) (w : World)
      → InPhase p w.entries
      → (w' : World) × (round outcomes o a w ≡ (answer outcomes w.calls (calls_of o a p) >> ok w'))
        × (w'.calls ≡ w.calls ++ calls_of o a p)
        × InPhase (next_phase o a p) w'.entries
  round_refines a p w h =
      let (w', e, c, k) = round_returns o able a p w h in
      (w', follow outcomes w w' _ _ (calls_of o a p) (round-Traced outcomes o a w) e c, c, k)

  -- With options that ask for no minimisation of single testcases, and on an output directory in a
  -- phase, `run_pmfuzz` with the forced answer `y` makes the calls of the phases that it goes through,
  -- in this order. It fails exactly where one of them fails, with what the first of these gives;
  -- otherwise it leaves the output directory in the last of the phases.
  pub run_pmfuzz_refines :
      (lines : List Text) (answers : List Answers) (p : Phase) (w : World)
      → InPhase p w.entries
      → (w' : World) × (run_pmfuzz outcomes o (some (codes "y")) lines answers w
          ≡ (answer outcomes w.calls (all_calls o answers p) >> ok w'))
        × (w'.calls ≡ w.calls ++ all_calls o answers p)
        × InPhase (phase_after o answers p) w'.entries
  unfolding run_pmfuzz
  run_pmfuzz_refines lines answers p w h =
      let (e, k) = begin_refines o able lines p w h in
      let (w', e', c', k') = rounds_refines o able answers p (makedirs (codes "@info") w) k in
      let told =
        follow outcomes (makedirs (codes "@info") w) w' _ _ (all_calls o answers p)
          (rounds-Traced outcomes o answers (makedirs (codes "@info") w)) e' c' in
      (w', rw e told, c', k')
