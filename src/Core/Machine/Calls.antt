-- ===== src/Core/Machine/Calls.antt =====
-- What each constructor and each step of the state machine does to the listing and to the calls.
use pmfuzz.Base.{
  abort_if, ◌>>◌, ℕ, ◌≤◌, true, false, List, [], ◌∷◌, ◌++◌, ◌≡◌, refl, ap, arith, codes, text_eq,
  text_eq_refl, contains, keep, Result, ok, ◌>>=◌, pos, ltb_ℤ,
}
use pmfuzz.Base.Answers.{all_return}
use pmfuzz.Str.Number.{str, str_ℕ}
use pmfuzz.NameHandler.Stage.{get_outdir_name}
use pmfuzz.NameHandler.Stage.Laws.{dir_name}
use pmfuzz.Core.World.{
  Call, stage2_clear, World, DedupArgs, dedup_run, record_call, make_entry, new_dedup, new_stage2,
  stage2_clear_dirs, run_steps,
}
use pmfuzz.Core.Machine.{run_dedup}
use pmfuzz.Core.Machine.Listing.{
  Lists, add_dir, drop_dir, make_special, make_dir, remove_stage, contains_make, contains_made,
  contains_remove,
}

-- These calls were made, these stages are listed, and `@dedup` is there.
abbrev pub At : List Call → List (ℕ × ℕ) → World → Type 0
At cs ps w = (w.calls ≡ cs) × Lists ps w.entries × (contains w.entries (codes "@dedup") ≡ true)

abbrev pub Gives : List Call → List (ℕ × ℕ) → Result World → Type 0
Gives cs ps m = (w : World) × (m ≡ ok w) × At cs ps w

pub Gives-bind :
    (cs ds : List Call) (ps qs : List (ℕ × ℕ)) (m : Result World) (f : World → Result World)
    → Gives cs ps m
    → ((w : World) → At cs ps w → Gives ds qs (f w))
    → Gives ds qs (m >>= f)
Gives-bind cs ds ps qs m f (w, e, h) k = rw e (k w h)

pub At-emit :
    (cs : List Call) (ps : List (ℕ × ℕ)) (c : Call) (w : World)
    → At cs ps w
    → At (cs ++ (c ∷ [])) ps (record_call c w)
At-emit cs ps c w (h, l, d) = (ap (λ t. t ++ (c ∷ [])) h, l, d)

pub outdir_name : (s i : ℕ) → 1 ≤ s → 1 ≤ i → get_outdir_name (pos s) (pos i) ≡ ok (dir_name s i)
unfolding get_outdir_name str
outdir_name s i hs hi = ground arith

pub new_dedup-At :
    (ps : List (ℕ × ℕ)) (s i : ℕ) (w : World)
    → 1 ≤ s
    → 1 ≤ i
    → Lists ps w.entries
    → Gives w.calls (add_dir (s, i) ps) (new_dedup (pos s) (pos i) w)
unfolding new_dedup
new_dedup-At ps s i w hs hi h =
    let l₁ = make_entry (codes "@dedup") w.entries in
    let l₂ = make_entry (dir_name s i) l₁ in
    rw (outdir_name s i hs hi) (
      _,
      refl,
      (
        refl,
        make_special (add_dir (s, i) ps) (codes "temp") l₂
            (make_dir ps s i l₁ (make_special ps (codes "dedup") w.entries h)),
        contains_make (codes "@temp") (codes "@dedup") l₂ (
            contains_make (dir_name s i) (codes "@dedup") l₁
              (contains_made (codes "@dedup") w.entries)),
      ),
    )

pub run_steps_passes :
    (s i : ℕ) (args : DedupArgs) (w : World)
    → args.min_tc ≡ false
    → run_steps all_return (pos s) (pos i) args w
      ≡ ok (record_call (dedup_run (pos s) (pos i) args) w)
unfolding run_steps
run_steps_passes s i args w h =
    ap (λ b. abort_if b >> ok (record_call (dedup_run (pos s) (pos i) args) w)) h

pub run_dedup-At :
    (ps : List (ℕ × ℕ)) (s i : ℕ) (args : DedupArgs) (w : World)
    → args.min_tc ≡ false
    → 1 ≤ s
    → 1 ≤ i
    → Lists ps w.entries
    → Gives
        (w.calls ++ (dedup_run (pos s) (pos i) args ∷ []))
        (add_dir (s, i) ps)
        (run_dedup all_return (pos s) (pos i) args w)
unfolding run_dedup
run_dedup-At ps s i args w hm hs hi h =
    let (w', e, k) = new_dedup-At ps s i w hs hi h in
    rw e (
      record_call (dedup_run (pos s) (pos i) args) w',
      run_steps_passes s i args w' hm,
      At-emit w.calls (add_dir (s, i) ps) (dedup_run (pos s) (pos i) args) w' k,
    )

pub new_stage2-At :
    (ps : List (ℕ × ℕ)) (i : ℕ) (w : World)
    → 1 ≤ i
    → Lists ps w.entries
    → Gives w.calls (add_dir (2, i) (add_dir (2, i) ps)) (new_stage2 (pos 2) (pos i) w)
unfolding new_stage2
new_stage2-At ps i w hi h =
    let (w', e, (calls, l, d)) = new_dedup-At ps 2 i w (omega arith) hi h in
    let valid : ltb_ℤ (pos i) (pos 1) ≡ false = ground arith in
    rw (outdir_name 2 i (omega arith) hi, valid, e)
      (
        _,
        refl,
        (
          calls,
          make_dir (add_dir (2, i) ps) 2 i w'.entries l,
          contains_make (dir_name 2 i) (codes "@dedup") w'.entries d,
        ),
      )

pub clear-At :
    (cs : List Call) (ps : List (ℕ × ℕ)) (i : ℕ) (w : World)
    → 1 ≤ i
    → At cs ps w
    → Gives
        (cs ++ (stage2_clear (pos 2) (pos i) ∷ []))
        (drop_dir (2, i) ps)
        (stage2_clear_dirs all_return (pos 2) (pos i) w)
unfolding stage2_clear_dirs text_eq
clear-At cs ps i w hi (calls, l, d) = rw (outdir_name 2 i (omega arith) hi) (
  _,
  refl,
  (
    ap (λ t. t ++ (stage2_clear (pos 2) (pos i) ∷ [])) calls,
    remove_stage ps 2 i w.entries l,
    contains_remove (dir_name 2 i) (codes "@dedup") w.entries refl d,
  ),
)

-- The stages of an output directory in which an iteration runs.
abbrev pub one : List (ℕ × ℕ)
one = (1, 1) ∷ []

abbrev pub two : ℕ → List (ℕ × ℕ)
two k = (1, 1) ∷ (2, k) ∷ []

pub add_dir-one : add_dir (1, 1) one ≡ one
add_dir-one = rw (text_eq_refl (dir_name 1 1)) refl

pub add_dir-two_first : (k : ℕ) → add_dir (1, 1) (two k) ≡ two k
add_dir-two_first k = rw (text_eq_refl (dir_name 1 1)) refl

pub add_dir-one-two : (k : ℕ) → add_dir (2, k) one ≡ two k
unfolding text_eq str_ℕ
add_dir-one-two k = refl

pub add_dir-two : (k : ℕ) → add_dir (2, k) (two k) ≡ two k
add_dir-two k = ground (arith, text_eq_refl (dir_name 2 k))

other_stage : (k : ℕ) → text_eq (dir_name 2 k) (dir_name 1 1) ≡ false
unfolding text_eq str_ℕ
other_stage k = refl

pub drop_dir-two : (k : ℕ) → drop_dir (2, k) (two k) ≡ one
unfolding keep
drop_dir-two k = rw (text_eq_refl (dir_name 2 k), other_stage k) refl
