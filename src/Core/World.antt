-- ===== src/Core/World.antt =====
-- The output directory as core/pmfuzz.py sees it: which entries it has, and the calls that the state
-- machine makes of the stages and of deduplication. What the constructors of stages/stage1.py,
-- stages/stage2.py and stages/dedup.py make in the output directory.
use pmfuzz.Base.{
  ℕ, Bool, not, List, [], ◌∷◌, ◌++◌, if◌then◌else◌, Text, codes, text_eq, contains, keep, Result,
  ok, ◌>>=◌, ◌>>◌, abort_if, ℤ, pos, ltb_ℤ, eq_ℤ,
}
use pmfuzz.Base.Answers.{Outcomes}
use pmfuzz.NameHandler.Stage.{get_outdir_name}

-- The calls, with the stage, the iteration and the flags that they are given.
pub record DedupArgs : Type 0 where
  pub fdedup : Bool
  pub min_corpus : Bool
  pub min_tc : Bool
  pub gbl : Bool

pub data Call : Type 0 where
  stage1_run stage1_whatsup stage1_collect update_global : Call
  timer_start_new : ℕ → Call
  dedup_run : ℤ → ℤ → DedupArgs → Call
  stage2_run stage2_resume stage2_terminate stage2_clear : ℤ → ℤ → Call

pub record World : Type 0 where
  pub entries : List Text
  pub calls : List Call

abbrev pub record_call : Call → World → World
record_call call w = record { entries = w.entries; calls = w.calls ++ (call ∷ []) }

-- A call that fails ends what calls it.
abbrev pub emit : Outcomes Call → Call → World → Result World
emit outcomes call w = do outcomes w.calls call; ok (record_call call w)

-- `makedirs`, which leaves a directory that is there; `os.makedirs` of a path below one makes it too.
unfoldable pub make_entry : Text → List Text → List Text
make_entry name entries = if contains entries name then entries else entries ++ (name ∷ [])

unfoldable pub remove_entry : Text → List Text → List Text
remove_entry name = keep (λ entry. not (text_eq name entry))

abbrev pub makedirs : Text → World → World
makedirs name w = record { entries = make_entry name w.entries; calls = w.calls }

abbrev pub rmtree : Text → World → World
rmtree name w = record { entries = remove_entry name w.entries; calls = w.calls }

-- `Stage1(…)`
unfoldable pub new_stage1 : World → Result World
new_stage1 w = do name ← get_outdir_name (pos 1) (pos 1); ok (makedirs name w)

-- `Dedup(stage, iter_id, …)`
unfoldable pub new_dedup : ℤ → ℤ → World → Result World
new_dedup stage iter_id w = do
  name ← get_outdir_name stage iter_id
  ok (makedirs (codes "@temp") (makedirs name (makedirs (codes "@dedup") w)))

-- `Stage2(stage, iter_id, …)`, its setters included.
unfoldable pub new_stage2 : ℤ → ℤ → World → Result World
new_stage2 stage iter_id w = do
  name ← get_outdir_name stage iter_id
  abort_if (not (eq_ℤ stage (pos 2)))
  abort_if (ltb_ℤ iter_id (pos 1))
  w₁ ← new_dedup stage iter_id w
  ok (makedirs name w₁)

-- `Stage2.clear()`
unfoldable pub stage2_clear_dirs : Outcomes Call → ℤ → ℤ → World → Result World
stage2_clear_dirs outcomes stage iter_id w = do
  name ← get_outdir_name stage iter_id
  emit outcomes (stage2_clear stage iter_id) (rmtree name w)

-- `Dedup.run(…)`: the minimisation of single testcases aborts, globally and locally. All else that the
-- run does, `update_global` and the file deduplication of the global store included, is its call, with
-- the failures of these steps; a run that aborts is not a call.
unfoldable pub run_steps : Outcomes Call → ℤ → ℤ → DedupArgs → World → Result World
run_steps outcomes stage iter_id args w = do
  abort_if args.min_tc
  emit outcomes (dedup_run stage iter_id args) w
