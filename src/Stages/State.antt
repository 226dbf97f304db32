-- ===== src/Stages/State.antt =====
-- stages/state.py: which stage and iteration an output directory has reached.
pub mod Laws
use pmfuzz.Base.{
  ℕ, Bool, true, false, ◌&&◌, ◌||◌, List, [], ◌∷◌, ◌≡◌, refl, if◌then◌else◌, ◌==◌, Text, codes,
  text_eq, Option, none, some, Result, ok, err, aborted, index_error, ◌>>=◌, of_option, ℤ, pos,
  ltb_ℤ, eq_ℤ,
}
use pmfuzz.Str.{is_in, split_at}
use pmfuzz.Str.Number.{int}
use pmfuzz.NameHandler.Stage.{get_stage_inf, read_tokens, token_value}

-- The attributes `_stage` and `_iter_id`, which the first `sync` makes, and `_dedup_exists`.
pub record State : Type 0 where
  pub found : Option (ℤ × ℤ)
  pub _dedup_exists : Bool

abbrev pub new_state : State
new_state = record { found = none; _dedup_exists = false }

-- The larger stage, and within one stage the larger iteration.
abbrev pub larger : ℤ × ℤ → ℤ × ℤ → ℤ × ℤ
larger (stage_m, iter_id_m) (stage, iter_id) =
    if ltb_ℤ stage_m stage
    then (stage, iter_id)
    else if eq_ℤ stage stage_m && ltb_ℤ iter_id_m iter_id
    then (stage_m, iter_id)
    else (stage_m, iter_id_m)

-- One name of the listing.
unfoldable pub see : (ℤ × ℤ) × Bool → Text → Result ((ℤ × ℤ) × Bool)
see (best, dedup) [] = err index_error
see (best, dedup) (c ∷ name) =
    if b'@' == c
    then ok (best, dedup || text_eq (codes "@dedup") (c ∷ name))
    else (get_stage_inf (c ∷ name) >>= λ inf. ok (larger best inf, dedup))

unfoldable pub scan : (ℤ × ℤ) × Bool → List Text → Result ((ℤ × ℤ) × Bool)
scan seen [] = ok seen
scan seen (dir ∷ dirs) = do next ← see seen dir; scan next dirs

-- `sync()`, over what `listdir` returns for the output directory.
unfoldable pub sync : State → List Text → Result State
sync state dirs = do
  (best, dedup) ← scan ((pos 0, pos 0), state._dedup_exists) dirs
  ok (record { found = some best; _dedup_exists = dedup })

-- The properties `stage` and `iter_id`.
unfoldable pub stage : State → Result ℤ
stage state = do (s, _) ← of_option aborted state.found; ok s

unfoldable pub iter_id : State → Result ℤ
iter_id state = do (_, i) ← of_option aborted state.found; ok i

sync_runs :
    (sync new_state (
        codes "stage=1,iter=1"
        ∷ codes "@dedup"
        ∷ codes "stage=2,iter=13"
        ∷ codes "stage=2,iter=4"
        ∷ [])
      ≡ ok (record { found = some (pos 2, pos 13); _dedup_exists = true }))
    × (stage new_state ≡ err aborted)
unfolding sync scan see get_stage_inf text_eq stage is_in read_tokens split_at token_value int
sync_runs = (refl, refl)
