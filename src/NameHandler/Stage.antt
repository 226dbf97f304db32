-- ===== src/NameHandler/Stage.antt =====
-- The names of the stage directories.
pub mod Laws
use pmfuzz.Base.{
  ℕ, suc, Bool, true, false, not, ◌&&◌, ◌||◌, List, [], ◌∷◌, ◌++◌, ◌≡◌, refl, arith, if◌then◌else◌,
  ◌==◌, Text, codes, Option, none, some, Result, Error, ok, err, index_error, value_error, aborted,
  ◌>>=◌, ◌>>◌, abort_if, of_option, ℤ, pos, negsuc, ltb_ℤ,
}
use pmfuzz.Str.{is_in, split_at}
use pmfuzz.Str.Number.{str, int}

-- `get_outdir_name(stage, iter_id)`, which `get_stage_str` returns too.
unfoldable pub get_outdir_name : ℤ → ℤ → Result Text
get_outdir_name stage iter_id = do
  abort_if (ltb_ℤ iter_id (pos 1))
  abort_if (ltb_ℤ stage (pos 1))
  ok (codes "stage=" ++ (str stage ++ (codes ",iter=" ++ str iter_id)))

-- `parts[1]`
abbrev pub second : List Text → Result Text
second (x ∷ y ∷ rest) = ok y
second _ = err index_error

-- `int(token.split('=')[1])`
unfoldable pub token_value : Text → Result ℤ
token_value token = do t ← second (split_at (λ c. c == b'=') token); of_option value_error (int t)

-- The loop over the tokens, and the checks behind it.
unfoldable pub read_tokens : List Text → Option ℤ → Option ℤ → Result (ℤ × ℤ)
read_tokens [] (some stage) (some iter_id) = ok (stage, iter_id)
read_tokens [] _ _ = err aborted
read_tokens (token ∷ tokens) stage iter_id =
    let as_stage = token_value token >>= λ v. read_tokens tokens (some v) iter_id in
    let as_iter = token_value token >>= λ v. read_tokens tokens stage (some v) in
    if is_in (codes "stage") token
    then as_stage
    else if is_in (codes "iter") token
    then as_iter
    else err aborted

-- `get_stage_inf(dirname)`
unfoldable pub get_stage_inf : Text → Result (ℤ × ℤ)
get_stage_inf dirname = do
  abort_if (not (is_in (codes "stage=") dirname) || not (is_in (codes ",iter=") dirname))
  read_tokens (split_at (λ c. c == b',') dirname) none none

stage_runs :
    (get_stage_inf (codes "stage=2,iter=13") ≡ ok (pos 2, pos 13))
    × (get_stage_inf (codes "stage=2,iter=x") ≡ err value_error)
    × (get_stage_inf (codes "stage=2;iter=1") ≡ err aborted)
    × (get_outdir_name (pos 2) (pos 13) ≡ ok (codes "stage=2,iter=13"))
unfolding get_stage_inf read_tokens token_value is_in split_at int get_outdir_name str
stage_runs = (refl, refl, refl, refl)
