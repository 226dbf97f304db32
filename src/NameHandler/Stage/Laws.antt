-- ===== src/NameHandler/Stage/Laws.antt =====
-- The name of a stage directory is read back.
use pmfuzz.Base.{
  ℕ, ◌≤◌, false, ◌||◌, [], ◌∷◌, ◌++◌, ◌≡◌, refl, ◌∙◌, ap, arith, if◌then◌else◌, ◌==◌, Text, codes,
  ok, err, ◌>>=◌, aborted, ℤ, pos, ltb_ℤ,
}
use pmfuzz.Str.{is_in, split_at, occurs}
use pmfuzz.Str.Laws.{
  Uncut, occurs_of_Uncut, is_in-append, is_in_right, is_in_of_lacks, split_at_whole, split_at_sep,
}
use pmfuzz.Str.Number.{str, str_ℕ, is_digit}
use pmfuzz.Str.Number.Laws.{int-str_ℕ, str_ℕ-digits}
use pmfuzz.NameHandler.Stage.{get_outdir_name, token_value, read_tokens, get_stage_inf}

abbrev pub dir_name : ℕ → ℕ → Text
dir_name stage iter_id = codes "stage=" ++ (str_ℕ stage ++ (codes ",iter=" ++ str_ℕ iter_id))

-- The name that is made; a stage or an iteration below 1 aborts.
pub get_outdir_name_lem :
    (stage iter_id : ℤ)
    → get_outdir_name stage iter_id ≡ (
        if ltb_ℤ iter_id (pos 1) || ltb_ℤ stage (pos 1)
        then err aborted
        else ok (codes "stage=" ++ (str stage ++ (codes ",iter=" ++ str iter_id))))
unfolding get_outdir_name
get_outdir_name_lem stage iter_id = ground arith

str_ℕ-lacks : (c n : ℕ) → is_digit c ≡ false → occurs c (str_ℕ n) ≡ false
str_ℕ-lacks c n h = occurs_of_Uncut c (str_ℕ n) (str_ℕ-digits (λ d. d == c) n (λ d k. ground arith))

token_value-str :
    (key : Text) (n : ℕ)
    → Uncut (λ c. c == b'=') key
    → token_value (key ++ (b'=' ∷ str_ℕ n)) ≡ ok (pos n)
unfolding token_value
token_value-str key n h = rw (
  split_at_sep (λ c. c == b'=') key b'=' (str_ℕ n) h refl,
  split_at_whole (λ c. c == b'=') (str_ℕ n) (str_ℕ-digits (λ c. c == b'=') n (λ c k. ground arith)),
  int-str_ℕ n,
)

no_comma : (n : ℕ) → Uncut (λ c. c == b',') (str_ℕ n)
no_comma n = str_ℕ-digits (λ c. c == b',') n (λ c k. ground arith)

split_at-dir_name :
    (stage iter_id : ℕ)
    → split_at (λ c. c == b',') (dir_name stage iter_id)
      ≡ (codes "stage=" ++ str_ℕ stage) ∷ (codes "iter=" ++ str_ℕ iter_id) ∷ []
split_at-dir_name stage iter_id =
    split_at_sep (λ c. c == b',') (codes "stage=" ++ str_ℕ stage) b','
      (codes "iter=" ++ str_ℕ iter_id)
      (refl, (refl, (refl, (refl, (refl, (refl, no_comma stage)))))) refl
    ∙ ap (◌∷◌ (codes "stage=" ++ str_ℕ stage)) (
        split_at_whole (λ c. c == b',') (codes "iter=" ++ str_ℕ iter_id)
          (refl, (refl, (refl, (refl, (refl, no_comma iter_id))))))

-- The second token does not mention a stage.
no_stage : (n : ℕ) → is_in (codes "stage") (codes "iter=" ++ str_ℕ n) ≡ false
no_stage n =
    is_in_of_lacks b's' (codes "stage") (codes "iter=" ++ str_ℕ n) (unfold occurs in refl)
      (unfold occurs in str_ℕ-lacks b's' n refl)

pub get_stage_inf-dir_name :
    (stage iter_id : ℕ) → get_stage_inf (dir_name stage iter_id) ≡ ok (pos stage, pos iter_id)
unfolding get_stage_inf read_tokens
get_stage_inf-dir_name stage iter_id = rw (
  is_in-append (codes "stage=") (str_ℕ stage ++ (codes ",iter=" ++ str_ℕ iter_id)),
  is_in_right (codes ",iter=") (codes "stage=" ++ str_ℕ stage) (codes ",iter=" ++ str_ℕ iter_id)
      (is_in-append (codes ",iter=") (str_ℕ iter_id)),
  split_at-dir_name stage iter_id,
  is_in-append (codes "stage") (codes "=" ++ str_ℕ stage),
  no_stage iter_id,
  is_in-append (codes "iter") (codes "=" ++ str_ℕ iter_id),
  token_value-str (codes "stage") stage (refl, (refl, (refl, (refl, (refl, tt))))),
  token_value-str (codes "iter") iter_id (refl, (refl, (refl, (refl, tt)))),
)

-- A directory name that is made for a stage and an iteration from 1 on is read back as these.
pub get_stage_inf-get_outdir_name :
    (stage iter_id : ℕ)
    → 1 ≤ stage
    → 1 ≤ iter_id
    → (get_outdir_name (pos stage) (pos iter_id) >>= get_stage_inf) ≡ ok (pos stage, pos iter_id)
unfolding get_outdir_name str
get_stage_inf-get_outdir_name stage iter_id hs hi =
    ground (arith, get_stage_inf-dir_name stage iter_id)
