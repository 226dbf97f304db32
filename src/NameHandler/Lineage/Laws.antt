-- ===== src/NameHandler/Lineage/Laws.antt =====
-- What the functions on ids return for every rendered name.
use pmfuzz.Base.{
  ℕ, ◌+◌, Bool, true, false, List, [], ◌∷◌, ◌++◌, ◌≡◌, refl, ap, ◌∙◌, arith, ◌==◌, Text, codes, ok,
  some, pos, length, map, All, All-append, append_assoc, append-nil,
}
use pmfuzz.Str.{split_at, before, occurs}
use pmfuzz.Str.Laws.{Uncut, split_at_whole, split_at_sep, before_sep, before_whole}
use pmfuzz.Str.Number.{int, is_digit}
use pmfuzz.Str.Number.Laws.{value, int_digits}
use pmfuzz.Str.Path.{basename}
use pmfuzz.Str.Path.Laws.{IsDir, in_dir, no_dir-IsDir, basename-in_dir}
use pmfuzz.NameHandler.Grammar.{
  Link, dot, comma, Name, IsName, IsLink, IsDigits, render, render_id, render_links,
}
use pmfuzz.NameHandler.Grammar.Search.{digits-occurs}
use pmfuzz.NameHandler.Metadata.{get_metadata_files}
use pmfuzz.NameHandler.Metadata.Family.{
  Kind, file_name, file_name-IsFile, metadata_of, get_metadata_files-file_name,
}
use pmfuzz.NameHandler.Lineage.{token_id, token_ids, get_lineage, ancestor_cnt, iter_cnt}

-- Digits pass no test that only other characters pass.
digits-Uncut :
    (cut : ℕ → Bool) (d : Text)
    → ((c : ℕ) → is_digit c ≡ true → cut c ≡ false)
    → All (λ c. is_digit c ≡ true) d
    → Uncut cut d
digits-Uncut cut [] f h = tt
digits-Uncut cut (c ∷ d) f (h, hs) = (f c h, digits-Uncut cut d f hs)

IsDigits-All : (d : Text) → IsDigits d → All (λ c. is_digit c ≡ true) d
IsDigits-All [] h = absurd h
IsDigits-All (c ∷ d) h = h

-- What may follow an id within a token: nothing, or dot links.
abbrev IsDotted : Text → Type 0
IsDotted [] = Unit
IsDotted (c ∷ w) = c ≡ b'.'

before-render_id :
    (d w : Text) → IsDigits d → IsDotted w → before b'.' (render_id d w) ≡ codes "id=" ++ d
before-render_id d [] h k =
    rw append-nil
      (before_whole b'.' (codes "id=" ++ d) (unfold occurs in digits-occurs b'.' d refl h))
before-render_id d (c ∷ w) h k =
    rw k (before_sep b'.' (codes "id=" ++ d) w (unfold occurs in digits-occurs b'.' d refl h))

int-digits : (d : Text) → IsDigits d → int d ≡ some (pos (value d))
int-digits [] h = absurd h
int-digits (c ∷ d) h = int_digits c d h

-- The value of one token is that of its first id.
token_id-render :
    (d w : Text) → IsDigits d → IsDotted w → token_id (render_id d w) ≡ ok (pos (value d))
unfolding token_id
token_id-render d w h k = rw (
  before-render_id d w h k,
  split_at_sep (λ c. c == b'=') (codes "id") b'=' d (refl, (refl, tt)) refl,
  split_at_whole (λ c. c == b'=') d (digits-Uncut _ d (λ c k. ground arith) (IsDigits-All d h)),
  int-digits d h,
)

-- The tokens of a name: the first with its dot links, then one for each comma link.
tokens : Text → Text → List Link → List Text
tokens d w [] = render_id d w ∷ []
tokens d w (dot e ∷ ls) = tokens d (w ++ (b'.' ∷ render_id e [])) ls
tokens d w (comma e ∷ ls) = render_id d w ∷ tokens e [] ls

-- The ids at the commas.
abbrev pub comma_ids : List Link → List Text
comma_ids [] = []
comma_ids (dot e ∷ ls) = comma_ids ls
comma_ids (comma e ∷ ls) = e ∷ comma_ids ls

no_comma : (d : Text) → IsDigits d → Uncut (λ c. c == b',') d
no_comma d h = digits-Uncut _ d (λ c k. ground arith) (IsDigits-All d h)

no_comma_id :
    (d w : Text) → IsDigits d → Uncut (λ c. c == b',') w → Uncut (λ c. c == b',') (render_id d w)
no_comma_id d w h k =
    (refl, (refl, (refl, All-append (λ c. (c == b',') ≡ false) d w (no_comma d h) k)))

split_at-render :
    (d w : Text) (ls : List Link)
    → IsDigits d
    → Uncut (λ c. c == b',') w
    → All IsLink ls
    → split_at (λ c. c == b',') (render_id d w ++ render_links ls []) ≡ tokens d w ls
unfolding tokens
split_at-render d w [] h k _ =
    rw append-nil (split_at_whole (λ c. c == b',') (render_id d w) (no_comma_id d w h k))
split_at-render d w (dot e ∷ ls) h k (he, hs) =
    let w' = w ++ (b'.' ∷ render_id e []) in
    let same : render_id d w ++ render_links (dot e ∷ ls) []
        ≡ render_id d w' ++ render_links ls [] =
      simp (append_assoc, append-nil) in
    ap (split_at (λ c. c == b',')) same
    ∙ split_at-render d w' ls h
        (All-append (λ c. (c == b',') ≡ false) w _ k (refl, no_comma_id e [] he tt)) hs
split_at-render d w (comma e ∷ ls) h k (he, hs) =
    let same : render_links ls [] ≡ [] ++ render_links ls [] = refl in
    split_at_sep (λ c. c == b',') (render_id d w) b',' (render_id e (render_links ls []))
      (no_comma_id d w h k) refl
    ∙ ap (◌∷◌ (render_id d w)) (rw append-nil at (split_at-render e [] ls he tt hs))

length-tokens : (d w : Text) (ls : List Link) → length (tokens d w ls) ≡ length (comma_ids ls) + 1
unfolding tokens
length-tokens d w [] = omega arith
length-tokens d w (dot e ∷ ls) = length-tokens d _ ls
length-tokens d w (comma e ∷ ls) = omega (arith, length-tokens e [] ls)

token_ids-tokens :
    (d w : Text) (ls : List Link)
    → IsDigits d
    → IsDotted w
    → All IsLink ls
    → token_ids (tokens d w ls) ≡ ok (map (λ e. pos (value e)) (d ∷ comma_ids ls))
unfolding tokens token_ids
token_ids-tokens d w [] h k _ = rw (token_id-render d w h k)
token_ids-tokens d [] (dot e ∷ ls) h k (he, hs) = token_ids-tokens d _ ls h refl hs
token_ids-tokens d (c ∷ w) (dot e ∷ ls) h k (he, hs) = token_ids-tokens d _ ls h k hs
token_ids-tokens d w (comma e ∷ ls) h k (he, hs) =
    rw (token_id-render d w h k, token_ids-tokens e [] ls he tt hs)

module _ (dir : Text) (n : Name) (k : Kind) (hd : IsDir dir) (h : IsName n) where
  split_at-clean : split_at (λ c. c == b',') (render n []) ≡ tokens n.first [] n.rest
  split_at-clean = rw append-nil at (split_at-render n.first [] n.rest h.0 tt h.1)

  -- `get_metadata_files(path.basename(f))`
  metadata-basename :
      get_metadata_files (basename (in_dir dir (file_name k n))) false ≡ ok (metadata_of [] n false)
  metadata-basename =
      rw (basename-in_dir dir (file_name k n) (file_name-IsFile dir n hd h k))
        (get_metadata_files-file_name [] n no_dir-IsDir h k false)

  -- Of any file of a testcase, the lineage is the first id and the ids behind the commas.
  pub get_lineage-file_name :
      get_lineage (in_dir dir (file_name k n))
      ≡ ok (map (λ e. pos (value e)) (n.first ∷ comma_ids n.rest))
  unfolding get_lineage
  get_lineage-file_name =
      rw (metadata-basename, split_at-clean) (token_ids-tokens n.first [] n.rest h.0 tt h.1)

  -- It has one ancestor for each comma.
  pub ancestor_cnt-file_name :
      ancestor_cnt (in_dir dir (file_name k n)) ≡ ok (length (comma_ids n.rest))
  unfolding ancestor_cnt
  ancestor_cnt-file_name =
      rw (metadata-basename, split_at-clean, length-tokens) (ap ok (omega arith))

  pub iter_cnt-file_name :
      iter_cnt (in_dir dir (file_name k n)) ≡ ok (length (comma_ids n.rest) + 1)
  unfolding iter_cnt
  iter_cnt-file_name = rw ancestor_cnt-file_name
