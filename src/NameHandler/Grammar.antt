-- ===== src/NameHandler/Grammar.antt =====
-- What a testcase is called: ids, each behind a dot or a comma, in front of an extension.
-- `id=3.id=7,id=12` is the id 3, then a dot link to 7 (a crash site of it), then a comma link to 12.
pub mod Reading
pub mod Search
use pmfuzz.Base.{
  ℕ, Bool, true, List, [], ◌∷◌, ◌++◌, ◌≡◌, refl, ◌∙◌, ap, sym, arith, append_assoc, Text, codes,
  All,
}
use pmfuzz.Str.Number.{is_digit}
use pmfuzz.Regex.{Regex, char, seq, star, lit, plus, Star, stop, more, Matches}
use pmfuzz.Regex.Laws.{lit_iff}

pub data Link : Type 0 where
  dot : Text → Link
  comma : Text → Link

pub record Name : Type 0 where
  pub first : Text
  pub rest : List Link

-- One or more ASCII digits.
abbrev pub IsDigits : Text → Type 0
IsDigits [] = ⊥
IsDigits (c ∷ s) = (is_digit c ≡ true) × All (λ d. is_digit d ≡ true) s

abbrev pub IsLink : Link → Type 0
IsLink (dot d) = IsDigits d
IsLink (comma d) = IsDigits d

abbrev pub IsName : Name → Type 0
IsName n = IsDigits n.first × All IsLink n.rest

abbrev pub render_id : Text → Text → Text
render_id d rest = codes "id=" ++ (d ++ rest)

abbrev pub render_links : List Link → Text → Text
render_links [] end = end
render_links (dot d ∷ ls) end = b'.' ∷ render_id d (render_links ls end)
render_links (comma d ∷ ls) end = b',' ∷ render_id d (render_links ls end)

-- The name in front of `end`.
abbrev pub render : Name → Text → Text
render n end = render_id n.first (render_links n.rest end)

pub render_links-append :
    (ls ms : List Link) (end : Text)
    → render_links (ls ++ ms) end ≡ render_links ls (render_links ms end)
render_links-append [] ms end = refl
render_links-append (dot d ∷ ls) ms end =
    ap (λ t. b'.' ∷ render_id d t) (render_links-append ls ms end)
render_links-append (comma d ∷ ls) ms end =
    ap (λ t. b',' ∷ render_id d t) (render_links-append ls ms end)

pub render_links_end :
    (ls : List Link) (end : Text) → render_links ls end ≡ render_links ls [] ++ end
render_links_end [] end = refl
render_links_end (dot d ∷ ls) end = simp (render_links_end ls end, append_assoc)
render_links_end (comma d ∷ ls) end = simp (render_links_end ls end, append_assoc)

pub render_end : (n : Name) (end : Text) → render n end ≡ render n [] ++ end
render_end n end = rw (render_links_end n.rest end) (simp append_assoc)

-- `\d+`, `id=\d+`, `\.id=\d+`, `,id=\d+(\.id=\d+)*`
abbrev pub id_re : Regex
id_re = seq (lit (codes "id=")) (plus (char is_digit))

abbrev pub dot_re : Regex
dot_re = seq (lit (codes ".")) id_re

abbrev pub comma_re : Regex
comma_re = seq (lit (codes ",")) (seq id_re (star dot_re))

-- `(id=\d+)(\.id=\d+)*(,id=\d+(\.id=\d+)*)*` and a suffix
abbrev pub name_re : Regex → Regex
name_re suffix = seq id_re (seq (star dot_re) (seq (star comma_re) suffix))
