-- ===== src/Core/DedupEngine/Endings.antt =====
-- A placeholder is no file of a testcase: their names end differently.
use mathlib.Core.Bool.{true≢false}
use pmfuzz.Base.{
  ℕ, true, false, List, [], ◌∷◌, ◌++◌, ◌≡◌, refl, sym, ap, ◌∙◌, arith, ◌==◌, Text, codes, text_eq,
  text_eq_iff, ==_iff, All, append-nil, Bool-cases, inl, inr,
}
use pmfuzz.Str.Number.{is_digit}
use pmfuzz.Str.Path.Laws.{in_dir}
use pmfuzz.NameHandler.Grammar.{
  Name, Link, dot, comma, IsName, IsDigits, IsLink, render, render_id, render_links, render_end,
}

-- The last character.
abbrev pub last : Text → ℕ
last [] = 0
last (c ∷ []) = c
last (c ∷ d ∷ s) = last (d ∷ s)

last-append : (a : Text) (c : ℕ) (s : Text) → last (a ++ (c ∷ s)) ≡ last (c ∷ s)
last-append [] c s = refl
last-append (x ∷ []) c s = refl
last-append (x ∷ y ∷ a) c s = last-append (y ∷ a) c s

last-in_dir : (d : Text) (c : ℕ) (s : Text) → last (in_dir d (c ∷ s)) ≡ last (c ∷ s)
last-in_dir [] c s = refl
last-in_dir (e ∷ d) c s = last-append (e ∷ d) b'/' (c ∷ s)

last-digits :
    (c : ℕ) (s : Text)
    → is_digit c ≡ true
    → All (λ d. is_digit d ≡ true) s
    → is_digit (last (c ∷ s)) ≡ true
last-digits c [] h hs = h
last-digits c (d ∷ s) h (k, ks) = last-digits d s k ks

last-render_id : (d : Text) (c : ℕ) (s : Text) → last (render_id d (c ∷ s)) ≡ last (c ∷ s)
last-render_id [] c s = refl
last-render_id (e ∷ d) c s = last-append (e ∷ d) c s

last-links :
    (d : Text) (ls : List Link)
    → IsDigits d
    → All IsLink ls
    → is_digit (last (render_id d (render_links ls []))) ≡ true
last-links [] [] h hs = absurd h
last-links (c ∷ d) [] (h, k) hs = rw (append-nil d) (last-digits c d h k)
last-links d (dot e ∷ ls) h (k, ks) =
    rw (last-render_id d b'.' (render_id e (render_links ls []))) (last-links e ls k ks)
last-links d (comma e ∷ ls) h (k, ks) =
    rw (last-render_id d b',' (render_id e (render_links ls []))) (last-links e ls k ks)

-- The last character of a name with an ending is that of the ending.
pub last-render : (n : Name) (c : ℕ) (s : Text) → last (render n (c ∷ s)) ≡ last (c ∷ s)
last-render n c s = ap last (render_end n (c ∷ s)) ∙ last-append (render n []) c s

pub last-clean : (n : Name) → IsName n → is_digit (last (render n [])) ≡ true
last-clean n (h, hs) = last-links n.first n.rest h hs

pub last-in_dir-render :
    (d : Text) (n : Name) (end : Text) → last (in_dir d (render n end)) ≡ last (render n end)
last-in_dir-render d n end = last-in_dir d b'i' (codes "d=" ++ (n.first ++ render_links n.rest end))

no_digit : (c : ℕ) → is_digit c ≡ true → (c == b'd') ≡ false
no_digit c h = ground arith

-- A text that ends in `d` is none that ends otherwise.
text_eq-apart : (p x : Text) → last p ≡ b'd' → (last x == b'd') ≡ false → text_eq p x ≡ false
text_eq-apart p x h k = elim (Bool-cases (text_eq p x)) [
  | inl e ↦
      let same : last x ≡ b'd' = ap last (sym ((text_eq_iff p x).0 e)) ∙ h in
      absurd (true≢false (sym ((==_iff (last x) b'd').1 same) ∙ k))
  | inr e ↦ e
]

module _ (p d : Text) (n : Name) (h : last p ≡ b'd') where
  -- It is neither a file of a name with another ending, nor one with a prefix, nor the bare name.
  pub apart-render :
      (c : ℕ) (s : Text)
      → (last (c ∷ s) == b'd') ≡ false
      → text_eq p (in_dir d (render n (c ∷ s))) ≡ false
  apart-render c s k =
      text_eq-apart p (in_dir d (render n (c ∷ s))) h
        (rw (last-in_dir-render d n (c ∷ s), last-render n c s) k)

  pub apart-prefix :
      (b : ℕ) (pre : Text) (c : ℕ) (s : Text)
      → (last (c ∷ s) == b'd') ≡ false
      → text_eq p (in_dir d ((b ∷ pre) ++ render n (c ∷ s))) ≡ false
  apart-prefix b pre c s k = text_eq-apart p (in_dir d ((b ∷ pre) ++ render n (c ∷ s))) h (
      rw
        (
          last-in_dir d b (pre ++ render n (c ∷ s)),
          last-append (b ∷ pre) b'i' (codes "d=" ++ (n.first ++ render_links n.rest (c ∷ s))),
          last-render n c s,
        )
        k)

  pub apart-clean : IsName n → text_eq p (in_dir d (render n [])) ≡ false
  apart-clean hn =
      text_eq-apart p (in_dir d (render n [])) h
        (rw (last-in_dir-render d n []) (no_digit (last (render n [])) (last-clean n hn)))
