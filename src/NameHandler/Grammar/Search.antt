-- ===== src/NameHandler/Grammar/Search.antt =====
-- What a search and a replacement find in a rendered name: nothing before its end.
use pmfuzz.Base.{
  ℕ, Bool, true, false, not, ◌||◌, List, [], ◌∷◌, ◌++◌, ◌≡◌, refl, ◌∙◌, ap, arith, Text, codes, All,
  ◌==◌,
}
use pmfuzz.Str.{occurs, is_in, replace_from, starts_with}
use pmfuzz.Str.Laws.{occurs-append, is_in_skip, replace_skip}
use pmfuzz.Str.Number.{is_digit}
use pmfuzz.NameHandler.Grammar.{
  Link, dot, comma, Name, IsDigits, IsLink, IsName, render_id, render_links, render,
}

-- A character that no name holds.
abbrev pub is_foreign : ℕ → Bool
is_foreign c = not (is_digit c || c == b'i' || c == b'd' || c == b'=' || c == b'.' || c == b',')

All-digits-occurs :
    (c : ℕ) (d : Text) → is_digit c ≡ false → All (λ e. is_digit e ≡ true) d → occurs c d ≡ false
unfolding occurs
All-digits-occurs c [] h k = refl
All-digits-occurs c (e ∷ d) h (ke, kd) = ground (arith, All-digits-occurs c d h kd)

pub digits-occurs : (c : ℕ) (d : Text) → is_digit c ≡ false → IsDigits d → occurs c d ≡ false
digits-occurs c [] h k = absurd k
digits-occurs c (e ∷ d) h k = All-digits-occurs c (e ∷ d) h k

occurs-render_id :
    (c : ℕ) (d t : Text) → is_foreign c ≡ true → IsDigits d → occurs c (render_id d t) ≡ occurs c t
unfolding occurs
occurs-render_id c d t f h = ground (arith, occurs-append c d t, digits-occurs c d)

occurs-render_links :
    (c : ℕ) (ls : List Link) (end : Text)
    → is_foreign c ≡ true
    → All IsLink ls
    → occurs c (render_links ls end) ≡ occurs c end
unfolding occurs
occurs-render_links c [] end f h = refl
occurs-render_links c (dot d ∷ ls) end f (hd, hs) =
    ground
      (arith, occurs-render_id c d (render_links ls end) f hd, occurs-render_links c ls end f hs)
occurs-render_links c (comma d ∷ ls) end f (hd, hs) =
    ground
      (arith, occurs-render_id c d (render_links ls end) f hd, occurs-render_links c ls end f hs)

pub occurs-render :
    (c : ℕ) (n : Name) (end : Text)
    → is_foreign c ≡ true
    → IsName n
    → occurs c (render n end) ≡ occurs c end
occurs-render c n end f (hd, hs) =
    occurs-render_id c n.first _ f hd ∙ occurs-render_links c n.rest end f hs

-- A pattern that begins with a dot and no id behind it.
module _ (x : ℕ) (p : Text) (h : (x == b'i') ≡ false) where
  is_in_dot : (t : Text) → is_in (b'.' ∷ x ∷ p) (b'.' ∷ b'i' ∷ t) ≡ is_in (b'.' ∷ x ∷ p) (b'i' ∷ t)
  unfolding is_in starts_with
  is_in_dot t = ground arith

  is_in_id :
      (d t : Text) → IsDigits d → is_in (b'.' ∷ x ∷ p) (render_id d t) ≡ is_in (b'.' ∷ x ∷ p) t
  is_in_id d t k =
      is_in_skip b'.' (x ∷ p) (codes "id=") (d ++ t) (unfold occurs in refl)
      ∙ is_in_skip b'.' (x ∷ p) d t (digits-occurs b'.' d refl k)

  is_in_links :
      (ls : List Link) (end : Text)
      → All IsLink ls
      → is_in (b'.' ∷ x ∷ p) (render_links ls end) ≡ is_in (b'.' ∷ x ∷ p) end
  is_in_links [] end k = refl
  is_in_links (dot d ∷ ls) end (kd, ks) =
      is_in_dot _ ∙ is_in_id d (render_links ls end) kd ∙ is_in_links ls end ks
  is_in_links (comma d ∷ ls) end (kd, ks) =
      is_in_skip b'.' (x ∷ p) (codes ",") _ (unfold occurs in refl)
      ∙ is_in_id d (render_links ls end) kd
      ∙ is_in_links ls end ks

  pub is_in-render :
      (n : Name) (end : Text)
      → IsName n
      → is_in (b'.' ∷ x ∷ p) (render n end) ≡ is_in (b'.' ∷ x ∷ p) end
  is_in-render n end (kd, ks) =
      is_in_id n.first (render_links n.rest end) kd ∙ is_in_links n.rest end ks

  module _ (q : Text) where
    replace_dot :
        (t : Text)
        → replace_from b'.' (x ∷ p) q 0 (b'.' ∷ b'i' ∷ t)
          ≡ b'.' ∷ replace_from b'.' (x ∷ p) q 0 (b'i' ∷ t)
    unfolding replace_from starts_with
    replace_dot t = ground arith

    replace_id :
        (d t : Text)
        → IsDigits d
        → replace_from b'.' (x ∷ p) q 0 (render_id d t)
          ≡ render_id d (replace_from b'.' (x ∷ p) q 0 t)
    replace_id d t k =
        replace_skip b'.' (x ∷ p) q (codes "id=") (d ++ t) (unfold occurs in refl)
        ∙ ap (λ r. codes "id=" ++ r) (replace_skip b'.' (x ∷ p) q d t (digits-occurs b'.' d refl k))

    replace_links :
        (ls : List Link) (end : Text)
        → All IsLink ls
        → replace_from b'.' (x ∷ p) q 0 (render_links ls end)
          ≡ render_links ls (replace_from b'.' (x ∷ p) q 0 end)
    replace_links [] end k = refl
    replace_links (dot d ∷ ls) end (kd, ks) =
        replace_dot _
        ∙ ap (◌∷◌ b'.') (replace_id d (render_links ls end) kd)
        ∙ ap (λ t. b'.' ∷ render_id d t) (replace_links ls end ks)
    replace_links (comma d ∷ ls) end (kd, ks) =
        replace_skip b'.' (x ∷ p) q (codes ",") _ (unfold occurs in refl)
        ∙ ap (◌∷◌ b',') (replace_id d (render_links ls end) kd)
        ∙ ap (λ t. b',' ∷ render_id d t) (replace_links ls end ks)

    -- A replacement at a dot with no id behind it works on the end of a name alone.
    pub replace-render :
        (n : Name) (end : Text)
        → IsName n
        → replace_from b'.' (x ∷ p) q 0 (render n end)
          ≡ render n (replace_from b'.' (x ∷ p) q 0 end)
    replace-render n end (kd, ks) =
        replace_id n.first (render_links n.rest end) kd
        ∙ ap (render_id n.first) (replace_links n.rest end ks)
