-- ===== src/Str/Laws.antt =====
-- Laws of the text functions: what a search skips, what a replacement leaves, what a path splits into.
use pmfuzz.Base.{
  Bool-cases, inl, inr, ℕ, Bool, true, false, ◌||◌, [], ◌∷◌, ◌++◌, ◌≡◌, refl, ◌==◌, if◌then◌else◌,
  Text, length, arith, All,
}
use pmfuzz.Str.{starts_with, is_in, replace_from, split_at, before, occurs}

pub occurs-append : (c : ℕ) (s t : Text) → occurs c (s ++ t) ≡ (occurs c s || occurs c t)
unfolding occurs
occurs-append c [] t = refl
occurs-append c (d ∷ s) t = ground (arith, occurs-append c s t)

starts_with-occurs :
    (c : ℕ) (s p : Text) → starts_with s p ≡ true → occurs c s ≡ false → occurs c p ≡ false
unfolding starts_with occurs
starts_with-occurs c s [] h k = refl
starts_with-occurs c [] (e ∷ p) h k = cc
starts_with-occurs c (d ∷ s) (e ∷ p) h k = ground (arith, starts_with-occurs c s p)

-- A text that lacks a character of the pattern lacks the pattern.
pub is_in_of_lacks :
    (c : ℕ) (p s : Text) → occurs c p ≡ true → occurs c s ≡ false → is_in p s ≡ false
unfolding is_in occurs
is_in_of_lacks c p [] h k = ground (arith, starts_with-occurs c [] p)
is_in_of_lacks c p (d ∷ s) h k =
    ground (arith, starts_with-occurs c (d ∷ s) p, is_in_of_lacks c p s)

pub starts_with-append : (p s : Text) → starts_with (p ++ s) p ≡ true
unfolding starts_with
starts_with-append [] s = refl
starts_with-append (c ∷ p) s = ground (arith, starts_with-append p s)

pub is_in-append : (p s : Text) → is_in p (p ++ s) ≡ true
unfolding is_in
is_in-append [] [] = refl
is_in-append [] (c ∷ s) = refl
is_in-append (c ∷ p) s = ground (arith, starts_with-append (c ∷ p) s)

-- What occurs in a part occurs in the whole.
pub is_in_right : (p s t : Text) → is_in p t ≡ true → is_in p (s ++ t) ≡ true
unfolding is_in
is_in_right p [] t h = h
is_in_right p (c ∷ s) t h = ground (arith, is_in_right p s t)

-- The search passes over characters that do not begin the pattern.
pub is_in_skip :
    (b : ℕ) (p s t : Text) → occurs b s ≡ false → is_in (b ∷ p) (s ++ t) ≡ is_in (b ∷ p) t
unfolding is_in occurs
is_in_skip b p [] t h = refl
is_in_skip b p (c ∷ s) t h = ground (arith, is_in_skip b p s t)

module _ (b : ℕ) (p q : Text) where
  pub replace_skip :
      (s t : Text)
      → occurs b s ≡ false
      → replace_from b p q 0 (s ++ t) ≡ s ++ replace_from b p q 0 t
  unfolding replace_from occurs
  replace_skip [] t h = refl
  replace_skip (c ∷ s) t h = ground (arith, replace_skip s t)

  replace_rest : (r t : Text) → replace_from b p q (length r) (r ++ t) ≡ replace_from b p q 0 t
  unfolding replace_from
  replace_rest [] t = refl
  replace_rest (c ∷ r) t = replace_rest r t

  -- At the pattern the replacement is written, and the search goes on behind the pattern.
  pub replace_here : (t : Text) → replace_from b p q 0 ((b ∷ p) ++ t) ≡ q ++ replace_from b p q 0 t
  unfolding replace_from
  replace_here t = rw (starts_with-append (b ∷ p) t, if◌then◌else◌) (rw (replace_rest p t))

  -- A text without the pattern is left alone.
  pub replace_none : (t : Text) → is_in (b ∷ p) t ≡ false → replace_from b p q 0 t ≡ t
  unfolding replace_from is_in
  replace_none [] h = refl
  replace_none (c ∷ t) h = ground (arith, replace_none t)

abbrev pub Uncut : (ℕ → Bool) → Text → Type 0
Uncut cut = All (λ c. cut c ≡ false)

-- A text that a test on `b` does not cut lacks `b`.
pub occurs_of_Uncut : (b : ℕ) (s : Text) → Uncut (λ c. c == b) s → occurs b s ≡ false
unfolding occurs
occurs_of_Uncut b [] h = refl
occurs_of_Uncut b (c ∷ s) (h, hs) = ground (arith, occurs_of_Uncut b s hs)

pub Uncut-of_occurs : (b : ℕ) (s : Text) → occurs b s ≡ false → Uncut (λ c. c == b) s
unfolding occurs
Uncut-of_occurs b [] h = _
Uncut-of_occurs b (c ∷ s) h = elim (Bool-cases (c == b)) [
  | inl e ↦ ground arith
  | inr e ↦ (e, Uncut-of_occurs b s (ground arith))
]

module _ (cut : ℕ → Bool) where
  -- A text with no separator is one part.
  pub split_at_whole : (s : Text) → Uncut cut s → split_at cut s ≡ s ∷ []
  unfolding split_at
  split_at_whole [] h = refl
  split_at_whole (c ∷ s) (hc, hs) = rw (hc, if◌then◌else◌) (rw (split_at_whole s hs))

  -- The first part ends at the first separator.
  pub split_at_sep :
      (s : Text) (c : ℕ) (t : Text)
      → Uncut cut s
      → cut c ≡ true
      → split_at cut (s ++ (c ∷ t)) ≡ s ∷ split_at cut t
  unfolding split_at
  split_at_sep [] c t h k = rw k
  split_at_sep (d ∷ s) c t (hd, hs) k = rw (hd, if◌then◌else◌) (rw (split_at_sep s c t hs k))

pub before_whole : (b : ℕ) (s : Text) → occurs b s ≡ false → before b s ≡ s
unfolding before occurs
before_whole b [] h = refl
before_whole b (c ∷ s) h = ground (arith, before_whole b s)

pub before_sep : (b : ℕ) (s t : Text) → occurs b s ≡ false → before b (s ++ (b ∷ t)) ≡ s
unfolding before occurs
before_sep b [] t h = ground arith
before_sep b (c ∷ s) t h = ground (arith, before_sep b s t)
