-- ===== src/Regex/Laws.antt =====
-- The matcher by derivatives decides what an expression describes.
use mathlib.Core.Path.{subst}
use pmfuzz.Base.{
  append-nil, codes, ℕ, true, [], ◌∷◌, ◌++◌, ◌≡◌, refl, sym, ◌∙◌, ap, ◌⊎◌, inl, inr, ◌↔◌, Text,
  Bool-cases, ==_iff, &&_iff, ||_iff,
}
use pmfuzz.Regex.{
  Regex, none, empty, char, seq, alt, star, Star, stop, more, Matches, lit, nullable, seq', alt',
  deriv, full_match, search_anchored,
}

nullable_sound : (r : Regex) → nullable r ≡ true → Matches r []
unfolding nullable
nullable_sound none h = cc
nullable_sound empty h = refl
nullable_sound (char f) h = cc
nullable_sound (seq a b) h =
    let (ha, hb) = (&&_iff (nullable a) (nullable b)).0 h in
    ([], [], refl, nullable_sound a ha, nullable_sound b hb)
nullable_sound (alt a b) h = elim ((||_iff (nullable a) (nullable b)).0 h) [
  | inl ha ↦ inl (nullable_sound a ha)
  | inr hb ↦ inr (nullable_sound b hb)
]
nullable_sound (star a) h = stop refl

nullable_complete : (r : Regex) (w : Text) → w ≡ [] → Matches r w → nullable r ≡ true
unfolding nullable
nullable_complete none w e m = absurd m
nullable_complete empty w e m = refl
nullable_complete (char f) w e (c, h, p) = cc
nullable_complete (seq a b) w e ([], v, p, ma, mb) =
    (&&_iff _ _).1 (nullable_complete a [] refl ma, nullable_complete b v (cc) mb)
nullable_complete (seq a b) w e (c ∷ u, v, p, ma, mb) = cc
nullable_complete (alt a b) w e (inl m) = (||_iff _ _).1 (inl (nullable_complete a w e m))
nullable_complete (alt a b) w e (inr m) = (||_iff _ _).1 (inr (nullable_complete b w e m))
nullable_complete (star a) w e m = refl

seq'_iff : (a b : Regex) (w : Text) → Matches (seq' a b) w ↔ Matches (seq a b) w
unfolding seq'
seq'_iff none b w = (λ m. absurd m, λ (u, v, e, ma, mb). absurd ma)
seq'_iff empty b w =
    (λ m. ([], w, refl, refl, m), λ (u, v, e, ma, mb). subst (λ t. Matches b t) (cc) mb)
seq'_iff a b w = (λ m. m, λ m. m)

alt'_iff : (a b : Regex) (w : Text) → Matches (alt' a b) w ↔ Matches (alt a b) w
unfolding alt'
alt'_iff none b w = (inr, λ m. elim m [ inl x ↦ absurd x | inr y ↦ y ])
alt'_iff a none w = (inl, λ m. elim m [ inl x ↦ x | inr y ↦ absurd y ])
alt'_iff a b w = (λ m. m, λ m. m)

-- The derivative of a sequence, by whether its first part may be empty.
deriv_seq_iff :
    (c : ℕ) (a b : Regex) (w : Text)
    → Matches (deriv c (seq a b)) w
      ↔ (Matches (seq (deriv c a) b) w ⊎ ((nullable a ≡ true) × Matches (deriv c b) w))
unfolding deriv
deriv_seq_iff c a b w = elim (Bool-cases (nullable a)) [
  | inl h ↦ (
    λ m. elim ((alt'_iff (seq' (deriv c a) b) (deriv c b) w).0 (rw (h, deriv) at m)) [
      | inl x ↦ inl ((seq'_iff (deriv c a) b w).0 x)
      | inr y ↦ inr (h, y)
    ],
    λ m.
        rw (h, deriv)
          ((alt'_iff (seq' (deriv c a) b) (deriv c b) w).1
            (elim m [ inl x ↦ inl ((seq'_iff (deriv c a) b w).1 x) | inr (_, y) ↦ inr y ])),
  )
  | inr h ↦ (
    λ m. inl ((seq'_iff (deriv c a) b w).0 (rw (h, deriv) at m)),
    λ m. rw (h, deriv) (elim m [ inl x ↦ (seq'_iff (deriv c a) b w).1 x | inr (e, y) ↦ cc ]),
  )
]

seq_sound :
    (c : ℕ) (a b : Regex) (w : Text)
    → ((u : Text) → Matches (deriv c a) u → Matches a (c ∷ u))
    → (Matches (deriv c b) w → Matches b (c ∷ w))
    → Matches (seq (deriv c a) b) w ⊎ ((nullable a ≡ true) × Matches (deriv c b) w)
    → Matches (seq a b) (c ∷ w)
seq_sound c a b w fa fb (inl (u, v, e, ma, mb)) = (c ∷ u, v, ap (◌∷◌ c) e, fa u ma, mb)
seq_sound c a b w fa fb (inr (h, mb)) = ([], c ∷ w, refl, nullable_sound a h, fb mb)

deriv_sound : (c : ℕ) (r : Regex) (w : Text) → Matches (deriv c r) w → Matches r (c ∷ w)
unfolding deriv
deriv_sound c none w m = absurd m
deriv_sound c empty w m = absurd m
deriv_sound c (char f) w m = elim (Bool-cases (f c)) [
  | inl h ↦ (c, h, ap (◌∷◌ c) (rw (h, Matches) at m))
  | inr h ↦ absurd (rw (h, Matches) at m)
]
deriv_sound c (seq a b) w m =
    seq_sound c a b w (deriv_sound c a) (deriv_sound c b w) ((deriv_seq_iff c a b w).0 m)
deriv_sound c (alt a b) w m = elim ((alt'_iff (deriv c a) (deriv c b) w).0 m) [
  | inl ma ↦ inl (deriv_sound c a w ma)
  | inr mb ↦ inr (deriv_sound c b w mb)
]
deriv_sound c (star a) w m =
    let (u, v, e, ma, mb) = (seq'_iff (deriv c a) (star a) w).0 m in
    more (deriv_sound c a u ma) mb (ap (◌∷◌ c) e)

cons_split : {c : ℕ} {w : Text} (d : ℕ) (u v : Text) → c ∷ w ≡ (d ∷ u) ++ v → (d ≡ c) × (w ≡ u ++ v)
cons_split d u v e = (cc, cc)

-- The first nonempty text of a sequence takes the first character.
Star-first :
    {P : Text → Type 0} {u : Text} (c : ℕ) (w : Text)
    → Star P u
    → u ≡ c ∷ w
    → (x : Text) × (y : Text) × (w ≡ x ++ y) × P (c ∷ x) × Star P y
Star-first c w (stop e) p = cc
Star-first c w (more {u = []} m s e) p = Star-first c w s (cc)
Star-first {P} c w (more {u = d ∷ x} {v = y} m s e) p =
    let (dc, q) = cons_split d x y (sym p ∙ e) in (x, y, q, subst (λ t. P (t ∷ x)) dc m, s)

deriv_complete : (c : ℕ) (r : Regex) (w u : Text) → u ≡ c ∷ w → Matches r u → Matches (deriv c r) w
unfolding deriv
deriv_complete c none w u e m = m
deriv_complete c empty w u e m = cc
deriv_complete c (char f) w u e (d, h, p) =
    let dc : d ≡ c = cc in rw (subst (λ t. f t ≡ true) dc h, Matches) (cc)
deriv_complete c (seq a b) w u e ([], v, p, ma, mb) =
    (deriv_seq_iff c a b w).1 (inr (nullable_complete a [] refl ma, deriv_complete c b w v (cc) mb))
deriv_complete c (seq a b) w u e (d ∷ x, v, p, ma, mb) =
    let (dc, q) = cons_split d x v (sym e ∙ p) in
    (deriv_seq_iff c a b w).1
      (inl (x, v, q, deriv_complete c a x (d ∷ x) (ap (λ t. t ∷ x) dc) ma, mb))
deriv_complete c (alt a b) w u e (inl m) =
    (alt'_iff (deriv c a) (deriv c b) w).1 (inl (deriv_complete c a w u e m))
deriv_complete c (alt a b) w u e (inr m) =
    (alt'_iff (deriv c a) (deriv c b) w).1 (inr (deriv_complete c b w u e m))
deriv_complete c (star a) w u e m =
    let (x, y, q, ma, s) = Star-first c w m e in
    (seq'_iff (deriv c a) (star a) w).1 (x, y, q, deriv_complete c a x (c ∷ x) refl ma, s)

-- The matcher accepts the texts that the expression describes, and no others.
pub full_match_iff : (r : Regex) (w : Text) → (full_match r w ≡ true) ↔ Matches r w
unfolding full_match
full_match_iff r [] = (nullable_sound r, nullable_complete r [] refl)
full_match_iff r (c ∷ w) =
    let (f, g) = full_match_iff (deriv c r) w in
    (λ h. deriv_sound c r w (f h), λ m. g (deriv_complete c r w (c ∷ w) refl m))

pub lit_iff : (t w : Text) → Matches (lit t) w ↔ (w ≡ t)
lit_iff [] w = (λ e. e, λ e. e)
lit_iff (c ∷ t) w = (
  λ (u, v, e, (d, h, p), m).
      let q : v ≡ t = (lit_iff t v).0 m in let dc : d ≡ c = (==_iff d c).0 h in cc,
  λ e. (c ∷ [], t, e, (c, (==_iff c c).1 refl, refl), (lit_iff t t).1 refl),
)

-- What `$` allows behind a match.
abbrev pub IsTail : Text → Type 0
IsTail e = (e ≡ []) ⊎ (e ≡ codes "\n")

-- An anchored search finds a whole match, with or without a newline behind it.
pub search_anchored_iff :
    (r : Regex) (w : Text)
    → (search_anchored r w ≡ true)
      ↔ ((u : Text) × (e : Text) × (w ≡ u ++ e) × Matches r u × IsTail e)
unfolding search_anchored
search_anchored_iff r w =
    let nl = seq r (lit (codes "\n")) in
    let either = ||_iff (full_match r w) (full_match nl w) in
    (
      λ h. elim (either.0 h) [
        | inl m ↦ (w, [], sym (append-nil w), (full_match_iff r w).0 m, inl refl)
        | inr m ↦
            let (u, v, p, mu, mv) = (full_match_iff nl w).0 m in
            (u, v, p, mu, inr ((lit_iff (codes "\n") v).0 mv))
      ],
      λ (u, e, p, m, tail). either.1 (elim tail [
        | inl q ↦
            let same : w ≡ u = p ∙ ap (λ t. u ++ t) q ∙ append-nil u in
            inl ((full_match_iff r w).1 (subst (Matches r) (sym same) m))
        | inr q ↦ inr ((full_match_iff nl w).1 (u, e, p, m, (lit_iff (codes "\n") e).1 q))
      ]),
    )
