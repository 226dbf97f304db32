-- ===== src/Stages/Stage2/Terminating/Orders.antt =====
-- What does not depend on the order of a list: the texts that it has, that no text stands in it twice,
-- and what holds of all elements.
use mathlib.Core.Path.{subst}
use mathlib.Core.List.{Permᴰ}
use pmfuzz.Base.{
  false, List, ◌≡◌, refl, sym, ◌∙◌, arith, Text, text_eq, text_eq_sym, contains, Distinct, map, All,
}

module _ {ℓ κ} {A : Type ℓ} (P : A → Type κ) where
  pub All-Perm : {xs ys : List A} → Permᴰ xs ys → All P ys → All P xs
  All-Perm Permᴰ.nil h = h
  All-Perm (Permᴰ.cons e p) (h, hs) = (subst P (sym e) h, All-Perm p hs)
  All-Perm (Permᴰ.swap e f) (h, (k, hs)) = (subst P (sym e) k, (subst P (sym f) h, hs))
  All-Perm (Permᴰ.trans p q) h = All-Perm p (All-Perm q h)

module _ {ℓ} {A : Type ℓ} (key : A → Text) where
  pub contains-Perm :
      (x : Text) {xs ys : List A} → Permᴰ xs ys → contains (map key xs) x ≡ contains (map key ys) x
  unfolding contains
  contains-Perm x Permᴰ.nil = refl
  contains-Perm x (Permᴰ.cons e p) = rw (e, contains-Perm x p) refl
  contains-Perm x (Permᴰ.swap e f) = rw (e, f) (ground arith)
  contains-Perm x (Permᴰ.trans p q) = contains-Perm x p ∙ contains-Perm x q

  pub Distinct-Perm : {xs ys : List A} → Permᴰ xs ys → Distinct (map key ys) → Distinct (map key xs)
  unfolding contains
  Distinct-Perm Permᴰ.nil d = d
  Distinct-Perm (Permᴰ.cons {a} {b} e p) (absent, d) =
      (rw (e, contains-Perm (key b) p) absent, Distinct-Perm p d)
  Distinct-Perm (Permᴰ.swap {a} {b} {a'} {b'} e f) (absent, (absent', d)) =
      let apart : text_eq (key b') (key a') ≡ false =
        text_eq_sym (key b') (key a') ∙ ground arith in
      (rw (e, f, apart) absent', (rw f (ground arith), d))
  Distinct-Perm (Permᴰ.trans p q) d = Distinct-Perm p (Distinct-Perm q d)
