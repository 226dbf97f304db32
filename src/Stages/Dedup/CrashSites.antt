-- ===== src/Stages/Dedup/CrashSites.antt =====
-- Which crash sites the local deduplication keeps.
use mathlib.Core.Path.{subst}
use pmfuzz.Base.{
  Distinct, text_eq_sym, Bool, true, false, not, ◌||◌, List, [], ◌∷◌, ◌≡◌, inl, inr, refl, sym, ap,
  ◌∙◌, arith, if◌then◌else◌, Text, codes, text_eq, text_eq_refl, contains, keep, map, All, Option,
  some, ok, Bool-cases,
}
use pmfuzz.Str.{replace}
use pmfuzz.Stages.Dedup.{files_to_drop}

keep-agree : (p q : Text → Bool) (xs : List Text) → All (λ x. p x ≡ q x) xs → keep p xs ≡ keep q xs
unfolding keep
keep-agree p q [] h = refl
keep-agree p q (x ∷ xs) (h, hs) = rw (h, keep-agree p q xs hs) refl

module _ (h : Text → Text) where
  -- The names whose hash was seen before, and the others.
  repeated : List Text → List Text → List Text
  repeated seen [] = []
  repeated seen (x ∷ xs) =
      let s = contains seen (h x) in
      let rest = repeated (if s then seen else h x ∷ seen) xs in if s then x ∷ rest else rest

  firsts : List Text → List Text → List Text
  firsts seen [] = []
  firsts seen (x ∷ xs) =
      let s = contains seen (h x) in
      let rest = firsts (if s then seen else h x ∷ seen) xs in if s then rest else x ∷ rest

  files_to_drop-repeated :
      (db : Text → Option Text) (seen xs : List Text)
      → All (λ x. db (replace x (codes ".tar.gz") []) ≡ some (h x)) xs
      → files_to_drop db seen xs ≡ ok (repeated seen xs)
  unfolding files_to_drop repeated
  files_to_drop-repeated db seen [] k = refl
  files_to_drop-repeated db seen (x ∷ xs) (k, ks) =
      rw (k, files_to_drop-repeated db (if contains seen (h x) then seen else h x ∷ seen) xs ks)
        refl

  repeated-contains :
      (seen xs : List Text) (y : Text)
      → contains xs y ≡ false
      → contains (repeated seen xs) y ≡ false
  unfolding repeated contains
  repeated-contains seen [] y k = refl
  repeated-contains seen (x ∷ xs) y k =
      let rest =
        repeated-contains (if contains seen (h x) then seen else h x ∷ seen) xs y (ground arith) in
      ground (arith, rest)

  apart : (x : Text) (xs : List Text) → contains xs x ≡ false → All (λ y. text_eq y x ≡ false) xs
  unfolding contains
  apart x [] k = tt
  apart x (y ∷ xs) k = (text_eq_sym y x ∙ ground arith, apart x xs (ground arith))

  not_there :
      (x : Text) (d xs : List Text)
      → All (λ y. text_eq y x ≡ false) xs
      → All (λ y. not (contains (x ∷ d) y) ≡ not (contains d y)) xs
  unfolding contains
  not_there x d [] k = tt
  not_there x d (y ∷ xs) (k, ks) = (rw k refl, not_there x d xs ks)

  -- One step of the two, by whether the hash was seen.
  repeated_seen :
      (seen : List Text) (x : Text) (xs : List Text)
      → contains seen (h x) ≡ true
      → (repeated seen (x ∷ xs) ≡ x ∷ repeated seen xs) × (firsts seen (x ∷ xs) ≡ firsts seen xs)
  unfolding repeated firsts
  repeated_seen seen x xs e = (rw e refl, rw e refl)

  repeated_new :
      (seen : List Text) (x : Text) (xs : List Text)
      → contains seen (h x) ≡ false
      → (repeated seen (x ∷ xs) ≡ repeated (h x ∷ seen) xs)
        × (firsts seen (x ∷ xs) ≡ x ∷ firsts (h x ∷ seen) xs)
  unfolding repeated firsts
  repeated_new seen x xs e = (rw e refl, rw e refl)

  abbrev kept_of : List Text → List Text → List Text
  kept_of xs dropped = keep (λ y. not (contains dropped y)) xs

  keep-repeated :
      (seen xs : List Text)
      → Distinct xs
      → keep (λ y. not (contains (repeated seen xs) y)) xs ≡ firsts seen xs
  unfolding keep firsts contains
  keep-repeated seen [] k = refl
  keep-repeated seen (x ∷ xs) (k, ks) = elim (Bool-cases (contains seen (h x))) [
    | inl e ↦
        let (r, f) = repeated_seen seen x xs e in
        let rest = repeated seen xs in
        ap (kept_of (x ∷ xs)) r
        ∙ rw (text_eq_refl x) (
            keep-agree (λ y. not (contains (x ∷ rest) y)) (λ y. not (contains rest y)) xs
              (not_there x rest xs (apart x xs k)))
        ∙ keep-repeated seen xs ks
        ∙ sym f
    | inr e ↦
        let (r, f) = repeated_new seen x xs e in
        ap (kept_of (x ∷ xs)) r
        ∙ rw (repeated-contains (h x ∷ seen) xs x k) (ap (◌∷◌ x) (keep-repeated (h x ∷ seen) xs ks))
        ∙ sym f
  ]

  unseen :
      (g : Text) (seen ys : List Text)
      → All (λ y. contains (g ∷ seen) (h y) ≡ false) ys
      → All (λ y. contains seen (h y) ≡ false) ys × (contains (map h ys) g ≡ false)
  unfolding contains
  unseen g seen [] k = (tt, refl)
  unseen g seen (y ∷ ys) (k, ks) =
      let (rest, none_of) = unseen g seen ys ks in
      ((ground arith, rest), ground (arith, text_eq_sym g (h y)))

  -- The first names have hashes that were not seen before, each of them once.
  firsts-Distinct :
      (seen xs : List Text)
      → All (λ y. contains seen (h y) ≡ false) (firsts seen xs) × Distinct (map h (firsts seen xs))
  unfolding firsts
  firsts-Distinct seen [] = (tt, tt)
  firsts-Distinct seen (x ∷ xs) = elim (Bool-cases (contains seen (h x))) [
    | inl e ↦ rw ((repeated_seen seen x xs e).1) (firsts-Distinct seen xs)
    | inr e ↦
        let (fresh, distinct) = firsts-Distinct (h x ∷ seen) xs in
        let (rest, absent) = unseen (h x) seen (firsts (h x ∷ seen) xs) fresh in
        rw ((repeated_new seen x xs e).1) ((e, rest), (absent, distinct))
  ]

  widen :
      (g : Text) (seen gs xs : List Text)
      → All (λ x. (contains (g ∷ seen) (h x) || contains gs (h x)) ≡ true) xs
      → All (λ x. (contains seen (h x) || contains (g ∷ gs) (h x)) ≡ true) xs
  unfolding contains
  widen g seen gs [] k = tt
  widen g seen gs (x ∷ xs) (k, ks) = (ground arith, widen g seen gs xs ks)

  abbrev Covers : List Text → List Text → List Text → Type 0
  Covers seen xs fs = All (λ x. (contains seen (h x) || contains (map h fs) (h x)) ≡ true) xs

  -- Every hash was seen before or is that of a first name.
  firsts-cover :
      (seen xs : List Text)
      → All (λ x. (contains seen (h x) || contains (map h (firsts seen xs)) (h x)) ≡ true) xs
  unfolding firsts contains
  firsts-cover seen [] = tt
  firsts-cover seen (x ∷ xs) = elim (Bool-cases (contains seen (h x))) [
    | inl e ↦
        subst (Covers seen (x ∷ xs)) (sym ((repeated_seen seen x xs e).1))
          (rw e refl, firsts-cover seen xs)
    | inr e ↦ subst (Covers seen (x ∷ xs)) (sym ((repeated_new seen x xs e).1)) (
      rw (text_eq_refl (h x)) (ground arith),
      widen (h x) seen _ xs (firsts-cover (h x ∷ seen) xs),
    )
  ]

-- Where the database has the hashes of all the names, the loop does not abort; the names that it does
-- not drop have all the hashes, each of them once.
pub files_to_drop-Distinct :
    (db : Text → Option Text) (h : Text → Text) (names : List Text)
    → All (λ x. db (replace x (codes ".tar.gz") []) ≡ some (h x)) names
    → Distinct names
    → (dropped : List Text) × (files_to_drop db [] names ≡ ok dropped)
      × Distinct (map h (keep (λ y. not (contains dropped y)) names))
      × All (λ x. contains (map h (keep (λ y. not (contains dropped y)) names)) (h x) ≡ true) names
unfolding contains
files_to_drop-Distinct db h names k d =
    let kept = keep-repeated h [] names d in
    (
      repeated h [] names,
      files_to_drop-repeated h db [] names k,
      subst (λ fs. Distinct (map h fs)) (sym kept) ((firsts-Distinct h [] names).1),
      subst (λ fs. All (λ x. contains (map h fs) (h x) ≡ true) names) (sym kept)
          (firsts-cover h [] names),
    )
