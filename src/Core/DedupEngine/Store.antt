-- ===== src/Core/DedupEngine/Store.antt =====
-- The store after deletions: one after another are one of all.
use pmfuzz.Base.{
  true, List, [], ◌∷◌, ◌++◌, ◌≡◌, inl, inr, refl, ap, ◌∙◌, arith, if◌then◌else◌, Text, codes,
  text_eq, text_eq_iff, contains, All, none, some, Bool-cases, ◌||◌,
}
use pmfuzz.Core.DedupEngine.{Files}
use pmfuzz.Core.DedupEngine.Endings.{last, last-render, last-in_dir-render}
use pmfuzz.Core.DedupEngine.Deleting.{
  Found, IsFound, belonging, placeholders, placeholder, belonging-last,
}

-- The store after the deletion of testcases.
abbrev pub IsDeleted : Text → List Found → Files → Files → Type 0
IsDeleted note fs files after =
    (p : Text)
    → after p ≡ (
        if contains (belonging fs) p
        then none
        else if contains (placeholders fs) p
        then some note
        else files p)

contains-append :
    (xs ys : List Text) (p : Text) → contains (xs ++ ys) p ≡ (contains xs p || contains ys p)
unfolding contains
contains-append [] ys p = refl
contains-append (x ∷ xs) ys p = ground (arith, contains-append xs ys p)

belonging-append :
    (fs gs : List Found) (p : Text)
    → contains (belonging (fs ++ gs)) p ≡ (contains (belonging fs) p || contains (belonging gs) p)
unfolding contains
belonging-append [] gs p = refl
belonging-append (f ∷ fs) gs p = ground (arith, belonging-append fs gs p)

placeholders-append :
    (fs gs : List Found) (p : Text)
    → contains (placeholders (fs ++ gs)) p
      ≡ (contains (placeholders fs) p || contains (placeholders gs) p)
unfolding contains
placeholders-append [] gs p = refl
placeholders-append (f ∷ fs) gs p = ground (arith, placeholders-append fs gs p)

placeholder_ends :
    (gs : List Found) (p : Text) → contains (placeholders gs) p ≡ true → last p ≡ b'd'
unfolding contains
placeholder_ends [] p h = cc
placeholder_ends (g ∷ gs) p h = elim (Bool-cases (text_eq p (placeholder g))) [
  | inl e ↦
      ap last ((text_eq_iff p (placeholder g)).0 e)
      ∙ last-in_dir-render g.dir g.name (codes ".deleted")
      ∙ last-render g.name b'.' (codes "deleted")
  | inr e ↦ placeholder_ends gs p (rw e at h)
]

-- Two deletions in a row are one of all.
pub IsDeleted-append :
    (note : Text) (fs gs : List Found) (files mid after : Files)
    → All IsFound fs
    → IsDeleted note fs files mid
    → IsDeleted note gs mid after
    → IsDeleted note (fs ++ gs) files after
IsDeleted-append note fs gs files mid after h first second p =
    elim (Bool-cases (contains (placeholders gs) p)) [
      | inl e ↦
          let free = belonging-last fs p h (placeholder_ends gs p e) in
          second p
          ∙ rw (belonging-append fs gs p, placeholders-append fs gs p, e, free) (ground arith)
      | inr e ↦
          second p
          ∙ rw (belonging-append fs gs p, placeholders-append fs gs p, e, first p) (ground arith)
    ]
