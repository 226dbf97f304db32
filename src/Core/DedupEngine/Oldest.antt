-- ===== src/Core/DedupEngine/Oldest.antt =====
-- Which file of a group the deduplication keeps.
use mathlib.Core.Path.{subst}
use pmfuzz.Base.{
  ℕ, ◌≤◌, ◌<◌, List, [], ◌∷◌, ◌++◌, ◌≡◌, ◌⊎◌, inl, inr, refl, sym, ap, ◌∙◌, arith, if◌then◌else◌,
  ltb, ◌==◌, ==_iff, Text, All, map, ok, Bool-cases,
}
use pmfuzz.NameHandler.Lineage.{ancestor_cnt}
use pmfuzz.Core.DedupEngine.{ancestor_cnts, min_of, index, delete_at, drop_oldest}

abbrev In : ℕ → List ℕ → Type 0
In m [] = ⊥
In m (n ∷ ns) = (n ≡ m) ⊎ In m ns

smaller : (m n : ℕ) → let k = if ltb m n then m else n in (k ≤ n) × (k ≤ m) × ((k ≡ n) ⊎ (k ≡ m))
smaller m n = ground arith

min_of-In : (n : ℕ) (ns : List ℕ) → In (min_of n ns) (n ∷ ns)
unfolding min_of
min_of-In n [] = inl refl
min_of-In n (m ∷ ns) = elim (min_of-In (if ltb m n then m else n) ns) [
  | inl e ↦ elim ((smaller m n).2) [ inl f ↦ inl (sym f ∙ e) | inr f ↦ inr (inl (sym f ∙ e)) ]
  | inr i ↦ inr (inr i)
]

min_of_least : (n : ℕ) (ns : List ℕ) → (min_of n ns ≤ n) × All (λ m. min_of n ns ≤ m) ns
unfolding min_of
min_of_least n [] = (omega arith, tt)
min_of_least n (m ∷ ns) =
    let (least, rest) = min_of_least (if ltb m n then m else n) ns in
    let (below_n, below_m, either) = smaller m n in
    (omega (arith, least, below_n), (omega (arith, least, below_m), rest))

module _ (c : Text → ℕ) where
  counts_of :
      (tcs : List Text)
      → All (λ f. ancestor_cnt f ≡ ok (c f)) tcs
      → ancestor_cnts tcs ≡ ok (map c tcs)
  unfolding ancestor_cnts
  counts_of [] h = refl
  counts_of (f ∷ fs) (h, hs) = rw (h, counts_of fs hs) refl

  -- The first file with a count, which none is below, splits the files.
  abbrev SplitAt : ℕ → List Text → Type 0
  SplitAt m tcs =
      (pre : List Text) × (x : Text) × (post : List Text) × (tcs ≡ pre ++ (x ∷ post))
      × (delete_at (index m (map c tcs)) tcs ≡ pre ++ post)
      × (c x ≡ m)
      × All (λ y. m < c y) pre
      × All (λ y. m ≤ c y) post

  split_first :
      (m : ℕ) (tcs : List Text) → In m (map c tcs) → All (λ y. m ≤ c y) tcs → SplitAt m tcs
  unfolding index delete_at
  split_first m [] i h = absurd i
  split_first m (f ∷ fs) i (h, hs) = elim (Bool-cases (c f == m)) [
    | inl e ↦ ([], f, fs, refl, rw e refl, (==_iff (c f) m).0 e, tt, hs)
    | inr e ↦
        let later : In m (map c fs) = elim i [ inl q ↦ ground arith | inr j ↦ j ] in
        let (pre, x, post, split, deleted, count, above, rest) = split_first m fs later hs in
        (
          f ∷ pre,
          x,
          post,
          ap (◌∷◌ f) split,
          rw e (ap (◌∷◌ f) deleted),
          count,
          (ground arith, above),
          rest,
        )
  ]

  All-map : (m : ℕ) (fs : List Text) → All (λ k. m ≤ k) (map c fs) → All (λ y. m ≤ c y) fs
  All-map m [] h = tt
  All-map m (f ∷ fs) (h, hs) = (h, All-map m fs hs)

  -- From a group whose files have names with a number of ancestors, one file is left out and the
  -- others stay in order: the first of those that have the fewest ancestors.
  pub drop_oldest_lem :
      (f : Text) (fs : List Text)
      → All (λ y. ancestor_cnt y ≡ ok (c y)) (f ∷ fs)
      → (pre : List Text) × (x : Text) × (post : List Text) × (f ∷ fs ≡ pre ++ (x ∷ post))
        × (drop_oldest (f ∷ fs) ≡ ok (pre ++ post))
        × All (λ y. c x < c y) pre
        × All (λ y. c x ≤ c y) post
  unfolding drop_oldest
  drop_oldest_lem f fs h =
      let ns = map c fs in
      let m = min_of (c f) ns in
      let (least, others) = min_of_least (c f) ns in
      let (pre, x, post, split, deleted, count, above, rest) =
        split_first m (f ∷ fs) (min_of-In (c f) ns) (least, All-map m fs others) in
      (
        pre,
        x,
        post,
        split,
        rw (counts_of (f ∷ fs) h) (ap ok deleted),
        subst (λ k. All (λ y. k < c y) pre) (sym count) above,
        subst (λ k. All (λ y. k ≤ c y) post) (sym count) rest,
      )
