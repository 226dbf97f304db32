-- ===== src/Core/WhatsUp/Paths.antt =====
-- What the counts of paths count.
use pmfuzz.Base.{
  ℕ, suc, zero, Bool, false, not, ◌&&◌, ◌||◌, List, [], ◌∷◌, ◌≡◌, inl, inr, refl, sym, ap, ◌∙◌,
  arith, if◌then◌else◌, ◌==◌, Text, length, keep, All, Option, none, some, ok, Bool-cases,
}
use pmfuzz.NameHandler.Patterns.{is_map}
use pmfuzz.Stages.Folder.{Folder, names, get}
use pmfuzz.Core.WhatsUp.{
  BitArrays, cumulate, get_cumulative_map, combine_maps, combine_rest, count_bytes, count_tuples,
  get_inclusive_map, total, get_total_paths,
}

-- Whether a tuple of a map was hit: whether its byte is not 0.
abbrev pub hit : ℕ → List ℕ → Bool
hit i [] = false
hit zero (byte ∷ bytes) = not (byte == 0)
hit (suc i) (byte ∷ bytes) = hit i bytes

-- The numbers below a bound that pass a test.
abbrev pub count_below : ℕ → (ℕ → Bool) → ℕ
count_below zero p = 0
count_below (suc n) p = let rest = count_below n (λ i. p (suc i)) in if p 0 then suc rest else rest

count_bytes_below :
    (bytes : List ℕ) → count_bytes bytes ≡ count_below (length bytes) (λ i. hit i bytes)
count_bytes_below [] = refl
count_bytes_below (byte ∷ bytes) = elim (Bool-cases (byte == 0)) [
  | inl e ↦ rw e (count_bytes_below bytes)
  | inr e ↦ rw e (ap suc (count_bytes_below bytes))
]

count_below_same :
    (n : ℕ) (p q : ℕ → Bool) → ((i : ℕ) → p i ≡ q i) → count_below n p ≡ count_below n q
count_below_same zero p q h = refl
count_below_same (suc n) p q h =
    rw (h 0, count_below_same n (λ i. p (suc i)) (λ i. q (suc i)) (λ i. h (suc i))) refl

-- What the package documents: arrays of one length have a union, which has this length and hits what
-- one of them hits.
abbrev pub HasUnion : BitArrays → Type 0
HasUnion b =
    (x y : b.Bits)
    → length (b.tobytes x) ≡ length (b.tobytes y)
    → (u : b.Bits) × (b.union x y ≡ ok u)
      × (length (b.tobytes u) ≡ length (b.tobytes x))
      × ((i : ℕ) → hit i (b.tobytes u) ≡ (hit i (b.tobytes x) || hit i (b.tobytes y)))

-- The map of a file is there and has a size.
abbrev pub HasMap : BitArrays → Folder → (Text → Text) → ℕ → Text → Type 0
HasMap b dir rename size f =
    (content : Text) × (get (rename f) dir ≡ some content)
    × (length (b.tobytes (b.fromfile content)) ≡ size)

abbrev hit_content : BitArrays → ℕ → Option Text → Bool
hit_content b i none = false
hit_content b i (some content) = hit i (b.tobytes (b.fromfile content))

-- Whether one of the maps hits a tuple.
abbrev pub any_hits : BitArrays → Folder → (Text → Text) → List Text → ℕ → Bool
any_hits b dir rename [] i = false
any_hits b dir rename (f ∷ fs) i =
    hit_content b i (get (rename f) dir) || any_hits b dir rename fs i

abbrev HasSize : (b : BitArrays) → ℕ → Option b.Bits → Type 0
HasSize b size none = Unit
HasSize b size (some m) = length (b.tobytes m) ≡ size

abbrev hits : (b : BitArrays) → ℕ → Option b.Bits → Bool
hits b i none = false
hits b i (some m) = hit i (b.tobytes m)

or_assoc : (x y z : Bool) → ((x || y) || z) ≡ (x || (y || z))
or_assoc x y z = ground arith

module _ (b : BitArrays) (unions : HasUnion b) (size : ℕ) where
  cumulate_lem :
      (dir : Folder) (rename : Text → Text) (fs : List Text) (m : b.Bits)
      → length (b.tobytes m) ≡ size
      → All (HasMap b dir rename size) fs
      → (u : b.Bits) × (cumulate b dir rename fs (some m) ≡ ok (some u))
        × (length (b.tobytes u) ≡ size)
        × ((i : ℕ) → hit i (b.tobytes u) ≡ (hit i (b.tobytes m) || any_hits b dir rename fs i))
  unfolding cumulate
  cumulate_lem dir rename [] m k hs = (m, refl, k, λ i. ground arith)
  cumulate_lem dir rename (f ∷ fs) m k ((content, there, same), hs) =
      let (v, e, l, at) = unions m (b.fromfile content) (k ∙ sym same) in
      let (u, e', l', at') = cumulate_lem dir rename fs v (l ∙ k) hs in
      (
        u,
        rw (there, e) e',
        l',
        λ i.
            at' i
            ∙ rw (at i, there)
                (or_assoc (hit i (b.tobytes m)) (hit i (b.tobytes (b.fromfile content)))
                  (any_hits b dir rename fs i)),
      )

  from_none :
      (dir : Folder) (rename : Text → Text) (fs : List Text)
      → All (HasMap b dir rename size) fs
      → (o : Option b.Bits) × (cumulate b dir rename fs none ≡ ok o)
        × HasSize b size o
        × ((i : ℕ) → hits b i o ≡ any_hits b dir rename fs i)
  unfolding cumulate
  from_none dir rename [] hs = (none, refl, tt, λ i. refl)
  from_none dir rename (f ∷ fs) ((content, there, same), hs) =
      let (u, e, l, at) = cumulate_lem dir rename fs (b.fromfile content) same hs in
      (some u, rw there e, l, λ i. at i ∙ rw there refl)

  merged :
      (m : b.Bits) (o : Option b.Bits)
      → length (b.tobytes m) ≡ size
      → HasSize b size o
      → (u : b.Bits) × (combine_rest b (some m) (o ∷ []) ≡ ok (some u))
        × (length (b.tobytes u) ≡ size)
        × ((i : ℕ) → hit i (b.tobytes u) ≡ (hit i (b.tobytes m) || hits b i o))
  unfolding combine_rest
  merged m none k l = (m, refl, k, λ i. ground arith)
  merged m (some n) k l =
      let (u, e, same, at) = unions m n (k ∙ sym l) in (u, rw e refl, same ∙ k, at)

  inclusive :
      (stage : ℕ) (dir : Folder) (filt : Text → Bool) (rename : Text → Text)
      → All (HasMap b dir rename size) (keep filt (names dir))
      → (o : Option b.Bits) × (get_inclusive_map b stage dir filt rename ≡ ok o)
        × HasSize b size o
        × ((i : ℕ)
            → hits b i o ≡ (not (stage == 1) && any_hits b dir rename (keep filt (names dir)) i))
  unfolding get_inclusive_map get_cumulative_map
  inclusive stage dir filt rename hs = elim (Bool-cases (stage == 1)) [
    | inl e ↦ (none, rw e refl, tt, λ i. rw e refl)
    | inr e ↦
        let (o, made, sized, at) = from_none dir rename (keep filt (names dir)) hs in
        (o, rw e made, sized, λ i. at i ∙ rw e refl)
  ]

  total_lem :
      (dedup testcase_d : Folder) (stage : ℕ) (filt : Text → Bool) (rename : Text → Text) (f : Text)
      (fs : List Text)
      → keep filt (names dedup) ≡ f ∷ fs
      → All (HasMap b dedup rename size) (f ∷ fs)
      → All (HasMap b testcase_d rename size) (keep filt (names testcase_d))
      → total b dedup stage testcase_d filt rename
        ≡ ok (
            count_below size (λ i.
              any_hits b dedup rename (f ∷ fs) i
              || (not (stage == 1)
                  && any_hits b testcase_d rename (keep filt (names testcase_d)) i)))
  unfolding total get_cumulative_map cumulate combine_maps count_tuples
  total_lem dedup testcase_d stage filt rename f fs listed ((content, there, same), hs) ks =
      let (m, e, k, at) = cumulate_lem dedup rename fs (b.fromfile content) same hs in
      let (o, e', sized, at') = inclusive stage testcase_d filt rename ks in
      let (u, e'', l, at'') = merged m o k sized in
      let count : count_bytes (b.tobytes u)
          ≡ count_below size (λ i.
            any_hits b dedup rename (f ∷ fs) i
            || (not (stage == 1)
                && any_hits b testcase_d rename (keep filt (names testcase_d)) i)) =
        count_bytes_below (b.tobytes u)
        ∙ ap (λ n. count_below n (λ i. hit i (b.tobytes u))) l
        ∙ count_below_same size _ _ (λ i. at'' i ∙ rw (at i, at' i, there) refl) in
      let run : total b dedup stage testcase_d filt rename ≡ ok (count_bytes (b.tobytes u)) =
        rw (listed, there, e, e', e'') refl in
      run ∙ ap ok count

  -- Where all maps are there and of one size, and the global store has one, `get_total_paths` does not
  -- fail, and it is the number of tuples that a map of the global store hits, or one of the iteration that is
  -- running, unless this is stage 1.
  pub get_total_paths_lem :
      (dedup testcase_d : Folder) (stage : ℕ) (f : Text) (fs : List Text)
      → keep is_map (names dedup) ≡ f ∷ fs
      → All (HasMap b dedup (λ fname. fname) size) (f ∷ fs)
      → All (HasMap b testcase_d (λ fname. fname) size) (keep is_map (names testcase_d))
      → get_total_paths b dedup stage testcase_d
        ≡ ok (
            count_below size (λ i.
              any_hits b dedup (λ fname. fname) (f ∷ fs) i
              || (not (stage == 1)
                  && any_hits b testcase_d (λ fname. fname) (keep is_map (names testcase_d)) i)))
  unfolding get_total_paths
  get_total_paths_lem dedup testcase_d stage f fs listed hs ks =
      total_lem dedup testcase_d stage is_map (λ fname. fname) f fs listed hs ks
