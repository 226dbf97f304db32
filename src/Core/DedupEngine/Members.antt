-- ===== src/Core/DedupEngine/Members.antt =====
-- What the groups of the map of hashes hold, and which of them the engine drops.
use mathlib.Core.Path.{subst}
use pmfuzz.Base.{
  ℕ, ◌≤◌, ◌<◌, false, List, [], ◌∷◌, ◌++◌, ◌≡◌, inl, inr, refl, sym, ap, ◌∙◌, Text, text_eq,
  text_eq_refl, text_eq_iff, contains, keep, append-nil, All, All-append, map, Result, ok, err,
  Bool-cases,
}
use pmfuzz.NameHandler.Lineage.{ancestor_cnt}
use pmfuzz.NameHandler.Lineage.Laws.{ancestor_cnt-file_name}
use pmfuzz.Core.DedupEngine.{Files, HashMap, add_hash, hash_all, drop_oldest}
use pmfuzz.Core.DedupEngine.Oldest.{drop_oldest_lem}
use pmfuzz.Core.DedupEngine.Groups.{group_of, keys_of, Hashed}
use pmfuzz.Core.DedupEngine.Deleting.{Found, IsFound, path_of}

-- The number of ancestors that the engine compares.
abbrev pub or_zero : Result ℕ → ℕ
or_zero (ok n) = n
or_zero (err e) = 0

abbrev pub ancestors : Text → ℕ
ancestors p = or_zero (ancestor_cnt p)

or_zero_ok : (r : Result ℕ) (n : ℕ) → r ≡ ok n → r ≡ ok (or_zero r)
or_zero_ok (ok m) n e = refl
or_zero_ok (err e) n f = cc

ancestors-path_of : (f : Found) → IsFound f → ancestor_cnt (path_of f) ≡ ok (ancestors (path_of f))
ancestors-path_of f (hd, hn) =
    or_zero_ok (ancestor_cnt (path_of f)) _ (ancestor_cnt-file_name f.dir f.name f.kind hd hn)

ancestors-All :
    (fs : List Found)
    → All IsFound fs
    → All (λ y. ancestor_cnt y ≡ ok (ancestors y)) (map path_of fs)
ancestors-All [] h = tt
ancestors-All (f ∷ fs) (h, hs) = (ancestors-path_of f h, ancestors-All fs hs)

-- The second list is the first without the first of those that have the fewest ancestors.
abbrev pub AllButOldest : List Text → List Text → Type 0
AllButOldest [] dropped = dropped ≡ []
AllButOldest (t ∷ ts) dropped =
    (pre : List Text) × (x : Text) × (post : List Text) × (t ∷ ts ≡ pre ++ (x ∷ post))
    × (dropped ≡ pre ++ post)
    × All (λ y. ancestors x < ancestors y) pre
    × All (λ y. ancestors x ≤ ancestors y) post

-- A list of paths that is split comes from files that are split.
split_paths :
    (fs : List Found) (pre : List Text) (x : Text) (post : List Text)
    → All IsFound fs
    → map path_of fs ≡ pre ++ (x ∷ post)
    → (gs : List Found) × (map path_of gs ≡ pre ++ post) × All IsFound gs
split_paths [] [] x post h e = cc
split_paths [] (q ∷ pre) x post h e = cc
split_paths (f ∷ fs) [] x post (h, hs) e = (fs, cc, hs)
split_paths (f ∷ fs) (q ∷ pre) x post (h, hs) e =
    let (gs, same, found) = split_paths fs pre x post hs (cc) in (f ∷ gs, cc, (h, found))

pub dropped_of :
    (f : Found) (fs : List Found)
    → All IsFound (f ∷ fs)
    → (gs : List Found) × (drop_oldest (map path_of (f ∷ fs)) ≡ ok (map path_of gs))
      × All IsFound gs
      × AllButOldest (map path_of (f ∷ fs)) (map path_of gs)
dropped_of f fs h =
    let (pre, x, post, split, dropped, above, rest) =
      drop_oldest_lem ancestors (path_of f) (map path_of fs) (ancestors-All (f ∷ fs) h) in
    let (gs, same, found) = split_paths (f ∷ fs) pre x post h split in
    (gs, dropped ∙ ap ok (sym same), found, (pre, x, post, split, same, above, rest))

module _ (hash : Text → Text) where
  -- Files of testcases, at least one, with one hash.
  abbrev pub IsGroup : Text × List Text → Type 0
  IsGroup (k, tcs) =
      (f : Found) × (fs : List Found) × (tcs ≡ map path_of (f ∷ fs))
      × All IsFound (f ∷ fs)
      × All (λ t. hash t ≡ k) tcs

  map-snoc :
      (fs : List Found) (g : Found)
      → map path_of (fs ++ (g ∷ [])) ≡ map path_of fs ++ (path_of g ∷ [])
  map-snoc [] g = refl
  map-snoc (f ∷ fs) g = ap (◌∷◌ (path_of f)) (map-snoc fs g)

  add_hash-IsGroup :
      (g : Found) (groups : HashMap)
      → IsFound g
      → All IsGroup groups
      → All IsGroup (add_hash (hash (path_of g)) (path_of g) groups)
  unfolding add_hash
  add_hash-IsGroup g [] h gs = ((g, [], refl, (h, tt), (refl, tt)), tt)
  add_hash-IsGroup g ((k, tcs) ∷ groups) h ((f, fs, same, found, hashes), gs) =
      elim (Bool-cases (text_eq (hash (path_of g)) k)) [
        | inl e ↦ rw e (
          (
            f,
            fs ++ (g ∷ []),
            ap (λ ts. ts ++ (path_of g ∷ [])) same ∙ sym (ap (◌∷◌ (path_of f)) (map-snoc fs g)),
            (found.0, All-append IsFound fs (g ∷ []) found.1 (h, tt)),
            All-append (λ t. hash t ≡ k) tcs (path_of g ∷ []) hashes
                ((text_eq_iff (hash (path_of g)) k).0 e, tt),
          ),
          gs,
        )
        | inr e ↦ rw e ((f, fs, same, found, hashes), add_hash-IsGroup g groups h gs)
      ]

  module _ (sha256 : Text → Text) (files : Files) where
    pub hash_all-IsGroup :
        (fs : List Found) (groups : HashMap)
        → All IsFound fs
        → All (Hashed sha256 files hash) (map path_of fs)
        → All IsGroup groups
        → (after : HashMap) × (hash_all sha256 files (map path_of fs) groups ≡ ok after)
          × All IsGroup after
    unfolding hash_all
    hash_all-IsGroup [] groups h s gs = (groups, refl, gs)
    hash_all-IsGroup (f ∷ fs) groups (h, hs) ((content, there, digest), ss) gs =
        let (after, e, k) =
          hash_all-IsGroup fs (add_hash (hash (path_of f)) (path_of f) groups) hs ss
            (add_hash-IsGroup f groups h gs) in
        (after, rw (there, digest) e, k)

  -- Of the files with a hash, all that have another are left out.
  keep_same :
      (k : Text) (ts : List Text)
      → All (λ t. hash t ≡ k) ts
      → keep (λ t. text_eq k (hash t)) ts ≡ ts
  unfolding keep
  keep_same k [] h = refl
  keep_same k (t ∷ ts) (h, hs) = rw (h, text_eq_refl k) (ap (◌∷◌ t) (keep_same k ts hs))

  keep_other :
      (key k : Text) (ts : List Text)
      → text_eq key k ≡ false
      → All (λ t. hash t ≡ k) ts
      → keep (λ t. text_eq key (hash t)) ts ≡ []
  unfolding keep
  keep_other key k [] e h = refl
  keep_other key k (t ∷ ts) e (h, hs) = rw (h, e) (keep_other key k ts e hs)

  All-without :
      (k : Text) (pre : List Text) (x : Text) (post : List Text)
      → All (λ t. hash t ≡ k) (pre ++ (x ∷ post))
      → All (λ t. hash t ≡ k) (pre ++ post)
  All-without k [] x post (h, hs) = hs
  All-without k (q ∷ pre) x post (h, hs) = (h, All-without k pre x post hs)

  keep-append :
      (key : Text) (ts us : List Text)
      → keep (λ t. text_eq key (hash t)) (ts ++ us)
        ≡ keep (λ t. text_eq key (hash t)) ts ++ keep (λ t. text_eq key (hash t)) us
  unfolding keep
  keep-append key [] us = refl
  keep-append key (t ∷ ts) us = elim (Bool-cases (text_eq key (hash t))) [
    | inl e ↦ rw e (ap (◌∷◌ t) (keep-append key ts us))
    | inr e ↦ rw e (keep-append key ts us)
  ]

  group_of_absent :
      (key : Text) (groups : HashMap)
      → contains (keys_of groups) key ≡ false
      → group_of key groups ≡ []
  unfolding contains
  group_of_absent key [] h = refl
  group_of_absent key ((k, tcs) ∷ groups) h = elim (Bool-cases (text_eq key k)) [
    | inl e ↦ cc (h, e)
    | inr e ↦ rw e (group_of_absent key groups (rw e at h))
  ]

  -- The files of one hash are those of the first group, or of the later ones.
  pub choose :
      (key k : Text) (tcs ds es : List Text) (groups : HashMap)
      → contains (keys_of groups) k ≡ false
      → All (λ t. hash t ≡ k) ds
      → AllButOldest tcs ds
      → AllButOldest (group_of key groups) (keep (λ t. text_eq key (hash t)) es)
      → AllButOldest
          (group_of key ((k, tcs) ∷ groups))
          (keep (λ t. text_eq key (hash t)) (ds ++ es))
  choose key k tcs ds es groups absent hashes first later = elim (Bool-cases (text_eq key k)) [
    | inl e ↦
        let same : key ≡ k = (text_eq_iff key k).0 e in
        let none_later : keep (λ t. text_eq key (hash t)) es ≡ [] =
          rw (group_of_absent key groups (ap (contains (keys_of groups)) same ∙ absent)) at later in
        let kept : keep (λ t. text_eq key (hash t)) ds ≡ ds = rw same (keep_same k ds hashes) in
        rw (e, keep-append key ds es, none_later, kept, append-nil) first
    | inr e ↦ rw (e, keep-append key ds es, keep_other key k ds e hashes) later
  ]

  pub hashes_of :
      (k : Text) (t : Text) (ts ds : List Text)
      → All (λ u. hash u ≡ k) (t ∷ ts)
      → AllButOldest (t ∷ ts) ds
      → All (λ u. hash u ≡ k) ds
  hashes_of k t ts ds h (pre, x, post, split, dropped, _, _) =
      rw dropped (All-without k pre x post (subst (All (λ u. hash u ≡ k)) split h))
