-- ===== src/Core/DedupEngine/Groups.antt =====
-- Which files the map of hashes puts together.
use pmfuzz.Base.{
  Distinct, text_eq_sym, Bool, true, false, List, [], ◌∷◌, ◌++◌, ◌≡◌, inl, inr, refl, sym, ap, ◌∙◌,
  arith, if◌then◌else◌, Text, text_eq, eq_of_text_eq, contains, keep, append_assoc, append-nil, All,
  some, ok, Bool-cases,
}
use pmfuzz.Core.DedupEngine.{Files, HashMap, add_hash, hash_all}

-- The group of a hash.
abbrev pub group_of : Text → HashMap → List Text
group_of key [] = []
group_of key ((k, tcs) ∷ groups) = if text_eq key k then tcs else group_of key groups

abbrev pub keys_of : HashMap → List Text
keys_of [] = []
keys_of ((k, _) ∷ groups) = k ∷ keys_of groups

-- A text is equal to the same texts as another that is equal to it.
text_eq_same : (s k key : Text) → text_eq s k ≡ true → text_eq key s ≡ text_eq key k
text_eq_same s k key e = ap (text_eq key) (eq_of_text_eq s k e)

text_eq_other :
    (s k key : Text) → text_eq s k ≡ false → text_eq key k ≡ true → text_eq key s ≡ false
text_eq_other s k key e f = text_eq_sym key s ∙ ap (text_eq s) (eq_of_text_eq key k f) ∙ e

group_of-add_hash :
    (key s t : Text) (groups : HashMap)
    → group_of key (add_hash s t groups)
      ≡ (if text_eq key s then group_of key groups ++ (t ∷ []) else group_of key groups)
unfolding add_hash
group_of-add_hash key s t [] = refl
group_of-add_hash key s t ((k, tcs) ∷ groups) = elim (Bool-cases (text_eq s k)) [
  | inl e ↦ elim (Bool-cases (text_eq key k)) [
    | inl f ↦ rw (e, text_eq_same s k key e, f) refl
    | inr f ↦ rw (e, text_eq_same s k key e, f) refl
  ]
  | inr e ↦ elim (Bool-cases (text_eq key k)) [
    | inl f ↦ rw (e, f, text_eq_other s k key e f) refl
    | inr f ↦ rw (e, f) (group_of-add_hash key s t groups)
  ]
]

grown :
    (b : Bool) (t : Text) (g ks : List Text)
    → (if b then g ++ (t ∷ []) else g) ++ ks ≡ g ++ (if b then t ∷ ks else ks)
grown true t g ks = append_assoc g (t ∷ []) ks
grown false t g ks = refl

contains-add_hash :
    (key s t : Text) (groups : HashMap)
    → contains (keys_of groups) key ≡ false
    → text_eq key s ≡ false
    → contains (keys_of (add_hash s t groups)) key ≡ false
unfolding add_hash contains
contains-add_hash key s t [] h e = ground arith
contains-add_hash key s t ((k, tcs) ∷ groups) h e =
    let rest = contains-add_hash key s t groups (ground arith) e in
    elim (Bool-cases (text_eq s k)) [ inl f ↦ rw f h | inr f ↦ rw f (ground (arith, rest)) ]

add_hash-Distinct :
    (s t : Text) (groups : HashMap)
    → Distinct (keys_of groups)
    → Distinct (keys_of (add_hash s t groups))
unfolding add_hash contains
add_hash-Distinct s t [] h = (refl, tt)
add_hash-Distinct s t ((k, tcs) ∷ groups) (h, hs) = elim (Bool-cases (text_eq s k)) [
  | inl f ↦ rw f (h, hs)
  | inr f ↦
      rw f (contains-add_hash k s t groups h (text_eq_sym k s ∙ f), add_hash-Distinct s t groups hs)
]

module _ (sha256 : Text → Text) (files : Files) (hash : Text → Text) where
  -- The file is there and has this hash.
  abbrev pub Hashed : Text → Type 0
  Hashed tc = (content : Text) × (files tc ≡ some content) × (sha256 content ≡ hash tc)

  hash_all_from :
      (tcs : List Text) (groups : HashMap)
      → All Hashed tcs
      → Distinct (keys_of groups)
      → (after : HashMap) × (hash_all sha256 files tcs groups ≡ ok after)
        × Distinct (keys_of after)
        × ((key : Text)
            → group_of key after ≡ group_of key groups ++ keep (λ tc. text_eq key (hash tc)) tcs)
  unfolding hash_all keep
  hash_all_from [] groups h d = (groups, refl, d, λ key. sym (append-nil (group_of key groups)))
  hash_all_from (tc ∷ tcs) groups ((content, there, digest), hs) d =
      let next = add_hash (hash tc) tc groups in
      let (after, e, d', rest) =
        hash_all_from tcs next hs (add_hash-Distinct (hash tc) tc groups d) in
      (
        after,
        rw (there, digest) e,
        d',
        λ key.
            rest key
            ∙ ap (λ g. g ++ keep (λ x. text_eq key (hash x)) tcs)
                (group_of-add_hash key (hash tc) tc groups)
            ∙ grown (text_eq key (hash tc)) tc (group_of key groups)
                (keep (λ x. text_eq key (hash x)) tcs),
      )

  -- Where all files are there, the map has each hash once, and the group of a hash is the files with
  -- this hash, in order.
  pub hash_all-group_of :
      (tcs : List Text)
      → All Hashed tcs
      → (groups : HashMap) × (hash_all sha256 files tcs [] ≡ ok groups)
        × Distinct (keys_of groups)
        × ((key : Text) → group_of key groups ≡ keep (λ tc. text_eq key (hash tc)) tcs)
  hash_all-group_of tcs h = hash_all_from tcs [] h tt
