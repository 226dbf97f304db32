-- ===== src/Stages/CrashImages/Keys.antt =====
-- The keys of the hash files in the database of crash sites, and the only file with a key.
use pmfuzz.Base.{
  true, List, [], ◌∷◌, ◌++◌, ◌≡◌, inl, inr, refl, ◌⊎◌, append_assoc, sym, ap, ◌∙◌, arith, Text,
  codes, text_eq, text_eq_iff, text_eq_refl, contains, map, All, none, some, Bool-cases,
}
use pmfuzz.Str.{replace, replace_from, starts_with}
use pmfuzz.Str.Number.{strip}
use pmfuzz.NameHandler.Grammar.{Name, IsName, render, render_end}
use pmfuzz.NameHandler.Grammar.Search.{replace-render}
use pmfuzz.NameHandler.Metadata.Apart.{site_of}
use pmfuzz.Stages.Folder.{Folder, get}
use pmfuzz.Stages.Hashes.{hash_k}
use pmfuzz.Stages.Hashes.Laws.{last_hash}
use pmfuzz.Stages.CrashImages.Processing.{crash_of}
use pmfuzz.Stages.CrashImages.Compressing.{NewImage, hash_file}

-- The key of a hash file, and that which the deduplication looks up for a crash site, are the crash
-- site without its ending.
pub key_of_hash : (n : Name) → IsName n → hash_k (crash_of n ++ codes ".hash") ≡ crash_of n
unfolding replace replace_from starts_with
key_of_hash n h =
    ap hash_k (
      ap (λ t. t ++ codes ".hash") (render_end n (codes ".crash_site"))
      ∙ append_assoc (render n []) (codes ".crash_site") (codes ".hash")
      ∙ sym (render_end n (codes ".crash_site.hash")))
    ∙ replace-render b'h' (codes "ash") refl [] n (codes ".crash_site.hash") h

pub key_of_site : (n : Name) → IsName n → replace (site_of n) (codes ".tar.gz") [] ≡ crash_of n
unfolding replace replace_from starts_with
key_of_site n h = replace-render b't' (codes "ar.gz") refl [] n (codes ".crash_site.tar.gz") h

-- The only hash file with a key gives the hash.
module _ (dir : Folder) (k f₀ content : Text) (there : get f₀ dir ≡ some content) where
  last_hash_any :
      (fs : List Text)
      → All (λ f. text_eq k (hash_k f) ≡ true → f ≡ f₀) fs
      → (last_hash dir k fs ≡ none) ⊎ (last_hash dir k fs ≡ some (strip content))
  last_hash_any [] only = inl refl
  last_hash_any (f ∷ fs) (one, only) = elim (Bool-cases (text_eq k (hash_k f))) [
    | inl e ↦
        let here : get f dir ≡ some content = ap (λ t. get t dir) (one e) ∙ there in
        elim (last_hash_any fs only) [
          | inl q ↦ inr (rw (q, e, here) refl)
          | inr q ↦ inr (rw q refl)
        ]
    | inr e ↦ elim (last_hash_any fs only) [
      | inl q ↦ inl (rw (q, e) refl)
      | inr q ↦ inr (rw q refl)
    ]
  ]

  pub last_hash_only :
      (fs : List Text)
      → hash_k f₀ ≡ k
      → All (λ f. text_eq k (hash_k f) ≡ true → f ≡ f₀) fs
      → contains fs f₀ ≡ true
      → last_hash dir k fs ≡ some (strip content)
  unfolding contains
  last_hash_only [] key only h = cc
  last_hash_only (f ∷ fs) key (one, only) h = elim (Bool-cases (text_eq f₀ f)) [
    | inl e ↦
        let same : f₀ ≡ f = (text_eq_iff f₀ f).0 e in
        let own : text_eq k (hash_k f) ≡ true =
          ap (λ t. text_eq k (hash_k t)) (sym same) ∙ ap (text_eq k) key ∙ text_eq_refl k in
        let here : get f dir ≡ some content = ap (λ t. get t dir) (sym same) ∙ there in
        elim (last_hash_any fs only) [ inl q ↦ rw (q, own, here) refl | inr q ↦ rw q refl ]
    | inr e ↦ rw (last_hash_only fs key only (ground arith)) refl
  ]

-- A hash file of a directory that had none before is that of an image, so its key tells it.
pub hash_name :
    (cs : List NewImage) (f : Text)
    → All (λ c. IsName c.name) cs
    → contains (map hash_file cs) f ≡ true
    → f ≡ hash_k f ++ codes ".hash"
unfolding contains
hash_name [] f h k = cc
hash_name (c ∷ cs) f (h, hs) k = elim (Bool-cases (text_eq f (hash_file c))) [
  | inl e ↦
      let same : f ≡ hash_file c = (text_eq_iff f (hash_file c)).0 e in
      same ∙ ap (λ t. t ++ codes ".hash") (sym (ap hash_k same ∙ key_of_hash c.name h))
  | inr e ↦ hash_name cs f hs (ground arith)
]
