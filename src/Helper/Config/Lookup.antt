-- ===== src/Helper/Config/Lookup.antt =====
-- What the look-ups of a configuration find.
use pmfuzz.Base.{
  Bool, false, List, [], ◌∷◌, ◌++◌, ◌≡◌, inl, inr, refl, ap, ◌∙◌, if◌then◌else◌, ◌==◌, Text, codes,
  text_eq, text_eq_sym, eq_of_text_eq, All, some, ok, Bool-cases, ◌>>=◌,
}
use pmfuzz.Str.{split_at}
use pmfuzz.Str.Laws.{Uncut, split_at_whole, split_at_sep}
use pmfuzz.Helper.Config.{
  Value, Fields, text, dict, end, field, item, set_item, index, get_item, walk, get_direct,
  split_kv, get_env,
}

-- A name of keys, joined by dots.
abbrev pub dotted : Text → List Text → Text
dotted key [] = key
dotted key (k ∷ keys) = key ++ (b'.' ∷ dotted k keys)

-- No dot stands in a key.
abbrev pub IsKey : Text → Type 0
IsKey = Uncut (λ c. c == b'.')

split_at-dotted :
    (key : Text) (keys : List Text)
    → IsKey key
    → All IsKey keys
    → split_at (λ c. c == b'.') (dotted key keys) ≡ key ∷ keys
split_at-dotted key [] h hs = split_at_whole (λ c. c == b'.') key h
split_at-dotted key (k ∷ keys) h (hk, hs) =
    split_at_sep (λ c. c == b'.') key b'.' (dotted k keys) h refl
    ∙ ap (◌∷◌ key) (split_at-dotted k keys hk hs)

-- `get_direct` of keys joined by dots is the indexing by one key behind the other: a missing first key
-- aborts, as it does for `cfg[key]`, and any other is a KeyError.
pub get_direct-dotted :
    (cfg : Fields) (key : Text) (keys : List Text)
    → IsKey key
    → All IsKey keys
    → get_direct cfg (dotted key keys) ≡ (get_item cfg key >>= λ v. walk v keys)
unfolding get_direct
get_direct-dotted cfg key keys h hs = rw (split_at-dotted key keys h hs) refl

pub item-set_item :
    (k key : Text) (v : Value) (d : Fields)
    → item k (set_item key v d) ≡ (if text_eq k key then some v else item k d)
unfolding item set_item
item-set_item k key v end = refl
item-set_item k key v (field j w d) = elim (Bool-cases (text_eq key j)) [
  | inl e ↦
      rw (e, ap (text_eq k) (eq_of_text_eq key j e))
        (elim (Bool-cases (text_eq k j)) [ inl f ↦ rw f refl | inr f ↦ rw f refl ])
  | inr e ↦ elim (Bool-cases (text_eq k j)) [
    | inl f ↦
        let other : text_eq k key ≡ false =
          text_eq_sym k key ∙ ap (text_eq key) (eq_of_text_eq k j f) ∙ e in
        rw (e, f, other) refl
    | inr f ↦ rw (e, f) (item-set_item k key v d)
  ]
]

split_kv_lem :
    (name value : Text)
    → Uncut (λ c. c == b'=') name
    → Uncut (λ c. c == b'=') value
    → split_kv (text (name ++ (b'=' ∷ value))) ≡ ok (name, value)
unfolding split_kv
split_kv_lem name value h k =
    rw
      (
        split_at_sep (λ c. c == b'=') name b'=' value h refl,
        split_at_whole (λ c. c == b'=') value k,
      )
      refl

-- Where the target has an environment and, for persistence on or off, a setting `name=value`, the
-- environment for it has that value under that name, and all other variables as they are.
pub get_env_lem :
    (cfg target env : Fields) (persist : Bool) (name value : Text)
    → item (codes "target") cfg ≡ some (dict target)
    → item (codes "env") target ≡ some (dict env)
    → item (if persist then codes "persist_enable_env" else codes "persist_disable_env") target
      ≡ some (text (name ++ (b'=' ∷ value)))
    → Uncut (λ c. c == b'=') name
    → Uncut (λ c. c == b'=') value
    → (result : Fields) × (get_env cfg persist ≡ ok result)
      × ((k : Text) → item k result ≡ (if text_eq k name then some (text value) else item k env))
unfolding get_env index
get_env_lem cfg target env persist name value h e s hn hv = (
  set_item name (text value) env,
  rw (h, e, s, split_kv_lem name value hn hv) refl,
  λ k. item-set_item k name (text value) env,
)
