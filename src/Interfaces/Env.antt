-- ===== src/Interfaces/Env.antt =====
-- The environments that interfaces/afl.py and interfaces/failureinjection.py put together.
use pmfuzz.Base.{
  true, false, ◌≡◌, inl, inr, refl, ap, ◌∙◌, Text, text_eq, text_eq_iff, text_eq_sym, Option, none,
  some, Bool-cases,
}
use pmfuzz.Helper.Config.{Value, Fields, end, field, item, set_item}
use pmfuzz.Helper.Config.Lookup.{item-set_item}

-- `env.update(other)`
unfoldable pub update : Fields → Fields → Fields
update env end = env
update env (field k v rest) = update (set_item k v env) rest

-- A dict has each key once.
unfoldable pub Once : Fields → Type 0
Once end = Unit {0}
Once (field k v rest) = (item k rest ≡ none) × Once rest

-- The first of two values that is there.
abbrev pub or_else : Option Value → Option Value → Option Value
or_else none later = later
or_else (some v) later = some v

absent_key :
    (k j : Text) (v : Value) (d : Fields) → text_eq k j ≡ true → item j d ≡ none → item k d ≡ none
absent_key k j v d e h = ap (λ t. item t d) ((text_eq_iff k j).0 e) ∙ h

-- The new variables go before the old ones.
pub item-update :
    (k : Text) (env d : Fields) → Once d → item k (update env d) ≡ or_else (item k d) (item k env)
unfolding item update Once
item-update k env end h = refl
item-update k env (field j v rest) (h, hs) = elim (Bool-cases (text_eq k j)) [
  | inl e ↦
      item-update k (set_item j v env) rest hs
      ∙ rw (absent_key k j v rest e h, item-set_item k j v env, e) refl
  | inr e ↦ item-update k (set_item j v env) rest hs ∙ rw (item-set_item k j v env, e) refl
]

absent-set_item :
    (k key : Text) (v : Value) (d : Fields)
    → text_eq k key ≡ false
    → item k d ≡ none
    → item k (set_item key v d) ≡ none
absent-set_item k key v d e h = item-set_item k key v d ∙ rw e h

pub set_item-Once : (key : Text) (v : Value) (d : Fields) → Once d → Once (set_item key v d)
unfolding item set_item Once
set_item-Once key v end h = (refl, tt)
set_item-Once key v (field k w rest) (h, hs) = elim (Bool-cases (text_eq key k)) [
  | inl e ↦ rw e (h, hs)
  | inr e ↦
      rw e (absent-set_item k key v rest (text_eq_sym k key ∙ e) h, set_item-Once key v rest hs)
]
