-- ===== src/Helper/Config/Keys.antt =====
-- The substitution of paths changes texts alone, and `check` does not see it.
use pmfuzz.Base.{
  List, [], ◌∷◌, ◌++◌, ◌≡◌, inl, inr, refl, sym, ap, ◌∙◌, if◌then◌else◌, Text, text_eq, Result, ok,
  Bool-cases,
}
use pmfuzz.Helper.Config.{
  Value, Items, Fields, null, bool, number, float, text, list, dict, nil, cons, end, field, Repl,
  translate, subs_path, subs_value, subs_items, subs_element, Flat, put_flat, update_flat,
  flatten_from, flatten_value, flatten_items, flatten_element, keys_of, check,
}

-- No list stands within a list.
unfoldable mutual
  pub IsPlain : Fields → Type 0
  IsPlain end = Unit
  IsPlain (field key v rest) = PlainValue v × IsPlain rest

  pub PlainValue : Value → Type 0
  PlainValue (dict d) = IsPlain d
  PlainValue (list xs) = PlainItems xs
  PlainValue null = Unit
  PlainValue (bool b) = Unit
  PlainValue (number n) = Unit
  PlainValue (float t) = Unit
  PlainValue (text t) = Unit

  pub PlainItems : Items → Type 0
  PlainItems nil = Unit
  PlainItems (cons v xs) = PlainElement v × PlainItems xs

  pub PlainElement : Value → Type 0
  PlainElement (dict d) = IsPlain d
  PlainElement (list xs) = ⊥
  PlainElement null = Unit
  PlainElement (bool b) = Unit
  PlainElement (number n) = Unit
  PlainElement (float t) = Unit
  PlainElement (text t) = Unit

-- Every text is translated, wherever it stands; all else is as it was.
unfoldable mutual
  pub translated : Repl → Fields → Fields
  translated repl end = end
  translated repl (field key v rest) = field key (translated_value repl v) (translated repl rest)

  pub translated_value : Repl → Value → Value
  translated_value repl (dict d) = dict (translated repl d)
  translated_value repl (list xs) = list (translated_items repl xs)
  translated_value repl (text t) = text (translate repl t)
  translated_value repl null = null
  translated_value repl (bool b) = bool b
  translated_value repl (number n) = number n
  translated_value repl (float t) = float t

  pub translated_items : Repl → Items → Items
  translated_items repl nil = nil
  translated_items repl (cons v xs) = cons (translated_value repl v) (translated_items repl xs)

mutual
  unfolding subs_path translated IsPlain

  subs_path-eq : (repl : Repl) (d : Fields) → IsPlain d → subs_path repl d ≡ ok (translated repl d)
  subs_path-eq repl end h = refl
  subs_path-eq repl (field key v rest) (h, hs) =
      rw (subs_value-eq repl v h, subs_path-eq repl rest hs) refl

  subs_value-eq :
      (repl : Repl) (v : Value) → PlainValue v → subs_value repl v ≡ ok (translated_value repl v)
  subs_value-eq repl (dict d) h = rw (subs_path-eq repl d h) refl
  subs_value-eq repl (list xs) h = rw (subs_items-eq repl xs h) refl
  subs_value-eq repl (text t) h = refl
  subs_value-eq repl null h = refl
  subs_value-eq repl (bool b) h = refl
  subs_value-eq repl (number n) h = refl
  subs_value-eq repl (float t) h = refl

  subs_items-eq :
      (repl : Repl) (xs : Items)
      → PlainItems xs
      → subs_items repl xs ≡ ok (translated_items repl xs)
  subs_items-eq repl nil h = refl
  subs_items-eq repl (cons v xs) (h, hs) =
      rw (subs_element-eq repl v h, subs_items-eq repl xs hs) refl

  subs_element-eq :
      (repl : Repl) (v : Value)
      → PlainElement v
      → subs_element repl v ≡ ok (translated_value repl v)
  subs_element-eq repl (dict d) h = rw (subs_path-eq repl d h) refl
  subs_element-eq repl (list xs) h = absurd h
  subs_element-eq repl (text t) h = refl
  subs_element-eq repl null h = refl
  subs_element-eq repl (bool b) h = refl
  subs_element-eq repl (number n) h = refl
  subs_element-eq repl (float t) h = refl

-- The keys after a write depend on the keys before.
add_key : Text → List Text → List Text
add_key key [] = key ∷ []
add_key key (k ∷ keys) =
    let later = add_key key keys in if text_eq key k then k ∷ keys else k ∷ later

keys_of-put_flat :
    (key : Text) (v : Value) (out : Flat) → keys_of (put_flat key v out) ≡ add_key key (keys_of out)
unfolding put_flat add_key
keys_of-put_flat key v [] = refl
keys_of-put_flat key v ((k, w) ∷ out) = elim (Bool-cases (text_eq key k)) [
  | inl e ↦ rw e refl
  | inr e ↦ rw e (ap (◌∷◌ k) (keys_of-put_flat key v out))
]

put_same :
    (key : Text) (v w : Value) (out out' : Flat)
    → keys_of out ≡ keys_of out'
    → keys_of (put_flat key v out) ≡ keys_of (put_flat key w out')
put_same key v w out out' e =
    keys_of-put_flat key v out ∙ ap (add_key key) e ∙ sym (keys_of-put_flat key w out')

update_same :
    (key : Text) (deeper deeper' out out' : Flat)
    → keys_of deeper ≡ keys_of deeper'
    → keys_of out ≡ keys_of out'
    → keys_of (update_flat key deeper out) ≡ keys_of (update_flat key deeper' out')
unfolding update_flat
update_same key [] [] out out' e f = f
update_same key [] ((k, v) ∷ deeper') out out' e f = cc
update_same key ((k, v) ∷ deeper) [] out out' e f = cc
update_same key ((k, v) ∷ deeper) ((k', v') ∷ deeper') out out' e f =
    let head : k ≡ k' = cc in
    let tail : keys_of deeper ≡ keys_of deeper' = cc in
    rw head (
      update_same key deeper deeper' (put_flat (key ++ (b'_' ∷ k')) v out)
        (put_flat (key ++ (b'_' ∷ k')) v' out') tail
        (put_same (key ++ (b'_' ∷ k')) v v' out out' f))

-- Both flattenings succeed, with the same keys.
abbrev SameKeys : Result Flat → Result Flat → Type 0
SameKeys r s = (a : Flat) × (b : Flat) × (r ≡ ok a) × (s ≡ ok b) × (keys_of a ≡ keys_of b)

put_SameKeys :
    (key : Text) (v w : Value) (out out' : Flat)
    → keys_of out ≡ keys_of out'
    → SameKeys (ok (put_flat key v out)) (ok (put_flat key w out'))
put_SameKeys key v w out out' e = (_, _, refl, refl, put_same key v w out out' e)

mutual
  unfolding flatten_from translated IsPlain

  flatten_from-SameKeys :
      (repl : Repl) (d : Fields) (out out' : Flat)
      → IsPlain d
      → keys_of out ≡ keys_of out'
      → SameKeys (flatten_from (translated repl d) out) (flatten_from d out')
  flatten_from-SameKeys repl end out out' h e = (out, out', refl, refl, e)
  flatten_from-SameKeys repl (field key v rest) out out' (h, hs) e =
      let (a, b, p, q, same) = flatten_value-SameKeys repl key v out out' h e in
      let (a', b', p', q', same') = flatten_from-SameKeys repl rest a b hs same in
      (a', b', rw p p', rw q q', same')

  flatten_value-SameKeys :
      (repl : Repl) (key : Text) (v : Value) (out out' : Flat)
      → PlainValue v
      → keys_of out ≡ keys_of out'
      → SameKeys (flatten_value key (translated_value repl v) out) (flatten_value key v out')
  flatten_value-SameKeys repl key (dict d) out out' h e =
      let (a, b, p, q, same) = flatten_from-SameKeys repl d [] [] h refl in
      (_, _, rw p refl, rw q refl, update_same key a b out out' same e)
  flatten_value-SameKeys repl key (list xs) out out' h e =
      flatten_items-SameKeys repl key xs out out' h e
  flatten_value-SameKeys repl key (text t) out out' h e =
      put_SameKeys key (text (translate repl t)) (text t) out out' e
  flatten_value-SameKeys repl key null out out' h e = put_SameKeys key null null out out' e
  flatten_value-SameKeys repl key (bool b) out out' h e =
      put_SameKeys key (bool b) (bool b) out out' e
  flatten_value-SameKeys repl key (number n) out out' h e =
      put_SameKeys key (number n) (number n) out out' e
  flatten_value-SameKeys repl key (float t) out out' h e =
      put_SameKeys key (float t) (float t) out out' e

  flatten_items-SameKeys :
      (repl : Repl) (key : Text) (xs : Items) (out out' : Flat)
      → PlainItems xs
      → keys_of out ≡ keys_of out'
      → SameKeys (flatten_items key (translated_items repl xs) out) (flatten_items key xs out')
  flatten_items-SameKeys repl key nil out out' h e = (out, out', refl, refl, e)
  flatten_items-SameKeys repl key (cons v xs) out out' (h, hs) e =
      let (a, b, p, q, same) = flatten_element-SameKeys repl key v out out' h e in
      let (a', b', p', q', same') = flatten_items-SameKeys repl key xs a b hs same in
      (a', b', rw p p', rw q q', same')

  flatten_element-SameKeys :
      (repl : Repl) (key : Text) (v : Value) (out out' : Flat)
      → PlainElement v
      → keys_of out ≡ keys_of out'
      → SameKeys (flatten_element key (translated_value repl v) out) (flatten_element key v out')
  flatten_element-SameKeys repl key (dict d) out out' h e =
      let (a, b, p, q, same) = flatten_from-SameKeys repl d [] [] h refl in
      (_, _, rw p refl, rw q refl, update_same key a b out out' same e)
  flatten_element-SameKeys repl key (list xs) out out' h e = absurd h
  flatten_element-SameKeys repl key (text t) out out' h e = (out, out', refl, refl, e)
  flatten_element-SameKeys repl key null out out' h e = (out, out', refl, refl, e)
  flatten_element-SameKeys repl key (bool b) out out' h e = (out, out', refl, refl, e)
  flatten_element-SameKeys repl key (number n) out out' h e = (out, out', refl, refl, e)
  flatten_element-SameKeys repl key (float t) out out' h e = (out, out', refl, refl, e)

-- On a configuration without lists within lists the substitution of paths does not fail, it translates
-- every text and leaves all else, and `check` says of the result what it says of the configuration,
-- whatever the base configuration is.
pub check-subs_path :
    (repl : Repl) (def_cfg parsed_cfg : Fields)
    → IsPlain parsed_cfg
    → (subs_path repl parsed_cfg ≡ ok (translated repl parsed_cfg))
      × (check def_cfg (translated repl parsed_cfg) ≡ check def_cfg parsed_cfg)
unfolding check
check-subs_path repl def_cfg parsed_cfg h =
    let (a, b, p, q, same) = flatten_from-SameKeys repl parsed_cfg [] [] h refl in
    (subs_path-eq repl parsed_cfg h, rw (p, q, same) refl)
