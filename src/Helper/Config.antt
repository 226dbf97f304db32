-- ===== src/Helper/Config.antt =====
-- helper/config.py: the configuration as the libraries for YAML leave it, the substitution of paths,
-- the comparison with the base configuration, and the look-ups. The parsing of the files and their
-- merge are not modelled.
pub mod Keys
pub mod Lookup
use pmfuzz.Base.{
  ℤ, Bool, true, false, not, ◌&&◌, List, [], ◌∷◌, ◌++◌, ◌≡◌, refl, if◌then◌else◌, ◌==◌, Text, codes,
  text_eq, contains, map, Option, none, some, Result, ok, err, aborted, index_error, key_error,
  value_error, type_error, attribute_error, ◌>>=◌, ◌>>◌, abort_if, of_option,
}
use pmfuzz.Str.{replace, split_at}
use pmfuzz.Str.Path.{join}

-- The values of a configuration. A float is kept as it is written, and a dict has each key once.
mutual
  pub data Value : Type 0 where
    null : Value
    bool : Bool → Value
    number : ℤ → Value
    float : Text → Value
    text : Text → Value
    list : Items → Value
    dict : Fields → Value

  pub data Items : Type 0 where
    nil : Items
    cons : Value → Items → Items

  pub data Fields : Type 0 where
    end : Fields
    field : Text → Value → Fields → Fields

-- `translate(text, conversion_dict)` of helper/common.py
abbrev pub Repl : Type 0
Repl = List (Text × Text)

unfoldable pub translate_all : Repl → Text → Text
translate_all [] t = t
translate_all ((key, value) ∷ repl) t = translate_all repl (replace t key value)

unfoldable pub translate : Repl → Text → Text
translate repl [] = []
translate repl (c ∷ t) = translate_all repl (c ∷ t)

-- `constr_path_repl()`
unfoldable pub constr_path_repl : Text → Repl
constr_path_repl pmfuzz_root =
    (codes "%ROOT%", pmfuzz_root)
    ∷ (codes "%BUILD%", join pmfuzz_root (codes "build"))
    ∷ (codes "%LIB%", join (join pmfuzz_root (codes "build")) (codes "lib"))
    ∷ (codes "%BIN%", join (join pmfuzz_root (codes "build")) (codes "bin"))
    ∷ []

-- `subs_path(cfg_content, repl_dict)` on a dict, on the values of a dict, on the elements of a list
-- that is such a value, and on a list within a list, where the result is an empty list that is written
-- to at its own elements.
unfoldable mutual
  pub subs_path : Repl → Fields → Result Fields
  subs_path repl end = ok end
  subs_path repl (field key val rest) = do
    val' ← subs_value repl val
    rest' ← subs_path repl rest
    ok (field key val' rest')

  pub subs_value : Repl → Value → Result Value
  subs_value repl (dict d) = do d' ← subs_path repl d; ok (dict d')
  subs_value repl (list xs) = do xs' ← subs_items repl xs; ok (list xs')
  subs_value repl (text t) = ok (text (translate repl t))
  subs_value repl null = ok null
  subs_value repl (bool b) = ok (bool b)
  subs_value repl (number n) = ok (number n)
  subs_value repl (float t) = ok (float t)

  pub subs_items : Repl → Items → Result Items
  subs_items repl nil = ok nil
  subs_items repl (cons subval xs) = do
    subval' ← subs_element repl subval
    xs' ← subs_items repl xs
    ok (cons subval' xs')

  pub subs_element : Repl → Value → Result Value
  subs_element repl (text t) = ok (text (translate repl t))
  subs_element repl (dict d) = do d' ← subs_path repl d; ok (dict d')
  subs_element repl (list ys) = do ys' ← subs_nested repl ys; ok (list ys')
  subs_element repl null = ok null
  subs_element repl (bool b) = ok (bool b)
  subs_element repl (number n) = ok (number n)
  subs_element repl (float t) = ok (float t)

  pub subs_nested : Repl → Items → Result Items
  subs_nested repl nil = ok nil
  subs_nested repl (cons (dict d) ys) = do d' ← subs_path repl d; err type_error
  subs_nested repl (cons (number n) ys) = err index_error
  subs_nested repl (cons (bool b) ys) = err index_error
  subs_nested repl (cons null ys) = err type_error
  subs_nested repl (cons (float t) ys) = err type_error
  subs_nested repl (cons (text t) ys) = err type_error
  subs_nested repl (cons (list zs) ys) = err type_error

-- A flattened dict.
abbrev pub Flat : Type 0
Flat = List (Text × Value)

unfoldable pub put_flat : Text → Value → Flat → Flat
put_flat key val [] = (key, val) ∷ []
put_flat key val ((k, v) ∷ out) =
    let later = put_flat key val out in if text_eq key k then (k, val) ∷ out else (k, v) ∷ later

-- `out.update({key + '_' + key2: val2 for key2, val2 in deeper})`
unfoldable pub update_flat : Text → Flat → Flat → Flat
update_flat key [] out = out
update_flat key ((key2, val2) ∷ deeper) out =
    update_flat key deeper (put_flat (key ++ (b'_' ∷ key2)) val2 out)

-- `_flatten(d)`, with the dict made so far. A list has no `items`.
unfoldable mutual
  pub flatten_from : Fields → Flat → Result Flat
  flatten_from end out = ok out
  flatten_from (field key val rest) out = do
    next ← flatten_value key val out
    flatten_from rest next

  pub flatten_value : Text → Value → Flat → Result Flat
  flatten_value key (dict d) out = do deeper ← flatten_from d []; ok (update_flat key deeper out)
  flatten_value key (list xs) out = flatten_items key xs out
  flatten_value key null out = ok (put_flat key null out)
  flatten_value key (bool b) out = ok (put_flat key (bool b) out)
  flatten_value key (number n) out = ok (put_flat key (number n) out)
  flatten_value key (float t) out = ok (put_flat key (float t) out)
  flatten_value key (text t) out = ok (put_flat key (text t) out)

  pub flatten_items : Text → Items → Flat → Result Flat
  flatten_items key nil out = ok out
  flatten_items key (cons subval xs) out = do
    next ← flatten_element key subval out
    flatten_items key xs next

  pub flatten_element : Text → Value → Flat → Result Flat
  flatten_element key (dict d) out = do deeper ← flatten_from d []; ok (update_flat key deeper out)
  flatten_element key (list ys) out = err attribute_error
  flatten_element key null out = ok out
  flatten_element key (bool b) out = ok out
  flatten_element key (number n) out = ok out
  flatten_element key (float t) out = ok out
  flatten_element key (text t) out = ok out

abbrev pub keys_of : Flat → List Text
keys_of [] = []
keys_of ((k, _) ∷ out) = k ∷ keys_of out

abbrev pub all_found : List Text → List Text → Bool
all_found found [] = true
all_found found (key ∷ keys) = contains found key && all_found found keys

-- `check()`: every key of the flattened base configuration is one of the flattened configuration.
unfoldable pub check : Fields → Fields → Result (Unit {0})
check def_cfg parsed_cfg = do
  def_cfg_flat ← flatten_from def_cfg []
  cfg_flattened ← flatten_from parsed_cfg []
  abort_if (not (all_found (keys_of cfg_flattened) (keys_of def_cfg_flat)))

-- Look-ups in a dict.
unfoldable pub item : Text → Fields → Option Value
item key end = none
item key (field k v rest) = if text_eq key k then some v else item key rest

unfoldable pub set_item : Text → Value → Fields → Fields
set_item key val end = field key val end
set_item key val (field k v rest) =
    let later = set_item key val rest in if text_eq key k then field k val rest else field k v later

-- `result[key]`
unfoldable pub index : Value → Text → Result Value
index (dict d) key = of_option key_error (item key d)
index null key = err type_error
index (bool b) key = err type_error
index (number n) key = err type_error
index (float t) key = err type_error
index (text t) key = err type_error
index (list xs) key = err type_error

-- `cfg[key]`: a missing key aborts.
unfoldable pub get_item : Fields → Text → Result Value
get_item parsed_cfg key = of_option aborted (item key parsed_cfg)

unfoldable pub walk : Value → List Text → Result Value
walk v [] = ok v
walk v (key ∷ keys) = do next ← index v key; walk next keys

-- `get_direct(fqname)`
abbrev pub get_keys : Fields → List Text → Result Value
get_keys parsed_cfg [] = err aborted
get_keys parsed_cfg (key ∷ keys) = do v ← get_item parsed_cfg key; walk v keys

unfoldable pub get_direct : Fields → Text → Result Value
get_direct parsed_cfg fqname = get_keys parsed_cfg (split_at (λ c. c == b'.') fqname)

-- `kv.split('=')` of a value, and its first two parts.
abbrev pub two_parts : List Text → Result (Text × Text)
two_parts [] = err index_error
two_parts (a ∷ []) = err index_error
two_parts (a ∷ b ∷ parts) = ok (a, b)

unfoldable pub split_kv : Value → Result (Text × Text)
split_kv (text kv) = two_parts (split_at (λ c. c == b'=') kv)
split_kv null = err attribute_error
split_kv (bool b) = err attribute_error
split_kv (number n) = err attribute_error
split_kv (float t) = err attribute_error
split_kv (list xs) = err attribute_error
split_kv (dict d) = err attribute_error

-- `dict(v)` of a value; pairs in a list are left out.
abbrev pub as_dict : Value → Result Fields
as_dict (dict d) = ok d
as_dict null = err type_error
as_dict (bool b) = err type_error
as_dict (number n) = err type_error
as_dict (float t) = err type_error
as_dict (text []) = ok end
as_dict (text (c ∷ t)) = err value_error
as_dict (list nil) = ok end
as_dict (list (cons v xs)) = err type_error

-- `get_env(persist)`
unfoldable pub get_env : Fields → Bool → Result Fields
get_env parsed_cfg persist = do
  target ← of_option key_error (item (codes "target") parsed_cfg)
  env ← index target (codes "env")
  result ← as_dict env
  persist_kv ←
      index target (if persist then codes "persist_enable_env" else codes "persist_disable_env")
  (name, value) ← split_kv persist_kv
  ok (set_item name (text value) result)
