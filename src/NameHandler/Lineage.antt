-- ===== src/NameHandler/Lineage.antt =====
-- The ids in a testcase's name: its lineage, its number of ancestors, its parent.
pub mod Laws
pub mod Parent
use pmfuzz.Base.{
  ℕ, ◌+◌, ◌-◌, Bool, true, false, ◌||◌, List, [], ◌∷◌, ◌++◌, ◌≡◌, refl, if◌then◌else◌, ◌==◌, Text,
  codes, Result, Error, ok, err, index_error, value_error, aborted, ◌>>=◌, ◌>>◌, of_option, ℤ, pos,
  length,
}
use pmfuzz.Str.{is_in, split_at, before, replace}
use pmfuzz.Str.Number.{int}
use pmfuzz.Str.Path.{basename, dirname, join}
use pmfuzz.NameHandler.Patterns.{is_tc, is_regex}
use pmfuzz.NameHandler.Metadata.{get_metadata_files, testcase_name, get_extension, first_ext}
use pmfuzz.NameHandler.Stage.{second}

-- The id of one token: what a dot cuts off is left out.
unfoldable pub token_id : Text → Result ℤ
token_id token = do
  t ← second (split_at (λ c. c == b'=') (before b'.' token))
  of_option value_error (int t)

unfoldable pub token_ids : List Text → Result (List ℤ)
token_ids [] = ok []
token_ids (token ∷ tokens) = do v ← token_id token; vs ← token_ids tokens; ok (v ∷ vs)

-- `get_lineage(tc_name)`
unfoldable pub get_lineage : Text → Result (List ℤ)
get_lineage tc_name = do
  files ← get_metadata_files (basename tc_name) false
  token_ids (split_at (λ c. c == b',') files.clean)

-- `ancestor_cnt(filename)`
unfoldable pub ancestor_cnt : Text → Result ℕ
ancestor_cnt filename = do
  files ← get_metadata_files (basename filename) false
  ok (length (split_at (λ c. c == b',') files.clean) - 1)

-- `iter_cnt(filename)`
unfoldable pub iter_cnt : Text → Result ℕ
iter_cnt filename = do n ← ancestor_cnt filename; ok (n + 1)

-- `clean_tc_name(tc_name)`: AFL's `id:000001,src:…` becomes `id=000001.testcase`.
unfoldable pub first_part : List Text → Text
first_part [] = []
first_part (x ∷ xs) = x

unfoldable pub clean_tc_name : Text → Result Text
unfolding first_part
clean_tc_name tc_name = do
  let id_tk = first_part (split_at (λ c. c == b',') tc_name)
  id ← second (split_at (λ c. c == b':') id_tk)
  ok (codes "id=" ++ (id ++ codes ".testcase"))

abbrev pub is_delim : ℕ → Bool
is_delim c = c == b',' || c == b'.'

-- The delimiters of the name, in order.
unfoldable pub delims : Text → Text
delims [] = []
delims (c ∷ s) = let rest = delims s in if is_delim c then c ∷ rest else rest

-- `ids[:-1]`
unfoldable pub init {ℓ} : {A : Type ℓ} → List A → List A
init [] = []
init (x ∷ []) = []
init (x ∷ y ∷ xs) = x ∷ init (y ∷ xs)

-- `result += delims[iter] + elem` for each element.
unfoldable pub rebuild : Text → List Text → Text → Result Text
rebuild result [] ds = ok result
rebuild result (elem ∷ elems) [] = err index_error
rebuild result (elem ∷ elems) (d ∷ ds) = rebuild (result ++ (d ∷ elem)) elems ds

-- The result for the parent's ids; with none there is no parent.
unfoldable pub parent_name : List Text → Text → Text → Result Text
parent_name [] ds ext = ok []
parent_name (id ∷ ids) ds ext = do result ← rebuild id ids ds; ok (result ++ ext)

-- `get_testcase_parent(testcase)`
unfoldable pub get_testcase_parent : Text → Result Text
get_testcase_parent testcase =
    let ext = get_extension (basename testcase) in
    let clean_name = replace (basename testcase) ext [] in
    parent_name (init (split_at is_delim clean_name)) (delims clean_name) ext

-- The examples of the docstrings.
lineage_runs :
    (get_lineage (codes "id=19.id=10,id=928,id=193.testcase")
      ≡ ok (pos 19 ∷ pos 928 ∷ pos 193 ∷ []))
    × (ancestor_cnt (codes "id=010.id=016,id=012.id=516,id=013.testcase") ≡ ok 2)
    × (clean_tc_name (codes "id:000001,src:000000") ≡ ok (codes "id=000001.testcase"))
    × (get_testcase_parent (codes "id=010.id=016,id=012.id=516.id=013.testcase")
        ≡ ok (codes "id=010.id=016,id=012.id=516.testcase"))
    × (get_testcase_parent (codes "map_id=1,id=2,id=2.testcase")
        ≡ ok (codes "map_id=1,id=2.testcase"))
    × (get_testcase_parent (codes "id=2.testcase") ≡ ok [])
unfolding get_lineage ancestor_cnt clean_tc_name get_testcase_parent get_metadata_files
    testcase_name token_ids token_id is_tc is_regex is_in split_at before replace int basename
    dirname join get_extension first_ext delims init rebuild parent_name
lineage_runs = (refl, refl, refl, refl, refl, refl)
