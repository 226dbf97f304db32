-- ===== src/Core/DedupEngine.antt =====
-- core/dedupengine.py: of the files with one hash, all but one are deleted with their metadata.
pub mod Oldest
pub mod Groups
pub mod Endings
pub mod Deleting
pub mod Store
pub mod Members
pub mod WholeRun
use pmfuzz.Base.{
  ℕ, Bool, true, false, List, [], ◌∷◌, ◌++◌, ◌≡◌, refl, if◌then◌else◌, ltb, ◌==◌, Text, codes,
  text_eq, Option, none, some, Result, ok, err, value_error, key_error, file_not_found, suc, zero,
  ◌>>=◌, of_option, keep,
}
use pmfuzz.NameHandler.Metadata.{MetadataFiles, get_metadata_files}
use pmfuzz.NameHandler.Lineage.{ancestor_cnt}

-- The files by path, with their contents.
abbrev pub Files : Type 0
Files = Text → Option Text

abbrev pub write_file : Text → Text → Files → Files
write_file path content files p = if text_eq p path then some content else files p

-- `os.remove` of a file that `remove_files` found, or was told not to miss.
abbrev pub remove_file : Text → Files → Files
remove_file path files p = if text_eq p path then none else files p

-- `remove_files(file_list, force=True)`
unfoldable pub remove_files : List Text → Files → Files
remove_files [] files = files
remove_files (file ∷ list) files = remove_files list (remove_file file files)

-- `metadata_files.values()`
abbrev pub values : MetadataFiles → List Text
values m =
    m.testcase ∷ m.clean ∷ m.min_testcase ∷ m.pm_map ∷ m.map ∷ m.crash_site ∷ m.crash_cmpr_site
    ∷ m.pm_pool ∷ m.pm_cmpr_pool ∷ []

-- The loop of `_delete_tcs`: the names to delete, and the store with the placeholders, of which
-- `note` is the content.
unfoldable pub place_holders : Text → List Text → Files → Result (List Text × Files)
place_holders note [] files = ok ([], files)
place_holders note (testcase ∷ testcases) files = do
  metadata ← get_metadata_files testcase false
  with_deleted ← get_metadata_files testcase true
  placeholder_f ← of_option key_error with_deleted.deleted
  (delete_q, after) ← place_holders note testcases (write_file placeholder_f note files)
  ok (values metadata ++ delete_q, after)

unfoldable pub _delete_tcs : Text → List Text → Files → Result Files
_delete_tcs note testcases files = do
  (delete_q, after) ← place_holders note testcases files
  ok (remove_files delete_q after)

-- `hash_map`, in the order in which the hashes are first met.
abbrev pub HashMap : Type 0
HashMap = List (Text × List Text)

unfoldable pub add_hash : Text → Text → HashMap → HashMap
add_hash sum tc [] = (sum, tc ∷ []) ∷ []
add_hash sum tc ((key, tcs) ∷ groups) =
    let later = add_hash sum tc groups in
    if text_eq sum key then (key, tcs ++ (tc ∷ [])) ∷ groups else (key, tcs) ∷ later

-- The first loop of `run`; `sha256` is hashlib's digest of a content, and reading a missing file fails.
unfoldable pub hash_all : (Text → Text) → Files → List Text → HashMap → Result HashMap
hash_all sha256 files [] groups = ok groups
hash_all sha256 files (tc ∷ tcs) groups = do
  content ← of_option file_not_found (files tc)
  hash_all sha256 files tcs (add_hash (sha256 content) tc groups)

unfoldable pub ancestor_cnts : List Text → Result (List ℕ)
ancestor_cnts [] = ok []
ancestor_cnts (f ∷ fs) = do n ← ancestor_cnt f; ns ← ancestor_cnts fs; ok (n ∷ ns)

-- `min(ns)` of a list that starts with `n`, and `ns.index(n)`.
unfoldable pub min_of : ℕ → List ℕ → ℕ
min_of n [] = n
min_of n (m ∷ ns) = min_of (if ltb m n then m else n) ns

unfoldable pub index : ℕ → List ℕ → ℕ
index n [] = 0
index n (m ∷ ns) = let later = index n ns in if m == n then 0 else suc later

-- `del xs[i]`
unfoldable pub delete_at {ℓ} : {A : Type ℓ} → ℕ → List A → List A
delete_at i [] = []
delete_at zero (x ∷ xs) = xs
delete_at (suc i) (x ∷ xs) = x ∷ delete_at i xs

abbrev pub without_oldest : List Text → List ℕ → Result (List Text)
without_oldest tcs [] = err value_error
without_oldest tcs (n ∷ ns) = ok (delete_at (index (min_of n ns) (n ∷ ns)) tcs)

-- The group without the first file that has the fewest ancestors.
unfoldable pub drop_oldest : List Text → Result (List Text)
drop_oldest tcs = do counts ← ancestor_cnts tcs; without_oldest tcs counts

-- The second loop of `run`.
unfoldable pub dedup_groups : Text → HashMap → Files → Result Files
dedup_groups note [] files = ok files
dedup_groups note ((key, tcs) ∷ groups) files = do
  rest ← drop_oldest tcs
  after ← _delete_tcs note rest files
  dedup_groups note groups after

-- `run()`, with the checker of the engine.
unfoldable pub run : (Text → Text) → Text → (Text → Bool) → List Text → Files → Result Files
run sha256 note checker testcase_paths files = do
  groups ← hash_all sha256 files (keep checker testcase_paths) []
  dedup_groups note groups files
