-- ===== src/Stages/Folder.antt =====
-- A directory of files: their names, in the order of its listing, with their contents. The copies of
-- stages/dedup.py, stages/stage1.py and stages/stage2.py (helper/common.py `copypreserve`) work on it.
pub mod Laws
use pmfuzz.Base.{
  Bool, true, false, List, [], ◌∷◌, ◌≡◌, refl, if◌then◌else◌, Text, codes, text_eq, contains,
  Option, none, some, map, Result, ok, err, file_not_found, ◌>>=◌, of_option,
}

abbrev pub Folder : Type 0
Folder = List (Text × Text)

-- `listdir`
unfoldable pub names : Folder → List Text
names [] = []
names ((name, _) ∷ files) = name ∷ names files

unfoldable pub get : Text → Folder → Option Text
get name [] = none
get name ((n, content) ∷ files) = if text_eq name n then some content else get name files

-- `path.isfile`
abbrev pub is_some {ℓ} : {A : Type ℓ} → Option A → Bool
is_some none = false
is_some (some a) = true

unfoldable pub is_file : Folder → Text → Bool
is_file folder name = is_some (get name folder)

-- A file is overwritten where it stands, a new one is listed last.
unfoldable pub put : Text → Text → Folder → Folder
put name content [] = (name, content) ∷ []
put name content ((n, old) ∷ files) =
    let later = put name content files in
    if text_eq name n then (n, content) ∷ files else (n, old) ∷ later

-- `copypreserve(src, dst)` from one directory to another.
unfoldable pub copypreserve : Text → Folder → Text → Folder → Result Folder
copypreserve src from dst to = do
  content ← of_option file_not_found (get src from)
  ok (put dst content to)

-- The copy of a file that is looked for first.
unfoldable pub copy_if_there : Text → Folder → Text → Folder → Folder
copy_if_there src from dst to = elim (get src from) [
  | none ↦ to
  | some content ↦ put dst content to
]
