-- ===== src/Helper/Tar.antt =====
-- helper/common.py: `compress` and `decompress`, over what `subprocess.run` does with a command and the
-- variable GZIP; it fails where the program does.
use pmfuzz.Base.{
  ℕ, ◌||◌, Bool, not, if◌then◌else◌, List, [], ◌∷◌, ◌++◌, ltb, Text, codes, Result, ok, ◌>>◌,
  abort_if,
}
use pmfuzz.Str.Number.{str_ℕ}
use pmfuzz.Str.Path.{basename, dirname}

-- `subprocess.run(cmd, env={'GZIP': …}, check=True)`
abbrev pub RunTar : Type 0
RunTar = List Text → Text → Result (Unit {0})

unfoldable pub get_compress_cmd : Text → Text → List Text
get_compress_cmd src dest =
    codes "tar" ∷ codes "vczf" ∷ dest ∷ codes "-C" ∷ dirname src ∷ basename src ∷ []

-- `compress(src, dest, verbose, level, extra_params)`, with a level that is not negative.
unfoldable pub compress : RunTar → Text → Text → ℕ → List Text → Result (Unit {0})
compress run_tar src dest level extra_params = do
  abort_if (ltb level 1 || ltb 9 level)
  run_tar (get_compress_cmd src dest ++ extra_params) (b'-' ∷ str_ℕ level)

unfoldable pub get_decompress_cmd : Text → Text → List Text
get_decompress_cmd src dest = codes "tar" ∷ codes "xzf" ∷ src ∷ codes "-C" ∷ dirname dest ∷ []

-- `decompress(src, dest, verbose, verify)`, over the test whether a file is there.
unfoldable pub decompress : RunTar → (Text → Bool) → Text → Text → Bool → Result (Unit {0})
decompress run_tar is_file src dest verify = do
  run_tar (get_decompress_cmd src dest) (codes "-f")
  if verify then abort_if (not (is_file dest)) else ok tt
