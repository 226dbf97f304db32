-- ===== src/Str.antt =====
-- The methods of Python's `str` that the program calls, over lists of character codes.
pub mod Number
pub mod Path
pub mod Laws
use mathlib.Core.List.{reverse}
use pmfuzz.Base.{
  ℕ, suc, zero, Bool, true, false, ◌&&◌, ◌||◌, List, [], ◌∷◌, ◌++◌, ◌==◌, if◌then◌else◌, Text,
  length,
}

-- `s.startswith(p)`
unfoldable pub starts_with : Text → Text → Bool
starts_with s [] = true
starts_with [] (d ∷ p) = false
starts_with (c ∷ s) (d ∷ p) = c == d && starts_with s p

-- `p in s`
unfoldable pub is_in : Text → Text → Bool
unfolding starts_with
is_in p [] = starts_with [] p
is_in p (c ∷ s) = starts_with (c ∷ s) p || is_in p s

-- `s.endswith(p)`
unfoldable pub ends_with : Text → Text → Bool
unfolding starts_with
ends_with s p = starts_with (reverse s) (reverse p)

-- `s.replace(d + p, q)`: after a match the rest `p` of the pattern is skipped. The number counts
-- the characters still to skip.
unfoldable pub replace_from : ℕ → Text → Text → ℕ → Text → Text
unfolding starts_with
replace_from d p q k [] = []
replace_from d p q (suc k) (c ∷ s) = replace_from d p q k s
replace_from d p q zero (c ∷ s) =
    let hit = q ++ replace_from d p q (length p) s in
    let miss = c ∷ replace_from d p q zero s in if starts_with (c ∷ s) (d ∷ p) then hit else miss

-- `s.replace("", q)` puts `q` before each character and at the end.
unfoldable pub interleave : Text → Text → Text
interleave q [] = q
interleave q (c ∷ s) = q ++ (c ∷ interleave q s)

-- `s.replace(p, q)`
unfoldable pub replace : Text → Text → Text → Text
unfolding replace_from interleave
replace s [] q = interleave q s
replace s (d ∷ p) q = replace_from d p q 0 s

-- A character in front of the first part.
abbrev pub on_first : ℕ → List Text → List Text
on_first c [] = (c ∷ []) ∷ []
on_first c (part ∷ parts) = (c ∷ part) ∷ parts

-- `s.split(c)`, and `re.split` at single characters: the parts between those that pass the test.
unfoldable pub split_at : (ℕ → Bool) → Text → List Text
split_at cut [] = [] ∷ []
split_at cut (c ∷ s) = let parts = split_at cut s in if cut c then [] ∷ parts else on_first c parts

-- `s[:s.find(c)]` for a text that holds `c`, and all of any other.
unfoldable pub before : ℕ → Text → Text
before b [] = []
before b (c ∷ s) = let rest = before b s in if c == b then [] else c ∷ rest

-- A character occurs in a text.
unfoldable pub occurs : ℕ → Text → Bool
occurs b [] = false
occurs b (c ∷ s) = c == b || occurs b s
