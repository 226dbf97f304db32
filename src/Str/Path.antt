-- ===== src/Str/Path.antt =====
-- `posixpath`: the parts of a path and their join.
pub mod Laws
use pmfuzz.Base.{
  ℕ, Bool, true, false, ◌&&◌, [], ◌∷◌, ◌++◌, ◌≡◌, refl, ◌==◌, if◌then◌else◌, Text, codes,
}
use pmfuzz.Str.{starts_with, occurs}

abbrev pub sep : ℕ
sep = b'/'

-- `path.basename(p)`: what stands behind the last slash.
unfoldable pub basename : Text → Text
unfolding occurs
basename [] = []
basename (c ∷ p) = if occurs sep (c ∷ p) then basename p else c ∷ p

-- `p[:p.rfind('/') + 1]`
unfoldable pub dir_head : Text → Text
unfolding occurs
dir_head [] = []
dir_head (c ∷ p) = let rest = dir_head p in if occurs sep (c ∷ p) then c ∷ rest else []

unfoldable pub all_sep : Text → Bool
all_sep [] = true
all_sep (c ∷ p) = c == sep && all_sep p

-- `p.rstrip('/')`
unfoldable pub rstrip_sep : Text → Text
unfolding all_sep
rstrip_sep [] = []
rstrip_sep (c ∷ p) = let rest = rstrip_sep p in if all_sep (c ∷ p) then [] else c ∷ rest

-- `path.dirname(p)`
unfoldable pub dirname : Text → Text
unfolding dir_head rstrip_sep
dirname p = let head = dir_head p in if all_sep head then head else rstrip_sep head

unfoldable pub ends_with_sep : Text → Bool
ends_with_sep [] = false
ends_with_sep (c ∷ []) = c == sep
ends_with_sep (c ∷ d ∷ p) = ends_with_sep (d ∷ p)

-- `path.join(a, b)`
unfoldable pub join : Text → Text → Text
unfolding starts_with ends_with_sep
join [] b = b
join (c ∷ a) b =
    if starts_with b (sep ∷ [])
    then b
    else if ends_with_sep (c ∷ a)
    then (c ∷ a) ++ b
    else (c ∷ a) ++ (sep ∷ b)

path_runs :
    (basename (codes "/a//b/c") ≡ codes "c")
    × (dirname (codes "/a//b/c") ≡ codes "/a//b")
    × (dirname (codes "//c") ≡ codes "//")
    × (join (codes "/a") (codes "b") ≡ codes "/a/b")
unfolding basename dirname join
path_runs = (refl, refl, refl, refl)
