-- ===== src/Str/Path/Laws.antt =====
-- A joined path comes apart again.
use pmfuzz.Base.{ℕ, false, [], ◌∷◌, ◌++◌, ◌≡◌, refl, ap, ◌∙◌, arith, if◌then◌else◌, Text}
use pmfuzz.Str.{occurs}
use pmfuzz.Str.Laws.{occurs-append}
use pmfuzz.Str.Path.{sep, basename, dir_head, all_sep, rstrip_sep, dirname, ends_with_sep, join}

-- A directory that `join` puts a slash behind, or none.
abbrev pub IsDir : Text → Type 0
IsDir d = ends_with_sep d ≡ false

pub no_dir-IsDir : IsDir []
unfolding ends_with_sep
no_dir-IsDir = refl

-- A name within a directory.
abbrev pub IsFile : Text → Type 0
IsFile f = occurs sep f ≡ false

-- The text in front of a file: the directory and a slash, or nothing.
abbrev pub in_dir : Text → Text → Text
in_dir [] f = f
in_dir (c ∷ d) f = (c ∷ d) ++ (sep ∷ f)

pub join_file : (d f : Text) → IsDir d → IsFile f → join d f ≡ in_dir d f
unfolding join occurs
join_file [] f h k = refl
join_file (c ∷ d) [] h k = ground arith
join_file (c ∷ d) (e ∷ f) h k = ground arith

pub basename_file : (f : Text) → IsFile f → basename f ≡ f
unfolding basename
basename_file [] k = refl
basename_file (c ∷ f) k = rw (k, if◌then◌else◌)

basename-append : (a f : Text) → IsFile f → basename (a ++ (sep ∷ f)) ≡ f
unfolding basename occurs
basename-append [] f k = basename_file f k
basename-append (c ∷ a) f k = ground (arith, occurs-append sep a (sep ∷ f), basename-append a f k)

-- `path.basename(path.join(d, f)) == f`
pub basename-in_dir : (d f : Text) → IsFile f → basename (in_dir d f) ≡ f
basename-in_dir [] f k = basename_file f k
basename-in_dir (c ∷ d) f k = basename-append (c ∷ d) f k

dir_head_file : (f : Text) → IsFile f → dir_head f ≡ []
unfolding dir_head
dir_head_file [] k = refl
dir_head_file (c ∷ f) k = rw (k, if◌then◌else◌)

dir_head-append : (a f : Text) → IsFile f → dir_head (a ++ (sep ∷ f)) ≡ a ++ (sep ∷ [])
unfolding dir_head occurs
dir_head-append [] f k = rw (dir_head_file f k)
dir_head-append (c ∷ a) f k = ground (arith, occurs-append sep a (sep ∷ f), dir_head-append a f k)

all_sep-append : (c : ℕ) (a : Text) → IsDir (c ∷ a) → all_sep ((c ∷ a) ++ (sep ∷ [])) ≡ false
unfolding all_sep ends_with_sep
all_sep-append c [] h = ground arith
all_sep-append c (e ∷ a) h = ground (arith, all_sep-append e a h)

rstrip_sep-append : (c : ℕ) (a : Text) → IsDir (c ∷ a) → rstrip_sep ((c ∷ a) ++ (sep ∷ [])) ≡ c ∷ a
unfolding rstrip_sep ends_with_sep
rstrip_sep-append c [] h = rw (all_sep-append c [] h, if◌then◌else◌) refl
rstrip_sep-append c (e ∷ a) h =
    rw (all_sep-append c (e ∷ a) h, if◌then◌else◌) (ap (◌∷◌ c) (rstrip_sep-append e a h))

dirname_head : (p h : Text) → dir_head p ≡ h → dirname p ≡ (if all_sep h then h else rstrip_sep h)
unfolding dirname
dirname_head p h e = rw e

-- `path.dirname(path.join(d, f)) == d`
pub dirname-in_dir : (d f : Text) → IsDir d → IsFile f → dirname (in_dir d f) ≡ d
dirname-in_dir [] f h k = dirname_head f [] (dir_head_file f k) ∙ (unfold all_sep in refl)
dirname-in_dir (c ∷ d) f h k =
    dirname_head _ _ (dir_head-append (c ∷ d) f k)
    ∙ ap (λ b. if b then (c ∷ d) ++ (sep ∷ []) else rstrip_sep ((c ∷ d) ++ (sep ∷ [])))
        (all_sep-append c d h)
    ∙ rstrip_sep-append c d h
