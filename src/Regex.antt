-- ===== src/Regex.antt =====
-- Regular expressions as Python's `re` reads them, so far as the naming patterns use them: what
-- they match, and a matcher by derivatives.
pub mod Laws
use pmfuzz.Base.{
  ℕ, Bool, true, false, ◌&&◌, ◌||◌, [], ◌∷◌, ◌++◌, ◌≡◌, ◌⊎◌, ◌==◌, if◌then◌else◌, Text,
}

pub data Regex : Type 0 where
  none : Regex
  empty : Regex
  char : (ℕ → Bool) → Regex
  seq : Regex → Regex → Regex
  alt : Regex → Regex → Regex
  star : Regex → Regex

-- A text that is several texts of `P`, one behind the other.
pub data Star (P : Text → Type 0) : Text → Type 0 where
  stop : {w : Text} → w ≡ [] → Star P w
  more : {u v w : Text} → P u → Star P v → w ≡ u ++ v → Star P w

-- The texts that an expression describes.
abbrev pub Matches : Regex → Text → Type 0
Matches none w = ⊥
Matches empty w = w ≡ []
Matches (char f) w = (c : ℕ) × (f c ≡ true) × (w ≡ c ∷ [])
Matches (seq a b) w = (u : Text) × (v : Text) × (w ≡ u ++ v) × Matches a u × Matches b v
Matches (alt a b) w = Matches a w ⊎ Matches b w
Matches (star a) w = Star (Matches a) w

-- The expression for one text.
abbrev pub lit : Text → Regex
lit [] = empty
lit (c ∷ t) = seq (char (λ x. x == c)) (lit t)

abbrev pub plus : Regex → Regex
plus a = seq a (star a)

-- Does the expression match the empty text?
unfoldable pub nullable : Regex → Bool
nullable none = false
nullable empty = true
nullable (char f) = false
nullable (seq a b) = nullable a && nullable b
nullable (alt a b) = nullable a || nullable b
nullable (star a) = true

-- `seq` and `alt`, without the parts that match nothing.
unfoldable pub seq' : Regex → Regex → Regex
seq' none b = none
seq' empty b = b
seq' a b = seq a b

unfoldable pub alt' : Regex → Regex → Regex
alt' none b = b
alt' a none = a
alt' a b = alt a b

-- What may follow the character `c`.
unfoldable pub deriv : ℕ → Regex → Regex
unfolding nullable seq' alt'
deriv c none = none
deriv c empty = none
deriv c (char f) = if f c then empty else none
deriv c (seq a b) =
    let first = seq' (deriv c a) b in
    let second = deriv c b in elim (nullable a) [ true ↦ alt' first second | false ↦ first ]
deriv c (alt a b) = alt' (deriv c a) (deriv c b)
deriv c (star a) = seq' (deriv c a) (star a)

-- The whole text is matched.
unfoldable pub full_match : Regex → Text → Bool
unfolding nullable deriv
full_match r [] = nullable r
full_match r (c ∷ w) = full_match (deriv c r) w

-- `re.search('^' + r + '$', w) != None`: `$` also matches in front of a newline that ends the text.
unfoldable pub search_anchored : Regex → Text → Bool
unfolding full_match
search_anchored r w = full_match r w || full_match (seq r (lit (b'\n' ∷ []))) w
