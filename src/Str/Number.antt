-- ===== src/Str/Number.antt =====
-- `str` of an integer and `int` of a text (ASCII digits, signs, blanks and underscores).
pub mod Laws
use mathlib.Core.List.{reverse}
use pmfuzz.Base.{
  ℕ, suc, zero, ◌+◌, ◌-◌, ◌*◌, ◌/◌, ◌%◌, ◌<◌, Bool, true, false, ◌&&◌, ◌||◌, [], ◌∷◌, Option, none,
  some, ◌≡◌, refl, arith, ◌==◌, leb, ltb, if◌then◌else◌, Text, codes, ℤ, pos, negsuc, neg,
}

abbrev pub is_digit : ℕ → Bool
is_digit c = leb b'0' c && leb c b'9'

-- A number has fewer digits than `n + 1`, so this fuel never runs out.
unfoldable pub digits : ℕ → ℕ → Text → Text
digits zero n out = out
digits (suc fuel) n out = elim (ltb n 10) [
  | true ↦ (b'0' + n) ∷ out
  | false ↦ digits fuel (n / 10) ((b'0' + n % 10) ∷ out)
]

unfoldable pub str_ℕ : ℕ → Text
unfolding digits
str_ℕ n = digits (n + 1) n []

-- `str(n)`
unfoldable pub str : ℤ → Text
unfolding str_ℕ
str (pos n) = str_ℕ n
str (negsuc n) = b'-' ∷ str_ℕ (suc n)

-- Digits, with single underscores between them. The flag says that a digit stands just before.
unfoldable pub read_digits : Text → ℕ → Bool → Option ℕ
read_digits [] n true = some n
read_digits [] n false = none
read_digits (c ∷ s) n after =
    let more = read_digits s (n * 10 + (c - b'0')) true in
    let rest = read_digits s n false in
    if is_digit c then more else if c == b'_' && after then rest else none

abbrev pub is_blank : ℕ → Bool
is_blank c = (leb 9 c && leb c 13) || (leb 28 c && leb c 32)

unfoldable pub lstrip : Text → Text
lstrip [] = []
lstrip (c ∷ s) = if is_blank c then lstrip s else c ∷ s

-- `s.strip()`
unfoldable pub strip : Text → Text
strip s = reverse (lstrip (reverse (lstrip s)))

unfoldable pub read_signed : Text → Option ℤ
read_signed [] = none
read_signed (c ∷ s) =
    if c == b'-'
    then elim (read_digits s 0 false) [ none ↦ none | some n ↦ some (neg n) ]
    else if c == b'+'
    then elim (read_digits s 0 false) [ none ↦ none | some n ↦ some (pos n) ]
    else elim (read_digits (c ∷ s) 0 false) [ none ↦ none | some n ↦ some (pos n) ]

-- `int(s)`; `none` is its ValueError.
unfoldable pub int : Text → Option ℤ
unfolding read_signed read_digits strip lstrip
int s = read_signed (strip s)

int_runs : int (codes " -1_0\n") ≡ some (negsuc 9)
unfolding int
int_runs = refl
