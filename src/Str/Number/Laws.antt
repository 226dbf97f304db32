-- ===== src/Str/Number/Laws.antt =====
-- `int` reads back what `str` writes, and reads digits at their decimal value.
use mathlib.Core.List.{foldl, reverse, reverse-append, reverse-reverse}
use pmfuzz.Base.{
  ℕ, suc, zero, ◌+◌, ◌-◌, ◌*◌, ◌/◌, ◌%◌, ◌<◌, Bool, true, false, [], ◌∷◌, some, ◌≡◌, refl, ◌∙◌,
  arith, Text, All, All-append, pos,
}
use pmfuzz.Str.Number.{is_digit, digits, str_ℕ, read_digits, lstrip, strip, read_signed, int}

-- The number that digits spell behind `n`.
abbrev pub value_from : ℕ → Text → ℕ
value_from = foldl (λ n c. n * 10 + (c - b'0'))

abbrev pub value : Text → ℕ
value = value_from 0

abbrev AllDigits : Text → Type 0
AllDigits = All (λ c. is_digit c ≡ true)

read_digits-digits :
    (fuel n : ℕ) (out : Text) (after : Bool)
    → n < fuel
    → read_digits (digits fuel n out) 0 after ≡ read_digits out n true
unfolding read_digits digits
read_digits-digits zero n out after h = elim h [ ]
read_digits-digits (suc fuel) n out after h =
    ground (arith, read_digits-digits fuel (n / 10) ((b'0' + n % 10) ∷ out) after)

digits-AllDigits :
    (fuel n : ℕ) (out : Text) → n < fuel → AllDigits out → AllDigits (digits fuel n out)
unfolding digits
digits-AllDigits zero n out h k = elim h [ ]
digits-AllDigits (suc fuel) n out h k =
    ground (arith, digits-AllDigits fuel (n / 10) ((b'0' + n % 10) ∷ out))

lstrip_digits : (s : Text) → AllDigits s → lstrip s ≡ s
unfolding lstrip
lstrip_digits [] h = refl
lstrip_digits (c ∷ s) h = ground arith

reverse-AllDigits : (s : Text) → AllDigits s → AllDigits (reverse s)
reverse-AllDigits [] h = tt
reverse-AllDigits (c ∷ s) (h, hs) =
    let e = reverse-append (c ∷ []) s in
    rw e (All-append (λ c. is_digit c ≡ true) (reverse s) (c ∷ []) (reverse-AllDigits s hs) (h, tt))

strip_digits : (s : Text) → AllDigits s → strip s ≡ s
unfolding strip
strip_digits s h =
    rw (lstrip_digits s h, lstrip_digits (reverse s) (reverse-AllDigits s h), reverse-reverse)

read_digits-value : (s : Text) (n : ℕ) → AllDigits s → read_digits s n true ≡ some (value_from n s)
unfolding read_digits
read_digits-value [] n h = refl
read_digits-value (c ∷ s) n (h, hs) = ground (arith, read_digits-value s (n * 10 + (c - b'0')) hs)

read_signed_digits :
    (c : ℕ) (s : Text) → AllDigits (c ∷ s) → read_signed (c ∷ s) ≡ some (pos (value (c ∷ s)))
unfolding read_signed read_digits
read_signed_digits c s (h, hs) = ground (arith, read_digits-value s (0 * 10 + (c - b'0')) hs)

int_lem : (s : Text) → int s ≡ read_signed (strip s)
unfolding int
int_lem s = refl

pub int_digits : (c : ℕ) (s : Text) → AllDigits (c ∷ s) → int (c ∷ s) ≡ some (pos (value (c ∷ s)))
int_digits c s h = rw (int_lem, strip_digits (c ∷ s) h) (read_signed_digits c s h)

str_ℕ-AllDigits : (n : ℕ) → AllDigits (str_ℕ n)
unfolding str_ℕ
str_ℕ-AllDigits n = digits-AllDigits (n + 1) n [] (omega arith) tt

read_signed_of_digits :
    (s : Text) (m : ℕ) → AllDigits s → read_digits s 0 false ≡ some m → read_signed s ≡ some (pos m)
unfolding read_signed
read_signed_of_digits [] m h e = unfold read_digits in cc
read_signed_of_digits (c ∷ s) m (h, hs) e = ground arith

-- A decimal number is read back.
pub int-str_ℕ : (n : ℕ) → int (str_ℕ n) ≡ some (pos n)
int-str_ℕ n =
    rw (int_lem, strip_digits (str_ℕ n) (str_ℕ-AllDigits n))
      (read_signed_of_digits (str_ℕ n) n (str_ℕ-AllDigits n) (
        unfold str_ℕ in
        (read_digits-digits (n + 1) n [] false (omega arith) ∙ (unfold read_digits in refl))))

-- No character of a decimal number is any but a digit.
pub str_ℕ-digits :
    (cut : ℕ → Bool) (n : ℕ)
    → ((c : ℕ) → is_digit c ≡ true → cut c ≡ false)
    → All (λ c. cut c ≡ false) (str_ℕ n)
str_ℕ-digits cut n f = go (str_ℕ n) (str_ℕ-AllDigits n)
  where
    go : (s : Text) → AllDigits s → All (λ c. cut c ≡ false) s
    go [] h = tt
    go (c ∷ s) (h, hs) = (f c h, go s hs)
