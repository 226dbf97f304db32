-- ===== src/Base/Outcome.antt =====
-- What a call ends with: a value, `abort`, or one of Python's exceptions.
use mathlib.Core.Bool.{Bool, true, false}
use mathlib.Core.Option.{Option, none, some}

-- `aborted` is `common.abort`, whose SIGUSR1 handler ends the process.
pub data Error : Type 0 where
  aborted index_error value_error key_error type_error attribute_error file_not_found eof_error :
      Error

pub data Result {ℓ} (A : Type ℓ) : Type ℓ where
  ok : A → Result A
  err : Error → Result A

-- `abort_if` (helper/common.py).
abbrev pub abort_if : Bool → Result (Unit {0})
abort_if true = err aborted
abort_if false = ok tt

-- An error passes by what would come behind it.
infixl 5 ◌>>=◌
abbrev pub ◌>>=◌ {κ ℓ} :
    {A : Type κ} {B : Type ℓ} (result : Result A) (later : (value : A) → Result B) → Result B
err raised >>= later = err raised
ok value >>= later = later value

infixl 5 ◌>>◌
abbrev pub ◌>>◌ {ℓ} : {B : Type ℓ} (check : Result (Unit {0})) (later : Result B) → Result B
err raised >> later = err raised
ok passed >> later = later

abbrev pub of_option {ℓ} : {A : Type ℓ} → Error → Option A → Result A
of_option e none = err e
of_option e (some a) = ok a
