-- ===== src/Helper/Shell.antt =====
-- helper/common.py, `exec_shell` and `translate_exit_code`, and `check_crash_site` of stages/stage.py,
-- which reads the exit code of the program under test. What the program does is an argument.
pub mod Laws
use pmfuzz.Base.{
  ℕ, suc, ◌+◌, ℤ, pos, negsuc, Bool, true, false, not, ◌&&◌, List, [], ◌∷◌, ◌++◌, ◌≡◌, refl,
  if◌then◌else◌, ltb, ◌==◌, Text, codes, text_eq, Option, none, some, Result, ok, err, value_error,
  type_error, map, ◌>>=◌, ◌>>◌, abort_if, of_option,
}
use pmfuzz.Str.Number.{str_ℕ}
use pmfuzz.Helper.Config.{Value, null, bool, number, float, text, list, dict}

-- How `subprocess.call` ends: with an exit code, which is -n for the signal n, or at its timeout.
pub data Ending : Type 0 where
  exited : ℤ → Ending
  timeout_expired : Ending

-- A timeout below a second is one second.
abbrev pub at_least_one : Option ℕ → Option ℕ
at_least_one none = none
at_least_one (some timeout) = if ltb timeout 1 then some 1 else some timeout

abbrev pub is_some {ℓ} : {A : Type ℓ} → Option A → Bool
is_some none = false
is_some (some a) = true

abbrev pub code_of : Ending → ℤ
code_of (exited code) = code
code_of timeout_expired = pos 0

abbrev pub as_word : Value → Result Text
as_word (text t) = ok t
as_word null = err type_error
as_word (bool b) = err type_error
as_word (number n) = err type_error
as_word (float t) = err type_error
as_word (list xs) = err type_error
as_word (dict d) = err type_error

-- `' '.join(cmd)`, which takes texts only.
unfoldable pub join_words : List Value → Result Text
join_words [] = ok []
join_words (v ∷ []) = as_word v
join_words (v ∷ w ∷ vs) = do word ← as_word v; line ← join_words (w ∷ vs); ok (word ++ (32 ∷ line))

-- `exec_shell(cmd, wait=…, timeout=…)`, over what the call does within a timeout, and the pid of a
-- process that is not waited for. The line that is told needs a command of texts. Timeouts are whole seconds, the working directory is the caller's, and
-- the program can be started.
unfoldable pub exec_shell : List Value → (Option ℕ → Ending) → ℕ → Bool → Option ℕ → Result ℤ
exec_shell cmd call pid true timeout = do
  line ← join_words cmd
  ok (code_of (call (at_least_one timeout)))
exec_shell cmd call pid false timeout = do
  line ← join_words cmd
  abort_if (is_some (at_least_one timeout))
  ok (pos pid)

-- `translate_exit_code(exit_code)`, over the names of the signals; an unknown signal is a ValueError.
unfoldable pub translate_exit_code : (ℕ → Option Text) → Option ℤ → Result (Text × Bool)
translate_exit_code signal_name none = ok (codes "Process timed out", true)
translate_exit_code signal_name (some (negsuc n)) = do
  name ← of_option value_error (signal_name (n + 1))
  ok (codes "Process exited with Signal " ++ name, false)
translate_exit_code signal_name (some (pos n)) =
    if n == 0
    then ok (codes "Process exited with code 0", true)
    else ok (codes "Process exited with a non-zero exit code " ++ str_ℕ n, false)

abbrev pub interesting_sig_num : List ℕ
interesting_sig_num = 4 ∷ 8 ∷ 10 ∷ 11 ∷ 12 ∷ []

abbrev pub is_one_of : List ℕ → ℕ → Bool
is_one_of [] n = false
is_one_of (m ∷ ms) n = if n == m then true else is_one_of ms n

abbrev pub is_interesting : ℤ → Bool
is_interesting (pos n) = false
is_interesting (negsuc n) = is_one_of interesting_sig_num (n + 1)

-- `check_crash_site(cspath)`: whether the details are saved as a possible bug. The tester is the
-- configured one, and it runs without a timeout.
unfoldable pub check_crash_site :
    (ℕ → Option Text) → Text → List Text → (Option ℕ → Ending) → Result Bool
check_crash_site signal_name tester_f cmd call = do
  abort_if (text_eq tester_f (codes "None"))
  exit_code ← exec_shell (map text cmd) call 0 true none
  (code_desc, success) ← translate_exit_code signal_name (some exit_code)
  ok (is_interesting exit_code)

shell_runs :
    (translate_exit_code (λ n. some (codes "SIGSEGV")) (some (negsuc 10))
      ≡ ok (codes "Process exited with Signal SIGSEGV", false))
    × (check_crash_site
          (λ n. some (codes "SIGSEGV"))
          (codes "t")
          (codes "t" ∷ [])
          (λ t. exited (negsuc 10))
        ≡ ok true)
unfolding translate_exit_code check_crash_site exec_shell join_words text_eq
shell_runs = (refl, refl)
