-- ===== src/Helper/Shell/Laws.antt =====
-- Which ends of a program count as a success, and which as a possible bug.
use pmfuzz.Base.{
  ℕ, ◌+◌, ℤ, pos, negsuc, Bool, true, false, ◌≡◌, inl, inr, refl, arith, ◌==◌, Text, codes, text_eq,
  Option, none, some, Result, ok, err, value_error, aborted, not, abort_if, if◌then◌else◌, ◌>>=◌,
  ◌>>◌, Option-cases, ap, ◌∙◌, eq_ℤ, neg, ◌||◌, List, [], ◌∷◌, ◌++◌, map,
}
use pmfuzz.Helper.Config.{text}
use pmfuzz.Helper.Shell.{
  Ending, exited, timeout_expired, at_least_one, code_of, exec_shell, join_words,
  translate_exit_code, check_crash_site, is_interesting,
}

-- A command of texts is told.
pub join_words-texts : (ts : List Text) → (line : Text) × (join_words (map text ts) ≡ ok line)
unfolding join_words
join_words-texts [] = ([], refl)
join_words-texts (t ∷ []) = (t, refl)
join_words-texts (t ∷ u ∷ ts) =
    let (line, e) = join_words-texts (u ∷ ts) in (t ++ (32 ∷ line), rw e refl)

-- The run of a program that is waited for, and what its exit code is said to be.
unfoldable pub run_and_tell :
    (ℕ → Option Text) → List Text → (Option ℕ → Ending) → Option ℕ → Result (Text × Bool)
run_and_tell signal_name cmd call timeout = do
  code ← exec_shell (map text cmd) call 0 true timeout
  translate_exit_code signal_name (some code)

-- What the end of a program is said to be: a timeout is told as an exit with 0, and a success.
abbrev pub told : (ℕ → Option Text) → Ending → Result Bool
told signal_name timeout_expired = ok true
told signal_name (exited (pos n)) = ok (n == 0)
told signal_name (exited (negsuc n)) = elim (signal_name (n + 1)) [
  | none ↦ err value_error
  | some name ↦ ok false
]

told-code :
    (signal_name : ℕ → Option Text) (e : Ending)
    → (translate_exit_code signal_name (some (code_of e)) >>= λ (descr, success). ok success)
      ≡ told signal_name e
unfolding translate_exit_code
told-code signal_name timeout_expired = refl
told-code signal_name (exited (pos n)) = ground arith
told-code signal_name (exited (negsuc n)) = ground arith

-- A success goes on, anything else aborts.
pub told_next {ℓ} :
    {A : Type ℓ}
    → (signal_name : ℕ → Option Text) (e : Ending) (out : A)
    → (translate_exit_code signal_name (some (code_of e)) >>= λ (descr, success).
        (abort_if (not success) >> ok out))
      ≡ (told signal_name e >>= λ success. if success then ok out else err aborted)
unfolding translate_exit_code
told_next signal_name timeout_expired out = refl
told_next signal_name (exited (pos n)) out = ground arith
told_next signal_name (exited (negsuc n)) out = elim (Option-cases (signal_name (n + 1))) [
  | inl e ↦ rw (e, told) refl
  | inr (name, e) ↦ rw (e, told) refl
]

never_told :
    (signal_name : ℕ → Option Text) (e : Ending)
    → ¬ (translate_exit_code signal_name (some (code_of e)) ≡ ok (codes "Process timed out", true))
unfolding translate_exit_code
never_told signal_name timeout_expired h = ground arith
never_told signal_name (exited (pos n)) h = ground arith
never_told signal_name (exited (negsuc n)) h = ground arith

-- A program that is waited for is a success exactly where it exits with 0 or runs into its timeout,
-- which is one second at least; an unknown signal is an error. That a process timed out is never
-- told.
pub run_and_tell_lem :
    (signal_name : ℕ → Option Text) (cmd : List Text) (call : Option ℕ → Ending)
    (timeout : Option ℕ)
    → ((run_and_tell signal_name cmd call timeout >>= λ (descr, success). ok success)
        ≡ told signal_name (call (at_least_one timeout)))
      × (¬ (run_and_tell signal_name cmd call timeout ≡ ok (codes "Process timed out", true)))
unfolding run_and_tell exec_shell
run_and_tell_lem signal_name cmd call timeout =
    let (line, e) = join_words-texts cmd in
    (
      rw e (told-code signal_name (call (at_least_one timeout))),
      rw e (never_told signal_name (call (at_least_one timeout))),
    )

ends_ok :
    (signal_name : ℕ → Option Text) (e : Ending) (success : Bool)
    → told signal_name e ≡ ok success
    → (saved : Bool)
    → (translate_exit_code signal_name (some (code_of e)) >>= λ (code_desc, success). ok saved)
      ≡ ok saved
unfolding translate_exit_code
ends_ok signal_name timeout_expired success h saved = refl
ends_ok signal_name (exited (pos n)) success h saved = ground arith
ends_ok signal_name (exited (negsuc n)) success h saved =
    elim (Option-cases (signal_name (n + 1))) [
      | inl e ↦ absurd (no_name (rw (e, told) at h))
      | inr (name, e) ↦ rw e refl
    ]
  where
    no_name : {b : Bool} → ◌≡◌ {A = Result Bool} (err value_error) (ok b) → ⊥
    no_name h = cc

-- The exit codes that are saved as possible bugs.
abbrev pub is_saved : ℤ → Bool
is_saved code =
    eq_ℤ code (neg 4)
    || eq_ℤ code (neg 8)
    || eq_ℤ code (neg 10)
    || eq_ℤ code (neg 11)
    || eq_ℤ code (neg 12)

saved_lem : (code : ℤ) → is_interesting code ≡ is_saved code
saved_lem (pos n) = refl
saved_lem (negsuc n) = ground arith

-- With a tester, and where the signal that ended it has a name, a crash site does not abort, and is
-- saved as a possible bug exactly where the tester was ended by one of the signals 4, 8, 10, 11 and
-- 12.
pub check_crash_site_lem :
    (signal_name : ℕ → Option Text) (tester_f : Text) (cmd : List Text) (call : Option ℕ → Ending)
    (success : Bool)
    → text_eq tester_f (codes "None") ≡ false
    → told signal_name (call none) ≡ ok success
    → check_crash_site signal_name tester_f cmd call ≡ ok (is_saved (code_of (call none)))
unfolding check_crash_site exec_shell
check_crash_site_lem signal_name tester_f cmd call success h t =
    rw (h, (join_words-texts cmd).1)
      (ends_ok signal_name (call none) success t (is_interesting (code_of (call none)))
        ∙ ap ok (saved_lem (code_of (call none))))
