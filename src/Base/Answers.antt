-- ===== src/Base/Answers.antt =====
-- Calls that are made one after another, each of which may fail; what they give depends on those before.
use pmfuzz.Base.{
  List, [], ◌∷◌, ◌++◌, append_assoc, append-nil, ◌≡◌, refl, sym, ap, Result, ok, err, ◌>>=◌, ◌>>◌,
}

-- What each call gives, after those that were made before it.
abbrev pub Outcomes {ℓ} : Type ℓ → Type ℓ
Outcomes A = List A → A → Result (Unit {0})

-- No call fails.
abbrev pub all_return {ℓ} : {A : Type ℓ} → Outcomes A
all_return before c = ok tt

-- What some calls give one after another, behind those that were made: the first failure, if any.
unfoldable pub answer {ℓ} : {A : Type ℓ} → Outcomes A → List A → List A → Result (Unit {0})
answer outcomes before [] = ok tt
answer outcomes before (c ∷ cs) = do outcomes before c; answer outcomes (before ++ (c ∷ [])) cs

pub then_bind {κ ℓ} :
    {A : Type κ} {B : Type ℓ} (r : Result (Unit {0})) (m : Result A) (f : A → Result B)
    → ((r >> m) >>= f) ≡ (r >> (m >>= f))
then_bind (ok u) m f = refl
then_bind (err e) m f = refl

pub then_then {ℓ} :
    {A : Type ℓ} (r s : Result (Unit {0})) (m : Result A) → (r >> (s >> m)) ≡ ((r >> s) >> m)
then_then (ok u) s m = refl
then_then (err e) s m = refl

pub answer-append {ℓ} :
    {A : Type ℓ} (outcomes : Outcomes A) (before cs ds : List A)
    → answer outcomes before (cs ++ ds)
      ≡ (answer outcomes before cs >> answer outcomes (before ++ cs) ds)
unfolding answer
answer-append outcomes before [] ds = ap (λ b. answer outcomes b ds) (sym (append-nil before))
answer-append outcomes before (c ∷ cs) ds =
    rw (answer-append outcomes (before ++ (c ∷ [])) cs ds, append_assoc before (c ∷ []) cs)
      (then_then (outcomes before c) _ _)

-- The front of the calls has been made, and the rest goes on from there.
pub answer-then {κ ℓ} :
    {A : Type κ} {B : Type ℓ} (outcomes : Outcomes A) (before cs ds : List A) (m : Result B)
    → (answer outcomes before cs >> (answer outcomes (before ++ cs) ds >> m))
      ≡ (answer outcomes before (cs ++ ds) >> m)
answer-then outcomes before cs ds m =
    rw (answer-append outcomes before cs ds)
      (then_then (answer outcomes before cs) (answer outcomes (before ++ cs) ds) m)
