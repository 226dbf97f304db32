-- ===== src/Stages/State/Laws.antt =====
-- What `sync` finds in a listing of stage directories and special entries.
use pmfuzz.Base.{
  ℕ, ◌<◌, ◌≤◌, Bool, ◌&&◌, ◌||◌, List, [], ◌∷◌, ◌≡◌, ◌⊎◌, inl, inr, refl, ap, ◌∙◌, arith,
  if◌then◌else◌, ◌==◌, Text, codes, text_eq, contains, some, ok, ℤ, pos, ltb, map,
}
use pmfuzz.NameHandler.Stage.Laws.{dir_name, get_stage_inf-dir_name}
use pmfuzz.Stages.State.{State, larger, see, scan, sync}

-- What an output directory holds: the directories of stages, and names that start with '@'.
pub data Entry : Type 0 where
  special : Text → Entry
  stage_dir : ℕ → ℕ → Entry

abbrev pub entry_name : Entry → Text
entry_name (special name) = b'@' ∷ name
entry_name (stage_dir s i) = dir_name s i

-- The order of two stages with their iterations.
abbrev pub AtMost : ℕ × ℕ → ℕ × ℕ → Type 0
AtMost (s, i) (t, j) = (s < t) ⊎ ((s ≡ t) × (i ≤ j))

abbrev pub Within : ℕ × ℕ → List Entry → Type 0
Within best [] = Unit
Within best (special _ ∷ es) = Within best es
Within best (stage_dir s i ∷ es) = AtMost (s, i) best × Within best es

-- A stage directory of the listing.
abbrev pub Holds : ℕ × ℕ → List Entry → Type 0
Holds p [] = ⊥
Holds p (special _ ∷ es) = Holds p es
Holds p (stage_dir s i ∷ es) = (p ≡ (s, i)) ⊎ Holds p es

abbrev pub larger_ℕ : ℕ × ℕ → ℕ × ℕ → ℕ × ℕ
larger_ℕ (t, j) (s, i) = if ltb t s then (s, i) else if s == t && ltb j i then (t, i) else (t, j)

abbrev pub latest : ℕ × ℕ → List Entry → ℕ × ℕ
latest best [] = best
latest best (special _ ∷ es) = latest best es
latest best (stage_dir s i ∷ es) = latest (larger_ℕ best (s, i)) es

abbrev pub ints : ℕ × ℕ → ℤ × ℤ
ints (s, i) = (pos s, pos i)

larger-ints : (p q : ℕ × ℕ) → larger (ints p) (ints q) ≡ ints (larger_ℕ p q)
larger-ints (t, j) (s, i) = ground arith

see-dir :
    (best : ℕ × ℕ) (d : Bool) (s i : ℕ)
    → see (ints best, d) (dir_name s i) ≡ ok (ints (larger_ℕ best (s, i)), d)
unfolding see
see-dir best d s i = rw (get_stage_inf-dir_name s i) (ap (λ p. ok (p, d)) (larger-ints best (s, i)))

pub scan-entries :
    (best : ℕ × ℕ) (d : Bool) (es : List Entry)
    → scan (ints best, d) (map entry_name es)
      ≡ ok (ints (latest best es), d || contains (map entry_name es) (codes "@dedup"))
unfolding scan see contains text_eq
scan-entries best d [] = ground arith
scan-entries best d (special n ∷ es) =
    scan-entries best (d || text_eq (codes "@dedup") (b'@' ∷ n)) es
    ∙ ap (λ b. ok (ints (latest best es), b)) (ground arith)
scan-entries best d (stage_dir s i ∷ es) =
    rw (see-dir best d s i) (scan-entries (larger_ℕ best (s, i)) d es)

larger_left : (p q : ℕ × ℕ) → AtMost p (larger_ℕ p q)
larger_left (t, j) (s, i) = ground arith

larger_right : (p q : ℕ × ℕ) → AtMost q (larger_ℕ p q)
larger_right (t, j) (s, i) = ground arith

larger_either : (p q : ℕ × ℕ) → (larger_ℕ p q ≡ p) ⊎ (larger_ℕ p q ≡ q)
larger_either (t, j) (s, i) = ground arith

AtMost-trans : (p q r : ℕ × ℕ) → AtMost p q → AtMost q r → AtMost p r
AtMost-trans (a, b) (c, d) (e, f) h k = ground arith

latest_above :
    (best : ℕ × ℕ) (es : List Entry) → AtMost best (latest best es) × Within (latest best es) es
latest_above best [] = (inr (refl, omega arith), tt)
latest_above best (special _ ∷ es) = latest_above best es
latest_above best (stage_dir s i ∷ es) =
    let (above, within) = latest_above (larger_ℕ best (s, i)) es in
    (
      AtMost-trans _ _ _ (larger_left best (s, i)) above,
      (AtMost-trans _ _ _ (larger_right best (s, i)) above, within),
    )

latest_among :
    (best : ℕ × ℕ) (es : List Entry) → Holds (latest best es) es ⊎ (latest best es ≡ best)
latest_among best [] = inr refl
latest_among best (special _ ∷ es) = latest_among best es
latest_among best (stage_dir s i ∷ es) = elim (latest_among (larger_ℕ best (s, i)) es) [
  | inl h ↦ inl (inr h)
  | inr e ↦ elim (larger_either best (s, i)) [ inl f ↦ inr (e ∙ f) | inr f ↦ inl (inl (e ∙ f)) ]
]

-- Whatever the order of the listing, `sync` finds a stage and an iteration that no stage
-- directory of it exceeds, and that one of them has, or 0 and 0 where there is none; and it notes
-- `@dedup` where the listing has it.
pub sync_latest :
    (state : State) (es : List Entry)
    → (p : ℕ × ℕ) × (sync state (map entry_name es)
        ≡ ok (record {
          found = some (ints p);
          _dedup_exists = state._dedup_exists || contains (map entry_name es) (codes "@dedup");
        }))
      × Within p es
      × (Holds p es ⊎ (p ≡ (0, 0)))
unfolding sync
sync_latest state es = (
  latest (0, 0) es,
  rw (scan-entries (0, 0) state._dedup_exists es) refl,
  (latest_above (0, 0) es).1,
  latest_among (0, 0) es,
)
