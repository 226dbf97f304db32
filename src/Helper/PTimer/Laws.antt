-- ===== src/Helper/PTimer/Laws.antt =====
-- A timer that another run opens is the same timer.
use pmfuzz.Base.{
  ℕ, ◌+◌, Bool, true, List, [], ◌∷◌, ◌≡◌, refl, arith, some, Result, ok, ◌>>=◌, ltb, ◌==◌, Option,
}
use pmfuzz.Helper.PTimer.{
  PTimer, Countdown, new_ptimer, set, start, clear, start_new, expired, is_new,
}

-- What a run does to a timer.
pub data Op : Type 0 where
  set_to : ℕ → Op
  start_at : ℕ → Op
  clear_it : Op
  start_new_at : ℕ → ℕ → Op

abbrev pub act : Op → PTimer → PTimer
act (set_to length) t = set length t
act (start_at now) t = start now t
act clear_it t = clear t
act (start_new_at length now) t = start_new length now t

abbrev pub acts : List Op → PTimer → PTimer
acts [] t = t
acts (op ∷ ops) t = acts ops (act op t)

Saved : PTimer → Type 0
Saved t = t.file ≡ some t.state

act-Saved : (op : Op) (t : PTimer) → Saved (act op t)
unfolding Saved set start clear start_new
act-Saved (set_to length) t = refl
act-Saved (start_at now) t = refl
act-Saved clear_it t = refl
act-Saved (start_new_at length now) t = refl

acts-Saved : (ops : List Op) (t : PTimer) → Saved t → Saved (acts ops t)
acts-Saved [] t h = h
acts-Saved (op ∷ ops) t h = acts-Saved ops (act op t) (act-Saved op t)

new_ptimer-Saved : (t : PTimer) → Saved t → new_ptimer true t.file ≡ ok t
unfolding Saved new_ptimer
new_ptimer-Saved t h = rw h refl

-- However a run starts and whatever it does to its timer, a later run that opens the file of that
-- timer has the timer as it was left.
new_ptimer-acts :
    (file : Option Countdown) (ops : List Op)
    → (new_ptimer true file >>= λ t. new_ptimer true (acts ops t).file)
      ≡ (new_ptimer true file >>= λ t. ok (acts ops t))
unfolding new_ptimer Saved
new_ptimer-acts file ops = new_ptimer-Saved (acts ops _) (acts-Saved ops _ refl)

abbrev pub report : ℕ → PTimer → Result (Bool × Bool)
report now t = ok (expired now t, is_new t)

-- A timer that is started for a length, and opened again by a later run, has expired once more than
-- that length has passed, and is new only where the clock stood at 0.
pub expired-start_new :
    (t : PTimer) (length began now : ℕ)
    → (new_ptimer true (start_new length began t).file >>= report now)
      ≡ ok (ltb (began + length) now, began == 0)
unfolding new_ptimer start_new start set expired is_new
expired-start_new t length began now = ground arith
