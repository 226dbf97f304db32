-- ===== src/Helper/PTimer.antt =====
-- helper/ptimer.py: a countdown that a file keeps across runs. Times are whole ticks. The file holds
-- `str` of the dict, which is told here by the dict itself: Python's `eval` reads a printed dict of
-- numbers back.
pub mod Laws
use pmfuzz.Base.{
  ℕ, ◌-◌, Bool, true, false, not, ◌≡◌, refl, Option, none, some, Result, ok, ◌>>=◌, ◌>>◌, abort_if,
  ltb, ◌==◌,
}

-- The dict with the keys 'start' and 'length'.
pub record Countdown : Type 0 where
  pub start : ℕ
  pub length : ℕ

-- A timer object and the file at its `timer_path`.
pub record PTimer : Type 0 where
  pub state : Countdown
  pub file : Option Countdown

abbrev pub zero_state : Countdown
zero_state = record { start = 0; length = 0 }

-- `_sync`: write the state to the file, as it is printed.
abbrev pub _sync : Countdown → PTimer
_sync state = record { state = state; file = some state }

-- `read`: the state that the file prints, and where there is none the state as it is.
abbrev pub read : Countdown → Option Countdown → Countdown
read state none = state
read state (some kept) = kept

-- `PTimer(timer_dir)`, which wants a directory.
unfoldable pub new_ptimer : Bool → Option Countdown → Result PTimer
new_ptimer is_dir file = do abort_if (not is_dir); ok (_sync (read zero_state file))

unfoldable pub set : ℕ → PTimer → PTimer
set length t = _sync (record { start = t.state.start; length = length })

-- `now` is `time.time()`.
unfoldable pub start : ℕ → PTimer → PTimer
start now t = _sync (record { start = now; length = t.state.length })

-- A clock that was set back below the start makes the difference negative, and 0 does the same here.
unfoldable pub expired : ℕ → PTimer → Bool
expired now t = ltb t.state.length (now - t.state.start)

unfoldable pub clear : PTimer → PTimer
clear t = _sync zero_state

unfoldable pub start_new : ℕ → ℕ → PTimer → PTimer
start_new length now t = start now (set length (clear t))

unfoldable pub is_new : PTimer → Bool
is_new t = t.state.start == 0
