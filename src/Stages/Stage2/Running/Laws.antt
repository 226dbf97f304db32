-- ===== src/Stages/Stage2/Running/Laws.antt =====
-- What a run on a testcase and on a crash site starts, and where its pid is found at its end.
use pmfuzz.Base.{pos, List, [], ◌∷◌, ◌≡◌, Text, codes, some, ok}
use pmfuzz.Str.Path.{join}
use pmfuzz.Str.Number.{str_ℕ, int}
use pmfuzz.Interfaces.Afl.{Event, Outside}
use pmfuzz.Interfaces.Afl.Laws.{pid_files}
use pmfuzz.Stages.Stage2.Running.{Place, get_result_dir}

-- The pid of the one fuzzer is written to the file in which the end of the run looks for it, and is
-- read back.
abbrev pub PidFound : Outside → Place → Text → List Event → Type 0
PidFound outside place name events =
    (result_dir : Text) × (get_result_dir place name ≡ ok result_dir)
    × (pid_files events ≡ (join result_dir (codes "pid"), str_ℕ (outside.pid 0)) ∷ [])
    × (int (str_ℕ (outside.pid 0)) ≡ some (pos (outside.pid 0)))
