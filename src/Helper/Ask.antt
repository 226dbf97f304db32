-- ===== src/Helper/Ask.antt =====
-- `ask_yn` of helper/common.py.
use pmfuzz.Base.{
  ◌+◌, Bool, true, false, ◌&&◌, ◌||◌, List, [], ◌∷◌, ◌≡◌, refl, if◌then◌else◌, leb, Text, codes,
  text_eq, Option, none, some, Result, ok, err, eof_error, map,
}
use pmfuzz.Str.Number.{strip, lstrip}

-- `lower()` of a line of ASCII.
abbrev pub lower : Text → Text
lower = map (λ c. if leb b'A' c && leb c b'Z' then c + 32 else c)

-- `ask_yn(question, force_resp)`, over the lines that `input` reads.
unfoldable pub ask_yn : Option Text → List Text → Result Bool
ask_yn (some resp) lines = ok (text_eq resp (codes "y"))
ask_yn none [] = err eof_error
ask_yn none (line ∷ lines) =
    let resp = strip (lower line) in
    let again = ask_yn none lines in
    if text_eq resp (codes "y") || text_eq resp (codes "n")
    then ok (text_eq resp (codes "y"))
    else again

ask_runs :
    (ask_yn none (codes "maybe" ∷ codes " Y" ∷ []) ≡ ok true)
    × (ask_yn (some (codes "False")) [] ≡ ok false)
unfolding ask_yn text_eq strip lstrip
ask_runs = (refl, refl)
