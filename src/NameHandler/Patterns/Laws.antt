-- ===== src/NameHandler/Patterns/Laws.antt =====
-- The names that the tests of name_handler.py accept.
use pmfuzz.Base.{
  ℕ, true, false, ◌||◌, [], ◌∷◌, ◌++◌, ◌≡◌, ◌≢◌, ◌↔◌, inl, refl, ◌∙◌, sym, ap, append-nil, arith,
  Text, codes,
}
use pmfuzz.Str.{occurs}
use pmfuzz.Str.Path.{basename}
use pmfuzz.Str.Path.Laws.{IsFile, basename_file}
use pmfuzz.Regex.{Regex, lit, Matches}
use pmfuzz.Regex.Laws.{IsTail, search_anchored_iff, lit_iff}
use pmfuzz.NameHandler.Grammar.{Name, IsName, render, name_re}
use pmfuzz.NameHandler.Grammar.Reading.{name_re_sound, name_re_complete}
use pmfuzz.NameHandler.Grammar.Search.{occurs-render}
use pmfuzz.NameHandler.Patterns.{is_regex, is_tc, is_min_tc, is_cmpr_crash_site, tar_gz, tc_regex}

-- The last part of the path is a name in front of what the suffix matches.
abbrev pub Fits : Regex → Text → Type 0
Fits suffix f =
    (n : Name) × IsName n
    × (t : Text) × Matches suffix t
    × (e : Text) × IsTail e
    × (basename f ≡ render n t ++ e)

pub is_regex_iff :
    (suffix : Regex) (f : Text) → (is_regex f (name_re suffix) ≡ true) ↔ Fits suffix f
unfolding is_regex
is_regex_iff suffix f =
    let found = search_anchored_iff (name_re suffix) (basename f) in
    (
      λ h.
          let (u, e, p, m, tail) = found.0 h in
          let (n, hn, t, mt, q) = name_re_sound suffix u m in
          (n, hn, t, mt, e, tail, p ∙ ap (λ x. x ++ e) q),
      λ (n, hn, t, mt, e, tail, p).
          found.1 (render n t, e, p, name_re_complete suffix n t hn mt, tail),
    )

-- A plain file name, as the program makes them.
pub is_regex-render :
    (suffix : Regex) (n : Name) (t : Text)
    → IsName n
    → Matches suffix t
    → IsFile t
    → is_regex (render n t) (name_re suffix) ≡ true
is_regex-render suffix n t hn mt k = (is_regex_iff suffix (render n t)).1 (
  n,
  hn,
  t,
  mt,
  [],
  inl refl,
  basename_file _ (occurs-render b'/' n t refl hn ∙ k) ∙ sym (append-nil (render n t)),
)

is_tc_only : (f : Text) → is_tc f false ≡ is_regex f tc_regex
unfolding is_tc
is_tc_only f = ground arith

-- `is_tc` accepts the paths whose last part is a name in front of `.testcase`, and no others; a
-- newline may end the name.
pub is_tc_iff :
    (f : Text)
    → (is_tc f false ≡ true) ↔ (
        (n : Name) × IsName n
        × (e : Text) × IsTail e
        × (basename f ≡ render n (codes ".testcase") ++ e))
is_tc_iff f = rw is_tc_only (
  λ h.
      let (n, hn, t, mt, e, tail, p) = (is_regex_iff (lit (codes ".testcase")) f).0 h in
      (n, hn, e, tail, p ∙ ap (λ x. render n x ++ e) ((lit_iff (codes ".testcase") t).0 mt)),
  λ (n, hn, e, tail, p).
      (is_regex_iff (lit (codes ".testcase")) f).1
        (n, hn, codes ".testcase", (lit_iff (codes ".testcase") _).1 refl, e, tail, p),
)

-- With `all`, minimised testcases are accepted too.
pub is_tc_all : (f : Text) → is_tc f true ≡ (is_tc f false || is_min_tc f)
unfolding is_tc is_min_tc
is_tc_all f = ground arith

pub is_tc-render : (n : Name) → IsName n → is_tc (render n (codes ".testcase")) false ≡ true
is_tc-render n hn =
    is_tc_only _
    ∙ is_regex-render (lit (codes ".testcase")) n (codes ".testcase") hn
        ((lit_iff (codes ".testcase") (codes ".testcase")).1 refl) (unfold occurs in refl)

-- The two unescaped dots of the pattern: any two characters do, newlines and slashes apart.
pub is_cmpr_crash_site_dots :
    (n : Name) (a b : ℕ)
    → IsName n
    → (a ≢ b'\n') × (a ≢ b'/')
    → (b ≢ b'\n') × (b ≢ b'/')
    → is_cmpr_crash_site (render n (codes ".crash_site" ++ (a ∷ (codes "tar" ++ (b ∷ codes "gz")))))
      ≡ true
unfolding is_cmpr_crash_site
is_cmpr_crash_site_dots n a b hn ha hb =
    is_regex-render (tar_gz (codes ".crash_site")) n _ hn
      (
        codes ".crash_site",
        _,
        refl,
        (lit_iff (codes ".crash_site") _).1 refl,
        (
          a ∷ [],
          _,
          refl,
          (a, ground arith, refl),
          (
            codes "tar",
            _,
            refl,
            (lit_iff (codes "tar") _).1 refl,
            (b ∷ [], codes "gz", refl, (b, ground arith, refl), (lit_iff (codes "gz") _).1 refl),
          ),
        ),
      )
      (unfold occurs in ground arith)
