-- ===== src/NameHandler/Grammar/Reading.antt =====
-- The naming patterns describe the rendered names.
use pmfuzz.Base.{
  true, List, [], ◌∷◌, ◌++◌, ◌≡◌, refl, ◌∙◌, ap, append_assoc, Text, codes, All, All-append,
  append-nil,
}
use pmfuzz.Str.Number.{is_digit}
use pmfuzz.Regex.{Regex, char, Star, stop, more, Matches}
use pmfuzz.Regex.Laws.{lit_iff}
use pmfuzz.NameHandler.Grammar.{
  Link, dot, comma, Name, IsDigits, IsLink, IsName, render_id, render_links, render,
  render_links-append, id_re, dot_re, comma_re, name_re,
}

Star-digits : {w : Text} → Star (Matches (char is_digit)) w → All (λ d. is_digit d ≡ true) w
Star-digits (stop e) = rw e tt
Star-digits (more {v = v} (c, h, p) s e) = let q = e ∙ ap (λ t. t ++ v) p in rw q (h, Star-digits s)

digits-Star : (w : Text) → All (λ d. is_digit d ≡ true) w → Star (Matches (char is_digit)) w
digits-Star [] h = stop refl
digits-Star (c ∷ w) (h, hs) = more (c, h, refl) (digits-Star w hs) refl

-- Read an id, a run of dot links, a comma link with its dot links, a run of those. Each is stated
-- in front of any rest `v`.
read_id :
    (u : Text) → Matches id_re u → (d : Text) × IsDigits d × ((v : Text) → u ++ v ≡ render_id d v)
read_id u (a, b, e, la, (x, y, e', (c, h, p), s)) = (
  c ∷ y,
  (h, Star-digits s),
  λ v. let q : a ≡ codes "id=" = (lit_iff (codes "id=") a).0 la in rw (e, q, e', p),
)

read_dots :
    {u : Text}
    → Star (Matches dot_re) u
    → (ls : List Link) × All IsLink ls × ((v : Text) → u ++ v ≡ render_links ls v)
read_dots (stop e) = ([], tt, λ v. rw e)
read_dots (more {u = a} {v = b} (x, y, p, lx, my) s e) =
    let (ls, hs, f) = read_dots s in
    let (d, hd, g) = read_id y my in
    let q : x ≡ codes "." = (lit_iff (codes ".") x).0 lx in
    (dot d ∷ ls, (hd, hs), λ v. rw (e, p, q, append_assoc y b v, g (b ++ v), f v))

read_comma :
    (u : Text)
    → Matches comma_re u
    → (ls : List Link) × All IsLink ls × ((v : Text) → u ++ v ≡ render_links ls v)
read_comma u (a, b, e, la, (x, y, e', mx, sy)) =
    let (ls, hs, f) = read_dots sy in
    let (d, hd, g) = read_id x mx in
    let q : a ≡ codes "," = (lit_iff (codes ",") a).0 la in
    (comma d ∷ ls, (hd, hs), λ v. rw (e, q, e', append_assoc x y v, g (y ++ v), f v))

read_commas :
    {u : Text}
    → Star (Matches comma_re) u
    → (ls : List Link) × All IsLink ls × ((v : Text) → u ++ v ≡ render_links ls v)
read_commas (stop e) = ([], tt, λ v. rw e)
read_commas (more {u = a} {v = b} m s e) =
    let (ls, hs, f) = read_comma a m in
    let (ms, ht, g) = read_commas s in
    (
      ls ++ ms,
      All-append IsLink ls ms hs ht,
      λ v. rw (e, append_assoc a b v, f (b ++ v), g v, render_links-append),
    )

-- What a naming pattern matches is a name in front of what the suffix matches.
pub name_re_sound :
    (suffix : Regex) (w : Text)
    → Matches (name_re suffix) w
    → (n : Name) × IsName n × (t : Text) × Matches suffix t × (w ≡ render n t)
name_re_sound suffix w (a, w1, e, ma, (b, w2, e1, sb, (c, t, e2, sc, mt))) =
    let (d, hd, f) = read_id a ma in
    let (ls, hs, g) = read_dots sb in
    let (ms, ht, k) = read_commas sc in
    (
      record { first = d; rest = ls ++ ms },
      (hd, All-append IsLink ls ms hs ht),
      t,
      mt,
      rw (e, f w1, e1, g w2, e2, k t, render_links-append),
    )

write_id : (d : Text) → IsDigits d → Matches id_re (render_id d [])
write_id [] h = absurd h
write_id (c ∷ d) (h, hs) = (
  codes "id=",
  c ∷ d,
  rw append-nil,
  (lit_iff (codes "id=") _).1 refl,
  (c ∷ [], d, refl, (c, h, refl), digits-Star d hs),
)

-- The links as dot links of the first id, and comma links behind them.
record Runs (ls : List Link) : Type 0 where
  dots : Text
  commas : Text
  is_dots : Star (Matches dot_re) dots
  is_commas : Star (Matches comma_re) commas
  spells : (v : Text) → render_links ls v ≡ dots ++ (commas ++ v)

write_links : (ls : List Link) → All IsLink ls → Runs ls
write_links [] hs = record {
  dots = [];
  commas = [];
  is_dots = stop refl;
  is_commas = stop refl;
  spells = λ v. refl;
}
write_links (dot d ∷ ls) (hd, hs) =
    let r = write_links ls hs in
    record {
      dots = render_links (dot d ∷ []) [] ++ r.dots;
      commas = r.commas;
      is_dots =
          more (codes ".", render_id d [], refl, (lit_iff (codes ".") _).1 refl, write_id d hd)
            r.is_dots refl;
      is_commas = r.is_commas;
      spells = λ v. rw (r.spells v) (simp (append_assoc, append-nil));
    }
write_links (comma d ∷ ls) (hd, hs) =
    let r = write_links ls hs in
    record {
      dots = [];
      commas = render_links (comma d ∷ []) r.dots ++ r.commas;
      is_dots = stop refl;
      is_commas =
          more
            (
              codes ",",
              render_id d r.dots,
              refl,
              (lit_iff (codes ",") _).1 refl,
              (render_id d [], r.dots, simp append-nil, write_id d hd, r.is_dots),
            )
            r.is_commas refl;
      spells = λ v. rw (r.spells v) (simp append_assoc);
    }

-- And the other way round.
pub name_re_complete :
    (suffix : Regex) (n : Name) (t : Text)
    → IsName n
    → Matches suffix t
    → Matches (name_re suffix) (render n t)
name_re_complete suffix n t (hd, hs) m =
    let r = write_links n.rest hs in
    (
      render_id n.first [],
      render_links n.rest t,
      simp append-nil,
      write_id n.first hd,
      (r.dots, r.commas ++ t, r.spells t, r.is_dots, (r.commas, t, refl, r.is_commas, m)),
    )
