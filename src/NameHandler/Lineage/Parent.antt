-- ===== src/NameHandler/Lineage/Parent.antt =====
-- The parent of a testcase: its name without the last id.
use pmfuzz.Base.{
  ℕ, true, List, [], ◌∷◌, ◌++◌, ◌≡◌, refl, sym, ap, ◌∙◌, arith, Text, codes, ok, map, All,
  append_assoc, append-nil, if◌then◌else◌,
}
use pmfuzz.Str.{is_in, split_at}
use pmfuzz.Str.Laws.{Uncut, split_at_whole, split_at_sep}
use pmfuzz.Str.Number.{is_digit}
use pmfuzz.Str.Path.{basename}
use pmfuzz.Str.Path.Laws.{IsDir, in_dir, basename-in_dir, basename_file, no_dir-IsDir}
use pmfuzz.NameHandler.Grammar.{
  Link, dot, comma, Name, IsName, IsLink, IsDigits, render, render_id, render_links,
  render_links_end,
}
use pmfuzz.NameHandler.Metadata.{get_extension, first_ext}
use pmfuzz.NameHandler.Metadata.Family.{Kind, file_name-IsFile, bare_name, find_foreign}
use pmfuzz.NameHandler.Lineage.{is_delim, delims, init, rebuild, parent_name, get_testcase_parent}

abbrev link_id : Link → Text
link_id (dot d) = codes "id=" ++ d
link_id (comma d) = codes "id=" ++ d

abbrev link_mark : Link → ℕ
link_mark (dot d) = b'.'
link_mark (comma d) = b','

All-Uncut : (d : Text) → All (λ c. is_digit c ≡ true) d → Uncut is_delim d
All-Uncut [] h = tt
All-Uncut (c ∷ d) (h, hs) = (ground arith, All-Uncut d hs)

id-Uncut : (d : Text) → IsDigits d → Uncut is_delim (codes "id=" ++ d)
id-Uncut [] h = absurd h
id-Uncut (c ∷ d) h = (refl, (refl, (refl, All-Uncut (c ∷ d) h)))

-- The ids, and the delimiters between them.
split_at-ids :
    (d : Text) (ls : List Link)
    → IsDigits d
    → All IsLink ls
    → split_at is_delim (render_id d (render_links ls [])) ≡ (codes "id=" ++ d) ∷ map link_id ls
split_at-ids d [] h _ = rw append-nil (split_at_whole is_delim (codes "id=" ++ d) (id-Uncut d h))
split_at-ids d (dot e ∷ ls) h (he, hs) =
    split_at_sep is_delim (codes "id=" ++ d) b'.' _ (id-Uncut d h) refl
    ∙ ap (◌∷◌ (codes "id=" ++ d)) (split_at-ids e ls he hs)
split_at-ids d (comma e ∷ ls) h (he, hs) =
    split_at_sep is_delim (codes "id=" ++ d) b',' _ (id-Uncut d h) refl
    ∙ ap (◌∷◌ (codes "id=" ++ d)) (split_at-ids e ls he hs)

delims_skip : (s t : Text) → Uncut is_delim s → delims (s ++ t) ≡ delims t
unfolding delims
delims_skip [] t h = refl
delims_skip (c ∷ s) t (h, hs) = rw (h, if◌then◌else◌) (delims_skip s t hs)

delims_mark : (c : ℕ) (t : Text) → is_delim c ≡ true → delims (c ∷ t) ≡ c ∷ delims t
unfolding delims
delims_mark c t h = rw h

delims-links :
    (d : Text) (ls : List Link)
    → IsDigits d
    → All IsLink ls
    → delims (render_id d (render_links ls [])) ≡ map link_mark ls
delims-links d [] h _ = delims_skip (codes "id=" ++ d) [] (id-Uncut d h) ∙ (unfold delims in refl)
delims-links d (dot e ∷ ls) h (he, hs) =
    delims_skip (codes "id=" ++ d) (b'.' ∷ render_id e (render_links ls [])) (id-Uncut d h)
    ∙ delims_mark b'.' _ refl
    ∙ ap (◌∷◌ b'.') (delims-links e ls he hs)
delims-links d (comma e ∷ ls) h (he, hs) =
    delims_skip (codes "id=" ++ d) (b',' ∷ render_id e (render_links ls [])) (id-Uncut d h)
    ∙ delims_mark b',' _ refl
    ∙ ap (◌∷◌ b',') (delims-links e ls he hs)

init-map {ℓ} :
    {A : Type ℓ} (f : A → Text) (x : Text) (y : A) (ys : List A)
    → init (x ∷ map f (y ∷ ys)) ≡ x ∷ map f (init (y ∷ ys))
unfolding init
init-map f x y [] = refl
init-map f x y (z ∷ ys) = ap (◌∷◌ x) (init-map f (f y) z ys)

rebuild-links :
    (result : Text) (l : Link) (ls : List Link)
    → rebuild result (map link_id (init (l ∷ ls))) (map link_mark (l ∷ ls))
      ≡ ok (result ++ render_links (init (l ∷ ls)) [])
unfolding rebuild init
rebuild-links result l [] = ap ok (sym (append-nil result))
rebuild-links result (dot e) (l ∷ ls) = rebuild-links _ l ls ∙ ap ok (simp append_assoc)
rebuild-links result (comma e) (l ∷ ls) = rebuild-links _ l ls ∙ ap ok (simp append_assoc)

-- The parent's file name: the name without its last id, and nothing for a name with one id.
abbrev pub parent_of : Name → Text
parent_of n = elim n.rest [
  | [] ↦ []
  | l ∷ ls ↦ render_id n.first (render_links (init (l ∷ ls)) (codes ".testcase"))
]

parent_name-links :
    (d : Text) (ls : List Link)
    → parent_name
        (init ((codes "id=" ++ d) ∷ map link_id ls))
        (map link_mark ls)
        (codes ".testcase")
      ≡ ok (elim ls [
        | [] ↦ []
        | l ∷ ls' ↦ render_id d (render_links (init (l ∷ ls')) (codes ".testcase"))
      ])
parent_name-links d [] = unfold parent_name init in refl
parent_name-links d (l ∷ ls) =
    unfold parent_name in
    rw (init-map link_id (codes "id=" ++ d) l ls, rebuild-links (codes "id=" ++ d) l ls)
      (ap ok (
        simp append_assoc (
          ap (λ t. codes "id=" ++ (d ++ t))
            (sym (render_links_end (init (l ∷ ls)) (codes ".testcase"))))))

module _ (n : Name) (h : IsName n) where
  basename-render : basename (render n (codes ".testcase")) ≡ render n (codes ".testcase")
  basename-render = basename_file _ (file_name-IsFile [] n no_dir-IsDir h Kind.testcase)

  has_ext : is_in (codes "testcase") (render n (codes ".testcase")) ≡ true
  has_ext =
      find_foreign n h b't' (codes "estcase") (codes ".testcase") refl ∙ (unfold is_in in refl)

  get_extension-render : get_extension (render n (codes ".testcase")) ≡ codes ".testcase"
  unfolding get_extension first_ext
  get_extension-render = rw (basename-render, has_ext)

-- Of a testcase in any directory, the parent is the name without its last id.
pub get_testcase_parent-render :
    (dir : Text) (n : Name)
    → IsDir dir
    → IsName n
    → get_testcase_parent (in_dir dir (render n (codes ".testcase"))) ≡ ok (parent_of n)
unfolding get_testcase_parent
get_testcase_parent-render dir n hd h =
    rw
      (
        basename-in_dir dir (render n (codes ".testcase"))
            (file_name-IsFile dir n hd h Kind.testcase),
        get_extension-render n h,
        bare_name dir n hd h,
        split_at-ids n.first n.rest h.0 h.1,
        delims-links n.first n.rest h.0 h.1,
      )
      (parent_name-links n.first n.rest)
