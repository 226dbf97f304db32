-- ===== src/NameHandler/Image/Laws.antt =====
-- What the command becomes, and which image a parent has.
use mathlib.Core.List.{map-append}
use pmfuzz.Base.{
  ℕ, Bool, true, false, List, [], ◌∷◌, ◌++◌, ◌≡◌, ◌≢◌, refl, sym, ap, ◌∙◌, arith, if◌then◌else◌,
  Text, codes, ◌>>◌, map, All, append-nil,
}
use pmfuzz.Str.{is_in, replace, replace_from, interleave}
use pmfuzz.Str.Laws.{replace_here, is_in-append}
use pmfuzz.Str.Path.{join}
use pmfuzz.Str.Path.Laws.{IsDir, in_dir, basename-in_dir, no_dir-IsDir}
use pmfuzz.NameHandler.Grammar.{Name, Link, IsName, IsLink, render}
use pmfuzz.NameHandler.Metadata.Family.{
  Kind, file_name, file_name-IsFile, get_metadata_files-file_name,
}
use pmfuzz.NameHandler.Lineage.{init}
use pmfuzz.NameHandler.Lineage.Parent.{get_testcase_parent-render}
use pmfuzz.NameHandler.Image.{
  pm_img_mrk, mark_image, has_mark, set_img_name, set_img_path, Get, valid_get, pick_img,
  get_parent_img,
}

mark_image_none : (cmd : List Text) (path : Text) → has_mark cmd ≡ false → mark_image cmd path ≡ cmd
unfolding mark_image has_mark
mark_image_none [] path h = refl
mark_image_none (w ∷ cmd) path h = ground (arith, mark_image_none cmd path)

is_in_nil : (s : Text) → is_in [] s ≡ true
unfolding is_in
is_in_nil [] = refl
is_in_nil (c ∷ s) = refl

-- Without a marker `set_img_name` leaves the command alone and returns an empty path.
pub set_img_name_none :
    (cmd : List Text) (name loc : Text)
    → has_mark cmd ≡ false
    → set_img_name cmd name loc ≡ ([], cmd)
unfolding set_img_name
set_img_name_none cmd name loc h = rw (h, mark_image_none cmd (join loc name) h)

replace_all :
    (cmd : List Text) (path : Text)
    → map (λ word. if is_in [] word then replace word [] path else word) cmd
      ≡ map (interleave path) cmd
unfolding replace
replace_all [] path = refl
replace_all (w ∷ cmd) path = rw (is_in_nil w) (ap (◌∷◌ (interleave path w)) (replace_all cmd path))

-- Without a marker `set_img_path` returns the new path all the same, and writes it in front of
-- every character of the command and at the end of every word.
pub set_img_path_none :
    (cmd : List Text) (path loc : Text)
    → has_mark cmd ≡ false
    → set_img_path cmd path loc ≡ (path, map (interleave path) cmd)
unfolding set_img_path
set_img_path_none cmd path loc h =
    rw (set_img_name_none cmd (codes "DUMMY_NAME") loc h) (rw (replace_all cmd path))

-- A word equal to the pattern becomes the replacement.
replace_self : (c : ℕ) (p q : Text) → replace (c ∷ p) (c ∷ p) q ≡ q
unfolding replace
replace_self c p q =
    ap (replace_from c p q 0) (sym (append-nil (c ∷ p))) ∙ replace_here c p q [] ∙ append-nil q

is_in_self : (p : Text) → is_in p p ≡ true
is_in_self p = rw append-nil at (is_in-append p [])

abbrev swap : Text → Text → Text → Text
swap old new word = if is_in old word then replace word old new else word

swap_self : (old new : Text) → old ≢ [] → swap old new old ≡ new
swap_self [] new h = absurd (h refl)
swap_self (c ∷ old) new h = rw (is_in_self (c ∷ old)) (replace_self c old new)

swap_none :
    (old new : Text) (words : List Text)
    → All (λ w. is_in old w ≡ false) words
    → map (swap old new) words ≡ words
swap_none old new [] h = refl
swap_none old new (w ∷ words) (h, hs) = rw (h, swap_none old new words hs)

join-ne_nil : (loc : Text) (c : ℕ) (name : Text) → join loc (c ∷ name) ≢ []
unfolding join
join-ne_nil [] c name = cc
join-ne_nil (d ∷ loc) c name = ground arith

-- The word that is the marker becomes the path; the words in front of it hold none.
mark_image_at :
    (pre post : List Text) (path : Text)
    → has_mark pre ≡ false
    → mark_image (pre ++ (pm_img_mrk ∷ post)) path ≡ pre ++ (path ∷ post)
unfolding mark_image has_mark
mark_image_at [] post path h =
    rw (is_in_self pm_img_mrk, replace_self b'_' (codes "_POOL_IMAGE__") path)
mark_image_at (w ∷ pre) post path h = ground (arith, mark_image_at pre post path)

has_mark_at : (pre post : List Text) → has_mark (pre ++ (pm_img_mrk ∷ post)) ≡ true
unfolding has_mark
has_mark_at [] post = rw (is_in_self pm_img_mrk)
has_mark_at (w ∷ pre) post = ground (arith, has_mark_at pre post)

-- Where the first word with the marker is the marker, and no other word holds the path of the
-- provisional image, `set_img_path` writes the new path in its place and leaves the other words.
set_img_path_mark :
    (pre post : List Text) (path loc : Text)
    → has_mark pre ≡ false
    → All (λ w. is_in (join loc (codes "DUMMY_NAME")) w ≡ false) pre
    → All (λ w. is_in (join loc (codes "DUMMY_NAME")) w ≡ false) post
    → set_img_path (pre ++ (pm_img_mrk ∷ post)) path loc ≡ (path, pre ++ (path ∷ post))
unfolding set_img_path set_img_name
set_img_path_mark pre post path loc h hpre hpost =
    let img = join loc (codes "DUMMY_NAME") in
    let ne : img ≢ [] = join-ne_nil loc b'D' (codes "UMMY_NAME") in
    rw (has_mark_at pre post, mark_image_at pre post img h)
      (ap (λ (c : List Text). (path, c))
        (map-append (swap img path) pre (img ∷ post)
          ∙ rw (swap_none img path pre hpre, swap_self img path ne, swap_none img path post hpost)))

-- `get_parent_img` on any file of a testcase that is itself the parent.
pub get_parent_img_self :
    (is_file : Text → Bool) (d dir : Text) (n : Name) (k : Kind) (get : Get)
    → IsDir d
    → IsName n
    → get_parent_img is_file (in_dir d (file_name k n)) dir get true ≡ (
        valid_get get
        >> pick_img get is_file
            (join dir (render n (codes ".crash_site.tar.gz")))
            (join dir (render n (codes ".pm_pool.tar.gz"))))
unfolding get_parent_img
get_parent_img_self is_file d dir n k get hd h =
    let here = no_dir-IsDir in
    rw (
      basename-in_dir d (file_name k n) (file_name-IsFile d n hd h k),
      get_metadata_files-file_name [] n here h k false,
      get_metadata_files-file_name [] n here h Kind.testcase false,
    )

All-init : (ls : List Link) → All IsLink ls → All IsLink (init ls)
unfolding init
All-init [] h = tt
All-init (l ∷ []) h = tt
All-init (l ∷ l' ∷ ls) (h, hs) = (h, All-init (l' ∷ ls) hs)

-- On a testcase that has a parent, it looks for the images of the parent; without one it aborts.
pub get_parent_img_parent :
    (is_file : Text → Bool) (d dir first : Text) (l : Link) (ls : List Link) (k : Kind) (get : Get)
    → IsDir d
    → IsName (record { first = first; rest = l ∷ ls })
    → get_parent_img is_file
        (in_dir d (file_name k (record { first = first; rest = l ∷ ls })))
        dir
        get
        false
      ≡ get_parent_img is_file
          (render (record { first = first; rest = init (l ∷ ls) }) (codes ".testcase"))
          dir
          get
          true
unfolding get_parent_img
get_parent_img_parent is_file d dir first l ls k get hd h =
    let n : Name = record { first = first; rest = l ∷ ls } in
    let p : Name = record { first = first; rest = init (l ∷ ls) } in
    let here = no_dir-IsDir in
    let hp : IsName p = (h.0, All-init (l ∷ ls) h.1) in
    rw
      (
        basename-in_dir d (file_name k n) (file_name-IsFile d n hd h k),
        basename-in_dir [] (file_name Kind.testcase p)
            (file_name-IsFile [] p here hp Kind.testcase),
        get_metadata_files-file_name [] n here h k false,
        get_testcase_parent-render [] n here h,
        get_metadata_files-file_name [] p here hp Kind.testcase false,
      )
      (rw (get_metadata_files-file_name [] p here hp Kind.testcase false))
