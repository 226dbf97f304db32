-- ===== src/Stages/Dedup/Laws.antt =====
-- The file deduplication of the global store compares no files.
use pmfuzz.Base.{
  ℕ, true, false, List, [], ◌∷◌, ◌++◌, ◌≡◌, inl, inr, refl, sym, ap, ◌∙◌, arith, Text, codes, keep,
  map, All, Option, ok, append-nil, Bool-cases, ◌≢◌,
}
use pmfuzz.Regex.{Regex, seq, lit}
use pmfuzz.Regex.Laws.{lit_iff, search_anchored_iff}
use pmfuzz.Str.Path.{basename, join}
use pmfuzz.Str.Path.Laws.{IsDir, in_dir, join_file, basename-in_dir}
use pmfuzz.NameHandler.Grammar.{Name, IsName, render}
use pmfuzz.NameHandler.Patterns.{tc_regex, is_tc, is_map, is_pm_map, is_regex}
use pmfuzz.NameHandler.Patterns.Laws.{is_tc_iff}
use pmfuzz.NameHandler.Metadata.Family.{Kind, file_name-IsFile, get_metadata_files-file_name}
use pmfuzz.Stages.Dedup.{
  with_images, global_dedup_list_tc, FileDedup, by_pm_map, by_map, other, first_of, checked,
  unpacked, engine_files,
}

-- What a pattern with a literal in front accepts starts with the literal.
starts_with_lit :
    (c : ℕ) (t f : Text) (r : Regex)
    → is_regex f (seq (lit (c ∷ t)) r) ≡ true
    → (rest : Text) × (basename f ≡ c ∷ rest)
unfolding is_regex
starts_with_lit c t f r h =
    let (u, e, p, (x, y, q, mx, my), tail) =
      (search_anchored_iff (seq (lit (c ∷ t)) r) (basename f)).0 h in
    let front : x ≡ c ∷ t = (lit_iff (c ∷ t) x).0 mx in
    ((t ++ y) ++ e, p ∙ ap (λ v. v ++ e) (q ∙ ap (λ v. v ++ y) front))

abbrev head_or_0 : Text → ℕ
head_or_0 [] = 0
head_or_0 (c ∷ s) = c

heads_apart : (c e : ℕ) (s t : Text) → c ∷ s ≡ e ∷ t → c ≢ e → ⊥
heads_apart c e s t p ne = ne (ap head_or_0 p)

-- No testcase is a map.
is_tc-no_map : (f : Text) → is_tc f false ≡ true → (is_map f ≡ false) × (is_pm_map f ≡ false)
unfolding is_map is_pm_map
is_tc-no_map f h =
    let (n, hn, e, tail, p) = (is_tc_iff f).0 h in
    (
      elim (Bool-cases (is_map f)) [
        | inl m ↦
            let (rest, q) = starts_with_lit b'm' (codes "ap_") f tc_regex m in
            absurd (heads_apart b'm' b'i' rest _ (sym q ∙ p) (omega arith))
        | inr e ↦ e
      ],
      elim (Bool-cases (is_pm_map f)) [
        | inl m ↦
            let (rest, q) = starts_with_lit b'p' (codes "m_map_") f tc_regex m in
            absurd (heads_apart b'p' b'i' rest _ (sym q ∙ p) (omega arith))
        | inr e ↦ e
      ],
    )

checked_none :
    (fdedup : FileDedup) (paths : List Text)
    → All (λ f. is_tc f false ≡ true) paths
    → checked fdedup paths ≡ []
unfolding keep
checked_none other paths h = refl
checked_none by_map [] h = refl
checked_none by_pm_map [] h = refl
checked_none by_map (f ∷ paths) (h, hs) = rw ((is_tc-no_map f h).0) (checked_none by_map paths hs)
checked_none by_pm_map (f ∷ paths) (h, hs) =
    rw ((is_tc-no_map f h).1) (checked_none by_pm_map paths hs)

unpacked_none :
    (fdedup : FileDedup) (es : List (Text × Option Text)) (p : Text) (ps : List Text)
    → map first_of es ≡ p ∷ ps
    → All (λ f. is_tc f false ≡ true) (p ∷ ps)
    → unpacked fdedup es ≡ ok []
unpacked_none fdedup [] p ps e h = cc
unpacked_none fdedup (entry ∷ es) p ps e h = rw e (ap ok (checked_none fdedup (p ∷ ps) h))

abbrev pub tc_file : Name → Text
tc_file n = render n (codes ".testcase")

module _ (d : Text) (hd : IsDir d) where
  paths_of :
      (ns : List Name)
      → All IsName ns
      → map (join d) (map tc_file ns) ≡ map (λ n. in_dir d (tc_file n)) ns
  paths_of [] h = refl
  paths_of (n ∷ ns) (h, hs) =
      rw (join_file d (tc_file n) hd (file_name-IsFile d n hd h Kind.testcase), paths_of ns hs) refl

  paths-is_tc :
      (ns : List Name)
      → All IsName ns
      → All (λ f. is_tc f false ≡ true) (map (λ n. in_dir d (tc_file n)) ns)
  paths-is_tc [] h = tt
  paths-is_tc (n ∷ ns) (h, hs) = (
    (is_tc_iff (in_dir d (tc_file n))).1 (
      n,
      h,
      [],
      inl refl,
      basename-in_dir d (tc_file n) (file_name-IsFile d n hd h Kind.testcase)
          ∙ sym (append-nil (tc_file n)),
    ),
    paths-is_tc ns hs,
  )

  with_images-All :
      (files : List Text) (ns : List Name)
      → All IsName ns
      → (es : List (Text × Option Text)) × (with_images files (map (λ n. in_dir d (tc_file n)) ns)
          ≡ ok es)
        × (map first_of es ≡ map (λ n. in_dir d (tc_file n)) ns)
  unfolding with_images
  with_images-All files [] h = ([], refl, refl)
  with_images-All files (n ∷ ns) (h, hs) =
      let (es, e, firsts) = with_images-All files ns hs in
      rw (get_metadata_files-file_name d n hd h Kind.testcase false, e)
        (_, refl, ap (◌∷◌ (in_dir d (tc_file n))) firsts)

  -- With at least one testcase in the global store, in whatever order its files are listed, and where
  -- all files that `is_tc` accepts are testcases of names, the file deduplication gives its engine no
  -- file to compare.
  pub engine_files_none :
      (fdedup : FileDedup) (n : Name) (ns : List Name) (listing : List Text)
      → All IsName (n ∷ ns)
      → keep (λ f. is_tc f false) (map (join d) listing) ≡ map (λ m. in_dir d (tc_file m)) (n ∷ ns)
      → engine_files fdedup d listing ≡ ok []
  unfolding engine_files global_dedup_list_tc
  engine_files_none fdedup n ns listing h listed =
      let ms = n ∷ ns in
      let (es, e, firsts) = with_images-All (map (join d) listing) ms h in
      rw (listed, e) (unpacked_none fdedup es _ _ firsts (paths-is_tc ms h))
