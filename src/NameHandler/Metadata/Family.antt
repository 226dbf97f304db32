-- ===== src/NameHandler/Metadata/Family.antt =====
-- The files of one testcase all lead to the same metadata.
use pmfuzz.Base.{
  ℕ, Bool, true, false, [], ◌∷◌, ◌++◌, ◌≡◌, refl, ◌∙◌, ap, sym, arith, ◌==◌, if◌then◌else◌, Text,
  codes, none, some, ok,
}
use pmfuzz.Str.{occurs, is_in, replace, replace_from}
use pmfuzz.Str.Laws.{is_in_of_lacks, is_in_skip, replace_none}
use pmfuzz.Str.Path.{join}
use pmfuzz.Str.Path.Laws.{IsDir, IsFile, join_file, basename-in_dir, dirname-in_dir, in_dir}
use pmfuzz.NameHandler.Patterns.Laws.{is_tc-render}
use pmfuzz.NameHandler.Grammar.{Name, IsName, render, render_end}
use pmfuzz.NameHandler.Grammar.Search.{is_foreign, occurs-render, is_in-render, replace-render}
use pmfuzz.NameHandler.Metadata.{MetadataFiles, testcase_name, files_of, get_metadata_files}

-- The kinds of file that `get_metadata_files` takes.
pub data Kind : Type 0 where
  testcase min_testcase map pm_map crash_site crash_cmpr_site pm_pool pm_cmpr_pool : Kind

abbrev pub file_name : Kind → Name → Text
file_name testcase n = render n (codes ".testcase")
file_name min_testcase n = render n (codes ".min.testcase")
file_name map n = codes "map_" ++ render n (codes ".testcase")
file_name pm_map n = codes "pm_map_" ++ render n (codes ".testcase")
file_name crash_site n = render n (codes ".crash_site")
file_name crash_cmpr_site n = render n (codes ".crash_site.tar.gz")
file_name pm_pool n = render n (codes ".pm_pool")
file_name pm_cmpr_pool n = render n (codes ".pm_pool.tar.gz")

module _ (n : Name) (h : IsName n) where
  -- A pattern that begins with a character of no name stands where it stands in the end.
  pub find_foreign :
      (x : ℕ) (p end : Text)
      → is_foreign x ≡ true
      → is_in (x ∷ p) (render n end) ≡ is_in (x ∷ p) end
  find_foreign x p end hx =
      rw (render_end n end)
        (is_in_skip x p (render n []) end (occurs-render x n [] hx h ∙ (unfold occurs in refl)))

  swap_ext :
      (x : ℕ) (p q end : Text)
      → (x == b'i') ≡ false
      → replace (render n end) (b'.' ∷ x ∷ p) q ≡ render n (replace_from b'.' (x ∷ p) q 0 end)
  unfolding replace
  swap_ext x p q end hx = replace-render x p hx q n end h

  -- The tests look at the end alone.
  testcase_name-render :
      (end : Text)
      → testcase_name (render n end) ≡ (
          if is_in (codes "pm_map") end
          then replace (render n end) (codes "pm_map_") []
          else if is_in (codes "map") end
          then replace (render n end) (codes "map_") []
          else if is_in (codes ".pm_pool.tar.gz") end
          then replace (render n end) (codes ".pm_pool.tar.gz") (codes ".testcase")
          else if is_in (codes ".pm_pool") end
          then replace (render n end) (codes ".pm_pool") (codes ".testcase")
          else if is_in (codes ".crash_site.tar.gz") end
          then replace (render n end) (codes ".crash_site.tar.gz") (codes ".testcase")
          else if is_in (codes ".crash_site") end
          then replace (render n end) (codes ".crash_site") (codes ".testcase")
          else if is_in (codes ".min") end
          then replace (render n end) (codes ".min") []
          else render n end)
  unfolding testcase_name
  testcase_name-render end = rw (
    find_foreign b'p' (codes "m_map") end refl,
    find_foreign b'm' (codes "ap") end refl,
    is_in-render b'p' (codes "m_pool.tar.gz") refl n end h,
    is_in-render b'p' (codes "m_pool") refl n end h,
    is_in-render b'c' (codes "rash_site.tar.gz") refl n end h,
    is_in-render b'c' (codes "rash_site") refl n end h,
    is_in-render b'm' (codes "in") refl n end h,
  )

  -- The name in front of `.testcase` holds no map prefix.
  no_prefix :
      (x : ℕ) (p : Text)
      → is_foreign x ≡ true
      → occurs x (codes ".testcase") ≡ false
      → replace_from x p [] 0 (render n (codes ".testcase")) ≡ render n (codes ".testcase")
  unfolding occurs
  no_prefix x p f k =
      replace_none x p [] _
        (is_in_of_lacks x (x ∷ p) _ (ground arith) (occurs-render x n _ f h ∙ k))

  testcase_name-map :
      testcase_name (codes "map_" ++ render n (codes ".testcase")) ≡ render n (codes ".testcase")
  unfolding testcase_name is_in replace
  testcase_name-map =
      rw
        (is_in_of_lacks b'p' (codes "pm_map") (render n (codes ".testcase")) (unfold occurs in refl)
          (occurs-render b'p' n _ refl h ∙ (unfold occurs in refl)))
        (no_prefix b'm' (codes "ap_") refl (unfold occurs in refl))

  testcase_name-pm_map :
      testcase_name (codes "pm_map_" ++ render n (codes ".testcase")) ≡ render n (codes ".testcase")
  unfolding testcase_name is_in replace
  testcase_name-pm_map = no_prefix b'p' (codes "m_map_") refl (unfold occurs in refl)

  testcase_name_of : (k : Kind) → testcase_name (file_name k n) ≡ render n (codes ".testcase")
  testcase_name_of testcase = testcase_name-render (codes ".testcase") ∙ (unfold is_in in refl)
  testcase_name_of min_testcase =
      testcase_name-render (codes ".min.testcase")
      ∙ (unfold is_in replace_from in swap_ext b'm' (codes "in") [] (codes ".min.testcase") refl)
  testcase_name_of map = testcase_name-map
  testcase_name_of pm_map = testcase_name-pm_map
  testcase_name_of crash_site =
      testcase_name-render (codes ".crash_site")
      ∙ (unfold is_in replace_from in
          swap_ext b'c' (codes "rash_site") (codes ".testcase") (codes ".crash_site") refl)
  testcase_name_of crash_cmpr_site =
      testcase_name-render (codes ".crash_site.tar.gz")
      ∙ (unfold is_in replace_from in
          swap_ext b'c' (codes "rash_site.tar.gz") (codes ".testcase") (codes ".crash_site.tar.gz")
            refl)
  testcase_name_of pm_pool =
      testcase_name-render (codes ".pm_pool")
      ∙ (unfold is_in replace_from in
          swap_ext b'p' (codes "m_pool") (codes ".testcase") (codes ".pm_pool") refl)
  testcase_name_of pm_cmpr_pool =
      testcase_name-render (codes ".pm_pool.tar.gz")
      ∙ (unfold is_in replace_from in
          swap_ext b'p' (codes "m_pool.tar.gz") (codes ".testcase") (codes ".pm_pool.tar.gz") refl)

-- The metadata of a name in a directory.
abbrev pub metadata_of : Text → Name → Bool → MetadataFiles
metadata_of d n wanted = record {
  testcase = in_dir d (render n (codes ".testcase"));
  clean = in_dir d (render n []);
  min_testcase = in_dir d (render n (codes ".min.testcase"));
  pm_map = in_dir d (codes "pm_map_" ++ render n (codes ".testcase"));
  map = in_dir d (codes "map_" ++ render n (codes ".testcase"));
  deleted = if wanted then some (in_dir d (render n (codes ".deleted"))) else none;
  crash_site = in_dir d (render n (codes ".crash_site"));
  crash_cmpr_site = in_dir d (render n (codes ".crash_site.tar.gz"));
  pm_pool = in_dir d (render n (codes ".pm_pool"));
  pm_cmpr_pool = in_dir d (render n (codes ".pm_pool.tar.gz"));
}

module _ (d : Text) (n : Name) (hd : IsDir d) (h : IsName n) where
  -- A text with no slash that follows a rendered name, with a prefix or without.
  IsFile-render : (end : Text) → IsFile end → IsFile (render n end)
  IsFile-render end k = occurs-render b'/' n end refl h ∙ k

  join-render : (end : Text) → IsFile end → join d (render n [] ++ end) ≡ in_dir d (render n end)
  join-render end k =
      ap (join d) (sym (render_end n end)) ∙ join_file d (render n end) hd (IsFile-render end k)

  files_of-render :
      (wanted : Bool)
      → files_of d (render n (codes ".testcase")) (render n []) wanted ≡ metadata_of d n wanted
  unfolding occurs
  files_of-render wanted = rw (
    join_file d (render n (codes ".testcase")) hd (IsFile-render (codes ".testcase") refl),
    join_file d (render n []) hd (IsFile-render [] refl),
    join-render (codes ".min.testcase") refl,
    join_file d (codes "pm_map_" ++ render n (codes ".testcase")) hd
        (IsFile-render (codes ".testcase") refl),
    join_file d (codes "map_" ++ render n (codes ".testcase")) hd
        (IsFile-render (codes ".testcase") refl),
    join-render (codes ".deleted") refl,
    join-render (codes ".crash_site") refl,
    join-render (codes ".crash_site.tar.gz") refl,
    join-render (codes ".pm_pool") refl,
    join-render (codes ".pm_pool.tar.gz") refl,
  )

  pub file_name-IsFile : (k : Kind) → IsFile (file_name k n)
  unfolding occurs
  file_name-IsFile testcase = IsFile-render (codes ".testcase") refl
  file_name-IsFile min_testcase = IsFile-render (codes ".min.testcase") refl
  file_name-IsFile map = IsFile-render (codes ".testcase") refl
  file_name-IsFile pm_map = IsFile-render (codes ".testcase") refl
  file_name-IsFile crash_site = IsFile-render (codes ".crash_site") refl
  file_name-IsFile crash_cmpr_site = IsFile-render (codes ".crash_site.tar.gz") refl
  file_name-IsFile pm_pool = IsFile-render (codes ".pm_pool") refl
  file_name-IsFile pm_cmpr_pool = IsFile-render (codes ".pm_pool.tar.gz") refl

  pub bare_name : replace (render n (codes ".testcase")) (codes ".testcase") [] ≡ render n []
  unfolding replace_from
  bare_name = swap_ext n h b't' (codes "estcase") [] (codes ".testcase") refl

  -- Every kind of file of a testcase, in any directory, leads to the same ten names: the metadata
  -- of the testcase in that directory.
  pub get_metadata_files-file_name :
      (k : Kind) (wanted : Bool)
      → get_metadata_files (in_dir d (file_name k n)) wanted ≡ ok (metadata_of d n wanted)
  unfolding get_metadata_files
  get_metadata_files-file_name k wanted =
      let file = file_name-IsFile k in
      rw
        (
          basename-in_dir d (file_name k n) file,
          testcase_name_of n h k,
          is_tc-render n h,
          dirname-in_dir d (file_name k n) hd file,
          bare_name,
        )
        (ap ok (files_of-render wanted))
