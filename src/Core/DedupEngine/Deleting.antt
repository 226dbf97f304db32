-- ===== src/Core/DedupEngine/Deleting.antt =====
-- What the deletion of testcases does to the store.
use pmfuzz.Base.{
  text_eq_refl, true, false, List, [], ◌∷◌, ◌++◌, ◌≡◌, refl, ap, ◌∙◌, arith, if◌then◌else◌, Text,
  codes, contains, All, map, none, some, ok,
}
use pmfuzz.Str.Path.Laws.{IsDir, in_dir}
use pmfuzz.NameHandler.Grammar.{Name, IsName, render}
use pmfuzz.NameHandler.Metadata.Family.{Kind, file_name, metadata_of, get_metadata_files-file_name}
use pmfuzz.Core.DedupEngine.Endings.{
  last, last-render, last-in_dir-render, apart-render, apart-prefix, apart-clean,
}
use pmfuzz.Core.DedupEngine.{
  Files, write_file, remove_file, remove_files, values, place_holders, _delete_tcs,
}

-- A file of a testcase in a directory.
pub record Found : Type 0 where
  pub dir : Text
  pub name : Name
  pub kind : Kind

abbrev pub IsFound : Found → Type 0
IsFound f = IsDir f.dir × IsName f.name

abbrev pub path_of : Found → Text
path_of f = in_dir f.dir (file_name f.kind f.name)

-- The names of all the files that belong to testcases, and of the placeholders for them.
abbrev pub belonging : List Found → List Text
belonging [] = []
belonging (f ∷ fs) = values (metadata_of f.dir f.name false) ++ belonging fs

abbrev pub placeholders : List Found → List Text
placeholders [] = []
placeholders (f ∷ fs) = in_dir f.dir (render f.name (codes ".deleted")) ∷ placeholders fs

remove_files_lem :
    (list : List Text) (files : Files) (p : Text)
    → remove_files list files p ≡ (if contains list p then none else files p)
unfolding remove_files contains
remove_files_lem [] files p = refl
remove_files_lem (x ∷ list) files p = remove_files_lem list (remove_file x files) p ∙ ground arith

place_holders_lem :
    (note : Text) (fs : List Found) (files : Files)
    → All IsFound fs
    → (after : Files) × (place_holders note (map path_of fs) files ≡ ok (belonging fs, after))
      × ((p : Text) → after p ≡ (if contains (placeholders fs) p then some note else files p))
unfolding place_holders contains
place_holders_lem note [] files h = (files, refl, λ p. refl)
place_holders_lem note (f ∷ fs) files ((hd, hn), hs) =
    let (after, e, written) =
      place_holders_lem note fs
        (write_file (in_dir f.dir (render f.name (codes ".deleted"))) note files) hs in
    (
      after,
      rw
          (
            get_metadata_files-file_name f.dir f.name hd hn f.kind false,
            get_metadata_files-file_name f.dir f.name hd hn f.kind true,
            e,
          )
          refl,
      λ p. written p ∙ ground arith,
    )

abbrev pub placeholder : Found → Text
placeholder f = in_dir f.dir (render f.name (codes ".deleted"))

-- No placeholder belongs to a testcase.
pub belonging-last :
    (fs : List Found) (p : Text)
    → All IsFound fs
    → last p ≡ b'd'
    → contains (belonging fs) p ≡ false
unfolding contains
belonging-last [] p h e = refl
belonging-last (f ∷ fs) p ((hd, hn), hs) e =
    let ends = apart-render p f.dir f.name e in
    let behind = apart-prefix p f.dir f.name e in
    rw
      (
        ends b'.' (codes "testcase") refl,
        apart-clean p f.dir f.name e hn,
        ends b'.' (codes "min.testcase") refl,
        behind b'p' (codes "m_map_") b'.' (codes "testcase") refl,
        behind b'm' (codes "ap_") b'.' (codes "testcase") refl,
        ends b'.' (codes "crash_site") refl,
        ends b'.' (codes "crash_site.tar.gz") refl,
        ends b'.' (codes "pm_pool") refl,
        ends b'.' (codes "pm_pool.tar.gz") refl,
      )
      (belonging-last fs p hs e)

placeholders-stay :
    (all fs : List Found)
    → All IsFound all
    → All (λ f. contains (placeholders all) (placeholder f) ≡ true) fs
    → (after : Files) (note : Text) (files : Files)
    → ((p : Text)
        → after p ≡ (
            if contains (belonging all) p
            then none
            else if contains (placeholders all) p
            then some note
            else files p))
    → All (λ f. after (placeholder f) ≡ some note) fs
placeholders-stay all [] h k after note files e = tt
placeholders-stay all (f ∷ fs) h (k, ks) after note files e =
    let free = belonging-last all (placeholder f) h (
      last-in_dir-render f.dir f.name (codes ".deleted")
      ∙ last-render f.name b'.' (codes "deleted")) in
    (e (placeholder f) ∙ rw (free, k) refl, placeholders-stay all fs h ks after note files e)

-- Every placeholder is in the list of them.
contains-more :
    (x : Text) (ps : List Text) (fs : List Found)
    → All (λ f. contains ps (placeholder f) ≡ true) fs
    → All (λ f. contains (x ∷ ps) (placeholder f) ≡ true) fs
unfolding contains
contains-more x ps [] k = tt
contains-more x ps (f ∷ fs) (k, ks) = (ground arith, contains-more x ps fs ks)

placeholders-contains :
    (fs : List Found) → All (λ f. contains (placeholders fs) (placeholder f) ≡ true) fs
unfolding contains
placeholders-contains [] = tt
placeholders-contains (f ∷ fs) = (
  rw (text_eq_refl (placeholder f)) refl,
  contains-more (placeholder f) (placeholders fs) fs (placeholders-contains fs),
)

-- For files of testcases, of whatever kind and in whatever directories, `_delete_tcs` does not fail.
-- Afterwards no file that belongs to one of the testcases is there, each of them has its
-- placeholder, and all other files are as before.
pub _delete_tcs_lem :
    (note : Text) (fs : List Found) (files : Files)
    → All IsFound fs
    → (after : Files) × (_delete_tcs note (map path_of fs) files ≡ ok after)
      × All (λ f. after (placeholder f) ≡ some note) fs
      × ((p : Text)
          → after p ≡ (
              if contains (belonging fs) p
              then none
              else if contains (placeholders fs) p
              then some note
              else files p))
unfolding _delete_tcs
_delete_tcs_lem note fs files h =
    let (before, e, written) = place_holders_lem note fs files h in
    let after : Files = remove_files (belonging fs) before in
    let found_at : (p : Text)
        → after p ≡ (
            if contains (belonging fs) p
            then none
            else if contains (placeholders fs) p
            then some note
            else files p) =
      λ p.
        remove_files_lem (belonging fs) before p
        ∙ ap (λ q. if contains (belonging fs) p then none else q) (written p) in
    (
      after,
      rw e refl,
      placeholders-stay fs fs h (placeholders-contains fs) after note files found_at,
      found_at,
    )
