-- ===== src/Core/DedupEngine/WholeRun.antt =====
-- What a whole run of the engine does to the store.
use mathlib.Core.Path.{subst}
use mathlib.Core.List.{map-append}
use pmfuzz.Base.{
  Distinct, List, [], ◌∷◌, ◌++◌, ◌≡◌, refl, Bool, Text, text_eq, contains, keep, All, All-append,
  map, ok,
}
use pmfuzz.Core.DedupEngine.{Files, HashMap, dedup_groups, run}
use pmfuzz.Core.DedupEngine.Groups.{group_of, keys_of, Hashed, hash_all-group_of}
use pmfuzz.Core.DedupEngine.Deleting.{Found, IsFound, path_of, _delete_tcs_lem}
use pmfuzz.Core.DedupEngine.Store.{IsDeleted, IsDeleted-append}
use pmfuzz.Core.DedupEngine.Members.{
  AllButOldest, dropped_of, IsGroup, hash_all-IsGroup, choose, hashes_of,
}

module _ (hash : Text → Text) where
  dedup_groups_lem :
      (note : Text) (groups : HashMap) (files : Files)
      → All (IsGroup hash) groups
      → Distinct (keys_of groups)
      → (after : Files) × (dropped : List Found) × (dedup_groups note groups files ≡ ok after)
        × All IsFound dropped
        × IsDeleted note dropped files after
        × ((key : Text)
            → AllButOldest
                (group_of key groups)
                (keep (λ t. text_eq key (hash t)) (map path_of dropped)))
  unfolding dedup_groups contains keep
  dedup_groups_lem note [] files gs d = (files, [], refl, tt, λ p. refl, λ key. refl)
  dedup_groups_lem note ((k, tcs) ∷ groups) files ((f, fs, same, found, hashes), gs) (absent, d) =
      let (rest, e, found', but_oldest) = dropped_of f fs found in
      let (mid, e', _, deleted) = _delete_tcs_lem note rest files found' in
      let (after, later, e'', found'', deleted', others) = dedup_groups_lem note groups mid gs d in
      let hashes' =
        hashes_of hash k (path_of f) (map path_of fs) (map path_of rest)
          (subst (All (λ u. hash u ≡ k)) same hashes) but_oldest in
      (
        after,
        rest ++ later,
        rw (same, e, e') e'',
        All-append IsFound rest later found' found'',
        IsDeleted-append note rest later files mid after found' deleted deleted',
        λ key.
            rw (same, map-append path_of rest later)
              (choose hash key k (map path_of (f ∷ fs)) (map path_of rest) (map path_of later)
                groups absent hashes' but_oldest (others key)),
      )

  -- Where the checker leaves files of testcases, all of which are there, a run does not fail. There
  -- are dropped files such that of the files with any hash all but one are dropped, the first of
  -- those with the fewest ancestors; afterwards no file that belongs to a dropped one is there, each
  -- of these has its placeholder, and all other files are as before.
  pub run_lem :
      (sha256 : Text → Text) (note : Text) (checker : Text → Bool) (testcase_paths : List Text)
      (files : Files) (fs : List Found)
      → keep checker testcase_paths ≡ map path_of fs
      → All IsFound fs
      → All (Hashed sha256 files hash) (map path_of fs)
      → (after : Files) × (dropped : List Found) × (run sha256 note checker testcase_paths files
          ≡ ok after)
        × IsDeleted note dropped files after
        × ((key : Text)
            → AllButOldest
                (keep (λ t. text_eq key (hash t)) (map path_of fs))
                (keep (λ t. text_eq key (hash t)) (map path_of dropped)))
  unfolding run
  run_lem sha256 note checker testcase_paths files fs same found hashed =
      let (groups, e, distinct, members) =
        hash_all-group_of sha256 files hash (map path_of fs) hashed in
      let (groups', e', are_groups') = hash_all-IsGroup hash sha256 files fs [] found hashed tt in
      let same_groups : groups' ≡ groups = cc in
      let are_groups = subst (All (IsGroup hash)) same_groups are_groups' in
      let (after, dropped, e'', _, deleted, but_oldest) =
        dedup_groups_lem note groups files are_groups distinct in
      (
        after,
        dropped,
        rw (same, e) e'',
        deleted,
        λ key.
            subst (λ g. AllButOldest g (keep (λ t. text_eq key (hash t)) (map path_of dropped)))
              (members key) (but_oldest key),
      )
