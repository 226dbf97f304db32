-- ===== src/Stages/RunTests.antt =====
-- The theorems about the start and the end of runs of AFL at small runs.
use mathlib.Core.List.{Permᴰ}
use pmfuzz.Base.{
  pos, Bool, true, false, not, ◌||◌, List, [], ◌∷◌, ◌≡◌, refl, Text, codes, text_eq, contains,
  Distinct, keep, map, All, none, some, ok, err, aborted, ◌>>=◌,
}
use pmfuzz.Str.{starts_with, split_at}
use pmfuzz.Str.Path.{basename, join}
use pmfuzz.Str.Number.{int, strip, lstrip, read_signed, read_digits}
use pmfuzz.NameHandler.Grammar.{Name}
use pmfuzz.NameHandler.Patterns.{is_map, is_hash_f}
use pmfuzz.NameHandler.Lineage.{clean_tc_name}
use pmfuzz.NameHandler.Metadata.Apart.{testcase_of}
use pmfuzz.Core.DedupEngine.{run}
use pmfuzz.Helper.Tar.{RunTar}
use pmfuzz.Stages.Folder.{Folder, names, get}
use pmfuzz.Stages.Stage1.{Target, Local}
use pmfuzz.Stages.Hashes.{is_uncmpr}
use pmfuzz.Stages.Stage2.Terminating.{Job}
use pmfuzz.Stages.Stage2.Terminating.Images.{IsHashed}
use pmfuzz.Stages.Stage2.Terminating.Jobs.{dest_of, written}
use pmfuzz.Stages.Stage2.Terminating.Ended.{Child, IsGoodChild, job_of}
use pmfuzz.Stages.Stage2.EndingCs.{Outside, dir2del, _terminate_cs, files_in}
use pmfuzz.Stages.Stage2.EndingCs.Laws.{HasOne, _terminate_cs_lem}
use pmfuzz.Stages.Stage2.EndingCs.Prefix.{_terminate_cs_prefix}
use pmfuzz.Stages.Stage2.Running.{Place}

abbrev place : Place
place = record {
  stage = pos 2;
  iter_id = pos 1;
  srcdir = codes "/in";
  outdir = codes "/out";
  dedup_dir_gbl = codes "/out/@dedup";
  dedup_dir_loc = codes "/out/loc";
}

abbrev run_dir : Text
run_dir = codes "/out/stage=2,iter=1/.afl-results/id=5"

-- Every archive is unpacked.
abbrev unpacks : RunTar
unpacks cmd level = ok tt

abbrev target : Target
target = record {
  image = λ content. some (codes "img");
  finj_enabled = false;
  randval = λ g. 0;
  tc_gen_crash_sites = λ g images. ok images;
}

abbrev five : Name
five = record { first = codes "5"; rest = [] }

abbrev children : List Child
children = (codes "id:1,src:0", record { first = codes "1"; rest = [] }) ∷ []

abbrev left_queue : Folder
left_queue = (codes "id:1,src:0", codes "t") ∷ []

children_listed :
    keep (λ f. starts_with f (codes "id")) (names left_queue) ≡ map (λ (g, m). g) children
unfolding keep starts_with names
children_listed = refl

children-IsGoodChild : All (IsGoodChild target left_queue) children
unfolding clean_tc_name split_at get text_eq basename
children-IsGoodChild = ((((refl, tt), tt), refl, (codes "t", codes "img", refl, refl)), tt)

children-Distinct : Distinct (map dest_of (map (job_of left_queue five) children))
unfolding contains
children-Distinct = (refl, tt)

empty-IsHashed : IsHashed []
unfolding names get
empty-IsHashed = (tt, λ f content hash there. cc)

same_order : (jobs : List Job) → Permᴰ jobs jobs
same_order [] = Permᴰ.nil
same_order (job ∷ jobs) = Permᴰ.cons refl (same_order jobs)

abbrev store_has : Text → Bool
store_has p = text_eq p (codes "/g/id=5.crash_site.tar.gz")

one_image : HasOne store_has (codes "/g") five
unfolding text_eq join
one_image = (refl, refl)

abbrev ends : Outside
ends = record {
  sha256 = λ c. c;
  note = codes "now";
  kill = λ pid. ok tt;
  schedule = λ jobs. jobs;
  is_file = store_has;
}

abbrev own_dir : Text
own_dir = codes "pmfuzz-cs-run-id=5abcdefgh"

own_found : dir2del (codes "id=5") (own_dir ∷ codes "other" ∷ []) ≡ own_dir ∷ []
unfolding keep starts_with
own_found = refl

pid_read : int (codes "42") ≡ some (pos 42)
unfolding int strip lstrip read_signed read_digits
pid_read = refl

_terminate_cs_lem_example :
    (collected : Local) × (db : Folder) × (_terminate_cs target ends
        (codes "/g")
        (codes "/t")
        (codes "id=5")
        (record {
          pid_f = some (codes "42");
          img_loc = own_dir ∷ codes "other" ∷ [];
          q_dir = left_queue;
        })
        (record { tc_dir = []; img_dir = [] })
        []
      ≡ (run ends.sha256 ends.note is_map
            (map (join (codes "/t")) (names collected.tc_dir))
            (files_in (codes "/t") collected.tc_dir)
          >>= λ files. ok (record {
            run = record {
              pid_f = none;
              img_loc = keep (λ d. not (text_eq d own_dir)) (own_dir ∷ codes "other" ∷ []);
              q_dir = left_queue;
            };
            files = files;
            img_dir = collected.img_dir;
            hash_db = db;
            to_dedup = true;
          })))
    × ((m : Name)
        → get (testcase_of m) collected.tc_dir
          ≡ written
              (map (job_of left_queue five) children)
              (testcase_of m)
              (get (testcase_of m) []))
    × ((x : Text) → (is_hash_f x || is_uncmpr x) ≡ true → get x collected.img_dir ≡ none)
_terminate_cs_lem_example =
    _terminate_cs_lem target ends (codes "/g") (codes "/t") five children (codes "42") (pos 42)
      own_dir (own_dir ∷ codes "other" ∷ []) left_queue (record { tc_dir = []; img_dir = [] }) []
      ((refl, tt), tt) pid_read refl own_found one_image children_listed children-IsGoodChild
      children-Distinct empty-IsHashed same_order (λ g i hashed. (i, refl, hashed))

-- The crash sites `id=5.id=1` and `id=5.id=12` run at a time.
_terminate_cs_prefix_example :
    _terminate_cs target ends
      (codes "/g")
      (codes "/t")
      (codes "id=5.id=1")
      (record {
        pid_f = some (codes "42");
        img_loc =
            codes "pmfuzz-cs-run-id=5.id=1abcdefgh" ∷ codes "pmfuzz-cs-run-id=5.id=12ijklmnop" ∷ [];
        q_dir = left_queue;
      })
      (record { tc_dir = []; img_dir = [] })
      []
    ≡ err aborted
_terminate_cs_prefix_example =
    _terminate_cs_prefix target ends (codes "/g") (codes "/t") (codes "id=5.id=1") (codes "2")
      (codes "abcdefgh") (codes "ijklmnop") (codes "42") (pos 42) [] [] [] left_queue
      (record { tc_dir = []; img_dir = [] }) [] pid_read refl
