-- ===== src/Stages/ImageTests.antt =====
-- The theorems about the crash images of the stages, each at two images.
use pmfuzz.Base.{
  true, false, List, [], ◌∷◌, ◌++◌, ◌≡◌, refl, codes, text_eq, contains, Distinct, map, All, ok,
  keep,
}
use pmfuzz.Str.{replace, starts_with, occurs}
use pmfuzz.Str.Number.{strip, lstrip}
use pmfuzz.Str.Path.{basename}
use pmfuzz.NameHandler.Grammar.{Name, dot}
use pmfuzz.NameHandler.Patterns.{pm_img_ext, tc_ext}
use pmfuzz.Stages.Folder.{Folder, names, get}
use pmfuzz.Stages.Stage2.Terminating.Images.{IsHashed}
use pmfuzz.Stages.CrashImages.{
  drop_pid, drop_pid_from, pid_end, behind, Tools, new_images, after_dot, compress_new_crash_sites,
  remove_all,
}
use pmfuzz.Stages.CrashImages.Processing.{CrashImage}
use pmfuzz.Stages.Hashes.{add_cs_hash_lcl}
use pmfuzz.Stages.CrashImages.Compressing.{NewImage, image_name, hash_file, site_file, IsNewImage}
use pmfuzz.Stages.CrashImages.Stored.{HasNoHash, IsStored, add_cs_hash_lcl-compress_new_crash_sites}

abbrev tools : Tools
tools = record {
  sha256 = λ c. codes "2cf2";
  archive = λ c. codes "z" ++ c;
  check_crash_site = λ img. ok tt;
  hash_noticed = λ img. false;
  archive_noticed = λ img. false;
}

-- The first site of the injection.
abbrev first_site : Name
first_site = record { first = codes "5"; rest = dot (codes "3") ∷ dot (codes "1") ∷ [] }

abbrev second_site : Name
second_site = record { first = codes "5"; rest = dot (codes "3") ∷ dot (codes "2") ∷ [] }

abbrev found : List CrashImage
found =
    record {
      img = codes "id=5<pid=7>.id=3.id=1.crash_site";
      name = first_site;
      used = true;
      content = codes "a";
    }
    ∷ record {
      img = codes "id=5<pid=7>.id=3.id=2.crash_site";
      name = second_site;
      used = true;
      content = codes "b";
    }
    ∷ []

abbrev pm_dir : Folder
pm_dir =
    (codes "id=5<pid=7>.id=3.id=1.crash_site", codes "a")
    ∷ (codes "id=5.pm_pool", codes "p")
    ∷ (codes "id=5<pid=7>.id=3.id=2.crash_site", codes "b")
    ∷ []

empty-IsHashed : IsHashed []
unfolding names get
empty-IsHashed = (tt, λ f content hash there. cc)

one_line : occurs b'\n' (strip (codes "2cf2")) ≡ false
unfolding occurs strip lstrip
one_line = refl

-- The images that an injection of stage 1 leaves: the name of the random image comes first.
abbrev first_image : NewImage
first_image = record {
  img = codes "img-abc.id=5.id=1<pid=7>.crash_site";
  name = record { first = codes "5"; rest = dot (codes "1") ∷ [] };
  content = codes "a";
}

abbrev second_image : NewImage
second_image = record {
  img = codes "img-abc.id=5.id=2<pid=7>.crash_site";
  name = record { first = codes "5"; rest = dot (codes "2") ∷ [] };
  content = codes "b";
}

abbrev images : List NewImage
images = first_image ∷ second_image ∷ []

abbrev injected : Folder
injected =
    (codes "img-abc.id=5.id=1<pid=7>.crash_site", codes "a")
    ∷ (codes "img-abc.pm_pool", codes "p")
    ∷ (codes "img-abc.id=5.id=2<pid=7>.crash_site", codes "b")
    ∷ []

new_injected :
    new_images
      (replace (codes "img-abc.pm_pool") (b'.' ∷ pm_img_ext) []
        ++ (b'.' ∷ replace (codes "id=5.testcase") (b'.' ∷ tc_ext) []))
      injected
    ≡ map image_name images
unfolding replace keep names starts_with
new_injected = refl

images-IsNewImage : All (IsNewImage tools injected) images
unfolding drop_pid drop_pid_from pid_end behind starts_with after_dot get text_eq basename
images-IsNewImage = (
  (((refl, tt), ((refl, tt), tt)), refl, refl, refl),
  ((((refl, tt), ((refl, tt), tt)), refl, refl, refl), tt),
)

hashes-Distinct : Distinct (map hash_file images)
unfolding contains text_eq
hashes-Distinct = (refl, (refl, tt))

sites-Distinct : Distinct (map site_file images)
unfolding contains text_eq
sites-Distinct = (refl, (refl, tt))

empty-HasNoHash : HasNoHash []
unfolding get
empty-HasNoHash = λ f hash. refl

add_cs_hash_lcl-compress_new_crash_sites_example :
    (mid : Folder) × (img' : Folder) × (db' : Folder) × (compress_new_crash_sites tools
        (codes "img-abc.pm_pool")
        (codes "id=5.testcase")
        (injected, [])
      ≡ ok (remove_all (map image_name images) injected, mid))
    × (add_cs_hash_lcl mid [] ≡ ok (img', db'))
    × All (IsStored tools img' db') images
    × HasNoHash img'
add_cs_hash_lcl-compress_new_crash_sites_example =
    add_cs_hash_lcl-compress_new_crash_sites tools (λ c. one_line) (codes "img-abc.pm_pool")
      (codes "id=5.testcase") images injected [] [] new_injected images-IsNewImage hashes-Distinct
      sites-Distinct empty-IsHashed empty-HasNoHash
