-- ===== src/Interfaces/Sample.antt =====
-- A small configuration that has all that the commands take from it.
use pmfuzz.Base.{◌+◌, true, false, List, [], ◌∷◌, ◌≡◌, refl, Text, codes, text_eq, none, some, ok}
use pmfuzz.Str.{split_at}
use pmfuzz.Helper.Config.{
  Fields, bool, text, dict, end, field, item, set_item, index, get_item, walk, get_direct, split_kv,
  get_env,
}
use pmfuzz.Interfaces.Env.{Once}
use pmfuzz.Interfaces.Afl.{get_in, stdin_of, Outside}
use pmfuzz.Interfaces.Afl.Laws.{Ready}

abbrev pub env : Fields
env = field (codes "PMEM_IS_PMEM_FORCE") (text (codes "1")) end

abbrev pub target : Fields
target = field (codes "env") (dict env) (
    field (codes "persist_enable_env") (text (codes "USE_FAKE_MMAP=0")) (
      field (codes "persist_disable_env") (text (codes "USE_FAKE_MMAP=1")) (
        field (codes "tmout") (text (codes "150"))
          (field (codes "mlimit") (text (codes "1500")) end))))

abbrev pub afl : Fields
afl = field (codes "cpmap") (text (codes "/cp-map")) (
    field (codes "cmin") (text (codes "/cmin")) (
      field (codes "prioritize_pm_path")
        (dict (
          field (codes "enable") (bool false) (
            field (codes "env")
              (dict (
                field (codes "enable") (text (codes "DONT=0"))
                  (field (codes "disable") (text (codes "DONT=1")) end)))
              end)))
        end))

abbrev pub no_create : Fields
no_create = field (codes "FI_MODE") (text (codes "IMG_GEN")) end

abbrev pub pmfuzz_section : Fields
pmfuzz_section = field (codes "bin_dir") (text (codes "/bin")) (
    field (codes "img_loc") (text (codes "/mnt")) (
      field (codes "failure_injection")
        (dict (
          field (codes "img_gen_mode") (dict (field (codes "dont_create_env") (dict no_create) end))
            end))
        end))

abbrev pub cfg : Fields
cfg =
    field (codes "pmfuzz") (dict pmfuzz_section)
      (field (codes "target") (dict target) (field (codes "afl") (dict afl) end))

abbrev pub env_off : Fields
env_off =
    field (codes "PMEM_IS_PMEM_FORCE") (text (codes "1"))
      (field (codes "USE_FAKE_MMAP") (text (codes "1")) end)

abbrev pub env_on : Fields
env_on =
    field (codes "PMEM_IS_PMEM_FORCE") (text (codes "1"))
      (field (codes "USE_FAKE_MMAP") (text (codes "0")) end)

pub off_is : get_env cfg false ≡ ok env_off
unfolding get_env item set_item index split_kv split_at text_eq
off_is = refl

pub on_is : get_env cfg true ≡ ok env_on
unfolding get_env item set_item index split_kv split_at text_eq
on_is = refl

pub looked_up :
    (get_direct cfg (codes "afl.prioritize_pm_path.enable") ≡ ok (bool false))
    × (get_direct cfg (codes "afl.prioritize_pm_path.env.disable") ≡ ok (text (codes "DONT=1")))
    × (get_direct cfg (codes "pmfuzz.bin_dir") ≡ ok (text (codes "/bin")))
    × (get_direct cfg (codes "target.tmout") ≡ ok (text (codes "150")))
    × (get_direct cfg (codes "target.mlimit") ≡ ok (text (codes "1500")))
    × (get_direct cfg (codes "afl.cmin") ≡ ok (text (codes "/cmin")))
    × (get_direct cfg (codes "afl.cpmap") ≡ ok (text (codes "/cp-map")))
unfolding get_direct get_item item index walk split_at text_eq
looked_up = (refl, refl, refl, refl, refl, refl, refl)

pub limits :
    (get_in cfg (codes "target") (codes "tmout") ≡ ok (text (codes "150")))
    × (get_in cfg (codes "target") (codes "mlimit") ≡ ok (text (codes "1500")))
unfolding get_item item index text_eq
limits = (refl, refl)

pub setting : split_kv (text (codes "DONT=1")) ≡ ok (codes "DONT", codes "1")
unfolding split_kv split_at
setting = refl

pub target_there : item (codes "target") cfg ≡ some (dict target)
unfolding item text_eq
target_there = refl

pub no_input : stdin_of (item (codes "empty_img") target) ≡ ok none
unfolding item text_eq
no_input = refl

pub env_off-Once : Once env_off
unfolding Once item text_eq
env_off-Once = (refl, (refl, tt))

pub no_create-Once : Once no_create
unfolding Once item
no_create-Once = (refl, tt)

abbrev pub ready : Ready cfg
ready = record {
  env = env_off;
  env_is = off_is;
  image_env = env_on;
  image_env_is = on_is;
  target = target;
  target_is = target_there;
  stdin = none;
  stdin_is = no_input;
  prioritize = bool false;
  prioritize_is = looked_up.0;
  setting = text (codes "DONT=1");
  setting_is = looked_up.1;
  name = codes "DONT";
  value = codes "1";
  split_is = setting;
  bin = codes "/bin";
  bin_is = looked_up.2;
  tmout = codes "150";
  tmout_is = looked_up.3;
  mlimit = codes "1500";
  mlimit_is = looked_up.4;
}

abbrev pub outside : Outside
outside = record { imgname = λ i. codes "/mnt/i"; pid = λ i. i + 100; is_dir = λ d. true }

abbrev pub command : List Text
command = codes "mapcli" ∷ codes "__POOL_IMAGE__" ∷ []
