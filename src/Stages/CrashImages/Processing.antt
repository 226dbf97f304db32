-- ===== src/Stages/CrashImages/Processing.antt =====
-- What `process_new_crash_sites` leaves in the image directory.
use mathlib.Core.List.{reverse, reverse-append}
use pmfuzz.Base.{
  ℤ, Bool, true, false, not, ◌&&◌, List, [], ◌∷◌, ◌++◌, ◌≡◌, sym, ap, ◌∙◌, if◌then◌else◌, Text,
  codes, text_eq, Option, some, ok, append_assoc,
}
use pmfuzz.Str.{starts_with}
use pmfuzz.NameHandler.Grammar.{Name, IsName, render, render_end}
use pmfuzz.NameHandler.Patterns.{is_hash_f}
use pmfuzz.NameHandler.Metadata.Family.{Kind, file_name}
use pmfuzz.NameHandler.Metadata.Apart.{site_of, text_eq-apart}
use pmfuzz.Stages.Dedup.{should_use_cs}
use pmfuzz.Stages.Folder.{Folder, get}
use pmfuzz.Stages.CrashImages.{drop_pid, Tools}

-- An image with the name of its crash site, whether it would be used, and its content.
pub record CrashImage : Type 0 where
  pub img : Text
  pub name : Name
  pub used : Bool
  pub content : Text

abbrev pub img_of : CrashImage → Text
img_of c = c.img

abbrev pub crash_of : Name → Text
crash_of n = file_name Kind.crash_site n

-- The image is there, its check does not abort, and without the pid it is the crash site of its name.
abbrev pub IsCrashImage : Tools → List ℤ → Folder → CrashImage → Type 0
IsCrashImage tools select_ids pm_dir c =
    IsName c.name
    × (tools.check_crash_site c.img ≡ ok tt)
    × (drop_pid c.img ≡ crash_of c.name)
    × (should_use_cs select_ids (crash_of c.name) ≡ ok c.used)
    × (get c.img pm_dir ≡ some c.content)

-- The archive of a crash site: that of the last image of it that is used, or else the one that was there.
abbrev pub last_archive : Tools → List CrashImage → Name → Option Text → Option Text
last_archive tools [] m old = old
last_archive tools (c ∷ cs) m old =
    last_archive tools cs m (
      if c.used && text_eq (site_of m) (site_of c.name)
      then some (tools.archive c.content)
      else old)

pub whole_site : (n : Name) → crash_of n ++ codes ".tar.gz" ≡ site_of n
whole_site n =
    ap (λ t. t ++ codes ".tar.gz") (render_end n (codes ".crash_site"))
    ∙ append_assoc (render n []) (codes ".crash_site") (codes ".tar.gz")
    ∙ sym (render_end n (codes ".crash_site.tar.gz"))

pub hash_end : (s : Text) → is_hash_f (s ++ codes ".hash") ≡ true
unfolding is_hash_f starts_with
hash_end s = ap (λ t. starts_with t (reverse (codes ".hash"))) (reverse-append s (codes ".hash"))

site_end : (s : Text) → is_hash_f (s ++ codes ".crash_site.tar.gz") ≡ false
unfolding is_hash_f starts_with
site_end s =
    ap (λ t. starts_with t (reverse (codes ".hash")))
      (reverse-append s (codes ".crash_site.tar.gz"))

pub site-not_hash : (n : Name) → is_hash_f (site_of n) ≡ false
site-not_hash n = ap is_hash_f (render_end n (codes ".crash_site.tar.gz")) ∙ site_end (render n [])

pub site-hash : (m : Name) (s : Text) → text_eq (site_of m) (s ++ codes ".hash") ≡ false
site-hash m s =
    text_eq-apart (λ t. not (is_hash_f t)) (site_of m) (s ++ codes ".hash")
      (ap not (site-not_hash m)) (ap not (hash_end s))
