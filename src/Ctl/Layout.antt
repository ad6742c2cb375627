-- ===== src/Ctl/Layout.antt =====
-- The directories of src/ctl/paths.rs, over what the `dirs` crate and the environment give.
use nix_capsule.Prelude.{
  ◌==◌, if◌then◌else◌, Result, ok, err, Str, codes, Bool, true, false, not, Option, none, some, [],
  ◌∷◌, ◌++◌,
}

-- `dirs::runtime_dir`, `cache_dir` and `state_dir`, and `$TMPDIR`.
pub record Dirs : Type 0 where
  pub runtime_dir : Option Str
  pub cache_dir : Option Str
  pub state_dir : Option Str
  pub tmpdir : Option Str

-- What cannot be derived, and the variable that would say it.
pub record NoHomeError : Type 0 where
  pub what : Str
  pub var : Str

abbrev pub ends_slash : Str → Bool
ends_slash [] = true
ends_slash (c ∷ []) = c == b'/'
ends_slash (c ∷ d ∷ s) = ends_slash (d ∷ s)

abbrev pub starts_slash : Str → Bool
starts_slash [] = false
starts_slash (c ∷ s) = c == b'/'

-- `Path::join`: an absolute second path stands for itself.
unfoldable pub join : Str → Str → Str
join base path =
    if starts_slash path
    then path
    else if ends_slash base
    then base ++ path
    else base ++ b'/' ∷ path

-- `Path::is_relative`
abbrev pub is_relative : Str → Bool
is_relative path = not (starts_slash path)

abbrev non_empty : Option Str → Option Str
non_empty none = none
non_empty (some []) = none
non_empty (some (c ∷ s)) = some (c ∷ s)

abbrev runtime_base : Option Str → Option Str → Str
runtime_base (some dir) tmpdir = dir
runtime_base none (some tmpdir) = tmpdir
runtime_base none none = codes "/tmp"

unfoldable pub socket_path : Dirs → Str → Str
socket_path d project =
    join
      (join (join (runtime_base d.runtime_dir (non_empty d.tmpdir)) (codes "nix-capsule")) project)
      (codes "ncap.sock")

abbrev cache_under : Str → Option Str → Result NoHomeError Str
cache_under project (some dir) = ok (join (join dir (codes "nix-capsule")) project)
cache_under project none = err (record { what = codes "cache dir"; var = codes "XDG_CACHE_HOME" })

unfoldable pub cache_dir : Dirs → Str → Result NoHomeError Str
cache_dir d project = cache_under project d.cache_dir

abbrev logs_under : Str → Option Str → Result NoHomeError Str
logs_under project (some dir) =
    ok (join (join (join dir (codes "nix-capsule")) project) (codes "logs"))
logs_under project none = err (record { what = codes "log dir"; var = codes "XDG_STATE_HOME" })

unfoldable pub log_dir : Dirs → Str → Result NoHomeError Str
log_dir d project = logs_under project d.state_dir

-- The named files of the cache directory.
abbrev pub env_file : Str → Str
env_file dir = join dir (codes "env")

abbrev pub hash_file : Str → Str
hash_file dir = join dir (codes "hash")

abbrev pub profile_file : Str → Str
profile_file dir = join dir (codes "profile")
