-- ===== src/Ctl/Config.antt =====
-- The environment contract of src/ctl/config.rs: the variables' readings and their errors.
pub mod Sanitize
pub mod Resolve
pub mod Readings
pub mod Demands
pub mod SetupEnv
pub mod Sourced
use nix_capsule.Prelude.{
  ◌==◌, if◌then◌else◌, Result, ok, err, ◌>>=◌, map_err, Str, codes, str_eq, ℕ, Bool, true, false,
  not, ◌&&◌, ◌||◌, Option, none, some, List, [], ◌∷◌, ◌++◌,
}
use nix_capsule.Prelude.Decimal.{IntError, parse_u64}
use nix_capsule.Server.LogLevel.{LogLevel, parse}
use nix_capsule.Server.LogLevel as log_level
use nix_capsule.Ctl.Layout.{NoHomeError, join, is_relative}

pub record Config : Type 0 where
  pub root : Str
  pub project : Str
  pub container : Str
  pub socket : Str
  pub cache_dir : Str
  pub log_dir : Str
  pub runtime : Str
  pub timeout : ℕ
  pub watch_files : List Str
  pub run_opts : List Str
  pub harden : Bool
  pub level : LogLevel
  pub image : Str
  pub server : Str
  pub nix : Str
  pub bash : Str
  pub devshell : Str

pub data ConfigError : Type 0 where
  missing : Str → ConfigError
  empty_project_name : Str → ConfigError
  not_json_array : Str → Str → ConfigError
  bad_timeout : IntError → ConfigError
  not_relative_watch_file watch_file_not_file bad_runtime : Str → ConfigError
  no_runtime : ConfigError
  bad_harden bad_level : Str → ConfigError
  no_home : NoHomeError → ConfigError

-- What the process and the libraries give: the variables, `serde_json::from_str` at `Vec<String>`,
-- whether a program is in `PATH`, and what the file system says of a path.
pub record Shell : Type 0 where
  pub lookup : Str → Option Str
  pub strings_of_json : Str → Result Str (List Str)
  pub in_path : Str → Bool
  pub exists : Str → Bool
  pub is_file : Str → Bool

abbrev non_empty : Option Str → Option Str
non_empty none = none
non_empty (some []) = none
non_empty (some (c ∷ s)) = some (c ∷ s)

abbrev ok_or : Str → Option Str → Result ConfigError Str
ok_or var none = err (ConfigError.missing var)
ok_or var (some value) = ok value

-- `Component::ParentDir` is one of the path's parts; `part` is the part read so far.
unfoldable pub has_parent : Str → Str → Bool
has_parent part [] = str_eq part (codes "..")
has_parent part (c ∷ s) =
    let next = has_parent [] s in
    let longer = has_parent (part ++ c ∷ []) s in
    if c == b'/' then str_eq part (codes "..") || next else longer

module _ (sh : Shell) where
  unfoldable pub lookup_non_empty : Str → Option Str
  lookup_non_empty var = non_empty (sh.lookup var)

  unfoldable pub demand : Str → Result ConfigError Str
  unfolding lookup_non_empty
  demand var = ok_or var (lookup_non_empty var)

  unfoldable pub parse_watch_files : Result ConfigError (List Str)
  parse_watch_files = demand (codes "NCAP_WATCH_FILES") >>= λ raw.
      map_err (ConfigError.not_json_array (codes "NCAP_WATCH_FILES")) (sh.strings_of_json raw)

  unfoldable pub validate_watch_files : Str → List Str → Result {0, 0} ConfigError Unit
  validate_watch_files root [] = ok tt
  validate_watch_files root (entry ∷ entries) =
      let rest = validate_watch_files root entries in
      if not (is_relative entry) || has_parent [] entry
      then err (ConfigError.not_relative_watch_file entry)
      else if sh.exists (join root entry) && not (sh.is_file (join root entry))
      then err (ConfigError.watch_file_not_file entry)
      else rest

  abbrev pub runtime_of : Str → Result ConfigError Str
  runtime_of raw =
      if str_eq raw (codes "podman") || str_eq raw (codes "docker")
      then ok raw
      else if str_eq raw (codes "auto")
      then (if sh.in_path (codes "podman")
          then ok (codes "podman")
          else if sh.in_path (codes "docker")
          then ok (codes "docker")
          else err ConfigError.no_runtime)
      else err (ConfigError.bad_runtime raw)

  unfoldable pub parse_runtime : Result ConfigError Str
  parse_runtime = demand (codes "NCAP_RUNTIME") >>= runtime_of

  unfoldable pub parse_timeout : Result ConfigError ℕ
  parse_timeout =
      demand (codes "NCAP_TIMEOUT") >>= λ raw. map_err ConfigError.bad_timeout (parse_u64 raw)

  unfoldable pub parse_run_opts : Result ConfigError (List Str)
  parse_run_opts = demand (codes "NCAP_RUN_OPTS") >>= λ raw.
      map_err (ConfigError.not_json_array (codes "NCAP_RUN_OPTS")) (sh.strings_of_json raw)

  abbrev pub harden_of : Str → Result ConfigError Bool
  harden_of raw =
      if str_eq raw (codes "true")
      then ok true
      else if str_eq raw (codes "false")
      then ok false
      else err (ConfigError.bad_harden raw)

  unfoldable pub parse_harden : Result ConfigError Bool
  parse_harden = demand (codes "NCAP_HARDEN") >>= harden_of

  abbrev pub level_or_bad : Str → Option LogLevel → Result ConfigError LogLevel
  level_or_bad raw none = err (ConfigError.bad_level raw)
  level_or_bad raw (some level) = ok level

  unfoldable pub parse_log_level : Result ConfigError LogLevel
  parse_log_level =
      demand (codes "NCAP_LOG_LEVEL") >>= λ raw. level_or_bad raw (log_level.parse raw)
