-- ===== src/Ctl/Config/SetupEnv.antt =====
-- `setup_env` and `resolve_project` of src/ctl/config.rs.
use nix_capsule.Prelude.{
  ◌==◌, if◌then◌else◌, Result, ok, err, ◌>>=◌, map_err, Str, codes, str_eq, ◌||◌, Option, none,
  some, List, [], ◌∷◌, ◌++◌,
}
use nix_capsule.Ctl.Shell.{quoted}
use nix_capsule.Ctl.Layout.{Dirs, NoHomeError, socket_path, cache_dir, log_dir}
use nix_capsule.Ctl.Layout as layout
use nix_capsule.Ctl.Config.{ConfigError, Shell, lookup_non_empty, demand}
use nix_capsule.Ctl.Config.Sanitize.{sanitize}

-- The last part that names something, `part` being read: `.` and empty parts name nothing.
abbrev chosen : Str → Option Str → Option Str
chosen part last = if str_eq part [] || str_eq part (codes ".") then last else some part

unfoldable pub last_part : Option Str → Str → Str → Option Str
last_part last part [] = chosen part last
last_part last part (c ∷ s) =
    let next = last_part (chosen part last) [] s in
    let longer = last_part last (part ++ c ∷ []) s in if c == b'/' then next else longer

abbrev not_parent : Option Str → Str
not_parent none = []
not_parent (some part) = if str_eq part (codes "..") then [] else part

-- `root.file_name()`, or the empty text.
unfoldable pub file_name : Str → Str
file_name root = not_parent (last_part none [] root)

abbrev name_or_empty : Str → Option Str → Result ConfigError Str
name_or_empty root none = err (ConfigError.empty_project_name root)
name_or_empty root (some name) = ok name

-- `export {var}='{value}'` and a newline.
unfoldable pub export_line : Str × Str → Str
export_line (var, value) = codes "export " ++ (var ++ b'=' ∷ (quoted value ++ 10 ∷ []))

unfoldable pub export_lines : List (Str × Str) → Str
unfolding export_line
export_lines [] = []
export_lines (p ∷ ps) = export_line p ++ export_lines ps

module _ (sh : Shell) (dirs : Dirs) where
  abbrev project_or : Str → Option Str → Result ConfigError Str
  project_or root (some project) = ok project
  project_or root none = name_or_empty root (sanitize (file_name root))

  -- Every caller gives a root.
  unfoldable pub resolve_project : Str → Result ConfigError Str
  resolve_project root = project_or root (lookup_non_empty sh (codes "NCAP_PROJECT"))

  abbrev or_value : Option Str → Str → Str
  or_value (some value) other = value
  or_value none other = other

  abbrev or_derived : Option Str → Result NoHomeError Str → Result ConfigError Str
  or_derived (some dir) derived = ok dir
  or_derived none derived = map_err ConfigError.no_home derived

  abbrev pub cache_value : Str → Result ConfigError Str
  cache_value project =
      or_derived (lookup_non_empty sh (codes "NCAP_CACHE_DIR")) (layout.cache_dir dirs project)

  abbrev pub logs_value : Str → Result ConfigError Str
  logs_value project =
      or_derived (lookup_non_empty sh (codes "NCAP_LOG_DIR")) (layout.log_dir dirs project)

  -- The five variables and their values, in the order of the lines.
  unfoldable pub setup_pairs : Result ConfigError (List (Str × Str))
  setup_pairs = demand sh (codes "NCAP_PROJECT_ROOT") >>= λ root.
      resolve_project root >>= λ project. cache_value project >>= λ cache_dir.
      logs_value project >>= λ log_dir. ok (
        (codes "NCAP_PROJECT", project)
        ∷ (
          codes "NCAP_CONTAINER",
          or_value (lookup_non_empty sh (codes "NCAP_CONTAINER")) (codes "ncap-" ++ project),
        )
        ∷ (
          codes "NCAP_SOCKET",
          or_value (lookup_non_empty sh (codes "NCAP_SOCKET")) (socket_path dirs project),
        )
        ∷ (codes "NCAP_CACHE_DIR", cache_dir)
        ∷ (codes "NCAP_LOG_DIR", log_dir)
        ∷ [])

  unfoldable pub setup_env : Result ConfigError Str
  unfolding setup_pairs export_lines
  setup_env = setup_pairs >>= λ pairs. ok (export_lines pairs)
