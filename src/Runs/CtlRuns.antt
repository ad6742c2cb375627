-- ===== src/Runs/CtlRuns.antt =====
-- The control program of src/ctl at concrete inputs.
use nix_capsule.Prelude.{
  if◌then◌else◌, ok, Str, codes, str_eq, ◌≡◌, refl, ◌↔◌, true, Option, none, some, List, [], ◌∷◌,
  ◌++◌, arith,
}
use nix_capsule.Prelude.Decimal.{scan_u64, parse_u64}
use nix_capsule.Ctl.Stamp.{StampFile, Disk, trim_newlines, guard, guard_binds}
use nix_capsule.Ctl.Shell.{shell_escape}
use nix_capsule.Ctl.Expand.{is_env_name, expand_with}
use nix_capsule.Ctl.Expand.Pieces.{Piece, print, Proper, meaning}
use nix_capsule.Ctl.Expand.Print.{expand_with-print}
use nix_capsule.Ctl.Paths.{server_log_path, parse_server_log_epoch, parse_server_log_epoch-path}
use nix_capsule.Ctl.Layout.{Dirs, join, socket_path, cache_dir, log_dir}
use nix_capsule.Ctl.Config.{
  Config, Shell, has_parent, lookup_non_empty, demand, parse_watch_files, validate_watch_files,
  parse_runtime, parse_timeout, parse_run_opts, parse_harden, parse_log_level,
}
use nix_capsule.Ctl.Config.Sanitize.{
  sanitize_loop, trim_start, trim_end, sanitize, neat, sanitize-neat,
}
use nix_capsule.Ctl.Config.Resolve.{resolve}
use nix_capsule.Ctl.Config.Demands.{Resolved, resolve-Resolved}
use nix_capsule.Ctl.Config.SetupEnv.{
  last_part, file_name, export_line, export_lines, resolve_project, setup_pairs, setup_env,
}
use nix_capsule.Ctl.Config.Sourced.{source, setup_env-source}
use nix_capsule.Server.LogLevel.{LogLevel, parse}

-- `-v=$HOME/x`
abbrev pieces : List Piece
pieces =
    Piece.literal b'v'
    ∷ Piece.literal b'='
    ∷ Piece.bare (codes "HOME")
    ∷ Piece.literal b'/'
    ∷ Piece.braced (codes "A_1")
    ∷ Piece.lone
    ∷ []

abbrev looks_up : Str → Option Str
looks_up name = some (codes "value")

pieces-Proper : Proper pieces
unfolding is_env_name
pieces-Proper = (
  λ e. omega arith,
  (λ e. omega arith, ((refl, refl), (λ e. omega arith, (refl, ((refl, refl), tt))))),
)

expand_with-print_example : expand_with looks_up (print pieces) ≡ meaning looks_up [] pieces
expand_with-print_example = expand_with-print looks_up pieces pieces-Proper

parse_server_log_epoch-path_example : parse_server_log_epoch (server_log_path 1700) ≡ some 1700
parse_server_log_epoch-path_example = parse_server_log_epoch-path 1700 (omega arith)

abbrev in_dir : Str → Str
in_dir name = codes "/l/" ++ name

abbrev names : Option (List Str)
names = some (codes "ncap-server-9.log" ∷ codes "other" ∷ codes "ncap-server-10.log" ∷ [])

sanitized : sanitize (codes "my  app!") ≡ some (codes "my-app")
unfolding sanitize sanitize_loop trim_start trim_end
sanitized = refl

sanitize-neat_example : neat true (codes "my-app") ≡ true
sanitize-neat_example = sanitize-neat (codes "my  app!") sanitized

-- Every variable is set, those that are parsed to a value of their kind.
abbrev variable : Str → Option Str
variable name =
    if str_eq name (codes "NCAP_RUNTIME")
    then some (codes "auto")
    else if str_eq name (codes "NCAP_TIMEOUT")
    then some (codes "30")
    else if str_eq name (codes "NCAP_HARDEN")
    then some (codes "true")
    else if str_eq name (codes "NCAP_LOG_LEVEL")
    then some (codes "info")
    else some (codes "v")

abbrev shell : Shell
shell = record {
  lookup = variable;
  strings_of_json = λ raw. ok (codes "flake.nix" ∷ []);
  in_path = λ name. str_eq name (codes "docker");
  exists = λ path. true;
  is_file = λ path. true;
}

abbrev config : Config
config = record {
  root = codes "v";
  project = codes "v";
  container = codes "v";
  socket = codes "v";
  cache_dir = codes "v";
  log_dir = codes "v";
  runtime = codes "docker";
  timeout = 30;
  watch_files = codes "flake.nix" ∷ [];
  run_opts = codes "flake.nix" ∷ [];
  harden = true;
  level = LogLevel.info;
  image = codes "v";
  server = codes "v";
  nix = codes "v";
  bash = codes "v";
  devshell = codes "v";
}

resolved : resolve shell ≡ ok config
unfolding resolve parse_runtime parse_timeout parse_watch_files parse_run_opts parse_harden
    parse_log_level demand validate_watch_files parse parse_u64 scan_u64 has_parent
resolved = refl

resolve-Resolved_example : Resolved shell config
resolve-Resolved_example = resolve-Resolved shell resolved

abbrev dirs : Dirs
dirs = record {
  runtime_dir = some (codes "/r");
  cache_dir = some (codes "/c");
  state_dir = some (codes "/s");
  tmpdir = none;
}

-- Only the root is set.
abbrev rooted : Shell
rooted = record shell {
  lookup =
      λ name. if str_eq name (codes "NCAP_PROJECT_ROOT") then some (codes "/home/it's") else none;
}

abbrev script : Str
script =
    codes
      "export NCAP_PROJECT='it-s'\nexport NCAP_CONTAINER='ncap-it-s'\nexport NCAP_SOCKET='/r/nix-capsule/it-s/ncap.sock'\nexport NCAP_CACHE_DIR='/c/nix-capsule/it-s'\nexport NCAP_LOG_DIR='/s/nix-capsule/it-s/logs'\n"

script_printed : setup_env rooted dirs ≡ ok script
unfolding setup_env setup_pairs export_lines export_line demand resolve_project lookup_non_empty
    shell_escape socket_path cache_dir log_dir join sanitize sanitize_loop trim_start trim_end
    file_name last_part
script_printed = refl

setup_env-source_example :
    (pairs : List (Str × Str)) × (setup_pairs rooted dirs ≡ ok pairs)
    × (source 6 script ≡ some pairs)
setup_env-source_example = setup_env-source rooted dirs script_printed

abbrev disk : Disk
disk = record { create_dir = none; write = none }

first_guard :
    guard disk (codes "/c") (codes "p") (codes "/a") StampFile.absent
    ≡ (ok tt, StampFile.holds (codes "/a"))
unfolding guard
first_guard = refl

plain_root : trim_newlines (codes "/a") ≡ codes "/a"
unfolding trim_newlines
plain_root = refl

guard_binds_example :
    (((guard disk (codes "/c") (codes "p") (codes "/b") (StampFile.holds (codes "/a"))).0 ≡ ok tt)
      ↔ (codes "/b" ≡ codes "/a"))
    × ((guard disk (codes "/c") (codes "p") (codes "/b") (StampFile.holds (codes "/a"))).1
        ≡ StampFile.holds (codes "/a"))
guard_binds_example =
    guard_binds disk (codes "/c") (codes "p") (codes "/a") StampFile.absent
      (StampFile.holds (codes "/a")) plain_root first_guard disk (codes "/b")
