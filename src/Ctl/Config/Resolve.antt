-- ===== src/Ctl/Config/Resolve.antt =====
-- `resolve` of src/ctl/config.rs.
use nix_capsule.Prelude.{Result, ok, ◌>>=◌, codes}
use nix_capsule.Ctl.Config.{
  Config, ConfigError, Shell, demand, parse_watch_files, validate_watch_files, parse_runtime,
  parse_timeout, parse_run_opts, parse_harden, parse_log_level,
}

module _ (sh : Shell) where
  unfoldable pub resolve : Result ConfigError Config
  resolve = parse_runtime sh >>= λ runtime. parse_timeout sh >>= λ timeout.
      parse_watch_files sh >>= λ watch_files. parse_run_opts sh >>= λ run_opts.
      parse_harden sh >>= λ harden. parse_log_level sh >>= λ level.
      demand sh (codes "NCAP_PROJECT_ROOT") >>= λ root.
      validate_watch_files sh root watch_files >>= λ u.
      demand sh (codes "NCAP_PROJECT") >>= λ project.
      demand sh (codes "NCAP_CONTAINER") >>= λ container.
      demand sh (codes "NCAP_SOCKET") >>= λ socket.
      demand sh (codes "NCAP_CACHE_DIR") >>= λ cache_dir.
      demand sh (codes "NCAP_LOG_DIR") >>= λ log_dir.
      demand sh (codes "NCAP_DEVSHELL") >>= λ devshell. demand sh (codes "NCAP_NIX") >>= λ nix.
      demand sh (codes "NCAP_IMAGE") >>= λ image. demand sh (codes "NCAP_SERVER") >>= λ server.
      demand sh (codes "NCAP_BASH") >>= λ bash. ok (record {
        root = root;
        project = project;
        container = container;
        socket = socket;
        cache_dir = cache_dir;
        log_dir = log_dir;
        runtime = runtime;
        timeout = timeout;
        watch_files = watch_files;
        run_opts = run_opts;
        harden = harden;
        level = level;
        image = image;
        server = server;
        nix = nix;
        bash = bash;
        devshell = devshell;
      })
