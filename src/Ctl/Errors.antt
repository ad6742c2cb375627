-- ===== src/Ctl/Errors.antt =====
-- `CtlError` of src/ctl/mod.rs, and `FsError` of src/ctl/fs_error.rs.
use nix_capsule.Prelude.{Str}
use nix_capsule.Prelude.Io.{IoError}
use nix_capsule.Ctl.Config.{ConfigError}
use nix_capsule.Ctl.Stamp.{StampError}
use nix_capsule.Ctl.Runtime.{RuntimeError}
use nix_capsule.Ctl.Nix.{PrintDevEnvError}

pub data FsError : Type 0 where
  create_dir unopened read write read_dir remove : Str → IoError → FsError

pub data PrintLogError : Type 0 where
  read : Str → IoError → PrintLogError
  write : IoError → PrintLogError

-- Two are no errors of the program: `stuck` stands for a loop of the model that ran out of fuel, and
-- `panicked` for the panic of an `Instant` that overflows.
pub data CtlError : Type 0 where
  config : ConfigError → CtlError
  stamp : StampError → CtlError
  print_dev_env : PrintDevEnvError → CtlError
  runtime : RuntimeError → CtlError
  fs : FsError → CtlError
  digest : IoError → CtlError
  socket_no_parent no_log : Str → CtlError
  print : PrintLogError → CtlError
  pager_spawn : Str → IoError → CtlError
  pager_failed unset_var not_running no_cached_env : Str → CtlError
  stuck panicked : CtlError
