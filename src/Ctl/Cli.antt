-- ===== src/Ctl/Cli.antt =====
-- What src/ctl/cli.rs makes of the command line.
use nix_capsule.Prelude.{Bool}

pub record LogFlags : Type 0 where
  pub follow : Bool
  pub no_pager : Bool

pub data Cmd : Type 0 where
  init start stop restart status enter clean show_options setup_env : Cmd
  log : LogFlags → Cmd
