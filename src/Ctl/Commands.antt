-- ===== src/Ctl/Commands.antt =====
-- `run` of src/ctl/mod.rs: a command is dispatched, and its error becomes the message.
use nix_capsule.Ctl.Cli.{Cmd}
use nix_capsule.Ctl.Flows.{init, start, stop_flow, restart, enter}
use nix_capsule.Ctl.Clean.{clean}
use nix_capsule.Ctl.Logs.{Poll, log}
use nix_capsule.Ctl.Reports.{fail, status, show_options}
use nix_capsule.Ctl.Machine.{Call, Machine, Program, return}
use nix_capsule.Ctl.Errors.{CtlError}
use nix_capsule.Ctl.Config.{Config, ConfigError, Shell}
use nix_capsule.Ctl.Config.Resolve.{resolve}
use nix_capsule.Ctl.Config.SetupEnv.{setup_env}
use nix_capsule.Ctl.Layout.{Dirs}
use nix_capsule.Prelude.Chars.{as_bytes}
use nix_capsule.Prelude.{Result, ok, err, Str, ℕ, Option, none, some, List, ◌∷◌}

module _ (m : Machine) (fuel : ℕ) (polls : List Poll) where
  -- `run` handles `setup_env` before the configuration is there.
  unfoldable pub dispatch : Config → Cmd → Program CtlError (Unit {0})
  dispatch cfg Cmd.init = init m cfg
  dispatch cfg Cmd.start = start m cfg
  dispatch cfg Cmd.stop = stop_flow m cfg
  dispatch cfg Cmd.restart = restart m cfg
  dispatch cfg Cmd.status = status m cfg
  dispatch cfg Cmd.enter = enter m cfg
  dispatch cfg Cmd.clean = clean m cfg
  dispatch cfg Cmd.show_options = show_options m cfg
  dispatch cfg Cmd.setup_env = return tt
  dispatch cfg (Cmd.log flags) = log m cfg flags fuel polls

  module _ (text : CtlError → Str) where
    abbrev message : Result CtlError (Unit {0}) → Option Str
    message (ok done) = none
    message (err e) = some (fail text e)

    abbrev scripted : Result ConfigError Str → List Call → Option Str × List Call
    scripted (ok script) h = (none, Call.print (as_bytes script) ∷ h)
    scripted (err e) h = (some (fail text (CtlError.config e)), h)

    abbrev resolved : Cmd → Result ConfigError Config → List Call → Option Str × List Call
    resolved cmd (err e) h = (some (fail text (CtlError.config e)), h)
    resolved cmd (ok cfg) h = (message (dispatch cfg cmd h).0, (dispatch cfg cmd h).1)

    -- The message to print on stderr, if any.
    unfoldable pub run : Shell → Dirs → Cmd → List Call → Option Str × List Call
    unfolding dispatch
    run sh dirs Cmd.setup_env = scripted (setup_env sh dirs)
    run sh dirs cmd = resolved cmd (resolve sh)
