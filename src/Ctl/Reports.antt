-- ===== src/Ctl/Reports.antt =====
-- `status`, `show_options` and `fail` of src/ctl/mod.rs, over a machine. A line that stdout does not take is a
-- panic of `println!`, which is not modelled.
use nix_capsule.Ctl.Flows.{runtime_of, freshness}
use nix_capsule.Ctl.Machine.{Call, Machine, Program, return, ◌>>=◌, ◌>>◌}
use nix_capsule.Ctl.Errors.{CtlError}
use nix_capsule.Ctl.Config.{Config, ConfigError}
use nix_capsule.Ctl.Stamp.{StampError}
use nix_capsule.Ctl.Digest.{Freshness}
use nix_capsule.Ctl.Expand.{expand_with}
use nix_capsule.Ctl.Version.{advice, warn_on_skew}
use nix_capsule.Ctl.Runtime.{is_running}
use nix_capsule.Prelude.Chars.{as_bytes}
use nix_capsule.Prelude.{
  if◌then◌else◌, ok, map_err, Str, codes, Bool, true, false, Option, none, some, List, [], ◌∷◌,
  ◌++◌,
}

abbrev printed_line : {E : Type 0} → Str → Program E (Unit {0})
printed_line line h = (ok tt, Call.print (as_bytes (line ++ 10 ∷ [])) ∷ h)

abbrev cache_status : Freshness → Str
cache_status Freshness.fresh = codes "fresh"
cache_status Freshness.stale = codes "stale"
cache_status Freshness.missing = codes "missing"

-- What is added to the message of an error.
unfoldable pub advice_of : CtlError → Option Str
advice_of (CtlError.not_running container) =
    some (codes "run `ncap-ctl init` to start this project's container")
advice_of (CtlError.no_cached_env dir) =
    some (codes "run `ncap-ctl init` to start this project's container")
advice_of (CtlError.config (ConfigError.empty_project_name root)) =
    some (codes "set `project` to a value mapping to a unique root")
advice_of (CtlError.stamp (StampError.already_claimed project existing)) =
    some (codes "set `project` to a value mapping to a unique root")
advice_of (CtlError.config ConfigError.no_runtime) =
    some (codes "install `podman` or `docker`, or set `NCAP_RUNTIME` to an installed runtime")
advice_of _ = none

abbrev advised : Str → Option Str → Str
advised message none = message
advised message (some advice) = message ++ 10 ∷ advice

-- `text` is the `Display` that is derived for the error.
unfoldable pub fail : (CtlError → Str) → CtlError → Str
unfolding advice_of
fail text e = advised (text e) (advice_of e)

module _ (m : Machine) (cfg : Config) where
  abbrev probe_connected : Program CtlError Bool
  probe_connected h = (ok (m.connect h cfg.socket), Call.connect cfg.socket ∷ h)

  abbrev warned : Bool → Program CtlError (Unit {0})
  warned false = return tt
  warned true = warn_on_skew m cfg.socket

  abbrev report : Bool → Bool → Freshness → Program CtlError (Unit {0})
  report running connectable found =
      printed_line (
        if running
        then codes "container: running (" ++ (cfg.container ++ codes ")")
        else codes "container: not running")
      >> printed_line (
          (if connectable then codes "socket: connectable (" else codes "socket: unreachable (")
          ++ (cfg.socket ++ codes ")"))
      >> printed_line (codes "cache: " ++ cache_status found)

  unfoldable pub status : Program CtlError (Unit {0})
  status = is_running m (runtime_of cfg) >>= λ running. probe_connected >>= λ connectable.
      warned connectable >> λ h. report running connectable (freshness m cfg h) h

  abbrev expanded : Str → Program CtlError Str
  expanded opt h = (map_err CtlError.unset_var (expand_with m.lookup opt), h)

  -- The options before one that fails are printed.
  unfoldable pub show_from : List Str → Program CtlError (Unit {0})
  show_from [] = return tt
  show_from (opt ∷ opts) = (expanded opt >>= λ text. printed_line text) >> show_from opts

  unfoldable pub show_options : Program CtlError (Unit {0})
  unfolding show_from
  show_options = show_from cfg.run_opts
