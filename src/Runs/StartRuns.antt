-- ===== src/Runs/StartRuns.antt =====
-- A launch, a start and a followed log of src/ctl, on the machine of the flows.
use nix_capsule.Ctl.Arguments.Volumes.{Next, read_mounts}
use nix_capsule.Ctl.Machine.{Machine}
use nix_capsule.Ctl.Arguments.{parent, watch_args, expand_all, default_args, build_runtime_args}
use nix_capsule.Ctl.Arguments.Mounts.{default_mounts, build_runtime_args-default_mounts}
use nix_capsule.Prelude.Decimal as Decimal
use nix_capsule.Runs.FlowRuns.{machine, flow_config}
use nix_capsule.Ctl.Runtime.{ServerArgs, launch_command}
use nix_capsule.Ctl.Runtime.Launch.{
  kind, Token, Place, read_tokens, launch_tokens, launch_command-tokens,
}
use nix_capsule.Ctl.Flows.Own.{Touched}
use nix_capsule.Ctl.Flows.Starting.{flows_touch_own}
use nix_capsule.Ctl.Flows.{init, start, restart}
use nix_capsule.Ctl.Logs.Drained.{printed, Settled}
use nix_capsule.Ctl.Logs.{Poll, follow_log}
use nix_capsule.Ctl.Logs.Followed.{sections, found_in, AllSettled, follow_log_prints}
use nix_capsule.Ctl.Paths.{ServerLog, parse_server_log_epoch, sorted_server_logs, newer}
use nix_capsule.Ctl.Layout.{join}
use nix_capsule.Server.LogLevel.{LogLevel}
use nix_capsule.Prelude.Io.{IoError}
use nix_capsule.Prelude.{
  ◌==◌, &&-left, &&-right, all, Result, ok, Bytes, Str, codes, Lacks, ℕ, ◌≡◌, refl, true, not, none,
  some, List, [], ◌∷◌, ◌++◌, arith,
}

abbrev args : ServerArgs
args = record {
  socket = codes "/r/it's";
  log_dir = codes "/l; rm";
  timeout = 30;
  level = LogLevel.debug;
}

launch_command-tokens_example :
    read_tokens (launch_command (codes "/c/env") (codes "/bin/s") args) Place.gap
    ≡ some (launch_tokens (codes "/c/env") (codes "/bin/s") args)
launch_command-tokens_example = launch_command-tokens (codes "/c/env") (codes "/bin/s") args

quoted_operators :
    read_tokens (codes "exec 'a && b' && 'it'\\''s'") Place.gap
    ≡ some (
        Token.word (codes "exec")
        ∷ Token.word (codes "a && b")
        ∷ Token.and_then
        ∷ Token.word (codes "it's")
        ∷ [])
unfolding read_tokens kind
quoted_operators = refl

unquoted_expansion : read_tokens (codes "source $HOME") Place.gap ≡ none
unfolding read_tokens kind
unquoted_expansion = refl

flows_touch_own_example :
    Touched machine flow_config [] (init machine flow_config []).1
    × (Touched machine flow_config [] (start machine flow_config []).1
        × Touched machine flow_config [] (restart machine flow_config []).1)
flows_touch_own_example = flows_touch_own machine flow_config []

abbrev first_log : ServerLog
first_log = record { epoch = 2; path = codes "/l/ncap-server-2.log" }

abbrev listing_of : Result IoError (List (Result IoError Str))
listing_of = machine.read_dir [] (codes "/l")

abbrev ready : Str → Bytes
ready path = codes "ready"

log-Settled : (path : Str) → Settled machine path 8192 (codes "ready")
log-Settled path = record { reads = λ h pos. refl; opens = λ h. refl; taken = λ h written. refl }

logs_settled :
    AllSettled machine
      (codes "/l")
      8192
      9
      ready
      (first_log ∷ newer 2 (found_in (codes "/l") listing_of))
unfolding sorted_server_logs parse_server_log_epoch Decimal.scan join
logs_settled = (log-Settled _, omega arith, (log-Settled _, omega arith, tt))

follow_log_prints_example :
    let r = follow_log machine (codes "/l") 9 (Poll.tick ∷ Poll.tick ∷ []) first_log [] in
    (r.0 ≡ ok tt)
    × (printed r.1
        ≡ printed [] ++ sections ready (first_log ∷ newer 2 (found_in (codes "/l") listing_of)))
follow_log_prints_example =
    follow_log_prints machine (codes "/l") 8192 9 ready listing_of (Poll.tick ∷ []) first_log []
      (omega arith) (λ t. refl) logs_settled

all-Lacks : (sep : ℕ) (s : Str) → all (λ c. not (c == sep)) s ≡ true → Lacks sep s
all-Lacks sep [] e = tt
all-Lacks sep (c ∷ s) e =
    let first : not (c == sep) ≡ true = &&-left _ _ e in
    ((λ same. absurd (ground (arith, same, first))), all-Lacks sep s (&&-right _ _ e))

-- A machine with every watched file and a real `.git`.
abbrev checkout : Machine
checkout = record machine { exists = λ h path. true; is_real_dir = λ h path. true }

abbrev launch_options : List Str
launch_options = default_args checkout flow_config [] (codes "/r") []

options_built : build_runtime_args checkout flow_config [] ≡ ok launch_options
unfolding build_runtime_args parent watch_args expand_all join
options_built = refl

socket_parent : parent flow_config.socket ≡ some (codes "/r")
unfolding parent
socket_parent = refl

build_runtime_args-default_mounts_example :
    (own opts : List Str) × (launch_options ≡ own ++ opts)
    × (expand_all checkout flow_config [] flow_config.run_opts ≡ ok opts)
    × (read_mounts own Next.option ≡ some (default_mounts checkout flow_config [] (codes "/r")))
build_runtime_args-default_mounts_example =
    build_runtime_args-default_mounts checkout flow_config [] (codes "/r") launch_options
      socket_parent (all-Lacks b':' (codes "/r") refl) (all-Lacks b':' (codes "/p") refl)
      (all-Lacks b':' (codes "/c") refl) (all-Lacks b':' (codes "/l") refl)
      (all-Lacks b':' (codes "b") refl, (all-Lacks b':' (codes "a") refl, tt)) options_built
