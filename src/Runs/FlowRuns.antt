-- ===== src/Runs/FlowRuns.antt =====
-- Runs of the control program's flows, on a machine whose files are what was written to them.
use mathlib.Core.List.Perm
use nix_capsule.Ctl.Clean.{clean}
use nix_capsule.Ctl.Clean.Own.{Tidied, clean_removes_own}
use nix_capsule.Ctl.Arguments.{parent, watch_args, expand_all, build_runtime_args}
use nix_capsule.Ctl.Runtime.{launch_command, is_running, is_live, run_checked, run_detached, stop}
use nix_capsule.Ctl.Stamp.{trim_newlines, project_stamp_file, guard}
use nix_capsule.Ctl.Digest.Sorted.{compute-Perm}
use nix_capsule.Ctl.Nix.{print_dev_env, wipe_history}
use nix_capsule.Ctl.Machine.{Output, Call, Machine}
use nix_capsule.Ctl.Flows.{
  stamp_guard, ensure_dir_0700, freshness, refill_cache, ensure_cache, wait_live, await_live,
  socket_dir_made, start_dumped, start_inner, init, stop_flow,
}
use nix_capsule.Ctl.Flows.Evidence.{Up, Down, init-Up, stop_flow-Down}
use nix_capsule.Ctl.Flows.Cached.{Stores, Apart, ensure_cache-fresh}
use nix_capsule.Ctl.Layout.{join, env_file, hash_file}
use nix_capsule.Ctl.Digest.{
  Freshness, Files, insert, sort, entry_record, hex, stream, compute, check,
}
use nix_capsule.Ctl.Digest.Fresh.{check-fresh_iff}
use nix_capsule.Ctl.Config.{Config}
use nix_capsule.Server.LogLevel.{LogLevel}
use nix_capsule.Prelude.Io.{ErrorKind, IoError}
use nix_capsule.Prelude.Chars.{as_bytes, trim_start, trim_end, trim}
use nix_capsule.Runs.Toy.{json}
use nix_capsule.Prelude.{
  ltb, ◌==◌, if◌then◌else◌, ==_iff, Bool-cases, &&-left, &&-right, take, drop, all, Result, ok, err,
  Bytes, Str, codes, str_eq, str_eq_sound, str_eq_self, ℕ, ◌+◌, ◌*◌, ◌≡◌, refl, ap, ◌↔◌, inl, inr,
  Bool, true, false, Option, none, some, List, [], ◌∷◌,
}

-- What a call leaves at a path where `before` stood.
abbrev written_in : Call → Str → Option Bytes → Option Bytes
written_in (Call.write path bytes) place before = if str_eq place path then some bytes else before
written_in _ place before = before

abbrev written_at : List Call → Str → Option Bytes
written_at [] path = none
written_at (c ∷ h) path = written_in c path (written_at h path)

abbrev absent : IoError
absent = record { kind = ErrorKind.not_found; text = codes "no such file" }

abbrev found : Option Bytes → Result IoError Bytes
found none = err absent
found (some bytes) = ok bytes

abbrev is_some : Option Bytes → Bool
is_some none = false
is_some (some bytes) = true

abbrev stored : List Call → Files
stored h = record {
  is_file = λ path. is_some (written_at h path);
  read_to_string = λ path. found (written_at h path);
  read = λ path. found (written_at h path);
}

abbrev ticks : List Call → ℕ
ticks [] = 0
ticks (c ∷ h) = ticks h + 100

abbrev says : Output
says = record { success = true; stdout = codes "true"; stderr = [] }

-- Each command succeeds, the container always runs, and each call takes 100 milliseconds.
abbrev pub machine : Machine
machine = record {
  engine = λ h args. ok says;
  interactive = λ h args. ok true;
  nix = λ h args. ok (true, codes "export A=1");
  pager = λ h prog args. ok true;
  connect = λ h path. true;
  opens = λ h path. none;
  read_at = λ h path pos. ok (take 8192 (drop pos (codes "ready")));
  files = stored;
  create_dir = λ h path. none;
  set_private = λ h path. none;
  write = λ h path bytes. none;
  remove_file = λ h path. none;
  remove_tree = λ h path. none;
  remove_dir = λ h path. none;
  stdout = λ h bytes. none;
  exists = λ h path. false;
  read_dir = λ h path.
      ok (ok (codes "profile-1-link") ∷ ok (codes "mine") ∷ ok (codes "ncap-server-5.log") ∷ []);
  symlink_is_dir = λ h path. ok false;
  is_real_dir = λ h path. false;
  version_reply = λ h path. none;
  lookup = λ name. none;
  hash = λ bytes. 7;
  json = json;
  version = codes "1";
  now = ticks;
  last_instant = 1000000;
}

as_bytes-ascii : (text : Str) → all (λ c. ltb c 128) text ≡ true → as_bytes text ≡ text
unfolding as_bytes
as_bytes-ascii [] h = refl
as_bytes-ascii (c ∷ s) h =
    rw (&&-left (ltb c 128) _ h, as_bytes-ascii s (&&-right (ltb c 128) _ h)) refl

-- Each path leads to a file of its own.
abbrev numbered : Str → ℕ
numbered [] = 0
numbered (c ∷ s) = c + 256 * numbered s

numbered_apart : (s t : Str) → (numbered s == numbered t) ≡ false → str_eq s t ≡ false
numbered_apart s t apart = elim (Bool-cases (str_eq s t)) [
  | inl same ↦ absurd (
      let equal : numbered s ≡ numbered t = ap numbered (str_eq_sound s t same) in
      cc (apart, (==_iff (numbered s) (numbered t)).1 equal))
  | inr distinct ↦ distinct
]

machine-Stores : Stores machine numbered
machine-Stores = record {
  made = λ h path bytes done. rw (str_eq_self path) refl;
  reads_back = λ h path text plain done. rw (str_eq_self path, as_bytes-ascii text plain) refl;
  kept = λ h path place bytes apart. rw (numbered_apart place path apart) refl;
  unread = λ h path place bytes apart. rw (numbered_apart place path apart) refl;
  unwiped = λ h cache_dir. refl;
}

abbrev pub flow_config : Config
flow_config = record {
  root = codes "/p";
  project = codes "p";
  container = codes "ncap-p";
  socket = codes "/r/s";
  cache_dir = codes "/c";
  log_dir = codes "/l";
  runtime = codes "podman";
  timeout = 2;
  watch_files = codes "b" ∷ codes "a" ∷ [];
  run_opts = [];
  harden = true;
  level = LogLevel.info;
  image = codes "i";
  server = codes "s";
  nix = codes "nix";
  bash = codes "bash";
  devshell = codes ".";
}

ensured : (ensure_cache machine flow_config []).0 ≡ ok tt
unfolding ensure_cache check compute stream sort insert entry_record hex refill_cache print_dev_env
    wipe_history as_bytes join
ensured = refl

dump_apart :
    (numbered (env_file flow_config.cache_dir) == numbered (hash_file flow_config.cache_dir))
    ≡ false
unfolding join
dump_apart = refl

apart : Apart flow_config numbered
unfolding join
apart = refl

ensure_cache-fresh_example :
    freshness machine flow_config (ensure_cache machine flow_config []).1 ≡ Freshness.fresh
ensure_cache-fresh_example =
    ensure_cache-fresh machine flow_config numbered machine-Stores dump_apart apart [] tt ensured

started : (init machine flow_config []).0 ≡ ok tt
unfolding init socket_dir_made ensure_dir_0700 ensure_cache check compute stream sort insert
    entry_record hex refill_cache print_dev_env wipe_history as_bytes join stamp_guard guard is_live
    is_running start_inner start_dumped parent build_runtime_args watch_args expand_all run_detached
    run_checked launch_command await_live wait_live trim trim_start trim_end stop project_stamp_file
    trim_newlines
started = refl

init-Up_example : Up machine flow_config (init machine flow_config []).1
init-Up_example = init-Up machine flow_config [] tt started

stopped : (stop_flow machine flow_config []).0 ≡ ok tt
unfolding stop_flow stop is_running run_checked trim trim_start trim_end
stopped = refl

stop_flow-Down_example : Down machine flow_config (stop_flow machine flow_config []).1
stop_flow-Down_example = stop_flow-Down machine flow_config [] tt stopped

check-fresh_iff_example :
    (check (λ bytes. 7) (stored []) (codes "/c") (codes "/p") (codes "a" ∷ []) ≡ Freshness.fresh)
    ↔ (((stored []).is_file (env_file (codes "/c")) ≡ true)
        × ((cached : Str) × ((stored []).read_to_string (hash_file (codes "/c")) ≡ ok cached)
            × (compute (λ bytes. 7) (stored []) (codes "/p") (codes "a" ∷ []) ≡ ok (trim cached))))
check-fresh_iff_example =
    check-fresh_iff (λ bytes. 7) (stored []) (codes "/c") (codes "/p") (codes "a" ∷ [])

compute-Perm_example :
    compute (λ bytes. 7) (stored []) (codes "/p") (codes "b" ∷ codes "a" ∷ [])
    ≡ compute (λ bytes. 7) (stored []) (codes "/p") (codes "a" ∷ codes "b" ∷ [])
compute-Perm_example =
    compute-Perm (λ bytes. 7) (stored []) (codes "/p") (codes "b" ∷ codes "a" ∷ [])
      (codes "a" ∷ codes "b" ∷ []) (Perm.swap (codes "a") (codes "b") [])

clean_removes_own_example : Tidied machine flow_config [] (clean machine flow_config []).1
clean_removes_own_example = clean_removes_own machine flow_config []
