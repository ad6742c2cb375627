-- ===== src/Ctl/Flows.antt =====
-- The flows of src/ctl/mod.rs that start and stop the container, over a machine.
pub mod Evidence
pub mod Waiting
pub mod Ending
pub mod Cached
pub mod Own
pub mod Starting
use nix_capsule.Ctl.Machine.{
  Call, Machine, Program, return, throw, ◌>>=◌, ◌>>◌, ignore, wrapped, attempt,
}
use nix_capsule.Ctl.Errors.{FsError, CtlError}
use nix_capsule.Ctl.Arguments.{parent, build_runtime_args}
use nix_capsule.Ctl.Config.{Config}
use nix_capsule.Ctl.Digest.{Freshness, compute, check}
use nix_capsule.Ctl.Layout.{cache_dir, log_dir, env_file, hash_file, profile_file}
use nix_capsule.Ctl.Runtime.{
  RuntimeError, ServerArgs, Runtime, is_name_in_use, is_running, is_live, inspect_state,
  run_detached, stop, exists, remove, exec_interactive,
}
use nix_capsule.Ctl.Nix.{print_dev_env, wipe_history}
use nix_capsule.Ctl.Stamp.{StampFile, Disk, project_stamp_file, guard}
use nix_capsule.Ctl.Version.{warn_on_skew}
use nix_capsule.Prelude.Chars.{as_bytes}
use nix_capsule.Prelude.Io.{ErrorKind, not_found, IoError}
use nix_capsule.Prelude.{
  ltb, leb, if◌then◌else◌, Result, ok, err, map_err, Bytes, Str, codes, str_eq, ℕ, zero, suc, ◌+◌,
  ◌*◌, Bool, true, false, not, ◌&&◌, Option, none, some, List, ◌∷◌,
}

abbrev pub runtime_of : Config → Runtime
runtime_of cfg = record { bin = cfg.runtime; name = cfg.container; bash = cfg.bash }

-- What a read of the stamp file finds.
abbrev stamp_unread : ErrorKind → IoError → StampFile
stamp_unread ErrorKind.not_found e = StampFile.absent
stamp_unread _ e = StampFile.unreadable e

abbrev stamp_file : Result IoError Str → StampFile
stamp_file (ok text) = StampFile.holds text
stamp_file (err e) = stamp_unread e.kind e

-- What became of the wait: the server is live, the deadline passed, or the fuel ran out.
pub data Wait : Type 0 where
  live expired stuck : Wait

module _ (m : Machine) where
  abbrev write_answer : Option IoError → Option (IoError × StampFile)
  write_answer none = none
  write_answer (some e) = some (e, StampFile.absent)

  abbrev pub stamp_calls : Str → Bytes → StampFile → Option IoError → List Call → List Call
  stamp_calls dir root StampFile.absent none h =
      Call.write (project_stamp_file dir) root ∷ Call.create_dir dir ∷ h
  stamp_calls dir root StampFile.absent (some e) h = Call.create_dir dir ∷ h
  stamp_calls dir root _ created h = h

  abbrev stamp_disk : Str → Bytes → List Call → Disk
  stamp_disk dir root h = record {
    create_dir = m.create_dir h dir;
    write = write_answer (m.write (Call.create_dir dir ∷ h) (project_stamp_file dir) root);
  }

  -- `stamp::guard` with the calls it makes.
  unfoldable pub stamp_guard : Str → Str → Str → Program CtlError (Unit {0})
  stamp_guard dir project root h =
      let file = stamp_file ((m.files h).read_to_string (project_stamp_file dir)) in
      (
        map_err CtlError.stamp (guard (stamp_disk dir (as_bytes root) h) dir project root file).0,
        stamp_calls dir (as_bytes root) file (m.create_dir h dir) h,
      )

  abbrev pub made_dir : Str → Program CtlError (Unit {0})
  made_dir dir h =
      attempt (λ e. CtlError.fs (FsError.create_dir dir e)) (Call.create_dir dir)
        (m.create_dir h dir) h

  abbrev pub made_private : Str → Program CtlError (Unit {0})
  made_private dir h =
      attempt (λ e. CtlError.fs (FsError.create_dir dir e)) (Call.set_private dir)
        (m.set_private h dir) h

  abbrev pub dir_0700 : Str → Bool → Program CtlError (Unit {0})
  dir_0700 dir true = return tt
  dir_0700 dir false = made_dir dir >> made_private dir

  -- `paths::ensure_dir_0700`, with the error that the caller makes of its own.
  unfoldable pub ensure_dir_0700 : Str → Program CtlError (Unit {0})
  ensure_dir_0700 dir h = dir_0700 dir (m.exists h dir) h

  abbrev pub written : Str → Bytes → Program CtlError (Unit {0})
  written path bytes h =
      attempt (λ e. CtlError.fs (FsError.write path e)) (Call.write path bytes)
        (m.write h path bytes) h

  module _ (cfg : Config) where
    abbrev pub freshness : List Call → Freshness
    freshness h = check m.hash (m.files h) cfg.cache_dir cfg.root cfg.watch_files

    abbrev pub digested : Program CtlError Str
    digested h = (map_err CtlError.digest (compute m.hash (m.files h) cfg.root cfg.watch_files), h)

    -- `ensure_cache` once the cache is found not to be fresh.
    unfoldable pub refill_cache : Program CtlError (Unit {0})
    refill_cache =
        made_dir cfg.cache_dir
        >> (wrapped CtlError.print_dev_env
              (print_dev_env m (profile_file cfg.cache_dir) cfg.devshell)
            >>= λ output.
                written (env_file cfg.cache_dir) output
                >> wipe_history m (profile_file cfg.cache_dir)
                >> (digested >>= λ digest. written (hash_file cfg.cache_dir) (as_bytes digest)))

    abbrev pub unless_fresh : Freshness → Program CtlError (Unit {0})
    unless_fresh Freshness.fresh = return tt
    unless_fresh _ = refill_cache

    unfoldable pub ensure_cache : Program CtlError (Unit {0})
    unfolding refill_cache
    ensure_cache h = unless_fresh (freshness h) h

    abbrev pub server_args : ServerArgs
    server_args = record {
      socket = cfg.socket;
      log_dir = cfg.log_dir;
      timeout = cfg.timeout;
      level = cfg.level;
    }

    abbrev rt : Runtime
    rt = runtime_of cfg

    abbrev pub launch : List Str → Program RuntimeError Str
    launch args = run_detached m rt cfg.image (env_file cfg.cache_dir) cfg.server server_args args

    abbrev pub remove_stopped : Bool → Bool → Program CtlError (Unit {0})
    remove_stopped false true = ignore (remove m rt)
    remove_stopped _ _ = return tt

    abbrev pub if_stopped : Bool → Program CtlError (Unit {0})
    if_stopped true = return tt
    if_stopped false = exists m rt >>= λ there. remove_stopped false there

    abbrev pub polled : ℕ → Program CtlError Wait → Bool → Program CtlError Wait
    polled deadline again true h = (ok Wait.live, h)
    polled deadline again false h =
        if leb deadline (m.now h) then (ok Wait.expired, h) else again (Call.pause ∷ h)

    -- The deadline's loop; `deadline` is in milliseconds.
    unfoldable pub wait_live : ℕ → ℕ → Program CtlError Wait
    wait_live zero deadline h = (ok Wait.stuck, h)
    wait_live (suc fuel) deadline h =
        (is_live m rt cfg.socket >>= polled deadline (wait_live fuel deadline)) h

    abbrev pub waited : Wait → Program CtlError (Unit {0})
    waited Wait.live = return tt
    waited Wait.stuck = throw CtlError.stuck
    waited Wait.expired = inspect_state m rt >>= λ state.
        throw (CtlError.runtime (RuntimeError.not_live cfg.container cfg.timeout state))

    -- Ten pauses a second are as many as the deadline lets in.
    abbrev pub await_until : ℕ → Program CtlError (Unit {0})
    await_until deadline = wait_live (suc (cfg.timeout * 10)) deadline >>= waited

    -- The sum of an `Instant` and a `Duration` panics when there is no such instant.
    unfoldable pub await_live : Program CtlError (Unit {0})
    unfolding wait_live
    await_live h =
        if ltb m.last_instant (m.now h + cfg.timeout * 1000)
        then (err CtlError.panicked, h)
        else await_until (m.now h + cfg.timeout * 1000) h

    -- A race with another start: the name is in use.
    abbrev pub after_race : List Str → Bool → Program CtlError (Unit {0})
    after_race args true = return tt
    after_race args false =
        ignore (remove m rt) >> (wrapped CtlError.runtime (launch args) >>= λ id. await_live)

    abbrev pub raced : List Str → RuntimeError → Bool → Program CtlError (Unit {0})
    raced args e true = is_running m rt >>= after_race args
    raced args e false = throw (CtlError.runtime e)

    abbrev pub name_taken : RuntimeError → Bool
    name_taken (RuntimeError.failed bin verb output) =
        str_eq verb (codes "run") && is_name_in_use output
    name_taken _ = false

    abbrev pub launched : List Str → Result RuntimeError Str → Program CtlError (Unit {0})
    launched args (ok id) = await_live
    launched args (err e) = raced args e (name_taken e)

    unfoldable pub socket_dir_made : Option Str → Program CtlError (Unit {0})
    unfolding ensure_dir_0700
    socket_dir_made none = return tt
    socket_dir_made (some dir) = ensure_dir_0700 dir

    abbrev pub arguments : Program CtlError (List Str)
    arguments h = (build_runtime_args m cfg h, h)

    -- `start_inner` once the environment dump is there.
    unfoldable pub start_dumped : Program CtlError (Unit {0})
    unfolding await_live socket_dir_made
    start_dumped =
        socket_dir_made (parent cfg.socket)
        >> made_dir cfg.log_dir
        >> (arguments >>= λ args. (is_running m rt >>= if_stopped) >> λ h.
            launched args (launch args h).0 (launch args h).1)

    unfoldable pub start_inner : Program CtlError (Unit {0})
    unfolding start_dumped
    start_inner h =
        if not ((m.files h).is_file (env_file cfg.cache_dir))
        then (err (CtlError.no_cached_env cfg.cache_dir), h)
        else start_dumped h

    abbrev pub init_from : Bool → Freshness → Program CtlError (Unit {0})
    init_from true Freshness.fresh = return tt
    init_from true _ = ensure_cache >> ignore (stop m rt) >> start_inner
    init_from false _ = ensure_cache >> start_inner

    unfoldable pub init : Program CtlError (Unit {0})
    unfolding ensure_cache start_inner
    init =
        stamp_guard cfg.cache_dir cfg.project cfg.root
        >> (is_live m rt cfg.socket >>= λ live h. init_from live (freshness h) h)

    abbrev pub start_from : Bool → Program CtlError (Unit {0})
    start_from true = warn_on_skew m cfg.socket
    start_from false = start_inner >> warn_on_skew m cfg.socket

    unfoldable pub start : Program CtlError (Unit {0})
    unfolding start_inner
    start =
        stamp_guard cfg.cache_dir cfg.project cfg.root >> (is_live m rt cfg.socket >>= start_from)

    abbrev pub still_running : RuntimeError → Bool → Program CtlError (Unit {0})
    still_running e false = return tt
    still_running e true = throw (CtlError.runtime e)

    abbrev pub after_stop : Result RuntimeError Str → Program CtlError (Unit {0})
    after_stop (ok id) = return tt
    after_stop (err e) = is_running m rt >>= still_running e

    abbrev pub stop_from : Bool → Program CtlError (Unit {0})
    stop_from false h = (ok tt, h)
    stop_from true h = after_stop (stop m rt h).0 (stop m rt h).1

    unfoldable pub stop_flow : Program CtlError (Unit {0})
    stop_flow = is_running m rt >>= stop_from

    unfoldable pub restart : Program CtlError (Unit {0})
    unfolding init
    restart = ignore (stop m rt) >> init

    abbrev enter_from : Bool → Program CtlError (Unit {0})
    enter_from false = throw (CtlError.not_running cfg.container)
    enter_from true = wrapped CtlError.runtime (exec_interactive m rt cfg.cache_dir)

    unfoldable pub enter : Program CtlError (Unit {0})
    enter = is_running m rt >>= enter_from
