-- ===== src/Server/Connection/Handler.antt =====
-- `handle_conn` of src/server.rs around the bridge: the first frame, the checks before the spawn, and
-- the wait for the child.
use nix_capsule.Prelude.{
  if◌then◌else◌, Result, ok, err, ◌>>=◌, Str, codes, split_once, ℕ, Bool, true, false, Option, none,
  some, List, [], ◌∷◌, ◌++◌,
}
use nix_capsule.Prelude.Decimal.{to_decimal}
use nix_capsule.Prelude.Io.{ErrorKind, IoError}
use nix_capsule.Protocol.Errors.{DecodeError, decode_error_text}
use nix_capsule.Protocol.Message.{Request, Exit, Message, Json, frame_type, from_frame}
use nix_capsule.Server.LogLevel.{LogLevel}
use nix_capsule.Server.Rejection.{Rejection}
use nix_capsule.Server.Connection.State.{
  Host, Conn, opened, First, ExitStatus, Schedule, logged, exit_of, send, send_error, term_group,
}
use nix_capsule.Server.Connection.Loop.{Bridge, bridge}

abbrev exit_text : Option ℕ → Option ℕ → Str
exit_text (some code) signal = codes "child exited with code " ++ to_decimal code
exit_text none (some n) = codes "child exited with signal " ++ to_decimal n
exit_text none none = codes "child exited with an unknowable status"

abbrev pub exit_log : Exit → Conn → Conn
exit_log e c = logged LogLevel.debug (exit_text e.code e.signal) c

-- `child.wait()`, which is what reaps the child.
abbrev pub waited : Conn → Conn
waited c = record c { reaped = true }

module _ (j : Json) (host : Host) (pgid : ℕ) where
  unfoldable pub on_status : Str → Conn → Result IoError ExitStatus → Conn
  on_status command c (err e) = send_error j host (Rejection.wait command e) c
  on_status command c (ok s) = (send j host (exit_log (exit_of s) c) (Message.exit (exit_of s))).0

  -- Behind a bridge that returned `true`: the shutdown may come before the wait answers.
  unfoldable pub finishing : Conn → Bool → Conn
  finishing c false = c
  finishing c true = term_group j host pgid (send j host c Message.server_stopping).0

  unfoldable pub finish : Str → Conn → Bool → Result IoError ExitStatus → Conn
  unfolding on_status finishing
  finish command c stop_first status = on_status command (waited (finishing c stop_first)) status

  -- Behind one that returned `false`.
  unfoldable pub abandoning : Conn → Conn
  abandoning c = term_group j host pgid (
      logged LogLevel.warning
        (codes
          "client vanished before the terminal frame: TERMed and awaited the child's process group")
        c)

  unfoldable pub abandon : Conn → Conn
  unfolding abandoning
  abandon c = waited (abandoning c)

-- Where a connection stands: its handler returned, its bridge still goes on, or it waits for the child.
pub data Handling : Type 0 where
  done : Conn → Handling
  bridging : Conn → Handling
  awaiting : Conn → Handling

-- `entry.split_once('=')`
abbrev pub entry_or_bad : Str → Option (Str × Str) → Result Str (Str × Str)
entry_or_bad entry none = err entry
entry_or_bad entry (some pair) = ok pair

-- The first entry without `=`, or the entries as pairs.
unfoldable pub parse_entries : List Str → Result Str (List (Str × Str))
parse_entries [] = ok []
parse_entries (entry ∷ entries) = entry_or_bad entry (split_once b'=' entry) >>= λ pair.
    parse_entries entries >>= λ pairs. ok (pair ∷ pairs)

module _ (j : Json) (host : Host) where
  abbrev pub settle : ℕ → Str → Bool → Option (Result IoError ExitStatus) → Bridge → Handling
  settle pgid command stop_first status (Bridge.going c) = bridging c
  settle pgid command stop_first (some status) (Bridge.returned c true) =
      done (finish j host pgid command c stop_first status)
  settle pgid command stop_first none (Bridge.returned c true) =
      awaiting (finishing j host pgid c stop_first)
  settle pgid command stop_first (some status) (Bridge.returned c false) =
      done (abandon j host pgid c)
  settle pgid command stop_first none (Bridge.returned c false) =
      awaiting (abandoning j host pgid c)

  abbrev pub on_spawn_failure : Str → Conn → IoError → ErrorKind → Conn
  on_spawn_failure command c e ErrorKind.not_found =
      (send j host c (Message.exit (record { code = some 127; signal = none }))).0
  on_spawn_failure command c e ErrorKind.permission_denied =
      (send j host c (Message.exit (record { code = some 126; signal = none }))).0
  on_spawn_failure command c e _ = send_error j host (Rejection.spawn command e) c

  abbrev pub run_child : Schedule → Request → Conn → Result IoError ℕ → Handling
  run_child sched r c (err e) = done (on_spawn_failure r.command c e e.kind)
  run_child sched r c (ok pgid) =
      settle pgid r.command sched.stop_first sched.wait
        (bridge j host pgid sched.bridge (record c { spawned = some pgid }))

  abbrev pub with_env : Schedule → Request → Conn → Result Str (List (Str × Str)) → Handling
  with_env sched r c (err entry) = done (
      send_error j host (Rejection.bad_env_entry entry)
        (logged LogLevel.error (codes "invalid env entry `" ++ (entry ++ codes "`")) c))
  with_env sched r c (ok env) =
      run_child sched r c
        (host.spawn (record { command = r.command; args = r.args; cwd = r.cwd; env = env }))

  unfoldable pub on_request : Schedule → Conn → Request → Handling
  on_request sched c r =
      let c' =
        logged LogLevel.debug
          (codes "exec request for `" ++ (r.command ++ (codes "` in `" ++ (r.cwd ++ codes "`"))))
          c in
      if host.is_dir r.cwd
      then with_env sched r c' (parse_entries r.env)
      else done (send_error j host (Rejection.not_a_directory r.cwd) c')

  abbrev pub undecodable_first : Conn → DecodeError → Handling
  undecodable_first c e = done (
      send_error j host (Rejection.undecodable e)
        (logged LogLevel.error (codes "first frame undecodable: " ++ decode_error_text e) c))

  -- `version` is `CURRENT_VERSION`, which the build sets.
  unfoldable pub on_first_message : Str → Schedule → Conn → Message → Handling
  unfolding on_request
  on_first_message version sched c Message.request_version =
      done
        (send j host (logged LogLevel.debug (codes "version probe served") c)
          (Message.server_version (record { version = version }))).0
  on_first_message version sched c (Message.request r) = on_request sched c r
  on_first_message version sched c m =
      done (send_error j host (Rejection.expected_request (frame_type m)) c)

  abbrev pub on_first_read : Str → Schedule → Conn → Result DecodeError Message → Handling
  on_first_read version sched c (ok m) = on_first_message version sched c m
  on_first_read version sched c (err e) = undecodable_first c e

  unfoldable pub on_first : Str → Schedule → Conn → First → Handling
  unfolding on_first_message
  on_first version sched c (First.frame (ok f)) = on_first_read version sched c (from_frame j f)
  on_first version sched c (First.frame (err e)) = undecodable_first c e
  on_first version sched c First.closed = done c
  on_first version sched c First.stopping = done (send j host c Message.server_stopping).0

  unfoldable pub handle_conn : Str → Schedule → Handling
  unfolding on_first
  handle_conn version sched = on_first version sched opened sched.first
