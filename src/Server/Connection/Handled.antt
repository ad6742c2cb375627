-- ===== src/Server/Connection/Handled.antt =====
-- What the whole of `handle_conn` of src/server.rs sends, on every path.
use nix_capsule.Prelude.{
  Bool-cases, Result, ok, err, Str, ℕ, ◌≡◌, refl, inl, inr, Bool, true, false, Option, none, some,
  List,
}
use nix_capsule.Prelude.Io.{ErrorKind, IoError}
use nix_capsule.Protocol.Errors.{DecodeError}
use nix_capsule.Protocol.Message.{Request, Message, Json, from_frame}
use nix_capsule.Server.Connection.State.{
  Host, Conn, opened, First, ExitStatus, Schedule, exit_of, signal_group,
}
use nix_capsule.Server.Connection.Loop.{Bridge}
use nix_capsule.Server.Connection.Handler.{
  exit_log, waited, on_status, finishing, finish, abandoning, abandon, Handling, parse_entries,
  settle, on_spawn_failure, run_child, with_env, on_request, on_first_message, on_first_read,
  on_first, handle_conn,
}
use nix_capsule.Server.Connection.Ending.{
  well_ended, well_ended-of-unended, Unended, WellEnded, send-Unended, send-WellEnded,
  send_error-WellEnded, BridgeEnds, bridge-Ends,
}

abbrev pub conn_of : Handling → Conn
conn_of (Handling.done c) = c
conn_of (Handling.bridging c) = c
conn_of (Handling.awaiting c) = c

module _ (j : Json) (host : Host) where
  on_status-WellEnded :
      (pgid : ℕ) (command : Str) (c : Conn) (r : Result IoError ExitStatus)
      → Unended c
      → WellEnded (on_status j host pgid command c r)
  unfolding on_status
  on_status-WellEnded pgid command c (err e) h = send_error-WellEnded j host c _ h
  on_status-WellEnded pgid command c (ok s) h = send-WellEnded j host (exit_log (exit_of s) c) _ h

  finishing-Unended :
      (pgid : ℕ) (c : Conn) (stop : Bool) → Unended c → Unended (finishing j host pgid c stop)
  unfolding finishing signal_group
  finishing-Unended pgid c false h = h
  finishing-Unended pgid c true h = send-Unended j host c Message.server_stopping refl h

  finish-WellEnded :
      (pgid : ℕ) (command : Str) (c : Conn) (stop : Bool) (r : Result IoError ExitStatus)
      → Unended c
      → WellEnded (finish j host pgid command c stop r)
  unfolding finish
  finish-WellEnded pgid command c stop r h =
      on_status-WellEnded pgid command (waited (finishing j host pgid c stop)) r
        (finishing-Unended pgid c stop h)

  abandon-sent : (pgid : ℕ) (c : Conn) → (abandon j host pgid c).sent ≡ c.sent
  unfolding abandon signal_group
  abandon-sent pgid c = refl

  abandoning-sent : (pgid : ℕ) (c : Conn) → (abandoning j host pgid c).sent ≡ c.sent
  unfolding abandoning signal_group
  abandoning-sent pgid c = refl

  settle-WellEnded :
      (pgid : ℕ) (command : Str) (stop : Bool) (r : Option (Result IoError ExitStatus)) (q : Bridge)
      → BridgeEnds j host q
      → WellEnded (conn_of (settle j host pgid command stop r q))
  settle-WellEnded pgid command stop r (Bridge.going c) h = well_ended-of-unended c.sent h
  settle-WellEnded pgid command stop (some r) (Bridge.returned c true) h =
      finish-WellEnded pgid command c stop r h
  settle-WellEnded pgid command stop none (Bridge.returned c true) h =
      well_ended-of-unended (finishing j host pgid c stop).sent (finishing-Unended pgid c stop h)
  settle-WellEnded pgid command stop (some r) (Bridge.returned c false) h = rw abandon-sent h
  settle-WellEnded pgid command stop none (Bridge.returned c false) h = rw abandoning-sent h

  on_spawn_failure-WellEnded :
      (command : Str) (c : Conn) (e : IoError) (k : ErrorKind)
      → Unended c
      → WellEnded (on_spawn_failure j host command c e k)
  on_spawn_failure-WellEnded command c e ErrorKind.not_found h = send-WellEnded j host c _ h
  on_spawn_failure-WellEnded command c e ErrorKind.permission_denied h = send-WellEnded j host c _ h
  on_spawn_failure-WellEnded command c e _ h = send_error-WellEnded j host c _ h

  run_child-WellEnded :
      (sched : Schedule) (r : Request) (c : Conn) (spawned : Result IoError ℕ)
      → Unended c
      → WellEnded (conn_of (run_child j host sched r c spawned))
  run_child-WellEnded sched r c (err e) h = on_spawn_failure-WellEnded r.command c e e.kind h
  run_child-WellEnded sched r c (ok pgid) h =
      settle-WellEnded pgid r.command sched.stop_first sched.wait _
        (bridge-Ends j host pgid sched.bridge (record c { spawned = some pgid }) h)

  with_env-WellEnded :
      (sched : Schedule) (r : Request) (c : Conn) (env : Result Str (List (Str × Str)))
      → Unended c
      → WellEnded (conn_of (with_env j host sched r c env))
  with_env-WellEnded sched r c (err entry) h = send_error-WellEnded j host _ _ h
  with_env-WellEnded sched r c (ok env) h =
      run_child-WellEnded sched r c
        (host.spawn (record { command = r.command; args = r.args; cwd = r.cwd; env = env })) h

  on_request-WellEnded :
      (sched : Schedule) (c : Conn) (r : Request)
      → Unended c
      → WellEnded (conn_of (on_request j host sched c r))
  unfolding on_request
  on_request-WellEnded sched c r h = elim (Bool-cases (host.is_dir r.cwd)) [
    | inl dir ↦ rw dir (with_env-WellEnded sched r _ (parse_entries r.env) h)
    | inr missing ↦ rw missing (send_error-WellEnded j host _ _ h)
  ]

  on_first_message-WellEnded :
      (version : Str) (sched : Schedule) (c : Conn) (m : Message)
      → Unended c
      → WellEnded (conn_of (on_first_message j host version sched c m))
  unfolding on_first_message
  on_first_message-WellEnded version sched c Message.request_version h = send-WellEnded j host _ _ h
  on_first_message-WellEnded version sched c (Message.request r) h =
      on_request-WellEnded sched c r h
  on_first_message-WellEnded version sched c _ h = send_error-WellEnded j host _ _ h

  on_first_read-WellEnded :
      (version : Str) (sched : Schedule) (c : Conn) (r : Result DecodeError Message)
      → Unended c
      → WellEnded (conn_of (on_first_read j host version sched c r))
  on_first_read-WellEnded version sched c (ok m) h = on_first_message-WellEnded version sched c m h
  on_first_read-WellEnded version sched c (err e) h = send_error-WellEnded j host _ _ h

  on_first-WellEnded :
      (version : Str) (sched : Schedule) (c : Conn) (first : First)
      → Unended c
      → WellEnded (conn_of (on_first j host version sched c first))
  unfolding on_first
  on_first-WellEnded version sched c (First.frame (ok f)) h =
      on_first_read-WellEnded version sched c (from_frame j f) h
  on_first-WellEnded version sched c (First.frame (err e)) h = send_error-WellEnded j host _ _ h
  on_first-WellEnded version sched c First.closed h = well_ended-of-unended c.sent h
  on_first-WellEnded version sched c First.stopping h = send-WellEnded j host c _ h

  -- On every schedule and whatever the host answers, a connection is sent at most one terminal frame
  -- (`Exit`, `Error` or `ServerVersion`), and nothing behind it.
  pub handle_conn-WellEnded :
      (version : Str) (sched : Schedule)
      → well_ended (conn_of (handle_conn j host version sched)).sent ≡ true
  unfolding handle_conn
  handle_conn-WellEnded version sched = on_first-WellEnded version sched opened sched.first refl
