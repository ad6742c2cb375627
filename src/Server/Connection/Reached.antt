-- ===== src/Server/Connection/Reached.antt =====
-- Where `handle_conn` of src/server.rs comes to: it returned without a child, or it bridged one.
use nix_capsule.Prelude.{
  Bool-cases, Result, ok, err, Str, ℕ, ◌≡◌, refl, inl, inr, true, false, some, List, [],
}
use nix_capsule.Prelude.Io.{ErrorKind, IoError}
use nix_capsule.Protocol.Errors.{DecodeError}
use nix_capsule.Protocol.Message.{Request, Message, Json, from_frame}
use nix_capsule.Server.LogLevel.{LogLevel}
use nix_capsule.Server.Rejection.{Rejection}
use nix_capsule.Server.Connection.State.{
  Host, Conn, opened, First, Schedule, logged, send, send_error,
}
use nix_capsule.Server.Connection.Loop.{bridge}
use nix_capsule.Server.Connection.Handler.{
  Handling, parse_entries, settle, on_spawn_failure, run_child, with_env, on_request,
  on_first_message, on_first_read, on_first, handle_conn,
}
use nix_capsule.Server.Connection.Reaped.{Childless, send-Childless, send_error-Childless}

-- The connection when its child was started and nothing else has happened to the child.
pub record Started (pid : ℕ) (c : Conn) : Type 0 where
  pub spawned : c.spawned ≡ some pid
  pub reaped : c.reaped ≡ false
  pub kills : c.kills ≡ []
  pub sent : c.sent ≡ []
  pub stdin : c.stdin ≡ []
  pub stdin_open : c.stdin_open ≡ true
  pub client_writes_open : c.client_writes_open ≡ true

-- Before the child: nothing was sent.
pub record Waiting (c : Conn) : Type 0 where
  pub childless : Childless c
  pub sent : c.sent ≡ []
  pub stdin : c.stdin ≡ []
  pub stdin_open : c.stdin_open ≡ true
  pub client_writes_open : c.client_writes_open ≡ true

module _ (j : Json) (host : Host) where
  -- It returned without a child, or it is what settles the bridge of a child that was started.
  pub data Reached (sched : Schedule) (q : Handling) : Type 0 where
    unspawned : (c : Conn) → q ≡ Handling.done c → Childless c → Reached sched q
    bridged :
        (pid : ℕ) (command : Str) (c : Conn)
        → q
          ≡ settle j host pid command sched.stop_first sched.wait (bridge j host pid sched.bridge c)
        → Started pid c
        → Reached sched q

  on_spawn_failure-Childless :
      (command : Str) (c : Conn) (e : IoError) (k : ErrorKind)
      → Childless c
      → Childless (on_spawn_failure j host command c e k)
  on_spawn_failure-Childless command c e ErrorKind.not_found h = send-Childless j host c _ h
  on_spawn_failure-Childless command c e ErrorKind.permission_denied h = send-Childless j host c _ h
  on_spawn_failure-Childless command c e _ h = send_error-Childless j host c _ h

  noted-Waiting :
      (level : LogLevel) (text : Str) (c : Conn) → Waiting c → Waiting (logged level text c)
  noted-Waiting level text c w = record {
    childless = record {
      spawned = w.childless.spawned;
      reaped = w.childless.reaped;
      kills = w.childless.kills;
    };
    sent = w.sent;
    stdin = w.stdin;
    stdin_open = w.stdin_open;
    client_writes_open = w.client_writes_open;
  }

  module _ (sched : Schedule) where
    sent-Reached :
        (c : Conn) (m : Message) → Waiting c → Reached sched (Handling.done (send j host c m).0)
    sent-Reached c m w =
        Reached.unspawned (send j host c m).0 refl (send-Childless j host c m w.childless)

    error-Reached :
        (c : Conn) (r : Rejection)
        → Waiting c
        → Reached sched (Handling.done (send_error j host r c))
    error-Reached c r w =
        Reached.unspawned (send_error j host r c) refl (send_error-Childless j host c r w.childless)

    run_child-Reached :
        (r : Request) (c : Conn) (spawned : Result IoError ℕ)
        → Waiting c
        → Reached sched (run_child j host sched r c spawned)
    run_child-Reached r c (err e) w =
        Reached.unspawned _ refl (on_spawn_failure-Childless r.command c e e.kind w.childless)
    run_child-Reached r c (ok pid) w =
        Reached.bridged pid r.command (record c { spawned = some pid }) refl
          (record {
            spawned = refl;
            reaped = w.childless.reaped;
            kills = w.childless.kills;
            sent = w.sent;
            stdin = w.stdin;
            stdin_open = w.stdin_open;
            client_writes_open = w.client_writes_open;
          })

    with_env-Reached :
        (r : Request) (c : Conn) (env : Result Str (List (Str × Str)))
        → Waiting c
        → Reached sched (with_env j host sched r c env)
    with_env-Reached r c (err entry) w = error-Reached _ _ (noted-Waiting LogLevel.error _ c w)
    with_env-Reached r c (ok env) w =
        run_child-Reached r c
          (host.spawn (record { command = r.command; args = r.args; cwd = r.cwd; env = env })) w

    on_request-Reached :
        (c : Conn) (r : Request) → Waiting c → Reached sched (on_request j host sched c r)
    unfolding on_request
    on_request-Reached c r w =
        let noted = noted-Waiting LogLevel.debug _ c w in
        elim (Bool-cases (host.is_dir r.cwd)) [
          | inl dir ↦ rw dir (with_env-Reached r _ (parse_entries r.env) noted)
          | inr missing ↦ rw missing (error-Reached _ _ noted)
        ]

    on_first_message-Reached :
        (version : Str) (c : Conn) (m : Message)
        → Waiting c
        → Reached sched (on_first_message j host version sched c m)
    unfolding on_first_message
    on_first_message-Reached version c Message.request_version w =
        sent-Reached _ _ (noted-Waiting LogLevel.debug _ c w)
    on_first_message-Reached version c (Message.request r) w = on_request-Reached c r w
    on_first_message-Reached version c _ w = error-Reached _ _ w

    on_first_read-Reached :
        (version : Str) (c : Conn) (r : Result DecodeError Message)
        → Waiting c
        → Reached sched (on_first_read j host version sched c r)
    on_first_read-Reached version c (ok m) w = on_first_message-Reached version c m w
    on_first_read-Reached version c (err e) w =
        error-Reached _ _ (noted-Waiting LogLevel.error _ c w)

    on_first-Reached :
        (version : Str) (c : Conn) (first : First)
        → Waiting c
        → Reached sched (on_first j host version sched c first)
    unfolding on_first
    on_first-Reached version c (First.frame (ok f)) w =
        on_first_read-Reached version c (from_frame j f) w
    on_first-Reached version c (First.frame (err e)) w =
        error-Reached _ _ (noted-Waiting LogLevel.error _ c w)
    on_first-Reached version c First.closed w = Reached.unspawned c refl w.childless
    on_first-Reached version c First.stopping w = sent-Reached c _ w

  pub handle_conn-Reached :
      (version : Str) (sched : Schedule) → Reached sched (handle_conn j host version sched)
  unfolding handle_conn
  handle_conn-Reached version sched = on_first-Reached sched version opened sched.first (record {
    childless = record { spawned = refl; reaped = refl; kills = refl };
    sent = refl;
    stdin = refl;
    stdin_open = refl;
    client_writes_open = refl;
  })
