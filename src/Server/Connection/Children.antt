-- ===== src/Server/Connection/Children.antt =====
-- The child of a connection of src/server.rs, through the whole of `handle_conn`.
use nix_capsule.Server.Connection.Reached.{Reached, handle_conn-Reached}
use nix_capsule.Prelude.{
  Result, ok, err, Str, ℕ, refl, ◌⊎◌, inl, inr, Bool, true, false, Option, none, some,
}
use nix_capsule.Prelude.Io.{IoError}
use nix_capsule.Protocol.Message.{Message, Json}
use nix_capsule.Server.Connection.State.{Host, Conn, ExitStatus, Schedule, sigterm, exit_of, send}
use nix_capsule.Server.Connection.Loop.{Bridge}
use nix_capsule.Server.Connection.Handler.{
  exit_log, waited, on_status, finishing, finish, abandoning, abandon, Handling, settle,
  handle_conn,
}
use nix_capsule.Server.Connection.Reaped.{
  Childless, Owns, send-Owns, send_error-Owns, signal_group-Owns, BridgeOwns, bridge-Owns,
}

-- A handler that returned started no child and signalled nobody, or it started one child, waited for
-- it, and signalled that child's group only. While its bridge goes on, or it waits for the child, the
-- child is not reaped.
abbrev pub Accounted : Handling → Type 0
Accounted (Handling.done c) = Childless c ⊎ ((pid : ℕ) × Owns pid true c)
Accounted (Handling.bridging c) = (pid : ℕ) × Owns pid false c
Accounted (Handling.awaiting c) = (pid : ℕ) × Owns pid false c

module _ (j : Json) (host : Host) where
  waited-Owns : (pid : ℕ) (c : Conn) → Owns pid false c → Owns pid true (waited c)
  waited-Owns pid c h = record { spawned = h.spawned; reaped = refl; kills = h.kills }

  on_status-Owns :
      (pid : ℕ) (command : Str) (c : Conn) (r : Result IoError ExitStatus)
      → Owns pid true c
      → Owns pid true (on_status j host pid command c r)
  unfolding on_status
  on_status-Owns pid command c (err e) h = send_error-Owns j host pid true c _ h
  on_status-Owns pid command c (ok s) h =
      send-Owns j host pid true (exit_log (exit_of s) c) _
        (record { spawned = h.spawned; reaped = h.reaped; kills = h.kills })

  finishing-Owns :
      (pid : ℕ) (c : Conn) (stop : Bool)
      → Owns pid false c
      → Owns pid false (finishing j host pid c stop)
  unfolding finishing
  finishing-Owns pid c false h = h
  finishing-Owns pid c true h =
      signal_group-Owns j host pid false sigterm (send j host c Message.server_stopping).0
        (send-Owns j host pid false c _ h)

  finish-Owns :
      (pid : ℕ) (command : Str) (c : Conn) (stop : Bool) (r : Result IoError ExitStatus)
      → Owns pid false c
      → Owns pid true (finish j host pid command c stop r)
  unfolding finish
  finish-Owns pid command c stop r h =
      on_status-Owns pid command (waited (finishing j host pid c stop)) r
        (waited-Owns pid (finishing j host pid c stop) (finishing-Owns pid c stop h))

  abandoning-Owns :
      (pid : ℕ) (c : Conn) → Owns pid false c → Owns pid false (abandoning j host pid c)
  unfolding abandoning
  abandoning-Owns pid c h =
      signal_group-Owns j host pid false sigterm _
        (record { spawned = h.spawned; reaped = h.reaped; kills = h.kills })

  abandon-Owns : (pid : ℕ) (c : Conn) → Owns pid false c → Owns pid true (abandon j host pid c)
  unfolding abandon
  abandon-Owns pid c h = waited-Owns pid (abandoning j host pid c) (abandoning-Owns pid c h)

  settle-Accounted :
      (pid : ℕ) (command : Str) (stop : Bool) (r : Option (Result IoError ExitStatus)) (q : Bridge)
      → BridgeOwns j host pid q
      → Accounted (settle j host pid command stop r q)
  settle-Accounted pid command stop r (Bridge.going c) h = (pid, h)
  settle-Accounted pid command stop (some r) (Bridge.returned c true) h =
      inr (pid, finish-Owns pid command c stop r h)
  settle-Accounted pid command stop none (Bridge.returned c true) h =
      (pid, finishing-Owns pid c stop h)
  settle-Accounted pid command stop (some r) (Bridge.returned c false) h =
      inr (pid, abandon-Owns pid c h)
  settle-Accounted pid command stop none (Bridge.returned c false) h =
      (pid, abandoning-Owns pid c h)

  Reached-Accounted : (sched : Schedule) (q : Handling) → Reached j host sched q → Accounted q
  Reached-Accounted sched q (Reached.unspawned c e h) = rw e (inl h)
  Reached-Accounted sched q (Reached.bridged pid command c e s) = rw e (
      settle-Accounted pid command sched.stop_first sched.wait _ (
        bridge-Owns j host pid sched.bridge c
          (record { spawned = s.spawned; reaped = s.reaped; kills = rw s.kills tt })))

-- A handler that returned, whatever arrived and in whatever order, either started no child and
-- signalled nobody, or started one child, waited for it and signalled only the group of that child;
-- while its bridge goes on or the wait for the child has no answer, its child is not reaped and again only
-- its group was signalled.
pub handle_conn-Accounted :
    (j : Json) (host : Host) (version : Str) (sched : Schedule)
    → Accounted (handle_conn j host version sched)
handle_conn-Accounted j host version sched =
    Reached-Accounted j host sched (handle_conn j host version sched)
      (handle_conn-Reached j host version sched)
