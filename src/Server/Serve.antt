-- ===== src/Server/Serve.antt =====
-- `run` and `accept_loop` of src/server.rs, with `Log::start`, as the actions they take in order.
pub mod Awaited
use nix_capsule.Ctl.Paths.{server_log_path}
use nix_capsule.Ctl.Layout.{join, log_dir}
use nix_capsule.Server.LogLevel.{LogLevel}
use nix_capsule.Server.Startup.{StartupError, probe_socket}
use nix_capsule.Prelude.Io.{IoError}
use nix_capsule.Prelude.Decimal.{to_decimal}
use nix_capsule.Prelude.{
  ltb, leb, if◌then◌else◌, Result, ok, err, Str, codes, ℕ, ◌*◌, Bool, Option, none, some, List, [],
  ◌∷◌, ◌++◌,
}

-- What the file system and the operating system answer to the calls of a start: `socket_there` and
-- `connects` to those of the probe. `ends` is when, in milliseconds from the begin of the drain, a connection's task has ended.
pub record Site : Type 0 where
  pub create_dir : Option IoError
  pub open_log : Option IoError
  pub socket_there : Bool
  pub connects : Bool
  pub removal : Option IoError
  pub bind : Option IoError
  pub sigterm : Option IoError
  pub sigint : Option IoError
  pub pid : ℕ
  pub epoch_millis : ℕ
  pub ends : ℕ → ℕ

-- What `accept` gives: a stream, which is numbered, or an error with its text.
pub data Arrival : Type 0 where
  accepted : ℕ → Arrival
  failed : Str → Arrival

pub data Act : Type 0 where
  logged : LogLevel → Str → Act
  spawned awaited : ℕ → Act
  notified socket_removed : Act

abbrev pub Ended : Type 0
Ended = Result StartupError (Unit {0}) × List Act

-- The acts come before those of the rest.
abbrev pub led : List Act → Ended → Ended
led acts (r, rest) = (r, acts ++ rest)

-- It is aborted behind the arrivals, or dropped with the run that failed, or ends at an error.
unfoldable pub accept_loop : List Arrival → List Act
accept_loop [] = []
accept_loop (Arrival.accepted id ∷ arrivals) = Act.spawned id ∷ accept_loop arrivals
accept_loop (Arrival.failed e ∷ arrivals) =
    Act.logged LogLevel.error (codes "accept failed: " ++ e) ∷ []

-- The handles that were pushed.
unfoldable pub handles : List Arrival → List ℕ
handles [] = []
handles (Arrival.accepted id ∷ arrivals) = id ∷ handles arrivals
handles (Arrival.failed e ∷ arrivals) = []

module _ (site : Site) where
  -- The handles are awaited in turn until the time is over.
  unfoldable pub drained : ℕ → List ℕ → List Act
  drained within [] = []
  drained within (id ∷ ids) =
      let rest = drained within ids in
      if leb (site.ends id) within then Act.awaited id ∷ rest else []

  abbrev pub drain_acts : ℕ → List ℕ → List Act
  drain_acts drain ids = if ltb 0 drain then drained (drain * 1000) ids else []

  -- Behind the signal, whose name it is given.
  unfoldable pub shut_down : ℕ → Str → List ℕ → List Act
  unfolding drained
  shut_down drain received ids =
      Act.logged LogLevel.debug (received ++ codes " received notifying live connections")
      ∷ Act.notified
      ∷ Act.logged LogLevel.info (codes "drain begun within " ++ (to_decimal drain ++ codes "s"))
      ∷ (drain_acts drain ids
          ++ Act.socket_removed
            ∷ Act.logged LogLevel.info (codes "socket removed and server exited")
            ∷ [])

  abbrev pub served : ℕ → List Arrival → Str → Option IoError → Option IoError → Ended
  served drain arrivals received (some e) sigint =
      (err (StartupError.signal_handler (codes "SIGTERM") e), accept_loop arrivals)
  served drain arrivals received none (some e) =
      (err (StartupError.signal_handler (codes "SIGINT") e), accept_loop arrivals)
  served drain arrivals received none none =
      (ok tt, accept_loop arrivals ++ shut_down drain received (handles arrivals))

  abbrev pub bound : Str → ℕ → List Arrival → Str → Option IoError → Ended
  bound socket drain arrivals received (some e) = (err (StartupError.bind socket e), [])
  bound socket drain arrivals received none =
      led (Act.logged LogLevel.info (codes "socket bound at `" ++ (socket ++ codes "`")) ∷ [])
        (served drain arrivals received site.sigterm site.sigint)

  abbrev pub checked : Str → ℕ → List Arrival → Str → Result StartupError (Unit {0}) → Ended
  checked socket drain arrivals received (err e) = (err e, [])
  checked socket drain arrivals received (ok free) = bound socket drain arrivals received site.bind

  abbrev pub opened : Str → Option IoError → Option IoError → Ended → Ended
  opened dir (some e) unopened rest = (err (StartupError.create_dir dir e), [])
  opened dir none (some e) rest =
      (err (StartupError.unopened (join dir (server_log_path site.epoch_millis)) e), [])
  opened dir none none rest = rest

  -- `arrivals` is what `accept` gives until the loop is aborted behind the signal `received`,
  -- or until the run fails beside it.
  unfoldable pub run : Str → Str → ℕ → List Arrival → Str → Ended
  unfolding accept_loop shut_down
  run socket log_dir drain arrivals received = opened log_dir site.create_dir site.open_log (
      led
        (Act.logged LogLevel.info
            (codes "server started (pid " ++ (to_decimal site.pid ++ codes ")"))
          ∷ [])
        (checked socket drain arrivals received
          (probe_socket socket site.socket_there site.connects site.removal).0))
