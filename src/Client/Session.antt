-- ===== src/Client/Session.antt =====
-- `session` and `run` of src/client/mod.rs. The environment is a record of what each call of it
-- answers; `tokio::select!` is a list of events, one for each branch that completes.
pub mod Relay
pub mod Stdin
pub mod Typing
pub mod Signals
use nix_capsule.Prelude.{
  if◌then◌else◌, Result, ok, err, ◌>>=◌, Bytes, Str, codes, ℕ, Bool, true, false, Option, none,
  some, List, [], ◌∷◌, ◌++◌,
}
use nix_capsule.Prelude.Io.{IoError}
use nix_capsule.Protocol.Errors.{DecodeError, EncodeError}
use nix_capsule.Protocol.Codec.{Frame, encode}
use nix_capsule.Protocol.Message.{Message, Json, into_frame, from_frame}
use nix_capsule.Client.Errors.{ClientError, client_error_text}
use nix_capsule.Client.Status.{Outcome, just, shutdown_exit, exit_outcome}
use nix_capsule.Client.Env.{OsString, Process, build_request}

-- How the socket and the two streams answer a write, given what was written to them before; `none` is
-- success.
pub record Terminal : Type 0 where
  pub socket : List Message → Message → Option IoError
  pub write_stdout : Bytes → Bytes → Option IoError
  pub write_stderr : Bytes → Bytes → Option IoError

-- The loop's variables, and what the session has sent and printed.
pub record Session : Type 0 where
  pub sent : List Message
  pub stdout : Bytes
  pub stderr : Bytes
  pub stdin_open : Bool
  pub sigint_open : Bool
  pub sigterm_open : Bool

-- A completed branch of the `select!`: a frame or a decode failure, the end of the stream, what
-- `stdin_rx.recv()` gave, and what the two signal streams gave (`true` is `Some(())`).
pub data Event : Type 0 where
  frame : Result DecodeError Frame → Event
  closed : Event
  chunk : Option (Option Bytes) → Event
  sigint : Bool → Event
  sigterm : Bool → Event

pub data Progress : Type 0 where
  going : Session → Progress
  finished : Session → Result ClientError Outcome → Progress

module _ (j : Json) (term : Terminal) (command : Str) where
  abbrev written : Session → Message → Option IoError → Result EncodeError Session
  written s m none = ok (record s { sent = s.sent ++ m ∷ [] })
  written s m (some e) = err (EncodeError.write e)

  -- `send`: `into_frame`, the codec's `encode`, and the write.
  unfoldable pub send : Session → Message → Result EncodeError Session
  send s m = into_frame j m >>= λ f. encode f [] >>= λ _. written s m (term.socket s.sent m)

  abbrev or_fail : Session → Result EncodeError Session → Progress
  or_fail s (ok s') = going s'
  or_fail s (err e) = finished s (err (ClientError.send e))

  abbrev or_same : Session → Result EncodeError Session → Session
  or_same s (ok s') = s'
  or_same s (err e) = s

  abbrev printed_out : Session → Bytes → Option IoError → Progress
  printed_out s b none = going (record s { stdout = s.stdout ++ b })
  printed_out s b (some e) = finished s (err (ClientError.write_stdout e))

  abbrev printed_err : Session → Bytes → Option IoError → Progress
  printed_err s b none = going (record s { stderr = s.stderr ++ b })
  printed_err s b (some e) = finished s (err (ClientError.write_stderr e))

  unfoldable pub on_message : Session → Message → Progress
  on_message s (Message.stdout b) = printed_out s b (term.write_stdout s.stdout b)
  on_message s (Message.stderr b) = printed_err s b (term.write_stderr s.stderr b)
  on_message s (Message.exit x) = finished s (exit_outcome x command)
  on_message s (Message.error e) = finished s (err (ClientError.server_error e.message))
  on_message s Message.server_stopping = finished s (ok (just shutdown_exit))
  on_message s (Message.version _) = going s
  on_message s (Message.server_version _) = going s
  on_message s (Message.request _) = going s
  on_message s Message.request_version = going s
  on_message s (Message.stdin _) = going s
  on_message s (Message.signal _) = going s

  abbrev on_read : Session → Result DecodeError Message → Progress
  on_read s (ok m) = on_message s m
  on_read s (err e) = finished s (err (ClientError.receive e))

  on_chunk : Session → Option (Option Bytes) → Progress
  on_chunk s (some (some b)) = or_fail s (send s (Message.stdin b))
  on_chunk s _ = going (record (or_same s (send s (Message.stdin []))) { stdin_open = false })

  on_sigint : Session → Bool → Progress
  on_sigint s true = or_fail s (send s (Message.signal (record { signal = 2 })))
  on_sigint s false = going (record s { sigint_open = false })

  on_sigterm : Session → Bool → Progress
  on_sigterm s true = or_fail s (send s (Message.signal (record { signal = 15 })))
  on_sigterm s false = going (record s { sigterm_open = false })

  -- A branch whose precondition is false never completes, so such an event changes nothing.
  unfoldable pub step : Session → Event → Progress
  unfolding on_chunk on_sigint on_sigterm
  step s (frame (ok f)) = on_read s (from_frame j f)
  step s (frame (err e)) = finished s (err (ClientError.receive e))
  step s closed = finished s (ok (just shutdown_exit))
  step s (chunk c) = if s.stdin_open then on_chunk s c else going s
  step s (sigint b) = if s.sigint_open then on_sigint s b else going s
  step s (sigterm b) = if s.sigterm_open then on_sigterm s b else going s

  abbrev then_loop : (Session → Progress) → Progress → Progress
  then_loop next (going s) = next s
  then_loop next (finished s r) = finished s r

  -- The loop over the events that arrive; it is still going when they end.
  unfoldable pub loop : List Event → Session → Progress
  loop [] s = going s
  loop (e ∷ es) s = then_loop (loop es) (step s e)

abbrev pub fresh : Session
fresh = record {
  sent = [];
  stdout = [];
  stderr = [];
  stdin_open = true;
  sigint_open = true;
  sigterm_open = true;
}

-- What the calls before the loop answer: `UnixStream::connect` and the two signal handlers.
pub record Startup : Type 0 where
  pub connect : Option IoError
  pub sigint_handler : Option IoError
  pub sigterm_handler : Option IoError

abbrev proceed {ℓ} :
    {A : Type ℓ}
    → Option IoError
    → (IoError → ClientError)
    → (Unit {0} → Result ClientError A)
    → Result ClientError A
proceed none wrap next = next tt
proceed (some e) wrap next = err (wrap e)

module _ (j : Json) (p : Process) (term : Terminal) where
  abbrev or_ended : Session → Result ClientError Progress → Progress
  or_ended s (ok r) = r
  or_ended s (err e) = finished s (err e)

  abbrev begin : Str → List Event → Startup → Result EncodeError Session → Progress
  begin command events up (err e) = finished fresh (err (ClientError.send e))
  begin command events up (ok s) = or_ended s (
      proceed up.sigint_handler (ClientError.signal_handler (codes "SIGINT")) λ _.
        proceed up.sigterm_handler (ClientError.signal_handler (codes "SIGTERM"))
          λ _. ok (loop j term command events s))

  -- The request is built before the connection is made.
  unfoldable pub session :
      Startup
      → Str
      → Option OsString
      → List OsString
      → OsString
      → List OsString
      → List Event
      → Progress
  session up socket cwd env name args events = or_ended fresh (
      build_request p cwd env name args >>= λ request.
      proceed up.connect (ClientError.connect socket) λ _. ok (
        begin request.command events up
          (send j term request.command fresh (Message.request request))))

-- `run`: the exit code of the process, and the message for stderr.
unfoldable pub report : Result ClientError Outcome → ℕ × Option Str
report (ok o) = (o.code, o.notice)
report (err (ClientError.connect socket e)) = (
  1,
  some (
      client_error_text (ClientError.connect socket e)
      ++ codes "\nrun `ncap-ctl init` to start this project's container"),
)
report (err e) = (1, some (client_error_text e))
