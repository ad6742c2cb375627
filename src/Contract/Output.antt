-- ===== src/Contract/Output.antt =====
-- A child's output, from `handle_conn` of src/server.rs to what `session` of src/client/mod.rs prints.
use nix_capsule.Server.Connection.Pump.{
  PipeRead, pump_output, pipe_bytes, received_out, received_err, produced_out-pump_output,
  produced_err-pump_output,
}
use nix_capsule.Server.Connection.Produced.{out_of, err_of, outs, errs_of}
use nix_capsule.Client.Session.{Terminal, Session, Event, Progress, loop}
use nix_capsule.Server.Connection.State.{Host, Conn, ExitStatus, Schedule, framed}
use nix_capsule.Prelude.{ok, Bytes, Str, ℕ, ◌≡◌, refl, Bool, Option, some, List, [], ◌∷◌, ◌++◌}
use nix_capsule.Protocol.Message.{Exit, Message, Json, JsonReadsBack, into_frame}
use nix_capsule.Protocol.Codec.{Frame}
use nix_capsule.Protocol.Message.RoundTrip.{from_frame-into_frame}
use nix_capsule.Client.Status.{exit_code, exit_outcome}
use nix_capsule.Client.Session.Relay.{out_bytes, err_bytes, arrived_out, arrived_err, session_ends}
use nix_capsule.Server.Connection.Told.{handle_conn-Told}
use nix_capsule.Server.Connection.Handler.{waited, Handling, handle_conn}
use nix_capsule.Contract.{shell_code, outcome-shell_code}

-- The messages reach the client as frames, in order; what its own streams and signals do comes between
-- them in any order.
pub data Arrives (j : Json) : List Event → List Message → Type 0 where
  none_left : Arrives j [] []
  arrival :
      {es : List Event} {ms : List Message} (f : Frame) (m : Message)
      → into_frame j m ≡ ok f
      → Arrives j es ms
      → Arrives j (Event.frame (ok f) ∷ es) (m ∷ ms)
  chunk :
      {es : List Event} {ms : List Message} (c : Option (Option Bytes))
      → Arrives j es ms
      → Arrives j (Event.chunk c ∷ es) ms
  sigint :
      {es : List Event} {ms : List Message} (b : Bool)
      → Arrives j es ms
      → Arrives j (Event.sigint b ∷ es) ms
  sigterm :
      {es : List Event} {ms : List Message} (b : Bool)
      → Arrives j es ms
      → Arrives j (Event.sigterm b ∷ es) ms

out_bytes-out_of : (m : Message) → out_bytes (ok m) ≡ out_of m
out_bytes-out_of (Message.stdout b) = refl
out_bytes-out_of _ = refl

err_bytes-err_of : (m : Message) → err_bytes (ok m) ≡ err_of m
err_bytes-err_of (Message.stderr b) = refl
err_bytes-err_of _ = refl

module _ (j : Json) (reads : JsonReadsBack j) (term : Terminal) (command : Str) where
  Arrives-out :
      (es : List Event) (ms : List Message)
      → Arrives j es ms
      → (arrived_out j term command es ≡ outs ms) × (arrived_err j term command es ≡ errs_of ms)
  unfolding arrived_out arrived_err
  Arrives-out [] [] Arrives.none_left = (refl, refl)
  Arrives-out [] (m ∷ ms) r = elim r [ ]
  Arrives-out (e ∷ es) (m ∷ ms) (Arrives.arrival f n framed rest) =
      let (out, errs) = Arrives-out es ms rest in
      let read = from_frame-into_frame j reads m f framed in
      rw (read, out, errs, out_bytes-out_of m, err_bytes-err_of m) (refl, refl)
  Arrives-out (e ∷ es) ms (Arrives.chunk c rest) = Arrives-out es ms rest
  Arrives-out (e ∷ es) ms (Arrives.sigint b rest) = Arrives-out es ms rest
  Arrives-out (e ∷ es) ms (Arrives.sigterm b rest) = Arrives-out es ms rest

-- A command that ran to its end, seen from both sides. The server's handler has returned, it started a
-- child, and the last message it sent is an `Exit`; what its bridge took of each pipe until the drain is
-- all that the pipe's `pump_output` made of its reads. The frames reach the client in their order, between whatever
-- its stdin and its signals do, and its session still goes on before the last one, so that no
-- `ServerStopping` was among them. Then it ends at that one; it has printed exactly the bytes that the reads
-- of the two pipes gave until their ends or a failure; and its exit code is the one a shell gives for the status
-- that the child was waited for with.
pub output_arrives :
    (j : Json) (host : Host) (term : Terminal)
    → JsonReadsBack j
    → (version : Str) (sched : Schedule) (c : Conn) (ms : List Message) (x : Exit) (pid : ℕ)
    → handle_conn j host version sched ≡ Handling.done c
    → c.spawned ≡ some pid
    → c.sent ≡ ms ++ Message.exit x ∷ []
    → (out_reads err_reads : List PipeRead)
    → received_out sched.bridge ≡ pump_output Message.stdout out_reads
    → received_err sched.bridge ≡ pump_output Message.stderr err_reads
    → (command : Str) (pre post : List Event) (f : Frame) (s s' : Session) → Arrives j pre ms
    → into_frame j (Message.exit x) ≡ ok f
    → loop j term command pre s ≡ Progress.going s'
    → (loop j term command (pre ++ Event.frame (ok f) ∷ post) s
        ≡ Progress.finished s' (exit_outcome x command))
      × (s'.stdout ≡ s.stdout ++ pipe_bytes out_reads)
      × (s'.stderr ≡ s.stderr ++ pipe_bytes err_reads)
      × ((status : ExitStatus) × (sched.wait ≡ some (ok status))
          × (exit_code (exit_outcome x command) ≡ shell_code status))
output_arrives j host term reads version sched c ms x pid done spawned sent out_reads err_reads
      pumped_out pumped_err command pre post f s s' arrives framed runs =
    let told = handle_conn-Told j host version sched ms x pid c done spawned sent in
    let (out, errs) = Arrives-out j reads term command pre ms arrives in
    let (ends, shown_out, shown_err) =
      session_ends j term command pre post s s' f (Message.exit x) _ runs
        (from_frame-into_frame j reads (Message.exit x) f framed) refl in
    let (status, waited, same) = told.status in
    (
      ends,
      rw (out, told.out, produced_out-pump_output sched.bridge out_reads pumped_out) at shown_out,
      rw (errs, told.errs, produced_err-pump_output sched.bridge err_reads pumped_err) at shown_err,
      (status, waited, rw same (outcome-shell_code status command)),
    )
