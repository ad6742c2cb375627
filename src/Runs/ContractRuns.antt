-- ===== src/Runs/ContractRuns.antt =====
-- A command run from the client of src/client/mod.rs to its child behind src/server.rs and back.
use nix_capsule.Prelude.{ok, Str, codes, ℕ, ◌≡◌, refl, true, false, none, some, List, [], ◌∷◌, ◌++◌}
use nix_capsule.Protocol.FrameType.{FrameType}
use nix_capsule.Protocol.Codec.{Frame, encode}
use nix_capsule.Protocol.Message.{
  Exit, Message, frame_type, payload_of_message, into_frame, from_frame,
}
use nix_capsule.Client.Status.{exit_code, exit_outcome}
use nix_capsule.Client.Session.{Session, Event, Progress, send, on_message, step, loop, fresh}
use nix_capsule.Client.Session.Stdin.{Read, pump_stdin}
use nix_capsule.Server.Connection.State.{
  ExitStatus, Conn, Chunk, Event as Received, Schedule, First, opened,
}
use nix_capsule.Server.Connection.State.{
  Conn, opened, First, Chunk, ExitStatus, Schedule, sigterm, exit_of, signal_group, write_child,
  on_signal,
}
use nix_capsule.Server.Connection.State as ServerState
use nix_capsule.Server.Connection.Loop.{Bridge, bridge_step, bridge}
use nix_capsule.Server.Connection.Handler.{
  on_status, finish, Handling, parse_entries, on_request, on_first_message, on_first, handle_conn,
}
use nix_capsule.Server.Connection.Pump.{
  PipeRead, pump_output, pipe_bytes, received_out, received_err,
}
use nix_capsule.Server.Connection.Fed.{Receives}
use nix_capsule.Server.Connection.Handled.{conn_of}
use nix_capsule.Contract.{shell_code}
use nix_capsule.Contract.Signals.{signals_arrive}
use nix_capsule.Client.Session.Signals.{pressed}
use nix_capsule.Server.Connection.Signalled.{to_group}
use nix_capsule.Contract.Output.{Arrives, output_arrives}
use nix_capsule.Contract.Input.{items, read_bytes, input_arrives}
use nix_capsule.Runs.Toy.{json, json-ReadsBack, terminal, host}

abbrev ls : Str
ls = codes "ls"

abbrev exited : ExitStatus
exited = record { code = some 3; signal = none }

-- A request for `ls`, a chunk of each pipe, and the child's exit with code 3.
abbrev schedule : Schedule
schedule = record {
  first = First.frame (ok (record { frame_type = FrameType.request; payload = ls }));
  bridge =
      Received.output (Chunk.out (codes "x"))
      ∷ Received.output (Chunk.errs (codes "y"))
      ∷ Received.drained
      ∷ [];
  stop_first = false;
  wait = some (ok exited);
}

abbrev handled : Conn
handled = conn_of (handle_conn json host (codes "1") schedule)

handled_done : handle_conn json host (codes "1") schedule ≡ Handling.done handled
unfolding handle_conn on_first on_first_message on_request parse_entries bridge bridge_step finish
    on_status exit_of ServerState.send from_frame into_frame payload_of_message frame_type
handled_done = refl

handled_spawned : handled.spawned ≡ some 7
unfolding handle_conn on_first on_first_message on_request parse_entries bridge bridge_step finish
    on_status exit_of ServerState.send from_frame into_frame payload_of_message frame_type
handled_spawned = refl

abbrev status : Exit
status = record { code = some 3; signal = none }

abbrev relayed : List Message
relayed = Message.stdout (codes "x") ∷ Message.stderr (codes "y") ∷ []

handled_sent : handled.sent ≡ relayed ++ Message.exit status ∷ []
unfolding handle_conn on_first on_first_message on_request parse_entries bridge bridge_step finish
    on_status exit_of ServerState.send from_frame into_frame payload_of_message frame_type
handled_sent = refl

abbrev out_frame : Frame
out_frame = record { frame_type = FrameType.stdout; payload = codes "x" }

abbrev err_frame : Frame
err_frame = record { frame_type = FrameType.stderr; payload = codes "y" }

abbrev exit_frame : Frame
exit_frame = record { frame_type = FrameType.exit; payload = 3 ∷ [] }

-- The two chunks, with a chunk of stdin between them.
abbrev arriving : List Event
arriving =
    Event.frame (ok out_frame)
    ∷ Event.chunk (some (some (codes "a")))
    ∷ Event.frame (ok err_frame)
    ∷ []

abbrev printed : Session
printed = record {
  sent = Message.stdin (codes "a") ∷ [];
  stdout = codes "x";
  stderr = codes "y";
  stdin_open = true;
  sigint_open = true;
  sigterm_open = true;
}

arriving_run : loop json terminal ls arriving fresh ≡ Progress.going printed
unfolding loop step on_message send into_frame from_frame encode
arriving_run = refl

out_framed : into_frame json (Message.stdout (codes "x")) ≡ ok out_frame
unfolding into_frame payload_of_message frame_type
out_framed = refl

err_framed : into_frame json (Message.stderr (codes "y")) ≡ ok err_frame
unfolding into_frame payload_of_message frame_type
err_framed = refl

exit_framed : into_frame json (Message.exit status) ≡ ok exit_frame
unfolding into_frame payload_of_message frame_type
exit_framed = refl

abbrev out_reads : List PipeRead
out_reads = PipeRead.bytes b'x' [] ∷ PipeRead.end ∷ []

abbrev err_reads : List PipeRead
err_reads = PipeRead.bytes b'y' [] ∷ PipeRead.failed ∷ []

out_pumped : received_out schedule.bridge ≡ pump_output Message.stdout out_reads
unfolding pump_output
out_pumped = refl

err_pumped : received_err schedule.bridge ≡ pump_output Message.stderr err_reads
unfolding pump_output
err_pumped = refl

output_arrives_example :
    (loop json terminal ls (arriving ++ Event.frame (ok exit_frame) ∷ Event.closed ∷ []) fresh
      ≡ Progress.finished printed (exit_outcome status ls))
    × (printed.stdout ≡ fresh.stdout ++ pipe_bytes out_reads)
    × (printed.stderr ≡ fresh.stderr ++ pipe_bytes err_reads)
    × ((s : ExitStatus) × (schedule.wait ≡ some (ok s))
        × (exit_code (exit_outcome status ls) ≡ shell_code s))
output_arrives_example =
    output_arrives json host terminal json-ReadsBack (codes "1") schedule handled relayed status 7
      handled_done handled_spawned handled_sent out_reads err_reads out_pumped err_pumped ls
      arriving (Event.closed ∷ []) exit_frame fresh printed
      (Arrives.arrival out_frame (Message.stdout (codes "x")) out_framed (
        Arrives.chunk (some (some (codes "a")))
          (Arrives.arrival err_frame (Message.stderr (codes "y")) err_framed Arrives.none_left)))
      exit_framed arriving_run

-- The child of the connection runs, and its stdin is open.
abbrev running : Conn
running = record opened { spawned = some 7 }

abbrev stdin_frame : Frame
stdin_frame = record { frame_type = FrameType.stdin; payload = codes "a" }

abbrev end_frame : Frame
end_frame = record { frame_type = FrameType.stdin; payload = [] }

stdin_framed : into_frame json (Message.stdin (codes "a")) ≡ ok stdin_frame
unfolding into_frame payload_of_message frame_type
stdin_framed = refl

end_framed : into_frame json (Message.stdin []) ≡ ok end_frame
unfolding into_frame payload_of_message frame_type
end_framed = refl

-- The user types `a` and ends stdin, while the child prints.
abbrev typing : List Event
typing =
    Event.frame (ok out_frame)
    ∷ Event.chunk (some (some (codes "a")))
    ∷ Event.chunk (some none)
    ∷ []

abbrev feeding : List Received
feeding =
    Received.frame (ok stdin_frame)
    ∷ Received.output (Chunk.out (codes "x"))
    ∷ Received.frame (ok end_frame)
    ∷ []

abbrev keyboard : List Read
keyboard = Read.interrupted ∷ Read.bytes 97 [] ∷ Read.end ∷ []

abbrev typed_session : Session
typed_session = record {
  sent = Message.stdin (codes "a") ∷ Message.stdin [] ∷ [];
  stdout = codes "x";
  stderr = [];
  stdin_open = false;
  sigint_open = true;
  sigterm_open = true;
}

typing_run : loop json terminal ls typing fresh ≡ Progress.going typed_session
unfolding loop step on_message send into_frame from_frame encode
typing_run = refl

pumped : items typing ≡ pump_stdin keyboard
unfolding pump_stdin
pumped = refl

abbrev fed_bridge : Bridge
fed_bridge = bridge json host 7 feeding running

abbrev conn_at : Bridge → Conn
conn_at (Bridge.going c) = c
conn_at (Bridge.returned c b) = c

feeding_run : fed_bridge ≡ Bridge.going (conn_at fed_bridge)
unfolding bridge bridge_step ServerState.on_message write_child ServerState.send from_frame
    into_frame payload_of_message frame_type
feeding_run = refl

input_arrives_example : (conn_at fed_bridge).stdin ≡ running.stdin ++ read_bytes keyboard
input_arrives_example =
    input_arrives json terminal host json-ReadsBack (λ before b. refl) ls typing keyboard fresh
      typed_session (Message.stdin (codes "a") ∷ Message.stdin [] ∷ []) (tt, (refl, (tt, tt)))
      pumped refl typing_run refl 7 feeding running (conn_at fed_bridge)
      (Receives.arrival stdin_frame (Message.stdin (codes "a")) stdin_framed (
        Receives.produced (Chunk.out (codes "x"))
          (Receives.arrival end_frame (Message.stdin []) end_framed Receives.none_left)))
      refl refl feeding_run

-- Ctrl-C twice, with a SIGTERM between and the child's output after it.
abbrev pressing : List Event
pressing =
    Event.sigint true ∷ Event.sigterm true ∷ Event.frame (ok out_frame) ∷ Event.sigint true ∷ []

abbrev signal_frame : ℕ → Frame
signal_frame n = record { frame_type = FrameType.signal; payload = n ∷ [] }

abbrev signal_of : ℕ → Message
signal_of n = Message.signal (record { signal = n })

abbrev pressed_session : Session
pressed_session = record fresh {
  sent = signal_of 2 ∷ signal_of 15 ∷ signal_of 2 ∷ [];
  stdout = codes "x";
}

pressing_run : loop json terminal ls pressing fresh ≡ Progress.going pressed_session
unfolding loop step on_message send into_frame from_frame encode
pressing_run = refl

signal_framed : (n : ℕ) → into_frame json (signal_of n) ≡ ok (signal_frame n)
unfolding into_frame payload_of_message frame_type
signal_framed n = refl

abbrev interrupting : List Received
interrupting =
    Received.frame (ok (signal_frame 2))
    ∷ Received.frame (ok (signal_frame 15))
    ∷ Received.output (Chunk.out (codes "x"))
    ∷ Received.frame (ok (signal_frame 2))
    ∷ []

abbrev interrupted : Bridge
interrupted = bridge json host 7 interrupting running

interrupting_run : interrupted ≡ Bridge.going (conn_at interrupted)
unfolding bridge bridge_step ServerState.on_message ServerState.on_signal ServerState.signal_group
    ServerState.send from_frame into_frame payload_of_message frame_type
interrupting_run = refl

signals_arrive_example :
    (conn_at interrupted).kills ≡ running.kills ++ to_group 7 (pressed pressing)
signals_arrive_example =
    signals_arrive json terminal host json-ReadsBack ls pressing fresh pressed_session
      (signal_of 2 ∷ signal_of 15 ∷ signal_of 2 ∷ []) (refl, (refl, (tt, (refl, tt)))) refl refl
      pressing_run refl 7 interrupting running (conn_at interrupted)
      (Receives.arrival (signal_frame 2) (signal_of 2) (signal_framed 2) (
        Receives.arrival (signal_frame 15) (signal_of 15) (signal_framed 15) (
          Receives.produced (Chunk.out (codes "x")) (
            Receives.arrival (signal_frame 2) (signal_of 2) (signal_framed 2) Receives.none_left))))
      (tt, (tt, (tt, (tt, tt)))) refl interrupting_run
