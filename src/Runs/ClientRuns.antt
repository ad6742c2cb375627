-- ===== src/Runs/ClientRuns.antt =====
-- The client of src/client/mod.rs, and what it and the server agree on, at concrete inputs.
use nix_capsule.Prelude.{
  ok, Str, codes, ◌≡◌, refl, true, false, none, some, List, [], ◌∷◌, ◌++◌, map,
}
use nix_capsule.Protocol.FrameType.{FrameType}
use nix_capsule.Protocol.Codec.{Frame, encode}
use nix_capsule.Protocol.Message.{Message, into_frame, from_frame}
use nix_capsule.Client.Env.{
  OsString, Entry, apply_entry, render, resolve_flag, forward_loop, flag_loop, forwarded_names,
  build_env,
}
use nix_capsule.Client.Env.Entries.{value_of, keys, distinct}
use nix_capsule.Client.Env.Merge.{forwarded_entries, flag_entries, last_value, build_env_merges}
use nix_capsule.Client.Env.Accepted.{at_first, build_env-accepted}
use nix_capsule.Client.Status.{with_notice, exit_outcome}
use nix_capsule.Client.Session.{Session, Event, Progress, send, on_message, step, loop, fresh}
use nix_capsule.Client.Session.Relay.{arrived_out, arrived_err, session_ends}
use nix_capsule.Client.Session.Stdin.{stdin_in_order, last_state, session_stdin_in_order}
use nix_capsule.Server.Connection.Handler.{parse_entries}
use nix_capsule.Runs.Toy.{json, terminal, process}

abbrev out_frame : Frame
out_frame = record { frame_type = FrameType.stdout; payload = codes "x" }

abbrev exit_frame : Frame
exit_frame = record { frame_type = FrameType.exit; payload = 3 ∷ [] }

abbrev ls : Str
ls = codes "ls"

-- Output, a chunk of stdin, and the end of stdin.
abbrev events : List Event
events =
    Event.frame (ok out_frame)
    ∷ Event.chunk (some (some (codes "a")))
    ∷ Event.chunk (some none)
    ∷ []

abbrev after : Session
after = record {
  sent = Message.stdin (codes "a") ∷ Message.stdin [] ∷ [];
  stdout = codes "x";
  stderr = [];
  stdin_open = false;
  sigint_open = true;
  sigterm_open = true;
}

events_run : loop json terminal ls events fresh ≡ Progress.going after
unfolding loop step on_message send into_frame from_frame encode
events_run = refl

exit_read : from_frame json exit_frame ≡ ok (Message.exit (record { code = some 3; signal = none }))
unfolding from_frame
exit_read = refl

session_ends_example :
    (loop json terminal ls (events ++ Event.frame (ok exit_frame) ∷ Event.closed ∷ []) fresh
      ≡ Progress.finished after (exit_outcome (record { code = some 3; signal = none }) ls))
    × (after.stdout ≡ fresh.stdout ++ arrived_out json terminal ls events)
    × (after.stderr ≡ fresh.stderr ++ arrived_err json terminal ls events)
session_ends_example =
    session_ends json terminal ls events (Event.closed ∷ []) fresh after exit_frame
      (Message.exit (record { code = some 3; signal = none }))
      (exit_outcome (record { code = some 3; signal = none }) ls) events_run exit_read refl

session_stdin_in_order_example :
    stdin_in_order false (last_state (loop json terminal ls events fresh)).sent ≡ true
session_stdin_in_order_example =
    session_stdin_in_order json terminal ls events (tt, (refl, (tt, tt)))

-- One flag that sets a value, and one forwarded name.
abbrev flags : List OsString
flags = codes "A=2" ∷ []

abbrev flag_pairs : List Entry
flag_pairs = (codes "A", codes "2") ∷ []

names_read : forwarded_names process (some (codes "A")) ≡ ok (codes "A" ∷ [])
unfolding forwarded_names
names_read = refl

flags_read : flag_entries process flags ≡ ok flag_pairs
unfolding flag_entries resolve_flag
flags_read = refl

build_env_merges_example :
    (es : List Entry) × (build_env process flags (some (codes "A")) ≡ ok (map render es))
    × (distinct (keys es) ≡ true)
    × ((key : Str)
        → value_of key es
          ≡ last_value process key none (forwarded_entries process (codes "A" ∷ []) ++ flag_pairs))
build_env_merges_example =
    build_env_merges process flags (some (codes "A")) (codes "A" ∷ []) flag_pairs names_read
      flags_read

env_built : build_env process flags (some (codes "A")) ≡ ok (codes "A=2" ∷ [])
unfolding build_env forwarded_names forward_loop flag_loop resolve_flag apply_entry
env_built = refl

build_env-accepted_example :
    (es : List Entry) × (codes "A=2" ∷ [] ≡ map render es)
    × (parse_entries (codes "A=2" ∷ []) ≡ ok (map at_first es))
build_env-accepted_example = build_env-accepted process flags (some (codes "A")) env_built

-- A name that holds `=` is read as another pair.
cut_at_first : at_first (codes "A=B", codes "C") ≡ (codes "A", codes "B=C")
cut_at_first = refl

missing :
    exit_outcome (record { code = some 127; signal = none }) ls
    ≡ ok (with_notice 127 (ls ++ codes ": command not found"))
unfolding exit_outcome
missing = refl
