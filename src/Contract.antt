-- ===== src/Contract.antt =====
-- What client and server agree on about a child: here its status, from `handle_conn` of src/server.rs to `session` of
-- src/client/mod.rs.
pub mod Output
pub mod Input
pub mod Request
pub mod Signals
use mathlib.Core.Option
use nix_capsule.Prelude.{
  Result, ok, Str, ℕ, ◌+◌, ◌%◌, ◌≡◌, refl, ◌∙◌, Option, none, some, List, ◌∷◌, ◌++◌,
}
use nix_capsule.Protocol.Codec.{Frame}
use nix_capsule.Protocol.Message.{Message, Json, JsonReadsBack, into_frame}
use nix_capsule.Protocol.Message.RoundTrip.{from_frame-into_frame}
use nix_capsule.Client.Errors.{ClientError}
use nix_capsule.Client.Status.{Outcome, exit_code, first_of, exit_outcome, exit_outcome-code}
use nix_capsule.Client.Session.{Terminal, Session, Event, Progress, loop}
use nix_capsule.Client.Session.Relay.{session_ends}
use nix_capsule.Server.Connection.State.{ExitStatus, exit_of}

-- The exit code that a shell gives for a status, of whose numbers eight bits are kept.
abbrev pub shell_code : ExitStatus → Option ℕ
shell_code s =
    first_of (Option.map (λ c. c % 256) s.code) (Option.map (λ n. 128 + n % 256) s.signal)

map-map :
    (o : Option ℕ)
    → Option.map (λ n. 128 + n) (Option.map (λ n. n % 256) o) ≡ Option.map (λ n. 128 + n % 256) o
map-map none = refl
map-map (some n) = refl

pub outcome-shell_code :
    (s : ExitStatus) (command : Str) → exit_code (exit_outcome (exit_of s) command) ≡ shell_code s
unfolding exit_of
outcome-shell_code s command = exit_outcome-code (exit_of s) command ∙ rw (map-map s.signal)

-- When the `Exit` frame that the server makes of a child's status reaches a session that still goes on,
-- the session ends there, whatever comes behind it, with the exit code a shell gives for that status,
-- or with none if the status has neither code nor signal; this holds if the JSON library reads back
-- what it wrote.
pub status_arrives :
    (j : Json) (term : Terminal)
    → JsonReadsBack j
    → (command : Str) (status : ExitStatus) (f : Frame)
    → into_frame j (Message.exit (exit_of status)) ≡ ok f
    → (pre post : List Event) (s s' : Session) → loop j term command pre s ≡ Progress.going s'
    → (r : Result ClientError Outcome) × (loop j term command (pre ++ Event.frame (ok f) ∷ post) s
        ≡ Progress.finished s' r)
      × (exit_code r ≡ shell_code status)
status_arrives j term reads command status f sent pre post s s' runs =
    let read = from_frame-into_frame j reads (Message.exit (exit_of status)) f sent in
    (
      exit_outcome (exit_of status) command,
      (session_ends j term command pre post s s' f (Message.exit (exit_of status)) _ runs read
          refl).0,
      outcome-shell_code status command,
    )
