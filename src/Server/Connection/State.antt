-- ===== src/Server/Connection/State.antt =====
-- The state of one connection of src/server.rs, what the host answers, and the calls that both loops of
-- `handle_conn` make: `send`, `send_error`, `signal_group`, and the messages of a bridge.
use mathlib.Core.Option
use nix_capsule.Prelude.{
  leb, if◌then◌else◌, length, Result, ok, err, Bytes, Str, codes, ℕ, ◌%◌, Bool, true, false, not,
  Option, none, some, List, [], ◌∷◌, ◌++◌,
}
use nix_capsule.Prelude.Decimal.{to_decimal}
use nix_capsule.Prelude.Io.{IoError}
use nix_capsule.Protocol.Errors.{DecodeError, EncodeError}
use nix_capsule.Protocol.Codec.{Frame, max_payload}
use nix_capsule.Protocol.Message.{Exit, Message, Json, into_frame}
use nix_capsule.Server.LogLevel.{LogLevel}
use nix_capsule.Server.Rejection.{Rejection, rejection_text}

-- What `command.spawn()` is given; the entries are laid over the server's own environment.
pub record Spawn : Type 0 where
  pub command : Str
  pub args : List Str
  pub cwd : Str
  pub env : List (Str × Str)

-- What the host answers: a directory test, a spawn (the child's pid, which leads its process group), a
-- write to the socket and one to the child's stdin (given what was written before; `true` is success),
-- and a `kill` of a group (given the kills before). A write that never answers is a list of events that
-- ends there.
pub record Host : Type 0 where
  pub is_dir : Str → Bool
  pub spawn : Spawn → Result IoError ℕ
  pub socket : List Message → Message → Bool
  pub write_stdin : Bytes → Bytes → Bool
  pub kill : List (ℕ × ℕ) → ℕ → ℕ → Option IoError

-- `sent`, `kills`, `stdin`, `log` are what happened so far; `spawned` and `reaped` tell whether a child
-- was started and whether it was waited for.
pub record Conn : Type 0 where
  pub sent : List Message
  pub kills : List (ℕ × ℕ)
  pub stdin : Bytes
  pub stdin_open : Bool
  pub client_writes_open : Bool
  pub stopping_open : Bool
  pub spawned : Option ℕ
  pub reaped : Bool
  pub log : List (LogLevel × Str)

abbrev pub opened : Conn
opened = record {
  sent = [];
  kills = [];
  stdin = [];
  stdin_open = true;
  client_writes_open = true;
  stopping_open = true;
  spawned = none;
  reaped = false;
  log = (LogLevel.info, codes "connection opened") ∷ [];
}

-- The first `select!`: a frame or a decode failure, the end of the stream, or the shutdown.
pub data First : Type 0 where
  frame : Result DecodeError Frame → First
  closed stopping : First

-- Which of the child's pipes a chunk came from.
pub data Chunk : Type 0 where
  out errs : Bytes → Chunk

-- A completed branch of the bridge's `select!`.
pub data Event : Type 0 where
  output : Chunk → Event
  drained : Event
  frame : Result DecodeError Frame → Event
  closed stopping : Event

-- What `child.wait()` gives: an exit status has a code, a signal, or neither.
pub record ExitStatus : Type 0 where
  pub code : Option ℕ
  pub signal : Option ℕ

-- What happens on one connection: its first event, the bridge's, whether the shutdown is seen before
-- the child is reaped, and what the wait gives, if it ever answers.
pub record Schedule : Type 0 where
  pub first : First
  pub bridge : List Event
  pub stop_first : Bool
  pub wait : Option (Result IoError ExitStatus)

abbrev pub sigterm : ℕ
sigterm = 15

abbrev pub logged : LogLevel → Str → Conn → Conn
logged level text c = record c { log = c.log ++ (level, text) ∷ [] }

abbrev pub message_of : Chunk → Message
message_of (out b) = Message.stdout b
message_of (errs b) = Message.stderr b

-- `status.code()` and `status.signal()` cast to `u8`.
unfoldable pub exit_of : ExitStatus → Exit
exit_of s = record {
  code = Option.map (λ c. c % 256) s.code;
  signal = Option.map (λ n. n % 256) s.signal;
}

module _ (j : Json) (host : Host) where
  abbrev pub delivered : Conn → Message → Bool → Conn × Bool
  delivered c m true = (record c { sent = c.sent ++ m ∷ [] }, true)
  delivered c m false = (c, false)

  abbrev pub framed : Conn → Message → Result EncodeError Frame → Conn × Bool
  framed c m (err e) = (c, false)
  framed c m (ok f) =
      if leb (length f.payload) max_payload
      then delivered c m (host.socket c.sent m)
      else (c, false)

  -- `send`: a message that does not make a frame, or that the codec refuses, is not sent.
  unfoldable pub send : Conn → Message → Conn × Bool
  send c m = framed c m (into_frame j m)

  unfoldable pub send_error : Rejection → Conn → Conn
  send_error r c = (send c (Message.error (record { message = rejection_text r }))).0

  abbrev pub failed_kill : ℕ → ℕ → Conn → Option IoError → Conn
  failed_kill pgid signal c none = c
  failed_kill pgid signal c (some e) =
      logged LogLevel.warning
        (codes "kill(-"
          ++ (to_decimal pgid ++ (codes ", " ++ (to_decimal signal ++ (codes "): " ++ e.text)))))
        c

  -- `signal_group`: the number goes out verbatim.
  unfoldable pub signal_group : ℕ → ℕ → Conn → Conn × Option IoError
  signal_group pgid signal c =
      (record c { kills = c.kills ++ (pgid, signal) ∷ [] }, host.kill c.kills pgid signal)

  abbrev pub term_group : ℕ → Conn → Conn
  term_group pgid c = (signal_group pgid sigterm c).0

  -- `Ok(Message::Stdin(bytes))` in the bridge: empty bytes are the end of stdin.
  unfoldable pub write_child : Conn → Bytes → Conn
  write_child c [] =
      logged LogLevel.debug (codes "stdin EOF: dropping the child's stdin pipe")
        (record c { stdin_open = false })
  write_child c (b ∷ bs) =
      if not c.stdin_open
      then c
      else if host.write_stdin c.stdin (b ∷ bs)
      then record c { stdin = c.stdin ++ b ∷ bs }
      else logged LogLevel.debug (codes "write to the child's stdin failed: dropping the pipe")
          (record c { stdin_open = false })

  unfoldable pub on_signal : ℕ → ℕ → Conn → Conn
  unfolding signal_group
  on_signal pgid signal c =
      let (c', failure) = signal_group pgid signal c in failed_kill pgid signal c' failure

  unfoldable pub on_message : ℕ → Conn → Message → Conn
  unfolding write_child on_signal
  on_message pgid c (Message.stdin b) = write_child c b
  on_message pgid c (Message.signal n) = on_signal pgid n.signal c
  on_message pgid c _ = c
