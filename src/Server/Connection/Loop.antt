-- ===== src/Server/Connection/Loop.antt =====
-- `bridge` of src/server.rs: its `select!` loop over a list of events.
use nix_capsule.Prelude.{if◌then◌else◌, Result, ok, err, codes, ℕ, Bool, true, false, List, [], ◌∷◌}
use nix_capsule.Protocol.Errors.{DecodeError}
use nix_capsule.Protocol.Codec.{Frame}
use nix_capsule.Protocol.Message.{Message, Json, from_frame}
use nix_capsule.Server.LogLevel.{LogLevel}
use nix_capsule.Server.Rejection.{Rejection}
use nix_capsule.Server.Connection.State.{
  Host, Conn, Event, logged, message_of, send, send_error, signal_group, term_group, on_message,
}

-- Where a bridge stands: it goes on, or it returned `true` (the pipes drained) or `false`.
pub data Bridge : Type 0 where
  going : Conn → Bridge
  returned : Conn → Bool → Bridge

module _ (j : Json) (host : Host) (pgid : ℕ) where
  abbrev pub after_send : Conn × Bool → Bridge
  after_send (c, true) = going c
  after_send (c, false) = returned c false

  abbrev pub on_read : Conn → Result DecodeError Message → Bridge
  on_read c (ok m) = going (on_message j host pgid c m)
  on_read c (err e) = returned (send_error j host (Rejection.undecodable e) c) false

  abbrev pub on_frame : Conn → Result DecodeError Frame → Bridge
  on_frame c (ok f) = on_read c (from_frame j f)
  on_frame c (err e) = returned (send_error j host (Rejection.undecodable e) c) false

  unfoldable pub on_closed : Conn → Conn
  on_closed c =
      logged LogLevel.debug (codes "client write half closed: dropping the child's stdin pipe")
        (record c { stdin_open = false; client_writes_open = false })

  unfoldable pub on_stopping : Conn → Conn
  unfolding signal_group
  on_stopping c =
      logged LogLevel.info (codes "sent `ServerStopping` and TERMed the child's process group") (
        term_group j host pgid
          (send j host (record c { stopping_open = false }) Message.server_stopping).0)

  -- A branch whose precondition is false never completes, so such an event changes nothing.
  unfoldable pub bridge_step : Conn → Event → Bridge
  unfolding on_closed on_stopping
  bridge_step c (Event.output chunk) = after_send (send j host c (message_of chunk))
  bridge_step c Event.drained = returned c true
  bridge_step c (Event.frame r) = if c.client_writes_open then on_frame c r else going c
  bridge_step c Event.closed = if c.client_writes_open then going (on_closed c) else going c
  bridge_step c Event.stopping = if c.stopping_open then going (on_stopping c) else going c

  abbrev pub then_bridge : (Conn → Bridge) → Bridge → Bridge
  then_bridge next (going c) = next c
  then_bridge next (returned c b) = returned c b

  -- The loop over the events that happen; it is still going when they end.
  unfoldable pub bridge : List Event → Conn → Bridge
  bridge [] c = going c
  bridge (e ∷ es) c = then_bridge (bridge es) (bridge_step c e)
