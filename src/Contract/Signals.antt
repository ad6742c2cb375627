-- ===== src/Contract/Signals.antt =====
-- Ctrl-C and SIGTERM, from `session` of src/client/mod.rs to the child's process group behind src/server.rs.
use nix_capsule.Client.Session.{Terminal, Session, Event, Progress, loop}
use nix_capsule.Client.Session.Signals.{pressed, KeepsStreams, loop-signalled}
use nix_capsule.Server.Connection.Loop.{Bridge, bridge}
use nix_capsule.Server.Connection.Fed.{Receives}
use nix_capsule.Server.Connection.Signalled.{Unstopped, to_group, bridge-signalled}
use nix_capsule.Protocol.Message.{Message, Json, JsonReadsBack}
use nix_capsule.Protocol.Message.Signalled.{signalled, signalled-append}
use nix_capsule.Prelude.{append-cancel, All, Str, ℕ, ◌≡◌, sym, ap, ◌∙◌, true, List, ◌++◌}
use nix_capsule.Server.Connection.State.{Host, Conn, Event as Received}

-- The client's loop goes on, and its streams of signals stay open. The messages that it sent reach the
-- bridge of a child, in their order, between the child's output, and the bridge goes on and does not see the
-- shutdown. Then the child's process group has been sent exactly the signals that came to the client, in order.
pub signals_arrive :
    (j : Json) (term : Terminal) (host : Host)
    → JsonReadsBack j
    → (command : Str) (es : List Event) (s s' : Session) (ms : List Message) → All KeepsStreams es
    → s.sigint_open ≡ true
    → s.sigterm_open ≡ true
    → loop j term command es s ≡ Progress.going s'
    → s'.sent ≡ s.sent ++ ms
    → (pgid : ℕ) (events : List Received) (c c' : Conn) → Receives j events ms
    → All Unstopped events
    → c.client_writes_open ≡ true
    → bridge j host pgid events c ≡ Bridge.going c'
    → c'.kills ≡ c.kills ++ to_group pgid (pressed es)
signals_arrive j term host back command es s s' ms keeps int_on term_on runs sent pgid events c c'
      received unstopped still bridges =
    let carried = loop-signalled j term command es s s' keeps int_on term_on runs in
    let same : signalled ms ≡ pressed es =
      append-cancel (signalled s.sent) (signalled ms) (pressed es)
        (sym (ap signalled sent ∙ signalled-append s.sent ms) ∙ carried) in
    bridge-signalled j host pgid back events ms c c' received unstopped still bridges
    ∙ ap (λ numbers. c.kills ++ to_group pgid numbers) same
