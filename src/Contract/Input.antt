-- ===== src/Contract/Input.antt =====
-- The client's stdin, from `pump_stdin` and `session` of src/client/mod.rs to the child's stdin in `bridge` of
-- src/server.rs.
use nix_capsule.Server.Connection.State.{Host, Conn, Event as Received}
use nix_capsule.Client.Session.Stdin.{Read, pump_stdin, HoldsByte}
use nix_capsule.Client.Session.Typing.{chunks, loop_types}
use nix_capsule.Prelude.{
  append-cancel, All, Bytes, Str, ℕ, ◌≡◌, refl, sym, ap, ◌∙◌, true, Option, none, some, List, [],
  ◌∷◌, ◌++◌,
}
use nix_capsule.Protocol.Message.{Message, Json, JsonReadsBack}
use nix_capsule.Protocol.Message.Typed.{typed}
use nix_capsule.Server.Connection.Loop.{Bridge, bridge}
use nix_capsule.Server.Connection.Fed.{Receives, bridge_feeds}
use nix_capsule.Client.Session.{Terminal, Session, Event, Progress, loop}

-- What `pump_stdin` put into the channel and the loop took, until the channel closed.
abbrev pub items : List Event → List (Option Bytes)
items [] = []
items (Event.chunk (some item) ∷ es) = item ∷ items es
items (Event.chunk none ∷ es) = []
items (_ ∷ es) = items es

abbrev until_end : List (Option Bytes) → Bytes
until_end [] = []
until_end (some b ∷ xs) = b ++ until_end xs
until_end (none ∷ xs) = []

-- The bytes that the reads gave, until the end of stdin or a failure.
abbrev pub read_bytes : List Read → Bytes
read_bytes [] = []
read_bytes (Read.bytes b bs ∷ reads) = b ∷ bs ++ read_bytes reads
read_bytes (Read.interrupted ∷ reads) = read_bytes reads
read_bytes (_ ∷ reads) = []

chunks-items : (es : List Event) → chunks es ≡ until_end (items es)
chunks-items [] = refl
chunks-items (Event.chunk (some (some b)) ∷ es) = ap (λ t. b ++ t) (chunks-items es)
chunks-items (Event.chunk (some none) ∷ es) = refl
chunks-items (Event.chunk none ∷ es) = refl
chunks-items (Event.frame r ∷ es) = chunks-items es
chunks-items (Event.closed ∷ es) = chunks-items es
chunks-items (Event.sigint b ∷ es) = chunks-items es
chunks-items (Event.sigterm b ∷ es) = chunks-items es

until_end-pump_stdin : (reads : List Read) → until_end (pump_stdin reads) ≡ read_bytes reads
unfolding pump_stdin
until_end-pump_stdin [] = refl
until_end-pump_stdin (Read.bytes b bs ∷ reads) = ap (λ t. b ∷ bs ++ t) (until_end-pump_stdin reads)
until_end-pump_stdin (Read.interrupted ∷ reads) = until_end-pump_stdin reads
until_end-pump_stdin (Read.end ∷ reads) = refl
until_end-pump_stdin (Read.failed ∷ reads) = refl

-- What the user types, seen from both sides. The client's loop goes on, and it took what `pump_stdin` makes
-- of the reads of its stdin, each chunk with a byte. The messages that it sent reach the bridge of a child
-- whose stdin is open, in their order, between whatever else happens there, and the bridge goes on and
-- every write to the child succeeds. Then the child's stdin has got exactly the bytes that were read.
pub input_arrives :
    (j : Json) (term : Terminal) (host : Host)
    → JsonReadsBack j
    → ((before b : Bytes) → host.write_stdin before b ≡ true)
    → (command : Str) (es : List Event) (reads : List Read) (s s' : Session) (ms : List Message)
    → All HoldsByte es
    → items es ≡ pump_stdin reads
    → s.stdin_open ≡ true
    → loop j term command es s ≡ Progress.going s'
    → s'.sent ≡ s.sent ++ ms
    → (pgid : ℕ) (events : List Received) (c c' : Conn) → Receives j events ms
    → c.client_writes_open ≡ true
    → c.stdin_open ≡ true
    → bridge j host pgid events c ≡ Bridge.going c'
    → c'.stdin ≡ c.stdin ++ read_bytes reads
input_arrives j term host back writes command es reads s s' ms bytes pumped opened runs sent pgid
      events c c' received still open_in bridges =
    let (ms', sent', taken) = loop_types j term command es s s' bytes opened runs in
    let same : ms ≡ ms' = append-cancel s.sent ms ms' (sym sent ∙ sent') in
    bridge_feeds j host pgid back writes events ms c c' received still open_in bridges
    ∙ ap (λ t. c.stdin ++ t)
        (ap typed same ∙ taken ∙ chunks-items es ∙ ap until_end pumped ∙ until_end-pump_stdin reads)
