-- ===== src/Server/Connection/Ending.antt =====
-- What the bridge of src/server.rs sends, and where terminal frames stand in it.
use nix_capsule.Prelude.{
  leb, if◌then◌else◌, Bool-cases, length, Result, ok, err, Result-cases, is_empty, ℕ, ◌≡◌, refl,
  ◌⊎◌, inl, inr, Bool, true, false, not, ◌&&◌, List, [], ◌∷◌, ◌++◌, arith,
}
use nix_capsule.Protocol.Errors.{DecodeError}
use nix_capsule.Protocol.Codec.{Frame, max_payload}
use nix_capsule.Protocol.Message.{Message, Json, into_frame, from_frame}
use nix_capsule.Server.Rejection.{Rejection}
use nix_capsule.Server.Connection.State.{Host, Conn, Chunk, Event, send, send_error, on_message}
use nix_capsule.Server.Connection.Loop.{
  Bridge, after_send, on_read, on_frame, on_closed, on_stopping, bridge_step, then_bridge, bridge,
}

abbrev pub is_terminal : Message → Bool
is_terminal (Message.exit _) = true
is_terminal (Message.error _) = true
is_terminal (Message.server_version _) = true
is_terminal _ = false

-- No terminal frame was sent.
abbrev pub unended : List Message → Bool
unended [] = true
unended (m ∷ ms) = not (is_terminal m) && unended ms

-- At most one terminal frame was sent, and it is the last one.
abbrev pub well_ended : List Message → Bool
well_ended [] = true
well_ended (m ∷ ms) = if is_terminal m then is_empty ms else well_ended ms

unended-append :
    (ms : List Message) (m : Message)
    → unended ms ≡ true
    → is_terminal m ≡ false
    → unended (ms ++ m ∷ []) ≡ true
unended-append [] m h t = rw t
unended-append (x ∷ ms) m h t = ground (arith, unended-append ms m)

well_ended-append :
    (ms : List Message) (m : Message) → unended ms ≡ true → well_ended (ms ++ m ∷ []) ≡ true
well_ended-append [] m h = ground arith
well_ended-append (x ∷ ms) m h = ground (arith, well_ended-append ms m)

pub well_ended-of-unended : (ms : List Message) → unended ms ≡ true → well_ended ms ≡ true
well_ended-of-unended [] h = refl
well_ended-of-unended (x ∷ ms) h = ground (arith, well_ended-of-unended ms)

abbrev pub Unended : Conn → Type 0
Unended c = unended c.sent ≡ true

abbrev pub WellEnded : Conn → Type 0
WellEnded c = well_ended c.sent ≡ true

module _ (j : Json) (host : Host) where
  -- A `send` appends its message or leaves the connection as it was.
  pub send_cases :
      (c : Conn) (m : Message)
      → (send j host c m ≡ (record c { sent = c.sent ++ m ∷ [] }, true))
        ⊎ (send j host c m ≡ (c, false))
  unfolding send
  send_cases c m = elim (Result-cases (into_frame j m)) [
    | inl (f, ef) ↦ elim (Bool-cases (leb (length f.payload) max_payload)) [
      | inl fits ↦ elim (Bool-cases (host.socket c.sent m)) [
        | inl took ↦ inl (rw (ef, fits, took))
        | inr lost ↦ inr (rw (ef, fits, lost))
      ]
      | inr large ↦ inr (rw (ef, large))
    ]
    | inr (x, ex) ↦ inr (rw ex)
  ]

  pub send-Unended :
      (c : Conn) (m : Message) → is_terminal m ≡ false → Unended c → Unended (send j host c m).0
  send-Unended c m t h = elim (send_cases c m) [
    | inl e ↦ rw e (unended-append c.sent m h t)
    | inr e ↦ rw e h
  ]

  pub send-WellEnded : (c : Conn) (m : Message) → Unended c → WellEnded (send j host c m).0
  send-WellEnded c m h = elim (send_cases c m) [
    | inl e ↦ rw e (well_ended-append c.sent m h)
    | inr e ↦ rw e (well_ended-of-unended c.sent h)
  ]

  pub send_error-WellEnded :
      (c : Conn) (r : Rejection) → Unended c → WellEnded (send_error j host r c)
  unfolding send_error
  send_error-WellEnded c r h = send-WellEnded c _ h

  pub on_message_sent :
      (pgid : ℕ) (c : Conn) (m : Message) → (on_message j host pgid c m).sent ≡ c.sent
  unfolding on_message
  on_message_sent pgid c (Message.stdin []) = refl
  on_message_sent pgid c (Message.stdin (b ∷ bs)) = ground arith
  on_message_sent pgid c (Message.signal n) = ground arith
  on_message_sent pgid c _ = refl

  -- A bridge that goes on, or that returned `true`, has sent no terminal frame.
  abbrev pub BridgeEnds : Bridge → Type 0
  BridgeEnds (Bridge.going c) = Unended c
  BridgeEnds (Bridge.returned c true) = Unended c
  BridgeEnds (Bridge.returned c false) = WellEnded c

  module _ (pgid : ℕ) where
    after_send-Ends :
        (c : Conn) (m : Message)
        → is_terminal m ≡ false
        → Unended c
        → BridgeEnds (after_send j host pgid (send j host c m))
    after_send-Ends c m t h = elim (send_cases c m) [
      | inl e ↦ rw e (unended-append c.sent m h t)
      | inr e ↦ rw e (well_ended-of-unended c.sent h)
    ]

    on_read-Ends :
        (c : Conn) (r : Result DecodeError Message)
        → Unended c
        → BridgeEnds (on_read j host pgid c r)
    on_read-Ends c (ok m) h = rw on_message_sent h
    on_read-Ends c (err e) h = send_error-WellEnded c _ h

    on_frame-Ends :
        (c : Conn) (r : Result DecodeError Frame)
        → Unended c
        → BridgeEnds (on_frame j host pgid c r)
    on_frame-Ends c (ok f) h = on_read-Ends c (from_frame j f) h
    on_frame-Ends c (err e) h = send_error-WellEnded c _ h

    on_stopping-Unended : (c : Conn) → Unended c → Unended (on_stopping j host pgid c)
    unfolding on_stopping
    on_stopping-Unended c h =
        send-Unended (record c { stopping_open = false }) Message.server_stopping refl h

    gated-Ends :
        (gate : Bool) (q : Bridge) (c : Conn)
        → BridgeEnds q
        → Unended c
        → BridgeEnds (if gate then q else Bridge.going c)
    gated-Ends true q c hq h = hq
    gated-Ends false q c hq h = h

    bridge_step-Ends : (c : Conn) (e : Event) → Unended c → BridgeEnds (bridge_step j host pgid c e)
    unfolding bridge_step
    bridge_step-Ends c (Event.output (Chunk.out b)) h = after_send-Ends c (Message.stdout b) refl h
    bridge_step-Ends c (Event.output (Chunk.errs b)) h = after_send-Ends c (Message.stderr b) refl h
    bridge_step-Ends c Event.drained h = h
    bridge_step-Ends c (Event.frame r) h =
        gated-Ends c.client_writes_open (on_frame j host pgid c r) c (on_frame-Ends c r h) h
    bridge_step-Ends c Event.closed h =
        gated-Ends c.client_writes_open (Bridge.going (on_closed j host pgid c)) c h h
    bridge_step-Ends c Event.stopping h =
        gated-Ends c.stopping_open (Bridge.going (on_stopping j host pgid c)) c
          (on_stopping-Unended c h) h

    then_bridge-Ends :
        (next : Conn → Bridge) (q : Bridge)
        → ((c : Conn) → Unended c → BridgeEnds (next c))
        → BridgeEnds q
        → BridgeEnds (then_bridge j host pgid next q)
    then_bridge-Ends next (Bridge.going c) k h = k c h
    then_bridge-Ends next (Bridge.returned c b) k h = h

    pub bridge-Ends :
        (es : List Event) (c : Conn) → Unended c → BridgeEnds (bridge j host pgid es c)
    unfolding bridge
    bridge-Ends [] c h = h
    bridge-Ends (e ∷ es) c h =
        then_bridge-Ends (bridge j host pgid es) (bridge_step j host pgid c e)
          (λ t ht. bridge-Ends es t ht) (bridge_step-Ends c e h)
