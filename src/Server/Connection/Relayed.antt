-- ===== src/Server/Connection/Relayed.antt =====
-- What the server of src/server.rs relays of a child: its output, and its status.
use nix_capsule.Server.Connection.Produced.{
  out_of, err_of, outs, errs_of, produced_out, produced_err, is_exit, exitless, outs-append,
  errs_of-append, exitless-append,
}
use nix_capsule.Protocol.Errors.{DecodeError}
use nix_capsule.Protocol.Codec.{Frame}
use nix_capsule.Prelude.{
  if◌then◌else◌, Result, ok, err, Bytes, ℕ, ◌≡◌, refl, sym, ap, ◌∙◌, inl, inr, Bool, true, false,
  List, [], ◌∷◌, ◌++◌, append-nil, append_assoc,
}
use nix_capsule.Protocol.Message.{Message, Json, from_frame}
use nix_capsule.Server.Connection.State.{
  Host, Conn, Chunk, Event, message_of, send, send_error, signal_group, on_message,
}
use nix_capsule.Server.Connection.Loop.{
  Bridge, after_send, on_read, on_frame, on_closed, on_stopping, bridge_step, then_bridge, bridge,
}
use nix_capsule.Server.Connection.Ending.{send_cases, on_message_sent}

module _ (j : Json) (host : Host) (pgid : ℕ) where
  abbrev pub Exitless : Conn → Type 0
  Exitless c = exitless c.sent ≡ true

  pub send-Exitless :
      (c : Conn) (m : Message) → is_exit m ≡ false → Exitless c → Exitless (send j host c m).0
  send-Exitless c m t h = elim (send_cases j host c m) [
    | inl e ↦ rw e (exitless-append c.sent m h t)
    | inr e ↦ rw e h
  ]

  -- What an event adds to the output.
  abbrev event_out : Event → Bytes
  event_out (Event.output (Chunk.out b)) = b
  event_out _ = []

  abbrev event_err : Event → Bytes
  event_err (Event.output (Chunk.errs b)) = b
  event_err _ = []

  abbrev goes_on : Event → Bool
  goes_on Event.drained = false
  goes_on _ = true

  produced_out-cons :
      (e : Event) (es : List Event)
      → goes_on e ≡ true
      → produced_out (e ∷ es) ≡ event_out e ++ produced_out es
  produced_out-cons (Event.output (Chunk.out b)) es h = refl
  produced_out-cons (Event.output (Chunk.errs b)) es h = refl
  produced_out-cons Event.drained es h = cc
  produced_out-cons (Event.frame r) es h = refl
  produced_out-cons Event.closed es h = refl
  produced_out-cons Event.stopping es h = refl

  produced_err-cons :
      (e : Event) (es : List Event)
      → goes_on e ≡ true
      → produced_err (e ∷ es) ≡ event_err e ++ produced_err es
  produced_err-cons (Event.output (Chunk.out b)) es h = refl
  produced_err-cons (Event.output (Chunk.errs b)) es h = refl
  produced_err-cons Event.drained es h = cc
  produced_err-cons (Event.frame r) es h = refl
  produced_err-cons Event.closed es h = refl
  produced_err-cons Event.stopping es h = refl

  abbrev Adds : Conn → Conn → Bytes → Bytes → Type 0
  Adds c c' out errs =
      (outs c'.sent ≡ outs c.sent ++ out) × (errs_of c'.sent ≡ errs_of c.sent ++ errs)

  Adds-same : (c c' : Conn) → c'.sent ≡ c.sent → Adds c c' [] []
  Adds-same c c' e = rw e (sym (append-nil (outs c.sent)), sym (append-nil (errs_of c.sent)))

  Adds-sent :
      (c : Conn) (m : Message) → Adds c (record c { sent = c.sent ++ m ∷ [] }) (out_of m) (err_of m)
  Adds-sent c m = (
    outs-append c.sent (m ∷ []) ∙ ap (λ t. outs c.sent ++ t) (append-nil (out_of m)),
    errs_of-append c.sent (m ∷ []) ∙ ap (λ t. errs_of c.sent ++ t) (append-nil (err_of m)),
  )

  -- A step of the bridge: it adds what the event produced, or ends.
  abbrev StepRelays : Conn → Event → Bridge → Type 0
  StepRelays c e (Bridge.going c') =
      Exitless c' × (goes_on e ≡ true) × Adds c c' (event_out e) (event_err e)
  StepRelays c e (Bridge.returned c' true) = Exitless c' × (e ≡ Event.drained) × (c'.sent ≡ c.sent)
  StepRelays c e (Bridge.returned c' false) = Exitless c'

  after_send-Relays :
      (c : Conn) (chunk : Chunk)
      → Exitless c
      → StepRelays c
          (Event.output chunk)
          (after_send j host pgid (send j host c (message_of chunk)))
  after_send-Relays c (Chunk.out b) h = elim (send_cases j host c (Message.stdout b)) [
    | inl e ↦
        rw e
          (exitless-append c.sent (Message.stdout b) h refl, refl, Adds-sent c (Message.stdout b))
    | inr e ↦ rw e h
  ]
  after_send-Relays c (Chunk.errs b) h = elim (send_cases j host c (Message.stderr b)) [
    | inl e ↦
        rw e
          (exitless-append c.sent (Message.stderr b) h refl, refl, Adds-sent c (Message.stderr b))
    | inr e ↦ rw e h
  ]

  read-Relays :
      (c : Conn) (r : Result DecodeError Message)
      → Exitless c
      → (e : Event) → goes_on e ≡ true
      → event_out e ≡ []
      → event_err e ≡ []
      → StepRelays c e (on_read j host pgid c r)
  unfolding send_error
  read-Relays c (ok m) h e on no_out no_err =
      let same = on_message_sent j host pgid c m in
      rw (no_out, no_err) (rw same h, on, Adds-same c (on_message j host pgid c m) same)
  read-Relays c (err x) h e on no_out no_err = send-Exitless c _ refl h

  frame-Relays :
      (c : Conn) (r : Result DecodeError Frame)
      → Exitless c
      → StepRelays c (Event.frame r) (on_frame j host pgid c r)
  unfolding send_error
  frame-Relays c (ok f) h = read-Relays c (from_frame j f) h (Event.frame (ok f)) refl refl refl
  frame-Relays c (err x) h = send-Exitless c _ refl h

  stopping-Relays :
      (c : Conn)
      → Exitless c
      → StepRelays c Event.stopping (Bridge.going (on_stopping j host pgid c))
  unfolding on_stopping signal_group
  stopping-Relays c h =
      elim (send_cases j host (record c { stopping_open = false }) Message.server_stopping) [
        | inl e ↦ rw e (
          exitless-append c.sent Message.server_stopping h refl,
          refl,
          Adds-sent c Message.server_stopping,
        )
        | inr e ↦ rw e (h, refl, Adds-same c c refl)
      ]

  gated-Relays :
      (gate : Bool) (q : Bridge) (c : Conn) (e : Event)
      → goes_on e ≡ true
      → event_out e ≡ []
      → event_err e ≡ []
      → Exitless c
      → StepRelays c e q
      → StepRelays c e (if gate then q else Bridge.going c)
  gated-Relays true q c e on no_out no_err h hq = hq
  gated-Relays false q c e on no_out no_err h hq = rw (no_out, no_err) (h, on, Adds-same c c refl)

  bridge_step-Relays :
      (c : Conn) (e : Event) → Exitless c → StepRelays c e (bridge_step j host pgid c e)
  unfolding bridge_step
  bridge_step-Relays c (Event.output chunk) h = after_send-Relays c chunk h
  bridge_step-Relays c Event.drained h = (h, refl, refl)
  bridge_step-Relays c (Event.frame r) h =
      gated-Relays c.client_writes_open _ c (Event.frame r) refl refl refl h (frame-Relays c r h)
  bridge_step-Relays c Event.closed h =
      gated-Relays c.client_writes_open (Bridge.going (on_closed j host pgid c)) c Event.closed refl
        refl refl h (h, refl, Adds-same c (on_closed j host pgid c) refl)
  bridge_step-Relays c Event.stopping h =
      gated-Relays c.stopping_open _ c Event.stopping refl refl refl h (stopping-Relays c h)

  -- The bridge relayed the events: `before` is what was sent before them.
  abbrev pub Relayed : List Event → List Message → Bridge → Type 0
  Relayed es before (Bridge.going c) = Exitless c
  Relayed es before (Bridge.returned c false) = Exitless c
  Relayed es before (Bridge.returned c true) =
      Exitless c
      × (outs c.sent ≡ outs before ++ produced_out es)
      × (errs_of c.sent ≡ errs_of before ++ produced_err es)

  abbrev After : List Message → List Message → Bytes → Bytes → Type 0
  After before now out errs =
      (outs now ≡ outs before ++ out) × (errs_of now ≡ errs_of before ++ errs)

  -- What is relayed behind a step that added its own.
  relay_from :
      (e : Event) (es : List Event) (before mid : List Message) (q : Bridge)
      → goes_on e ≡ true
      → After before mid (event_out e) (event_err e)
      → Relayed es mid q
      → Relayed (e ∷ es) before q
  relay_from e es before mid (Bridge.going c) on (out, errs) h = h
  relay_from e es before mid (Bridge.returned c false) on (out, errs) h = h
  relay_from e es before mid (Bridge.returned c true) on (out, errs) (h, all_out, all_err) = (
    h,
    all_out
        ∙ rw (out, produced_out-cons e es on)
            (append_assoc (outs before) (event_out e) (produced_out es)),
    all_err
        ∙ rw (errs, produced_err-cons e es on)
            (append_assoc (errs_of before) (event_err e) (produced_err es)),
  )

  then-Relayed :
      (e : Event) (es : List Event) (c : Conn) (q : Bridge)
      → ((t : Conn) → Exitless t → Relayed es t.sent (bridge j host pgid es t))
      → StepRelays c e q
      → Relayed (e ∷ es) c.sent (then_bridge j host pgid (bridge j host pgid es) q)
  then-Relayed e es c (Bridge.going t) later (h, on, adds) =
      relay_from e es c.sent t.sent _ on adds (later t h)
  then-Relayed e es c (Bridge.returned t true) later (h, ends, same) =
      rw (ends, same)
        (rw (← same) h, sym (append-nil (outs c.sent)), sym (append-nil (errs_of c.sent)))
  then-Relayed e es c (Bridge.returned t false) later h = h

  pub bridge-Relayed :
      (es : List Event) (c : Conn) → Exitless c → Relayed es c.sent (bridge j host pgid es c)
  unfolding bridge
  bridge-Relayed [] c h = h
  bridge-Relayed (e ∷ es) c h =
      then-Relayed e es c (bridge_step j host pgid c e) (bridge-Relayed es)
        (bridge_step-Relays c e h)
