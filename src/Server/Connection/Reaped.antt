-- ===== src/Server/Connection/Reaped.antt =====
-- The child of a connection of src/server.rs, through its bridge: signals and the wait.
use nix_capsule.Prelude.{
  if◌then◌else◌, Bool-cases, All, All-append, Result, ok, err, Result-cases, ℕ, ◌≡◌, refl, inl, inr,
  Bool, true, false, not, Option, none, some, List, [], ◌∷◌,
}
use nix_capsule.Prelude.Io.{IoError}
use nix_capsule.Protocol.Errors.{DecodeError}
use nix_capsule.Protocol.Codec.{Frame}
use nix_capsule.Protocol.Message.{Message, Json, from_frame}
use nix_capsule.Server.Rejection.{Rejection}
use nix_capsule.Server.Connection.State.{
  Host, Conn, Event, sigterm, message_of, send, send_error, failed_kill, signal_group, on_message,
}
use nix_capsule.Server.Connection.Loop.{
  Bridge, after_send, on_frame, on_closed, on_stopping, bridge_step, then_bridge, bridge,
}
use nix_capsule.Server.Connection.Ending.{send_cases}

-- No child was started, nobody was signalled.
pub record Childless (c : Conn) : Type 0 where
  pub spawned : c.spawned ≡ none
  pub reaped : c.reaped ≡ false
  pub kills : c.kills ≡ []

-- The child `pid` was started, is (or is not) reaped, and every signal went to its group.
pub record Owns (pid : ℕ) (over : Bool) (c : Conn) : Type 0 where
  pub spawned : c.spawned ≡ some pid
  pub reaped : c.reaped ≡ over
  pub kills : All (λ k. k.0 ≡ pid) c.kills

module _ (j : Json) (host : Host) where
  pub send-Childless : (c : Conn) (m : Message) → Childless c → Childless (send j host c m).0
  send-Childless c m h = elim (send_cases j host c m) [
    | inl e ↦ rw e (record { spawned = h.spawned; reaped = h.reaped; kills = h.kills })
    | inr e ↦ rw e h
  ]

  pub send-Owns :
      (pid : ℕ) (b : Bool) (c : Conn) (m : Message) → Owns pid b c → Owns pid b (send j host c m).0
  send-Owns pid b c m h = elim (send_cases j host c m) [
    | inl e ↦ rw e (record { spawned = h.spawned; reaped = h.reaped; kills = h.kills })
    | inr e ↦ rw e h
  ]

  pub send_error-Childless :
      (c : Conn) (r : Rejection) → Childless c → Childless (send_error j host r c)
  unfolding send_error
  send_error-Childless c r h = send-Childless c _ h

  pub send_error-Owns :
      (pid : ℕ) (b : Bool) (c : Conn) (r : Rejection)
      → Owns pid b c
      → Owns pid b (send_error j host r c)
  unfolding send_error
  send_error-Owns pid b c r h = send-Owns pid b c _ h

  module _ (pid : ℕ) where
    failed_kill-Owns :
        (b : Bool) (n : ℕ) (c : Conn) (o : Option IoError)
        → Owns pid b c
        → Owns pid b (failed_kill j host pid n c o)
    failed_kill-Owns b n c none h = h
    failed_kill-Owns b n c (some e) h = record {
      spawned = h.spawned;
      reaped = h.reaped;
      kills = h.kills;
    }

    pub signal_group-Owns :
        (b : Bool) (n : ℕ) (c : Conn) → Owns pid b c → Owns pid b (signal_group j host pid n c).0
    unfolding signal_group
    signal_group-Owns b n c h = record {
      spawned = h.spawned;
      reaped = h.reaped;
      kills = All-append (λ (k : ℕ × ℕ). k.0 ≡ pid) c.kills ((pid, n) ∷ []) h.kills (refl, tt);
    }

    on_message-Owns :
        (b : Bool) (c : Conn) (m : Message) → Owns pid b c → Owns pid b (on_message j host pid c m)
    unfolding on_message
    on_message-Owns b c (Message.stdin []) h = record {
      spawned = h.spawned;
      reaped = h.reaped;
      kills = h.kills;
    }
    on_message-Owns b c (Message.stdin (x ∷ xs)) h = elim (Bool-cases (not c.stdin_open)) [
      | inl shut ↦ rw shut h
      | inr still ↦ elim (Bool-cases (host.write_stdin c.stdin (x ∷ xs))) [
        | inl took ↦
            rw (still, took) (record { spawned = h.spawned; reaped = h.reaped; kills = h.kills })
        | inr lost ↦
            rw (still, lost) (record { spawned = h.spawned; reaped = h.reaped; kills = h.kills })
      ]
    ]
    on_message-Owns b c (Message.signal n) h =
        failed_kill-Owns b n.signal _ (host.kill c.kills pid n.signal)
          (signal_group-Owns b n.signal c h)
    on_message-Owns b c _ h = h

    abbrev pub BridgeOwns : Bridge → Type 0
    BridgeOwns (Bridge.going c) = Owns pid false c
    BridgeOwns (Bridge.returned c b) = Owns pid false c

    after_send-Owns :
        (c : Conn) (m : Message)
        → Owns pid false c
        → BridgeOwns (after_send j host pid (send j host c m))
    after_send-Owns c m h = elim (send_cases j host c m) [
      | inl e ↦ rw e (record { spawned = h.spawned; reaped = h.reaped; kills = h.kills })
      | inr e ↦ rw e h
    ]

    on_frame-Owns :
        (c : Conn) (r : Result DecodeError Frame)
        → Owns pid false c
        → BridgeOwns (on_frame j host pid c r)
    on_frame-Owns c (ok f) h = elim (Result-cases (from_frame j f)) [
      | inl (m, e) ↦ rw e (on_message-Owns false c m h)
      | inr (x, e) ↦ rw e (send_error-Owns pid false c _ h)
    ]
    on_frame-Owns c (err e) h = send_error-Owns pid false c _ h

    on_stopping-Owns : (c : Conn) → Owns pid false c → Owns pid false (on_stopping j host pid c)
    unfolding on_stopping signal_group
    on_stopping-Owns c h =
        let quiet : Owns pid false (record c { stopping_open = false }) = record {
          spawned = h.spawned;
          reaped = h.reaped;
          kills = h.kills;
        } in
        let termed =
          signal_group-Owns false sigterm _ (send-Owns pid false _ Message.server_stopping quiet) in
        record { spawned = termed.spawned; reaped = termed.reaped; kills = termed.kills }

    gated-Owns :
        (gate : Bool) (q : Bridge) (c : Conn)
        → BridgeOwns q
        → Owns pid false c
        → BridgeOwns (if gate then q else Bridge.going c)
    gated-Owns true q c hq h = hq
    gated-Owns false q c hq h = h

    bridge_step-Owns :
        (c : Conn) (e : Event) → Owns pid false c → BridgeOwns (bridge_step j host pid c e)
    unfolding bridge_step
    bridge_step-Owns c (Event.output chunk) h = after_send-Owns c (message_of chunk) h
    bridge_step-Owns c Event.drained h = h
    bridge_step-Owns c (Event.frame r) h =
        gated-Owns c.client_writes_open (on_frame j host pid c r) c (on_frame-Owns c r h) h
    bridge_step-Owns c Event.closed h =
        gated-Owns c.client_writes_open (Bridge.going (on_closed j host pid c)) c
          (record { spawned = h.spawned; reaped = h.reaped; kills = h.kills }) h
    bridge_step-Owns c Event.stopping h =
        gated-Owns c.stopping_open (Bridge.going (on_stopping j host pid c)) c
          (on_stopping-Owns c h) h

    then_bridge-Owns :
        (next : Conn → Bridge) (q : Bridge)
        → ((c : Conn) → Owns pid false c → BridgeOwns (next c))
        → BridgeOwns q
        → BridgeOwns (then_bridge j host pid next q)
    then_bridge-Owns next (Bridge.going c) k h = k c h
    then_bridge-Owns next (Bridge.returned c b) k h = h

    pub bridge-Owns :
        (es : List Event) (c : Conn) → Owns pid false c → BridgeOwns (bridge j host pid es c)
    unfolding bridge
    bridge-Owns [] c h = h
    bridge-Owns (e ∷ es) c h =
        then_bridge-Owns (bridge j host pid es) (bridge_step j host pid c e)
          (λ t ht. bridge-Owns es t ht) (bridge_step-Owns c e h)
