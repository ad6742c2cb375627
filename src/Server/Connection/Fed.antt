-- ===== src/Server/Connection/Fed.antt =====
-- The stdin that the bridge of src/server.rs writes to the child.
use nix_capsule.Prelude.{
  if◌then◌else◌, Bool-cases, ok, Bytes, ℕ, ◌≡◌, refl, sym, ap, ◌∙◌, subst, ◌⊎◌, inl, inr, Bool,
  true, false, Option, none, some, List, [], ◌∷◌, ◌++◌, append-nil, append_assoc,
}
use nix_capsule.Prelude.Io.{IoError}
use nix_capsule.Protocol.Message.{Message, Json, JsonReadsBack, into_frame, from_frame}
use nix_capsule.Protocol.Message.Typed.{typed}
use nix_capsule.Protocol.Codec.{Frame}
use nix_capsule.Protocol.Message.RoundTrip.{from_frame-into_frame}
use nix_capsule.Server.Connection.State.{
  Host, Conn, Chunk, Event, message_of, send, failed_kill, signal_group, write_child, on_signal,
  on_message,
}
use nix_capsule.Server.Connection.Loop.{
  Bridge, after_send, on_read, on_frame, on_stopping, bridge_step, bridge,
}
use nix_capsule.Server.Connection.Ending.{send_cases}

-- The messages reach the bridge as frames, in order; the child's output and the shutdown come between them
-- in any order.
pub data Receives (j : Json) : List Event → List Message → Type 0 where
  none_left : Receives j [] []
  arrival :
      {es : List Event} {ms : List Message} (f : Frame) (m : Message)
      → into_frame j m ≡ ok f
      → Receives j es ms
      → Receives j (Event.frame (ok f) ∷ es) (m ∷ ms)
  produced :
      {es : List Event} {ms : List Message} (chunk : Chunk)
      → Receives j es ms
      → Receives j (Event.output chunk ∷ es) ms
  stopped :
      {es : List Event} {ms : List Message} → Receives j es ms → Receives j (Event.stopping ∷ es) ms

-- What is still to be written, if the child's stdin is open.
abbrev given : Bool → Bytes → Bytes
given true b = b
given false b = []

given_nil : (gate : Bool) → given gate [] ≡ []
given_nil true = refl
given_nil false = refl

Bridge-cases :
    (q : Bridge)
    → ((c : Conn) × (q ≡ Bridge.going c)) ⊎ ((c : Conn) × (b : Bool) × (q ≡ Bridge.returned c b))
Bridge-cases (Bridge.going c) = inl (c, refl)
Bridge-cases (Bridge.returned c b) = inr (c, b, refl)

pub behind_gate :
    (gate : Bool) (q r : Bridge) (t : Conn)
    → gate ≡ true
    → (if gate then q else r) ≡ Bridge.going t
    → q ≡ Bridge.going t
behind_gate true q r t h e = e
behind_gate false q r t h e = cc

pub going-injective : {c t : Conn} → Bridge.going c ≡ Bridge.going t → c ≡ t
going-injective e = cc

module _ (j : Json) (host : Host) (pgid : ℕ) where
  pub step-bridge :
      (e : Event) (es : List Event) (c c' : Conn)
      → bridge j host pgid (e ∷ es) c ≡ Bridge.going c'
      → (t : Conn) × (bridge_step j host pgid c e ≡ Bridge.going t)
        × (bridge j host pgid es t ≡ Bridge.going c')
  unfolding bridge
  step-bridge e es c c' k = elim (Bridge-cases (bridge_step j host pgid c e)) [
    | inl (t, et) ↦ (t, et, rw et at k)
    | inr (t, b, et) ↦ absurd (cc (rw et at k))
  ]

  module _ (writes : (before b : Bytes) → host.write_stdin before b ≡ true) where
    -- The child's stdin, with what `ms` would still add to it.
    abbrev Total : Conn → List Message → Bytes
    Total c ms = c.stdin ++ given c.stdin_open (typed ms)

    -- A step takes the messages `front` off what is to come.
    abbrev Feeds : Conn → List Message → Conn → Type 0
    Feeds c front t =
        (t.client_writes_open ≡ c.client_writes_open)
        × ((later : List Message) → Total t later ≡ Total c (front ++ later))

    abbrev Untouched : Conn → Conn → Type 0
    Untouched c t =
        (t.client_writes_open ≡ c.client_writes_open)
        × (t.stdin ≡ c.stdin)
        × (t.stdin_open ≡ c.stdin_open)

    Untouched-Feeds : (c t : Conn) → Untouched c t → Feeds c [] t
    Untouched-Feeds c t (still, stdin, gate) = (still, λ later. rw (stdin, gate) refl)

    send-Untouched : (c : Conn) (m : Message) → Untouched c (send j host c m).0
    send-Untouched c m = elim (send_cases j host c m) [
      | inl e ↦ rw e (refl, refl, refl)
      | inr e ↦ rw e (refl, refl, refl)
    ]

    sent-Untouched :
        (c t : Conn) (m : Message)
        → after_send j host pgid (send j host c m) ≡ Bridge.going t
        → Untouched c t
    sent-Untouched c t m e = elim (send_cases j host c m) [
      | inl k ↦ rw (← going-injective (rw k at e)) (refl, refl, refl)
      | inr k ↦ absurd (cc (rw k at e))
    ]

    on_stopping-Untouched : (c : Conn) → Untouched c (on_stopping j host pgid c)
    unfolding on_stopping signal_group
    on_stopping-Untouched c =
        send-Untouched (record c { stopping_open = false }) Message.server_stopping

    failed_kill-Untouched :
        (c : Conn) (signal : ℕ) (o : Option IoError)
        → Untouched c (failed_kill j host pgid signal c o)
    failed_kill-Untouched c signal none = (refl, refl, refl)
    failed_kill-Untouched c signal (some e) = (refl, refl, refl)

    on_signal-Untouched : (c : Conn) (signal : ℕ) → Untouched c (on_signal j host pgid signal c)
    unfolding on_signal signal_group
    on_signal-Untouched c signal =
        failed_kill-Untouched (record c { kills = c.kills ++ (pgid, signal) ∷ [] }) signal
          (host.kill c.kills pgid signal)

    write_child-Feeds :
        (c : Conn) (b : Bytes) → Feeds c (Message.stdin b ∷ []) (write_child j host c b)
    unfolding write_child
    write_child-Feeds c [] = (refl, λ later. rw (given_nil c.stdin_open) refl)
    write_child-Feeds c (b ∷ bs) = elim (Bool-cases c.stdin_open) [
      | inl open_in ↦
          rw (open_in, writes) (refl, λ later. append_assoc c.stdin (b ∷ bs) (typed later))
      | inr shut ↦ rw shut (refl, λ later. refl)
    ]

    on_message-Feeds : (c : Conn) (m : Message) → Feeds c (m ∷ []) (on_message j host pgid c m)
    unfolding on_message
    on_message-Feeds c (Message.stdin b) = write_child-Feeds c b
    on_message-Feeds c (Message.signal n) =
        Untouched-Feeds c (on_signal j host pgid n.signal c) (on_signal-Untouched c n.signal)
    on_message-Feeds c _ = (refl, λ later. refl)

    step-Feeds :
        (c t : Conn) (f : Frame) (m : Message)
        → from_frame j f ≡ ok m
        → c.client_writes_open ≡ true
        → bridge_step j host pgid c (Event.frame (ok f)) ≡ Bridge.going t
        → Feeds c (m ∷ []) t
    unfolding bridge_step
    step-Feeds c t f m read still e =
        let framed_now : on_frame j host pgid c (ok f) ≡ Bridge.going t =
          behind_gate c.client_writes_open (on_frame j host pgid c (ok f)) (Bridge.going c) t still
            e in
        let read_now : on_read j host pgid c (ok m) ≡ Bridge.going t =
          ap (on_read j host pgid c) (sym read) ∙ framed_now in
        subst (Feeds c (m ∷ [])) (going-injective read_now) (on_message-Feeds c m)

    stopping-Untouched :
        (c t : Conn) → bridge_step j host pgid c Event.stopping ≡ Bridge.going t → Untouched c t
    unfolding bridge_step
    stopping-Untouched c t e = elim (Bool-cases c.stopping_open) [
      | inl first ↦ subst (Untouched c) (going-injective (rw first at e)) (on_stopping-Untouched c)
      | inr again ↦ subst (Untouched c) (going-injective (rw again at e)) (refl, refl, refl)
    ]

    output-Untouched :
        (c t : Conn) (chunk : Chunk)
        → bridge_step j host pgid c (Event.output chunk) ≡ Bridge.going t
        → Untouched c t
    unfolding bridge_step
    output-Untouched c t chunk e = sent-Untouched c t (message_of chunk) e

    bridge_totals :
        (reads : JsonReadsBack j) (es : List Event) (ms : List Message) (c c' : Conn)
        → Receives j es ms
        → c.client_writes_open ≡ true
        → bridge j host pgid es c ≡ Bridge.going c'
        → c'.stdin ≡ Total c ms
    bridge_totals reads [] [] c c' Receives.none_left still e =
        let ended : Bridge.going c ≡ Bridge.going c' = unfold bridge in e in
        let same = going-injective ended in
        ap (λ (c : Conn). c.stdin) (sym same)
        ∙ rw (given_nil c.stdin_open) (sym (append-nil c.stdin))
    bridge_totals reads [] (m ∷ ms) c c' r still e = elim r [ ]
    bridge_totals reads (ev ∷ es) (m ∷ ms) c c' (Receives.arrival f n in_frame rest) still e =
        let (t, et, el) = step-bridge ev es c c' e in
        let (kept, total) =
          step-Feeds c t f m (from_frame-into_frame j reads m f in_frame) still et in
        bridge_totals reads es ms t c' rest (kept ∙ still) el ∙ total ms
    bridge_totals reads (ev ∷ es) ms c c' (Receives.produced chunk rest) still e =
        let (t, et, el) = step-bridge ev es c c' e in
        let (kept, total) = Untouched-Feeds c t (output-Untouched c t chunk et) in
        bridge_totals reads es ms t c' rest (kept ∙ still) el ∙ total ms
    bridge_totals reads (ev ∷ es) ms c c' (Receives.stopped rest) still e =
        let (t, et, el) = step-bridge ev es c c' e in
        let (kept, total) = Untouched-Feeds c t (stopping-Untouched c t et) in
        bridge_totals reads es ms t c' rest (kept ∙ still) el ∙ total ms

-- While the bridge goes on and every write to the child succeeds, the child's stdin has got exactly the
-- `Stdin` payloads of the messages that arrived, up to the empty one, in order.
pub bridge_feeds :
    (j : Json) (host : Host) (pgid : ℕ)
    → JsonReadsBack j
    → ((before b : Bytes) → host.write_stdin before b ≡ true)
    → (es : List Event) (ms : List Message) (c c' : Conn) → Receives j es ms
    → c.client_writes_open ≡ true
    → c.stdin_open ≡ true
    → bridge j host pgid es c ≡ Bridge.going c'
    → c'.stdin ≡ c.stdin ++ typed ms
bridge_feeds j host pgid reads writes es ms c c' received still open_in e =
    bridge_totals j host pgid writes reads es ms c c' received still e ∙ rw open_in refl
