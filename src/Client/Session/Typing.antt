-- ===== src/Client/Session/Typing.antt =====
-- The stdin that a session of src/client/mod.rs sends on.
use nix_capsule.Prelude.{
  if◌then◌else◌, All, Result, ok, err, Result-cases, Bytes, Str, ◌≡◌, refl, sym, ap, ◌∙◌, subst,
  inl, inr, Bool, true, false, Option, none, some, List, [], ◌∷◌, ◌++◌, append-nil, append_assoc,
  arith,
}
use nix_capsule.Protocol.Message.{SignalMsg, Message, Json, from_frame}
use nix_capsule.Protocol.Message.Typed.{typed}
use nix_capsule.Protocol.Errors.{DecodeError}
use nix_capsule.Client.Session.{
  Terminal, Session, Event, Progress, going, send, or_fail, or_same, on_message, on_read, on_chunk,
  on_sigint, on_sigterm, step, loop,
}
use nix_capsule.Client.Session.Relay.{step-loop}
use nix_capsule.Client.Session.Stdin.{HoldsByte, send_appends}

-- The chunks that the loop takes until the end of stdin.
abbrev pub chunks : List Event → Bytes
chunks [] = []
chunks (Event.chunk (some (some b)) ∷ es) = b ++ chunks es
chunks (Event.chunk (some none) ∷ es) = []
chunks (Event.chunk none ∷ es) = []
chunks (_ ∷ es) = chunks es

abbrev taken : Bool → List Event → Bytes
taken true es = chunks es
taken false es = []

taken_nil : (gate : Bool) → taken gate [] ≡ []
taken_nil true = refl
taken_nil false = refl

taken_chunk :
    (gate : Bool) (e : Event) (es : List Event)
    → chunks (e ∷ es) ≡ chunks es
    → taken gate (e ∷ es) ≡ taken gate es
taken_chunk true e es h = h
taken_chunk false e es h = refl

pub going-injective : {s t : Session} → going s ≡ going t → s ≡ t
going-injective e = cc

-- A branch that is closed changes nothing else.
signal_closed :
    (s t r : Session)
    → going r ≡ going t
    → r.sent ≡ s.sent
    → r.stdin_open ≡ s.stdin_open
    → (t.sent ≡ s.sent) × (t.stdin_open ≡ s.stdin_open)
signal_closed s t r e sent gate = rw (← going-injective e) (sent, gate)

module _ (j : Json) (term : Terminal) (command : Str) where
  -- One step sent messages, and they carry the event's chunk: whatever is sent behind them.
  abbrev Passes : Session → Event → Session → Type 0
  Passes s e t =
      (ms : List Message) × (t.sent ≡ s.sent ++ ms)
      × ((es : List Event) (later : List Message)
          → typed later ≡ taken t.stdin_open es
          → typed (ms ++ later) ≡ taken s.stdin_open (e ∷ es))

  quiet-Passes :
      (s t : Session) (e : Event)
      → t.sent ≡ s.sent
      → t.stdin_open ≡ s.stdin_open
      → ((es : List Event) → chunks (e ∷ es) ≡ chunks es)
      → Passes s e t
  quiet-Passes s t e sent gate none_read = (
    [],
    sent ∙ sym (append-nil s.sent),
    λ es later h. h ∙ rw gate (sym (taken_chunk s.stdin_open e es (none_read es))),
  )

  signal-Passes :
      (s t : Session) (e : Event) (n : SignalMsg)
      → t ≡ record s { sent = s.sent ++ Message.signal n ∷ [] }
      → ((es : List Event) → chunks (e ∷ es) ≡ chunks es)
      → Passes s e t
  signal-Passes s t e n same none_read = (
    Message.signal n ∷ [],
    ap (λ (t : Session). t.sent) same,
    λ es later h.
        h
        ∙ ap (λ (t : Session). taken t.stdin_open es) same
        ∙ sym (taken_chunk s.stdin_open e es (none_read es)),
  )

  abbrev Quiet : Session → Session → Type 0
  Quiet s t = (t.sent ≡ s.sent) × (t.stdin_open ≡ s.stdin_open)

  going-Quiet : (s t : Session) → going s ≡ going t → Quiet s t
  going-Quiet s t e = ground arith

  on_message-Quiet :
      (s t : Session) (m : Message) → on_message j term command s m ≡ going t → Quiet s t
  unfolding on_message
  on_message-Quiet s t (Message.stdout b) e = ground arith
  on_message-Quiet s t (Message.stderr b) e = ground arith
  on_message-Quiet s t (Message.exit x) e = cc
  on_message-Quiet s t (Message.error x) e = cc
  on_message-Quiet s t Message.server_stopping e = cc
  on_message-Quiet s t (Message.version x) e = going-Quiet s t e
  on_message-Quiet s t (Message.server_version x) e = going-Quiet s t e
  on_message-Quiet s t (Message.request x) e = going-Quiet s t e
  on_message-Quiet s t Message.request_version e = going-Quiet s t e
  on_message-Quiet s t (Message.stdin x) e = going-Quiet s t e
  on_message-Quiet s t (Message.signal x) e = going-Quiet s t e

  on_read-Quiet :
      (s t : Session) (r : Result DecodeError Message)
      → on_read j term command s r ≡ going t
      → Quiet s t
  on_read-Quiet s t (ok m) e = on_message-Quiet s t m e
  on_read-Quiet s t (err x) e = cc

  -- A message is sent, or the loop ends.
  pub or_fail_sent :
      (s t : Session) (m : Message)
      → or_fail j term command s (send j term command s m) ≡ going t
      → t ≡ record s { sent = s.sent ++ m ∷ [] }
  or_fail_sent s t m e = elim (Result-cases (send j term command s m)) [
    | inl (t', et) ↦
        let same : t' ≡ t = going-injective (rw et at e) in
        sym same ∙ send_appends j term command s t' m et
    | inr (x, ex) ↦ absurd (cc (rw ex at e))
  ]

  end-Passes :
      (s : Session) (c : Option (Option Bytes))
      → s.stdin_open ≡ true
      → ((es : List Event) → chunks (Event.chunk c ∷ es) ≡ [])
      → Passes s
          (Event.chunk c)
          (record (or_same j term command s (send j term command s (Message.stdin []))) {
            stdin_open = false;
          })
  end-Passes s c opened none_read = elim (Result-cases (send j term command s (Message.stdin []))) [
    | inl (t, et) ↦ rw et (
      Message.stdin [] ∷ [],
      ap (λ (t : Session). t.sent) (send_appends j term command s t (Message.stdin []) et),
      λ es later h. rw opened (sym (none_read es)),
    )
    | inr (x, ex) ↦
        rw ex ([], sym (append-nil s.sent), λ es later h. h ∙ rw opened (sym (none_read es)))
  ]

  -- The chunks that come from `pump_stdin` hold a byte.
  chunk-Passes :
      (s t : Session) (c : Option (Option Bytes))
      → s.stdin_open ≡ true
      → HoldsByte (Event.chunk c)
      → on_chunk j term command s c ≡ going t
      → Passes s (Event.chunk c) t
  unfolding on_chunk
  chunk-Passes s t (some (some [])) opened byte e = cc
  chunk-Passes s t (some (some (b ∷ bs))) opened byte e =
      let same = or_fail_sent s t (Message.stdin (b ∷ bs)) e in
      (
        Message.stdin (b ∷ bs) ∷ [],
        ap (λ (t : Session). t.sent) same,
        λ es later h.
            let still : t.stdin_open ≡ true = ap (λ (t : Session). t.stdin_open) same ∙ opened in
            rw opened (ap (λ u. b ∷ bs ++ u) (h ∙ rw still refl)),
      )
  chunk-Passes s t (some none) opened byte e =
      subst (Passes s (Event.chunk (some none))) (going-injective e)
        (end-Passes s (some none) opened (λ es. refl))
  chunk-Passes s t none opened byte e =
      subst (Passes s (Event.chunk none)) (going-injective e)
        (end-Passes s none opened (λ es. refl))

  sigint-Passes :
      (s t : Session) (b : Bool)
      → on_sigint j term command s b ≡ going t
      → Passes s (Event.sigint b) t
  unfolding on_sigint
  sigint-Passes s t true e =
      signal-Passes s t (Event.sigint true) _ (or_fail_sent s t _ e) (λ es. refl)
  sigint-Passes s t false e =
      let (sent, gate) = signal_closed s t _ e refl refl in
      quiet-Passes s t (Event.sigint false) sent gate (λ es. refl)

  sigterm-Passes :
      (s t : Session) (b : Bool)
      → on_sigterm j term command s b ≡ going t
      → Passes s (Event.sigterm b) t
  unfolding on_sigterm
  sigterm-Passes s t true e =
      signal-Passes s t (Event.sigterm true) _ (or_fail_sent s t _ e) (λ es. refl)
  sigterm-Passes s t false e =
      let (sent, gate) = signal_closed s t _ e refl refl in
      quiet-Passes s t (Event.sigterm false) sent gate (λ es. refl)

  gated-Passes :
      (gate : Bool) (s t : Session) (e : Event) (q : Progress)
      → (if gate then q else going s) ≡ going t
      → (gate ≡ true → q ≡ going t → Passes s e t)
      → (gate ≡ false → (es : List Event) → taken s.stdin_open (e ∷ es) ≡ taken s.stdin_open es)
      → Passes s e t
  gated-Passes true s t e q h while_open when_shut = while_open refl h
  gated-Passes false s t e q h while_open when_shut =
      let (sent, gate) = going-Quiet s t h in
      ([], sent ∙ sym (append-nil s.sent), λ es later k. k ∙ rw gate (sym (when_shut refl es)))

  step-Passes :
      (s t : Session) (e : Event) → HoldsByte e → step j term command s e ≡ going t → Passes s e t
  unfolding step
  step-Passes s t (Event.frame (ok f)) byte e =
      let (sent, gate) = on_read-Quiet s t (from_frame j f) e in
      quiet-Passes s t (Event.frame (ok f)) sent gate (λ es. refl)
  step-Passes s t (Event.frame (err x)) byte e = cc
  step-Passes s t Event.closed byte e = cc
  step-Passes s t (Event.chunk c) byte e =
      gated-Passes s.stdin_open s t (Event.chunk c) _ e (λ opened. chunk-Passes s t c opened byte)
        (λ shut es. rw shut refl)
  step-Passes s t (Event.sigint b) byte e =
      gated-Passes s.sigint_open s t (Event.sigint b) _ e (λ _. sigint-Passes s t b)
        (λ shut es. taken_chunk s.stdin_open (Event.sigint b) es refl)
  step-Passes s t (Event.sigterm b) byte e =
      gated-Passes s.sigterm_open s t (Event.sigterm b) _ e (λ _. sigterm-Passes s t b)
        (λ shut es. taken_chunk s.stdin_open (Event.sigterm b) es refl)

  loop_types_from :
      (es : List Event) (s s' : Session)
      → All HoldsByte es
      → loop j term command es s ≡ going s'
      → (ms : List Message) × (s'.sent ≡ s.sent ++ ms) × (typed ms ≡ taken s.stdin_open es)
  loop_types_from [] s s' bytes e =
      let (sent, gate) = going-Quiet s s' (unfold loop in e) in
      ([], sent ∙ sym (append-nil s.sent), sym (taken_nil s.stdin_open))
  loop_types_from (ev ∷ es) s s' (byte, bytes) e =
      let (t, et, el) = step-loop j term command ev es s s' e in
      let (front, sent, passes) = step-Passes s t ev byte et in
      let (back, sent', rest) = loop_types_from es t s' bytes el in
      (front ++ back, sent' ∙ rw sent (append_assoc s.sent front back), passes es back rest)

-- A session that goes on and whose chunks each hold a byte has sent messages whose `Stdin` payloads, up to
-- the empty one, are exactly the chunks it took until the end of its stdin, in order, whatever arrives
-- and whatever signals come between them.
pub loop_types :
    (j : Json) (term : Terminal) (command : Str) (es : List Event) (s s' : Session)
    → All HoldsByte es
    → s.stdin_open ≡ true
    → loop j term command es s ≡ going s'
    → (ms : List Message) × (s'.sent ≡ s.sent ++ ms) × (typed ms ≡ chunks es)
loop_types j term command es s s' bytes opened e =
    let (ms, sent, same) = loop_types_from j term command es s s' bytes e in
    (ms, sent, same ∙ rw opened refl)
