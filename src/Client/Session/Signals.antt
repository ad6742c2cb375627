-- ===== src/Client/Session/Signals.antt =====
-- The signals that a session of src/client/mod.rs passes on.
use nix_capsule.Client.Session.{
  Terminal, Session, Event, Progress, going, send, or_same, on_message, on_read, on_chunk,
  on_sigint, on_sigterm, step, loop,
}
use nix_capsule.Client.Session.Typing.{going-injective, or_fail_sent}
use nix_capsule.Client.Session.Stdin.{send_appends}
use nix_capsule.Client.Session.Relay.{step-loop}
use nix_capsule.Protocol.Message.{Message, Json, from_frame}
use nix_capsule.Protocol.Message.Signalled.{signalled, signalled-append}
use nix_capsule.Protocol.Errors.{DecodeError}
use nix_capsule.Prelude.{
  if◌then◌else◌, All, Result, ok, err, Result-cases, Bytes, Str, ℕ, ◌≡◌, refl, sym, ap, ◌∙◌, subst,
  inl, inr, Bool, true, false, Option, none, some, List, [], ◌∷◌, ◌++◌, append-nil, append_assoc,
  arith,
}

-- SIGINT and SIGTERM as they come in.
abbrev pub pressed : List Event → List ℕ
pressed [] = []
pressed (Event.sigint true ∷ es) = 2 ∷ pressed es
pressed (Event.sigterm true ∷ es) = 15 ∷ pressed es
pressed (_ ∷ es) = pressed es

-- The event does not close a stream of signals.
abbrev pub KeepsStreams : Event → Type 0
KeepsStreams (Event.sigint b) = b ≡ true
KeepsStreams (Event.sigterm b) = b ≡ true
KeepsStreams _ = Unit

pressed-cons : (e : Event) (es : List Event) → pressed (e ∷ es) ≡ pressed (e ∷ []) ++ pressed es
pressed-cons (Event.frame r) es = refl
pressed-cons Event.closed es = refl
pressed-cons (Event.chunk c) es = refl
pressed-cons (Event.sigint true) es = refl
pressed-cons (Event.sigint false) es = refl
pressed-cons (Event.sigterm true) es = refl
pressed-cons (Event.sigterm false) es = refl

module _ (j : Json) (term : Terminal) (command : Str) where
  abbrev Streams : Session → Session → Type 0
  Streams s t = (t.sigint_open ≡ s.sigint_open) × (t.sigterm_open ≡ s.sigterm_open)

  abbrev Signals : Session → List ℕ → Session → Type 0
  Signals s numbers t = (signalled t.sent ≡ signalled s.sent ++ numbers) × Streams s t

  abbrev Silent : Session → Session → Type 0
  Silent s t = (t.sent ≡ s.sent) × Streams s t

  Silent-Signals : (s t : Session) → Silent s t → Signals s [] t
  Silent-Signals s t (sent, streams) =
      (ap signalled sent ∙ sym (append-nil (signalled s.sent)), streams)

  sent-Signals :
      (s t : Session) (m : Message)
      → t ≡ record s { sent = s.sent ++ m ∷ [] }
      → Signals s (signalled (m ∷ [])) t
  sent-Signals s t m same =
      subst (Signals s (signalled (m ∷ []))) (sym same)
        (signalled-append s.sent (m ∷ []), (refl, refl))

  going-Silent : (s t : Session) → going s ≡ going t → Silent s t
  going-Silent s t e = subst (Silent s) (going-injective e) (refl, (refl, refl))

  on_message-Silent :
      (s t : Session) (m : Message) → on_message j term command s m ≡ going t → Silent s t
  unfolding on_message
  on_message-Silent s t (Message.stdout b) e = ground arith
  on_message-Silent s t (Message.stderr b) e = ground arith
  on_message-Silent s t (Message.exit x) e = cc
  on_message-Silent s t (Message.error x) e = cc
  on_message-Silent s t Message.server_stopping e = cc
  on_message-Silent s t (Message.version x) e = going-Silent s t e
  on_message-Silent s t (Message.server_version x) e = going-Silent s t e
  on_message-Silent s t (Message.request x) e = going-Silent s t e
  on_message-Silent s t Message.request_version e = going-Silent s t e
  on_message-Silent s t (Message.stdin x) e = going-Silent s t e
  on_message-Silent s t (Message.signal x) e = going-Silent s t e

  on_read-Silent :
      (s t : Session) (r : Result DecodeError Message)
      → on_read j term command s r ≡ going t
      → Silent s t
  on_read-Silent s t (ok m) e = on_message-Silent s t m e
  on_read-Silent s t (err x) e = cc

  end-Signals :
      (s : Session)
      → Signals s [] (record (or_same j term command s (send j term command s (Message.stdin []))) {
        stdin_open = false;
      })
  end-Signals s = elim (Result-cases (send j term command s (Message.stdin []))) [
    | inl (t, et) ↦
        let (carried, streams) =
          sent-Signals s t (Message.stdin [])
            (send_appends j term command s t (Message.stdin []) et) in
        rw et (carried, streams)
    | inr (x, ex) ↦ rw ex (sym (append-nil (signalled s.sent)), (refl, refl))
  ]

  chunk-Signals :
      (s t : Session) (c : Option (Option Bytes))
      → on_chunk j term command s c ≡ going t
      → Signals s [] t
  unfolding on_chunk
  chunk-Signals s t (some (some b)) e =
      sent-Signals s t (Message.stdin b) (or_fail_sent j term command s t (Message.stdin b) e)
  chunk-Signals s t (some none) e = subst (Signals s []) (going-injective e) (end-Signals s)
  chunk-Signals s t none e = subst (Signals s []) (going-injective e) (end-Signals s)

  gated-Signals :
      (gate : Bool) (s t : Session) (numbers : List ℕ) (q : Progress)
      → (if gate then q else going s) ≡ going t
      → (q ≡ going t → Signals s numbers t)
      → (gate ≡ false → numbers ≡ [])
      → Signals s numbers t
  gated-Signals true s t numbers q e while_open when_shut = while_open e
  gated-Signals false s t numbers q e while_open when_shut =
      subst (λ numbers. Signals s numbers t) (sym (when_shut refl))
        (Silent-Signals s t (going-Silent s t e))

  step-Signals :
      (s t : Session) (e : Event)
      → s.sigint_open ≡ true
      → s.sigterm_open ≡ true
      → KeepsStreams e
      → step j term command s e ≡ going t
      → Signals s (pressed (e ∷ [])) t
  unfolding step on_sigint on_sigterm
  step-Signals s t (Event.frame (ok f)) int_on term_on keeps e =
      Silent-Signals s t (on_read-Silent s t (from_frame j f) e)
  step-Signals s t (Event.frame (err x)) int_on term_on keeps e = cc
  step-Signals s t Event.closed int_on term_on keeps e = cc
  step-Signals s t (Event.chunk c) int_on term_on keeps e =
      gated-Signals s.stdin_open s t [] _ e (chunk-Signals s t c) (λ shut. refl)
  step-Signals s t (Event.sigint true) int_on term_on keeps e =
      gated-Signals s.sigint_open s t (2 ∷ []) _ e
        (λ k. sent-Signals s t _ (or_fail_sent j term command s t _ k)) (λ shut. cc (int_on, shut))
  step-Signals s t (Event.sigterm true) int_on term_on keeps e =
      gated-Signals s.sigterm_open s t (15 ∷ []) _ e
        (λ k. sent-Signals s t _ (or_fail_sent j term command s t _ k)) (λ shut. cc (term_on, shut))
  step-Signals s t (Event.sigint false) int_on term_on keeps e = cc
  step-Signals s t (Event.sigterm false) int_on term_on keeps e = cc

  -- A session that goes on has sent on the signals that came, in order, while both streams of signals stay open.
  pub loop-signalled :
      (es : List Event) (s s' : Session)
      → All KeepsStreams es
      → s.sigint_open ≡ true
      → s.sigterm_open ≡ true
      → loop j term command es s ≡ going s'
      → signalled s'.sent ≡ signalled s.sent ++ pressed es
  loop-signalled [] s s' keeps int_on term_on e =
      (Silent-Signals s s' (going-Silent s s' (unfold loop in e))).0
  loop-signalled (ev ∷ es) s s' (keep, keeps) int_on term_on e =
      let (t, et, el) = step-loop j term command ev es s s' e in
      let (carried, (int, term_gate)) = step-Signals s t ev int_on term_on keep et in
      let rest = loop-signalled es t s' keeps (int ∙ int_on) (term_gate ∙ term_on) el in
      rest
      ∙ rw (carried, pressed-cons ev es)
          (append_assoc (signalled s.sent) (pressed (ev ∷ [])) (pressed es))
