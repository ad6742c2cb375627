-- ===== src/Client/Session/Relay.antt =====
-- What a session of src/client/mod.rs prints and how it ends.
use nix_capsule.Prelude.{
  if◌then◌else◌, Result, ok, err, Result-cases, >>=-eq-ok, Bytes, Str, ◌≡◌, refl, sym, ◌∙◌, ◌⊎◌,
  inl, inr, Bool, true, false, Option, none, some, List, [], ◌∷◌, ◌++◌, append-nil, append_assoc,
  arith,
}
use nix_capsule.Protocol.Errors.{DecodeError}
use nix_capsule.Protocol.Codec.{Frame, encode}
use nix_capsule.Protocol.Message.{Message, Json, into_frame, from_frame}
use nix_capsule.Client.Errors.{ClientError}
use nix_capsule.Client.Status.{Outcome, just, shutdown_exit, exit_outcome}
use nix_capsule.Client.Session.{
  Terminal, Session, Event, Progress, going, finished, send, or_fail, or_same, on_message, on_read,
  on_chunk, on_sigint, on_sigterm, step, loop,
}

-- The payload of a `Stdout` message, and of a `Stderr` message.
abbrev pub out_bytes : Result DecodeError Message → Bytes
out_bytes (ok (Message.stdout b)) = b
out_bytes _ = []

abbrev pub err_bytes : Result DecodeError Message → Bytes
err_bytes (ok (Message.stderr b)) = b
err_bytes _ = []

-- How a message ends the session, if it is one that does.
abbrev pub ending : Str → Message → Option (Result ClientError Outcome)
ending command (Message.exit x) = some (exit_outcome x command)
ending command (Message.error e) = some (err (ClientError.server_error e.message))
ending command Message.server_stopping = some (ok (just shutdown_exit))
ending command _ = none

pub Progress-cases :
    (q : Progress)
    → ((s : Session) × (q ≡ going s))
      ⊎ ((s : Session) × (r : Result ClientError Outcome) × (q ≡ finished s r))
Progress-cases (going s) = inl (s, refl)
Progress-cases (finished s r) = inr (s, r, refl)

module _ (j : Json) (term : Terminal) (command : Str) where
  -- The bytes of all `Stdout` frames, and of all `Stderr` frames, in order of arrival.
  unfoldable pub arrived_out : List Event → Bytes
  arrived_out [] = []
  arrived_out (Event.frame (ok f) ∷ es) = out_bytes (from_frame j f) ++ arrived_out es
  arrived_out (e ∷ es) = arrived_out es

  unfoldable pub arrived_err : List Event → Bytes
  arrived_err [] = []
  arrived_err (Event.frame (ok f) ∷ es) = err_bytes (from_frame j f) ++ arrived_err es
  arrived_err (e ∷ es) = arrived_err es

  abbrev pub Printed : Session → Session → Bytes → Bytes → Type 0
  Printed s s' out errs = (s'.stdout ≡ s.stdout ++ out) × (s'.stderr ≡ s.stderr ++ errs)

  Printed-none : (s : Session) → Printed s s [] []
  Printed-none s = (sym (append-nil s.stdout), sym (append-nil s.stderr))

  Printed-going : (s s' t : Session) → Printed s t [] [] → going t ≡ going s' → Printed s s' [] []
  Printed-going s s' t h e = ground arith

  on_message_prints :
      (s s' : Session) (m : Message)
      → on_message j term command s m ≡ going s'
      → Printed s s' (out_bytes (ok m)) (err_bytes (ok m))
  unfolding on_message
  on_message_prints s s' (Message.stdout b) e = ground (arith, append-nil s.stderr)
  on_message_prints s s' (Message.stderr b) e = ground (arith, append-nil s.stdout)
  on_message_prints s s' (Message.exit x) e = cc
  on_message_prints s s' (Message.error x) e = cc
  on_message_prints s s' Message.server_stopping e = cc
  on_message_prints s s' (Message.version x) e = Printed-going s s' s (Printed-none s) e
  on_message_prints s s' (Message.server_version x) e = Printed-going s s' s (Printed-none s) e
  on_message_prints s s' (Message.request x) e = Printed-going s s' s (Printed-none s) e
  on_message_prints s s' Message.request_version e = Printed-going s s' s (Printed-none s) e
  on_message_prints s s' (Message.stdin x) e = Printed-going s s' s (Printed-none s) e
  on_message_prints s s' (Message.signal x) e = Printed-going s s' s (Printed-none s) e

  -- Sending prints nothing.
  send_keeps :
      (s t : Session) (m : Message)
      → send j term command s m ≡ ok t
      → (t.stdout ≡ s.stdout) × (t.stderr ≡ s.stderr)
  unfolding send
  send_keeps s t m e =
      let (f, ef, e') = >>=-eq-ok (into_frame j m) _ e in
      let (o, eo, e'') = >>=-eq-ok (encode f []) _ e' in ground arith

  or_fail_keeps :
      (s s' : Session) (m : Message)
      → or_fail j term command s (send j term command s m) ≡ going s'
      → Printed s s' [] []
  or_fail_keeps s s' m e = elim (Result-cases (send j term command s m)) [
    | inl (t, et) ↦ ground (arith, send_keeps s t m et, append-nil s.stdout, append-nil s.stderr)
    | inr (x, ex) ↦ absurd (cc (rw ex at e))
  ]

  or_same_keeps :
      (s : Session) (m : Message)
      → let t = or_same j term command s (send j term command s m) in
        (t.stdout ≡ s.stdout) × (t.stderr ≡ s.stderr)
  or_same_keeps s m = elim (Result-cases (send j term command s m)) [
    | inl (t, et) ↦ rw et (send_keeps s t m et)
    | inr (x, ex) ↦ rw ex (refl, refl)
  ]

  on_chunk_keeps :
      (s s' : Session) (c : Option (Option Bytes))
      → on_chunk j term command s c ≡ going s'
      → Printed s s' [] []
  unfolding on_chunk
  on_chunk_keeps s s' (some (some b)) e = or_fail_keeps s s' (Message.stdin b) e
  on_chunk_keeps s s' (some none) e =
      ground (arith, or_same_keeps s (Message.stdin []), append-nil s.stdout, append-nil s.stderr)
  on_chunk_keeps s s' none e =
      ground (arith, or_same_keeps s (Message.stdin []), append-nil s.stdout, append-nil s.stderr)

  on_sigint_keeps :
      (s s' : Session) (b : Bool) → on_sigint j term command s b ≡ going s' → Printed s s' [] []
  unfolding on_sigint
  on_sigint_keeps s s' true e = or_fail_keeps s s' _ e
  on_sigint_keeps s s' false e = ground (arith, append-nil s.stdout, append-nil s.stderr)

  on_sigterm_keeps :
      (s s' : Session) (b : Bool) → on_sigterm j term command s b ≡ going s' → Printed s s' [] []
  unfolding on_sigterm
  on_sigterm_keeps s s' true e = or_fail_keeps s s' _ e
  on_sigterm_keeps s s' false e = ground (arith, append-nil s.stdout, append-nil s.stderr)

  on_read_prints :
      (s s' : Session) (r : Result DecodeError Message)
      → on_read j term command s r ≡ going s'
      → Printed s s' (out_bytes r) (err_bytes r)
  on_read_prints s s' (ok m) e = on_message_prints s s' m e
  on_read_prints s s' (err x) e = cc

  gated_keeps :
      (gate : Bool) (s s' : Session) (q : Progress)
      → (q ≡ going s' → Printed s s' [] [])
      → (if gate then q else going s) ≡ going s'
      → Printed s s' [] []
  gated_keeps true s s' q h e = h e
  gated_keeps false s s' q h e = Printed-going s s' s (Printed-none s) e

  abbrev event_out : Event → Bytes
  event_out (Event.frame (ok f)) = out_bytes (from_frame j f)
  event_out _ = []

  abbrev event_err : Event → Bytes
  event_err (Event.frame (ok f)) = err_bytes (from_frame j f)
  event_err _ = []

  step_prints :
      (s s' : Session) (e : Event)
      → step j term command s e ≡ going s'
      → Printed s s' (event_out e) (event_err e)
  unfolding step
  step_prints s s' (Event.frame (ok f)) e = on_read_prints s s' (from_frame j f) e
  step_prints s s' (Event.frame (err x)) e = cc
  step_prints s s' Event.closed e = cc
  step_prints s s' (Event.chunk c) e = gated_keeps s.stdin_open s s' _ (on_chunk_keeps s s' c) e
  step_prints s s' (Event.sigint b) e = gated_keeps s.sigint_open s s' _ (on_sigint_keeps s s' b) e
  step_prints s s' (Event.sigterm b) e =
      gated_keeps s.sigterm_open s s' _ (on_sigterm_keeps s s' b) e

  arrived_out-cons :
      (e : Event) (es : List Event) → arrived_out (e ∷ es) ≡ event_out e ++ arrived_out es
  unfolding arrived_out
  arrived_out-cons (Event.frame (ok f)) es = refl
  arrived_out-cons (Event.frame (err x)) es = refl
  arrived_out-cons Event.closed es = refl
  arrived_out-cons (Event.chunk c) es = refl
  arrived_out-cons (Event.sigint b) es = refl
  arrived_out-cons (Event.sigterm b) es = refl

  arrived_err-cons :
      (e : Event) (es : List Event) → arrived_err (e ∷ es) ≡ event_err e ++ arrived_err es
  unfolding arrived_err
  arrived_err-cons (Event.frame (ok f)) es = refl
  arrived_err-cons (Event.frame (err x)) es = refl
  arrived_err-cons Event.closed es = refl
  arrived_err-cons (Event.chunk c) es = refl
  arrived_err-cons (Event.sigint b) es = refl
  arrived_err-cons (Event.sigterm b) es = refl

  pub step-loop :
      (ev : Event) (es : List Event) (s s' : Session)
      → loop j term command (ev ∷ es) s ≡ going s'
      → (t : Session) × (step j term command s ev ≡ going t) × (loop j term command es t ≡ going s')
  unfolding loop
  step-loop ev es s s' e = elim (Progress-cases (step j term command s ev)) [
    | inl (t, et) ↦ (t, et, rw et at e)
    | inr (t, r, et) ↦ absurd (cc (rw et at e))
  ]

  -- While a session goes on it has printed exactly the bytes of the `Stdout` frames that arrived, in
  -- order, and on stderr those of the `Stderr` frames.
  pub loop_prints :
      (es : List Event) (s s' : Session)
      → loop j term command es s ≡ going s'
      → Printed s s' (arrived_out es) (arrived_err es)
  loop_prints [] s s' e =
      unfold arrived_out arrived_err loop in Printed-going s s' s (Printed-none s) e
  loop_prints (ev ∷ es) s s' e =
      let (t, et, el) = step-loop ev es s s' e in
      let (h, k) = loop_prints es t s' el in
      let (h', k') = step_prints s t ev et in
      rw (arrived_out-cons, arrived_err-cons, h, k, h', k')
        (
          append_assoc s.stdout (event_out ev) (arrived_out es),
          append_assoc s.stderr (event_err ev) (arrived_err es),
        )

  loop-append :
      (pre post : List Event) (s s' : Session)
      → loop j term command pre s ≡ going s'
      → loop j term command (pre ++ post) s ≡ loop j term command post s'
  unfolding loop
  loop-append [] post s s' e = ground arith
  loop-append (ev ∷ pre) post s s' e =
      let (t, et, el) = step-loop ev pre s s' e in rw et (loop-append pre post t s' el)

  ending_message :
      (s : Session) (m : Message) (r : Result ClientError Outcome)
      → ending command m ≡ some r
      → on_message j term command s m ≡ finished s r
  unfolding on_message
  ending_message s (Message.exit x) r e = ground arith
  ending_message s (Message.error x) r e = ground arith
  ending_message s Message.server_stopping r e = ground arith
  ending_message s (Message.stdout b) r e = cc
  ending_message s _ r e = cc

  -- The first message that ends a session decides its result: `Exit` as `exit_outcome` reads it,
  -- `Error` as a failure, `ServerStopping` as 143. All output that arrived before it is printed, and
  -- whatever comes behind it is not looked at.
  pub session_ends :
      (pre post : List Event) (s s' : Session) (f : Frame) (m : Message)
      (r : Result ClientError Outcome)
      → loop j term command pre s ≡ going s'
      → from_frame j f ≡ ok m
      → ending command m ≡ some r
      → (loop j term command (pre ++ Event.frame (ok f) ∷ post) s ≡ finished s' r)
        × (s'.stdout ≡ s.stdout ++ arrived_out pre)
        × (s'.stderr ≡ s.stderr ++ arrived_err pre)
  session_ends pre post s s' f m r el em er =
      let (h, k) = loop_prints pre s s' el in (loop-append pre _ s s' el ∙ last, h, k)
    where
      last : loop j term command (Event.frame (ok f) ∷ post) s' ≡ finished s' r
      last = unfold loop step in rw (em, ending_message s' m r er)
