-- ===== src/Client/Session/Stdin.antt =====
-- What a session of src/client/mod.rs sends of its stdin, and `pump_stdin`, which feeds it.
use nix_capsule.Prelude.{
  if◌then◌else◌, Option-cases, All, Result, ok, err, Result-cases, >>=-eq-ok, Bytes, Str, is_empty,
  ℕ, ◌≡◌, refl, sym, ◌∙◌, subst, inl, inr, Bool, true, false, not, ◌&&◌, Option, none, some, List,
  [], ◌∷◌, ◌++◌, arith,
}
use nix_capsule.Protocol.Errors.{DecodeError, EncodeError}
use nix_capsule.Protocol.Codec.{encode}
use nix_capsule.Protocol.Message.{SignalMsg, Message, Json, into_frame, from_frame}
use nix_capsule.Client.Session.{
  Terminal, Session, Event, Progress, going, finished, send, or_fail, or_same, on_message, on_read,
  on_chunk, on_sigint, on_sigterm, step, then_loop, loop, fresh,
}

-- One answer of `stdin.read`: bytes, the end, a signal that interrupted it, or another failure.
pub data Read : Type 0 where
  bytes : ℕ → Bytes → Read
  end interrupted failed : Read

-- The items that `pump_stdin` puts into the channel; a read gives at least one byte, or the end.
unfoldable pub pump_stdin : List Read → List (Option Bytes)
pump_stdin [] = []
pump_stdin (bytes b bs ∷ reads) = some (b ∷ bs) ∷ pump_stdin reads
pump_stdin (interrupted ∷ reads) = pump_stdin reads
pump_stdin (end ∷ reads) = none ∷ []
pump_stdin (failed ∷ reads) = none ∷ []

-- Is stdin closed after these messages, if it was (or was not) before?
unfoldable pub closed_after : Bool → List Message → Bool
closed_after c [] = c
closed_after c (Message.stdin b ∷ ms) = closed_after (is_empty b) ms
closed_after c (m ∷ ms) = closed_after c ms

-- No `Stdin` message stands behind an empty one.
unfoldable pub stdin_in_order : Bool → List Message → Bool
stdin_in_order c [] = true
stdin_in_order c (Message.stdin b ∷ ms) = not c && stdin_in_order (is_empty b) ms
stdin_in_order c (m ∷ ms) = stdin_in_order c ms

abbrev is_stdin : Message → Bool
is_stdin (Message.stdin b) = true
is_stdin _ = false

abbrev closes : Bool → Message → Bool
closes c (Message.stdin b) = is_empty b
closes c _ = c

closed_after-append :
    (c : Bool) (ms : List Message) (m : Message)
    → closed_after c (ms ++ m ∷ []) ≡ closes (closed_after c ms) m
unfolding closed_after
closed_after-append c [] (Message.stdin b) = refl
closed_after-append c [] _ = refl
closed_after-append c (Message.stdin b ∷ ms) m = closed_after-append (is_empty b) ms m
closed_after-append c (_ ∷ ms) m = closed_after-append c ms m

stdin_in_order-append :
    (c : Bool) (ms : List Message) (m : Message)
    → stdin_in_order c ms ≡ true
    → (is_stdin m ≡ true → closed_after c ms ≡ false)
    → stdin_in_order c (ms ++ m ∷ []) ≡ true
unfolding stdin_in_order closed_after
stdin_in_order-append c [] (Message.stdin b) h k = rw (k refl)
stdin_in_order-append c [] _ h k = refl
stdin_in_order-append c (Message.stdin b ∷ ms) m h k =
    ground (arith, stdin_in_order-append (is_empty b) ms m (ground arith) k)
stdin_in_order-append c (_ ∷ ms) m h k = stdin_in_order-append c ms m h k

-- What was sent of stdin is in order, and while the loop still reads stdin no end was sent.
pub record Orderly (s : Session) : Type 0 where
  pub in_order : stdin_in_order false s.sent ≡ true
  pub not_closed : s.stdin_open ≡ true → closed_after false s.sent ≡ false

-- The chunks that come from `pump_stdin` hold a byte.
abbrev pub HoldsByte : Event → Type 0
HoldsByte (Event.chunk (some (some b))) = is_empty b ≡ false
HoldsByte _ = Unit

abbrev pub last_state : Progress → Session
last_state (going s) = s
last_state (finished s r) = s

module _ (j : Json) (term : Terminal) (command : Str) where
  pub send_appends :
      (s t : Session) (m : Message)
      → send j term command s m ≡ ok t
      → t ≡ record s { sent = s.sent ++ m ∷ [] }
  unfolding send
  send_appends s t m e =
      let (f, ef, e') = >>=-eq-ok (into_frame j m) _ e in
      let (o, eo, e'') = >>=-eq-ok (encode f []) _ e' in ground arith

  signal-Orderly :
      (s t : Session) (n : SignalMsg)
      → Orderly s
      → send j term command s (Message.signal n) ≡ ok t
      → Orderly t
  signal-Orderly s t n o e = subst Orderly (sym (send_appends s t (Message.signal n) e)) (record {
    in_order = stdin_in_order-append false s.sent (Message.signal n) o.in_order (λ h. cc);
    not_closed = λ h. closed_after-append false s.sent (Message.signal n) ∙ o.not_closed h;
  })

  chunk-Orderly :
      (s t : Session) (b : Bytes)
      → Orderly s
      → s.stdin_open ≡ true
      → is_empty b ≡ false
      → send j term command s (Message.stdin b) ≡ ok t
      → Orderly t
  chunk-Orderly s t b o opened nonempty e =
      subst Orderly (sym (send_appends s t (Message.stdin b) e)) (record {
        in_order =
            stdin_in_order-append false s.sent (Message.stdin b) o.in_order
              (λ _. o.not_closed opened);
        not_closed = λ h. closed_after-append false s.sent (Message.stdin b) ∙ nonempty;
      })

  end-Orderly :
      (s : Session)
      → Orderly s
      → s.stdin_open ≡ true
      → Orderly (record (or_same j term command s (send j term command s (Message.stdin []))) {
        stdin_open = false;
      })
  end-Orderly s o opened = elim (Result-cases (send j term command s (Message.stdin []))) [
    | inl (t, et) ↦ rw et (record {
      in_order = rw (send_appends s t (Message.stdin []) et) (
          stdin_in_order-append false s.sent (Message.stdin []) o.in_order
            (λ _. o.not_closed opened));
      not_closed = λ h. cc;
    })
    | inr (x, ex) ↦ rw ex (record { in_order = o.in_order; not_closed = λ h. cc })
  ]

  or_fail-Orderly :
      (s : Session) (r : Result EncodeError Session)
      → Orderly s
      → ((t : Session) → r ≡ ok t → Orderly t)
      → Orderly (last_state (or_fail j term command s r))
  or_fail-Orderly s (ok t) o h = h t refl
  or_fail-Orderly s (err x) o h = o

  on_message-Orderly :
      (s : Session) (m : Message) → Orderly s → Orderly (last_state (on_message j term command s m))
  unfolding on_message
  on_message-Orderly s (Message.stdout b) o = elim (Option-cases (term.write_stdout s.stdout b)) [
    | inl e ↦ rw e (record { in_order = o.in_order; not_closed = o.not_closed })
    | inr (x, e) ↦ rw e o
  ]
  on_message-Orderly s (Message.stderr b) o = elim (Option-cases (term.write_stderr s.stderr b)) [
    | inl e ↦ rw e (record { in_order = o.in_order; not_closed = o.not_closed })
    | inr (x, e) ↦ rw e o
  ]
  on_message-Orderly s _ o = o

  on_read-Orderly :
      (s : Session) (r : Result DecodeError Message)
      → Orderly s
      → Orderly (last_state (on_read j term command s r))
  on_read-Orderly s (ok m) o = on_message-Orderly s m o
  on_read-Orderly s (err x) o = o

  on_chunk-Orderly :
      (s : Session) (c : Option (Option Bytes))
      → Orderly s
      → s.stdin_open ≡ true
      → HoldsByte (Event.chunk c)
      → Orderly (last_state (on_chunk j term command s c))
  unfolding on_chunk
  on_chunk-Orderly s (some (some b)) o opened h =
      or_fail-Orderly s (send j term command s (Message.stdin b)) o
        (λ t e. chunk-Orderly s t b o opened h e)
  on_chunk-Orderly s (some none) o opened h = end-Orderly s o opened
  on_chunk-Orderly s none o opened h = end-Orderly s o opened

  signal_step-Orderly :
      (s : Session) (n : SignalMsg)
      → Orderly s
      → Orderly (last_state (or_fail j term command s (send j term command s (Message.signal n))))
  signal_step-Orderly s n o =
      or_fail-Orderly s (send j term command s (Message.signal n)) o
        (λ t e. signal-Orderly s t n o e)

  on_sigint-Orderly :
      (s : Session) (b : Bool) → Orderly s → Orderly (last_state (on_sigint j term command s b))
  unfolding on_sigint
  on_sigint-Orderly s true o = signal_step-Orderly s (record { signal = 2 }) o
  on_sigint-Orderly s false o = record { in_order = o.in_order; not_closed = o.not_closed }

  on_sigterm-Orderly :
      (s : Session) (b : Bool) → Orderly s → Orderly (last_state (on_sigterm j term command s b))
  unfolding on_sigterm
  on_sigterm-Orderly s true o = signal_step-Orderly s (record { signal = 15 }) o
  on_sigterm-Orderly s false o = record { in_order = o.in_order; not_closed = o.not_closed }

  gated-Orderly :
      (gate : Bool) (s : Session) (q : Progress)
      → Orderly s
      → (gate ≡ true → Orderly (last_state q))
      → Orderly (last_state (if gate then q else going s))
  gated-Orderly true s q o h = h refl
  gated-Orderly false s q o h = o

  step-Orderly :
      (s : Session) (e : Event)
      → HoldsByte e
      → Orderly s
      → Orderly (last_state (step j term command s e))
  unfolding step
  step-Orderly s (Event.frame (ok f)) h o = on_read-Orderly s (from_frame j f) o
  step-Orderly s (Event.frame (err x)) h o = o
  step-Orderly s Event.closed h o = o
  step-Orderly s (Event.chunk c) h o =
      gated-Orderly s.stdin_open s (on_chunk j term command s c) o
        (λ opened. on_chunk-Orderly s c o opened h)
  step-Orderly s (Event.sigint b) h o =
      gated-Orderly s.sigint_open s (on_sigint j term command s b) o (λ _. on_sigint-Orderly s b o)
  step-Orderly s (Event.sigterm b) h o =
      gated-Orderly s.sigterm_open s (on_sigterm j term command s b) o
        (λ _. on_sigterm-Orderly s b o)

  then_loop-Orderly :
      (next : Session → Progress) (q : Progress)
      → ((t : Session) → Orderly t → Orderly (last_state (next t)))
      → Orderly (last_state q)
      → Orderly (last_state (then_loop j term command next q))
  then_loop-Orderly next (going t) h o = h t o
  then_loop-Orderly next (finished t r) h o = o

  -- The order is kept over any events.
  loop-Orderly :
      (es : List Event) (s : Session)
      → All HoldsByte es
      → Orderly s
      → Orderly (last_state (loop j term command es s))
  unfolding loop
  loop-Orderly [] s h o = o
  loop-Orderly (e ∷ es) s (h, hs) o =
      then_loop-Orderly (loop j term command es) (step j term command s e)
        (λ t o'. loop-Orderly es t hs o') (step-Orderly s e h o)

  -- Whatever happens in whatever order, if each chunk that is read holds a byte, a session never sends
  -- a `Stdin` message behind the empty one that marks the end of its stdin.
  pub session_stdin_in_order :
      (es : List Event)
      → All HoldsByte es
      → stdin_in_order false (last_state (loop j term command es fresh)).sent ≡ true
  session_stdin_in_order es h =
      (loop-Orderly es fresh h (
        unfold stdin_in_order closed_after in
        record { in_order = refl; not_closed = λ e. refl })).in_order
