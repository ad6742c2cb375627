-- ===== src/Server/Connection/Signalled.antt =====
-- The signals that the bridge of src/server.rs sends to the child's process group.
use nix_capsule.Server.Connection.State.{
  Host, Conn, Chunk, Event, message_of, failed_kill, signal_group, write_child, on_signal,
  on_message,
}
use nix_capsule.Server.Connection.Loop.{Bridge, on_read, on_frame, bridge_step, bridge}
use nix_capsule.Server.Connection.Fed.{Receives, behind_gate, going-injective, step-bridge}
use nix_capsule.Server.Connection.Ending.{send_cases}
use nix_capsule.Protocol.Message.{Message, Json, JsonReadsBack, from_frame}
use nix_capsule.Protocol.Message.Signalled.{signalled, signalled-append}
use nix_capsule.Protocol.Message.RoundTrip.{from_frame-into_frame}
use nix_capsule.Protocol.Codec.{Frame}
use nix_capsule.Prelude.Io.{IoError}
use nix_capsule.Prelude.{
  Bool-cases, All, ok, Bytes, ℕ, ◌≡◌, refl, sym, ap, ◌∙◌, subst, inl, inr, true, Option, none, some,
  List, [], ◌∷◌, ◌++◌, append-nil, append_assoc,
}

-- The shutdown is not seen.
abbrev pub Unstopped : Event → Type 0
Unstopped Event.stopping = ⊥
Unstopped _ = Unit

-- The numbers as signals to the group.
abbrev pub to_group : ℕ → List ℕ → List (ℕ × ℕ)
to_group pgid [] = []
to_group pgid (n ∷ numbers) = (pgid, n) ∷ to_group pgid numbers

to_group-append :
    (pgid : ℕ) (xs ys : List ℕ) → to_group pgid (xs ++ ys) ≡ to_group pgid xs ++ to_group pgid ys
to_group-append pgid [] ys = refl
to_group-append pgid (n ∷ xs) ys = ap (λ t. (pgid, n) ∷ t) (to_group-append pgid xs ys)

module _ (j : Json) (host : Host) (pgid : ℕ) where
  -- A step that sends the numbers.
  abbrev Kills : Conn → List ℕ → Conn → Type 0
  Kills c numbers t =
      (t.kills ≡ c.kills ++ to_group pgid numbers) × (t.client_writes_open ≡ c.client_writes_open)

  none_sent : (c : Conn) → c.kills ≡ c.kills ++ []
  none_sent c = sym (append-nil c.kills)

  output-Kills :
      (c t : Conn) (chunk : Chunk)
      → bridge_step j host pgid c (Event.output chunk) ≡ Bridge.going t
      → Kills c [] t
  unfolding bridge_step
  output-Kills c t chunk e = elim (send_cases j host c (message_of chunk)) [
    | inl k ↦ subst (Kills c []) (going-injective (rw k at e)) (none_sent c, refl)
    | inr k ↦ absurd (cc (rw k at e))
  ]

  write_child-Kills : (c : Conn) (b : Bytes) → Kills c [] (write_child j host c b)
  unfolding write_child
  write_child-Kills c [] = (none_sent c, refl)
  write_child-Kills c (b ∷ bs) = elim (Bool-cases c.stdin_open) [
    | inl open_in ↦ elim (Bool-cases (host.write_stdin c.stdin (b ∷ bs))) [
      | inl written ↦ rw (open_in, written) (none_sent c, refl)
      | inr failed ↦ rw (open_in, failed) (none_sent c, refl)
    ]
    | inr shut ↦ rw shut (none_sent c, refl)
  ]

  failed_kill-Kills :
      (c : Conn) (n : ℕ) (o : Option IoError)
      → Kills c
          (n ∷ [])
          (failed_kill j host pgid n (record c { kills = c.kills ++ (pgid, n) ∷ [] }) o)
  failed_kill-Kills c n none = (refl, refl)
  failed_kill-Kills c n (some e) = (refl, refl)

  on_message-Kills :
      (c : Conn) (m : Message) → Kills c (signalled (m ∷ [])) (on_message j host pgid c m)
  unfolding on_message on_signal signal_group
  on_message-Kills c (Message.stdin b) = write_child-Kills c b
  on_message-Kills c (Message.signal n) =
      failed_kill-Kills c n.signal (host.kill c.kills pgid n.signal)
  on_message-Kills c (Message.request r) = (none_sent c, refl)
  on_message-Kills c (Message.stdout b) = (none_sent c, refl)
  on_message-Kills c (Message.stderr b) = (none_sent c, refl)
  on_message-Kills c (Message.exit x) = (none_sent c, refl)
  on_message-Kills c (Message.error x) = (none_sent c, refl)
  on_message-Kills c (Message.version x) = (none_sent c, refl)
  on_message-Kills c (Message.server_version x) = (none_sent c, refl)
  on_message-Kills c Message.request_version = (none_sent c, refl)
  on_message-Kills c Message.server_stopping = (none_sent c, refl)

  frame-Kills :
      (c t : Conn) (f : Frame) (m : Message)
      → from_frame j f ≡ ok m
      → c.client_writes_open ≡ true
      → bridge_step j host pgid c (Event.frame (ok f)) ≡ Bridge.going t
      → Kills c (signalled (m ∷ [])) t
  unfolding bridge_step
  frame-Kills c t f m read still e =
      let framed_now : on_frame j host pgid c (ok f) ≡ Bridge.going t =
        behind_gate c.client_writes_open (on_frame j host pgid c (ok f)) (Bridge.going c) t still
          e in
      let read_now : on_read j host pgid c (ok m) ≡ Bridge.going t =
        ap (on_read j host pgid c) (sym read) ∙ framed_now in
      subst (Kills c (signalled (m ∷ []))) (going-injective read_now) (on_message-Kills c m)

  later_kills :
      (c t c' : Conn) (front later : List ℕ)
      → t.kills ≡ c.kills ++ to_group pgid front
      → c'.kills ≡ t.kills ++ to_group pgid later
      → c'.kills ≡ c.kills ++ to_group pgid (front ++ later)
  later_kills c t c' front later first rest =
      rest
      ∙ rw (first, to_group-append pgid front later)
          (append_assoc c.kills (to_group pgid front) (to_group pgid later))

  -- While the bridge goes on and the shutdown is not seen, the child's process group is sent exactly the signals of the
  -- messages that arrived, in order.
  pub bridge-signalled :
      JsonReadsBack j
      → (es : List Event) (ms : List Message) (c c' : Conn) → Receives j es ms
      → All Unstopped es
      → c.client_writes_open ≡ true
      → bridge j host pgid es c ≡ Bridge.going c'
      → c'.kills ≡ c.kills ++ to_group pgid (signalled ms)
  bridge-signalled reads [] [] c c' Receives.none_left unstopped still e =
      let ended : Bridge.going c ≡ Bridge.going c' = unfold bridge in e in
      let same = going-injective ended in ap (λ (c : Conn). c.kills) (sym same) ∙ none_sent c
  bridge-signalled reads [] (m ∷ ms) c c' r unstopped still e = elim r [ ]
  bridge-signalled reads (ev ∷ es) (m ∷ ms) c c' (Receives.arrival f n in_frame rest)
        (here, unstopped) still e =
      let (t, et, el) = step-bridge j host pgid ev es c c' e in
      let (sent, kept) =
        frame-Kills c t f m (from_frame-into_frame j reads m f in_frame) still et in
      later_kills c t c' (signalled (m ∷ [])) (signalled ms) sent
        (bridge-signalled reads es ms t c' rest unstopped (kept ∙ still) el)
      ∙ ap (λ numbers. c.kills ++ to_group pgid numbers) (sym (signalled-append (m ∷ []) ms))
  bridge-signalled reads (ev ∷ es) ms c c' (Receives.produced chunk rest) (here, unstopped) still
        e =
      let (t, et, el) = step-bridge j host pgid ev es c c' e in
      let (sent, kept) = output-Kills c t chunk et in
      later_kills c t c' [] (signalled ms) sent
        (bridge-signalled reads es ms t c' rest unstopped (kept ∙ still) el)
  bridge-signalled reads (ev ∷ es) ms c c' (Receives.stopped rest) (here, unstopped) still e =
      absurd here
