-- ===== src/Protocol/Message/RoundTrip.antt =====
-- `into_frame` and `from_frame` of src/protocol.rs against each other, with `serde_json` a parameter.
use nix_capsule.Prelude.{
  Bool-cases, length, Result, ok, err, ◌>>=◌, map_err, Result-cases, ok-injective, Bytes, Str, suc,
  ◌≡◌, refl, subst, inl, inr, false, List, [], ◌∷◌, map, arith,
}
use nix_capsule.Protocol.FrameType.{FrameType}
use nix_capsule.Protocol.Errors.{DecodeError, EncodeError}
use nix_capsule.Protocol.Codec.{Frame}
use nix_capsule.Protocol.Codec.Stream.{encode_all, waiting, read_frames, read_frames-encode_all}
use nix_capsule.Protocol.Message.{
  Exit, Message, JsonOf, Json, ReadsBack, JsonReadsBack, frame_type, is_invalid, payload_of_message,
  frame_of, into_frame, decode_exit, from_parts, from_frame,
}

-- `Exit` messages with both fields set are the ones refused.
abbrev pub IsSendable : Message → Type 0
IsSendable (Message.exit e) = is_invalid e ≡ false
IsSendable _ = Unit

module _ {A : Type 0} (j : JsonOf A) (reads : ReadsBack j) (wrap : A → Message) where
  -- A struct payload that was written is read again, under both error wrappings.
  read-written :
      (a : A) (b : Bytes)
      → map_err EncodeError.json (j.to_vec a) ≡ ok b
      → (map_err DecodeError.json (j.from_slice b) >>= λ m. ok (wrap m)) ≡ ok (wrap a)
  read-written a b e = elim (Result-cases (j.to_vec a)) [
    | inl (b', eb) ↦ let same : j.to_vec a ≡ ok b = cc in rw (reads a b same)
    | inr (x, ex) ↦ cc
  ]

module _ (j : Json) where
  frame_of_inv :
      (m : Message) {f : Frame}
      → frame_of j m ≡ ok f
      → (f.frame_type ≡ frame_type m) × (payload_of_message j m ≡ ok f.payload)
  unfolding frame_of
  frame_of_inv m {f} e = elim (Result-cases (payload_of_message j m)) [
    | inl (b, eb) ↦ ground arith
    | inr (x, ex) ↦ cc
  ]

  into_frame_inv :
      (m : Message) {f : Frame} → into_frame j m ≡ ok f → IsSendable m × (frame_of j m ≡ ok f)
  unfolding into_frame
  into_frame_inv (Message.exit x) e = elim (Bool-cases (is_invalid x)) [
    | inl bad ↦ cc
    | inr good ↦ (good, rw good at e)
  ]
  into_frame_inv _ e = (tt, e)

  decode_exit_valid : (x : Exit) → is_invalid x ≡ false → decode_exit j x ≡ ok (Message.exit x)
  unfolding decode_exit
  decode_exit_valid x good = rw good

  exit_read :
      (reads : ReadsBack j.exit) (x : Exit) (b : Bytes)
      → is_invalid x ≡ false
      → map_err EncodeError.json (j.exit.to_vec x) ≡ ok b
      → (map_err DecodeError.json (j.exit.from_slice b) >>= λ y. decode_exit j y)
        ≡ ok (Message.exit x)
  exit_read reads x b good e = elim (Result-cases (j.exit.to_vec x)) [
    | inl (b', eb) ↦
        let same : j.exit.to_vec x ≡ ok b = cc in rw (reads x b same) (decode_exit_valid x good)
    | inr (x, ex) ↦ cc
  ]

  from_parts-payload :
      JsonReadsBack j
      → (m : Message) (b : Bytes) → IsSendable m
      → payload_of_message j m ≡ ok b
      → from_parts j (frame_type m) b ≡ ok m
  unfolding payload_of_message frame_type from_parts
  from_parts-payload r (Message.request m) b s e =
      read-written j.request r.request Message.request m b e
  from_parts-payload r (Message.stdin p) b s e = cc
  from_parts-payload r (Message.stdout p) b s e = cc
  from_parts-payload r (Message.stderr p) b s e = cc
  from_parts-payload r (Message.exit x) b s e = exit_read r.exit x b s e
  from_parts-payload r (Message.error m) b s e = read-written j.error r.error Message.error m b e
  from_parts-payload r Message.server_stopping b s e = ground arith
  from_parts-payload r (Message.version m) b s e =
      read-written j.version r.version Message.version m b e
  from_parts-payload r (Message.signal m) b s e =
      read-written j.signal r.signal Message.signal m b e
  from_parts-payload r Message.request_version b s e = ground arith
  from_parts-payload r (Message.server_version m) b s e =
      read-written j.version r.version Message.server_version m b e

  -- Every message that `into_frame` turns into a frame is what `from_frame` reads from that frame, if
  -- the JSON library reads back what it wrote.
  pub from_frame-into_frame :
      JsonReadsBack j → (m : Message) (f : Frame) → into_frame j m ≡ ok f → from_frame j f ≡ ok m
  unfolding from_frame
  from_frame-into_frame r m f e =
      let (s, ef) = into_frame_inv m e in
      let (et, ep) = frame_of_inv m ef in rw et (from_parts-payload r m f.payload s ep)

  read_inv :
      {A : Type 0} (o : Result Str A) (wrap : A → Message) {m : Message}
      → (map_err DecodeError.json o >>= λ a. ok (wrap a)) ≡ ok m
      → (a : A) × (m ≡ wrap a)
  read_inv (ok a) wrap e = (a, cc)
  read_inv (err x) wrap e = cc

  decode_exit_inv :
      (o : Result Str Exit) {m : Message}
      → (map_err DecodeError.json o >>= λ x. decode_exit j x) ≡ ok m
      → (x : Exit) × (m ≡ Message.exit x) × (is_invalid x ≡ false)
  unfolding decode_exit
  decode_exit_inv (ok x) e = elim (Bool-cases (is_invalid x)) [
    | inl bad ↦ absurd (cc (rw bad at e))
    | inr good ↦ (x, cc (rw good at e), good)
  ]
  decode_exit_inv (err y) e = cc

  abbrev Fits : FrameType → Message → Type 0
  Fits t m = IsSendable m × (frame_type m ≡ t)

  from_parts_sound : (t : FrameType) (p : Bytes) {m : Message} → from_parts j t p ≡ ok m → Fits t m
  unfolding from_parts frame_type
  from_parts_sound FrameType.request p e =
      let (a, em) = read_inv (j.request.from_slice p) Message.request e in rw em (tt, refl)
  from_parts_sound FrameType.stdin p {m} e =
      subst (Fits FrameType.stdin) (ok-injective e) (tt, refl)
  from_parts_sound FrameType.stdout p e = subst (Fits FrameType.stdout) (ok-injective e) (tt, refl)
  from_parts_sound FrameType.stderr p e = subst (Fits FrameType.stderr) (ok-injective e) (tt, refl)
  from_parts_sound FrameType.exit p e =
      let (x, em, good) = decode_exit_inv (j.exit.from_slice p) e in rw em (good, refl)
  from_parts_sound FrameType.error p e =
      let (a, em) = read_inv (j.error.from_slice p) Message.error e in rw em (tt, refl)
  from_parts_sound FrameType.server_stopping [] e =
      subst (Fits FrameType.server_stopping) (ok-injective e) (tt, refl)
  from_parts_sound FrameType.server_stopping (b ∷ bs) e = cc
  from_parts_sound FrameType.version p e =
      let (a, em) = read_inv (j.version.from_slice p) Message.version e in rw em (tt, refl)
  from_parts_sound FrameType.signal p e =
      let (a, em) = read_inv (j.signal.from_slice p) Message.signal e in rw em (tt, refl)
  from_parts_sound FrameType.request_version [] e =
      subst (Fits FrameType.request_version) (ok-injective e) (tt, refl)
  from_parts_sound FrameType.request_version (b ∷ bs) e = cc
  from_parts_sound FrameType.server_version p e =
      let (a, em) = read_inv (j.version.from_slice p) Message.server_version e in rw em (tt, refl)

  -- Whatever frame arrives, a message read from it has that frame's type, and it is never an `Exit`
  -- that sets both fields.
  pub from_frame_sound :
      (f : Frame) (m : Message)
      → from_frame j f ≡ ok m
      → IsSendable m × (frame_type m ≡ f.frame_type)
  unfolding from_frame
  from_frame_sound f m e = from_parts_sound f.frame_type f.payload e

  -- `into_frame` for each message.
  unfoldable pub into_frames : List Message → Result EncodeError (List Frame)
  into_frames [] = ok []
  into_frames (m ∷ ms) = into_frame j m >>= λ f. into_frames ms >>= λ fs. ok (f ∷ fs)

  into_frames-read :
      JsonReadsBack j
      → (ms : List Message) {fs : List Frame} → into_frames ms ≡ ok fs
      → map (from_frame j) fs ≡ map ok ms
  unfolding into_frames
  into_frames-read r [] {fs} e = ground arith
  into_frames-read r (m ∷ ms) {fs} e = elim (Result-cases (into_frame j m)) [
    | inl (f, ef) ↦ elim (Result-cases (into_frames ms)) [
      | inl (gs, eg) ↦
          let shape : fs ≡ f ∷ gs = cc (rw (ef, eg) at e) in
          rw (shape, from_frame-into_frame r m f ef, into_frames-read r ms {fs = gs} eg)
      | inr (x, ex) ↦ absurd (cc (rw (ef, ex) at e))
    ]
    | inr (x, ex) ↦ absurd (cc (rw ex at e))
  ]

  -- Messages that one end turns into frames and encodes one behind the other are what the other end
  -- reads: `decode` finds exactly their frames, nothing is left in the buffer, and `from_frame` gives
  -- the messages back in order, if the JSON library reads back what it wrote.
  pub messages_arrive :
      JsonReadsBack j
      → (ms : List Message) (fs : List Frame) (out : Bytes) → into_frames ms ≡ ok fs
      → encode_all fs [] ≡ ok out
      → (read_frames (suc (length out)) out ≡ waiting fs []) × (map (from_frame j) fs ≡ map ok ms)
  messages_arrive r ms fs out em eo =
      (read_frames-encode_all fs out eo, into_frames-read r ms {fs = fs} em)
