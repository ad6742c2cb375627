-- ===== src/Runs/ProtocolRuns.antt =====
-- The protocol of src/protocol.rs at concrete frames.
use nix_capsule.Prelude.{
  length, All, ok, err, Bytes, codes, suc, ◌≤◌, ◌<◌, ◌≡◌, refl, ◌≢◌, ◌⊎◌, none, some, List, [], ◌∷◌,
  ◌++◌, map, arith,
}
use nix_capsule.Protocol.FrameType.{FrameType, from_u8, to_byte}
use nix_capsule.Protocol.Errors.{DecodeError}
use nix_capsule.Protocol.Codec.{Frame, max_payload, decode, encode}
use nix_capsule.Protocol.Codec.RoundTrip.{IsByte, decode-encode, decode_sound}
use nix_capsule.Protocol.Codec.Stream.{encode_all, waiting, read_frames}
use nix_capsule.Protocol.Codec.Streaming.{decode_partial, decode_verdict}
use nix_capsule.Protocol.Message.{Message, frame_type, payload_of_message, into_frame, from_frame}
use nix_capsule.Protocol.Message.RoundTrip.{
  IsSendable, from_frame_sound, into_frames, messages_arrive,
}
use nix_capsule.Runs.Toy.{json, json-ReadsBack}

abbrev hi : Frame
hi = record { frame_type = FrameType.stdin; payload = codes "hi" }

abbrev hi_wire : Bytes
hi_wire = to_byte FrameType.stdin ∷ 0 ∷ 0 ∷ 0 ∷ 2 ∷ codes "hi"

abbrev messages : List Message
messages = Message.stdout (codes "x") ∷ Message.exit (record { code = some 3; signal = none }) ∷ []

abbrev frames : List Frame
frames =
    record { frame_type = FrameType.stdout; payload = codes "x" }
    ∷ record { frame_type = FrameType.exit; payload = 3 ∷ [] }
    ∷ []

abbrev frames_wire : Bytes
frames_wire = 3 ∷ 0 ∷ 0 ∷ 0 ∷ 1 ∷ b'x' ∷ 5 ∷ 0 ∷ 0 ∷ 0 ∷ 1 ∷ 3 ∷ []

hi_encoded : encode hi [] ≡ ok hi_wire
unfolding encode to_byte
hi_encoded = refl

hi_decoded : decode (hi_wire ++ 9 ∷ []) ≡ (ok (some hi), 9 ∷ [])
hi_decoded = decode-encode hi hi_wire (9 ∷ []) hi_encoded

frames_encode : encode_all frames [] ≡ ok frames_wire
unfolding encode_all encode to_byte
frames_encode = refl

frames_made : into_frames json messages ≡ ok frames
unfolding into_frames into_frame payload_of_message frame_type
frames_made = refl

exit_read :
    from_frame json (record { frame_type = FrameType.exit; payload = 3 ∷ [] })
    ≡ ok (Message.exit (record { code = some 3; signal = none }))
unfolding from_frame
exit_read = refl

-- Below, each property at one of these inputs.
decode-encode_example : decode (hi_wire ++ 9 ∷ []) ≡ (ok (some hi), 9 ∷ [])
decode-encode_example = decode-encode hi hi_wire (9 ∷ []) hi_encoded

hi_bytes : All IsByte (hi_wire ++ 9 ∷ [])
unfolding to_byte
hi_bytes = (
  omega arith,
  (
    omega arith,
    (omega arith, (omega arith, (omega arith, (omega arith, (omega arith, (omega arith, tt)))))),
  ),
)

decode_sound_example :
    (out : Bytes) × (encode hi [] ≡ ok out)
    × (hi_wire ++ 9 ∷ [] ≡ out ++ 9 ∷ [])
    × (length hi.payload ≤ max_payload)
decode_sound_example = decode_sound (hi_wire ++ 9 ∷ []) hi (9 ∷ []) hi_bytes hi_decoded

decode_partial_example :
    decode (2 ∷ 0 ∷ 0 ∷ 0 ∷ 2 ∷ b'h' ∷ []) ≡ (ok none, 2 ∷ 0 ∷ 0 ∷ 0 ∷ 2 ∷ b'h' ∷ [])
unfolding to_byte
decode_partial_example =
    decode_partial hi (2 ∷ 0 ∷ 0 ∷ 0 ∷ 2 ∷ b'h' ∷ []) [] hi_wire b'i' hi_encoded refl

abbrev short : Bytes
short = 99 ∷ 0 ∷ 0 ∷ 0 ∷ 1 ∷ []

decode_verdict_example :
    ((max_payload < 1) × (decode short ≡ (err (DecodeError.payload_too_large 1), short)))
    ⊎ (((1 ≤ max_payload)
          × (from_u8 99 ≡ none)
          × (decode short ≡ (err (DecodeError.unknown_frame_type 99), short)))
        ⊎ ((1 ≤ max_payload)
            × (from_u8 99 ≢ none)
            × ((x : DecodeError) → (decode short).0 ≢ err x)))
decode_verdict_example = decode_verdict 99 0 0 0 1 []

messages_arrive_example :
    (read_frames (suc (length frames_wire)) frames_wire ≡ waiting frames [])
    × (map (from_frame json) frames ≡ map ok messages)
messages_arrive_example =
    messages_arrive json json-ReadsBack messages frames frames_wire frames_made frames_encode

from_frame_sound_example :
    IsSendable (Message.exit (record { code = some 3; signal = none }))
    × (frame_type (Message.exit (record { code = some 3; signal = none })) ≡ FrameType.exit)
from_frame_sound_example =
    from_frame_sound json (record { frame_type = FrameType.exit; payload = 3 ∷ [] })
      (Message.exit (record { code = some 3; signal = none })) exit_read
