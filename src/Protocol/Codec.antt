-- ===== src/Protocol/Codec.antt =====
-- `Frame` and `FrameCodec` of src/protocol.rs. A `BytesMut` is the list of the bytes that it holds;
-- `decode` returns what is left in it beside its result.
pub mod RoundTrip
pub mod Streaming
pub mod Stream
use nix_capsule.Prelude.{
  ltb, if◌then◌else◌, length, take, drop, Result, ok, err, Bytes, ℕ, ◌+◌, ◌*◌, ◌/◌, ◌%◌, ◌^◌,
  Option, none, some, [], ◌∷◌, ◌++◌,
}
use nix_capsule.Protocol.FrameType.{FrameType, from_u8, to_byte}
use nix_capsule.Protocol.Errors.{DecodeError, EncodeError}

pub record Frame : Type 0 where
  pub frame_type : FrameType
  pub payload : Bytes

-- 16 MiB.
abbrev pub max_payload : ℕ
max_payload = 16 * 1024 * 1024

-- `u32::from_be_bytes`
abbrev pub from_be_bytes : ℕ → ℕ → ℕ → ℕ → ℕ
from_be_bytes b1 b2 b3 b4 = b1 * 2 ^ 24 + b2 * 2 ^ 16 + b3 * 2 ^ 8 + b4

-- `put_u32` of a length cast by `as u32`.
abbrev pub put_u32 : ℕ → Bytes
put_u32 n =
    let w = n % 2 ^ 32 in (w / 2 ^ 24) ∷ (w / 2 ^ 16 % 256) ∷ (w / 2 ^ 8 % 256) ∷ (w % 256) ∷ []

known : ℕ → ℕ → Option FrameType → Result DecodeError (Option (FrameType × ℕ))
known tag size none = err (DecodeError.unknown_frame_type tag)
known tag size (some t) = ok (some (t, size))

-- The last clause is `src.len() < 5`.
unfoldable pub header : Bytes → Result DecodeError (Option (FrameType × ℕ))
unfolding known
header (tag ∷ b1 ∷ b2 ∷ b3 ∷ b4 ∷ rest) =
    let size = from_be_bytes b1 b2 b3 b4 in
    if ltb max_payload size
    then err (DecodeError.payload_too_large size)
    else known tag size (from_u8 tag)
header _ = ok none

unfoldable pub payload_of : Bytes → FrameType → ℕ → Result DecodeError (Option Frame) × Bytes
payload_of src t size = if ltb (length src) (5 + size) then (ok none, src) else (
  ok (some (record { frame_type = t; payload = take size (drop 5 src) })),
  drop size (drop 5 src),
)

unfoldable pub decode_with :
    Bytes → Result DecodeError (Option (FrameType × ℕ)) → Result DecodeError (Option Frame) × Bytes
unfolding payload_of
decode_with src (err e) = (err e, src)
decode_with src (ok none) = (ok none, src)
decode_with src (ok (some (t, size))) = payload_of src t size

unfoldable pub decode : Bytes → Result DecodeError (Option Frame) × Bytes
unfolding decode_with
decode src = decode_with src (header src)

-- The new contents of `dst`, or the error that leaves it as it was.
unfoldable pub encode : Frame → Bytes → Result EncodeError Bytes
encode item dst =
    if ltb max_payload (length item.payload)
    then err (EncodeError.payload_too_large (length item.payload))
    else ok (dst ++ ((to_byte item.frame_type ∷ put_u32 (length item.payload)) ++ item.payload))
