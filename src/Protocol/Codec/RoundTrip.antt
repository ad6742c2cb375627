-- ===== src/Protocol/Codec/RoundTrip.antt =====
-- `encode` and `decode` of src/protocol.rs against each other.
use nix_capsule.Prelude.{
  length, take, drop, length-append, length-take, length-drop, take-append-drop, take-append,
  drop-append, All, Result, ok, err, Bytes, ℕ, ◌+◌, ◌/◌, ◌%◌, ◌^◌, ◌≤◌, ◌<◌, ◌≡◌, refl, Option,
  none, some, [], ◌∷◌, ◌++◌, arith,
}
use nix_capsule.Protocol.FrameType.{FrameType, from_u8, to_byte, from_u8-to_byte, from_u8_sound}
use nix_capsule.Protocol.Errors.{DecodeError}
use nix_capsule.Protocol.Codec.{
  Frame, max_payload, from_be_bytes, put_u32, known, header, payload_of, decode_with, decode,
  encode,
}

abbrev pub IsByte : ℕ → Type 0
IsByte b = b < 256

-- The bytes that `encode` appends.
unfoldable pub wire : Frame → Bytes
wire f = (to_byte f.frame_type ∷ put_u32 (length f.payload)) ++ f.payload

pub from_be_bytes-put_u32 :
    (n : ℕ)
    → n < 2 ^ 32
    → from_be_bytes
        (n % 2 ^ 32 / 2 ^ 24)
        (n % 2 ^ 32 / 2 ^ 16 % 256)
        (n % 2 ^ 32 / 2 ^ 8 % 256)
        (n % 2 ^ 32 % 256)
      ≡ n
from_be_bytes-put_u32 n h = omega arith

pub put_u32-from_be_bytes :
    (b1 b2 b3 b4 : ℕ)
    → IsByte b1
    → IsByte b2
    → IsByte b3
    → IsByte b4
    → put_u32 (from_be_bytes b1 b2 b3 b4) ≡ b1 ∷ b2 ∷ b3 ∷ b4 ∷ []
put_u32-from_be_bytes b1 b2 b3 b4 h1 h2 h3 h4 = ground arith

pub encode-wire :
    (f : Frame) (dst out : Bytes)
    → encode f dst ≡ ok out
    → (out ≡ dst ++ wire f) × (length f.payload ≤ max_payload)
unfolding encode wire
encode-wire f dst out e = ground arith

pub wire-encode :
    (f : Frame) (dst : Bytes) → length f.payload ≤ max_payload → encode f dst ≡ ok (dst ++ wire f)
unfolding encode wire
wire-encode f dst h = ground arith

pub header-wire :
    (f : Frame) (rest : Bytes)
    → length f.payload ≤ max_payload
    → header (wire f ++ rest) ≡ ok (some (f.frame_type, length f.payload))
unfolding header wire
header-wire f rest h =
    ground
      (arith, from_be_bytes-put_u32 (length f.payload) (omega arith), from_u8-to_byte f.frame_type)

pub payload_of-wire :
    (f : Frame) (rest : Bytes)
    → payload_of (wire f ++ rest) f.frame_type (length f.payload) ≡ (ok (some f), rest)
unfolding payload_of wire
payload_of-wire f rest =
    ground
      (arith, length-append f.payload rest, take-append f.payload rest, drop-append f.payload rest)

pub decode-wire :
    (f : Frame) (rest : Bytes)
    → length f.payload ≤ max_payload
    → decode (wire f ++ rest) ≡ (ok (some f), rest)
unfolding decode
decode-wire f rest h = rw (header-wire f rest h) (payload_of-wire f rest)

-- Decoding what `encode` wrote into an empty buffer gives the frame back and leaves whatever bytes
-- follow it.
pub decode-encode :
    (f : Frame) (out rest : Bytes)
    → encode f [] ≡ ok out
    → decode (out ++ rest) ≡ (ok (some f), rest)
decode-encode f out rest e =
    let (shape, fits) = encode-wire f [] out e in rw shape (decode-wire f rest fits)

known_sound :
    (tag size : ℕ) (o : Option FrameType) {t : FrameType} {n : ℕ}
    → known tag size o ≡ ok (some (t, n))
    → (o ≡ some t) × (size ≡ n)
unfolding known
known_sound tag size o e = ground arith

header_sound :
    (src : Bytes) (t : FrameType) (n : ℕ)
    → All IsByte src
    → header src ≡ ok (some (t, n))
    → (n ≤ max_payload) × (src ≡ (to_byte t ∷ put_u32 n) ++ drop 5 src)
unfolding header
header_sound (tag ∷ b1 ∷ b2 ∷ b3 ∷ b4 ∷ rest) t n (h0, (h1, (h2, (h3, (h4, _))))) e = ground (
  arith,
  known_sound tag (from_be_bytes b1 b2 b3 b4) (from_u8 tag) {t = t} {n = n},
  from_u8_sound tag t,
  put_u32-from_be_bytes b1 b2 b3 b4 h1 h2 h3 h4,
)
header_sound [] t n h e = cc
header_sound (a ∷ []) t n h e = cc
header_sound (a ∷ b ∷ []) t n h e = cc
header_sound (a ∷ b ∷ c ∷ []) t n h e = cc
header_sound (a ∷ b ∷ c ∷ d ∷ []) t n h e = cc

pub payload_of_inv :
    (src : Bytes) (t : FrameType) (n : ℕ) {f : Frame} {rest : Bytes}
    → payload_of src t n ≡ (ok (some f), rest)
    → (f.frame_type ≡ t)
      × (f.payload ≡ take n (drop 5 src))
      × (rest ≡ drop n (drop 5 src))
      × (5 + n ≤ length src)
unfolding payload_of
payload_of_inv src t n e = ground arith

payload_of_sound :
    (src : Bytes) (t : FrameType) (n : ℕ) {f : Frame} {rest : Bytes}
    → src ≡ (to_byte t ∷ put_u32 n) ++ drop 5 src
    → payload_of src t n ≡ (ok (some f), rest)
    → (src ≡ wire f ++ rest) × (length f.payload ≡ n)
unfolding wire
payload_of_sound src t n {f} {rest} shape e =
    let (et, ep, er, big) = payload_of_inv src t n e in
    ground (arith, length-take n (drop 5 src), length-drop 5 src, take-append-drop n (drop 5 src))

pub decode_with_sound :
    (src : Bytes) (h : Result DecodeError (Option (FrameType × ℕ))) {f : Frame} {rest : Bytes}
    → decode_with src h ≡ (ok (some f), rest)
    → (t : FrameType) × (n : ℕ) × (h ≡ ok (some (t, n)))
      × (payload_of src t n ≡ (ok (some f), rest))
unfolding decode_with
decode_with_sound src (ok none) e = cc
decode_with_sound src (ok (some (t, n))) e = (t, n, refl, e)
decode_with_sound src (err x) e = cc

-- A frame is decoded only from a buffer of bytes that starts with that frame's encoding; what is left
-- in the buffer is what stands behind it, and the payload is within the cap.
pub decode_sound :
    (src : Bytes) (f : Frame) (rest : Bytes)
    → All IsByte src
    → decode src ≡ (ok (some f), rest)
    → (out : Bytes) × (encode f [] ≡ ok out)
      × (src ≡ out ++ rest)
      × (length f.payload ≤ max_payload)
unfolding decode
decode_sound src f rest bytes e =
    let (t, n, eh, ep) = decode_with_sound src (header src) e in
    let (cap, shape) = header_sound src t n bytes eh in
    let (whole, size) = payload_of_sound src t n shape ep in
    let fits : length f.payload ≤ max_payload = omega arith in
    (wire f, wire-encode f [] fits, whole, fits)
