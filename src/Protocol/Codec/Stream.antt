-- ===== src/Protocol/Codec/Stream.antt =====
-- A whole connection's bytes: frames encoded one behind the other, and a reader that calls `decode`
-- until it returns no frame, as `tokio_util::codec::Framed` does.
use nix_capsule.Prelude.{
  length, length-append, all, All, Result, ok, err, ◌>>=◌, Result-cases, Bytes, ℕ, zero, suc, ◌≤◌,
  ◌<◌, ◌≡◌, refl, ap, ◌∙◌, inl, inr, Option, none, some, List, [], ◌∷◌, ◌++◌, append-nil,
  append_assoc, arith,
}
use nix_capsule.Protocol.Errors.{DecodeError, EncodeError}
use nix_capsule.Protocol.Codec.{Frame, max_payload, header, decode, encode}
use nix_capsule.Protocol.Codec.RoundTrip.{wire, encode-wire, decode-wire}

-- `encode` for each frame, into one buffer.
unfoldable pub encode_all : List Frame → Bytes → Result EncodeError Bytes
encode_all [] dst = ok dst
encode_all (f ∷ fs) dst = encode f dst >>= λ out. encode_all fs out

-- What reading with fuel ends in: the frames, the bytes still held, and whether the reader stopped
-- because it had to wait for more bytes.
pub data Reading : Type 0 where
  waiting : List Frame → Bytes → Reading
  failed : List Frame → DecodeError → Reading
  unfinished : Reading

abbrev prepend : Frame → Reading → Reading
prepend f (waiting fs src) = waiting (f ∷ fs) src
prepend f (failed fs e) = failed (f ∷ fs) e
prepend f unfinished = unfinished

abbrev after_decode : (Bytes → Reading) → Result DecodeError (Option Frame) × Bytes → Reading
after_decode next (ok (some f), rest) = prepend f (next rest)
after_decode next (ok none, rest) = waiting [] rest
after_decode next (err e, rest) = failed [] e

-- On fuel; each frame takes at least one byte, so one more round than bytes is enough.
unfoldable pub read_frames : ℕ → Bytes → Reading
read_frames zero src = unfinished
read_frames (suc fuel) src = after_decode (read_frames fuel) (decode src)

wires : List Frame → Bytes
wires [] = []
wires (f ∷ fs) = wire f ++ wires fs

encode_all-wires :
    (fs : List Frame) (dst : Bytes) {out : Bytes}
    → encode_all fs dst ≡ ok out
    → (out ≡ dst ++ wires fs) × All (λ f. length f.payload ≤ max_payload) fs
unfolding encode_all wires
encode_all-wires [] dst e = (ground (arith, append-nil dst), tt)
encode_all-wires (f ∷ fs) dst {out} e = elim (Result-cases (encode f dst)) [
  | inl (mid, em) ↦
      let (shape, fits) = encode-wire f dst mid em in
      let (rest, all) = encode_all-wires fs mid {out = out} (rw em at e) in
      (rest ∙ rw (shape, append_assoc), (fits, all))
  | inr (x, ex) ↦ cc
]

read_frames_step :
    (fuel : ℕ) (f : Frame) (rest : Bytes)
    → length f.payload ≤ max_payload
    → read_frames (suc fuel) (wire f ++ rest) ≡ prepend f (read_frames fuel rest)
unfolding read_frames
read_frames_step fuel f rest fits = ap (after_decode (read_frames fuel)) (decode-wire f rest fits)

read_frames_end : (fuel : ℕ) → read_frames (suc fuel) [] ≡ waiting [] []
unfolding read_frames decode header
read_frames_end fuel = refl

length-wire : (f : Frame) (rest : Bytes) → length rest < length (wire f ++ rest)
unfolding wire
length-wire f rest = omega (arith, length-append f.payload rest)

read_frames-wires :
    (fs : List Frame) (fuel : ℕ)
    → All (λ f. length f.payload ≤ max_payload) fs
    → length (wires fs) < fuel
    → read_frames fuel (wires fs) ≡ waiting fs []
unfolding wires
read_frames-wires fs zero all enough = absurd (omega arith)
read_frames-wires [] (suc fuel) all enough = read_frames_end fuel
read_frames-wires (f ∷ fs) (suc fuel) (fits, all) enough =
    read_frames_step fuel f (wires fs) fits
    ∙ ap (prepend f) (read_frames-wires fs fuel all (omega (arith, length-wire f (wires fs))))

-- Whatever frames one end encodes into a buffer, the other end reads back, all of them and in order,
-- with nothing left over; one round of `decode` more than there are bytes is enough.
pub read_frames-encode_all :
    (fs : List Frame) (out : Bytes)
    → encode_all fs [] ≡ ok out
    → read_frames (suc (length out)) out ≡ waiting fs []
read_frames-encode_all fs out e =
    let (shape, all) = encode_all-wires fs [] {out = out} e in
    rw shape (read_frames-wires fs _ all (omega arith))
