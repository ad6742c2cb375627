-- ===== src/Protocol/Codec/Streaming.antt =====
-- `decode` of src/protocol.rs on a buffer that still grows.
use nix_capsule.Prelude.{
  ltb, ltb→lt, Bool-cases, Option-cases, not_ltb-le, length, take, drop, length-append, length-drop,
  take-append_le, drop-append_le, Result, ok, err, Result-cases, Bytes, ℕ, ◌+◌, ◌≤◌, ◌<◌, ◌≡◌, sym,
  ap, ◌∙◌, ◌≢◌, ◌⊎◌, inl, inr, Option, none, some, [], ◌∷◌, ◌++◌, append-nil, arith,
}
use nix_capsule.Protocol.FrameType.{FrameType, from_u8}
use nix_capsule.Protocol.Errors.{DecodeError}
use nix_capsule.Protocol.Codec.RoundTrip.{
  encode-wire, header-wire, decode-encode, payload_of_inv, decode_with_sound,
}
use nix_capsule.Protocol.Codec.{
  Frame, max_payload, from_be_bytes, known, header, payload_of, decode_with, decode, encode,
}

header-append :
    (src more : Bytes) (h : FrameType × ℕ)
    → header src ≡ ok (some h)
    → header (src ++ more) ≡ ok (some h)
unfolding header
header-append (tag ∷ b1 ∷ b2 ∷ b3 ∷ b4 ∷ rest) more h e = e
header-append [] more h e = cc
header-append (a ∷ []) more h e = cc
header-append (a ∷ b ∷ []) more h e = cc
header-append (a ∷ b ∷ c ∷ []) more h e = cc
header-append (a ∷ b ∷ c ∷ d ∷ []) more h e = cc

header-append_err :
    (src more : Bytes) (x : DecodeError) → header src ≡ err x → header (src ++ more) ≡ err x
unfolding header
header-append_err (tag ∷ b1 ∷ b2 ∷ b3 ∷ b4 ∷ rest) more h e = e
header-append_err [] more h e = cc
header-append_err (a ∷ []) more h e = cc
header-append_err (a ∷ b ∷ []) more h e = cc
header-append_err (a ∷ b ∷ c ∷ []) more h e = cc
header-append_err (a ∷ b ∷ c ∷ d ∷ []) more h e = cc

payload_of-append :
    (src more : Bytes) (t : FrameType) (n : ℕ) {f : Frame} {rest : Bytes}
    → payload_of src t n ≡ (ok (some f), rest)
    → payload_of (src ++ more) t n ≡ (ok (some f), rest ++ more)
payload_of-append src more t n e =
    let (et, ep, er, big) = payload_of_inv src t n e in
    unfold payload_of in
    ground (
      arith,
      length-append src more,
      length-drop 5 src,
      drop-append_le 5 src more,
      take-append_le n (drop 5 src) more,
      drop-append_le n (drop 5 src) more,
    )

-- Bytes that arrive behind a complete frame change neither the decoded frame nor what was left behind
-- it: they join the rest.
pub decode-append :
    (src more : Bytes) (f : Frame) (rest : Bytes)
    → decode src ≡ (ok (some f), rest)
    → decode (src ++ more) ≡ (ok (some f), rest ++ more)
unfolding decode
decode-append src more f rest e =
    let (t, n, eh, ep) = decode_with_sound src (header src) e in
    rw (header-append src more (t, n) eh) (payload_of-append src more t n ep)

payload_of_cases :
    (src : Bytes) (t : FrameType) (n : ℕ)
    → (payload_of src t n ≡ (ok none, src))
      ⊎ ((f : Frame) × (rest : Bytes) × (payload_of src t n ≡ (ok (some f), rest)))
unfolding payload_of
payload_of_cases src t n = elim (Bool-cases (ltb (length src) (5 + n))) [
  | inl small ↦ inl (rw small)
  | inr enough ↦
      inr (record { frame_type = t; payload = take n (drop 5 src) }, drop n (drop 5 src), rw enough)
]

-- The three ways in which `decode` ends.
decode_cases :
    (src : Bytes)
    → (decode src ≡ (ok none, src))
      ⊎ (((f : Frame) × (rest : Bytes) × (decode src ≡ (ok (some f), rest)))
          ⊎ ((x : DecodeError) × (header src ≡ err x)))
unfolding decode
decode_cases src = elim (Result-cases (header src)) [
  | inl (none, e) ↦ inl (rw e)
  | inl (some (t, n), e) ↦ elim (payload_of_cases src t n) [
    | inl waits ↦ inl (rw e waits)
    | inr (f, rest, found) ↦ inr (inl (f, rest, rw e found))
  ]
  | inr (x, e) ↦ inr (inr (x, e))
]

append-ne-nil : (xs : Bytes) (b : ℕ) (ys : Bytes) → xs ++ b ∷ ys ≢ []
append-ne-nil [] b ys e = cc
append-ne-nil (x ∷ xs) b ys e = cc

-- A prefix of a frame's bytes that is not the whole of them decodes to nothing and stays in the
-- buffer: `decode` waits for the rest.
pub decode_partial :
    (f : Frame) (front back out : Bytes) (b : ℕ)
    → encode f [] ≡ ok out
    → out ≡ front ++ b ∷ back
    → decode front ≡ (ok none, front)
decode_partial f front back out b e split = elim (decode_cases front) [
  | inl waits ↦ waits
  | inr (inl (g, rest, found)) ↦ absurd (
      append-ne-nil rest b back (
        ap (λ (p : Result DecodeError (Option Frame) × Bytes). p.1)
          (sym (decode-append front (b ∷ back) g rest found) ∙ whole)))
  | inr (inr (x, bad)) ↦ absurd (cc (header-append_err front (b ∷ back) x bad, whole_header))
]
  where
    whole : decode (front ++ b ∷ back) ≡ (ok (some f), [])
    whole = rw (← split) (rw append-nil at (decode-encode f out [] e))

    whole_header : header (front ++ b ∷ back) ≡ ok (some (f.frame_type, length f.payload))
    whole_header =
        let (shape, fits) = encode-wire f [] out e in
        rw (← split, shape) (rw append-nil at (header-wire f [] fits))

decode_with-ne-err :
    (src : Bytes) (t : FrameType) (n : ℕ) (x : DecodeError)
    → (decode_with src (ok (some (t, n)))).0 ≢ err x
unfolding decode_with payload_of
decode_with-ne-err src t n x e = ground arith

-- With five bytes in the buffer one of three things holds: the declared length is above the cap, and
-- `decode` fails with it; the length is within the cap and the tag is unknown, and `decode` fails with
-- the tag; or both are good, and `decode` does not fail, however much of the payload is there. Each
-- failure leaves the buffer as it was.
pub decode_verdict :
    (tag b1 b2 b3 b4 : ℕ) (rest : Bytes)
    → let src = tag ∷ b1 ∷ b2 ∷ b3 ∷ b4 ∷ rest in
      let size = from_be_bytes b1 b2 b3 b4 in
      ((max_payload < size) × (decode src ≡ (err (DecodeError.payload_too_large size), src)))
      ⊎ (((size ≤ max_payload)
            × (from_u8 tag ≡ none)
            × (decode src ≡ (err (DecodeError.unknown_frame_type tag), src)))
          ⊎ ((size ≤ max_payload)
              × (from_u8 tag ≢ none)
              × ((x : DecodeError) → (decode src).0 ≢ err x)))
unfolding decode header
decode_verdict tag b1 b2 b3 b4 rest =
    elim (Bool-cases (ltb max_payload (from_be_bytes b1 b2 b3 b4))) [
      | inl big ↦ inl (ltb→lt max_payload _ big, rw big)
      | inr small ↦ inr (elim (Option-cases (from_u8 tag)) [
        | inl unknown ↦ inl (not_ltb-le max_payload _ small, unknown, rw (small, unknown))
        | inr (t, known) ↦ inr (
          not_ltb-le max_payload _ small,
          λ e. cc,
          λ x.
              rw (small, known)
                (decode_with-ne-err (tag ∷ b1 ∷ b2 ∷ b3 ∷ b4 ∷ rest) t (from_be_bytes b1 b2 b3 b4)
                  x),
        )
      ])
    ]
