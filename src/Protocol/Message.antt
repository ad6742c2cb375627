-- ===== src/Protocol/Message.antt =====
-- `Message` of src/protocol.rs: the typed payloads and their frames. `serde_json` is a parameter.
pub mod Typed
pub mod Signalled
pub mod RoundTrip
use nix_capsule.Prelude.{
  if◌then◌else◌, length, Result, ok, err, ◌>>=◌, map_err, Bytes, Str, ℕ, ◌≡◌, Bool, true, false,
  ◌&&◌, Option, none, some, List, [], ◌∷◌,
}
use nix_capsule.Protocol.FrameType.{FrameType}
use nix_capsule.Protocol.Errors.{
  DecodeError, non_empty_server_stopping, non_empty_request_version, EncodeError,
}
use nix_capsule.Protocol.Codec.{Frame}

pub record Request : Type 0 where
  pub command : Str
  pub args : List Str
  pub cwd : Str
  pub env : List Str

-- `code` and `signal` are `u8`.
pub record Exit : Type 0 where
  pub code : Option ℕ
  pub signal : Option ℕ

pub record ErrorMsg : Type 0 where
  pub message : Str

pub record VersionMsg : Type 0 where
  pub version : Str

pub record SignalMsg : Type 0 where
  pub signal : ℕ

pub data Message : Type 0 where
  request : Request → Message
  stdin : Bytes → Message
  stdout : Bytes → Message
  stderr : Bytes → Message
  exit : Exit → Message
  error : ErrorMsg → Message
  server_stopping : Message
  version : VersionMsg → Message
  signal : SignalMsg → Message
  request_version : Message
  server_version : VersionMsg → Message

-- `serde_json::to_vec` and `from_slice` at one type; a failure carries its text.
pub record JsonOf (A : Type 0) : Type 0 where
  pub to_vec : A → Result Str Bytes
  pub from_slice : Bytes → Result Str A

pub record Json : Type 0 where
  pub request : JsonOf Request
  pub exit : JsonOf Exit
  pub error : JsonOf ErrorMsg
  pub version : JsonOf VersionMsg
  pub signal : JsonOf SignalMsg

-- What is documented of `serde_json` for derived structs: what is written reads back.
abbrev pub ReadsBack : {A : Type 0} → JsonOf A → Type 0
ReadsBack {A} j = (a : A) (b : Bytes) → j.to_vec a ≡ ok b → j.from_slice b ≡ ok a

pub record JsonReadsBack (j : Json) : Type 0 where
  pub request : ReadsBack j.request
  pub exit : ReadsBack j.exit
  pub error : ReadsBack j.error
  pub version : ReadsBack j.version
  pub signal : ReadsBack j.signal

unfoldable pub frame_type : Message → FrameType
frame_type (request _) = FrameType.request
frame_type (stdin _) = FrameType.stdin
frame_type (stdout _) = FrameType.stdout
frame_type (stderr _) = FrameType.stderr
frame_type (exit _) = FrameType.exit
frame_type (error _) = FrameType.error
frame_type server_stopping = FrameType.server_stopping
frame_type (version _) = FrameType.version
frame_type (signal _) = FrameType.signal
frame_type request_version = FrameType.request_version
frame_type (server_version _) = FrameType.server_version

abbrev pub is_some : {A : Type 0} → Option A → Bool
is_some none = false
is_some (some a) = true

-- An `Exit` that sets both fields.
abbrev pub is_invalid : Exit → Bool
is_invalid e = is_some e.code && is_some e.signal

module _ (j : Json) where
  -- `payload` of `into_frame`: the `?` turns a `serde_json::Error` into `EncodeError::Json`.
  unfoldable pub payload_of_message : Message → Result EncodeError Bytes
  payload_of_message (stdin b) = ok b
  payload_of_message (stdout b) = ok b
  payload_of_message (stderr b) = ok b
  payload_of_message (request m) = map_err EncodeError.json (j.request.to_vec m)
  payload_of_message (exit m) = map_err EncodeError.json (j.exit.to_vec m)
  payload_of_message (error m) = map_err EncodeError.json (j.error.to_vec m)
  payload_of_message server_stopping = ok []
  payload_of_message (version m) = map_err EncodeError.json (j.version.to_vec m)
  payload_of_message (signal m) = map_err EncodeError.json (j.signal.to_vec m)
  payload_of_message request_version = ok []
  payload_of_message (server_version m) = map_err EncodeError.json (j.version.to_vec m)

  frame_of : Message → Result EncodeError Frame
  unfolding payload_of_message frame_type
  frame_of m = payload_of_message m >>= λ b. ok (record { frame_type = frame_type m; payload = b })

  unfoldable pub into_frame : Message → Result EncodeError Frame
  unfolding frame_of
  into_frame (exit e) = if is_invalid e then err EncodeError.invalid_exit else frame_of (exit e)
  into_frame m = frame_of m

  decode_exit : Exit → Result DecodeError Message
  decode_exit e = if is_invalid e then err DecodeError.invalid_exit else ok (exit e)

  abbrev empty_only : Bytes → DecodeError → Message → Result DecodeError Message
  empty_only [] e m = ok m
  empty_only (b ∷ bs) e m = err e

  from_parts : FrameType → Bytes → Result DecodeError Message
  unfolding decode_exit
  from_parts FrameType.request p =
      map_err DecodeError.json (j.request.from_slice p) >>= λ m. ok (request m)
  from_parts FrameType.stdin p = ok (stdin p)
  from_parts FrameType.stdout p = ok (stdout p)
  from_parts FrameType.stderr p = ok (stderr p)
  from_parts FrameType.exit p =
      map_err DecodeError.json (j.exit.from_slice p) >>= λ e. decode_exit e
  from_parts FrameType.error p =
      map_err DecodeError.json (j.error.from_slice p) >>= λ m. ok (error m)
  from_parts FrameType.server_stopping p =
      empty_only p (DecodeError.non_empty_server_stopping (length p)) server_stopping
  from_parts FrameType.version p =
      map_err DecodeError.json (j.version.from_slice p) >>= λ m. ok (version m)
  from_parts FrameType.signal p =
      map_err DecodeError.json (j.signal.from_slice p) >>= λ m. ok (signal m)
  from_parts FrameType.request_version p =
      empty_only p (DecodeError.non_empty_request_version (length p)) request_version
  from_parts FrameType.server_version p =
      map_err DecodeError.json (j.version.from_slice p) >>= λ m. ok (server_version m)

  unfoldable pub from_frame : Frame → Result DecodeError Message
  unfolding from_parts
  from_frame f = from_parts f.frame_type f.payload
