-- ===== src/Server/Rejection.antt =====
-- `Rejection` of src/server.rs: why a connection ends with an `Error` frame, and the frame's text.
use nix_capsule.Prelude.{Str, codes, ◌++◌}
use nix_capsule.Prelude.Io.{IoError}
use nix_capsule.Protocol.FrameType.{FrameType}
use nix_capsule.Protocol.Errors.{DecodeError, decode_error_text}

pub data Rejection : Type 0 where
  expected_request : FrameType → Rejection
  undecodable : DecodeError → Rejection
  not_a_directory : Str → Rejection
  bad_env_entry : Str → Rejection
  spawn : Str → IoError → Rejection
  wait : Str → IoError → Rejection

-- `{:?}` of a `FrameType`.
debug_name : FrameType → Str
debug_name FrameType.request = codes "Request"
debug_name FrameType.stdin = codes "Stdin"
debug_name FrameType.stdout = codes "Stdout"
debug_name FrameType.stderr = codes "Stderr"
debug_name FrameType.exit = codes "Exit"
debug_name FrameType.error = codes "Error"
debug_name FrameType.server_stopping = codes "ServerStopping"
debug_name FrameType.version = codes "Version"
debug_name FrameType.signal = codes "Signal"
debug_name FrameType.request_version = codes "RequestVersion"
debug_name FrameType.server_version = codes "ServerVersion"

unfoldable pub rejection_text : Rejection → Str
unfolding debug_name
rejection_text (expected_request got) =
    codes "expected a `Request` or `RequestVersion` frame first, got `"
    ++ debug_name got
    ++ codes "`"
rejection_text (undecodable e) = decode_error_text e
rejection_text (not_a_directory cwd) = codes "`cwd` is not a directory: `" ++ cwd ++ codes "`"
rejection_text (bad_env_entry entry) = codes "invalid env entry `" ++ entry ++ codes "`"
rejection_text (spawn command e) = codes "cannot spawn `" ++ command ++ codes "`: " ++ e.text
rejection_text (wait command e) = codes "cannot wait for `" ++ command ++ codes "`: " ++ e.text
