-- ===== src/Client/Errors.antt =====
-- `ClientError` of src/client/mod.rs, with the text that `thiserror` derives.
use nix_capsule.Prelude.{Str, codes, ◌++◌}
use nix_capsule.Prelude.Io.{IoError}
use nix_capsule.Protocol.Errors.{DecodeError, EncodeError, decode_error_text, encode_error_text}

-- `forward_env` carries the text of the `serde_json::Error`.
pub data ClientError : Type 0 where
  connect : Str → IoError → ClientError
  current_dir : IoError → ClientError
  write_stdout : IoError → ClientError
  write_stderr : IoError → ClientError
  signal_handler : Str → IoError → ClientError
  forward_env : Str → ClientError
  env_flag : Str → ClientError
  missing_exit_status : ClientError
  receive : DecodeError → ClientError
  send : EncodeError → ClientError
  server_error : Str → ClientError

unfoldable pub client_error_text : ClientError → Str
client_error_text (connect socket e) =
    codes "cannot connect to socket `" ++ socket ++ codes "`: " ++ e.text
client_error_text (current_dir e) = codes "cannot resolve the current directory: " ++ e.text
client_error_text (write_stdout e) = codes "cannot write to stdout: " ++ e.text
client_error_text (write_stderr e) = codes "cannot write to stderr: " ++ e.text
client_error_text (signal_handler signal e) =
    codes "cannot install the `" ++ signal ++ codes "` handler: " ++ e.text
client_error_text (forward_env s) =
    codes "`NCAP_ENV_FORWARD` is not a JSON array of variable names: " ++ s
client_error_text (env_flag flag) = codes "`--env` `" ++ flag ++ codes "` has an empty key"
client_error_text missing_exit_status = codes "`Exit` frame carries neither `code` nor `signal`"
client_error_text (receive e) = codes "cannot read a frame from the socket: " ++ decode_error_text e
client_error_text (send e) = codes "cannot send a frame to the socket: " ++ encode_error_text e
client_error_text (server_error message) = codes "server error: " ++ message
