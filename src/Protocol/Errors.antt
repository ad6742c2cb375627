-- ===== src/Protocol/Errors.antt =====
-- `DecodeError` and `EncodeError` of src/protocol.rs, with the text that `thiserror` derives.
use nix_capsule.Prelude.{ltb, if◌then◌else◌, Str, codes, ℕ, ◌+◌, ◌-◌, ◌/◌, ◌%◌, [], ◌∷◌, ◌++◌}
use nix_capsule.Prelude.Decimal.{to_decimal}
use nix_capsule.Prelude.Io.{IoError}

-- `json` carries the text of the `serde_json::Error`.
pub data DecodeError : Type 0 where
  unknown_frame_type : ℕ → DecodeError
  payload_too_large : ℕ → DecodeError
  json : Str → DecodeError
  non_empty_server_stopping : ℕ → DecodeError
  invalid_exit : DecodeError
  non_empty_request_version : ℕ → DecodeError
  read : IoError → DecodeError

pub data EncodeError : Type 0 where
  payload_too_large : ℕ → EncodeError
  json : Str → EncodeError
  invalid_exit : EncodeError
  write : IoError → EncodeError

hex_digit : ℕ → ℕ
hex_digit d = if ltb d 10 then b'0' + d else b'a' + (d - 10)

-- `{:#x}` of a byte.
hex_byte : ℕ → Str
unfolding hex_digit
hex_byte b =
    codes "0x"
    ++ (if ltb b 16 then hex_digit b ∷ [] else hex_digit (b / 16) ∷ hex_digit (b % 16) ∷ [])

unfoldable pub decode_error_text : DecodeError → Str
unfolding hex_byte
decode_error_text (unknown_frame_type b) = codes "unknown frame tag: `" ++ hex_byte b ++ codes "`"
decode_error_text (payload_too_large n) =
    codes "frame declares a " ++ to_decimal n ++ codes "-byte payload above the 16 MiB cap"
decode_error_text (json s) = codes "frame payload parse error: " ++ s
decode_error_text (non_empty_server_stopping n) =
    codes "non-empty `ServerStopping` payload: " ++ to_decimal n ++ codes " bytes"
decode_error_text invalid_exit = codes "both `code` and `signal` set in `Exit` frame"
decode_error_text (non_empty_request_version n) =
    codes "non-empty `RequestVersion` payload: " ++ to_decimal n ++ codes " bytes"
decode_error_text (read e) = e.text

unfoldable pub encode_error_text : EncodeError → Str
encode_error_text (payload_too_large n) =
    codes "frame payload above the 16 MiB cap: " ++ to_decimal n ++ codes " bytes"
encode_error_text (json s) = codes "frame payload serialization error: " ++ s
encode_error_text invalid_exit = codes "both `code` and `signal` set in `Exit` frame"
encode_error_text (write e) = e.text
