-- ===== src/Protocol/FrameType.antt =====
-- `FrameType` of src/protocol.rs and its tag bytes.
use nix_capsule.Prelude.{◌==◌, if◌then◌else◌, ℕ, ◌≤◌, ◌≡◌, refl, Option, none, some, arith}

pub data FrameType : Type 0 where
  request stdin stdout stderr exit error server_stopping : FrameType
  version signal request_version server_version : FrameType

unfoldable pub from_u8 : ℕ → Option FrameType
from_u8 b =
    if b == 0x01
    then some request
    else if b == 0x02
    then some stdin
    else if b == 0x03
    then some stdout
    else if b == 0x04
    then some stderr
    else if b == 0x05
    then some exit
    else if b == 0x06
    then some error
    else if b == 0x07
    then some server_stopping
    else if b == 0x08
    then some version
    else if b == 0x09
    then some signal
    else if b == 0x0a
    then some request_version
    else if b == 0x0b
    then some server_version
    else none

-- `self as u8`
unfoldable pub to_byte : FrameType → ℕ
to_byte request = 0x01
to_byte stdin = 0x02
to_byte stdout = 0x03
to_byte stderr = 0x04
to_byte exit = 0x05
to_byte error = 0x06
to_byte server_stopping = 0x07
to_byte version = 0x08
to_byte signal = 0x09
to_byte request_version = 0x0a
to_byte server_version = 0x0b

pub from_u8-to_byte : (t : FrameType) → from_u8 (to_byte t) ≡ some t
unfolding from_u8 to_byte
from_u8-to_byte request = refl
from_u8-to_byte _ = refl

pub from_u8_sound : (b : ℕ) (t : FrameType) → from_u8 b ≡ some t → b ≡ to_byte t
unfolding from_u8 to_byte
from_u8_sound b request h = ground arith
from_u8_sound b _ h = ground arith

pub to_byte_range : (t : FrameType) → (1 ≤ to_byte t) × (to_byte t ≤ 11)
unfolding to_byte
to_byte_range request = omega arith
to_byte_range _ = omega arith
