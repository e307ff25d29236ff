-- ===== src/Frame.antt =====
-- The frames: src/core/enums/enums.py, src/core/enums/formats.py and
-- src/core/schemas/frame_schemas.py; the children translate the encoder and the decoder.
pub mod Struct
pub mod Mac
pub mod Crc
pub mod Codec
pub mod RoundTrip
use link_chat.Prelude.{
  ℕ, ◌+◌, ◌^◌, ◌<◌, ◌≡◌, refl, Bool, arith, ◌==◌, if◌then◌else◌, value_error, Result, ok, err,
}
use link_chat.Text.{Text, Bytes}
use link_chat.Text.Equality.{Eq}

pub data MessageType : Type 0 where
  discover_request discover_reply app_message ack file_meta file_data file_fin : MessageType

-- `auto()` counts from 1.
unfoldable pub value : MessageType → ℕ
value MessageType.discover_request = 1
value MessageType.discover_reply = 2
value MessageType.app_message = 3
value MessageType.ack = 4
value MessageType.file_meta = 5
value MessageType.file_data = 6
value MessageType.file_fin = 7

-- `MessageType(n)`
unfoldable pub message_type : ℕ → Result MessageType
message_type n =
    if n == 1
    then ok MessageType.discover_request
    else if n == 2
    then ok MessageType.discover_reply
    else if n == 3
    then ok MessageType.app_message
    else if n == 4
    then ok MessageType.ack
    else if n == 5
    then ok MessageType.file_meta
    else if n == 6
    then ok MessageType.file_data
    else if n == 7
    then ok MessageType.file_fin
    else err value_error

pub message_type-value : (t : MessageType) → message_type (value t) ≡ ok t
unfolding message_type value
message_type-value MessageType.discover_request = refl
message_type-value _ = refl

pub value-lt : (t : MessageType) → value t < 2 ^ 16
unfolding value
value-lt MessageType.discover_request = omega arith
value-lt _ = omega arith

abbrev pub type_beq : MessageType → MessageType → Bool
unfolding value
type_beq a b = value a == value b

pub record HeaderSchema : Type 0 where
  pub message_type : MessageType
  pub sequence : ℕ
  pub payload_len : ℕ
  pub checksum : ℕ

pub record FrameSchema : Type 0 where
  pub dst_mac : Text
  pub src_mac : Text
  pub ethertype : ℕ
  pub header : HeaderSchema
  pub payload : Bytes

-- `struct.calcsize("!HII")`, `struct.calcsize("!HIII")` and the length of "!6s6sH".
abbrev pub get_len_without_checksum : ℕ
get_len_without_checksum = 2 + 4 + 4

abbrev pub get_len_with_checksum : ℕ
get_len_with_checksum = 2 + 4 + 4 + 4

abbrev pub ether_header_len : ℕ
ether_header_len = 14
