-- ===== src/Message.antt =====
-- class DpaMessage (include/DpaMessage.h): a packet buffer of 64 bytes and the number of bytes used.
-- The views of the union are byte offsets of the buffer; 16-bit fields are little-endian, as on the
-- program's targets. Fresh buffers are zero: `new DpaPacket_t()` initialises its value.
pub mod Validity
pub mod Contents
pub mod Direction
mod Tests
use clibdpa.Base.{
  ℕ, ◌+◌, ◌*◌, ◌%◌, Bool, ◌&&◌, ◌||◌, List, Option, none, some, ltb, ◌==◌, if◌then◌else◌, length,
  get_or, take, replicate, overwrite, Result, ok, err, invalid_argument, length_error, logic_error,
}
use clibdpa.Base.Int.{ℤ, pos, ltb_ℤ, leb_ℤ, pos_part}
use clibdpa.Base.Bytes.{has_bit7}
use clibdpa.Protocol.{status_confirmation}

-- MAX_DPA_BUFFER and kMaxDpaMessageSize.
abbrev pub max_dpa_message_size : ℕ
max_dpa_message_size = 64

-- enum MessageType.
pub data MessageType : Type 0 where
  request confirmation notification response : MessageType

-- `buffer` is the union's `Buffer`.
pub record DpaMessage : Type 0 where
  pub buffer : List ℕ
  pub m_length : ℕ

abbrev pub empty_packet : List ℕ
empty_packet = replicate max_dpa_message_size 0

-- DpaMessage()
unfoldable pub empty : DpaMessage
empty = record { buffer = empty_packet; m_length = 0 }

-- DataToBuffer(data, length). `none` is the null pointer; the length is a uint8_t.
unfoldable pub data_to_buffer : DpaMessage → Option (List ℕ) → ℕ → Result DpaMessage
data_to_buffer m bytes len = if len == 0 then ok m else elim bytes [
  | none ↦ err invalid_argument
  | some xs ↦
      if ltb max_dpa_message_size len
      then err length_error
      else ok (record m { buffer = overwrite (take len xs) m.buffer; m_length = len })
]

-- DpaMessage(data, length). The constructor does not initialise `m_length`: what the member held
-- is the argument `stale`.
unfoldable pub from_data : ℕ → Option (List ℕ) → ℕ → Result DpaMessage
unfolding data_to_buffer
from_data stale bytes len =
    data_to_buffer (record { buffer = empty_packet; m_length = stale }) bytes len

-- `static_cast<uint8_t>(message.length())`.
abbrev pub length_u8 : List ℕ → ℕ
length_u8 xs = length xs % 256

-- DpaMessage(message), from a string of bytes.
unfoldable pub from_string : ℕ → List ℕ → Result DpaMessage
unfolding data_to_buffer
from_string stale xs =
    data_to_buffer (record { buffer = empty_packet; m_length = stale }) (some xs) (length_u8 xs)

-- DpaMessage(other)
unfoldable pub copy : DpaMessage → DpaMessage
copy other = record {
  buffer = overwrite (take other.m_length other.buffer) empty_packet;
  m_length = other.m_length;
}

-- operator=(other). `same` tells that both sides are one object.
unfoldable pub assign : DpaMessage → Bool → DpaMessage → DpaMessage
assign m same other = if same then m else record {
  buffer = overwrite (take other.m_length other.buffer) empty_packet;
  m_length = other.m_length;
}

-- operator=(message), from a string of bytes.
unfoldable pub assign_string : DpaMessage → List ℕ → Result DpaMessage
unfolding data_to_buffer
assign_string m xs = data_to_buffer m (some xs) (length_u8 xs)

-- FillFromResponse(data, length)
unfoldable pub fill_from_response : DpaMessage → Option (List ℕ) → ℕ → Result DpaMessage
unfolding data_to_buffer
fill_from_response m bytes len =
    if len == 0 then err invalid_argument else data_to_buffer m bytes len

-- GetLength()
abbrev pub get_length : DpaMessage → ℕ
get_length m = m.m_length

-- SetLength(length), of an int.
unfoldable pub set_length : DpaMessage → ℤ → Result DpaMessage
set_length m len =
    if ltb_ℤ (pos max_dpa_message_size) len || leb_ℤ len (pos 0)
    then err length_error
    else ok (record m { m_length = pos_part len })

-- The byte of the buffer at an offset.
abbrev pub byte_at : DpaMessage → ℕ → ℕ
byte_at m i = get_or m.buffer i 0

-- NodeAddress(), the field NADR.
unfoldable pub node_address : DpaMessage → ℕ
node_address m = byte_at m 0 + 256 * byte_at m 1

-- PeripheralType(), the field PNUM.
unfoldable pub peripheral_type : DpaMessage → ℕ
peripheral_type m = byte_at m 2

-- PeripheralCommand(), the field PCMD.
unfoldable pub peripheral_command : DpaMessage → ℕ
peripheral_command m = byte_at m 3

-- The field ResponseCode of the response packet.
unfoldable pub response_code_field : DpaMessage → ℕ
response_code_field m = byte_at m 6

abbrev pub command_index : ℕ
command_index = 3

abbrev pub status_code_index : ℕ
status_code_index = 6

-- IsConfirmationMessage()
unfoldable pub is_confirmation_message : DpaMessage → Bool
unfolding response_code_field
is_confirmation_message m = response_code_field m == status_confirmation

-- MessageDirection()
unfoldable pub message_direction : DpaMessage → MessageType
message_direction m =
    if ltb m.m_length command_index
    then request
    else if has_bit7 (peripheral_command m)
    then response
    else if ltb status_code_index m.m_length && is_confirmation_message m
    then confirmation
    else request

abbrev is_response : MessageType → Bool
is_response response = Bool.true
is_response _ = Bool.false

-- ResponseCode()
unfoldable pub response_code : DpaMessage → Result ℕ
response_code m =
    if is_response (message_direction m) then ok (response_code_field m) else err logic_error
