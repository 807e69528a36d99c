-- ===== src/Frame.antt =====
-- The outer frame of lib.rs: `encode_message` and `decode_message`.
pub mod RoundTrip
use d_hsm.Prelude.{
  ℕ, ◌+◌, ◌%◌, ◌^◌, List, [], ◌∷◌, ◌++◌, Bool, not, Option, none, some, ltb, ◌==◌, if◌then◌else◌,
  length, take, drop,
}
use d_hsm.Prelude.Bytes.{be_bytes, be_value}
use d_hsm.Prelude.Attempt.{Attempt, done, failed, ensure, ok_or, ◌>>=◌, ◌>>◌}

pub data MessageType : Type 0 where
  get_measurement sign_authorization_ticket arm_for_production get_status : MessageType
  agent_gateway agent_boot_relay agent_anchor_marks_relay agent_anchor_commit_relay : MessageType
  sign_block_root : MessageType

-- The variants of `ProtocolError` that the frame makes.
pub data FrameError : Type 0 where
  too_short length_mismatch : FrameError
  message_too_large : ℕ → FrameError
  invalid_version : ℕ → FrameError
  unknown_message_type : ℕ → FrameError

pub record FramedMessage : Type 0 where
  pub version : ℕ
  pub msg_type : MessageType
  pub payload : List ℕ

abbrev pub protocol_version : ℕ
protocol_version = 1

abbrev pub max_message_size : ℕ
max_message_size = 1048576

-- `msg_type as u8`.
abbrev pub type_byte : MessageType → ℕ
type_byte get_measurement = 0x01
type_byte sign_authorization_ticket = 0x10
type_byte arm_for_production = 0x20
type_byte get_status = 0x30
type_byte agent_gateway = 0x40
type_byte agent_boot_relay = 0x41
type_byte agent_anchor_marks_relay = 0x44
type_byte agent_anchor_commit_relay = 0x45
type_byte sign_block_root = 0x50

abbrev pub type_of_byte : ℕ → Option MessageType
type_of_byte b =
    if b == 0x01
    then some get_measurement
    else if b == 0x10
    then some sign_authorization_ticket
    else if b == 0x20
    then some arm_for_production
    else if b == 0x30
    then some get_status
    else if b == 0x40
    then some agent_gateway
    else if b == 0x41
    then some agent_boot_relay
    else if b == 0x44
    then some agent_anchor_marks_relay
    else if b == 0x45
    then some agent_anchor_commit_relay
    else if b == 0x50
    then some sign_block_root
    else none

-- `total_len as u32` is modulo 2^32.
unfoldable pub encode_message_raw : ℕ → List ℕ → Attempt FrameError (List ℕ)
unfolding be_bytes
encode_message_raw byte payload = do
  let total_len = 2 + length payload
  ensure (not (ltb max_message_size total_len)) (message_too_large (total_len % 2 ^ 32))
  done (be_bytes 4 total_len ++ (protocol_version ∷ byte ∷ payload))

unfoldable pub encode_message : MessageType → List ℕ → Attempt FrameError (List ℕ)
unfolding encode_message_raw
encode_message t payload = encode_message_raw (type_byte t) payload

-- `data[i]`, of a slice that is long enough.
abbrev pub byte_at : ℕ → List ℕ → ℕ
byte_at i data_bytes = elim (drop i data_bytes) [ [] ↦ 0 | b ∷ bs ↦ b ]

unfoldable pub decode_message : List ℕ → Attempt FrameError FramedMessage
unfolding be_value
decode_message bytes = do
  ensure (not (ltb (length bytes) 6)) too_short
  let total_len = be_value (take 4 bytes)
  ensure (not (ltb max_message_size total_len)) (message_too_large total_len)
  ensure (length bytes == 4 + total_len) length_mismatch
  let version = byte_at 4 bytes
  ensure (version == protocol_version) (invalid_version version)
  let byte = byte_at 5 bytes
  msg_type ← ok_or (type_of_byte byte) (unknown_message_type byte)
  done (record { version = version; msg_type = msg_type; payload = drop 6 bytes })
