-- ===== src/Protocol/Format.antt =====
-- include/Protocol.h and the constants at the top of src/Protocol.cpp.
use log_bridge.Base.{ℕ, ◌+◌, ◌*◌}

abbrev pub magic : ℕ
magic = 0x4c474231

abbrev pub version : ℕ
version = 2

abbrev pub frame_header_size : ℕ
frame_header_size = 12

abbrev pub max_client_id_length : ℕ
max_client_id_length = 128

abbrev pub max_source_length : ℕ
max_source_length = 4 * 1024

abbrev pub max_content_length : ℕ
max_content_length = 1024 * 1024

abbrev pub max_batch_message_count : ℕ
max_batch_message_count = 100

abbrev pub max_frame_payload_length : ℕ
max_frame_payload_length = 16 * 1024 * 1024

abbrev pub log_record_fixed_size : ℕ
log_record_fixed_size = 8 + 8 + 4 + 4 + 4

abbrev pub ack_payload_size : ℕ
ack_payload_size = 8

abbrev pub batch_prefix_size : ℕ
batch_prefix_size = 4

pub data MessageType : Type 0 where
  log ack log_batch : MessageType

-- The enumerators' values, `static_cast<std::uint8_t>(type)`.
abbrev pub type_code : MessageType → ℕ
type_code log = 1
type_code ack = 2
type_code log_batch = 3

pub record FrameHeader : Type 0 where
  pub version : ℕ
  pub type : MessageType
  pub payload_length : ℕ

pub record AckMessage : Type 0 where
  pub confirmed_id : ℕ
