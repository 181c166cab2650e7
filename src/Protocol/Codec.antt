-- ===== src/Protocol/Codec.antt =====
-- The public functions of src/Protocol.cpp.
use log_bridge.Base.{
  ℕ, zero, suc, ◌+◌, ◌-◌, ◌%◌, ◌^◌, ◌||◌, not, ltb, leb, ◌==◌, bytes_eq, length, List, [], ◌∷◌,
  Bool, Result, ok, err, protocol, invalid_magic, unsupported_version, reserved_bits,
  payload_too_large, not_log, fields_do_not_fill, empty_batch, too_many_messages,
  multiple_client_ids, ids_not_increasing, batch_too_large, not_batch, invalid_batch_count, not_ack,
  invalid_ack_length, ◌>>=◌, ◌>>◌, throw_if,
}
use log_bridge.Message.{Bytes, LogMessage}
use log_bridge.Protocol.Format.{
  MessageType, log, ack, log_batch, type_code, FrameHeader, AckMessage, magic, version,
  frame_header_size, max_frame_payload_length, max_batch_message_count, batch_prefix_size,
  ack_payload_size,
}
use log_bridge.Protocol.Reader as Reader
use log_bridge.Protocol.Reader.{Reader}
use log_bridge.Protocol.Write.{
  append_frame_header, append_log_record, log_record_size, append_uint32, append_uint64,
}
use log_bridge.Protocol.Read.{
  require_bytes, read_uint8, read_uint16, read_uint32, read_uint64, parse_message_type,
  read_log_record, require_frame_size,
}

-- `header.type == type`.
abbrev pub is_type : MessageType → MessageType → Bool
is_type a b = type_code a == type_code b

-- The checks of `parseFrameHeader` on the fields that it has read.
unfoldable pub check_header : ℕ → ℕ → ℕ → ℕ → ℕ → Result FrameHeader
check_header found_magic found_version raw_type reserved payload_length = do
  throw_if (not (found_magic == magic)) (protocol invalid_magic)
  throw_if (not (found_version == version)) (protocol unsupported_version)
  throw_if (not (reserved == 0)) (protocol reserved_bits)
  throw_if (ltb max_frame_payload_length payload_length) (protocol payload_too_large)
  type ← parse_message_type raw_type
  ok (record { version = found_version; type = type; payload_length = payload_length })

-- The fields in their order, from the reader's own `offset`.
unfoldable pub read_header_fields : Reader FrameHeader
unfolding check_header
read_header_fields = Reader.◌>>=◌ read_uint32 λ found_magic.
    Reader.◌>>=◌ read_uint8 λ found_version. Reader.◌>>=◌ read_uint8 λ raw_type.
      Reader.◌>>=◌ read_uint16 λ reserved. Reader.◌>>=◌ read_uint32 λ payload_length.
        Reader.lift (check_header found_magic found_version raw_type reserved payload_length)

unfoldable pub parse_frame_header : Bytes → Result FrameHeader
parse_frame_header header = do
  require_bytes header 0 frame_header_size
  (fields, offset) ← read_header_fields header 0
  ok fields

unfoldable pub serialize_log_message : LogMessage → Result Bytes
serialize_log_message message = do
  payload_size ← log_record_size message
  let payload_length = payload_size % 2 ^ 32
  ok (append_log_record (append_frame_header [] log payload_length) message)

unfoldable pub deserialize_log_message : Bytes → Result LogMessage
deserialize_log_message frame = do
  header ← parse_frame_header frame
  throw_if (not (is_type header.type log)) (protocol not_log)
  require_frame_size frame header
  (message, offset) ← read_log_record frame frame_header_size
  throw_if (not (offset == length frame)) (protocol fields_do_not_fill)
  ok message

-- `MaxFramePayloadLength - payloadSize` in `std::size_t`.
abbrev pub room_left : ℕ → ℕ
room_left payload_size = (max_frame_payload_length + 2 ^ 64 - payload_size) % 2 ^ 64

-- The first loop of `serializeLogBatch`: the payload's size.
unfoldable pub batch_payload : Bytes → ℕ → ℕ → List LogMessage → Result ℕ
batch_payload client_id previous_id payload_size [] = ok payload_size
batch_payload client_id previous_id payload_size (message ∷ rest) = do
  throw_if (not (bytes_eq message.client_id client_id)) (protocol multiple_client_ids)
  throw_if (leb message.id previous_id) (protocol ids_not_increasing)
  record_size ← log_record_size message
  throw_if (ltb (room_left payload_size) record_size) (protocol batch_too_large)
  batch_payload client_id message.id (payload_size + record_size) rest

unfoldable pub append_records : Bytes → List LogMessage → Bytes
append_records output [] = output
append_records output (message ∷ rest) = append_records (append_log_record output message) rest

unfoldable pub serialize_log_batch : List LogMessage → Result Bytes
serialize_log_batch [] = err (protocol empty_batch)
serialize_log_batch (front ∷ rest) = do
  let messages = front ∷ rest
  throw_if (ltb max_batch_message_count (length messages)) (protocol too_many_messages)
  payload_size ← batch_payload front.client_id 0 batch_prefix_size messages
  let payload_length = payload_size % 2 ^ 32
  let prefix =
      append_uint32 (append_frame_header [] log_batch payload_length) (length messages % 2 ^ 32)
  ok (append_records prefix messages)

-- `for (index = 0; index < messageCount; ++index) messages.push_back(readLogRecord(frame, offset))`.
unfoldable pub read_records : ℕ → Reader (List LogMessage)
read_records zero = Reader.pure []
read_records (suc count) =
    Reader.◌>>=◌ read_log_record
      (λ message. Reader.◌>>=◌ (read_records count) (λ rest. Reader.pure (message ∷ rest)))

-- The loop over neighbours; it starts at index 1, behind `previous`.
unfoldable pub check_neighbours : Bytes → ℕ → List LogMessage → Result (Unit {0})
check_neighbours client_id previous_id [] = ok tt
check_neighbours client_id previous_id (message ∷ rest) = do
  throw_if (not (bytes_eq message.client_id client_id)) (protocol multiple_client_ids)
  throw_if (leb message.id previous_id) (protocol ids_not_increasing)
  check_neighbours client_id message.id rest

unfoldable pub check_batch : List LogMessage → Result (Unit {0})
unfolding check_neighbours
check_batch [] = ok tt
check_batch (front ∷ rest) = check_neighbours front.client_id front.id rest

unfoldable pub deserialize_log_batch : Bytes → Result (List LogMessage)
deserialize_log_batch frame = do
  header ← parse_frame_header frame
  throw_if (not (is_type header.type log_batch)) (protocol not_batch)
  require_frame_size frame header
  (message_count, offset) ← read_uint32 frame frame_header_size
  throw_if (message_count == 0 || ltb max_batch_message_count message_count)
      (protocol invalid_batch_count)
  (messages, end) ← read_records message_count frame offset
  check_batch messages
  throw_if (not (end == length frame)) (protocol fields_do_not_fill)
  ok messages

unfoldable pub serialize_ack : ℕ → Bytes
serialize_ack confirmed_id =
    append_uint64 (append_frame_header [] ack ack_payload_size) confirmed_id

unfoldable pub deserialize_ack : Bytes → Result AckMessage
deserialize_ack frame = do
  header ← parse_frame_header frame
  throw_if (not (is_type header.type ack)) (protocol not_ack)
  require_frame_size frame header
  throw_if (not (header.payload_length == ack_payload_size)) (protocol invalid_ack_length)
  (confirmed_id, offset) ← read_uint64 frame frame_header_size
  ok (record { confirmed_id = confirmed_id })
