-- ===== src/Protocol/Write.antt =====
-- The writers of src/Protocol.cpp: a function that appends to `output` returns the longer buffer.
use log_bridge.Base.{
  ℕ, zero, suc, ◌+◌, ◌-◌, ◌*◌, ◌/◌, ◌%◌, ◌^◌, ◌||◌, [], ◌∷◌, ◌++◌, ltb, ◌==◌, length, ℤ, pos,
  negsuc, Result, ok, protocol, zero_message_id, invalid_client_id_length, source_too_long,
  content_too_long, ◌>>◌, throw_if,
}
use log_bridge.Message.{Bytes, LogMessage}
use log_bridge.Protocol.Format.{
  magic, version, MessageType, type_code, max_client_id_length, max_source_length,
  max_content_length, log_record_fixed_size,
}

-- `std::bit_cast<std::uint64_t>` of a two's complement `std::int64_t`.
abbrev pub bits_of_int64 : ℤ → ℕ
bits_of_int64 (pos n) = n
bits_of_int64 (negsuc n) = 2 ^ 64 - 1 - n

unfoldable pub append_uint16 : Bytes → ℕ → Bytes
append_uint16 output value = (output ++ value / 2 ^ 8 % 256 ∷ []) ++ value % 256 ∷ []

-- `for (int shift = 8 * (rounds - 1); shift >= 0; shift -= 8)`.
unfoldable pub append_shifted : ℕ → Bytes → ℕ → Bytes
append_shifted zero output value = output
append_shifted (suc rounds) output value =
    append_shifted rounds (output ++ value / 2 ^ (8 * rounds) % 256 ∷ []) value

unfoldable pub append_uint32 : Bytes → ℕ → Bytes
append_uint32 output value = append_shifted 4 output value

unfoldable pub append_uint64 : Bytes → ℕ → Bytes
append_uint64 output value = append_shifted 8 output value

unfoldable pub append_frame_header : Bytes → MessageType → ℕ → Bytes
append_frame_header output type payload_length =
    let with_magic = append_uint32 output magic in
    let with_version = with_magic ++ version ∷ [] in
    let with_type = with_version ++ type_code type ∷ [] in
    append_uint32 (append_uint16 with_type 0) payload_length

unfoldable pub log_record_size : LogMessage → Result ℕ
log_record_size message = do
  throw_if (message.id == 0) (protocol zero_message_id)
  throw_if (length message.client_id == 0 || ltb max_client_id_length (length message.client_id))
      (protocol invalid_client_id_length)
  throw_if (ltb max_source_length (length message.source)) (protocol source_too_long)
  throw_if (ltb max_content_length (length message.content)) (protocol content_too_long)
  ok (
      log_record_fixed_size
      + length message.client_id
      + length message.source
      + length message.content)

unfoldable pub append_log_record : Bytes → LogMessage → Bytes
append_log_record output message =
    let client_id_length = length message.client_id % 2 ^ 32 in
    let source_length = length message.source % 2 ^ 32 in
    let content_length = length message.content % 2 ^ 32 in
    let with_id = append_uint64 output message.id in
    let with_timestamp = append_uint64 with_id (bits_of_int64 message.timestamp_ms) in
    let with_lengths =
      append_uint32 (append_uint32 (append_uint32 with_timestamp client_id_length) source_length)
        content_length in
    ((with_lengths ++ message.client_id) ++ message.source) ++ message.content
