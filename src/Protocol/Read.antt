-- ===== src/Protocol/Read.antt =====
-- The readers of src/Protocol.cpp.
use log_bridge.Base.{
  ℕ, zero, suc, ◌+◌, ◌-◌, ◌*◌, ◌%◌, ◌^◌, bit_or, ◌||◌, not, ltb, ◌==◌, if◌then◌else◌, get_or, take,
  drop, length, ℤ, pos, negsuc, Result, ok, err, protocol, unexpected_end, unknown_message_type,
  zero_message_id, invalid_client_id_length, source_too_long, content_too_long,
  frame_length_mismatch,
}
use log_bridge.Base as Base
use log_bridge.Message.{Bytes, LogMessage}
use log_bridge.Protocol.Format.{
  MessageType, log, ack, log_batch, FrameHeader, frame_header_size, max_client_id_length,
  max_source_length, max_content_length,
}
use log_bridge.Protocol.Reader.{Reader, pure, lift, ◌>>=◌, ◌>>◌, throw_if}

-- `std::bit_cast<std::int64_t>`.
abbrev pub int64_of_bits : ℕ → ℤ
int64_of_bits u = if ltb u (2 ^ 63) then pos u else negsuc (2 ^ 64 - 1 - u)

unfoldable pub require_bytes : Bytes → ℕ → ℕ → Result (Unit {0})
require_bytes input offset count =
    Base.throw_if (ltb (length input) offset || ltb (length input - offset) count)
      (protocol unexpected_end)

-- `requireBytes(input, offset, count)` at the reader's own offset.
unfoldable pub require : ℕ → Reader (Unit {0})
require count input offset = lift (require_bytes input offset count) input offset

-- An expression over `input` and `offset`, followed by `offset += count`.
unfoldable pub advance : {A : Type 0} → ℕ → (Bytes → ℕ → A) → Reader A
advance count value input offset = ok (value input offset, offset + count)

unfoldable pub read_uint8 : Reader ℕ
unfolding require advance
read_uint8 = do require 1; advance 1 (λ input offset. get_or input offset 0)

unfoldable pub read_uint16 : Reader ℕ
unfolding require advance
read_uint16 = do
  require 2
  advance 2 (λ input offset.
      bit_or (get_or input offset 0 * 2 ^ 8 % 2 ^ 16) (get_or input (offset + 1) 0))

-- `value = (value << 8) | input[offset + index]`, `rounds` times, in a word of `width` bits.
unfoldable pub shift_in : ℕ → Bytes → ℕ → ℕ → ℕ → ℕ → ℕ
shift_in width input offset zero index value = value
shift_in width input offset (suc rounds) index value =
    shift_in width input offset rounds (index + 1)
      (bit_or (value * 2 ^ 8 % 2 ^ width) (get_or input (offset + index) 0))

unfoldable pub read_uint32 : Reader ℕ
unfolding require advance
read_uint32 = do require 4; advance 4 (λ input offset. shift_in 32 input offset 4 0 0)

unfoldable pub read_uint64 : Reader ℕ
unfolding require advance
read_uint64 = do require 8; advance 8 (λ input offset. shift_in 64 input offset 8 0 0)

unfoldable pub read_string : ℕ → Reader Bytes
unfolding require advance
read_string count = do require count; advance count (λ input offset. take count (drop offset input))

unfoldable pub parse_message_type : ℕ → Result MessageType
parse_message_type raw_type =
    if raw_type == 1
    then ok log
    else if raw_type == 2
    then ok ack
    else if raw_type == 3
    then ok log_batch
    else err (protocol unknown_message_type)

-- The checks on the five fixed fields.
unfoldable pub check_lengths : ℕ → ℕ → ℕ → ℕ → Reader (Unit {0})
check_lengths id client_id_length source_length content_length = do
  throw_if (id == 0) (protocol zero_message_id)
  throw_if (client_id_length == 0 || ltb max_client_id_length client_id_length)
      (protocol invalid_client_id_length)
  throw_if (ltb max_source_length source_length) (protocol source_too_long)
  throw_if (ltb max_content_length content_length) (protocol content_too_long)

unfoldable pub read_log_record : Reader LogMessage
unfolding check_lengths
read_log_record = do
  id ← read_uint64
  timestamp ← read_uint64
  client_id_length ← read_uint32
  source_length ← read_uint32
  content_length ← read_uint32
  check_lengths id client_id_length source_length content_length
  client_id ← read_string client_id_length
  source ← read_string source_length
  content ← read_string content_length
  pure (record {
    id = id;
    client_id = client_id;
    timestamp_ms = int64_of_bits timestamp;
    source = source;
    content = content;
  })

unfoldable pub require_frame_size : Bytes → FrameHeader → Result (Unit {0})
require_frame_size frame header =
    Base.throw_if (not (length frame == frame_header_size + header.payload_length))
      (protocol frame_length_mismatch)
