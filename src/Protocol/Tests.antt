-- ===== src/Protocol/Tests.antt =====
-- Runs of the codec, and its theorems at concrete inputs.
use log_bridge.Base.{
  [], ◌∷◌, ◌≡◌, refl, arith, ok, err, protocol, negsuc, pos, ◌>>=◌, ◌↔◌, bytes_eq,
  ids_not_increasing, unexpected_end, not_ack,
}
use log_bridge.Message.{LogMessage, IsTyped, IsBytes}
use log_bridge.Protocol.Write.{
  append_frame_header, append_log_record, append_shifted, append_uint16, append_uint32,
  append_uint64, log_record_size,
}
use log_bridge.Protocol.Reader
use log_bridge.Protocol.Reader.{lift}
use log_bridge.Protocol.Read.{
  advance, parse_message_type, read_log_record, read_string, read_uint16, read_uint32, read_uint64,
  read_uint8, require, require_bytes, require_frame_size, shift_in,
}
use log_bridge.Protocol.Codec.{
  deserialize_log_batch, check_header, deserialize_log_message, parse_frame_header,
  read_header_fields, serialize_log_message, serialize_log_batch, deserialize_log_batch,
  batch_payload, append_records, read_records, check_batch, serialize_ack, deserialize_ack,
}
use log_bridge.Protocol.Words.{big_endian}
use log_bridge.Protocol.Record.{IsEncodable}
use log_bridge.Protocol.Single.{log_frame, serialize_log_message-ok, deserialize-serialize}
use log_bridge.Protocol.BatchFrame.{
  IsBatch, batch_frame, serialize_log_batch-ok, deserialize_batch-serialize_batch,
  serialize_batch-deserialize_batch, serialize_log_batch_iff, deserialize_log_batch-batch_frame,
}

abbrev sample : LogMessage
sample = record {
  id = 258;
  client_id = b'c' ∷ [];
  timestamp_ms = negsuc 4;
  source = [];
  content = 10 ∷ 255 ∷ [];
}

abbrev later : LogMessage
later = record sample { id = 300; timestamp_ms = pos 7 }

-- All that the encoder and the decoder call.
codec : Unit {0}
unfolding append_frame_header append_log_record append_shifted append_uint16 append_uint32
    append_uint64 log_record_size Reader.◌>>=◌ Reader.pure lift advance parse_message_type
    read_log_record read_string read_uint16 read_uint32 read_uint64 read_uint8 require require_bytes
    require_frame_size shift_in check_header deserialize_log_message parse_frame_header
    read_header_fields serialize_log_message serialize_log_batch deserialize_log_batch batch_payload
    append_records read_records check_batch serialize_ack deserialize_ack bytes_eq
codec = tt

round : (serialize_log_message sample >>= deserialize_log_message) ≡ ok sample
unfolding codec
round = refl

batch_round :
    (serialize_log_batch (sample ∷ later ∷ []) >>= deserialize_log_batch) ≡ ok (sample ∷ later ∷ [])
unfolding codec
batch_round = refl

-- Ids that do not grow, a short frame and a frame with a byte too many are refused.
refused :
    (serialize_log_batch (later ∷ sample ∷ []) ≡ err (protocol ids_not_increasing))
    × (deserialize_log_message (76 ∷ []) ≡ err (protocol unexpected_end))
    × ((serialize_log_message sample >>= λ frame. deserialize_ack frame) ≡ err (protocol not_ack))
unfolding codec
refused = (refl, refl, refl)

sample-IsTyped : IsTyped sample
sample-IsTyped = omega arith

later-IsTyped : IsTyped later
later-IsTyped = omega arith

sample-IsEncodable : IsEncodable sample
sample-IsEncodable = omega arith

both-IsBatch : IsBatch (sample ∷ later ∷ [])
both-IsBatch = (
  omega arith,
  (refl, omega arith, omega arith, (refl, omega arith, omega arith, tt)),
  omega arith,
)

sample_frame-IsBytes : IsBytes (log_frame sample)
unfolding big_endian
sample_frame-IsBytes = omega arith

both_frame-IsBytes : IsBytes (batch_frame (sample ∷ later ∷ []))
unfolding big_endian
both_frame-IsBytes = omega arith

ack_seven :
    serialize_ack 7
    ≡ 76 ∷ 71 ∷ 66 ∷ 49 ∷ 2 ∷ 2 ∷ 0 ∷ 0 ∷ 0 ∷ 0 ∷ 0 ∷ 8 ∷ 0 ∷ 0 ∷ 0 ∷ 0 ∷ 0 ∷ 0 ∷ 0 ∷ 7 ∷ []
unfolding codec
ack_seven = refl

ack_seven-IsBytes : IsBytes (serialize_ack 7)
unfolding codec
ack_seven-IsBytes = omega arith

deserialize-serialize_example : deserialize_log_message (log_frame sample) ≡ ok sample
deserialize-serialize_example =
    deserialize-serialize sample sample-IsTyped (serialize_log_message-ok sample sample-IsEncodable)

sample_decodes : deserialize_log_message (log_frame sample) ≡ ok sample
sample_decodes =
    deserialize-serialize sample sample-IsTyped (serialize_log_message-ok sample sample-IsEncodable)

deserialize_batch-serialize_batch_example :
    deserialize_log_batch (batch_frame (sample ∷ later ∷ [])) ≡ ok (sample ∷ later ∷ [])
deserialize_batch-serialize_batch_example =
    deserialize_batch-serialize_batch (sample ∷ later ∷ []) (sample-IsTyped, (later-IsTyped, tt))
      (serialize_log_batch-ok (sample ∷ later ∷ []) both-IsBatch)

both_decode : deserialize_log_batch (batch_frame (sample ∷ later ∷ [])) ≡ ok (sample ∷ later ∷ [])
both_decode =
    deserialize_log_batch-batch_frame (sample ∷ later ∷ []) (sample-IsTyped, (later-IsTyped, tt))
      both-IsBatch

serialize_batch-deserialize_batch_example :
    serialize_log_batch (sample ∷ later ∷ []) ≡ ok (batch_frame (sample ∷ later ∷ []))
serialize_batch-deserialize_batch_example =
    serialize_batch-deserialize_batch (batch_frame (sample ∷ later ∷ [])) both_frame-IsBytes
      both_decode

serialize_log_batch_iff_example :
    (serialize_log_batch (sample ∷ later ∷ []) ≡ ok (batch_frame (sample ∷ later ∷ []))) ↔ (
      IsBatch (sample ∷ later ∷ [])
      × (batch_frame (sample ∷ later ∷ []) ≡ batch_frame (sample ∷ later ∷ [])))
serialize_log_batch_iff_example =
    serialize_log_batch_iff (sample ∷ later ∷ []) (batch_frame (sample ∷ later ∷ []))
