-- ===== src/Protocol/Single.antt =====
-- `serializeLogMessage` and `deserializeLogMessage`, one against the other.
use log_bridge.Base.{
  ◌+◌, ◌%◌, ◌^◌, ◌≤◌, ◌≡◌, sym, ap, ◌∙◌, arith, [], ◌++◌, append-nil, length, drop, ok,
  Result-cases, inl, inr,
}
use log_bridge.Message.{Bytes, IsBytes, LogMessage, IsTyped}
use log_bridge.Protocol.Format.{log, FrameHeader, frame_header_size, max_frame_payload_length}
use log_bridge.Protocol.Write.{append_frame_header, log_record_size}
use log_bridge.Protocol.Read.{read_log_record, require_frame_size}
use log_bridge.Protocol.Codec.{parse_frame_header, serialize_log_message, deserialize_log_message}
use log_bridge.Protocol.Cursor.{Parses}
use log_bridge.Protocol.Record.{
  IsEncodable, record_bytes, record_size, length-record_bytes, log_record_size-ok,
  log_record_size-eq-ok, append_log_record-eq, Parses-read_log_record, Takes-read_log_record,
}
use log_bridge.Protocol.Frame.{
  header_bytes, frame_bytes, append_frame_header-eq, parse_frame_header-header_bytes, drop_header,
  length-frame_bytes, frame_of_parts, require_frame_size-ok,
}

-- The frame of a message.
abbrev pub log_frame : LogMessage → Bytes
log_frame m = frame_bytes log (record_bytes m)

pub record_size-le : (m : LogMessage) → IsEncodable m → record_size m ≤ 1052828
record_size-le m h = omega arith

pub serialize_log_message-ok :
    (m : LogMessage) → IsEncodable m → serialize_log_message m ≡ ok (log_frame m)
unfolding serialize_log_message
serialize_log_message-ok m h = rw (log_record_size-ok m h) (
    ap ok (
      append_log_record-eq (append_frame_header [] log (record_size m % 2 ^ 32)) m h
      ∙ ap (λ t. t ++ record_bytes m)
          (append_frame_header-eq log (record_size m % 2 ^ 32) ∙ ap (header_bytes log) size)))
  where
    size : record_size m % 2 ^ 32 ≡ length (record_bytes m)
    size = omega (arith, length-record_bytes m, record_size-le m h)

pub serialize_log_message-eq-ok :
    (m : LogMessage) {frame : Bytes}
    → serialize_log_message m ≡ ok frame
    → IsEncodable m × (frame ≡ log_frame m)
serialize_log_message-eq-ok m {frame} e = elim (Result-cases (log_record_size m)) [
  | inl (n, s) ↦
      let (h, _) = log_record_size-eq-ok m s in (h, ground (arith, serialize_log_message-ok m h))
  | inr (x, s) ↦ absurd (unfold serialize_log_message in ground arith)
]

-- The frame of a message within the limits decodes to it.
pub deserialize_log_message-log_frame :
    (m : LogMessage) → IsTyped m → IsEncodable m → deserialize_log_message (log_frame m) ≡ ok m
unfolding deserialize_log_message
deserialize_log_message-log_frame m t h =
    rw
      (parse_frame_header-header_bytes log (length (record_bytes m)) (record_bytes m)
        (omega (arith, size)))
      (rw (require_frame_size-ok log (record_bytes m)) (
        rw
          (Parses.at (Parses-read_log_record m t h) (log_frame m) frame_header_size [] payload
            (omega (arith, total)))
          (ground (arith, total))))
  where
    size : length (record_bytes m) ≤ max_frame_payload_length
    size = omega (arith, length-record_bytes m, record_size-le m h)

    payload : drop frame_header_size (log_frame m) ≡ record_bytes m ++ []
    payload =
        drop_header log (length (record_bytes m)) (record_bytes m)
        ∙ sym (append-nil (record_bytes m))

    total : length (log_frame m) ≡ frame_header_size + length (record_bytes m)
    total = length-frame_bytes log (record_bytes m)

-- What a successful decode went through.
deserialize_log_message-parts :
    (frame : Bytes) {m : LogMessage}
    → deserialize_log_message frame ≡ ok m
    → (header : FrameHeader) × (parse_frame_header frame ≡ ok header)
      × (header.type ≡ log)
      × (require_frame_size frame header ≡ ok tt)
      × (read_log_record frame frame_header_size ≡ ok (m, length frame))
unfolding deserialize_log_message require_frame_size
deserialize_log_message-parts frame h = elim (Result-cases (parse_frame_header frame)) [
  | inl (header, e) ↦ elim (Result-cases (read_log_record frame frame_header_size)) [
    | inl ((message, offset), r) ↦ (header, e, ground arith, ground arith, ground arith)
    | inr (x, r) ↦ absurd (ground arith)
  ]
  | inr (x, e) ↦ absurd (ground arith)
]

-- A frame that decodes is the frame of the message that it decodes to.
pub deserialize_log_message-eq-ok :
    (frame : Bytes) {m : LogMessage}
    → IsBytes frame
    → deserialize_log_message frame ≡ ok m
    → IsTyped m × IsEncodable m × (frame ≡ log_frame m)
deserialize_log_message-eq-ok frame {m} bytes h =
    let (header, parsed, is_log, sized, read) = deserialize_log_message-parts frame h in
    let (typed, encodable, taken) =
      Takes-read_log_record frame frame_header_size (length frame) bytes read in
    (
      typed,
      encodable,
      frame_of_parts frame header log (record_bytes m) bytes parsed is_log sized taken,
    )

-- If serializeLogMessage returns a frame for a message whose fields are in the range of their C++
-- types, deserializeLogMessage returns that message from it.
pub deserialize-serialize :
    (m : LogMessage) {frame : Bytes}
    → IsTyped m
    → serialize_log_message m ≡ ok frame
    → deserialize_log_message frame ≡ ok m
deserialize-serialize m typed e =
    let (h, shape) = serialize_log_message-eq-ok m e in
    rw shape (deserialize_log_message-log_frame m typed h)
