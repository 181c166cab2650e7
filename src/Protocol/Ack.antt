-- ===== src/Protocol/Ack.antt =====
-- `serializeAck` and `deserializeAck`.
use log_bridge.Base.{
  ℕ, ◌+◌, ◌^◌, ◌<◌, ◌≡◌, sym, ap, ◌∙◌, arith, [], ◌++◌, append-nil, length, ok, Result-cases, inl,
  inr,
}
use log_bridge.Message.{Bytes, IsBytes}
use log_bridge.Protocol.Format.{ack, FrameHeader, AckMessage, frame_header_size, ack_payload_size}
use log_bridge.Protocol.Read.{read_uint64, require_frame_size}
use log_bridge.Protocol.Codec.{parse_frame_header, serialize_ack, deserialize_ack}
use log_bridge.Protocol.Words.{big_endian, append_uint64-eq, length-big_endian}
use log_bridge.Protocol.Cursor.{Parses}
use log_bridge.Protocol.Ints.{Parses-read_uint64, Takes-read_uint64}
use log_bridge.Protocol.Frame.{
  frame_bytes, header_bytes, append_frame_header-eq, parse_frame_header-header_bytes,
  require_frame_size-ok, drop_header, length-frame_bytes, frame_of_parts,
}

pub serialize_ack-eq : (id : ℕ) → serialize_ack id ≡ frame_bytes ack (big_endian 8 id)
unfolding serialize_ack
serialize_ack-eq id =
    append_uint64-eq _ id
    ∙ ap (λ t. t ++ big_endian 8 id)
        (append_frame_header-eq ack ack_payload_size
          ∙ ap (header_bytes ack) (sym (length-big_endian 8 id)))

-- deserializeAck returns from the frame of serializeAck the id that was confirmed, for every id of
-- 64 bits.
pub deserialize_ack-serialize_ack :
    (id : ℕ) → id < 2 ^ 64 → deserialize_ack (serialize_ack id) ≡ ok (record { confirmed_id = id })
unfolding deserialize_ack
deserialize_ack-serialize_ack id h = rw (serialize_ack-eq id) (
    rw
      (parse_frame_header-header_bytes ack (length (big_endian 8 id)) (big_endian 8 id)
        (omega (arith, size)))
      (rw (require_frame_size-ok ack (big_endian 8 id)) (ground (arith, size, reads))))
  where
    size : length (big_endian 8 id) ≡ 8
    size = length-big_endian 8 id

    reads :
        read_uint64 (frame_bytes ack (big_endian 8 id)) frame_header_size
        ≡ ok (id, frame_header_size + length (big_endian 8 id))
    reads =
        Parses.at (Parses-read_uint64 id h) (frame_bytes ack (big_endian 8 id)) frame_header_size []
          (drop_header ack _ (big_endian 8 id) ∙ sym (append-nil _))
          (omega (arith, length-frame_bytes ack (big_endian 8 id)))

deserialize_ack-parts :
    (frame : Bytes) {a : AckMessage}
    → deserialize_ack frame ≡ ok a
    → (header : FrameHeader) × (to : ℕ) × (parse_frame_header frame ≡ ok header)
      × (header.type ≡ ack)
      × (require_frame_size frame header ≡ ok tt)
      × (header.payload_length ≡ 8)
      × (read_uint64 frame frame_header_size ≡ ok (a.confirmed_id, to))
      × (length frame ≡ frame_header_size + header.payload_length)
unfolding deserialize_ack require_frame_size
deserialize_ack-parts frame h = elim (Result-cases (parse_frame_header frame)) [
  | inl (header, e) ↦ elim (Result-cases (read_uint64 frame frame_header_size)) [
    | inl ((id, to), r) ↦
        (header, to, e, ground arith, ground arith, ground arith, ground arith, ground arith)
    | inr (x, r) ↦ absurd (ground arith)
  ]
  | inr (x, e) ↦ absurd (ground arith)
]

-- If deserializeAck returns from a frame of bytes, the id has 64 bits and serializeAck makes that
-- frame of it.
pub serialize_ack-deserialize_ack :
    (frame : Bytes) {a : AckMessage}
    → IsBytes frame
    → deserialize_ack frame ≡ ok a
    → (serialize_ack a.confirmed_id ≡ frame) × (a.confirmed_id < 2 ^ 64)
serialize_ack-deserialize_ack frame {a} bytes h =
    let (header, to, parsed, is_ack, sized, eight, read, total) = deserialize_ack-parts frame h in
    let (taken, fits) = Takes-read_uint64 frame frame_header_size to bytes read in
    let end : to ≡ length frame = omega (arith, taken.moved, length-big_endian 8 a.confirmed_id) in
    (
      serialize_ack-eq a.confirmed_id
          ∙ sym (
              frame_of_parts frame header ack (big_endian 8 a.confirmed_id) bytes parsed is_ack
                sized (rw end at taken)),
      fits,
    )
