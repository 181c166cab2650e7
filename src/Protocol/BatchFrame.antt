-- ===== src/Protocol/BatchFrame.antt =====
-- `serializeLogBatch` and `deserializeLogBatch`, one against the other.
use log_bridge.Base.{
  ◌↔◌, ℕ, ◌+◌, ◌%◌, ◌^◌, ◌≤◌, ◌≡◌, refl, sym, ap, ◌∙◌, arith, List, [], ◌∷◌, ◌++◌, length, drop, ok,
  Result-cases, inl, inr, All, append-nil, append_assoc, length-append,
}
use mathlib.Core.Path.{ap₂}
use log_bridge.Message.{Bytes, IsBytes, LogMessage, IsTyped}
use log_bridge.Protocol.Format.{
  log_batch, FrameHeader, frame_header_size, max_batch_message_count, max_frame_payload_length,
  batch_prefix_size,
}
use log_bridge.Protocol.Write.{append_frame_header, append_uint32}
use log_bridge.Protocol.Read.{read_uint32, require_frame_size}
use log_bridge.Protocol.Codec.{
  parse_frame_header, batch_payload, read_records, check_batch, serialize_log_batch,
  deserialize_log_batch,
}
use log_bridge.Protocol.Words.{big_endian, append_uint32-eq, length-big_endian}
use log_bridge.Protocol.Cursor.{Parses, Takes, Takes-trans, drop_behind}
use log_bridge.Protocol.Ints.{Parses-read_uint32, Takes-read_uint32}
use log_bridge.Protocol.Record.{IsEncodable}
use log_bridge.Protocol.Frame.{
  frame_bytes, header_bytes, append_frame_header-eq, parse_frame_header-header_bytes,
  require_frame_size-ok, require_frame_size-eq-ok, parse_frame_header-eq-ok, drop_header,
  length-frame_bytes, frame_of_parts,
}
use log_bridge.Protocol.Batch.{
  IsRun, records_size, records_bytes, length-records_bytes, batch_payload-ok, batch_payload-eq-ok,
  append_records-eq, Parses-read_records, Takes-read_records, check_neighbours-ok,
  check_neighbours-eq-ok,
}

-- What one batch frame can carry.
abbrev pub IsBatch : List LogMessage → Type 0
IsBatch [] = ⊥
IsBatch (front ∷ rest) =
    (length (front ∷ rest) ≤ max_batch_message_count)
    × IsRun front.client_id 0 (front ∷ rest)
    × (batch_prefix_size + records_size (front ∷ rest) ≤ max_frame_payload_length)

abbrev pub batch_body : List LogMessage → Bytes
batch_body ms = big_endian 4 (length ms) ++ records_bytes ms

abbrev pub batch_frame : List LogMessage → Bytes
batch_frame ms = frame_bytes log_batch (batch_body ms)

length-batch_body :
    (ms : List LogMessage) → length (batch_body ms) ≡ batch_prefix_size + records_size ms
length-batch_body ms = omega (
  arith,
  length-append (big_endian 4 (length ms)) (records_bytes ms),
  length-big_endian 4 (length ms),
  length-records_bytes ms,
)

batch_prefix :
    (ms : List LogMessage)
    → length ms ≤ max_batch_message_count
    → batch_prefix_size + records_size ms ≤ max_frame_payload_length
    → append_uint32
          (append_frame_header [] log_batch ((batch_prefix_size + records_size ms) % 2 ^ 32))
          (length ms % 2 ^ 32)
        ++ records_bytes ms
      ≡ batch_frame ms
batch_prefix ms few fits =
    ap (λ t. t ++ records_bytes ms)
      (append_uint32-eq _ (length ms % 2 ^ 32)
        ∙ ap₂ (λ h c. h ++ big_endian 4 c)
            (append_frame_header-eq log_batch _ ∙ ap (header_bytes log_batch) size) count)
    ∙ append_assoc (header_bytes log_batch (length (batch_body ms))) (big_endian 4 (length ms))
        (records_bytes ms)
  where
    size : (batch_prefix_size + records_size ms) % 2 ^ 32 ≡ length (batch_body ms)
    size = omega (arith, length-batch_body ms)

    count : length ms % 2 ^ 32 ≡ length ms
    count = omega arith

pub IsBatch-fits :
    (ms : List LogMessage) → IsBatch ms → length (batch_body ms) ≤ max_frame_payload_length
IsBatch-fits [] h = absurd h
IsBatch-fits (front ∷ rest) h = omega (arith, length-batch_body (front ∷ rest), h.2)

pub serialize_log_batch-ok :
    (ms : List LogMessage) → IsBatch ms → serialize_log_batch ms ≡ ok (batch_frame ms)
unfolding serialize_log_batch
serialize_log_batch-ok [] h = absurd h
serialize_log_batch-ok (front ∷ rest) h =
    let ms = front ∷ rest in
    ground (
      arith,
      batch_payload-ok front.client_id 0 batch_prefix_size ms h.1 h.2,
      append_records-eq front.client_id 0
          (append_uint32
            (append_frame_header [] log_batch ((batch_prefix_size + records_size ms) % 2 ^ 32))
            (length ms % 2 ^ 32))
          ms h.1,
      batch_prefix ms h.0 h.2,
    )

serialize_log_batch-eq-ok_IsBatch :
    (ms : List LogMessage) {frame : Bytes} → serialize_log_batch ms ≡ ok frame → IsBatch ms
unfolding serialize_log_batch
serialize_log_batch-eq-ok_IsBatch [] h = absurd (ground arith)
serialize_log_batch-eq-ok_IsBatch (front ∷ rest) h =
    elim (Result-cases (batch_payload front.client_id 0 batch_prefix_size (front ∷ rest))) [
      | inl (n, e) ↦
          let (run, size, fits) =
            batch_payload-eq-ok front.client_id 0 batch_prefix_size (front ∷ rest) (omega arith)
              e in
          (ground arith, run, omega arith)
      | inr (x, e) ↦ absurd (ground arith)
    ]

pub serialize_log_batch-eq-ok :
    (ms : List LogMessage) {frame : Bytes}
    → serialize_log_batch ms ≡ ok frame
    → IsBatch ms × (frame ≡ batch_frame ms)
serialize_log_batch-eq-ok ms h =
    let batch = serialize_log_batch-eq-ok_IsBatch ms h in
    (batch, ground (arith, serialize_log_batch-ok ms batch))

check_batch-ok : (ms : List LogMessage) → IsBatch ms → check_batch ms ≡ ok tt
unfolding check_batch
check_batch-ok [] h = absurd h
check_batch-ok (front ∷ rest) h = check_neighbours-ok front.client_id front.id rest h.1.3

module _ (ms : List LogMessage) where
  batch_payload_behind :
      drop frame_header_size (batch_frame ms) ≡ big_endian 4 (length ms) ++ records_bytes ms
  batch_payload_behind = drop_header log_batch (length (batch_body ms)) (batch_body ms)

  length-batch_frame :
      length (batch_frame ms) ≡ frame_header_size + (batch_prefix_size + length (records_bytes ms))
  length-batch_frame = omega (
    arith,
    length-frame_bytes log_batch (batch_body ms),
    length-batch_body ms,
    length-records_bytes ms,
  )

  read_count :
      length ms ≤ max_batch_message_count
      → read_uint32 (batch_frame ms) frame_header_size ≡ ok (length ms, frame_header_size + 4)
  read_count few =
      Parses.at (Parses-read_uint32 (length ms) (omega arith)) (batch_frame ms) frame_header_size
        (records_bytes ms) batch_payload_behind (omega (arith, length-batch_frame))
      ∙ ap (λ (k : ℕ). ok (length ms, frame_header_size + k)) (length-big_endian 4 (length ms))

  read_records-All :
      (client_id : Bytes) (previous_id : ℕ)
      → All IsTyped ms
      → IsRun client_id previous_id ms
      → read_records (length ms) (batch_frame ms) (frame_header_size + 4)
        ≡ ok (ms, length (batch_frame ms))
  read_records-All client_id previous_id typed run =
      Parses.at (Parses-read_records client_id previous_id ms typed run) (batch_frame ms)
        (frame_header_size + 4) [] behind (omega (arith, length-batch_frame))
      ∙ ap (λ (k : ℕ). ok (ms, k)) (omega (arith, length-batch_frame))
    where
      behind : drop (frame_header_size + 4) (batch_frame ms) ≡ records_bytes ms ++ []
      behind =
          ap (λ (k : ℕ). drop (frame_header_size + k) (batch_frame ms))
            (sym (length-big_endian 4 (length ms)))
          ∙ drop_behind (batch_frame ms) frame_header_size (big_endian 4 (length ms))
              (records_bytes ms) batch_payload_behind
          ∙ sym (append-nil (records_bytes ms))

-- The batch frame of any messages that one frame can carry decodes to them.
pub deserialize_log_batch-batch_frame :
    (ms : List LogMessage)
    → All IsTyped ms
    → IsBatch ms
    → deserialize_log_batch (batch_frame ms) ≡ ok ms
unfolding deserialize_log_batch
deserialize_log_batch-batch_frame [] typed h = absurd h
deserialize_log_batch-batch_frame (front ∷ rest) typed h =
    let ms = front ∷ rest in
    rw
      (parse_frame_header-header_bytes log_batch (length (batch_body ms)) (batch_body ms)
        (omega (arith, length-batch_body ms)))
      (rw (require_frame_size-ok log_batch (batch_body ms)) (
        rw (read_count ms h.0)
          (ground (arith, read_records-All ms front.client_id 0 typed h.1, check_batch-ok ms h))))

-- What a successful decode went through.
deserialize_log_batch-parts :
    (frame : Bytes) {ms : List LogMessage}
    → deserialize_log_batch frame ≡ ok ms
    → (header : FrameHeader) × (count : ℕ) × (mid : ℕ) × (parse_frame_header frame ≡ ok header)
      × (header.type ≡ log_batch)
      × (require_frame_size frame header ≡ ok tt)
      × (read_uint32 frame frame_header_size ≡ ok (count, mid))
      × (1 ≤ count)
      × (count ≤ max_batch_message_count)
      × (read_records count frame mid ≡ ok (ms, length frame))
      × (check_batch ms ≡ ok tt)
unfolding deserialize_log_batch require_frame_size
deserialize_log_batch-parts frame h = elim (Result-cases (parse_frame_header frame)) [
  | inl (header, e) ↦ elim (Result-cases (read_uint32 frame frame_header_size)) [
    | inl ((count, mid), r) ↦ elim (Result-cases (read_records count frame mid)) [
      | inl ((messages, end), s) ↦ elim (Result-cases (check_batch messages)) [
        | inl (_, c) ↦ (
          header,
          count,
          mid,
          e,
          ground arith,
          ground arith,
          r,
          ground arith,
          ground arith,
          ground arith,
          ground arith,
        )
        | inr (x, c) ↦ absurd (ground arith)
      ]
      | inr (x, s) ↦ absurd (ground arith)
    ]
    | inr (x, r) ↦ absurd (ground arith)
  ]
  | inr (x, e) ↦ absurd (ground arith)
]

IsRun-check_neighbours :
    (front : LogMessage) (rest : List LogMessage)
    → All IsEncodable (front ∷ rest)
    → check_batch (front ∷ rest) ≡ ok tt
    → IsRun front.client_id 0 (front ∷ rest)
unfolding check_batch
IsRun-check_neighbours front rest limits h = (
  refl,
  omega (arith, limits.0.id_set),
  limits.0,
  check_neighbours-eq-ok front.client_id front.id rest limits.1 h,
)

IsBatch-check_batch :
    (ms : List LogMessage)
    → All IsEncodable ms
    → 1 ≤ length ms
    → length ms ≤ max_batch_message_count
    → batch_prefix_size + records_size ms ≤ max_frame_payload_length
    → check_batch ms ≡ ok tt
    → IsBatch ms
IsBatch-check_batch [] limits some few fits h = absurd (omega arith)
IsBatch-check_batch (front ∷ rest) limits some few fits h =
    (few, IsRun-check_neighbours front rest limits h, fits)

-- A frame that decodes as a batch is the batch frame of what it decodes to.
pub deserialize_log_batch-eq-ok :
    (frame : Bytes) {ms : List LogMessage}
    → IsBytes frame
    → deserialize_log_batch frame ≡ ok ms
    → All IsTyped ms × IsBatch ms × (frame ≡ batch_frame ms)
deserialize_log_batch-eq-ok frame {ms} bytes h =
    let (header, count, mid, parsed, is_batch, sized, count_read, some, few, all_read, checked) =
      deserialize_log_batch-parts frame h in
    let (counted, _) = Takes-read_uint32 frame frame_header_size mid bytes count_read in
    let (typed, limits, taken, size) =
      Takes-read_records count frame mid (length frame) bytes counted.within all_read in
    let body : Takes frame frame_header_size (batch_body ms) (length frame) =
      Takes-trans (big_endian 4 (length ms)) (records_bytes ms) (rw size counted) taken in
    let (_, _, small) = parse_frame_header-eq-ok frame bytes parsed in
    let total = require_frame_size-eq-ok frame header sized in
    let fits : batch_prefix_size + records_size ms ≤ max_frame_payload_length =
      omega (arith, total, small, body.moved, length-batch_body ms) in
    (
      typed,
      IsBatch-check_batch ms limits (omega arith) (omega arith) fits checked,
      frame_of_parts frame header log_batch (batch_body ms) bytes parsed is_batch sized body,
    )

-- If serializeLogBatch returns a frame for messages whose fields are in the range of their C++
-- types, deserializeLogBatch returns those messages from it, in their order.
pub deserialize_batch-serialize_batch :
    (ms : List LogMessage) {frame : Bytes}
    → All IsTyped ms
    → serialize_log_batch ms ≡ ok frame
    → deserialize_log_batch frame ≡ ok ms
deserialize_batch-serialize_batch ms typed e =
    let (batch, shape) = serialize_log_batch-eq-ok ms e in
    rw shape (deserialize_log_batch-batch_frame ms typed batch)

-- If deserializeLogBatch returns messages from a frame of bytes, serializeLogBatch returns that
-- frame for them.
pub serialize_batch-deserialize_batch :
    (frame : Bytes) {ms : List LogMessage}
    → IsBytes frame
    → deserialize_log_batch frame ≡ ok ms
    → serialize_log_batch ms ≡ ok frame
serialize_batch-deserialize_batch frame {ms} bytes e =
    let (typed, batch, shape) = deserialize_log_batch-eq-ok frame bytes e in
    serialize_log_batch-ok ms batch ∙ ap ok (sym shape)

-- serializeLogBatch returns a frame exactly for 1 to 100 messages of one client with growing ids,
-- each within the limits of the protocol and together within the payload limit, and then the frame
-- is header, count and records, big-endian.
pub serialize_log_batch_iff :
    (ms : List LogMessage) (frame : Bytes)
    → (serialize_log_batch ms ≡ ok frame) ↔ (IsBatch ms × (frame ≡ batch_frame ms))
serialize_log_batch_iff ms frame =
    (serialize_log_batch-eq-ok ms, λ h. serialize_log_batch-ok ms h.0 ∙ ap ok (sym h.1))
