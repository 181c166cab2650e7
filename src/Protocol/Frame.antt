-- ===== src/Protocol/Frame.antt =====
-- Whole frames: the header in front of a payload, and the two checks on it.
use log_bridge.Base.{
  ℕ, ◌+◌, ◌≤◌, ◌≡◌, refl, sym, ap, ◌∙◌, arith, [], ◌∷◌, ◌++◌, append-nil, append_assoc, length,
  length-append, drop, drop-append_length, drop-length, ok, Result-cases, inl, inr,
}
use mathlib.Core.Path.{ap₂, subst, subst₂}
use log_bridge.Message.{Bytes, IsBytes}
use log_bridge.Protocol.Format.{
  MessageType, log, ack, log_batch, type_code, FrameHeader, magic, version, frame_header_size,
  max_frame_payload_length,
}
use log_bridge.Protocol.Write.{append_frame_header}
use log_bridge.Protocol.Reader.{lift, ◌>>=◌}
use log_bridge.Protocol.Read.{
  read_uint8, read_uint16, read_uint32, parse_message_type, require_bytes, require_frame_size,
}
use log_bridge.Protocol.Codec.{check_header, read_header_fields, parse_frame_header}
use log_bridge.Protocol.Words.{big_endian, append_words}
use log_bridge.Protocol.Cursor.{
  Parses, Parses-bind, Parses-lift, Takes, Takes-trans, Reader-bind-cases, lift-eq-ok,
}
use log_bridge.Protocol.Ints.{
  Parses-read_uint8, Parses-read_uint16, Parses-read_uint32, Takes-read_uint8, Takes-read_uint16,
  Takes-read_uint32,
}

abbrev pub header_bytes : MessageType → ℕ → Bytes
header_bytes type payload_length =
    big_endian 4 magic
    ++ ((version ∷ [])
        ++ ((type_code type ∷ []) ++ (big_endian 2 0 ++ big_endian 4 payload_length)))

abbrev pub frame_bytes : MessageType → Bytes → Bytes
frame_bytes type payload = header_bytes type (length payload) ++ payload

abbrev pub header_of : MessageType → ℕ → FrameHeader
header_of type payload_length = record {
  version = version;
  type = type;
  payload_length = payload_length;
}

pub append_frame_header-eq :
    (type : MessageType) (n : ℕ) → append_frame_header [] type n ≡ header_bytes type n
unfolding append_frame_header
append_frame_header-eq type n = simp (append_words, append_assoc)

pub length-header_bytes :
    (type : MessageType) (n : ℕ) → length (header_bytes type n) ≡ frame_header_size
unfolding big_endian
length-header_bytes type n = refl

parse_message_type-code : (type : MessageType) → parse_message_type (type_code type) ≡ ok type
unfolding parse_message_type
parse_message_type-code log = refl
parse_message_type-code ack = refl
parse_message_type-code log_batch = refl

check_header-ok :
    (type : MessageType) (n : ℕ)
    → n ≤ max_frame_payload_length
    → check_header magic version (type_code type) 0 n ≡ ok (header_of type n)
unfolding check_header
check_header-ok type n h = ground (arith, parse_message_type-code type)

check_header-eq-ok :
    (m v t r n : ℕ) {header : FrameHeader}
    → check_header m v t r n ≡ ok header
    → (m ≡ magic)
      × (v ≡ version)
      × (r ≡ 0)
      × (n ≤ max_frame_payload_length)
      × (t ≡ type_code header.type)
      × (header ≡ header_of header.type n)
unfolding check_header parse_message_type
check_header-eq-ok m v t r n h = ground arith

Parses-read_header_fields :
    (type : MessageType) (n : ℕ)
    → n ≤ max_frame_payload_length
    → Parses read_header_fields (header_bytes type n) (header_of type n)
unfolding read_header_fields
Parses-read_header_fields type n h = Parses-bind _ (Parses-read_uint32 magic (omega arith)) (
    Parses-bind _ (Parses-read_uint8 version) (
      Parses-bind _ (Parses-read_uint8 (type_code type))
        (Parses-bind _ (Parses-read_uint16 0 (omega arith)) last)))
  where
    tail :
        Parses
          (read_uint32 >>= λ payload_length.
            lift (check_header magic version (type_code type) 0 payload_length))
          (big_endian 4 n ++ [])
          (header_of type n)
    tail =
        Parses-bind _ (Parses-read_uint32 n (omega arith))
          (rw (check_header-ok type n h) (Parses-lift (header_of type n)))

    last :
        Parses
          (read_uint32 >>= λ payload_length.
            lift (check_header magic version (type_code type) 0 payload_length))
          (big_endian 4 n)
          (header_of type n)
    last = rw append-nil at tail

require_header :
    (header : Bytes)
    → frame_header_size ≤ length header
    → require_bytes header 0 frame_header_size ≡ ok tt
unfolding require_bytes
require_header header h = ground arith

require_header-eq-ok :
    (header : Bytes) {u : Unit {0}}
    → require_bytes header 0 frame_header_size ≡ ok u
    → frame_header_size ≤ length header
unfolding require_bytes
require_header-eq-ok header h = ground arith

-- A header in front of anything is parsed.
pub parse_frame_header-header_bytes :
    (type : MessageType) (n : ℕ) (rest : Bytes)
    → n ≤ max_frame_payload_length
    → parse_frame_header (header_bytes type n ++ rest) ≡ ok (header_of type n)
unfolding parse_frame_header
parse_frame_header-header_bytes type n rest h =
    rw (require_header (header_bytes type n ++ rest) (omega (arith, size, total)))
      (rw (fields.at (header_bytes type n ++ rest) 0 rest refl (omega arith)))
  where
    fields : Parses read_header_fields (header_bytes type n) (header_of type n)
    fields = Parses-read_header_fields type n h

    size : length (header_bytes type n) ≡ frame_header_size
    size = length-header_bytes type n

    total : length (header_bytes type n ++ rest) ≡ length (header_bytes type n) + length rest
    total = length-append (header_bytes type n) rest

-- Where fewer bytes than a header are there, parsing throws.
pub parse_frame_header-eq-ok_length :
    (frame : Bytes) {header : FrameHeader}
    → parse_frame_header frame ≡ ok header
    → frame_header_size ≤ length frame
unfolding parse_frame_header require_bytes
parse_frame_header-eq-ok_length frame h = ground arith

Takes-read_header_fields :
    (input : Bytes) (to : ℕ) {header : FrameHeader}
    → IsBytes input
    → read_header_fields input 0 ≡ ok (header, to)
    → Takes input 0 (header_bytes header.type header.payload_length) to
      × (header ≡ header_of header.type header.payload_length)
      × (header.payload_length ≤ max_frame_payload_length)
unfolding read_header_fields lift
Takes-read_header_fields input to {header} bytes h =
    Reader-bind-cases read_uint32 _ input 0 to h λ found_magic o1 e1 h.
      Reader-bind-cases read_uint8 _ input o1 to h λ found_version o2 e2 h.
        Reader-bind-cases read_uint8 _ input o2 to h λ raw_type o3 e3 h.
          Reader-bind-cases read_uint16 _ input o3 to h λ reserved o4 e4 h.
            Reader-bind-cases read_uint32 _ input o4 to h λ n o5 e5 h.
              let (checked, moved) =
                lift-eq-ok (check_header found_magic found_version raw_type reserved n) input o5 to
                  h in
              let (is_magic, is_version, is_zero, fits, is_code, shape) =
                check_header-eq-ok found_magic found_version raw_type reserved n checked in
              let size : n ≡ header.payload_length =
                sym (ap (λ (f : FrameHeader). f.payload_length) shape) in
              let magic_word : Takes input 0 (big_endian 4 magic) o1 =
                subst (λ w. Takes input 0 (big_endian 4 w) o1) is_magic
                  (Takes-read_uint32 input 0 o1 bytes e1).0 in
              let version_byte : Takes input o1 (version ∷ []) o2 =
                subst (λ w. Takes input o1 (w ∷ []) o2) is_version
                  (Takes-read_uint8 input o1 o2 bytes e2) in
              let type_byte : Takes input o2 (type_code header.type ∷ []) o3 =
                subst (λ w. Takes input o2 (w ∷ []) o3) is_code
                  (Takes-read_uint8 input o2 o3 bytes e3) in
              let reserved_word : Takes input o3 (big_endian 2 0) o4 =
                subst (λ w. Takes input o3 (big_endian 2 w) o4) is_zero
                  (Takes-read_uint16 input o3 o4 bytes e4) in
              let size_word : Takes input o4 (big_endian 4 header.payload_length) to =
                subst₂ (λ w o. Takes input o4 (big_endian 4 w) o) size moved
                  (Takes-read_uint32 input o4 o5 bytes e5).0 in
              (
                Takes-trans _ _ magic_word (
                    Takes-trans _ _ version_byte
                      (Takes-trans _ _ type_byte (Takes-trans _ _ reserved_word size_word))),
                shape ∙ ap (header_of header.type) size,
                omega arith,
              )

-- The header that was parsed stands at the front, and its version and its length are in range.
pub parse_frame_header-eq-ok :
    (frame : Bytes) {header : FrameHeader}
    → IsBytes frame
    → parse_frame_header frame ≡ ok header
    → (frame ≡ header_bytes header.type header.payload_length ++ drop frame_header_size frame)
      × (header ≡ header_of header.type header.payload_length)
      × (header.payload_length ≤ max_frame_payload_length)
unfolding parse_frame_header
parse_frame_header-eq-ok frame {header} bytes h = elim (Result-cases (read_header_fields frame 0)) [
  | inl ((fields, to), e) ↦
      let same : fields ≡ header =
        ground (arith, require_header frame (parse_frame_header-eq-ok_length frame h)) in
      let (taken, shape, fits) =
        Takes-read_header_fields frame to bytes (e ∙ ap (λ (f : FrameHeader). ok (f, to)) same) in
      let moved : to ≡ frame_header_size =
        omega (arith, taken.moved, length-header_bytes header.type header.payload_length) in
      (
        taken.split
            ∙ ap (λ o. header_bytes header.type header.payload_length ++ drop o frame) moved,
        shape,
        fits,
      )
  | inr (x, e) ↦
      absurd (ground (arith, require_header frame (parse_frame_header-eq-ok_length frame h)))
]

pub require_frame_size-ok :
    (type : MessageType) (payload : Bytes)
    → require_frame_size (frame_bytes type payload) (header_of type (length payload)) ≡ ok tt
unfolding require_frame_size
require_frame_size-ok type payload = ground (
  arith,
  length-append (header_bytes type (length payload)) payload,
  length-header_bytes type (length payload),
)

pub require_frame_size-eq-ok :
    (frame : Bytes) (header : FrameHeader) {u : Unit {0}}
    → require_frame_size frame header ≡ ok u
    → length frame ≡ frame_header_size + header.payload_length
unfolding require_frame_size
require_frame_size-eq-ok frame header h = ground arith

pub drop_header :
    (type : MessageType) (n : ℕ) (payload : Bytes)
    → drop frame_header_size (header_bytes type n ++ payload) ≡ payload
drop_header type n payload =
    ap (λ k. drop k (header_bytes type n ++ payload)) (sym (length-header_bytes type n))
    ∙ drop-append_length (header_bytes type n) payload

pub length-frame_bytes :
    (type : MessageType) (payload : Bytes)
    → length (frame_bytes type payload) ≡ frame_header_size + length payload
length-frame_bytes type payload = omega (
  arith,
  length-append (header_bytes type (length payload)) payload,
  length-header_bytes type (length payload),
)

-- A parsed header of the right size, with the rest of the frame taken as the payload.
pub frame_of_parts :
    (frame : Bytes) (header : FrameHeader) (type : MessageType) (payload : Bytes)
    → IsBytes frame
    → parse_frame_header frame ≡ ok header
    → header.type ≡ type
    → require_frame_size frame header ≡ ok tt
    → Takes frame frame_header_size payload (length frame)
    → frame ≡ frame_bytes type payload
frame_of_parts frame header type payload bytes parsed is_type sized taken = split
  where
    size : header.payload_length ≡ length payload
    size = omega (arith, taken.moved, require_frame_size-eq-ok frame header sized)

    behind : drop frame_header_size frame ≡ payload
    behind = taken.split ∙ ap (λ t. payload ++ t) (drop-length frame) ∙ append-nil payload

    split : frame ≡ header_bytes type (length payload) ++ payload
    split =
        (parse_frame_header-eq-ok frame bytes parsed).0
        ∙ ap₂ (λ h p. h ++ p) (ap₂ header_bytes is_type size) behind
