-- ===== src/Protocol/Errors.antt =====
-- What the codec throws: `ProtocolError` and nothing else, on every input.
use log_bridge.Base.{
  ℕ, Bool, true, false, Result, ok, err, ◌>>=◌, throw_if, Exception, ProtocolError, protocol, ltb,
  ◌==◌, not, if◌then◌else◌, invalid_magic, unsupported_version, reserved_bits, payload_too_large,
}
use log_bridge.Message.{Bytes}
use log_bridge.Protocol.Reader as Reader
use log_bridge.Protocol.Reader.{Reader}
use log_bridge.Protocol.Format.{
  FrameHeader, frame_header_size, magic, version, max_frame_payload_length,
}
use log_bridge.Protocol.Read.{
  require_bytes, require, advance, read_uint8, read_uint16, read_uint32, read_uint64, read_string,
  parse_message_type, check_lengths, read_log_record, require_frame_size,
}
use log_bridge.Protocol.Codec.{
  check_header, read_header_fields, parse_frame_header, deserialize_log_message,
}

-- It returns, or what it throws satisfies `P`.
pub data Answers {ℓ} {A : Type ℓ} (P : Exception → Type 0) : Result A → Type ℓ where
  returns : {a : A} → Answers P (ok a)
  throws : {e : Exception} → P e → Answers P (err e)

pub data IsProtocolError : Exception → Type 0 where
  a_protocol_error : {p : ProtocolError} → IsProtocolError (protocol p)

pub Answers-err {ℓ} :
    {A : Type ℓ} {P : Exception → Type 0} (e : Exception) → Answers {A = A} P (err e) → P e
Answers-err e (throws h) = h

pub Answers-weaken {ℓ} :
    {A : Type ℓ} {P Q : Exception → Type 0} {r : Result A}
    → ((e : Exception) → P e → Q e)
    → Answers P r
    → Answers Q r
Answers-weaken g returns = returns
Answers-weaken g (throws h) = throws (g _ h)

pub Answers-bind {ℓ κ} :
    {A : Type ℓ} {B : Type κ} {P : Exception → Type 0} {m : Result A} {f : A → Result B}
    → Answers P m
    → ((a : A) → Answers P (f a))
    → Answers P (m >>= f)
Answers-bind returns k = k _
Answers-bind (throws h) k = throws h

pub Answers-throw_if :
    {P : Exception → Type 0} (test : Bool) (e : Exception) → P e → Answers P (throw_if test e)
Answers-throw_if true e h = throws h
Answers-throw_if false e h = returns

-- The same of a reader, on every input and at every offset.
abbrev pub Throws : {A : Type 0} → Reader A → Type 0
Throws r = (input : Bytes) (offset : ℕ) → Answers IsProtocolError (r input offset)

check : (test : Bool) (p : ProtocolError) → Answers IsProtocolError (throw_if test (protocol p))
check true p = throws a_protocol_error
check false p = returns

Throws-lift : {A : Type 0} (r : Result A) → Answers IsProtocolError r → Throws (Reader.lift r)
unfolding Reader.lift
Throws-lift (ok a) returns input offset = returns
Throws-lift (err e) (throws h) input offset = throws h

module _ {A B : Type 0} where
  resume-Answers :
      (x : Result (A × ℕ)) (f : A → Reader B) (input : Bytes)
      → Answers IsProtocolError x
      → ((a : A) → Throws (f a))
      → Answers IsProtocolError (Reader.resume x f input)
  resume-Answers (ok (a, to)) f input h k = k a input to
  resume-Answers (err e) f input (throws h) k = throws h

  Throws-bind :
      (r : Reader A) (f : A → Reader B)
      → Throws r
      → ((a : A) → Throws (f a))
      → Throws (Reader.◌>>=◌ r f)
  unfolding Reader.◌>>=◌
  Throws-bind r f h k input offset = resume-Answers (r input offset) f input (h input offset) k

module _ (client_id_length source_length content_length id : ℕ) where
  Throws-check_lengths : Throws (check_lengths id client_id_length source_length content_length)
  unfolding check_lengths
  Throws-check_lengths = Throws-bind _ _ (Throws-lift _ (check _ _)) (λ _.
      Throws-bind _ _ (Throws-lift _ (check _ _))
        (λ _. Throws-bind _ _ (Throws-lift _ (check _ _)) (λ _. Throws-lift _ (check _ _))))

Throws-require : (count : ℕ) → Throws (require count)
unfolding require require_bytes
Throws-require count input offset =
    Throws-lift (require_bytes input offset count) (check _ _) input offset

Throws-take :
    {A : Type 0} (count : ℕ) (value : Bytes → ℕ → A)
    → Throws (Reader.◌>>=◌ (require count) (λ _. advance count value))
unfolding advance
Throws-take count value = Throws-bind (require count) _ (Throws-require count) (λ _ _ _. returns)

Throws-read_uint8 : Throws read_uint8
unfolding read_uint8
Throws-read_uint8 = Throws-take 1 _

Throws-read_uint16 : Throws read_uint16
unfolding read_uint16
Throws-read_uint16 = Throws-take 2 _

Throws-read_uint32 : Throws read_uint32
unfolding read_uint32
Throws-read_uint32 = Throws-take 4 _

Throws-read_uint64 : Throws read_uint64
unfolding read_uint64
Throws-read_uint64 = Throws-take 8 _

Throws-read_string : (count : ℕ) → Throws (read_string count)
unfolding read_string
Throws-read_string count = Throws-take count _

Throws-read_log_record : Throws read_log_record
unfolding read_log_record Reader.pure
Throws-read_log_record = Throws-bind _ _ Throws-read_uint64 (λ id.
    Throws-bind _ _ Throws-read_uint64 (λ timestamp.
      Throws-bind _ _ Throws-read_uint32 (λ client_id_length.
        Throws-bind _ _ Throws-read_uint32 (λ source_length.
          Throws-bind _ _ Throws-read_uint32 (λ content_length.
            Throws-bind _ _ (Throws-check_lengths client_id_length source_length content_length id)
              (λ _. Throws-bind _ _ (Throws-read_string _) (λ client_id.
                Throws-bind _ _ (Throws-read_string _)
                  (λ source. Throws-bind _ _ (Throws-read_string _) (λ content _ _. returns)))))))))

pub if-Answers :
    {A : Type 0} {P : Exception → Type 0} {x y : Result A} (test : Bool)
    → Answers P x
    → Answers P y
    → Answers P (if test then x else y)
if-Answers true h k = h
if-Answers false h k = k

parse_message_type-Answers : (raw_type : ℕ) → Answers IsProtocolError (parse_message_type raw_type)
unfolding parse_message_type
parse_message_type-Answers raw_type = if-Answers (raw_type == 1) returns (
    if-Answers (raw_type == 2) returns
      (if-Answers (raw_type == 3) returns (throws a_protocol_error)))

Throws-read_header_fields : Throws read_header_fields
unfolding read_header_fields check_header
Throws-read_header_fields = Throws-bind _ _ Throws-read_uint32 (λ found_magic.
    Throws-bind _ _ Throws-read_uint8 (λ found_version.
      Throws-bind _ _ Throws-read_uint8 (λ raw_type. Throws-bind _ _ Throws-read_uint16 (λ reserved.
        Throws-bind _ _ Throws-read_uint32 (λ payload_length. Throws-lift _ (
          Answers-bind (check (not (found_magic == magic)) invalid_magic) (λ _.
            Answers-bind (check (not (found_version == version)) unsupported_version) (λ _.
              Answers-bind (check (not (reserved == 0)) reserved_bits) (λ _.
                Answers-bind (check (ltb max_frame_payload_length payload_length) payload_too_large)
                  (λ _. Answers-bind (parse_message_type-Answers raw_type) (λ _. returns)))))))))))

pub parse_frame_header-Answers :
    (header : Bytes) → Answers IsProtocolError (parse_frame_header header)
unfolding parse_frame_header require_bytes
parse_frame_header-Answers header =
    Answers-bind (check _ _) (λ _. Answers-bind (Throws-read_header_fields header 0) (λ _. returns))

require_frame_size-Answers :
    (frame : Bytes) (header : FrameHeader)
    → Answers IsProtocolError (require_frame_size frame header)
unfolding require_frame_size
require_frame_size-Answers frame header = check _ _

-- Whatever bytes stand in a frame, `deserializeLogMessage` returns or throws `ProtocolError`.
pub deserialize_log_message-Answers :
    (frame : Bytes) → Answers IsProtocolError (deserialize_log_message frame)
unfolding deserialize_log_message
deserialize_log_message-Answers frame = Answers-bind (parse_frame_header-Answers frame) (λ header.
    Answers-bind (check _ _) (λ _. Answers-bind (require_frame_size-Answers frame header) (λ _.
      Answers-bind (Throws-read_log_record frame frame_header_size)
        (λ _. Answers-bind (check _ _) (λ _. returns)))))
