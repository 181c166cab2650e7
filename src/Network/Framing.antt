-- ===== src/Network/Framing.antt =====
-- `receiveFrame`: the frame that stands at the front of the stream, whole or not at all.
use log_bridge.Base.{
  ℕ, ◌+◌, ◌≤◌, ◌≡◌, refl, sym, ap, ◌∙◌, arith, [], ◌++◌, append-nil, append_assoc, ◌⊎◌, length,
  length-append, take, take-append_length, All, Option, none, some, Result, ok, err, Exception,
  protocol, system, closed_in_frame, closed_before_payload, inl, inr, Result-cases,
}
use mathlib.Core.Path.{subst, subst₂}
use log_bridge.Message.{Bytes}
use log_bridge.Protocol.Format.{
  MessageType, FrameHeader, frame_header_size, max_frame_payload_length,
}
use log_bridge.Protocol.Codec.{parse_frame_header}
use log_bridge.Protocol.Frame.{
  header_bytes, frame_bytes, header_of, length-header_bytes, parse_frame_header-header_bytes,
}
use log_bridge.Protocol.Errors.{
  Answers, Answers-err, IsProtocolError, a_protocol_error, parse_frame_header-Answers,
}
use log_bridge.Network.Socket.{
  Socket, return, throw, lift, ◌>>=◌, continue, with_payload, with_header, receive_loop,
  receive_exact, receive_frame,
}
use log_bridge.Network.Receiving.{Transient, Filled, receive_loop-Filled, Got, receive_loop-Got}

-- The bytes `whole` were taken from the stream, and nothing else changed.
pub record Received (whole behind : Bytes) (s : Socket) (r : Result (Option Bytes) × Socket)
    : Type 0 where
  pub full : r.0 ≡ ok (some whole)
  pub left : r.1.incoming ≡ behind
  pub steady : All Transient r.1.arrivals
  pub sent : r.1.sent ≡ s.sent
  pub departures : r.1.departures ≡ s.departures

receive_exact-Received :
    (s : Socket) (count : ℕ) (front behind : Bytes)
    → length front ≡ count
    → s.incoming ≡ front ++ behind
    → All Transient s.arrivals
    → Received front behind s (receive_exact count s)
unfolding receive_exact
receive_exact-Received s count front behind counted stream steady = record {
  full = h.full;
  left = h.left;
  steady = h.steady;
  sent = refl;
  departures = refl;
}
  where
    h : Filled front behind (receive_loop s.arrivals [] count s.incoming)
    h =
        subst₂ (λ k t. Filled front behind (receive_loop s.arrivals [] k t)) counted (sym stream)
          (receive_loop-Filled s.arrivals [] front behind steady)

parse-header :
    (type : MessageType) (n : ℕ)
    → n ≤ max_frame_payload_length
    → parse_frame_header (header_bytes type n) ≡ ok (header_of type n)
parse-header type n h =
    ap parse_frame_header (sym (append-nil (header_bytes type n)))
    ∙ parse_frame_header-header_bytes type n [] h

-- If a frame with a payload within the limit stands in front of the stream and the calls of recv
-- return pieces of any size or are interrupted, receiveFrame returns this frame, leaves what stands
-- behind it, and sends nothing.
pub receive_frame-Received :
    (s : Socket) (type : MessageType) (payload behind : Bytes)
    → length payload ≤ max_frame_payload_length
    → s.incoming ≡ frame_bytes type payload ++ behind
    → All Transient s.arrivals
    → Received (frame_bytes type payload) behind s (receive_frame s)
unfolding receive_frame ◌>>=◌ lift return
receive_frame-Received s type payload behind fits stream steady = rw (first.full) (
    rw (parse-header type (length payload) fits) (
      rw (second.full) (record {
        full = refl;
        left = second.left;
        steady = second.steady;
        sent = second.sent ∙ first.sent;
        departures = second.departures ∙ first.departures;
      })))
  where
    head : Bytes
    head = header_bytes type (length payload)

    first : Received head (payload ++ behind) s (receive_exact frame_header_size s)
    first =
        receive_exact-Received s frame_header_size head (payload ++ behind)
          (length-header_bytes type (length payload)) (stream ∙ append_assoc head payload behind)
          steady

    s₁ : Socket
    s₁ = (receive_exact frame_header_size s).1

    second : Received payload behind s₁ (receive_exact (length payload) s₁)
    second = receive_exact-Received s₁ (length payload) payload behind refl first.left first.steady

-- A malformed header, a stream that ends inside a frame, or a failed call.
abbrev pub IsReceiveError : Exception → Type 0
IsReceiveError (protocol p) = Unit {0}
IsReceiveError closed_in_frame = Unit {0}
IsReceiveError closed_before_payload = Unit {0}
IsReceiveError (system n) = Unit {0}
IsReceiveError _ = ⊥

-- What the result of `receiveFrame` says of the stream before and after it.
abbrev pub FrameMeans : Bytes → Bytes → Result (Option Bytes) → Type 0
FrameMeans incoming left (ok (some frame)) =
    (incoming ≡ frame ++ left)
    × (header : FrameHeader) × (parse_frame_header (take frame_header_size frame) ≡ ok header)
    × (length frame ≡ frame_header_size + header.payload_length)
FrameMeans incoming left (ok none) = incoming ≡ []
FrameMeans incoming left (err e) = IsReceiveError e

Means-IsReceiveError :
    (e : Exception) (left : Bytes)
    → ((e ≡ closed_in_frame) × (left ≡ [])) ⊎ ((n : ℕ) × (e ≡ system n))
    → IsReceiveError e
Means-IsReceiveError e left (inl h) = subst IsReceiveError (sym h.0) tt
Means-IsReceiveError e left (inr h) = subst IsReceiveError (sym h.1) tt

protocol-IsReceiveError : (e : Exception) → IsProtocolError e → IsReceiveError e
protocol-IsReceiveError e a_protocol_error = tt

parse-IsReceiveError :
    (head : Bytes) (e : Exception) → parse_frame_header head ≡ err e → IsReceiveError e
parse-IsReceiveError head e h =
    protocol-IsReceiveError e
      (Answers-err e (subst (Answers IsProtocolError) h (parse_frame_header-Answers head)))

-- The payload behind a header that was received.
with_payload-Means :
    (incoming head : Bytes) (header : FrameHeader) (rest : Bytes) (r : Result (Option Bytes))
    (s : Socket)
    → length head ≡ frame_header_size
    → parse_frame_header head ≡ ok header
    → incoming ≡ head ++ rest
    → (h : Got [] header.payload_length rest (r, s.incoming, s.arrivals))
    → let q = continue (r, s) (with_payload head) in FrameMeans incoming q.1.incoming q.0
unfolding return throw
with_payload-Means incoming head header rest (ok (some payload)) s sized parsed split h = (
  split
      ∙ ap (λ t. head ++ t) (h.split ∙ ap (λ t. t ++ s.incoming) (sym h.means.0))
      ∙ sym (append_assoc head payload s.incoming),
  header,
  ap parse_frame_header
        (ap (λ k. take k (head ++ payload)) (sym sized) ∙ take-append_length head payload)
      ∙ parsed,
  omega (arith, length-append head payload, sized, ap length h.means.0, h.means.1),
)
with_payload-Means incoming head header rest (ok none) s sized parsed split h = tt
with_payload-Means incoming head header rest (err e) s sized parsed split h =
    Means-IsReceiveError e s.incoming h.means

-- The header, and what follows it.
with_header-Means :
    (incoming : Bytes) (r : Result (Option Bytes)) (s : Socket)
    → Got [] frame_header_size incoming (r, s.incoming, s.arrivals)
    → let q = continue (r, s) with_header in FrameMeans incoming q.1.incoming q.0
unfolding return lift ◌>>=◌ receive_exact
with_header-Means incoming (err e) s h = Means-IsReceiveError e s.incoming h.means
with_header-Means incoming (ok none) s h = h.split ∙ ap (λ t. t ++ s.incoming) h.means.1 ∙ h.means.2
with_header-Means incoming (ok (some head)) s h = elim (Result-cases (parse_frame_header head)) [
  | inr (e, parsed) ↦ rw parsed (parse-IsReceiveError head e parsed)
  | inl (header, parsed) ↦ rw parsed (
      with_payload-Means incoming head header s.incoming (receive_exact header.payload_length s).0
        (receive_exact header.payload_length s).1 (ap length h.means.0 ∙ h.means.1) parsed
        (h.split ∙ ap (λ t. t ++ s.incoming) (sym h.means.0))
        (receive_loop-Got s.arrivals [] header.payload_length s.incoming))
]

-- From any stream and with any answers of recv: if receiveFrame returns a frame, the stream was
-- this frame and what is left, and its length is that of its header, which parses, and the payload
-- that the header announces; if it returns none, the stream was empty; if it throws, then a
-- ProtocolError, one of its two errors of a closed connection, or that of a failed call.
pub receive_frame-Means :
    (s : Socket) → let r = receive_frame s in FrameMeans s.incoming r.1.incoming r.0
unfolding receive_frame receive_exact ◌>>=◌
receive_frame-Means s =
    with_header-Means s.incoming (receive_exact frame_header_size s).0
      (receive_exact frame_header_size s).1
      (receive_loop-Got s.arrivals [] frame_header_size s.incoming)

-- Receiving sends nothing.
with_payload-sent :
    (head : Bytes) (r : Result (Option Bytes)) (s : Socket)
    → (continue (r, s) (with_payload head)).1.sent ≡ s.sent
unfolding return throw
with_payload-sent head (ok (some payload)) s = refl
with_payload-sent head (ok none) s = refl
with_payload-sent head (err e) s = refl

with_header-sent :
    (r : Result (Option Bytes)) (s : Socket) → (continue (r, s) with_header).1.sent ≡ s.sent
unfolding return lift ◌>>=◌ receive_exact
with_header-sent (err e) s = refl
with_header-sent (ok none) s = refl
with_header-sent (ok (some head)) s = elim (Result-cases (parse_frame_header head)) [
  | inr (e, parsed) ↦ rw parsed refl
  | inl (header, parsed) ↦ rw parsed (
      with_payload-sent head (receive_exact header.payload_length s).0
        (receive_exact header.payload_length s).1)
]

pub receive_frame-sent : (s : Socket) → (receive_frame s).1.sent ≡ s.sent
unfolding receive_frame receive_exact ◌>>=◌
receive_frame-sent s =
    with_header-sent (receive_exact frame_header_size s).0 (receive_exact frame_header_size s).1
