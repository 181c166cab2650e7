-- ===== src/WriteAheadLog/Errors.antt =====
-- The loop of `load` ends on any bytes, and what it may throw.
use log_bridge.Base.{
  ℕ, zero, suc, ◌+◌, ◌-◌, ◌<◌, arith, not, ltb, leb, List, [], ◌∷◌, ◌++◌, length, take,
  Result-cases, inl, inr, Exception, protocol, wal_non_log, wal_not_increasing,
  wal_multiple_clients, last_or,
}
use mathlib.Core.Path.{subst}
use log_bridge.Message.{Bytes, LogMessage}
use log_bridge.Protocol.Format.{log, frame_header_size}
use log_bridge.Protocol.Codec.{is_type}
use log_bridge.Protocol.Errors.{
  Answers, returns, throws, Answers-weaken, Answers-bind, Answers-throw_if, IsProtocolError,
  a_protocol_error, parse_frame_header-Answers, deserialize_log_message-Answers, if-Answers,
}
use log_bridge.WriteAheadLog.{stop, next, check_order, load_frame, load_step, load_loop, load_bytes}
use log_bridge.WriteAheadLog.Sound.{load_step-eq-next}

-- A `ProtocolError` of a frame, or one of the three errors of `load` itself.
abbrev pub IsLoadError : Exception → Type 0
IsLoadError (protocol p) = Unit {0}
IsLoadError wal_non_log = Unit {0}
IsLoadError wal_not_increasing = Unit {0}
IsLoadError wal_multiple_clients = Unit {0}
IsLoadError _ = ⊥

protocol-IsLoadError : (e : Exception) → IsProtocolError e → IsLoadError e
protocol-IsLoadError e a_protocol_error = tt

check_order-Answers :
    (pending : List LogMessage) (m : LogMessage) → Answers IsLoadError (check_order pending m)
unfolding check_order
check_order-Answers [] m = returns
check_order-Answers (front ∷ rest) m =
    Answers-bind (Answers-throw_if (leb m.id (last_or rest front).id) wal_not_increasing tt)
      (λ _. Answers-throw_if _ wal_multiple_clients tt)

load_frame-Answers :
    (bytes : Bytes) (pending : List LogMessage) → Answers IsLoadError (load_frame bytes pending)
unfolding load_frame
load_frame-Answers bytes pending =
    Answers-bind (Answers-weaken protocol-IsLoadError (parse_frame_header-Answers bytes)) (λ header.
      Answers-bind (Answers-throw_if (not (is_type header.type log)) wal_non_log tt) (λ _.
        if-Answers (ltb (length bytes) (frame_header_size + header.payload_length)) returns (
          Answers-bind
            (Answers-weaken protocol-IsLoadError (
              deserialize_log_message-Answers
                (take (frame_header_size + header.payload_length) bytes)))
            (λ m.
              Answers-bind (check_order-Answers pending m)
                (λ _. returns {a = next m (frame_header_size + header.payload_length)})))))

load_step-Answers :
    (bytes : Bytes) (offset : ℕ) (pending : List LogMessage)
    → Answers IsLoadError (load_step bytes offset pending)
unfolding load_step
load_step-Answers bytes offset pending =
    if-Answers (not (ltb offset (length bytes))) returns
      (if-Answers _ returns (load_frame-Answers _ pending))

-- Each round takes a header at least.
load_loop-Answers :
    (fuel : ℕ) (bytes : Bytes) (offset : ℕ) (pending : List LogMessage)
    → length bytes - offset < fuel
    → Answers IsLoadError (load_loop fuel bytes offset pending)
unfolding load_loop
load_loop-Answers zero bytes offset pending h = absurd (omega arith)
load_loop-Answers (suc fuel) bytes offset pending h =
    elim (Result-cases (load_step bytes offset pending)) [
      | inr (x, e) ↦
          rw (e, load_loop)
            (elim (subst (Answers IsLoadError) e (load_step-Answers bytes offset pending)) [
              | throws k ↦ throws k
            ])
      | inl (stop t, e) ↦ rw (e, load_loop) returns
      | inl (next m size, e) ↦
          let (inside, big, room, _, _) = load_step-eq-next bytes offset pending e in
          rw (e, load_loop)
            (load_loop-Answers fuel bytes (offset + size) (pending ++ m ∷ []) (omega arith))
    ]

-- Whatever bytes the file holds, the loop of load ends within a round more than there are bytes: it
-- returns, or throws a ProtocolError or one of the three errors of load.
pub load_bytes-Answers : (bytes : Bytes) → Answers IsLoadError (load_bytes bytes)
unfolding load_bytes
load_bytes-Answers bytes = load_loop-Answers (suc (length bytes)) bytes 0 [] (omega arith)
