-- ===== src/WriteAheadLog/Sound.antt =====
-- `load` on any bytes: what it accepts.
use log_bridge.Base.{
  ℕ, zero, suc, ◌+◌, ◌-◌, ◌≤◌, ◌<◌, ◌≡◌, refl, sym, ap, ◌∙◌, arith, Bool, List, [], ◌∷◌, ◌++◌,
  append-nil, append_assoc, length, take, drop, drop-drop, take-append-drop, length-drop, All,
  All-append, All-take, All-drop, Result-cases, ok, ltb, bytes_eq→eq, inl, inr,
}
use mathlib.Core.Path.{ap₂, subst₂}
use log_bridge.Message.{Bytes, IsByte, IsBytes, LogMessage, IsTyped}
use log_bridge.Protocol.Format.{frame_header_size}
use log_bridge.Protocol.Codec.{parse_frame_header, deserialize_log_message}
use log_bridge.Protocol.Record.{IsEncodable}
use log_bridge.Protocol.Single.{log_frame, deserialize_log_message-eq-ok}
use log_bridge.Protocol.Batch.{IsRun}
use log_bridge.WriteAheadLog.{stop, next, check_order, load_frame, load_step, load_loop, load_bytes}
use log_bridge.WriteAheadLog.Load.{file_bytes, IsLog, last_id, last_id-last_or}

pub IsRun-snoc :
    (client_id : Bytes) (previous_id : ℕ) (xs : List LogMessage) (m : LogMessage)
    → IsRun client_id previous_id xs
    → m.client_id ≡ client_id
    → last_id previous_id xs < m.id
    → IsEncodable m
    → IsRun client_id previous_id (xs ++ m ∷ [])
IsRun-snoc client_id previous_id [] m run same grows h = (same, grows, h, tt)
IsRun-snoc client_id previous_id (x ∷ xs) m run same grows h =
    (run.0, run.1, run.2, IsRun-snoc client_id x.id xs m run.3 same grows h)

check_order-eq-ok :
    (pending : List LogMessage) (m : LogMessage) {u : Unit {0}}
    → IsLog pending
    → IsEncodable m
    → check_order pending m ≡ ok u
    → IsLog (pending ++ m ∷ [])
unfolding check_order
check_order-eq-ok [] m run h e = (refl, omega (arith, h.id_set), h, tt)
check_order-eq-ok (x ∷ xs) m run h e = IsRun-snoc x.client_id 0 (x ∷ xs) m run same grows h
  where
    same : m.client_id ≡ x.client_id
    same = ground (arith, bytes_eq→eq m.client_id x.client_id)

    grows : last_id x.id xs < m.id
    grows = ground (arith, last_id-last_or x xs)

-- A round that adds a message decoded a whole frame that was there.
pub load_step-eq-next :
    (bytes : Bytes) (offset : ℕ) (pending : List LogMessage) {m : LogMessage} {size : ℕ}
    → load_step bytes offset pending ≡ ok (next m size)
    → (offset < length bytes)
      × (frame_header_size ≤ size)
      × (size ≤ length bytes - offset)
      × (deserialize_log_message (take size (drop offset bytes)) ≡ ok m)
      × (check_order pending m ≡ ok tt)
unfolding load_step load_frame
load_step-eq-next bytes offset pending {m} {size} h =
    elim (Result-cases (parse_frame_header (drop offset bytes))) [
      | inr (x, e) ↦ absurd (ground arith)
      | inl (header, e) ↦
          elim (Result-cases (
            deserialize_log_message
              (take (frame_header_size + header.payload_length) (drop offset bytes)))) [
                | inr (x, d) ↦ absurd (ground arith)
                | inl (message, d) ↦ elim (Result-cases (check_order pending message)) [
                  | inr (x, c) ↦ absurd (ground arith)
                  | inl (_, c) ↦
                      let same : message ≡ m = ground arith in
                      let whole : frame_header_size + header.payload_length ≡ size = ground arith in
                      let room : size ≤ length bytes - offset =
                        ground (arith, length-drop offset bytes) in
                      (
                        ground arith,
                        omega arith,
                        room,
                        ap (λ k. deserialize_log_message (take k (drop offset bytes))) (sym whole)
                            ∙ d
                            ∙ ap ok same,
                        ap (check_order pending) (sym same) ∙ c,
                      )
                ]
              ]
    ]

-- A round that ends saw the end of the bytes, or a frame that is not whole.
load_step-eq-stop :
    (bytes : Bytes) (offset : ℕ) (pending : List LogMessage) (truncated : Bool)
    → load_step bytes offset pending ≡ ok (stop truncated)
    → truncated ≡ ltb offset (length bytes)
unfolding load_step load_frame
load_step-eq-stop bytes offset pending truncated h =
    elim (Result-cases (parse_frame_header (drop offset bytes))) [
      | inr (x, e) ↦ ground arith
      | inl (header, e) ↦
          elim (Result-cases (
            deserialize_log_message
              (take (frame_header_size + header.payload_length) (drop offset bytes)))) [
                | inr (x, d) ↦ ground arith
                | inl (message, d) ↦ ground arith
              ]
    ]

-- What `load` returned is a log whose frames stand at the front of the bytes.
pub record Accepts (bytes : Bytes) (ms : List LogMessage) (truncated : Bool) : Type 0 where
  pub typed : All IsTyped ms
  pub is_log : IsLog ms
  pub tail : Bytes
  pub split : bytes ≡ file_bytes ms ++ tail
  pub cut : truncated ≡ ltb 0 (length tail)

pub file_bytes-append :
    (xs ys : List LogMessage) → file_bytes (xs ++ ys) ≡ file_bytes xs ++ file_bytes ys
file_bytes-append [] ys = refl
file_bytes-append (x ∷ xs) ys =
    ap (λ t. log_frame x ++ t) (file_bytes-append xs ys)
    ∙ sym (append_assoc (log_frame x) (file_bytes xs) (file_bytes ys))

-- One frame further: the state of the loop after a round that adds `m`.
module _ (bytes : Bytes) (offset : ℕ) (pending : List LogMessage) (m : LogMessage) (size : ℕ)
    (all_bytes : IsBytes bytes) (within : offset ≤ length bytes)
    (front : bytes ≡ file_bytes pending ++ drop offset bytes)
    (round : load_step bytes offset pending ≡ ok (next m size)) where
  private_facts :
      (size ≤ length bytes - offset)
      × IsTyped m
      × IsEncodable m
      × (take size (drop offset bytes) ≡ log_frame m)
      × (check_order pending m ≡ ok tt)
  private_facts =
      let (_, _, room, decoded, ordered) = load_step-eq-next bytes offset pending round in
      let (typed, encodable, shape) =
        deserialize_log_message-eq-ok (take size (drop offset bytes))
          (All-take IsByte size (drop offset bytes) (All-drop IsByte offset bytes all_bytes))
          decoded in
      (room, typed, encodable, shape, ordered)

  front_after : bytes ≡ file_bytes (pending ++ m ∷ []) ++ drop (offset + size) bytes
  front_after =
      front
      ∙ ap (λ t. file_bytes pending ++ t)
          (sym (take-append-drop size (drop offset bytes))
            ∙ ap₂ ◌++◌ private_facts.3 (drop-drop offset size bytes))
      ∙ sym (append_assoc (file_bytes pending) (log_frame m) (drop (offset + size) bytes))
      ∙ ap (λ t. t ++ drop (offset + size) bytes)
          (sym (
            file_bytes-append pending (m ∷ [])
            ∙ ap (λ t. file_bytes pending ++ t) (append-nil (log_frame m))))

load_loop-eq-ok :
    (fuel : ℕ) (bytes : Bytes) (offset : ℕ) (pending : List LogMessage) {ms : List LogMessage}
    {truncated : Bool}
    → IsBytes bytes
    → offset ≤ length bytes
    → bytes ≡ file_bytes pending ++ drop offset bytes
    → All IsTyped pending
    → IsLog pending
    → load_loop fuel bytes offset pending ≡ ok (ms, truncated)
    → Accepts bytes ms truncated
unfolding load_loop
load_loop-eq-ok zero bytes offset pending all_bytes within front typed run h = absurd (ground arith)
load_loop-eq-ok (suc fuel) bytes offset pending {ms} {truncated} all_bytes within front typed run
      h =
    elim (Result-cases (load_step bytes offset pending)) [
      | inr (x, e) ↦ absurd (ground arith)
      | inl (stop t, e) ↦
          let same : pending ≡ ms = ground arith in
          let same' : t ≡ truncated = ground arith in
          subst₂ (Accepts bytes) same same' (record {
            typed = typed;
            is_log = run;
            tail = drop offset bytes;
            split = front;
            cut =
                load_step-eq-stop bytes offset pending t e
                ∙ ground (arith, length-drop offset bytes);
          })
      | inl (next m size, e) ↦
          let (room, typed', encodable, _, ordered) =
            private_facts bytes offset pending m size all_bytes within front e in
          load_loop-eq-ok fuel bytes (offset + size) (pending ++ m ∷ []) all_bytes (omega arith)
            (front_after bytes offset pending m size all_bytes within front e)
            (All-append IsTyped pending (m ∷ []) typed (typed', tt))
            (check_order-eq-ok pending m run encodable ordered) (rw (e, load_loop) at h)
    ]

-- Whatever bytes the file holds: if the loop of load returns, its messages are a log of one client
-- with growing ids, the file begins with their frames, and the tail is reported as truncated
-- exactly when something stands behind them.
pub load_bytes-eq-ok :
    (bytes : Bytes) {ms : List LogMessage} {truncated : Bool}
    → IsBytes bytes
    → load_bytes bytes ≡ ok (ms, truncated)
    → Accepts bytes ms truncated
unfolding load_bytes
load_bytes-eq-ok bytes all_bytes h =
    load_loop-eq-ok (suc (length bytes)) bytes 0 [] all_bytes (omega arith) refl tt tt h
