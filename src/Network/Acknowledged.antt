-- ===== src/Network/Acknowledged.antt =====
-- What a client knows when `sendLogBatchAndWaitAck` returns, and when it does return.
use log_bridge.Base.{
  ℕ, ◌≡◌, refl, sym, ap, ◌∙◌, arith, true, not, ◌==◌, ◌<◌, ◌^◌, List, ◌++◌, append-nil, All,
  All-append_left, Option, none, some, Result, ok, err, throw_if, ack_mismatch,
}
use mathlib.Core.Path.{subst}
use log_bridge.Message.{Bytes, IsByte, IsBytes, LogMessage}
use log_bridge.Protocol.Format.{ack}
use log_bridge.Protocol.Codec.{serialize_log_batch, serialize_ack, deserialize_ack}
use log_bridge.Protocol.Words.{big_endian, length-big_endian}
use log_bridge.Protocol.Frame.{frame_bytes}
use log_bridge.Protocol.BatchFrame.{IsBatch, batch_frame, serialize_log_batch-eq-ok}
use log_bridge.Protocol.Ack.{
  serialize_ack-eq, deserialize_ack-serialize_ack, serialize_ack-deserialize_ack,
}
use log_bridge.Network.Socket.{
  Socket, Io, return, throw, lift, continue, ◌>>=◌, send_all, receive_frame,
}
use log_bridge.Network.Peers.{
  send_log_batch, receive_ack, ack_of, last_message_id, send_log_batch_and_wait_ack,
}
use log_bridge.Network.Receiving.{Transient}
use log_bridge.Network.Framing.{
  Received, receive_frame-Received, FrameMeans, receive_frame-Means, receive_frame-sent,
}
use log_bridge.Network.Sending.{Accepting, Sent, send_all-Sent}
use log_bridge.Network.Exchange.{send_log_batch-ok}

module _ {A B : Type 0} where
  continue-cases :
      (r : Result A × Socket) (f : A → Io B) {b : B} {s' : Socket}
      → continue r f ≡ (ok b, s')
      → (a : A) × (mid : Socket) × (r ≡ (ok a, mid)) × (f a mid ≡ (ok b, s'))
  continue-cases (ok a, mid) f h = (a, mid, refl, h)
  continue-cases (err e, mid) f h = cc

pub send_all-eq-ok :
    (bytes : Bytes) (s mid : Socket) {u : Unit {0}}
    → send_all bytes s ≡ (ok u, mid)
    → (mid.sent ≡ s.sent ++ bytes) × (mid.incoming ≡ s.incoming)
unfolding send_all
send_all-eq-ok bytes s mid {u} h =
    let sent : Sent s.sent bytes mid.sent (ok u) =
      subst (λ p. Sent s.sent bytes p.1.sent p.0) h (send_all-Sent bytes s) in
    (
      sent.on_wire
          ∙ ap (λ t. s.sent ++ t)
              (sym (sent.split ∙ ap (λ t. sent.front ++ t) sent.means ∙ append-nil sent.front)),
      ap (λ p. p.1.incoming) (sym h),
    )

send_log_batch-eq-ok :
    (ms : List LogMessage) (s mid : Socket) {u : Unit {0}}
    → send_log_batch ms s ≡ (ok u, mid)
    → IsBatch ms × (mid.sent ≡ s.sent ++ batch_frame ms) × (mid.incoming ≡ s.incoming)
unfolding send_log_batch lift ◌>>=◌
send_log_batch-eq-ok ms s mid h =
    let (frame, s₁, e, k) = continue-cases (serialize_log_batch ms, s) send_all h in
    let (batch, shape) = serialize_log_batch-eq-ok ms {frame = frame} (ap (λ p. p.0) e) in
    let (wire, stream) = send_all-eq-ok frame s₁ mid k in
    let same : s₁ ≡ s = ap (λ p. p.1) (sym e) in
    (
      batch,
      wire ∙ ap (λ t. t.sent ++ frame) same ∙ ap (λ t. s.sent ++ t) shape,
      stream ∙ ap (λ t. t.incoming) same,
    )

receive_ack-eq-ok :
    (s s' : Socket) {id : ℕ}
    → IsBytes s.incoming
    → receive_ack s ≡ (ok id, s')
    → (s.incoming ≡ serialize_ack id ++ s'.incoming) × (s'.sent ≡ s.sent)
unfolding receive_ack lift return throw ◌>>=◌
receive_ack-eq-ok s s' {id} bytes h =
    let (frame, mid, e, k) = continue-cases (receive_frame s) ack_of h in
    ack_of-eq-ok frame mid
      (subst (λ p. FrameMeans s.incoming p.1.incoming p.0) e (receive_frame-Means s))
      (ap (λ p. p.1.sent) (sym e) ∙ receive_frame-sent s) k
  where
    ack_of-eq-ok :
        (frame : Option Bytes) (mid : Socket)
        → FrameMeans s.incoming mid.incoming (ok frame)
        → mid.sent ≡ s.sent
        → ack_of frame mid ≡ (ok id, s')
        → (s.incoming ≡ serialize_ack id ++ s'.incoming) × (s'.sent ≡ s.sent)
    ack_of-eq-ok none mid means sent k = cc
    ack_of-eq-ok (some frame) mid means sent k =
        let (a, mid₂, e₂, done) = continue-cases (deserialize_ack frame, mid) _ k in
        let all_bytes : IsBytes frame =
          All-append_left IsByte frame mid.incoming (subst IsBytes means.0 bytes) in
        let (again, _) = serialize_ack-deserialize_ack frame all_bytes (ap (λ p. p.0) e₂) in
        let same_id : a.confirmed_id ≡ id = cc in
        let same : mid ≡ s' = ap (λ p. p.1) e₂ ∙ ap (λ p. p.1) done in
        (
          means.0
              ∙ ap (λ t. t ++ mid.incoming) (sym again ∙ ap serialize_ack same_id)
              ∙ ap (λ t. serialize_ack id ++ t.incoming) same,
          ap (λ t. t.sent) (sym same) ∙ sent,
        )

-- The client's view of an exchange that ended well.
pub record IsAcknowledged (ms : List LogMessage) (s : Socket) (id : ℕ) (s' : Socket) : Type 0 where
  pub last : id ≡ last_message_id ms
  pub batch : IsBatch ms
  pub sent : s'.sent ≡ s.sent ++ batch_frame ms
  pub acked : s.incoming ≡ serialize_ack id ++ s'.incoming

-- If sendLogBatchAndWaitAck returns an id over a stream of bytes, it is the last id of the batch,
-- the whole frame of the batch was sent, and the ACK frame of this id was taken from the front of
-- the stream and nothing more.
pub send_log_batch_and_wait_ack-eq-ok :
    (ms : List LogMessage) (s s' : Socket) {id : ℕ}
    → IsBytes s.incoming
    → send_log_batch_and_wait_ack ms s ≡ (ok id, s')
    → IsAcknowledged ms s id s'
unfolding send_log_batch_and_wait_ack ◌>>=◌ lift return
send_log_batch_and_wait_ack-eq-ok ms s s' {id} bytes h =
    let (u, s₁, e₁, h₁) = continue-cases (send_log_batch ms s) _ h in
    let (found, s₂, e₂, h₂) = continue-cases (receive_ack s₁) _ h₁ in
    let (v, s₃, e₃, h₃) =
      continue-cases (throw_if (not (found == last_message_id ms)) ack_mismatch, s₂) _ h₂ in
    let (batch, wire, kept) = send_log_batch-eq-ok ms s s₁ e₁ in
    let (acked, silent) = receive_ack-eq-ok s₁ s₂ (subst IsBytes (sym kept) bytes) e₂ in
    let matches : throw_if (not (found == last_message_id ms)) ack_mismatch ≡ ok v =
      ap (λ p. p.0) e₃ in
    let equal : found ≡ last_message_id ms = ground arith in
    let same_id : found ≡ id = cc in
    let same : s₂ ≡ s' = ap (λ p. p.1) e₃ ∙ ap (λ p. p.1) h₃ in
    record {
      last = sym same_id ∙ equal;
      batch = batch;
      sent = ap (λ t. t.sent) (sym same) ∙ silent ∙ wire;
      acked =
          sym kept
          ∙ acked
          ∙ ap (λ k. serialize_ack k ++ s₂.incoming) same_id
          ∙ ap (λ t. serialize_ack id ++ t.incoming) same;
    }

receive_ack-ok :
    (s : Socket) (id : ℕ) (behind : Bytes)
    → id < 2 ^ 64
    → All Transient s.arrivals
    → s.incoming ≡ serialize_ack id ++ behind
    → ((receive_ack s).0 ≡ ok id) × ((receive_ack s).1.incoming ≡ behind)
unfolding receive_ack lift return ◌>>=◌
receive_ack-ok s id behind small steady stream = rw (r.full) (rw decoded (refl, r.left))
  where
    r : Received (frame_bytes ack (big_endian 8 id)) behind s (receive_frame s)
    r =
        receive_frame-Received s ack (big_endian 8 id) behind
          (omega (arith, length-big_endian 8 id))
          (stream ∙ ap (λ t. t ++ behind) (serialize_ack-eq id)) steady

    decoded :
        deserialize_ack (frame_bytes ack (big_endian 8 id)) ≡ ok (record { confirmed_id = id })
    decoded =
        ap deserialize_ack (sym (serialize_ack-eq id)) ∙ deserialize_ack-serialize_ack id small

-- For a batch that one frame can carry, with a last id of 64 bits: if the calls of send take bytes
-- or are interrupted, those of recv return pieces of any size or are interrupted, and the ACK frame
-- of the last id stands in front of the stream, then sendLogBatchAndWaitAck returns this id and
-- leaves what stands behind the frame.
pub send_log_batch_and_wait_ack-ok :
    (ms : List LogMessage) (s : Socket) (behind : Bytes)
    → IsBatch ms
    → last_message_id ms < 2 ^ 64
    → All Accepting s.departures
    → All Transient s.arrivals
    → s.incoming ≡ serialize_ack (last_message_id ms) ++ behind
    → let r = send_log_batch_and_wait_ack ms s in
      (r.0 ≡ ok (last_message_id ms)) × (r.1.incoming ≡ behind)
unfolding send_log_batch_and_wait_ack ◌>>=◌ lift return
send_log_batch_and_wait_ack-ok ms s behind batch small accepting steady stream =
    let (done, wire, kept, waiting) = send_log_batch-ok ms s batch accepting in
    let s₁ = (send_log_batch ms s).1 in
    let (acked, left) =
      receive_ack-ok s₁ (last_message_id ms) behind small
        (subst (All Transient) (sym waiting) steady) (kept ∙ stream) in
    let equal : (last_message_id ms == last_message_id ms) ≡ true = ground arith in
    rw done (rw acked (rw equal (refl, left)))
