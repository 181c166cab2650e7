-- ===== src/Server/Received.antt =====
-- What `receiveLogBatch` returns is a run of messages of one client, whatever bytes come.
use log_bridge.Base.{
  ◌≡◌, refl, arith, List, [], ◌∷◌, All-append_left, All-append_right, Option, some, none, Result,
  ok, err, Result-cases, inl, inr,
}
use mathlib.Core.Path.{subst}
use log_bridge.Message.{Bytes, IsByte, IsBytes, LogMessage}
use log_bridge.Protocol.Format.{MessageType, log, log_batch, ack}
use log_bridge.Protocol.Codec.{parse_frame_header, deserialize_log_message, deserialize_log_batch}
use log_bridge.Protocol.Single.{deserialize_log_message-eq-ok}
use log_bridge.Protocol.Batch.{IsRun}
use log_bridge.Protocol.BatchFrame.{IsBatch, deserialize_log_batch-eq-ok}
use log_bridge.Network.Socket.{Socket, continue, return, lift, ◌>>=◌, receive_frame}
use log_bridge.Network.Peers.{messages_of_type, decode_log_frame, batch_of, receive_log_batch}
use log_bridge.Network.Framing.{FrameMeans, receive_frame-Means}

abbrev pub IsRunOf : List LogMessage → Type 0
IsRunOf [] = ⊥
IsRunOf (front ∷ rest) = IsRun front.client_id 0 (front ∷ rest)

IsBatch-IsRunOf : (ms : List LogMessage) → IsBatch ms → IsRunOf ms
IsBatch-IsRunOf [] h = h
IsBatch-IsRunOf (front ∷ rest) h = h.1

abbrev MeansRun : Result (List LogMessage) → Type 0
MeansRun (ok ms) = IsRunOf ms
MeansRun (err e) = Unit {0}

messages_of_type-MeansRun :
    (type : MessageType) (frame : Bytes) → IsBytes frame → MeansRun (messages_of_type type frame)
messages_of_type-MeansRun log frame bytes = elim (Result-cases (deserialize_log_message frame)) [
  | inr (e, h) ↦ rw h tt
  | inl (m, h) ↦ rw h (one m h)
]
  where
    one : (m : LogMessage) → deserialize_log_message frame ≡ ok m → IsRunOf (m ∷ [])
    one m h =
        let (typed, encodable, shape) = deserialize_log_message-eq-ok frame bytes h in
        (refl, omega (arith, encodable.id_set), encodable, tt)
messages_of_type-MeansRun log_batch frame bytes =
    elim (Result-cases (deserialize_log_batch frame)) [
      | inr (e, h) ↦ rw h tt
      | inl (ms, h) ↦ rw h (several ms h)
    ]
  where
    several : (ms : List LogMessage) → deserialize_log_batch frame ≡ ok ms → IsRunOf ms
    several ms h =
        let (typed, batch, shape) = deserialize_log_batch-eq-ok frame bytes h in
        IsBatch-IsRunOf ms batch
messages_of_type-MeansRun ack frame bytes = tt

decode_log_frame-MeansRun : (frame : Bytes) → IsBytes frame → MeansRun (decode_log_frame frame)
unfolding decode_log_frame
decode_log_frame-MeansRun frame bytes = elim (Result-cases (parse_frame_header frame)) [
  | inr (e, h) ↦ rw h tt
  | inl (header, h) ↦ rw h (messages_of_type-MeansRun header.type frame bytes)
]

-- A run, and bytes behind it.
abbrev pub ReceivesRun : Result (Option (List LogMessage)) × Option Socket → Type 0
ReceivesRun (ok (some ms), some s) = IsRunOf ms × IsBytes s.incoming
ReceivesRun (ok (some ms), none) = ⊥
ReceivesRun _ = Unit {0}

decoded-ReceivesRun :
    (r : Result (List LogMessage)) (s : Socket)
    → MeansRun r
    → IsBytes s.incoming
    → let q = continue (r, s) (λ ms. return (some ms)) in ReceivesRun (q.0, some q.1)
unfolding return
decoded-ReceivesRun (ok ms) s h bytes = (h, bytes)
decoded-ReceivesRun (err e) s h bytes = tt

frame-ReceivesRun :
    (q : Result (Option Bytes) × Socket) (incoming : Bytes)
    → IsBytes incoming
    → FrameMeans incoming q.1.incoming q.0
    → let p = continue q batch_of in ReceivesRun (p.0, some p.1)
unfolding return lift ◌>>=◌
frame-ReceivesRun (err e, s) incoming bytes h = tt
frame-ReceivesRun (ok none, s) incoming bytes h = tt
frame-ReceivesRun (ok (some frame), s) incoming bytes h =
    let all_bytes = subst IsBytes h.0 bytes in
    decoded-ReceivesRun (decode_log_frame frame) s
      (decode_log_frame-MeansRun frame (All-append_left IsByte frame s.incoming all_bytes))
      (All-append_right IsByte frame s.incoming all_bytes)

pub receive_log_batch-ReceivesRun :
    (s : Socket) → IsBytes s.incoming → ReceivesRun (receive_log_batch (some s))
unfolding receive_log_batch ◌>>=◌
receive_log_batch-ReceivesRun s bytes =
    frame-ReceivesRun (receive_frame s) s.incoming bytes (receive_frame-Means s)
