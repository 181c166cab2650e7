-- ===== src/Network/Exchange.antt =====
-- A batch and its ACK between `TcpClient` and `TcpServer`, whatever the pieces that TCP makes of them.
use log_bridge.Base.{
  ◌≡◌, refl, sym, ap, ◌∙◌, List, ◌++◌, length, drop, drop-append_length, All, Option, some, Result,
  ok,
}
use log_bridge.Message.{Bytes, LogMessage, IsTyped}
use log_bridge.Protocol.Format.{log_batch}
use log_bridge.Protocol.Frame.{parse_frame_header-header_bytes}
use log_bridge.Protocol.BatchFrame.{
  IsBatch, IsBatch-fits, batch_body, batch_frame, serialize_log_batch-ok,
  deserialize_log_batch-batch_frame,
}
use log_bridge.Network.Socket.{Socket, return, lift, ◌>>=◌, receive_frame}
use log_bridge.Network.Peers.{send_log_batch, decode_log_frame, receive_log_batch}
use log_bridge.Network.Receiving.{Transient}
use log_bridge.Network.Framing.{Received, receive_frame-Received}
use log_bridge.Network.Sending.{Accepting, send_all-ok}

append-cancel : (xs ys zs : Bytes) → xs ++ ys ≡ xs ++ zs → ys ≡ zs
append-cancel xs ys zs h =
    sym (drop-append_length xs ys) ∙ ap (drop (length xs)) h ∙ drop-append_length xs zs

pub send_log_batch-ok :
    (ms : List LogMessage) (s : Socket)
    → IsBatch ms
    → All Accepting s.departures
    → let r = send_log_batch ms s in
      (r.0 ≡ ok tt)
      × (r.1.sent ≡ s.sent ++ batch_frame ms)
      × (r.1.incoming ≡ s.incoming)
      × (r.1.arrivals ≡ s.arrivals)
unfolding send_log_batch lift ◌>>=◌
send_log_batch-ok ms s batch steady =
    rw (serialize_log_batch-ok ms batch) (send_all-ok (batch_frame ms) s steady)

decode_log_frame-batch_frame :
    (ms : List LogMessage) → All IsTyped ms → IsBatch ms → decode_log_frame (batch_frame ms) ≡ ok ms
unfolding decode_log_frame
decode_log_frame-batch_frame ms typed batch =
    rw
      (parse_frame_header-header_bytes log_batch (length (batch_body ms)) (batch_body ms)
        (IsBatch-fits ms batch))
      (deserialize_log_batch-batch_frame ms typed batch)

-- The server has the messages, and the stream goes on behind their frame.
pub record Delivers (ms : List LogMessage) (behind : Bytes)
    (r : Result (Option (List LogMessage)) × Option Socket) : Type 0 where
  pub got : r.0 ≡ ok (some ms)
  pub socket : Socket
  pub connected : r.1 ≡ some socket
  pub left : socket.incoming ≡ behind

receive_log_batch-Delivers :
    (ms : List LogMessage) (s : Socket) (behind : Bytes)
    → All IsTyped ms
    → IsBatch ms
    → All Transient s.arrivals
    → s.incoming ≡ batch_frame ms ++ behind
    → Delivers ms behind (receive_log_batch (some s))
unfolding receive_log_batch lift return ◌>>=◌
receive_log_batch-Delivers ms s behind typed batch steady stream = rw (r.full) (
    rw (decode_log_frame-batch_frame ms typed batch)
      (record { got = refl; socket = (receive_frame s).1; connected = refl; left = r.left }))
  where
    r : Received (batch_frame ms) behind s (receive_frame s)
    r =
        receive_frame-Received s log_batch (batch_body ms) behind (IsBatch-fits ms batch) stream
          steady

-- For a batch that one frame can carry, with fields in the range of their C++ types: if the calls
-- of send take bytes or are interrupted, sendLogBatch returns; and if the bytes that it put on the
-- wire stand in front of the stream of the server, whose calls of recv return pieces of any size or
-- are interrupted, receiveLogBatch returns exactly these messages and leaves what stands behind
-- them.
pub receive_log_batch-send_log_batch :
    (ms : List LogMessage) (client server : Socket) (wire behind : Bytes)
    → All IsTyped ms
    → IsBatch ms
    → All Accepting client.departures
    → (send_log_batch ms client).1.sent ≡ client.sent ++ wire
    → All Transient server.arrivals
    → server.incoming ≡ wire ++ behind
    → ((send_log_batch ms client).0 ≡ ok tt) × Delivers ms behind (receive_log_batch (some server))
receive_log_batch-send_log_batch ms client server wire behind typed batch accepting sent steady
      stream =
    let (done, on_wire, _, _) = send_log_batch-ok ms client batch accepting in
    let same : wire ≡ batch_frame ms =
      append-cancel client.sent wire (batch_frame ms) (sym sent ∙ on_wire) in
    (
      done,
      receive_log_batch-Delivers ms server behind typed batch steady
          (stream ∙ ap (λ t. t ++ behind) same),
    )
