-- ===== src/Network/Tests.antt =====
-- A batch and its ACK over a connection that cuts them into pieces, and the theorems on it.
use log_bridge.Base.{◌≡◌, refl, ap, arith, [], ◌∷◌, ◌++◌, List, some, ok, negsuc}
use log_bridge.Message.{IsBytes, LogMessage, IsTyped}
use log_bridge.Protocol.Write.{
  append_frame_header, append_shifted, append_uint16, append_uint32, append_uint64,
}
use log_bridge.Protocol.Codec.{serialize_ack}
use log_bridge.Protocol.BatchFrame.{IsBatch, batch_frame}
use log_bridge.Network.Socket.{Socket, chunk, broken, taken, refused, receive_frame}
use log_bridge.Network.Peers.{send_log_batch, receive_log_batch, send_log_batch_and_wait_ack}
use log_bridge.Network.Framing.{FrameMeans, receive_frame-Means}
use log_bridge.Network.Exchange.{Delivers, send_log_batch-ok, receive_log_batch-send_log_batch}
use log_bridge.Network.Acknowledged.{
  IsAcknowledged, send_log_batch_and_wait_ack-eq-ok, send_log_batch_and_wait_ack-ok,
}

abbrev line : LogMessage
line = record {
  id = 7;
  client_id = b'c' ∷ [];
  timestamp_ms = negsuc 4;
  source = [];
  content = 10 ∷ 255 ∷ [];
}

line-IsTyped : IsTyped line
line-IsTyped = omega arith

abbrev lines : List LogMessage
lines = line ∷ []

lines-IsBatch : IsBatch lines
lines-IsBatch = (omega arith, (refl, omega arith, omega arith, tt), omega arith)

-- Three bytes of a send are taken, then it is interrupted; the ACK comes in pieces.
abbrev client : Socket
client = record {
  incoming = serialize_ack 7 ++ [];
  arrivals = chunk 0 ∷ broken 4 ∷ chunk 4 ∷ [];
  sent = 1 ∷ [];
  departures = taken 3 ∷ refused 4 ∷ [];
}

abbrev server : Socket
server = record {
  incoming = batch_frame lines ++ 5 ∷ 6 ∷ [];
  arrivals = chunk 9 ∷ chunk 100 ∷ broken 4 ∷ [];
  sent = [];
  departures = [];
}

receive_log_batch-send_log_batch_example :
    ((send_log_batch lines client).0 ≡ ok tt)
    × Delivers lines (5 ∷ 6 ∷ []) (receive_log_batch (some server))
receive_log_batch-send_log_batch_example =
    receive_log_batch-send_log_batch lines client server (batch_frame lines) (5 ∷ 6 ∷ [])
      (line-IsTyped, tt) lines-IsBatch (tt, (refl, tt))
      (send_log_batch-ok lines client lines-IsBatch (tt, (refl, tt))).1 (tt, (tt, (refl, tt))) refl

send_log_batch_and_wait_ack-ok_example :
    let r = send_log_batch_and_wait_ack lines client in (r.0 ≡ ok 7) × (r.1.incoming ≡ [])
send_log_batch_and_wait_ack-ok_example =
    send_log_batch_and_wait_ack-ok lines client [] lines-IsBatch (omega arith) (tt, (refl, tt))
      (tt, (refl, (tt, tt))) refl

client_incoming-IsBytes : IsBytes client.incoming
unfolding serialize_ack append_frame_header append_shifted append_uint16 append_uint32 append_uint64
client_incoming-IsBytes = omega arith

returned :
    let r = send_log_batch_and_wait_ack lines client in
    send_log_batch_and_wait_ack lines client ≡ (ok 7, r.1)
returned =
    let answered =
      send_log_batch_and_wait_ack-ok lines client [] lines-IsBatch (omega arith) (tt, (refl, tt))
        (tt, (refl, (tt, tt))) refl in
    ap (λ x. (x, (send_log_batch_and_wait_ack lines client).1)) answered.0

send_log_batch_and_wait_ack-eq-ok_example :
    IsAcknowledged lines client 7 (send_log_batch_and_wait_ack lines client).1
send_log_batch_and_wait_ack-eq-ok_example =
    send_log_batch_and_wait_ack-eq-ok lines client (send_log_batch_and_wait_ack lines client).1
      client_incoming-IsBytes returned

receive_frame-Means_example :
    FrameMeans client.incoming (receive_frame client).1.incoming (receive_frame client).0
receive_frame-Means_example = receive_frame-Means client
