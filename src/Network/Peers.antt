-- ===== src/Network/Peers.antt =====
-- The calls of src/TcpClient.cpp and src/TcpServer.cpp on a connected socket.
use log_bridge.Base.{
  ℕ, ◌==◌, ltb, not, List, [], ◌∷◌, Option, none, some, Result, ok, err, protocol, last_or,
  logic_error, closed_before_ack, ack_mismatch, expected_log_or_batch,
}
use log_bridge.Base as Base
use log_bridge.Message.{Bytes, LogMessage}
use log_bridge.Protocol.Format.{MessageType, log, ack, log_batch}
use log_bridge.Protocol.Codec.{
  parse_frame_header, serialize_log_message, deserialize_log_message, serialize_log_batch,
  deserialize_log_batch, serialize_ack, deserialize_ack,
}
use log_bridge.Network.Socket.{
  Socket, Io, return, throw, lift, ◌>>=◌, ◌>>◌, send_all, receive_frame,
}

unfoldable pub send_log_message : LogMessage → Io (Unit {0})
unfolding lift ◌>>=◌
send_log_message message = do frame ← lift (serialize_log_message message); send_all frame

unfoldable pub send_log_batch : List LogMessage → Io (Unit {0})
unfolding lift ◌>>=◌
send_log_batch messages = do frame ← lift (serialize_log_batch messages); send_all frame

abbrev pub ack_of : Option Bytes → Io ℕ
ack_of none = throw closed_before_ack
ack_of (some frame) = do message ← lift (deserialize_ack frame); return message.confirmed_id

unfoldable pub receive_ack : Io ℕ
unfolding lift return throw ◌>>=◌
receive_ack = do frame ← receive_frame; ack_of frame

abbrev pub last_message_id : List LogMessage → ℕ
last_message_id [] = 0
last_message_id (front ∷ rest) = (last_or rest front).id

-- `messages.back()` is read behind `sendLogBatch`, which throws for no messages.
unfoldable pub send_log_batch_and_wait_ack : List LogMessage → Io ℕ
unfolding lift return ◌>>=◌
send_log_batch_and_wait_ack messages = do
  send_log_batch messages
  let expected_id = last_message_id messages
  confirmed_id ← receive_ack
  lift (Base.throw_if (not (confirmed_id == expected_id)) ack_mismatch)
  return confirmed_id

-- The server's calls, on `clientFd_`: `none` is the descriptor -1.
module _ {A : Type 0} where
  abbrev pub on_client : Option Socket → Io A → Result A × Option Socket
  on_client none m = (err logic_error, none)
  on_client (some s) m = let (r, s') = m s in (r, some s')

abbrev pub messages_of_type : MessageType → Bytes → Result (List LogMessage)
messages_of_type log frame = Base.◌>>=◌ (deserialize_log_message frame) λ message. ok (message ∷ [])
messages_of_type log_batch frame = deserialize_log_batch frame
messages_of_type ack frame = err (protocol expected_log_or_batch)

unfoldable pub decode_log_frame : Bytes → Result (List LogMessage)
decode_log_frame frame =
    Base.◌>>=◌ (parse_frame_header frame) λ header. messages_of_type header.type frame

abbrev pub batch_of : Option Bytes → Io (Option (List LogMessage))
batch_of none = return none
batch_of (some frame) = do messages ← lift (decode_log_frame frame); return (some messages)

unfoldable pub receive_log_batch : Option Socket → Result (Option (List LogMessage)) × Option Socket
unfolding lift return ◌>>=◌ decode_log_frame
receive_log_batch client = on_client client (do frame ← receive_frame; batch_of frame)

abbrev pub message_of : Option Bytes → Io (Option LogMessage)
message_of none = return none
message_of (some frame) = do message ← lift (deserialize_log_message frame); return (some message)

unfoldable pub receive_log_message : Option Socket → Result (Option LogMessage) × Option Socket
unfolding lift return ◌>>=◌
receive_log_message client = on_client client (do frame ← receive_frame; message_of frame)

unfoldable pub send_ack : ℕ → Option Socket → Result (Unit {0}) × Option Socket
send_ack confirmed_id client = on_client client (send_all (serialize_ack confirmed_id))
