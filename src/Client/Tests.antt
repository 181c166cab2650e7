-- ===== src/Client/Tests.antt =====
-- A delivery that fails once, and the theorems on the sending thread.
use log_bridge.Base.{
  ◌≡◌, refl, arith, ℕ, true, false, [], ◌∷◌, List, none, ok, err, system, invalid_argument, pos,
  bytes_eq, length,
}
use log_bridge.Message.{LogMessage}
use log_bridge.Protocol.Write.{
  append_frame_header, append_shifted, append_uint16, append_uint32, append_uint64,
  append_log_record, log_record_size,
}
use log_bridge.Protocol.Reader
use log_bridge.Protocol.Read.{
  advance, parse_message_type, read_uint16, read_uint32, read_uint64, read_uint8, require,
  require_bytes, require_frame_size, shift_in,
}
use log_bridge.Protocol.Codec.{
  check_header, parse_frame_header, read_header_fields, serialize_log_message, serialize_log_batch,
  batch_payload, append_records, serialize_ack, deserialize_ack,
}
use log_bridge.Protocol.BatchFrame.{IsBatch}
use log_bridge.Storage.World.{call, modify, ◌>>=◌, on_error}
use log_bridge.Storage.Persistence.{
  write_atomically, write_all, write_loop, close_ignored, sync_and_close, sync_parent_directory,
  remove_ignored, rename, open_truncate, ensure_parent_directory,
}
use log_bridge.WriteAheadLog as Log
use log_bridge.WriteAheadLog.{WriteAheadLog, unconfirmed, rewrite_locked, frames_of}
use log_bridge.WriteAheadLog.Load.{IsLog}
use log_bridge.Network.Socket as Net
use log_bridge.Network.Socket.{
  Socket, receive_loop, receive_exact, receive_frame, send_loop, send_all,
}
use log_bridge.Network.Peers.{send_log_batch_and_wait_ack, send_log_batch, receive_ack}
use log_bridge.Dedup.Text.{decimal, digits}
use log_bridge.Dedup.Load.{skip_spaces, take_digits}
use log_bridge.Numbers.{stoull, signed_of, unsigned_of}
use log_bridge.Client.Port.{parse_port, IsPort, parse_port-bounds}
use log_bridge.Client.Sending.{
  Round, Sender, deliver_with_retry, deliver_loop, batch_at, attempt, confirmed,
}
use log_bridge.Client.Producer.{Producer, Line, produce_round}
use log_bridge.Client.Numbering.{RoundEnds, produce_round-RoundEnds}
use log_bridge.Client.Retry.{delays_from, deliver_with_retry-waits}
use log_bridge.Client.Batches.{batch_at-IsBatch}

parsing : Unit {0}
unfolding parse_port stoull signed_of unsigned_of skip_spaces take_digits decimal digits
parsing = tt

port : parse_port (b'9' ∷ b'0' ∷ b'0' ∷ b'0' ∷ []) ≡ ok 9000
unfolding parsing
port = refl

no_port :
    (parse_port (b'0' ∷ []) ≡ err invalid_argument)
    × (parse_port (decimal 65536) ≡ err invalid_argument)
    × (parse_port (b'9' ∷ b'x' ∷ []) ≡ err invalid_argument)
unfolding parsing
no_port = (refl, refl, refl)

-- A minus sign is no hindrance where the negated value is a port.
negative_port : parse_port (b'-' ∷ decimal 18446744073709551615) ≡ ok 1
unfolding parsing
negative_port = refl

parse_port-bounds_example : IsPort 9000 × (parse_port (decimal 9000) ≡ ok 9000)
parse_port-bounds_example = parse_port-bounds (b'9' ∷ b'0' ∷ b'0' ∷ b'0' ∷ []) port

abbrev line : ℕ → LogMessage
line id = record {
  id = id;
  client_id = b'c' ∷ [];
  timestamp_ms = pos id;
  source = [];
  content = b'x' ∷ [];
}

abbrev lines : List LogMessage
lines = line 2 ∷ line 7 ∷ []

lines-IsLog : IsLog lines
lines-IsLog = (refl, omega arith, omega arith, (refl, omega arith, omega arith, tt))

batch_at-IsBatch_example : IsBatch (batch_at 1 lines)
batch_at-IsBatch_example = batch_at-IsBatch 1 lines lines-IsLog (omega arith)

-- A connection on which the ACK comes.
abbrev socket : Socket
socket = record { incoming = serialize_ack 7; arrivals = []; sent = []; departures = [] }

abbrev sender : Sender
sender = record {
  client = none;
  wal = record { path = b'w' ∷ []; pending = lines };
  world = record { files = λ q. none; history = []; schedule = [] };
  metrics = record { confirmed_messages = 0; confirmed_batches = 0; retries = 0 };
}

abbrev rounds : List Round
rounds =
    record { running = true; connection = err (system 111); resumed = true }
    ∷ record { running = true; connection = err (system 111); resumed = true }
    ∷ record { running = true; connection = ok socket; resumed = false }
    ∷ []

deliver_with_retry-waits_example :
    let d = deliver_with_retry rounds lines sender in d.waits ≡ delays_from 0 (length d.waits)
deliver_with_retry-waits_example = deliver_with_retry-waits rounds lines sender

-- All that a delivery calls.
delivering : Unit {0}
unfolding deliver_with_retry deliver_loop attempt send_log_batch_and_wait_ack send_log_batch
    receive_ack Net.return Net.throw Net.lift Net.◌>>=◌ receive_loop receive_exact receive_frame
    send_loop send_all append_frame_header append_log_record append_shifted append_uint16
    append_uint32 append_uint64 log_record_size Reader.◌>>=◌ Reader.pure Reader.lift advance
    parse_message_type read_uint16 read_uint32 read_uint64 read_uint8 require require_bytes
    require_frame_size shift_in check_header parse_frame_header read_header_fields
    serialize_log_message serialize_log_batch batch_payload append_records serialize_ack
    deserialize_ack bytes_eq Log.confirm unconfirmed rewrite_locked frames_of write_atomically
    write_all write_loop close_ignored sync_and_close sync_parent_directory remove_ignored rename
    open_truncate ensure_parent_directory call modify ◌>>=◌ on_error
delivering = tt

delivers :
    let d = deliver_with_retry rounds lines sender in
    (d.result ≡ confirmed) × (d.waits ≡ 500 ∷ 1000 ∷ []) × (d.sender.wal.pending ≡ [])
unfolding delivering
delivers = (refl, refl, refl)

abbrev producer : Producer
producer = record {
  state = record {
    path = b's' ∷ [];
    client_id = b'c' ∷ [];
    next_id = 8;
    source_path = b'l' ∷ [];
    file_offset = 0;
    file_device_id = 3;
    file_inode = 4;
  };
  wal = sender.wal;
  world = sender.world;
  read_messages = 0;
  wal_messages = 0;
}

abbrev new_lines : List Line
new_lines = (pos 1, b'x' ∷ []) ∷ (pos 2, b'y' ∷ []) ∷ []

produce_round-RoundEnds_example :
    RoundEnds
      (b'l' ∷ [])
      new_lines
      (4, 3, 4)
      producer
      (produce_round (b'l' ∷ []) new_lines (4, 3, 4) producer)
produce_round-RoundEnds_example = produce_round-RoundEnds (b'l' ∷ []) new_lines (4, 3, 4) producer
