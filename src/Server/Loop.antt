-- ===== src/Server/Loop.antt =====
-- The handling of a batch in `main` of src/ServerMain.cpp. What the program prints of a message is the
-- message in `output`, the oldest first.
use log_bridge.Base.{
  ℕ, ◌+◌, ◌%◌, ◌^◌, Bool, true, false, leb, if◌then◌else◌, List, [], ◌∷◌, ◌++◌, length, last_or,
  Option, none, some, Result, ok, err, logic_error,
}
use log_bridge.Message.{LogMessage}
use log_bridge.Storage.World.{World}
use log_bridge.Network.Socket.{Socket}
use log_bridge.Network.Peers.{receive_log_batch, send_ack}
use log_bridge.Dedup.Store.{DedupStore, highest_confirmed, confirm}

-- Counters of 64 bits.
pub record ServerMetrics : Type 0 where
  pub connections : ℕ
  pub batches : ℕ
  pub received_messages : ℕ
  pub processed_messages : ℕ
  pub duplicate_messages : ℕ

pub record Server : Type 0 where
  pub store : DedupStore
  pub metrics : ServerMetrics
  pub output : List LogMessage

abbrev pub plus : ℕ → ℕ → ℕ
plus counter n = (counter + n) % 2 ^ 64

-- What the loop over the messages changes.
pub record Progress : Type 0 where
  pub latest : ℕ
  pub counters : ServerMetrics
  pub lines : List LogMessage

abbrev pub skipped : Progress → Progress
skipped p = record p {
  counters = record (p.counters) { duplicate_messages = plus p.counters.duplicate_messages 1 };
}

abbrev pub processed : LogMessage → Progress → Progress
processed message p = record {
  latest = message.id;
  counters = record (p.counters) { processed_messages = plus p.counters.processed_messages 1 };
  lines = p.lines ++ message ∷ [];
}

-- The loop `for (const LogMessage& message : *messages)`.
unfoldable pub process_messages : ℕ → List LogMessage → Progress → Progress
process_messages previous_confirmed [] p = p
process_messages previous_confirmed (message ∷ rest) p =
    process_messages previous_confirmed rest
      (if leb message.id previous_confirmed then skipped p else processed message p)

-- From the counting of the received messages to `messages->back().id`: the id to acknowledge.
abbrev pub confirmed : ℕ → Server → Result ℕ × DedupStore × World → Result ℕ × Server × World
confirmed last_id server (ok watermark, store, w) = (ok last_id, record server { store = store }, w)
confirmed last_id server (err e, store, w) = (err e, record server { store = store }, w)

-- Before the loop, and after it.
abbrev pub started : ℕ → List LogMessage → Server → Progress
started previous_confirmed messages server = record {
  latest = previous_confirmed;
  counters = record (server.metrics) {
    received_messages = plus server.metrics.received_messages (length messages);
  };
  lines = server.output;
}

abbrev pub finished : Server → Progress → Server
finished server p = record { store = server.store; metrics = p.counters; output = p.lines }

unfoldable pub handle_batch :
    LogMessage → List LogMessage → Server → World → Result ℕ × Server × World
unfolding process_messages
handle_batch front rest server w =
    let messages = front ∷ rest in
    let previous_confirmed = highest_confirmed front.client_id server.store in
    let p =
      process_messages previous_confirmed messages (started previous_confirmed messages server) in
    confirmed (last_or rest front).id (finished server p)
      (confirm front.client_id p.latest server.store w)

-- The program after one round: whether the loop goes on, or what was thrown.
pub record Round : Type 0 where
  pub result : Result Bool
  pub server : Server
  pub client : Option Socket
  pub world : World

-- `++metrics.batches` behind a `sendAck` that returned.
abbrev pub counted : Server → Server
counted server = record server {
  metrics = record (server.metrics) { batches = plus server.metrics.batches 1 };
}

abbrev pub acknowledged : Server → World → Result (Unit {0}) × Option Socket → Round
acknowledged server w (ok _, client) = record {
  result = ok true;
  server = counted server;
  client = client;
  world = w;
}
acknowledged server w (err e, client) = record {
  result = err e;
  server = server;
  client = client;
  world = w;
}

abbrev pub answered : Option Socket → Result ℕ × Server × World → Round
answered client (ok confirmed_id, server, w) = acknowledged server w (send_ack confirmed_id client)
answered client (err e, server, w) = record {
  result = err e;
  server = server;
  client = client;
  world = w;
}

-- `receiveLogBatch` returns no empty batch.
abbrev pub received : Server → World → Result (Option (List LogMessage)) × Option Socket → Round
received server w (ok (some (front ∷ rest)), client) =
    answered client (handle_batch front rest server w)
received server w (ok (some []), client) = record {
  result = err logic_error;
  server = server;
  client = client;
  world = w;
}
received server w (ok none, client) = record {
  result = ok false;
  server = server;
  client = client;
  world = w;
}
received server w (err e, client) = record {
  result = err e;
  server = server;
  client = client;
  world = w;
}

-- One round of the inner `while`, with the flag `running` set.
unfoldable pub serve_round : Server → Option Socket → World → Round
unfolding handle_batch
serve_round server client w = received server w (receive_log_batch client)
