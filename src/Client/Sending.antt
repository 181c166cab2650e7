-- ===== src/Client/Sending.antt =====
-- `deliverWithRetry` and the lambda `sendMessages` of src/main.cpp. What other threads and the network
-- decide is read from a list of rounds, one for each round of the loop.
use log_bridge.Base.{
  ℕ, zero, suc, ◌+◌, ◌-◌, ◌*◌, min, ltb, Bool, true, false, List, [], ◌∷◌, ◌++◌, length, take, drop,
  Option, none, some, Result, ok, err,
}
use log_bridge.Message.{LogMessage}
use log_bridge.Storage.World.{World}
use log_bridge.WriteAheadLog as Log
use log_bridge.WriteAheadLog.{WriteAheadLog}
use log_bridge.Network.Socket.{Socket}
use log_bridge.Network.Peers.{send_log_batch_and_wait_ack}
use log_bridge.Server.Loop.{plus}

abbrev pub send_batch_size : ℕ
send_batch_size = 10

-- In milliseconds.
abbrev pub initial_retry_delay : ℕ
initial_retry_delay = 500

abbrev pub max_retry_delay : ℕ
max_retry_delay = 8000

-- `running` at the head of the loop, what a new `TcpClient` would be, and `running` behind the wait.
pub record Round : Type 0 where
  pub running : Bool
  pub connection : Result Socket
  pub resumed : Bool

-- The counters of `ClientMetrics` that the sending thread changes.
pub record ClientMetrics : Type 0 where
  pub confirmed_messages : ℕ
  pub confirmed_batches : ℕ
  pub retries : ℕ

-- What the sending thread works on.
pub record Sender : Type 0 where
  pub client : Option Socket
  pub wal : WriteAheadLog
  pub world : World
  pub metrics : ClientMetrics

abbrev pub connect : Option Socket → Result Socket → Result Socket
connect none connection = connection
connect (some socket) connection = ok socket

-- Behind `wal.confirm`.
abbrev pub settled :
    List LogMessage → ℕ → Option Socket → ClientMetrics → Log.Outcome → Result ℕ × Sender
settled batch confirmed_id client metrics (ok _, wal, w) = (
  ok confirmed_id,
  record {
    client = client;
    wal = wal;
    world = w;
    metrics = record metrics {
      confirmed_messages = plus metrics.confirmed_messages (length batch);
      confirmed_batches = plus metrics.confirmed_batches 1;
    };
  },
)
settled batch confirmed_id client metrics (err e, wal, w) =
    (err e, record { client = client; wal = wal; world = w; metrics = metrics })

abbrev pub with_ack : List LogMessage → Sender → Result ℕ × Socket → Result ℕ × Sender
with_ack batch sender (ok confirmed_id, socket) =
    settled batch confirmed_id (some socket) sender.metrics
      (Log.confirm confirmed_id sender.wal sender.world)
with_ack batch sender (err e, socket) = (err e, record sender { client = some socket })

abbrev pub with_connection : List LogMessage → Sender → Result Socket → Result ℕ × Sender
with_connection batch sender (ok socket) =
    with_ack batch sender (send_log_batch_and_wait_ack batch socket)
with_connection batch sender (err e) = (err e, sender)

-- The `try` block.
unfoldable pub attempt : List LogMessage → Round → Sender → Result ℕ × Sender
attempt batch round sender = with_connection batch sender (connect sender.client round.connection)

-- `client.reset()`, and the retry is counted.
abbrev pub failed : Sender → Sender
failed sender = record sender {
  client = none;
  metrics = record (sender.metrics) { retries = plus sender.metrics.retries 1 };
}

-- What `deliverWithRetry` returns: true, false, or nothing yet.
pub data Delivery : Type 0 where
  confirmed stopped trying : Delivery

-- With the delays that it waited, and the rounds that are left.
pub record Delivered : Type 0 where
  pub result : Delivery
  pub sender : Sender
  pub waits : List ℕ
  pub left : List Round

abbrev pub waited : ℕ → Delivered → Delivered
waited delay d = record d { waits = delay ∷ d.waits }

abbrev pub next_delay : ℕ → ℕ
next_delay delay = min (delay * 2) max_retry_delay

abbrev pub ended : Delivery → Sender → List Round → Delivered
ended result sender left = record { result = result; sender = sender; waits = []; left = left }

-- The loop. A stop is seen at its head or behind a wait.
unfoldable pub deliver_loop : List Round → ℕ → List LogMessage → Sender → Delivered
deliver_loop [] delay batch sender = ended trying sender []
deliver_loop (round ∷ rounds) delay batch sender = elim (round.running) [
  | false ↦ ended stopped sender rounds
  | true ↦
      let (r, after) = attempt batch round sender in
      elim r [
        | ok id ↦ ended confirmed after rounds
        | err e ↦ elim (round.resumed) [
          | false ↦ waited delay (ended stopped (failed after) rounds)
          | true ↦ waited delay (deliver_loop rounds (next_delay delay) batch (failed after))
        ]
      ]
]

unfoldable pub deliver_with_retry : List Round → List LogMessage → Sender → Delivered
deliver_with_retry rounds = deliver_loop rounds initial_retry_delay

-- `messages.subspan(offset, count)`.
abbrev pub batch_at : ℕ → List LogMessage → List LogMessage
batch_at offset messages =
    take (min send_batch_size (length messages - offset)) (drop offset messages)

abbrev pub count_at : ℕ → List LogMessage → ℕ
count_at offset messages = min send_batch_size (length messages - offset)

abbrev pub waited_before : List ℕ → Delivered → Delivered
waited_before waits d = record d { waits = waits ++ d.waits }

-- The loop of `sendMessages`; each round takes a message at least.
unfoldable pub send_batches : ℕ → ℕ → List LogMessage → List Round → Sender → Delivered
send_batches zero offset messages rounds sender = ended trying sender rounds
send_batches (suc fuel) offset messages rounds sender = elim (ltb offset (length messages)) [
  | false ↦ ended confirmed sender rounds
  | true ↦
      let d = deliver_with_retry rounds (batch_at offset messages) sender in
      elim (d.result) [
        | confirmed ↦
            waited_before d.waits
              (send_batches fuel (offset + count_at offset messages) messages d.left d.sender)
        | stopped ↦ d
        | trying ↦ d
      ]
]

unfoldable pub send_messages : List LogMessage → List Round → Sender → Delivered
send_messages messages = send_batches (suc (length messages)) 0 messages
