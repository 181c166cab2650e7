-- ===== src/Client/Producer.antt =====
-- A round of the producer of src/main.cpp: every new line gets an id and goes to the log, then the
-- checkpoint moves. What it pushes into the queue is what the round returns.
use log_bridge.Base.{ℕ, ℤ, List, [], ◌∷◌, ◌++◌, length, Result, ok, err}
use log_bridge.Message.{Bytes, LogMessage}
use log_bridge.Storage.World.{World}
use log_bridge.WriteAheadLog as Log
use log_bridge.WriteAheadLog.{WriteAheadLog}
use log_bridge.ClientState as State
use log_bridge.ClientState.{ClientState, next_message_id, update_file_checkpoint}
use log_bridge.Server.Loop.{plus}

-- What the producer works on, with its counters of `ClientMetrics`.
pub record Producer : Type 0 where
  pub state : ClientState
  pub wal : WriteAheadLog
  pub world : World
  pub read_messages : ℕ
  pub wal_messages : ℕ

-- A line, with the time at which its message is made.
abbrev pub Line : Type 0
Line = ℤ × Bytes

abbrev pub message_for : Bytes → Bytes → ℕ → Line → LogMessage
message_for source client_id id line = record {
  id = id;
  client_id = client_id;
  timestamp_ms = line.0;
  source = source;
  content = line.1;
}

abbrev pub logged : LogMessage → ClientState → Producer → Log.Outcome → Result LogMessage × Producer
logged message state p (ok _, wal, w) = (
  ok message,
  record p { state = state; wal = wal; world = w; wal_messages = plus p.wal_messages 1 },
)
logged message state p (err e, wal, w) = (err e, record p { state = state; wal = wal; world = w })

abbrev pub with_id : Bytes → Line → Producer → State.Outcome ℕ → Result LogMessage × Producer
with_id source line p (ok id, state, w) =
    let message = message_for source state.client_id id line in
    logged message state p (Log.append message p.wal w)
with_id source line p (err e, state, w) = (err e, record p { state = state; world = w })

unfoldable pub produce_line : Bytes → Line → Producer → Result LogMessage × Producer
produce_line source line p = with_id source line p (next_message_id p.state p.world)

-- The loop over the lines.
unfoldable pub produce_lines :
    Bytes → List Line → List LogMessage → Producer → Result (List LogMessage) × Producer
produce_lines source [] messages p = (ok messages, p)
produce_lines source (line ∷ lines) messages p =
    let (r, after) = produce_line source line p in
    elim r [
      | ok message ↦ produce_lines source lines (messages ++ message ∷ []) after
      | err e ↦ (err e, after)
    ]

abbrev pub checkpointed :
    List LogMessage → Producer → State.Outcome (Unit {0}) → Result (List LogMessage) × Producer
checkpointed messages p (ok _, state, w) = (ok messages, record p { state = state; world = w })
checkpointed messages p (err e, state, w) = (err e, record p { state = state; world = w })

abbrev pub Checkpoint : Type 0
Checkpoint = ℕ × ℕ × ℕ

abbrev pub with_lines :
    Checkpoint → Result (List LogMessage) × Producer → Result (List LogMessage) × Producer
with_lines c (ok messages, p) =
    checkpointed messages p (update_file_checkpoint (c.0) (c.1) (c.2) p.state p.world)
with_lines c (err e, p) = (err e, p)

unfoldable pub produce_round :
    Bytes → List Line → Checkpoint → Producer → Result (List LogMessage) × Producer
produce_round source lines c p = with_lines c (
    produce_lines source lines []
      (record p { read_messages = plus p.read_messages (length lines) }))
