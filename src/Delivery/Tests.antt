-- ===== src/Delivery/Tests.antt =====
-- A life of a client with one message, and the theorem on it.
use log_bridge.Base.{InAll, ◌≡◌, refl, arith, true, [], ◌∷◌, some, none, inl, pos, bytes_eq}
use log_bridge.Message.{Bytes, LogMessage}
use log_bridge.Protocol.Write.{
  append_frame_header, append_log_record, append_shifted, append_uint16, append_uint32,
  append_uint64, log_record_size,
}
use log_bridge.Protocol.Codec.{serialize_log_message}
use log_bridge.Storage.World as World
use log_bridge.Storage.World.{World, done, short, fail, call, modify, on_error}
use log_bridge.Storage.Persistence.{
  append_durably, open_append, write_atomically, write_all, write_loop, close_ignored,
  sync_and_close, sync_parent_directory, remove_ignored, rename, open_truncate,
  ensure_parent_directory, read_file, read_existing, stream_call,
}
use log_bridge.WriteAheadLog as Log
use log_bridge.WriteAheadLog.{
  open_log, load_bytes, load_loop, load_step, append, confirm, unconfirmed, rewrite_locked,
  frames_of,
}
use log_bridge.Dedup.Text.{text_of, entry_lines, decimal, digits}
use log_bridge.Dedup.Store as Store
use log_bridge.Dedup.Store.{find, put, bytes_lt, highest_confirmed, persist}
use log_bridge.Server.Loop as Loop
use log_bridge.Server.Loop.{process_messages, handle_batch}
use log_bridge.ClientState.Lives.{fresh}
use log_bridge.Delivery.Members.{In}
use log_bridge.Delivery.{
  Process, System, IsNext, IsFront, Reaches, begin, append_step, send_step, handle_step,
  confirm_death, restart_step, death, restarted, after_append, appending, handled, confirming,
}
use log_bridge.Delivery.Lossless.{IsStart, IsDurable, Reaches-IsDurable}

abbrev client_id : Bytes
client_id = b'c' ∷ []

abbrev path : Bytes
path = b'w' ∷ []

abbrev line : LogMessage
line = record {
  id = 3;
  client_id = client_id;
  timestamp_ms = pos 7;
  source = [];
  content = b'x' ∷ [];
}

abbrev server : Loop.Server
server = record {
  store = record { path = b'd' ∷ []; confirmed = [] };
  metrics = record {
    connections = 0;
    batches = 0;
    received_messages = 0;
    processed_messages = 0;
    duplicate_messages = 0;
  };
  output = [];
}

abbrev begun : System
begun = record {
  process = none;
  files = λ q. none;
  server = server;
  accepted = [];
  numbered = [];
  wires = [];
  acks = [];
}

-- All that the steps call.
running : Unit {0}
unfolding append_frame_header append_log_record append_shifted append_uint16 append_uint32
    append_uint64 log_record_size serialize_log_message World.return World.◌>>=◌ call modify
    on_error append_durably open_append write_atomically write_all write_loop close_ignored
    sync_and_close sync_parent_directory remove_ignored rename open_truncate ensure_parent_directory
    read_file read_existing stream_call open_log load_bytes load_loop load_step append confirm
    unconfirmed rewrite_locked frames_of text_of entry_lines decimal digits Store.confirm find put
    bytes_lt highest_confirmed persist process_messages handle_batch bytes_eq
running = tt

-- A world with the files of a system, on a disk that is interrupted now and then.
abbrev world : System → World
world s = record { files = s.files; history = []; schedule = done ∷ done ∷ short 5 ∷ fail 4 ∷ [] }

abbrev empty_log : Process
empty_log = record { wal = record { path = path; pending = [] }; producing = true }

abbrev one_log : Process
one_log = record { wal = record { path = path; pending = line ∷ [] }; producing = true }

abbrev opened : System
opened = restarted path begun (Log.open_log path (fresh (world begun)))

opened-process : opened.process ≡ some empty_log
unfolding running
opened-process = refl

abbrev written : System
written = after_append line opened (appending line empty_log.wal (world opened))

opened-numbered : opened.numbered ≡ []
unfolding running
opened-numbered = refl

line-IsNext : IsNext client_id opened.numbered line
unfolding running
line-IsNext = record {
  typed = omega arith;
  encodable = omega arith;
  same_client = refl;
  above = λ o here. absurd here;
}

written-process : written.process ≡ some one_log
unfolding running
written-process = refl

line-IsFront : IsFront client_id one_log.wal.pending line []
line-IsFront = record {
  run = (refl, omega arith, omega arith, tt);
  from_log = λ m here. here;
  no_gap = λ m here le. here;
}

abbrev sent : System
sent = record written { wires = (line ∷ []) ∷ written.wires }

abbrev printed : System
printed = handled sent (Loop.handle_batch line [] sent.server (world sent))

printed-process : printed.process ≡ some one_log
unfolding running
printed-process = refl

acked : InAll 3 printed.acks
unfolding running
acked = inl refl

-- The process dies while it confirms, and the client starts again.
abbrev confirmed : System
confirmed = record printed {
  process = some (record one_log { wal = (confirming 3 one_log.wal (world printed)).1 });
  files = (confirming 3 one_log.wal (world printed)).2.files;
}

life : Reaches client_id b'w' [] begun (record confirmed { process = none })
life = death confirmed (
    log_bridge.Delivery.confirm_step printed one_log 3 (world printed)
      (handle_step sent line [] (world sent)
        (send_step written one_log line []
          (append_step opened empty_log line (world opened)
            (restart_step begun (world begun) begin refl refl) opened-process refl refl line-IsNext)
          written-process line-IsFront)
        (inl refl))
      printed-process refl acked)

accepted : In line (record confirmed { process = none }).accepted
unfolding running
accepted = inl refl

-- Nothing is left in the log, and the message is in the output.
outcome :
    ((confirming 3 one_log.wal (world printed)).1.pending ≡ [])
    × (printed.server.output ≡ line ∷ [])
unfolding running
outcome = (refl, refl)

begun-IsStart : IsStart client_id path begun
unfolding highest_confirmed find
begun-IsStart = record {
  process = refl;
  file = refl;
  accepted = refl;
  wires = refl;
  acks = refl;
  unknown = refl;
}

Reaches-IsDurable_example : IsDurable path (record confirmed { process = none }) line
Reaches-IsDurable_example =
    Reaches-IsDurable client_id b'w' [] begun (record confirmed { process = none }) line
      begun-IsStart life accepted
