-- ===== src/Server/Tests.antt =====
-- Two batches of a client and one of them again, and the theorems on them.
use log_bridge.Base.{
  ℕ, true, false, List, All, inl, ◌≡◌, refl, arith, [], ◌∷◌, ◌++◌, bytes_eq, none, ok, pos,
}
use log_bridge.Message.{LogMessage}
use log_bridge.Protocol.Words.{big_endian}
use log_bridge.Protocol.Batch.{IsRun}
use log_bridge.Protocol.BatchFrame.{batch_frame}
use log_bridge.Storage.World.{World, done, short, fail, call, modify, return, ◌>>=◌, on_error}
use log_bridge.Storage.Persistence.{
  write_atomically, write_all, write_loop, close_ignored, sync_and_close, sync_parent_directory,
  remove_ignored, rename, open_truncate, ensure_parent_directory,
}
use log_bridge.Dedup.Text.{text_of, entry_lines, decimal, digits}
use log_bridge.Dedup.Store.{find, put, bytes_lt, highest_confirmed, persist, confirm}
use log_bridge.Server.Loop.{Server, process_messages, handle_batch}
use log_bridge.Server.Batch.{fresh, watermark, HandleEnds, handle_batch-HandleEnds}
use log_bridge.Server.Once.{IsOnce, Serves, start, then_batch, Serves-IsOnce}
use log_bridge.Server.Resend.{handle_batch-resent}
use log_bridge.Server.Sessions.{Session, serve_clients}
use log_bridge.Server.Witnessed.{IsWitnessed, Progresses}
use log_bridge.Server.Served.{SessionBytes, serve_clients-Progresses}

abbrev line : ℕ → LogMessage
line id = record {
  id = id;
  client_id = b'c' ∷ [];
  timestamp_ms = pos id;
  source = [];
  content = b'x' ∷ [];
}

abbrev server : Server
server = record {
  store = record { path = b'd' ∷ []; confirmed = [] };
  metrics = record {
    connections = 1;
    batches = 0;
    received_messages = 0;
    processed_messages = 0;
    duplicate_messages = 0;
  };
  output = [];
}

abbrev world : World
world = record { files = λ q. none; history = []; schedule = done ∷ done ∷ short 5 ∷ fail 4 ∷ [] }

-- All that the handling of a batch calls.
handling : Unit {0}
unfolding handle_batch process_messages confirm persist find put bytes_lt highest_confirmed text_of
    entry_lines decimal digits bytes_eq write_atomically write_all write_loop close_ignored
    sync_and_close sync_parent_directory remove_ignored rename open_truncate ensure_parent_directory
    call modify return ◌>>=◌ on_error
handling = tt

abbrev first : Server
first = (handle_batch (line 2) (line 5 ∷ []) server world).1

-- The second batch overlaps the first.
acks :
    ((handle_batch (line 2) (line 5 ∷ []) server world).0 ≡ ok 5)
    × ((handle_batch (line 5) (line 6 ∷ []) first world).0 ≡ ok 6)
unfolding handling
acks = (refl, refl)

printed : (handle_batch (line 5) (line 6 ∷ []) first world).1.output ≡ line 2 ∷ line 5 ∷ line 6 ∷ []
unfolding handling
printed = refl

first-IsRun : IsRun (b'c' ∷ []) 0 (line 2 ∷ line 5 ∷ [])
first-IsRun = (refl, omega arith, omega arith, (refl, omega arith, omega arith, tt))

second-IsRun : IsRun (b'c' ∷ []) 0 (line 5 ∷ line 6 ∷ [])
second-IsRun = (refl, omega arith, omega arith, (refl, omega arith, omega arith, tt))

handle_batch-HandleEnds_example :
    let q = handle_batch (line 5) (line 6 ∷ []) first world in
    (q.1.output
      ≡ first.output ++ fresh (watermark (line 5) (line 6 ∷ []) first) (line 5 ∷ line 6 ∷ []))
    × HandleEnds (line 5) (line 6 ∷ []) first q.0 q.1.store
handle_batch-HandleEnds_example =
    handle_batch-HandleEnds (line 5) (line 6 ∷ []) first world second-IsRun

abbrev last : Server
last = (handle_batch (line 5) (line 6 ∷ []) first world).1

served : Serves server last
served =
    then_batch (line 5) (line 6 ∷ []) world 6
      (then_batch (line 2) (line 5 ∷ []) world 5 start first-IsRun acks.0) second-IsRun acks.1

Serves-IsOnce_example : IsOnce last
Serves-IsOnce_example = Serves-IsOnce server last served (record { increasing = tt; covered = tt })

handle_batch-resent_example :
    let q = handle_batch (line 2) (line 5 ∷ []) first world in
    (q.0 ≡ ok 5) × (q.1.output ≡ first.output) × (q.1.store ≡ first.store) × (q.2 ≡ world)
handle_batch-resent_example =
    handle_batch-resent (line 2) (line 5 ∷ []) server world world 5 first-IsRun acks.0

-- A connection with a batch and two bytes behind it that are no frame, and a stop.
abbrev sessions : List Session
sessions =
    record {
      running = true;
      accepts = ok true;
      connection = record {
        incoming = batch_frame (line 2 ∷ line 5 ∷ []) ++ 1 ∷ 2 ∷ [];
        arrivals = [];
        sent = [];
        departures = [];
      };
      flags = true ∷ true ∷ true ∷ [];
    }
    ∷ record {
      running = true;
      accepts = ok false;
      connection = record { incoming = []; arrivals = []; sent = []; departures = [] };
      flags = [];
    }
    ∷ []

sessions-SessionBytes : All SessionBytes sessions
unfolding big_endian
sessions-SessionBytes = (omega arith, (tt, tt))

server-IsWitnessed : IsWitnessed server
unfolding highest_confirmed find
server-IsWitnessed = λ client_id. inl refl

serve_clients-Progresses_example : Progresses server (serve_clients sessions server world).1
serve_clients-Progresses_example =
    serve_clients-Progresses sessions server world server-IsWitnessed sessions-SessionBytes
