-- ===== src/Delivery.antt =====
-- The whole of it: clients' logs (src/WriteAheadLog.cpp), what the network may do with batches, and the
-- server's handling of them (src/ServerMain.cpp), as a step relation.
pub mod Members
pub mod Moments
pub mod Invariant
pub mod Client
pub mod Confirm
pub mod Front
pub mod Append
pub mod Restart
pub mod Server
pub mod Lossless
mod Tests
use log_bridge.Base.{
  InAll, ℕ, ◌<◌, ◌≡◌, ◌≢◌, Bool, true, false, List, [], ◌∷◌, ◌++◌, Option, some, none, Result, ok,
  err, Exception,
}
use log_bridge.Message.{Bytes, LogMessage, IsTyped}
use log_bridge.Protocol.Record.{IsEncodable}
use log_bridge.Protocol.Batch.{IsRun}
use log_bridge.Storage.World.{World, Files}
use log_bridge.Network.Peers.{last_message_id}
use log_bridge.WriteAheadLog as Log
use log_bridge.WriteAheadLog.{WriteAheadLog}
use log_bridge.ClientState.Lives.{Moment, fresh}
use log_bridge.Server.Loop as Loop
use log_bridge.Delivery.Members.{In}

-- A client process: its log, and whether its producer still runs. A failed append ends the producer.
pub record Process : Type 0 where
  pub wal : WriteAheadLog
  pub producing : Bool

-- One client's process and disk, the server, and what has happened: the messages whose append
-- returned, those that append was called with, the batches that were sent and the ids of the ACKs.
pub record System : Type 0 where
  pub process : Option Process
  pub files : Files
  pub server : Loop.Server
  pub accepted : List LogMessage
  pub numbered : List LogMessage
  pub wires : List (List LogMessage)
  pub acks : List ℕ

-- A message that the producer may number now.
pub record IsNext (client_id : Bytes) (numbered : List LogMessage) (m : LogMessage) : Type 0 where
  pub typed : IsTyped m
  pub encodable : IsEncodable m
  pub same_client : m.client_id ≡ client_id
  pub above : (o : LogMessage) → In o numbered → o.id < m.id

-- A batch that the sending thread may send now: messages of the log, in order, none left out.
pub record IsFront (client_id : Bytes) (pending : List LogMessage) (front : LogMessage)
    (rest : List LogMessage) : Type 0 where
  pub run : IsRun client_id 0 (front ∷ rest)
  pub from_log : (m : LogMessage) → In m (front ∷ rest) → In m pending
  pub no_gap :
      (m : LogMessage)
      → In m pending
      → log_bridge.Base.◌≤◌ m.id (last_message_id (front ∷ rest))
      → In m (front ∷ rest)

abbrev pub appending : LogMessage → WriteAheadLog → World → Log.Outcome
appending m wal w = Log.append m wal (fresh w)

abbrev pub confirming : ℕ → WriteAheadLog → World → Log.Outcome
confirming id wal w = Log.confirm id wal (fresh w)

abbrev pub acked_by : Result ℕ → List ℕ → List ℕ
acked_by (ok id) acks = id ∷ acks
acked_by (err e) acks = acks

-- What becomes of the system when the server handles a batch.
abbrev pub handled : System → Result ℕ × Loop.Server × World → System
handled s (r, server, w) = record s { server = server; acks = acked_by r s.acks }

abbrev pub restarted : Bytes → System → Log.Outcome → System
restarted path s (ok _, wal, w) = record s {
  process = some (record { wal = wal; producing = true });
  files = w.files;
}
restarted path s (err e, wal, w) = record s { process = none; files = w.files }

abbrev pub after_append : LogMessage → System → Log.Outcome → System
after_append m s (ok _, wal, w) = record s {
  process = some (record { wal = wal; producing = true });
  files = w.files;
  accepted = m ∷ s.accepted;
  numbered = m ∷ s.numbered;
}
after_append m s (err e, wal, w) = record s {
  process = some (record { wal = wal; producing = false });
  files = w.files;
  numbered = m ∷ s.numbered;
}

module _ (client_id : Bytes) (c : ℕ) (name : Bytes) where
  abbrev path : Bytes
  path = c ∷ name

  -- Calls return or throw, a process dies at any moment, and the server may handle each batch that
  -- was ever sent at any time and any number of times.
  pub data Reaches (start : System) : System → Type 0 where
    begin : Reaches start start
    append_step :
        (s : System) (p : Process) (m : LogMessage) (w : World)
        → Reaches start s
        → s.process ≡ some p
        → p.producing ≡ true
        → w.files ≡ s.files
        → IsNext client_id s.numbered m
        → Reaches start (after_append m s (appending m p.wal w))
    append_death :
        (s : System) (p : Process) (m : LogMessage) (w : World) (files : Files)
        → Reaches start s
        → s.process ≡ some p
        → p.producing ≡ true
        → w.files ≡ s.files
        → IsNext client_id s.numbered m
        → Moment files (appending m p.wal w).2.history
        → Reaches start (record s { process = none; files = files; numbered = m ∷ s.numbered })
    send_step :
        (s : System) (p : Process) (front : LogMessage) (rest : List LogMessage)
        → Reaches start s
        → s.process ≡ some p
        → IsFront client_id p.wal.pending front rest
        → Reaches start (record s { wires = (front ∷ rest) ∷ s.wires })
    handle_step :
        (s : System) (front : LogMessage) (rest : List LogMessage) (w : World)
        → Reaches start s
        → InAll (front ∷ rest) s.wires
        → Reaches start (handled s (Loop.handle_batch front rest s.server w))
    other_step :
        (s : System) (front : LogMessage) (rest : List LogMessage) (w : World)
        → Reaches start s
        → front.client_id ≢ client_id
        → IsRun front.client_id 0 (front ∷ rest)
        → Reaches start (record s { server = (Loop.handle_batch front rest s.server w).1 })
    confirm_step :
        (s : System) (p : Process) (id : ℕ) (w : World)
        → Reaches start s
        → s.process ≡ some p
        → w.files ≡ s.files
        → InAll id s.acks
        → Reaches start (record s {
          process = some (record p { wal = (confirming id p.wal w).1 });
          files = (confirming id p.wal w).2.files;
        })
    confirm_death :
        (s : System) (p : Process) (id : ℕ) (w : World) (files : Files)
        → Reaches start s
        → s.process ≡ some p
        → w.files ≡ s.files
        → InAll id s.acks
        → Moment files (confirming id p.wal w).2.history
        → Reaches start (record s { process = none; files = files })
    death : (s : System) → Reaches start s → Reaches start (record s { process = none })
    restart_step :
        (s : System) (w : World)
        → Reaches start s
        → s.process ≡ none
        → w.files ≡ s.files
        → Reaches start (restarted path s (Log.open_log path (fresh w)))
    restart_death :
        (s : System) (w : World) (files : Files)
        → Reaches start s
        → s.process ≡ none
        → w.files ≡ s.files
        → Moment files (Log.open_log path (fresh w)).2.history
        → Reaches start (record s { process = none; files = files })
