-- ===== src/Delivery/Invariant.antt =====
-- What holds at every moment of the system.
use log_bridge.Base.{InAll, ℕ, ◌≤◌, ◌<◌, ◌≡◌, true, ◌⊎◌, inl, inr, List, Option, some, none, All}
use log_bridge.Message.{Bytes, LogMessage, IsTyped}
use log_bridge.Protocol.Batch.{IsRun}
use log_bridge.Network.Peers.{last_message_id}
use log_bridge.Storage.World.{Files}
use log_bridge.WriteAheadLog.Load.{IsLog}
use log_bridge.WriteAheadLog.Crash.{Recovers}
use log_bridge.Dedup.Store.{highest_confirmed}
use log_bridge.Server.Loop as Loop
use log_bridge.Delivery.Members.{In}
use log_bridge.Delivery.Moments.{IsWhole}
use log_bridge.Delivery.{Process, System}

abbrev pub watermark : Bytes → System → ℕ
watermark client_id s = highest_confirmed client_id s.server.store

-- An id above all that were numbered.
abbrev pub IsAbove : List LogMessage → ℕ → Type 0
IsAbove numbered n = (o : LogMessage) → In o numbered → o.id < n

abbrev pub Outputs : System → LogMessage → Type 0
Outputs s m = In m s.server.output

-- A message that may still be wanted: if the watermark or a batch on the way passes it, it is in the
-- output or in that batch. And it was numbered.
pub record IsSafe (client_id : Bytes) (s : System) (m : LogMessage) : Type 0 where
  pub same_client : m.client_id ≡ client_id
  pub covered : m.id ≤ watermark client_id s → Outputs s m
  pub passed :
      (batch : List LogMessage)
      → InAll batch s.wires
      → m.id ≤ last_message_id batch
      → In m batch ⊎ Outputs s m
  pub below : (n : ℕ) → IsAbove s.numbered n → m.id < n

-- An accepted message is in a list of messages or in the output.
abbrev pub IsKept : System → List LogMessage → Type 0
IsKept s ms = (m : LogMessage) → In m s.accepted → In m ms ⊎ Outputs s m

-- A message of the file is one of the log, or printed, or behind the log: a failed append.
abbrev pub IsFiled : System → List LogMessage → LogMessage → Type 0
IsFiled s pending m = In m pending ⊎ (Outputs s m ⊎ ((o : LogMessage) → In o pending → o.id < m.id))

pub record OnDisk (client_id path : Bytes) (s : System) (ms : List LogMessage) : Type 0 where
  pub recovers : Recovers path ms s.files
  pub safe : (m : LogMessage) → In m ms → IsSafe client_id s m
  pub kept : IsKept s ms

pub record IsAlive (client_id path : Bytes) (s : System) (ms : List LogMessage) (p : Process)
    : Type 0 where
  pub same_path : p.wal.path ≡ path
  pub typed : All IsTyped p.wal.pending
  pub is_log : IsLog p.wal.pending
  pub safe : (m : LogMessage) → In m p.wal.pending → IsSafe client_id s m
  pub kept : IsKept s p.wal.pending
  pub filed : (m : LogMessage) → In m ms → IsFiled s p.wal.pending m
  pub whole : p.producing ≡ true → IsWhole path ms s.files
  pub nothing_behind :
      p.producing ≡ true → (m : LogMessage) → In m ms → In m p.wal.pending ⊎ Outputs s m

pub record Invariant (client_id path : Bytes) (s : System) : Type 0 where
  pub in_file : List LogMessage
  pub disk : OnDisk client_id path s in_file
  pub alive : (p : Process) → s.process ≡ some p → IsAlive client_id path s in_file p
  pub watermark_below : (n : ℕ) → 1 ≤ n → IsAbove s.numbered n → watermark client_id s < n
  pub runs : (batch : List LogMessage) → InAll batch s.wires → IsRun client_id 0 batch
  pub wires_below :
      (batch : List LogMessage) (n : ℕ)
      → InAll batch s.wires
      → IsAbove s.numbered n
      → last_message_id batch < n
  pub acked : (id : ℕ) → InAll id s.acks → id ≤ watermark client_id s

-- A change of the server that takes no message back from the output, and whose watermark passes only
-- messages that are in the output.
pub record IsProgress (client_id : Bytes) (s : System) (server : Loop.Server) (acks : List ℕ)
    : Type 0 where
  pub printed : (m : LogMessage) → Outputs s m → In m server.output
  pub covered :
      (m : LogMessage)
      → IsSafe client_id s m
      → m.id ≤ highest_confirmed client_id server.store
      → In m server.output
  pub below : (n : ℕ) → 1 ≤ n → IsAbove s.numbered n → highest_confirmed client_id server.store < n
  pub acked : (id : ℕ) → InAll id acks → id ≤ highest_confirmed client_id server.store

module _ (client_id path : Bytes) (s : System) (server : Loop.Server) (acks : List ℕ)
    (progress : IsProgress client_id s server acks) (i : Invariant client_id path s) where
  abbrev served : System
  served = record s { server = server; acks = acks }

  printed_or : {A : Type 0} (m : LogMessage) → A ⊎ Outputs s m → A ⊎ Outputs served m
  printed_or m (inl h) = inl h
  printed_or m (inr h) = inr (progress.printed m h)

  IsSafe-served : (m : LogMessage) → IsSafe client_id s m → IsSafe client_id served m
  IsSafe-served m h = record {
    same_client = h.same_client;
    covered = progress.covered m h;
    passed = λ batch here le. printed_or m (h.passed batch here le);
    below = h.below;
  }

  IsFiled-served :
      (pending : List LogMessage) (m : LogMessage) → IsFiled s pending m → IsFiled served pending m
  IsFiled-served pending m (inl h) = inl h
  IsFiled-served pending m (inr (inl h)) = inr (inl (progress.printed m h))
  IsFiled-served pending m (inr (inr h)) = inr (inr h)

  pub Invariant-served : Invariant client_id path served
  Invariant-served = record {
    in_file = i.in_file;
    disk = record {
      recovers = i.disk.recovers;
      safe = λ m here. IsSafe-served m (i.disk.safe m here);
      kept = λ m here. printed_or m (i.disk.kept m here);
    };
    alive = λ p e.
        let a = i.alive p e in
        record {
          same_path = a.same_path;
          typed = a.typed;
          is_log = a.is_log;
          safe = λ m here. IsSafe-served m (a.safe m here);
          kept = λ m here. printed_or m (a.kept m here);
          filed = λ m here. IsFiled-served p.wal.pending m (a.filed m here);
          whole = a.whole;
          nothing_behind = λ on m here. printed_or m (a.nothing_behind on m here);
        };
    watermark_below = progress.below;
    runs = i.runs;
    wires_below = i.wires_below;
    acked = progress.acked;
  }

-- A change on the client's side.
module _ (client_id path : Bytes) (s : System) (process : Option Process) (files : Files)
    (accepted numbered : List LogMessage)
    (more : (n : ℕ) → IsAbove numbered n → IsAbove s.numbered n)
    (i : Invariant client_id path s) where
  abbrev pub changed : System
  changed = record s { process = process; files = files; accepted = accepted; numbered = numbered }

  pub IsSafe-changed : (m : LogMessage) → IsSafe client_id s m → IsSafe client_id changed m
  IsSafe-changed m h = record {
    same_client = h.same_client;
    covered = h.covered;
    passed = h.passed;
    below = λ n above. h.below n (more n above);
  }

  pub Invariant-changed :
      (ms : List LogMessage)
      → OnDisk client_id path changed ms
      → ((p : Process) → process ≡ some p → IsAlive client_id path changed ms p)
      → Invariant client_id path changed
  Invariant-changed ms disk alive = record {
    in_file = ms;
    disk = disk;
    alive = alive;
    watermark_below = λ n some above. i.watermark_below n some (more n above);
    runs = i.runs;
    wires_below = λ batch n here above. i.wires_below batch n here (more n above);
    acked = i.acked;
  }

pub some-ne-none : {p : Process} → none ≡ some p → ⊥
some-ne-none h = cc
