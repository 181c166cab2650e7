-- ===== src/Client/Settled.antt =====
-- What `deliverWithRetry` has done to the log when it ends.
use log_bridge.Base.{ℕ, ◌≡◌, ◌⊎◌, List, Result, ok, err}
use log_bridge.Message.{IsBytes, LogMessage}
use log_bridge.Storage.World.{World}
use log_bridge.WriteAheadLog as Log
use log_bridge.WriteAheadLog.{WriteAheadLog, unconfirmed, with_object}
use log_bridge.Network.Socket.{Socket}
use log_bridge.Network.Peers.{last_message_id}
use log_bridge.Network.Acknowledged.{IsAcknowledged}
use log_bridge.Client.Sending.{Round, Sender, Delivery, confirmed, stopped, trying}

module _ (batch : List LogMessage) where
  -- A socket on which the whole batch was sent and the ACK of its last id came back.
  pub record IsAcked : Type 0 where
    pub before : Socket
    pub after : Socket
    pub exchange : IsAcknowledged batch before (last_message_id batch) after

  abbrev pub shorter : WriteAheadLog → WriteAheadLog
  shorter wal = record wal { pending = unconfirmed (last_message_id batch) wal.pending }

  -- The log without the batch, upon an ACK.
  pub record Settles (before after : Sender) : Type 0 where
    pub acked : IsAcked
    pub log : after.wal ≡ shorter before.wal

  pub record Keeps (before after : Sender) : Type 0 where
    pub log : after.wal ≡ before.wal
    pub world : after.world ≡ before.world

  abbrev pub KeepsOrSettles : Sender → Sender → Type 0
  KeepsOrSettles before after = Keeps before after ⊎ Settles before after

  abbrev pub AttemptEnds : Sender → Result ℕ × Sender → Type 0
  AttemptEnds before (ok id, after) = Settles before after
  AttemptEnds before (err e, after) = KeepsOrSettles before after

  -- What a peer sends are bytes.
  abbrev pub HasBytes : Result Socket → Type 0
  HasBytes (ok socket) = IsBytes socket.incoming
  HasBytes (err e) = Unit {0}

  abbrev pub RoundHasBytes : Round → Type 0
  RoundHasBytes round = HasBytes round.connection

  abbrev pub DeliverEnds : Sender → Delivery → Sender → Type 0
  DeliverEnds before confirmed after = Settles before after
  DeliverEnds before stopped after = KeepsOrSettles before after
  DeliverEnds before trying after = KeepsOrSettles before after
