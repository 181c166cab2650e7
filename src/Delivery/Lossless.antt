-- ===== src/Delivery/Lossless.antt =====
-- No accepted message is lost.
use log_bridge.Base.{InAll, ℕ, ◌≡◌, sym, ap, ◌∙◌, arith, ◌⊎◌, inl, inr, List, [], ◌∷◌, none}
use log_bridge.Message.{Bytes, LogMessage}
use log_bridge.Storage.Persistence.{content_of}
use log_bridge.WriteAheadLog.Crash.{Recovers, recovers_whole}
use log_bridge.Delivery.Members.{In}
use log_bridge.Delivery.{
  System, Reaches, begin, append_step, append_death, send_step, handle_step, other_step,
  confirm_step, confirm_death, death, restart_step, restart_death,
}
use log_bridge.Delivery.Invariant.{watermark, Invariant, some-ne-none}
use log_bridge.Delivery.Client.{Invariant-death, Invariant-sending}
use log_bridge.Delivery.Server.{Invariant-handled, Invariant-other}
use log_bridge.Delivery.Confirm.{Invariant-confirm, Invariant-confirm_death}
use log_bridge.Delivery.Append.{Invariant-append, Invariant-append_death}
use log_bridge.Delivery.Restart.{Invariant-restart, Invariant-restart_death}

-- Before the first start: no log, nothing sent, and the server does not know the client.
pub record IsStart (client_id path : Bytes) (s : System) : Type 0 where
  pub process : s.process ≡ none
  pub file : s.files path ≡ none
  pub accepted : s.accepted ≡ []
  pub wires : s.wires ≡ []
  pub acks : s.acks ≡ []
  pub unknown : watermark client_id s ≡ 0

-- The next start reads the message from the file, or the server printed it.
abbrev pub IsDurable : Bytes → System → LogMessage → Type 0
IsDurable path s m =
    ((ms : List LogMessage) × Recovers path ms s.files × In m ms) ⊎ In m s.server.output

module _ (client_id : Bytes) (c : ℕ) (name : Bytes) where
  abbrev path : Bytes
  path = c ∷ name

  Invariant-start : (s : System) → IsStart client_id path s → Invariant client_id path s
  Invariant-start s h = record {
    in_file = [];
    disk = record {
      recovers = recovers_whole path [] s.files tt tt (ap content_of h.file);
      safe = λ m here. absurd here;
      kept = λ m here. absurd (nothing m h.accepted here);
    };
    alive = λ p e. absurd (some-ne-none {p = p} (sym h.process ∙ e));
    watermark_below = λ n some above. omega (arith, some, h.unknown);
    runs = λ batch here. absurd (no_batch batch h.wires here);
    wires_below = λ batch n here above. absurd (no_batch batch h.wires here);
    acked = λ id here. absurd (no_id id h.acks here);
  }
    where
      nothing : (m : LogMessage) {ms : List LogMessage} → ms ≡ [] → In m ms → ⊥
      nothing m e here = mathlib.Core.Path.subst (In m) e here

      no_batch :
          (batch : List LogMessage) {wires : List (List LogMessage)}
          → wires ≡ []
          → InAll batch wires
          → ⊥
      no_batch batch e here = mathlib.Core.Path.subst (InAll batch) e here

      no_id : (id : ℕ) {acks : List ℕ} → acks ≡ [] → InAll id acks → ⊥
      no_id id e here = mathlib.Core.Path.subst (InAll id) e here

  Reaches-Invariant :
      (start s : System)
      → Invariant client_id path start
      → Reaches client_id c name start s
      → Invariant client_id path s
  Reaches-Invariant start _ i begin = i
  Reaches-Invariant start _ i (append_step s p m w r alive on same next) =
      Invariant-append client_id path s (Reaches-Invariant start s i r) p alive on m w same next
  Reaches-Invariant start _ i (append_death s p m w files r alive on same next at) =
      Invariant-append_death client_id path s (Reaches-Invariant start s i r) p alive on m w same
        next files at
  Reaches-Invariant start _ i (send_step s p front rest r alive is_front) =
      Invariant-sending client_id path s (Reaches-Invariant start s i r) p alive front rest is_front
  Reaches-Invariant start _ i (handle_step s front rest w r here) =
      Invariant-handled client_id path s front rest w (Reaches-Invariant start s i r) here
  Reaches-Invariant start _ i (other_step s front rest w r differ run) =
      Invariant-other client_id path s front rest w (Reaches-Invariant start s i r) differ run
  Reaches-Invariant start _ i (confirm_step s p id w r alive same acked) =
      Invariant-confirm client_id path s (Reaches-Invariant start s i r) p alive id w same acked
  Reaches-Invariant start _ i (confirm_death s p id w files r alive same acked at) =
      Invariant-confirm_death client_id path s (Reaches-Invariant start s i r) p alive id w same
        acked files at
  Reaches-Invariant start _ i (death s r) =
      Invariant-death client_id path s (Reaches-Invariant start s i r)
  Reaches-Invariant start _ i (restart_step s w r dead same) =
      Invariant-restart client_id c name s (Reaches-Invariant start s i r) w same
  Reaches-Invariant start _ i (restart_death s w files r dead same at) =
      Invariant-restart_death client_id c name s (Reaches-Invariant start s i r) w same files at

  -- From a client that has not started yet and a server that does not know it, over any steps in
  -- which appends and confirms return, throw or die at any moment, the client dies and starts
  -- again, the server handles each batch that was ever sent at any time and any number of times,
  -- returning or throwing, and handles batches of other clients: every message whose append
  -- returned is one that the next start reads from the file, or one that the server printed.
  -- Appended messages are of the client, within the limits of the protocol and the range of their
  -- C++ types, and numbered above all before; the path of the log is not empty; a failed append is
  -- the last until the next start, a batch is a run of messages of the log that leaves none out up
  -- to its last id, and what is confirmed is an id that the server acknowledged.
  pub Reaches-IsDurable :
      (start s : System) (m : LogMessage)
      → IsStart client_id path start
      → Reaches client_id c name start s
      → In m s.accepted
      → IsDurable path s m
  Reaches-IsDurable start s m h r here = found (i.disk.kept m here)
    where
      i : Invariant client_id path s
      i = Reaches-Invariant start s (Invariant-start start h) r

      found : In m i.in_file ⊎ In m s.server.output → IsDurable path s m
      found (inl k) = inl (i.in_file, i.disk.recovers, k)
      found (inr k) = inr k
