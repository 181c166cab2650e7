-- ===== src/Delivery/Client.antt =====
-- The client's steps keep the invariant: sending, confirming, dying and starting again.
use log_bridge.Base.{
  InAll, ℕ, ◌≤◌, ◌<◌, ◌≡◌, sym, ap, ◌∙◌, arith, ◌⊎◌, inl, inr, List, ◌∷◌, last_or, some, none,
}
use mathlib.Core.Path.{subst}
use log_bridge.Message.{Bytes, LogMessage}
use log_bridge.Storage.World.{World, Files}
use log_bridge.Storage.Persistence.{content_of}
use log_bridge.Network.Peers.{last_message_id}
use log_bridge.WriteAheadLog.Crash.{Recovers, recovers}
use log_bridge.Delivery.Members.{In, In-last}
use log_bridge.Delivery.Moments.{IsWhole}
use log_bridge.Delivery.{Process, System, IsFront}
use log_bridge.Delivery.Invariant.{
  IsAbove, Outputs, IsSafe, IsKept, IsFiled, IsAlive, Invariant, Invariant-changed, IsSafe-changed,
  some-ne-none,
}

-- A file that is the same at the path recovers the same.
pub Recovers-same :
    (path : Bytes) (ms : List LogMessage) (before after : Files)
    → after path ≡ before path
    → Recovers path ms before
    → Recovers path ms after
Recovers-same path ms before after e r =
    recovers path ms after r.tail r.end r.typed r.is_log (ap content_of e ∙ r.stored)

pub IsWhole-same :
    (path : Bytes) (ms : List LogMessage) (before after : Files)
    → after path ≡ before path
    → IsWhole path ms before
    → IsWhole path ms after
IsWhole-same path ms before after e h = record {
  stored = ap content_of e ∙ h.stored;
  typed = h.typed;
  is_log = h.is_log;
}

pub some-injective : {p q : Process} → some p ≡ some q → p ≡ q
some-injective h = cc

module _ (client_id path : Bytes) (s : System) (i : Invariant client_id path s) where
  -- Without a process, only the file counts.
  pub Invariant-dead :
      (files : Files) (ms : List LogMessage)
      → Recovers path ms files
      → ((m : LogMessage) → In m ms → IsSafe client_id s m)
      → IsKept s ms
      → Invariant client_id path (record s { process = none; files = files })
  Invariant-dead files ms r safe kept =
      Invariant-changed client_id path s none files s.accepted s.numbered (λ n h. h) i ms
        (record {
          recovers = r;
          safe = λ m here.
              IsSafe-changed client_id path s none files s.accepted s.numbered (λ n h. h) i m
                (safe m here);
          kept = kept;
        })
        (λ p e. absurd (some-ne-none {p = p} e))

  pub Invariant-death : Invariant client_id path (record s { process = none })
  Invariant-death = Invariant-dead s.files i.in_file i.disk.recovers i.disk.safe i.disk.kept

  module _ (w : World) (same : w.files ≡ s.files) where
    pub recovered : Recovers path i.in_file w.files
    recovered = subst (Recovers path i.in_file) (sym same) i.disk.recovers

  module _ (p : Process) (is_alive : s.process ≡ some p) where
    a : IsAlive client_id path s i.in_file p
    a = i.alive p is_alive

    module _ (front : LogMessage) (rest : List LogMessage)
        (is_front : IsFront client_id p.wal.pending front rest) where
      abbrev sending : System
      sending = record s { wires = (front ∷ rest) ∷ s.wires }

      last_pending : In (last_or rest front) p.wal.pending
      last_pending = is_front.from_log (last_or rest front) (In-last front rest)

      IsSafe-sending :
          (m : LogMessage)
          → IsSafe client_id s m
          → (m.id ≤ last_message_id (front ∷ rest) → In m (front ∷ rest) ⊎ Outputs s m)
          → IsSafe client_id sending m
      IsSafe-sending m h passed = record {
        same_client = h.same_client;
        covered = h.covered;
        passed = every;
        below = h.below;
      }
        where
          every :
              (batch : List LogMessage)
              → InAll batch ((front ∷ rest) ∷ s.wires)
              → m.id ≤ last_message_id batch
              → In m batch ⊎ Outputs s m
          every batch (inl e) =
              subst (λ b. m.id ≤ last_message_id b → In m b ⊎ Outputs s m) (sym e) passed
          every batch (inr here) = h.passed batch here

      in_batch :
          (m : LogMessage)
          → IsFiled s p.wal.pending m
          → m.id ≤ last_message_id (front ∷ rest)
          → In m (front ∷ rest) ⊎ Outputs s m
      in_batch m (inl h) le = inl (is_front.no_gap m h le)
      in_batch m (inr (inl h)) le = inr h
      in_batch m (inr (inr behind)) le =
          absurd (omega (arith, le, behind (last_or rest front) last_pending))

      pub Invariant-sending : Invariant client_id path sending
      Invariant-sending = record {
        in_file = i.in_file;
        disk = record {
          recovers = i.disk.recovers;
          safe = λ m here. IsSafe-sending m (i.disk.safe m here) (in_batch m (a.filed m here));
          kept = i.disk.kept;
        };
        alive = λ q e.
            let b = i.alive q e in
            let same_process = some-injective {p = p} {q = q} (sym is_alive ∙ e) in
            record {
              same_path = b.same_path;
              typed = b.typed;
              is_log = b.is_log;
              safe = λ m here. IsSafe-sending m (b.safe m here) (
                  in_batch m
                    (inl (subst (λ (r : Process). In m r.wal.pending) (sym same_process) here)));
              kept = b.kept;
              filed = b.filed;
              whole = b.whole;
              nothing_behind = b.nothing_behind;
            };
        watermark_below = i.watermark_below;
        runs = runs;
        wires_below = below;
        acked = i.acked;
      }
        where
          runs :
              (batch : List LogMessage)
              → InAll batch ((front ∷ rest) ∷ s.wires)
              → log_bridge.Protocol.Batch.IsRun client_id 0 batch
          runs batch (inl e) =
              subst (log_bridge.Protocol.Batch.IsRun client_id 0) (sym e) is_front.run
          runs batch (inr here) = i.runs batch here

          below :
              (batch : List LogMessage) (n : ℕ)
              → InAll batch ((front ∷ rest) ∷ s.wires)
              → IsAbove s.numbered n
              → last_message_id batch < n
          below batch n (inl e) above =
              subst (λ b. last_message_id b < n) (sym e)
                ((a.safe (last_or rest front) last_pending).below n above)
          below batch n (inr here) above = i.wires_below batch n here above
