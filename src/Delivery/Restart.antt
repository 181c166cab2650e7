-- ===== src/Delivery/Restart.antt =====
-- A start of the client keeps the invariant, whether it returns, throws or dies.
use log_bridge.Base.{ℕ, ◌≡◌, sym, ap, true, inl, ◌∷◌, All, some, none, ok, err}
use mathlib.Core.Path.{subst}
use log_bridge.Message.{Bytes, LogMessage}
use log_bridge.Storage.World.{World, Files}
use log_bridge.WriteAheadLog as Log
use log_bridge.WriteAheadLog.{WriteAheadLog}
use log_bridge.WriteAheadLog.Crash.{Recovers}
use log_bridge.WriteAheadLog.Restart.{OpenEnds, open_log-recovers}
use log_bridge.ClientState.Lives.{Moment, All-Moment, fresh}
use log_bridge.Delivery.Members.{In}
use log_bridge.Delivery.Moments.{IsWhole, IsWhole-Recovers}
use log_bridge.Delivery.{Process, System, restarted}
use log_bridge.Delivery.Invariant.{IsAlive, IsSafe, Invariant, Invariant-changed, IsSafe-changed}
use log_bridge.Delivery.Client.{some-injective, Invariant-dead, recovered}

module _ (client_id : Bytes) (c : ℕ) (name : Bytes) (s : System)
    (i : Invariant client_id (c ∷ name) s) (w : World) (same : w.files ≡ s.files) where
  abbrev path : Bytes
  path = c ∷ name

  r : Recovers path i.in_file w.files
  r = recovered client_id path s i w same

  abbrev opening : Log.Outcome
  opening = Log.open_log path (fresh w)

  ends : All (Recovers path i.in_file) opening.2.history × OpenEnds path i.in_file w r opening
  ends = open_log-recovers c name i.in_file w r

  dead_from :
      (files : Files)
      → Recovers path i.in_file files
      → Invariant client_id path (record s { process = none; files = files })
  dead_from files h = Invariant-dead client_id path s i files i.in_file h i.disk.safe i.disk.kept

  pub Invariant-restart_death :
      (files : Files)
      → Moment files opening.2.history
      → Invariant client_id path (record s { process = none; files = files })
  Invariant-restart_death files m =
      dead_from files (All-Moment (Recovers path i.in_file) files opening.2.history m ends.0)

  restarted_from :
      (o : Log.Outcome)
      → OpenEnds path i.in_file w r o
      → Invariant client_id path (restarted path s o)
  restarted_from (err e, wal, w') h = dead_from w'.files h
  restarted_from (ok _, wal, w') (object, consistent) =
      Invariant-changed client_id path s (some started) w'.files s.accepted s.numbered (λ n h. h) i
        i.in_file
        (record {
          recovers = IsWhole-Recovers path i.in_file w'.files whole;
          safe = λ m here. IsSafe-now m (i.disk.safe m here);
          kept = i.disk.kept;
        })
        (λ q e. subst (IsAlive client_id path now i.in_file) (some-injective e) alive)
    where
      started : Process
      started = record { wal = wal; producing = true }

      now : System
      now = record s { process = some started; files = w'.files }

      IsSafe-now : (m : LogMessage) → IsSafe client_id s m → IsSafe client_id now m
      IsSafe-now =
          IsSafe-changed client_id path s (some started) w'.files s.accepted s.numbered (λ n h. h) i

      pending : wal.pending ≡ i.in_file
      pending = ap (λ (l : WriteAheadLog). l.pending) object

      same_path : wal.path ≡ path
      same_path = ap (λ (l : WriteAheadLog). l.path) object

      whole : IsWhole path i.in_file w'.files
      whole =
          subst (λ (l : WriteAheadLog). IsWhole l.path l.pending w'.files) object
            (record {
              stored = consistent.stored;
              typed = consistent.typed;
              is_log = consistent.is_log;
            })

      alive : IsAlive client_id path now i.in_file started
      alive = record {
        same_path = same_path;
        typed = consistent.typed;
        is_log = consistent.is_log;
        safe = λ m here. IsSafe-now m (i.disk.safe m (subst (In m) pending here));
        kept = subst (λ l. log_bridge.Delivery.Invariant.IsKept now l) (sym pending) i.disk.kept;
        filed = λ m here. inl (subst (In m) (sym pending) here);
        whole = λ on. whole;
        nothing_behind = λ on m here. inl (subst (In m) (sym pending) here);
      }

  pub Invariant-restart : Invariant client_id path (restarted path s opening)
  Invariant-restart = restarted_from opening (ends.1)
