-- ===== src/Delivery/Confirm.antt =====
-- Confirming what the server acknowledged keeps the invariant, whether it returns, throws or dies.
use log_bridge.Base.{
  InAll, ℕ, ◌≡◌, sym, ap, ◌∙◌, arith, true, leb, Bool-cases, ◌⊎◌, inl, inr, List, some, none,
}
use mathlib.Core.Path.{subst}
use log_bridge.Message.{Bytes, LogMessage}
use log_bridge.Storage.World.{World, Files}
use log_bridge.WriteAheadLog.{unconfirmed}
use log_bridge.WriteAheadLog.Confirm.{unconfirmed-IsLog, unconfirmed-IsTyped}
use log_bridge.ClientState.Lives.{Moment, All-Moment}
use log_bridge.Delivery.Members.{In, In-unconfirmed, unconfirmed-In}
use log_bridge.Delivery.Moments.{
  IsWhole, IsWhole-Recovers, SameOrKept, ConfirmMoments, confirm-Moments,
}
use log_bridge.Delivery.{Process, System, confirming}
use log_bridge.Delivery.Invariant.{
  Outputs, IsSafe, IsKept, IsFiled, IsAlive, Invariant, Invariant-changed, IsSafe-changed,
}
use log_bridge.Delivery.Client.{Recovers-same, IsWhole-same, some-injective, Invariant-dead}

module _ (client_id path : Bytes) (s : System) (i : Invariant client_id path s) (p : Process)
    (is_alive : s.process ≡ some p) (id : ℕ) (w : World) (same : w.files ≡ s.files)
    (acked : InAll id s.acks) where
  a : IsAlive client_id path s i.in_file p
  a = i.alive p is_alive

  abbrev kept : List LogMessage
  kept = unconfirmed id p.wal.pending

  -- A pending message stays, or was printed.
  stays : (m : LogMessage) → In m p.wal.pending → In m kept ⊎ Outputs s m
  stays m here = elim (Bool-cases (leb m.id id)) [
    | inl old ↦ inr ((a.safe m here).covered (ground (arith, i.acked id acked)))
    | inr new ↦ inl (In-unconfirmed id m p.wal.pending (ground arith) here)
  ]

  stays_or : (m : LogMessage) → In m p.wal.pending ⊎ Outputs s m → In m kept ⊎ Outputs s m
  stays_or m (inl here) = stays m here
  stays_or m (inr h) = inr h

  IsKept-kept : IsKept s kept
  IsKept-kept m here = stays_or m (a.kept m here)

  IsSafe-kept : (m : LogMessage) → In m kept → IsSafe client_id s m
  IsSafe-kept m here = a.safe m (unconfirmed-In id m p.wal.pending here)

  IsFiled-kept : (m : LogMessage) → IsFiled s p.wal.pending m → IsFiled s kept m
  IsFiled-kept m (inl here) = filed_from (stays m here)
    where
      filed_from : In m kept ⊎ Outputs s m → IsFiled s kept m
      filed_from (inl h) = inl h
      filed_from (inr h) = inr (inl h)
  IsFiled-kept m (inr (inl h)) = inr (inl h)
  IsFiled-kept m (inr (inr behind)) =
      inr (inr (λ o here. behind o (unconfirmed-In id o p.wal.pending here)))

  moments : ConfirmMoments id p.wal w a.typed a.is_log (confirming id p.wal w)
  moments = confirm-Moments id p.wal w a.typed a.is_log

  -- What the file may hold afterwards.
  abbrev Left : Files → Type 0
  Left files = (files path ≡ s.files path) ⊎ IsWhole path kept files

  Left-at : (files : Files) → SameOrKept id p.wal w a.typed a.is_log files → Left files
  Left-at files (inl h) =
      inl (subst (λ q. files q ≡ w.files q) a.same_path h ∙ ap (λ (f : Files). f path) same)
  Left-at files (inr h) = inr (subst (λ q. IsWhole q kept files) a.same_path h)

  dead_from :
      (files : Files)
      → Left files
      → Invariant client_id path (record s { process = none; files = files })
  dead_from files (inl h) =
      Invariant-dead client_id path s i files i.in_file
        (Recovers-same path i.in_file s.files files h i.disk.recovers) i.disk.safe i.disk.kept
  dead_from files (inr h) =
      Invariant-dead client_id path s i files kept (IsWhole-Recovers path kept files h) IsSafe-kept
        IsKept-kept

  pub Invariant-confirm_death :
      (files : Files)
      → Moment files (confirming id p.wal w).2.history
      → Invariant client_id path (record s { process = none; files = files })
  Invariant-confirm_death files m = dead_from files (
      Left-at files (
        All-Moment (SameOrKept id p.wal w a.typed a.is_log) files (confirming id p.wal w).2.history
          m moments.moments))

  abbrev smaller : Process
  smaller = record p { wal = record (p.wal) { pending = kept } }

  module _ (files : Files) where
    abbrev confirmed : System
    confirmed = record s { process = some smaller; files = files }

    IsSafe-now : (m : LogMessage) → IsSafe client_id s m → IsSafe client_id confirmed m
    IsSafe-now =
        IsSafe-changed client_id path s (some smaller) files s.accepted s.numbered (λ n h. h) i

    IsAlive-now :
        (ms : List LogMessage)
        → ((m : LogMessage) → In m ms → IsFiled s kept m)
        → (p.producing ≡ true → IsWhole path ms files)
        → (p.producing ≡ true → (m : LogMessage) → In m ms → In m kept ⊎ Outputs s m)
        → (q : Process) → some smaller ≡ some q
        → IsAlive client_id path confirmed ms q
    IsAlive-now ms filed whole nothing_behind q e =
        subst (IsAlive client_id path confirmed ms) (some-injective e) (record {
          same_path = a.same_path;
          typed = unconfirmed-IsTyped id p.wal.pending a.typed;
          is_log = unconfirmed-IsLog id p.wal.pending a.is_log;
          safe = λ m here. IsSafe-now m (IsSafe-kept m here);
          kept = IsKept-kept;
          filed = filed;
          whole = whole;
          nothing_behind = nothing_behind;
        })

    alive_from : Left files → Invariant client_id path confirmed
    alive_from (inl h) =
        Invariant-changed client_id path s (some smaller) files s.accepted s.numbered (λ n h. h) i
          i.in_file
          (record {
            recovers = Recovers-same path i.in_file s.files files h i.disk.recovers;
            safe = λ m here. IsSafe-now m (i.disk.safe m here);
            kept = i.disk.kept;
          })
          (IsAlive-now i.in_file (λ m here. IsFiled-kept m (a.filed m here))
            (λ on. IsWhole-same path i.in_file s.files files h (a.whole on))
            (λ on m here. stays_or m (a.nothing_behind on m here)))
    alive_from (inr h) =
        Invariant-changed client_id path s (some smaller) files s.accepted s.numbered (λ n h. h) i
          kept
          (record {
            recovers = IsWhole-Recovers path kept files h;
            safe = λ m here. IsSafe-now m (IsSafe-kept m here);
            kept = IsKept-kept;
          })
          (IsAlive-now kept (λ m here. inl here) (λ on. h) (λ on m here. inl here))

  pub Invariant-confirm : Invariant client_id path (record s {
    process = some (record p { wal = (confirming id p.wal w).1 });
    files = (confirming id p.wal w).2.files;
  })
  Invariant-confirm =
      subst
        (λ l. Invariant client_id path (record s {
          process = some (record p { wal = l });
          files = (confirming id p.wal w).2.files;
        }))
        (sym moments.object)
        (alive_from (confirming id p.wal w).2.files
          (Left-at (confirming id p.wal w).2.files moments.end))
