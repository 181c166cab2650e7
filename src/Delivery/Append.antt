-- ===== src/Delivery/Append.antt =====
-- An append keeps the invariant, whether it returns, throws or dies.
use log_bridge.Base.{
  InAll-append_left, InAll-append_right, InAll-append_cases, ℕ, ◌≤◌, ◌<◌, ◌≡◌, refl, sym, ap, ◌∙◌,
  arith, true, false, ◌⊎◌, inl, inr, List, [], ◌∷◌, ◌++◌, All-append, Option, some, none, ok, err,
}
use mathlib.Core.Path.{subst}
use log_bridge.Message.{Bytes, LogMessage, IsTyped}
use log_bridge.Storage.World.{World, Files}
use log_bridge.WriteAheadLog as Log
use log_bridge.WriteAheadLog.{WriteAheadLog}
use log_bridge.WriteAheadLog.Load.{IsLog}
use log_bridge.WriteAheadLog.Crash.{Recovers}
use log_bridge.ClientState.Lives.{Moment, All-Moment}
use log_bridge.Delivery.Members.{In}
use log_bridge.Delivery.Moments.{
  IsWhole, IsWhole-Recovers, ShortOrLong, AppendedOr, AppendMoments, append-Moments,
}
use log_bridge.Delivery.{Process, System, IsNext, appending, after_append}
use log_bridge.Delivery.Invariant.{
  IsAbove, Outputs, IsSafe, IsKept, IsFiled, IsAlive, Invariant, Invariant-changed, IsSafe-changed,
  some-ne-none,
}
use log_bridge.Delivery.Front.{IsLog-snoc}
use log_bridge.Delivery.Client.{some-injective}

false-ne-true : false ≡ true → ⊥
false-ne-true h = cc

module _ (client_id path : Bytes) (s : System) (i : Invariant client_id path s) (p : Process)
    (is_alive : s.process ≡ some p) (on : p.producing ≡ true) (m : LogMessage) (w : World)
    (same : w.files ≡ s.files) (next : IsNext client_id s.numbered m) where
  a : IsAlive client_id path s i.in_file p
  a = i.alive p is_alive

  abbrev longer : List LogMessage
  longer = i.in_file ++ m ∷ []

  abbrev numbered : List LogMessage
  numbered = m ∷ s.numbered

  more : (n : ℕ) → IsAbove numbered n → IsAbove s.numbered n
  more n above o here = above o (inr here)

  behind : (o : LogMessage) → IsSafe client_id s o → o.id < m.id
  behind o h = h.below m.id next.above

  whole : IsWhole p.wal.path i.in_file w.files
  whole =
      subst (λ q. IsWhole q i.in_file w.files) (sym a.same_path)
        (subst (IsWhole path i.in_file) (sym same) (a.whole on))

  run : IsLog longer
  run =
      IsLog-snoc client_id i.in_file m whole.is_log
        (λ o here. let h = i.disk.safe o here in (h.same_client, behind o h)) next.same_client
        next.encodable

  moments : AppendMoments m p.wal i.in_file w whole next.typed run (appending m p.wal w)
  moments = append-Moments m p.wal i.in_file w whole next.typed run

  some_id : 1 ≤ m.id
  some_id = omega (arith, next.encodable.id_set)

  -- The new message, in any system with the same server and batches.
  IsSafe-new :
      (process : Option Process) (files : Files) (accepted : List LogMessage)
      → IsSafe client_id
          (record s { process = process; files = files; accepted = accepted; numbered = numbered })
          m
  IsSafe-new process files accepted = record {
    same_client = next.same_client;
    covered = λ le. absurd (omega (arith, le, i.watermark_below m.id some_id next.above));
    passed = λ batch here le. absurd (omega (arith, le, i.wires_below batch m.id here next.above));
    below = λ n above. above m (inl refl);
  }

  -- A file with the new message behind the others.
  longer_or :
      {P : LogMessage → Type 0}
      → ((o : LogMessage) → In o i.in_file → P o)
      → P m
      → (o : LogMessage) → In o longer
      → P o
  longer_or {P} old new o here = go (InAll-append_cases o i.in_file (m ∷ []) here)
    where
      go : In o i.in_file ⊎ In o (m ∷ []) → P o
      go (inl h) = old o h
      go (inr (inl e)) = subst P (sym e) new
      go (inr (inr h)) = absurd h

  IsKept-longer : (ms : List LogMessage) → IsKept s ms → IsKept s (ms ++ m ∷ [])
  IsKept-longer ms kept o here = go (kept o here)
    where
      go : In o ms ⊎ Outputs s o → In o (ms ++ m ∷ []) ⊎ Outputs s o
      go (inl h) = inl (InAll-append_left o ms (m ∷ []) h)
      go (inr h) = inr h

  module _ (process : Option Process) (files : Files) where
    abbrev attempted : System
    attempted = record s { process = process; files = files; numbered = numbered }

    IsSafe-old : (o : LogMessage) → IsSafe client_id s o → IsSafe client_id attempted o
    IsSafe-old = IsSafe-changed client_id path s process files s.accepted numbered more i

    -- Nothing was accepted: the file has the message or not.
    attempted_from :
        ShortOrLong m p.wal i.in_file w whole next.typed run files
        → ((q : Process) → process ≡ some q → (q ≡ record p { producing = false }))
        → Invariant client_id path attempted
    attempted_from (inl h) stopped =
        Invariant-changed client_id path s process files s.accepted numbered more i i.in_file
          (record {
            recovers = subst (λ q. Recovers q i.in_file files) a.same_path h;
            safe = λ o here. IsSafe-old o (i.disk.safe o here);
            kept = i.disk.kept;
          })
          (λ q e. subst (IsAlive client_id path attempted i.in_file) (sym (stopped q e)) (record {
            same_path = a.same_path;
            typed = a.typed;
            is_log = a.is_log;
            safe = λ o here. IsSafe-old o (a.safe o here);
            kept = a.kept;
            filed = a.filed;
            whole = λ clash. absurd (false-ne-true clash);
            nothing_behind = λ clash. absurd (false-ne-true clash);
          }))
    attempted_from (inr h) stopped =
        Invariant-changed client_id path s process files s.accepted numbered more i longer
          (record {
            recovers = subst (λ q. Recovers q longer files) a.same_path h;
            safe =
                longer_or {P = IsSafe client_id attempted}
                  (λ o here. IsSafe-old o (i.disk.safe o here))
                  (IsSafe-new process files s.accepted);
            kept = IsKept-longer i.in_file i.disk.kept;
          })
          (λ q e. subst (IsAlive client_id path attempted longer) (sym (stopped q e)) (record {
            same_path = a.same_path;
            typed = a.typed;
            is_log = a.is_log;
            safe = λ o here. IsSafe-old o (a.safe o here);
            kept = a.kept;
            filed =
                longer_or {P = IsFiled s p.wal.pending} a.filed
                  (inr (inr (λ o here. behind o (a.safe o here))));
            whole = λ clash. absurd (false-ne-true clash);
            nothing_behind = λ clash. absurd (false-ne-true clash);
          }))

  pub Invariant-append_death :
      (files : Files)
      → Moment files (appending m p.wal w).2.history
      → Invariant client_id path (record s { process = none; files = files; numbered = numbered })
  Invariant-append_death files at =
      attempted_from none files
        (All-Moment (ShortOrLong m p.wal i.in_file w whole next.typed run) files
          (appending m p.wal w).2.history at moments.moments)
        (λ q e. absurd (some-ne-none {p = q} e))

  -- Accepted: object and file hold it.
  module _ (files : Files) (in_file : IsWhole path longer files) where
    abbrev appended : Process
    appended = record {
      wal = record (p.wal) { pending = p.wal.pending ++ m ∷ [] };
      producing = true;
    }

    abbrev accepting : System
    accepting = record s {
      process = some appended;
      files = files;
      accepted = m ∷ s.accepted;
      numbered = numbered;
    }

    IsSafe-then : (o : LogMessage) → IsSafe client_id s o → IsSafe client_id accepting o
    IsSafe-then =
        IsSafe-changed client_id path s (some appended) files (m ∷ s.accepted) numbered more i

    IsSafe-appended : IsSafe client_id accepting m
    IsSafe-appended = IsSafe-new (some appended) files (m ∷ s.accepted)

    IsKept-then : (ms : List LogMessage) → IsKept s ms → IsKept accepting (ms ++ m ∷ [])
    IsKept-then ms kept o (inl e) =
        inl (subst (λ t. In t (ms ++ m ∷ [])) (sym e) (InAll-append_right m ms (m ∷ []) (inl refl)))
    IsKept-then ms kept o (inr here) = IsKept-longer ms kept o here

    IsSafe-pending :
        (o : LogMessage) → In o (p.wal.pending ++ m ∷ []) → IsSafe client_id accepting o
    IsSafe-pending o here = go (InAll-append_cases o p.wal.pending (m ∷ []) here)
      where
        go : In o p.wal.pending ⊎ In o (m ∷ []) → IsSafe client_id accepting o
        go (inl h) = IsSafe-then o (a.safe o h)
        go (inr (inl e)) = subst (IsSafe client_id accepting) (sym e) IsSafe-appended
        go (inr (inr h)) = absurd h

    in_log : (o : LogMessage) → In o longer → In o (p.wal.pending ++ m ∷ []) ⊎ Outputs s o
    in_log =
        longer_or {P = λ o. In o (p.wal.pending ++ m ∷ []) ⊎ Outputs s o}
          (λ o here. go o (a.nothing_behind on o here))
          (inl (InAll-append_right m p.wal.pending (m ∷ []) (inl refl)))
      where
        go :
            (o : LogMessage)
            → In o p.wal.pending ⊎ Outputs s o
            → In o (p.wal.pending ++ m ∷ []) ⊎ Outputs s o
        go o (inl h) = inl (InAll-append_left o p.wal.pending (m ∷ []) h)
        go o (inr h) = inr h

    IsFiled-then : (o : LogMessage) → In o longer → IsFiled accepting (p.wal.pending ++ m ∷ []) o
    IsFiled-then o here = go (in_log o here)
      where
        go :
            In o (p.wal.pending ++ m ∷ []) ⊎ Outputs s o
            → IsFiled accepting (p.wal.pending ++ m ∷ []) o
        go (inl h) = inl h
        go (inr h) = inr (inl h)

    IsLog-pending : IsLog (p.wal.pending ++ m ∷ [])
    IsLog-pending =
        IsLog-snoc client_id p.wal.pending m a.is_log
          (λ o here. let h = a.safe o here in (h.same_client, behind o h)) next.same_client
          next.encodable

    Invariant-accepting : Invariant client_id path accepting
    Invariant-accepting =
        Invariant-changed client_id path s (some appended) files (m ∷ s.accepted) numbered more i
          longer
          (record {
            recovers = IsWhole-Recovers path longer files in_file;
            safe =
                longer_or {P = IsSafe client_id accepting}
                  (λ o here. IsSafe-then o (i.disk.safe o here)) IsSafe-appended;
            kept = IsKept-then i.in_file i.disk.kept;
          })
          (λ q e. subst (IsAlive client_id path accepting longer) (some-injective e) (record {
            same_path = a.same_path;
            typed = All-append IsTyped p.wal.pending (m ∷ []) a.typed (next.typed, tt);
            is_log = IsLog-pending;
            safe = IsSafe-pending;
            kept = IsKept-then p.wal.pending a.kept;
            filed = IsFiled-then;
            whole = λ _. in_file;
            nothing_behind = λ _. in_log;
          }))

  after_from :
      (o : Log.Outcome)
      → AppendedOr m p.wal i.in_file w whole next.typed run o
      → Invariant client_id path (after_append m s o)
  after_from (ok _, wal, w') (object, file) =
      subst
        (λ l. Invariant client_id path (record s {
          process = some (record { wal = l; producing = true });
          files = w'.files;
          accepted = m ∷ s.accepted;
          numbered = numbered;
        }))
        (sym object)
        (Invariant-accepting w'.files (subst (λ q. IsWhole q longer w'.files) a.same_path file))
  after_from (err e, wal, w') (object, file) =
      attempted_from (some (record { wal = wal; producing = false })) w'.files file (λ q h.
        sym (some-injective h)
        ∙ ap (λ (l : WriteAheadLog). record { wal = l; producing = false }) object)

  pub Invariant-append : Invariant client_id path (after_append m s (appending m p.wal w))
  Invariant-append = after_from (appending m p.wal w) moments.ends
