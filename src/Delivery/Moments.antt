-- ===== src/Delivery/Moments.antt =====
-- What the calls of a log do to its file, when the file holds more than the log's messages: a failed
-- `confirm` leaves confirmed messages in the file.
use log_bridge.Base.{
  ℕ, ◌≡◌, refl, sym, ap, arith, ◌==◌, Bool-cases, ◌⊎◌, inl, inr, List, [], ◌∷◌, ◌++◌, length, All,
  Result, ok, err, Exception,
}
use mathlib.Core.Path.{subst}
use log_bridge.Message.{Bytes, LogMessage, IsTyped}
use log_bridge.Storage.World.{World, Files}
use log_bridge.Storage.Persistence.{content_of, append_durably, write_atomically}
use log_bridge.Storage.Triples.{Ends}
use log_bridge.Storage.Atomic.{New, OldOrNew, write_atomically_lem}
use log_bridge.Protocol.Codec.{serialize_log_message}
use log_bridge.WriteAheadLog.{
  WriteAheadLog, Outcome, append, appended, append_frame, confirm, unconfirmed, rewrite_locked,
  with_object,
}
use log_bridge.WriteAheadLog.Load.{IsLog, file_bytes}
use log_bridge.WriteAheadLog.Confirm.{
  unconfirmed-IsLog, unconfirmed-IsTyped, unconfirmed_all, frames_of-log,
}
use log_bridge.WriteAheadLog.Crash.{
  IsConsistent, Recovers, All-map, append-recovers, OldOrLonger, AppendEnds, recovers_whole,
}
use log_bridge.ClientState.Lives.{fresh}

-- The file holds whole frames of a log.
pub record IsWhole (path : Bytes) (ms : List LogMessage) (files : Files) : Type 0 where
  pub stored : content_of (files path) ≡ file_bytes ms
  pub typed : All IsTyped ms
  pub is_log : IsLog ms

pub IsWhole-Recovers :
    (path : Bytes) (ms : List LogMessage) (files : Files)
    → IsWhole path ms files
    → Recovers path ms files
IsWhole-Recovers path ms files h = recovers_whole path ms files h.typed h.is_log h.stored

module _ (id : ℕ) (wal : WriteAheadLog) (w : World) (typed : All IsTyped wal.pending)
    (is_log : IsLog wal.pending) where
  abbrev kept : List LogMessage
  kept = unconfirmed id wal.pending

  -- The file is untouched, or holds the kept messages.
  abbrev pub SameOrKept : Files → Type 0
  SameOrKept files = (files wal.path ≡ w.files wal.path) ⊎ IsWhole wal.path kept files

  same_or_kept :
      (files : Files) → OldOrNew w.files wal.path (file_bytes kept) files → SameOrKept files
  same_or_kept files (inl old) = inl old.target
  same_or_kept files (inr new) = inr (record {
    stored = ap content_of new.target;
    typed = unconfirmed-IsTyped id wal.pending typed;
    is_log = unconfirmed-IsLog id wal.pending is_log;
  })

  pub record ConfirmMoments (o : Outcome) : Type 0 where
    pub moments : All SameOrKept o.2.history
    pub end : SameOrKept o.2.files
    pub object : o.1 ≡ record wal { pending = kept }

  rewritten :
      (r : Result (Unit {0}) × World)
      → All (OldOrNew w.files wal.path (file_bytes kept)) r.1.history
        × Ends r
            (New w.files wal.path (file_bytes kept))
            (OldOrNew w.files wal.path (file_bytes kept))
      → ConfirmMoments (with_object (record wal { pending = kept }) r)
  rewritten (ok _, w') (history, h) = record {
    moments = All-map w'.history same_or_kept history;
    end = same_or_kept w'.files (inr h);
    object = refl;
  }
  rewritten (err e, w') (history, h) = record {
    moments = All-map w'.history same_or_kept history;
    end = same_or_kept w'.files h;
    object = refl;
  }

  pub confirm-Moments : ConfirmMoments (confirm id wal (fresh w))
  unfolding confirm rewrite_locked
  confirm-Moments = elim (Bool-cases (length kept == length wal.pending)) [
    | inl same ↦
        let whole : kept ≡ wal.pending = unconfirmed_all id wal.pending (ground arith) in
        rw same (record {
          moments = tt;
          end = inl refl;
          object = ap (λ (l : List LogMessage). record wal { pending = l }) (sym whole);
        })
    | inr less ↦ rw less (
        rw (frames_of-log kept (unconfirmed-IsLog id wal.pending is_log)) (
          rewritten (write_atomically wal.path (file_bytes kept) (fresh w))
            (write_atomically_lem w wal.path (file_bytes kept))))
  ]

-- What `append` does to the world and whether it returns do not depend on the pending messages.
pub record Alike (m : LogMessage) (wal other : WriteAheadLog) (o p : Outcome) : Type 0 where
  pub result : o.0 ≡ p.0
  pub world : o.2 ≡ p.2
  pub returned : o.0 ≡ ok tt → o.1 ≡ record wal { pending = wal.pending ++ m ∷ [] }
  pub thrown : (e : Exception) → o.0 ≡ err e → o.1 ≡ wal

abbrev returns : Result (Unit {0})
returns = ok tt

ok-ne-err : {e : Exception} → returns ≡ err e → ⊥
ok-ne-err h = cc

err-ne-ok : {e : Exception} → err e ≡ returns → ⊥
err-ne-ok h = cc

appended-Alike :
    (m : LogMessage) (wal other : WriteAheadLog) (r : Result (Unit {0}) × World)
    → Alike m wal other (appended m wal r) (appended m other r)
appended-Alike m wal other (ok _, w) = record {
  result = refl;
  world = refl;
  returned = λ _. refl;
  thrown = λ e h. absurd (ok-ne-err h);
}
appended-Alike m wal other (err e, w) = record {
  result = refl;
  world = refl;
  returned = λ h. absurd (err-ne-ok h);
  thrown = λ _ _. refl;
}

append_frame-Alike :
    (m : LogMessage) (frame : Result Bytes) (wal : WriteAheadLog) (ms : List LogMessage) (w : World)
    → let other = record wal { pending = ms } in
      Alike m wal other (append_frame m frame wal w) (append_frame m frame other w)
append_frame-Alike m (ok frame) wal ms w =
    appended-Alike m wal (record wal { pending = ms }) (append_durably wal.path frame w)
append_frame-Alike m (err e) wal ms w = record {
  result = refl;
  world = refl;
  returned = λ h. absurd (err-ne-ok h);
  thrown = λ _ _. refl;
}

pub append-Alike :
    (m : LogMessage) (wal : WriteAheadLog) (ms : List LogMessage) (w : World)
    → let other = record wal { pending = ms } in
      Alike m wal other (append m wal w) (append m other w)
unfolding append
append-Alike m wal ms w = append_frame-Alike m (serialize_log_message m) wal ms w

module _ (m : LogMessage) (wal : WriteAheadLog) (ms : List LogMessage) (w : World)
    (whole : IsWhole wal.path ms w.files) (typed : IsTyped m) (run : IsLog (ms ++ m ∷ [])) where
  abbrev in_file : WriteAheadLog
  in_file = record wal { pending = ms }

  in_file-IsConsistent : IsConsistent in_file w.files
  in_file-IsConsistent = record {
    stored = whole.stored;
    typed = whole.typed;
    is_log = whole.is_log;
  }

  abbrev pub ShortOrLong : Files → Type 0
  ShortOrLong files = Recovers wal.path ms files ⊎ Recovers wal.path (ms ++ m ∷ []) files

  -- Where the append returns, the file holds the longer log, and so does the object.
  abbrev pub AppendedOr : Outcome → Type 0
  AppendedOr (ok _, wal', w') =
      (wal' ≡ record wal { pending = wal.pending ++ m ∷ [] })
      × IsWhole wal.path (ms ++ m ∷ []) w'.files
  AppendedOr (err e, wal', w') = (wal' ≡ wal) × ShortOrLong w'.files

  pub record AppendMoments (o : Outcome) : Type 0 where
    pub moments : All ShortOrLong o.2.history
    pub ends : AppendedOr o

  settle :
      (o p : Outcome)
      → Alike m wal in_file o p
      → All (OldOrLonger in_file m w in_file-IsConsistent typed run) p.2.history
      → AppendEnds in_file m w in_file-IsConsistent typed run p
      → AppendMoments o
  settle (ok _, wal₁, w₁) (ok _, wal₂, w₂) alike history (same, c) = record {
    moments = subst (λ (v : World). All ShortOrLong v.history) (sym alike.world) history;
    ends = (
      alike.returned refl,
      subst (λ (v : World). IsWhole wal.path (ms ++ m ∷ []) v.files) (sym alike.world)
          (subst (λ (l : WriteAheadLog). IsWhole l.path l.pending w₂.files) same
            (record { stored = c.stored; typed = c.typed; is_log = c.is_log })),
    );
  }
  settle (err e, wal₁, w₁) (err x, wal₂, w₂) alike history (same, h) = record {
    moments = subst (λ (v : World). All ShortOrLong v.history) (sym alike.world) history;
    ends = (alike.thrown e refl, subst (λ (v : World). ShortOrLong v.files) (sym alike.world) h);
  }
  settle (ok _, wal₁, w₁) (err x, wal₂, w₂) alike history h = absurd (ok-ne-err alike.result)
  settle (err e, wal₁, w₁) (ok _, wal₂, w₂) alike history h = absurd (err-ne-ok alike.result)

  pub append-Moments : AppendMoments (append m wal (fresh w))
  append-Moments =
      let (history, ends) = append-recovers in_file m w in_file-IsConsistent typed run in
      settle (append m wal (fresh w)) (append m in_file (fresh w)) (append-Alike m wal ms (fresh w))
        history ends
