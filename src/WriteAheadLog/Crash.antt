-- ===== src/WriteAheadLog/Crash.antt =====
-- The log and its file together: a process may die, or a call fail, at any moment of `append` or `confirm`.
use log_bridge.Base.{
  ℕ, ◌≡◌, refl, sym, ap, ◌∙◌, arith, List, [], ◌∷◌, ◌++◌, append-nil, length, All, All-append,
  Result, ok, err, ◌⊎◌, inl, inr, some, Bool-cases, ◌==◌,
}
use log_bridge.Message.{Bytes, LogMessage, IsTyped}
use log_bridge.Protocol.Record.{IsEncodable}
use log_bridge.Protocol.Single.{log_frame, serialize_log_message-ok}
use log_bridge.Storage.World.{Files, World}
use log_bridge.Storage.Persistence.{content_of, append_durably, write_atomically}
use log_bridge.Storage.Triples.{Ends}
use log_bridge.Storage.Append.{SameOrPartial, Appended, append_durably_lem}
use log_bridge.Storage.Atomic.{New, OldOrNew, write_atomically_lem}
use log_bridge.WriteAheadLog.{
  WriteAheadLog, load_bytes, append, appended, confirm, unconfirmed, rewrite_locked, with_object,
  Outcome,
}
use log_bridge.WriteAheadLog.Load.{
  file_bytes, IsLog, IsCut, has_tail, load_bytes-file_bytes, IsLog-middle,
}
use log_bridge.WriteAheadLog.Sound.{file_bytes-append}
use log_bridge.WriteAheadLog.Confirm.{
  unconfirmed-IsLog, unconfirmed-IsTyped, unconfirmed_all, frames_of-log,
}

-- The file holds the frames of the pending messages, and they are a log.
pub record IsConsistent (wal : WriteAheadLog) (files : Files) : Type 0 where
  pub stored : content_of (files wal.path) ≡ file_bytes wal.pending
  pub typed : All IsTyped wal.pending
  pub is_log : IsLog wal.pending

-- What a later start reads from the file: these messages, behind which a cut frame may stand.
pub record Recovers (path : Bytes) (ms : List LogMessage) (files : Files) : Type 0 where
  pub tail : Bytes
  pub stored : content_of (files path) ≡ file_bytes ms ++ tail
  pub end : (tail ≡ []) ⊎ IsCut tail
  pub typed : All IsTyped ms
  pub is_log : IsLog ms
  pub loads : load_bytes (content_of (files path)) ≡ ok (ms, has_tail tail)

pub recovers :
    (path : Bytes) (ms : List LogMessage) (files : Files) (tail : Bytes)
    → (tail ≡ []) ⊎ IsCut tail
    → All IsTyped ms
    → IsLog ms
    → content_of (files path) ≡ file_bytes ms ++ tail
    → Recovers path ms files
recovers path ms files tail end typed run e = record {
  tail = tail;
  stored = e;
  end = end;
  typed = typed;
  is_log = run;
  loads = ap load_bytes e ∙ load_bytes-file_bytes ms tail typed run end;
}

pub recovers_whole :
    (path : Bytes) (ms : List LogMessage) (files : Files)
    → All IsTyped ms
    → IsLog ms
    → content_of (files path) ≡ file_bytes ms
    → Recovers path ms files
recovers_whole path ms files typed run e =
    recovers path ms files [] (inl refl) typed run (e ∙ sym (append-nil (file_bytes ms)))

pub All-map :
    {P Q : Files → Type 0} (fs : List Files) → ((f : Files) → P f → Q f) → All P fs → All Q fs
All-map [] g h = tt
All-map (f ∷ fs) g h = (g f h.0, All-map fs g h.1)

module _ (wal : WriteAheadLog) (m : LogMessage) (w : World) (consistent : IsConsistent wal w.files)
    (typed : IsTyped m) (run : IsLog (wal.pending ++ m ∷ [])) where
  abbrev pub longer : List LogMessage
  longer = wal.pending ++ m ∷ []

  -- After `append`: the old messages, or they and the new one.
  abbrev pub OldOrLonger : Files → Type 0
  OldOrLonger files = Recovers wal.path wal.pending files ⊎ Recovers wal.path longer files

  longer-IsTyped : All IsTyped longer
  longer-IsTyped = All-append IsTyped wal.pending (m ∷ []) consistent.typed (typed, tt)

  encodable : IsEncodable m
  encodable = IsLog-middle wal.pending m [] run

  stored_longer : content_of (w.files wal.path) ++ log_frame m ≡ file_bytes longer
  stored_longer =
      ap (λ t. t ++ log_frame m) consistent.stored
      ∙ ap (λ t. file_bytes wal.pending ++ t) (sym (append-nil (log_frame m)))
      ∙ sym (file_bytes-append wal.pending (m ∷ []))

  -- A piece of the frame behind the old file.
  recovers_partial :
      (files : Files) (front back : Bytes)
      → log_frame m ≡ front ++ back
      → files wal.path ≡ some (content_of (w.files wal.path) ++ front)
      → OldOrLonger files
  recovers_partial files front [] split h =
      inr (recovers_whole wal.path longer files longer-IsTyped run whole)
    where
      whole : content_of (files wal.path) ≡ file_bytes longer
      whole =
          ap content_of h
          ∙ ap (λ t. content_of (w.files wal.path) ++ t) (sym (split ∙ append-nil front))
          ∙ stored_longer
  recovers_partial files front (b ∷ back) split h = inl (
      recovers wal.path wal.pending files front (inr cut) consistent.typed consistent.is_log
        (ap content_of h ∙ ap (λ t. t ++ front) consistent.stored))
    where
      cut : IsCut front
      cut = record {
        message = m;
        encodable = encodable;
        missing = b ∷ back;
        split = split;
        some_missing = omega arith;
      }

  recovers_any :
      (files : Files) → SameOrPartial w.files wal.path (log_frame m) files → OldOrLonger files
  recovers_any files (inl same) = inl (
      recovers_whole wal.path wal.pending files consistent.typed consistent.is_log
        (ap content_of (same wal.path) ∙ consistent.stored))
  recovers_any files (inr p) = recovers_partial files p.front p.back p.split p.holds.here

  abbrev pub AppendEnds : Outcome → Type 0
  AppendEnds (ok _, wal', w') =
      (wal' ≡ record wal { pending = longer }) × IsConsistent wal' w'.files
  AppendEnds (err e, wal', w') = (wal' ≡ wal) × OldOrLonger w'.files

  append_settles :
      (r : Result (Unit {0}) × World)
      → All (SameOrPartial w.files wal.path (log_frame m)) r.1.history
        × Ends r
            (Appended w.files wal.path (log_frame m))
            (SameOrPartial w.files wal.path (log_frame m))
      → All OldOrLonger (appended m wal r).2.history × AppendEnds (appended m wal r)
  append_settles (ok _, w') (history, h) = (
    All-map w'.history recovers_any history,
    (
      refl,
      record {
        stored = ap content_of h.here ∙ stored_longer;
        typed = longer-IsTyped;
        is_log = run;
      },
    ),
  )
  append_settles (err e, w') (history, h) =
      (All-map w'.history recovers_any history, (refl, recovers_any w'.files h))

  -- From a log whose file holds its pending messages, and a message that may follow them: whatever
  -- system call of append fails, and wherever the process dies, a later start recovers the pending
  -- messages, or those and the new one. If append returns, object and file hold the longer log; if
  -- it throws, the object is unchanged.
  pub append-recovers :
      let r = append m wal (record w { history = [] }) in All OldOrLonger r.2.history × AppendEnds r
  unfolding append
  append-recovers = rw (serialize_log_message-ok m encodable) (
      append_settles (append_durably wal.path (log_frame m) (record w { history = [] }))
        (append_durably_lem w wal.path (log_frame m)))

module _ (wal : WriteAheadLog) (confirmed_id : ℕ) (w : World)
    (consistent : IsConsistent wal w.files) where
  abbrev pub kept : List LogMessage
  kept = unconfirmed confirmed_id wal.pending

  abbrev pub OldOrKept : Files → Type 0
  OldOrKept files = Recovers wal.path wal.pending files ⊎ Recovers wal.path kept files

  kept_typed : All IsTyped kept
  kept_typed = unconfirmed-IsTyped confirmed_id wal.pending consistent.typed

  kept_log : IsLog kept
  kept_log = unconfirmed-IsLog confirmed_id wal.pending consistent.is_log

  recovers_either :
      (files : Files) → OldOrNew w.files wal.path (file_bytes kept) files → OldOrKept files
  recovers_either files (inl old) = inl (
      recovers_whole wal.path wal.pending files consistent.typed consistent.is_log
        (ap content_of old.target ∙ consistent.stored))
  recovers_either files (inr new) =
      inr (recovers_whole wal.path kept files kept_typed kept_log (ap content_of new.target))

  abbrev pub ConfirmEnds : Outcome → Type 0
  ConfirmEnds (ok _, wal', w') = (wal' ≡ record wal { pending = kept }) × IsConsistent wal' w'.files
  ConfirmEnds (err e, wal', w') = (wal' ≡ record wal { pending = kept }) × OldOrKept w'.files

  abbrev smaller : WriteAheadLog
  smaller = record wal { pending = kept }

  confirm_settles :
      (r : Result (Unit {0}) × World)
      → All (OldOrNew w.files wal.path (file_bytes kept)) r.1.history
        × Ends r
            (New w.files wal.path (file_bytes kept))
            (OldOrNew w.files wal.path (file_bytes kept))
      → All OldOrKept (with_object smaller r).2.history × ConfirmEnds (with_object smaller r)
  confirm_settles (ok _, w') (history, h) = (
    All-map w'.history recovers_either history,
    (refl, record { stored = ap content_of h.target; typed = kept_typed; is_log = kept_log }),
  )
  confirm_settles (err e, w') (history, h) =
      (All-map w'.history recovers_either history, (refl, recovers_either w'.files h))

  -- From a log whose file holds its pending messages: whatever system call of confirm fails, and
  -- wherever the process dies, a later start recovers all pending messages, or exactly those that
  -- confirmed_id does not cover. If confirm returns, object and file hold the latter; if it throws,
  -- the object holds the latter.
  pub confirm-recovers :
      let r = confirm confirmed_id wal (record w { history = [] }) in
      All OldOrKept r.2.history × ConfirmEnds r
  unfolding confirm rewrite_locked
  confirm-recovers = elim (Bool-cases (length kept == length wal.pending)) [
    | inl same ↦
        let whole : kept ≡ wal.pending = unconfirmed_all confirmed_id wal.pending (ground arith) in
        rw same
          (tt, (ap (λ (l : List LogMessage). record wal { pending = l }) (sym whole), consistent))
    | inr less ↦ rw less (
        rw (frames_of-log kept kept_log) (
          confirm_settles (write_atomically wal.path (file_bytes kept) (record w { history = [] }))
            (write_atomically_lem w wal.path (file_bytes kept))))
  ]
