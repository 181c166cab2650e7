-- ===== src/WriteAheadLog/Restart.antt =====
-- The constructor on a file that a crash left: the messages come back and the cut tail goes.
use log_bridge.Base.{
  ℕ, ◌≡◌, refl, arith, ap, ◌∙◌, List, [], ◌∷◌, ◌++◌, append-nil, All, Result, ok, err, inl, inr,
  none, some, Option,
}
use log_bridge.Message.{Bytes, LogMessage}
use log_bridge.Storage.World.{Files, World}
use log_bridge.Storage.World as World
use log_bridge.Storage.Persistence.{
  content_of, read_file, read_existing, read_content, stream_call, write_atomically,
}
use log_bridge.Storage.Triples.{Ends}
use log_bridge.Storage.Atomic.{New, OldOrNew, Triple-write_atomically}
use log_bridge.WriteAheadLog.{
  WriteAheadLog, load_bytes, open_log, load_from, loaded, rewrite_locked, with_object, Outcome,
}
use log_bridge.WriteAheadLog.Load.{file_bytes, has_tail}
use log_bridge.WriteAheadLog.Confirm.{frames_of-log}
use log_bridge.WriteAheadLog.Crash.{IsConsistent, Recovers, recovers, recovers_whole, All-map}

-- `readFile` changes no file; where it returns, it returns the content.
pub record Reads (path : Bytes) (w : World) (r : Result Bytes × World) : Type 0 where
  pub files : r.1.files ≡ w.files
  pub history : r.1.history ≡ w.history
  pub content : (bytes : Bytes) → r.0 ≡ ok bytes → bytes ≡ content_of (w.files path)

read_existing-Reads :
    (bytes : Bytes) (path : Bytes) (w : World)
    → content_of (w.files path) ≡ bytes
    → Reads path w (read_existing bytes w)
unfolding read_existing stream_call World.◌>>=◌ World.return
read_existing-Reads [] path w e = record {
  files = ground arith;
  history = ground arith;
  content = λ b h. ground arith;
}
read_existing-Reads (b ∷ rest) path w e = record {
  files = ground arith;
  history = ground arith;
  content = λ c h. ground arith;
}

read_content-Reads :
    (found : Option Bytes) (path : Bytes) (w : World)
    → w.files path ≡ found
    → Reads path w (read_content found w)
unfolding World.return
read_content-Reads none path w e = record {
  files = refl;
  history = refl;
  content = λ b h. ground arith;
}
read_content-Reads (some bytes) path w e = read_existing-Reads bytes path w (ap content_of e)

pub read_file-Reads : (path : Bytes) (w : World) → Reads path w (read_file path w)
unfolding read_file
read_file-Reads path w = read_content-Reads (w.files path) path w refl

module _ (path : Bytes) (ms : List LogMessage) (w : World)
    (recovered : Recovers path ms w.files) where
  abbrev restored : WriteAheadLog
  restored = record { path = path; pending = ms }

  abbrev pub OpenEnds : Outcome → Type 0
  OpenEnds (ok _, wal, w') = (wal ≡ restored) × IsConsistent wal w'.files
  OpenEnds (err e, wal, w') = Recovers path ms w'.files

  recovers_either :
      (files : Files) → OldOrNew w.files path (file_bytes ms) files → Recovers path ms files
  recovers_either files (inl old) =
      recovers path ms files recovered.tail recovered.end recovered.typed recovered.is_log
        (ap content_of old.target ∙ recovered.stored)
  recovers_either files (inr new) =
      recovers_whole path ms files recovered.typed recovered.is_log (ap content_of new.target)

  rewrite_settles :
      (r : Result (Unit {0}) × World)
      → All (OldOrNew w.files path (file_bytes ms)) r.1.history
        × Ends r (New w.files path (file_bytes ms)) (OldOrNew w.files path (file_bytes ms))
      → All (Recovers path ms) (with_object restored r).2.history
        × OpenEnds (with_object restored r)
  rewrite_settles (ok _, w') (history, h) = (
    All-map w'.history recovers_either history,
    (
      refl,
      record {
        stored = ap content_of h.target;
        typed = recovered.typed;
        is_log = recovered.is_log;
      },
    ),
  )
  rewrite_settles (err e, w') (history, h) =
      (All-map w'.history recovers_either history, recovers_either w'.files h)

  loaded_settles :
      (tail : Bytes) (w' : World)
      → content_of (w.files path) ≡ file_bytes ms ++ tail
      → w'.files ≡ w.files
      → All (Recovers path ms) w'.history
      → w'.history ≡ []
      → All (Recovers path ms) (loaded path (ok (ms, has_tail tail)) w').2.history
        × OpenEnds (loaded path (ok (ms, has_tail tail)) w')
  unfolding rewrite_locked
  loaded_settles [] w' stored same h none_yet = (
    h,
    (
      refl,
      record {
        stored = ap (λ (f : Files). content_of (f path)) same ∙ stored ∙ append-nil (file_bytes ms);
        typed = recovered.typed;
        is_log = recovered.is_log;
      },
    ),
  )
  loaded_settles (b ∷ tail) w' stored same h none_yet = rw (frames_of-log ms recovered.is_log) (
      rewrite_settles (write_atomically path (file_bytes ms) w') (
        (Triple-write_atomically w.files path (file_bytes ms)).at w'
          (record {
            target = ap (λ (f : Files). f path) same;
            elsewhere = λ q _ _. ap (λ (f : Files). f q) same;
          })
          (rw none_yet tt)))

  load_settles :
      (r : Result Bytes × World)
      → Reads path (record w { history = [] }) r
      → All (Recovers path ms) (load_from path r).2.history × OpenEnds (load_from path r)
  load_settles (err e, w') reads = (rw (reads.history) tt, rw (reads.files) recovered)
  load_settles (ok bytes, w') reads =
      rw (ap load_bytes (reads.content bytes refl) ∙ recovered.loads) (
        loaded_settles recovered.tail w' recovered.stored reads.files (rw (reads.history) tt)
          reads.history)

-- On a file with the frames of a log and perhaps a cut frame behind them: at every moment of the
-- constructor the file still recovers those messages. If the constructor returns, the object holds
-- them and the file their frames alone; if it throws, the next start recovers them too.
pub open_log-recovers :
    (c : ℕ) (path : Bytes) (ms : List LogMessage) (w : World)
    (recovered : Recovers (c ∷ path) ms w.files)
    → let r = open_log (c ∷ path) (record w { history = [] }) in
      All (Recovers (c ∷ path) ms) r.2.history × OpenEnds (c ∷ path) ms w recovered r
unfolding open_log
open_log-recovers c path ms w recovered =
    load_settles (c ∷ path) ms w recovered (read_file (c ∷ path) (record w { history = [] }))
      (read_file-Reads (c ∷ path) (record w { history = [] }))
