-- ===== src/WriteAheadLog/Tests.antt =====
-- Runs of the storage and of the log on a small file, and their theorems at concrete inputs.
use log_bridge.Base.{
  ◌≡◌, refl, sym, arith, true, [], ◌∷◌, ◌++◌, append-nil, All, ok, negsuc, pos, some, none, inr,
  bytes_eq, if◌then◌else◌,
}
use log_bridge.Message.{Bytes, LogMessage, IsTyped, IsBytes}
use log_bridge.Protocol.Single.{log_frame}
use log_bridge.Protocol.Words.{big_endian}
use log_bridge.Storage.World.{World, done, short, fail}
use log_bridge.Storage.Persistence.{append_durably, write_atomically}
use log_bridge.Storage.Triples.{Ends}
use log_bridge.Storage.Append.{SameOrPartial, Appended, append_durably_lem}
use log_bridge.Storage.Atomic.{OldOrNew, New, write_atomically_lem}
use log_bridge.WriteAheadLog.{WriteAheadLog, load_bytes, append, confirm, open_log}
use log_bridge.WriteAheadLog.Load.{file_bytes, IsLog, IsCut, load_bytes-file_bytes}
use log_bridge.WriteAheadLog.Sound.{Accepts, load_bytes-eq-ok}
use log_bridge.Protocol.Errors.{Answers}
use log_bridge.WriteAheadLog.Errors.{IsLoadError, load_bytes-Answers}
use log_bridge.WriteAheadLog.Crash.{
  IsConsistent, Recovers, recovers, OldOrLonger, AppendEnds, append-recovers, OldOrKept,
  ConfirmEnds, confirm-recovers,
}
use log_bridge.WriteAheadLog.Restart.{OpenEnds, open_log-recovers}

abbrev first : LogMessage
first = record {
  id = 4;
  client_id = b'c' ∷ [];
  timestamp_ms = negsuc 4;
  source = [];
  content = 10 ∷ 255 ∷ [];
}

abbrev second : LogMessage
second = record first { id = 9; timestamp_ms = pos 7 }

abbrev path : Bytes
path = b'w' ∷ []

abbrev wal : WriteAheadLog
wal = record { path = path; pending = first ∷ [] }

-- A disk that takes nine bytes of a write, is interrupted, and then is full.
abbrev world : World
world = record {
  files = λ q. if bytes_eq path q then some (log_frame first) else none;
  history = [];
  schedule = done ∷ done ∷ short 9 ∷ fail 4 ∷ fail 28 ∷ [];
}

first-IsTyped : IsTyped first
first-IsTyped = omega arith

second-IsTyped : IsTyped second
second-IsTyped = omega arith

both-IsLog : IsLog (first ∷ second ∷ [])
both-IsLog = (refl, omega arith, omega arith, (refl, omega arith, omega arith, tt))

first-IsLog : IsLog (first ∷ [])
first-IsLog = (refl, omega arith, omega arith, tt)

wal-IsConsistent : IsConsistent wal world.files
unfolding bytes_eq
wal-IsConsistent = record {
  stored = sym (append-nil (log_frame first));
  typed = (first-IsTyped, tt);
  is_log = first-IsLog;
}

write_atomically_lem_example :
    let r = write_atomically path (1 ∷ 2 ∷ []) (record world { history = [] }) in
    All (OldOrNew world.files path (1 ∷ 2 ∷ [])) r.1.history
    × Ends r (New world.files path (1 ∷ 2 ∷ [])) (OldOrNew world.files path (1 ∷ 2 ∷ []))
write_atomically_lem_example = write_atomically_lem world path (1 ∷ 2 ∷ [])

append_durably_lem_example :
    let r = append_durably path (1 ∷ 2 ∷ []) (record world { history = [] }) in
    All (SameOrPartial world.files path (1 ∷ 2 ∷ [])) r.1.history
    × Ends r (Appended world.files path (1 ∷ 2 ∷ [])) (SameOrPartial world.files path (1 ∷ 2 ∷ []))
append_durably_lem_example = append_durably_lem world path (1 ∷ 2 ∷ [])

append-recovers_example :
    let r = append second wal (record world { history = [] }) in
    All (OldOrLonger wal second world wal-IsConsistent second-IsTyped both-IsLog) r.2.history
    × AppendEnds wal second world wal-IsConsistent second-IsTyped both-IsLog r
append-recovers_example =
    append-recovers wal second world wal-IsConsistent second-IsTyped both-IsLog

confirm-recovers_example :
    let r = confirm 4 wal (record world { history = [] }) in
    All (OldOrKept wal 4 world wal-IsConsistent) r.2.history
    × ConfirmEnds wal 4 world wal-IsConsistent r
confirm-recovers_example = confirm-recovers wal 4 world wal-IsConsistent

-- What the full disk above leaves: nine bytes of the second frame.
abbrev cut : Bytes
cut = 76 ∷ 71 ∷ 66 ∷ 49 ∷ 2 ∷ 1 ∷ 0 ∷ 0 ∷ 0 ∷ []

cut-IsCut : IsCut cut
unfolding big_endian
cut-IsCut = record {
  message = second;
  encodable = omega arith;
  missing =
      0 ∷ 0 ∷ 31 ∷ big_endian 8 9
      ++ (big_endian 8 7
          ++ (big_endian 4 1 ++ (big_endian 4 0 ++ (big_endian 4 2 ++ (b'c' ∷ 10 ∷ 255 ∷ [])))));
  split = refl;
  some_missing = omega arith;
}

abbrev crashed : World
crashed = record world {
  files = λ q. if bytes_eq path q then some (file_bytes (first ∷ []) ++ cut) else none;
  schedule = [];
}

crashed-Recovers : Recovers path (first ∷ []) crashed.files
unfolding bytes_eq
crashed-Recovers =
    recovers path (first ∷ []) crashed.files cut (inr cut-IsCut) (first-IsTyped, tt) first-IsLog
      refl

open_log-recovers_example :
    let r = open_log path (record crashed { history = [] }) in
    All (Recovers path (first ∷ [])) r.2.history
    × OpenEnds path (first ∷ []) crashed crashed-Recovers r
open_log-recovers_example = open_log-recovers b'w' [] (first ∷ []) crashed crashed-Recovers

load_bytes-file_bytes_example : load_bytes (file_bytes (first ∷ []) ++ cut) ≡ ok (first ∷ [], true)
load_bytes-file_bytes_example =
    load_bytes-file_bytes (first ∷ []) cut (first-IsTyped, tt) first-IsLog (inr cut-IsCut)

abbrev crashed_file : Bytes
crashed_file = file_bytes (first ∷ []) ++ cut

crashed_file-IsBytes : IsBytes crashed_file
unfolding big_endian
crashed_file-IsBytes = omega arith

crashed_file-loads : load_bytes crashed_file ≡ ok (first ∷ [], true)
crashed_file-loads =
    load_bytes-file_bytes (first ∷ []) cut (first-IsTyped, tt) first-IsLog (inr cut-IsCut)

load_bytes-eq-ok_example : Accepts crashed_file (first ∷ []) true
load_bytes-eq-ok_example = load_bytes-eq-ok crashed_file crashed_file-IsBytes crashed_file-loads

load_bytes-Answers_example : Answers IsLoadError (load_bytes (1 ∷ 2 ∷ []))
load_bytes-Answers_example = load_bytes-Answers (1 ∷ 2 ∷ [])
