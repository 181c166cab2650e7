-- ===== src/WriteAheadLog.antt =====
-- src/WriteAheadLog.cpp and include/WriteAheadLog.h. A method takes the object and the world, and
-- returns both also when it throws.
pub mod Load
pub mod Sound
pub mod Errors
pub mod Confirm
pub mod Crash
pub mod Restart
mod Tests
use log_bridge.Base.{
  ℕ, zero, suc, ◌+◌, ◌-◌, max, Bool, true, false, not, ltb, leb, ◌==◌, bytes_eq, if◌then◌else◌,
  List, [], ◌∷◌, ◌++◌, length, take, drop, last_or, Result, ok, err, ◌>>=◌, ◌>>◌, throw_if,
  invalid_argument, wal_non_log, wal_not_increasing, wal_multiple_clients, out_of_fuel,
}
use log_bridge.Message.{Bytes, LogMessage}
use log_bridge.Protocol.Format.{log, frame_header_size}
use log_bridge.Protocol.Codec.{
  is_type, parse_frame_header, serialize_log_message, deserialize_log_message,
}
use log_bridge.Storage.World.{World}
use log_bridge.Storage.Persistence.{read_file, append_durably, write_atomically}

pub record WriteAheadLog : Type 0 where
  pub path : Bytes
  pub pending : List LogMessage

-- One round of the loop of `load`: it ends, with or without a truncated tail, or it adds a message
-- from a frame of the size that is given.
pub data LoadStep : Type 0 where
  stop : Bool → LoadStep
  next : LogMessage → ℕ → LoadStep

-- The checks against `pending_.back()` and `pending_.front()`.
unfoldable pub check_order : List LogMessage → LogMessage → Result (Unit {0})
check_order [] message = ok tt
check_order (front ∷ rest) message = do
  throw_if (leb message.id (last_or rest front).id) wal_not_increasing
  throw_if (not (bytes_eq message.client_id front.client_id)) wal_multiple_clients

unfoldable pub load_frame : Bytes → List LogMessage → Result LoadStep
load_frame remaining_data pending = do
  header ← parse_frame_header remaining_data
  throw_if (not (is_type header.type log)) wal_non_log
  let frame_size = frame_header_size + header.payload_length
  let frame_step = do
    message ← deserialize_log_message (take frame_size remaining_data)
    check_order pending message
    ok (next message frame_size)
  if ltb (length remaining_data) frame_size then ok (stop true) else frame_step

unfoldable pub load_step : Bytes → ℕ → List LogMessage → Result LoadStep
load_step bytes offset pending =
    if not (ltb offset (length bytes))
    then ok (stop false)
    else if ltb (length bytes - offset) frame_header_size
    then ok (stop true)
    else load_frame (drop offset bytes) pending

-- The loop, with the messages read and whether the tail was truncated.
unfoldable pub load_loop : ℕ → Bytes → ℕ → List LogMessage → Result (List LogMessage × Bool)
load_loop zero bytes offset pending = err out_of_fuel
load_loop (suc fuel) bytes offset pending = elim (load_step bytes offset pending) [
  | err e ↦ err e
  | ok (stop truncated) ↦ ok (pending, truncated)
  | ok (next message size) ↦ load_loop fuel bytes (offset + size) (pending ++ message ∷ [])
]

-- Each round takes a byte at least, so there are enough rounds.
unfoldable pub load_bytes : Bytes → Result (List LogMessage × Bool)
load_bytes bytes = load_loop (suc (length bytes)) bytes 0 []

-- The loop of `rewriteLocked`.
unfoldable pub frames_of : Bytes → List LogMessage → Result Bytes
frames_of output [] = ok output
frames_of output (message ∷ rest) = do
  frame ← serialize_log_message message
  frames_of (output ++ frame) rest

-- A method's result, the object after it, and the world after it.
abbrev pub Outcome : Type 0
Outcome = Result (Unit {0}) × WriteAheadLog × World

abbrev pub with_object : WriteAheadLog → Result (Unit {0}) × World → Outcome
with_object wal (r, w) = (r, wal, w)

abbrev pub rewrite_bytes : Result Bytes → WriteAheadLog → World → Outcome
rewrite_bytes (err e) wal w = (err e, wal, w)
rewrite_bytes (ok bytes) wal w = with_object wal (write_atomically wal.path bytes w)

unfoldable pub rewrite_locked : WriteAheadLog → World → Outcome
unfolding frames_of
rewrite_locked wal = rewrite_bytes (frames_of [] wal.pending) wal

-- The object that `load` leaves, after the rewrite that a truncated tail asks for.
abbrev pub loaded : Bytes → Result (List LogMessage × Bool) → World → Outcome
loaded path (err e) w = (err e, record { path = path; pending = [] }, w)
loaded path (ok (pending, false)) w = (ok tt, record { path = path; pending = pending }, w)
loaded path (ok (pending, true)) w = rewrite_locked (record { path = path; pending = pending }) w

abbrev pub load_from : Bytes → Result Bytes × World → Outcome
load_from path (err e, w) = (err e, record { path = path; pending = [] }, w)
load_from path (ok bytes, w) = loaded path (load_bytes bytes) w

-- The constructor; where it throws there is no object.
unfoldable pub open_log : Bytes → World → Outcome
open_log [] w = (err invalid_argument, record { path = []; pending = [] }, w)
open_log (c ∷ path) w = load_from (c ∷ path) (read_file (c ∷ path) w)

-- `pending_.push_back(message)` stands behind the calls that may throw.
abbrev pub appended : LogMessage → WriteAheadLog → Result (Unit {0}) × World → Outcome
appended message wal (ok _, w) = (ok tt, record wal { pending = wal.pending ++ message ∷ [] }, w)
appended message wal (err e, w) = (err e, wal, w)

abbrev pub append_frame : LogMessage → Result Bytes → WriteAheadLog → World → Outcome
append_frame message (err e) wal w = (err e, wal, w)
append_frame message (ok frame) wal w = appended message wal (append_durably wal.path frame w)

unfoldable pub append : LogMessage → WriteAheadLog → World → Outcome
append message = append_frame message (serialize_log_message message)

-- `remove_if`: what stays in `pending_`.
unfoldable pub unconfirmed : ℕ → List LogMessage → List LogMessage
unconfirmed confirmed_id [] = []
unconfirmed confirmed_id (message ∷ rest) =
    let kept = unconfirmed confirmed_id rest in
    if leb message.id confirmed_id then kept else message ∷ kept

-- Nothing was removed where as many messages stay.
unfoldable pub confirm : ℕ → WriteAheadLog → World → Outcome
unfolding unconfirmed
confirm confirmed_id wal w =
    let kept = unconfirmed confirmed_id wal.pending in
    if length kept == length wal.pending
    then (ok tt, wal, w)
    else rewrite_locked (record wal { pending = kept }) w

abbrev pub maximum_id : ℕ → List LogMessage → ℕ
maximum_id maximum [] = maximum
maximum_id maximum (message ∷ rest) = maximum_id (max maximum message.id) rest

unfoldable pub max_message_id : WriteAheadLog → ℕ
max_message_id wal = maximum_id 0 wal.pending

unfoldable pub pending_count : WriteAheadLog → ℕ
pending_count wal = length wal.pending
