-- ===== src/ClientState/Tests.antt =====
-- A small state file, and the theorems on it.
use log_bridge.Base.{
  ◌≡◌, refl, arith, ◌-◌, ◌^◌, List, [], ◌∷◌, ◌++◌, bytes_eq, if◌then◌else◌, some, none, All, ok,
  err, system, invalid_state, invalid_argument, out_of_range, state_client_mismatch, overflow_error,
  pos,
}
use log_bridge.Message.{LogMessage}
use log_bridge.Storage.World.{World, done, short, fail, call, modify, return, ◌>>=◌, on_error}
use log_bridge.Storage.Persistence.{
  write_atomically, write_all, write_loop, close_ignored, sync_and_close, sync_parent_directory,
  remove_ignored, rename, open_truncate, ensure_parent_directory, read_file, read_existing,
  stream_call,
}
use log_bridge.Dedup.Text.{decimal, digits}
use log_bridge.Dedup.Load.{skip_spaces, take_digits, take_line}
use log_bridge.Numbers.{stoull, signed_of, unsigned_of}
use log_bridge.ClientState.{
  ClientState, hex_digits, generate_client_id, parse_uint64, get_line, current_identity,
  legacy_identity, load_identity, load_state, state_text, persist, next_message_id,
  update_file_checkpoint, update_file_offset, maximum_recovered_id, for_source, above_recovered,
  correct, open_state, legacy_state_magic,
}
use log_bridge.ClientState.Load.{IsWritable, load_state-state_text}
use log_bridge.ClientState.Durable.{IsSaved, OldOrNext, Allocates, next_message_id-Allocates}
use log_bridge.ClientState.Correct.{IsId, UnchangedOrCorrected}
use log_bridge.ClientState.Reopen.{ReopenEnds, open_state-Reopens}
use log_bridge.ClientState.Lives.{
  Start, Lives, begun, allocated, died, started, Rising, starts, fresh,
}
use log_bridge.ClientState.Lives.Steps.{Lives-Rising}

abbrev state : ClientState
state = record {
  path = b's' ∷ [];
  client_id = b'c' ∷ [];
  next_id = 7;
  source_path = b'l' ∷ [];
  file_offset = 120;
  file_device_id = 3;
  file_inode = 4;
}

-- A disk that takes five bytes of a write and is then interrupted.
abbrev world : World
world = record {
  files = λ q. if bytes_eq state.path q then some (state_text state) else none;
  history = [];
  schedule = done ∷ done ∷ short 5 ∷ fail 4 ∷ [];
}

-- All that the methods call.
running : Unit {0}
unfolding hex_digits generate_client_id parse_uint64 get_line current_identity legacy_identity
    load_identity load_state state_text persist next_message_id update_file_checkpoint
    update_file_offset maximum_recovered_id for_source above_recovered correct open_state stoull
    signed_of unsigned_of skip_spaces take_digits take_line decimal digits bytes_eq write_atomically
    write_all write_loop close_ignored sync_and_close sync_parent_directory remove_ignored rename
    open_truncate ensure_parent_directory read_file read_existing stream_call call modify return
    ◌>>=◌ on_error
running = tt

text :
    state_text state
    ≡ b'L' ∷ b'G' ∷ b'B' ∷ b'S' ∷ b'T' ∷ b'A' ∷ b'T' ∷ b'E' ∷ b'2' ∷ 10 ∷ b'c' ∷ 10 ∷ b'7' ∷ 10
      ∷ b'1' ∷ b'2' ∷ b'0' ∷ 10 ∷ b'3' ∷ 10 ∷ b'4' ∷ 10 ∷ b'l' ∷ 10 ∷ []
unfolding running
text = refl

-- A blank in front hides the minus sign from the test for it.
minus :
    (parse_uint64 (b'-' ∷ b'5' ∷ []) ≡ err invalid_state)
    × (parse_uint64 (32 ∷ b'-' ∷ b'5' ∷ []) ≡ ok (2 ^ 64 - 5))
unfolding running
minus = (refl, refl)

refused :
    (parse_uint64 [] ≡ err invalid_state)
    × (parse_uint64 (b'x' ∷ []) ≡ err invalid_argument)
    × (parse_uint64 (b'5' ∷ b'x' ∷ []) ≡ err invalid_state)
    × (parse_uint64 (decimal (2 ^ 64)) ≡ err out_of_range)
unfolding running
refused = (refl, refl, refl, refl)

-- The old format, whose last line has no newline.
legacy :
    load_state state.path (legacy_state_magic ++ 10 ∷ b'c' ∷ 10 ∷ b'7' ∷ 10 ∷ b'9' ∷ 10 ∷ b'l' ∷ [])
    ≡ ok (record state { file_offset = 9; file_device_id = 0; file_inode = 0 })
unfolding running
legacy = refl

allocates : (next_message_id state (fresh world)).0 ≡ ok 7
unfolding running
allocates = refl

-- The object keeps its id where the disk is full.
disk_full :
    let q = next_message_id state (record world { schedule = done ∷ done ∷ fail 28 ∷ [] }) in
    (q.0 ≡ err (system 28)) × (q.1 ≡ state)
unfolding running
disk_full = (refl, refl)

exhausted : (next_message_id (record state { next_id = 2 ^ 64 - 1 }) world).0 ≡ err overflow_error
unfolding running
exhausted = refl

abbrev recovered : List LogMessage
recovered =
    record { id = 12; client_id = b'c' ∷ []; timestamp_ms = pos 0; source = []; content = [] } ∷ []

-- The log is ahead of the state, and the source is another file.
corrects :
    (open_state (λ n. n) state.path (b'm' ∷ []) recovered (record world { schedule = [] })).0
    ≡ ok (record state {
      next_id = 13;
      source_path = b'm' ∷ [];
      file_offset = 0;
      file_device_id = 0;
      file_inode = 0;
    })
unfolding running
corrects = refl

mismatch :
    (open_state
      (λ n. n)
      state.path
      state.source_path
      (record { id = 12; client_id = b'd' ∷ []; timestamp_ms = pos 0; source = []; content = [] }
        ∷ [])
      world).0
    ≡ err state_client_mismatch
unfolding running
mismatch = refl

state-IsWritable : IsWritable state
state-IsWritable = record {
  named = omega arith;
  client_line = (refl, tt);
  source_line = (refl, tt);
  next_id_fits = omega arith;
  next_id_counts = omega arith;
  offset_fits = omega arith;
  device_fits = omega arith;
  inode_fits = omega arith;
}

state-IsSaved : IsSaved state world.files
unfolding bytes_eq
state-IsSaved = record { stored = refl; writable = state-IsWritable }

load_state-state_text_example : load_state state.path (state_text state) ≡ ok state
load_state-state_text_example = load_state-state_text state state-IsWritable

next_message_id-Allocates_example :
    let q = next_message_id state (record world { history = [] }) in
    All (OldOrNext state world state-IsWritable) q.2.history
    × Allocates state world state-IsWritable q
next_message_id-Allocates_example = next_message_id-Allocates state world state-IsWritable

recovered-IsId : All IsId recovered
recovered-IsId = (omega arith, tt)

open_state-Reopens_example :
    let q = open_state (λ n. n) state.path (b'm' ∷ []) recovered (record world { history = [] }) in
    All (UnchangedOrCorrected (b'm' ∷ []) recovered state world) q.1.history
    × ReopenEnds (b'm' ∷ []) recovered state world state-IsSaved (refl, tt) recovered-IsId q
open_state-Reopens_example =
    open_state-Reopens (b'm' ∷ []) recovered state world state-IsSaved (refl, tt) recovered-IsId
      (λ n. n) (omega arith) (omega arith)

abbrev start : Start (b's' ∷ [])
start = record {
  random = λ n. n;
  source = b'l' ∷ [];
  recovered = [];
  named = omega arith;
  sourced = omega arith;
  line = (refl, tt);
  ids = tt;
}

-- The world after the first id.
abbrev later : World
later = (next_message_id state (fresh world)).2

restarts : (starts start later).0 ≡ ok (record state { next_id = 8 })
unfolding running
restarts = refl

-- The world after the restart.
abbrev last : World
last = (starts start later).1

allocates_again : (next_message_id (record state { next_id = 8 }) (fresh last)).0 ≡ ok 8
unfolding running
allocates_again = refl

two_lives :
    Lives
      (b's' ∷ [])
      (8 ∷ 7 ∷ [])
      (some (next_message_id (record state { next_id = 8 }) (fresh last)).1)
      (next_message_id (record state { next_id = 8 }) (fresh last)).2.files
two_lives =
    allocated (record state { next_id = 8 }) last 8
      (started start later (record state { next_id = 8 })
        (died (next_message_id state (fresh world)).1 later.files
          (allocated state world 7 (begun state world.files refl state-IsSaved) allocates))
        restarts)
      allocates_again

Lives-Rising_example : Rising (8 ∷ 7 ∷ [])
Lives-Rising_example =
    Lives-Rising (b's' ∷ []) (8 ∷ 7 ∷ [])
      (some (next_message_id (record state { next_id = 8 }) (fresh last)).1)
      (next_message_id (record state { next_id = 8 }) (fresh last)).2.files two_lives
