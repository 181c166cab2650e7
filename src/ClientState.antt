-- ===== src/ClientState.antt =====
-- src/ClientState.cpp and include/ClientState.h: who the client is, the next message id, and how far
-- the log file is read. A method takes the object and the world, and returns both also when it
-- throws.
pub mod Load
pub mod Durable
pub mod Lives
pub mod Open
pub mod Correct
pub mod Reopen
mod Tests
use log_bridge.Base.{
  ℕ, zero, suc, ◌+◌, ◌-◌, ◌%◌, ◌^◌, max, Bool, true, false, not, leb, ◌==◌, ◌&&◌, ◌||◌, bytes_eq,
  if◌then◌else◌, List, [], ◌∷◌, ◌++◌, Option, none, some, Result, ok, err, ◌>>=◌, ◌>>◌, throw_if,
  invalid_argument, invalid_state, state_client_mismatch, overflow_error,
}
use log_bridge.Message.{Bytes, LogMessage}
use log_bridge.Storage.World.{World}
use log_bridge.Storage.Persistence.{read_file, write_atomically}
use log_bridge.Dedup.Text.{decimal}
use log_bridge.Dedup.Store.{is_empty}
use log_bridge.Dedup.Load.{take_line}
use log_bridge.Numbers.{stoull}

pub record ClientState : Type 0 where
  pub path : Bytes
  pub client_id : Bytes
  pub next_id : ℕ
  pub source_path : Bytes
  pub file_offset : ℕ
  pub file_device_id : ℕ
  pub file_inode : ℕ

abbrev pub state_magic : Bytes
state_magic = b'L' ∷ b'G' ∷ b'B' ∷ b'S' ∷ b'T' ∷ b'A' ∷ b'T' ∷ b'E' ∷ b'2' ∷ []

abbrev pub legacy_state_magic : Bytes
legacy_state_magic = b'L' ∷ b'G' ∷ b'B' ∷ b'S' ∷ b'T' ∷ b'A' ∷ b'T' ∷ b'E' ∷ b'1' ∷ []

-- `Hex[random() & 0x0F]`.
abbrev pub hex_digit : ℕ → ℕ
hex_digit n = if leb n 9 then b'0' + n else b'a' + (n - 10)

-- The characters that are left to fill, from draws of the random device.
unfoldable pub hex_digits : ℕ → (ℕ → ℕ) → Bytes
hex_digits zero random = []
hex_digits (suc n) random = hex_digit (random n % 16) ∷ hex_digits n random

unfoldable pub generate_client_id : (ℕ → ℕ) → Bytes
generate_client_id random = hex_digits 32 random

abbrev pub starts_with_minus : Bytes → Bool
starts_with_minus [] = false
starts_with_minus (b ∷ rest) = b == b'-'

unfoldable pub parse_uint64 : Bytes → Result ℕ
parse_uint64 text = do
  throw_if (is_empty text || starts_with_minus text) invalid_state
  value ← stoull text
  throw_if (not (is_empty (value.1))) invalid_state
  ok (value.0)

-- `std::getline` on what is left of the input: it fails where nothing is left.
unfoldable pub get_line : Bytes → Result (Bytes × Bytes)
get_line [] = err invalid_state
get_line (b ∷ rest) = ok (take_line (b ∷ rest))

-- Device, inode and source, by the format.
abbrev pub Identity : Type 0
Identity = ℕ × ℕ × Bytes

unfoldable pub current_identity : Bytes → Result Identity
unfolding get_line
current_identity input = do
  device_line ← get_line input
  inode_line ← get_line (device_line.1)
  source_line ← get_line (inode_line.1)
  file_device_id ← parse_uint64 (device_line.0)
  file_inode ← parse_uint64 (inode_line.0)
  ok (file_device_id, file_inode, source_line.0)

unfoldable pub legacy_identity : Bytes → Result Identity
legacy_identity input = do source_line ← get_line input; ok (0, 0, source_line.0)

unfoldable pub load_identity : Bytes → Bytes → Result Identity
load_identity magic input =
    if bytes_eq magic state_magic
    then current_identity input
    else if bytes_eq magic legacy_state_magic
    then legacy_identity input
    else err invalid_state

unfoldable pub load_state : Bytes → Bytes → Result ClientState
load_state path text = do
  magic_line ← get_line text
  client_line ← get_line (magic_line.1)
  next_id_line ← get_line (client_line.1)
  offset_line ← get_line (next_id_line.1)
  throw_if (is_empty (client_line.0)) invalid_state
  identity ← load_identity (magic_line.0) (offset_line.1)
  next_id ← parse_uint64 (next_id_line.0)
  file_offset ← parse_uint64 (offset_line.0)
  throw_if (next_id == 0) invalid_state
  ok (record {
    path = path;
    client_id = client_line.0;
    next_id = next_id;
    source_path = identity.2;
    file_offset = file_offset;
    file_device_id = identity.0;
    file_inode = identity.1;
  })

unfoldable pub state_text : ClientState → Bytes
state_text state =
    state_magic
    ++ (b'\n' ∷ state.client_id
        ++ (b'\n' ∷ decimal state.next_id
            ++ (b'\n' ∷ decimal state.file_offset
                ++ (b'\n' ∷ decimal state.file_device_id
                    ++ (b'\n' ∷ decimal state.file_inode
                        ++ (b'\n' ∷ state.source_path ++ b'\n' ∷ []))))))

unfoldable pub persist : ClientState → World → Result (Unit {0}) × World
persist state = write_atomically state.path (state_text state)

-- What a method returns, the object, and the world.
abbrev pub Outcome : Type 0 → Type 0
Outcome A = Result A × ClientState × World

-- `try { persist(); } catch (...) { ...; throw; }`: the changed object, or the previous one.
abbrev pub saved :
    {A : Type 0} → A → ClientState → ClientState → Result (Unit {0}) × World → Outcome A
saved value changed previous (ok _, w) = (ok value, changed, w)
saved value changed previous (err e, w) = (err e, previous, w)

abbrev pub greatest_id : ℕ
greatest_id = 2 ^ 64 - 1

unfoldable pub next_message_id : ClientState → World → Outcome ℕ
next_message_id state w =
    let changed = record state { next_id = state.next_id + 1 } in
    if state.next_id == greatest_id
    then (err overflow_error, state, w)
    else saved state.next_id changed state (persist changed w)

unfoldable pub update_file_checkpoint : ℕ → ℕ → ℕ → ClientState → World → Outcome (Unit {0})
update_file_checkpoint offset device_id inode state w =
    let changed = record state {
      file_offset = offset;
      file_device_id = device_id;
      file_inode = inode;
    } in
    if offset == state.file_offset
      && (device_id == state.file_device_id && inode == state.file_inode)
    then (ok tt, state, w)
    else saved tt changed state (persist changed w)

unfoldable pub update_file_offset : ℕ → ClientState → World → Outcome (Unit {0})
update_file_offset offset state =
    update_file_checkpoint offset state.file_device_id state.file_inode state

-- The loop over the recovered messages.
unfoldable pub maximum_recovered_id : Bytes → ℕ → List LogMessage → Result ℕ
maximum_recovered_id client_id maximum [] = ok maximum
maximum_recovered_id client_id maximum (message ∷ rest) = do
  throw_if (not (bytes_eq message.client_id client_id)) state_client_mismatch
  maximum_recovered_id client_id (max maximum message.id) rest

-- The checkpoint of another file is of no use.
unfoldable pub for_source : Bytes → ClientState → ClientState
for_source requested_source state =
    if bytes_eq state.source_path requested_source then state else record state {
      source_path = requested_source;
      file_offset = 0;
      file_device_id = 0;
      file_inode = 0;
    }

-- With whether anything changed.
unfoldable pub above_recovered : ℕ → ClientState → Bool × ClientState
above_recovered maximum state =
    if leb state.next_id maximum
    then (true, record state { next_id = maximum + 1 })
    else (false, state)

abbrev pub persisted : ClientState → Result (Unit {0}) × World → Result ClientState × World
persisted state (ok _, w) = (ok state, w)
persisted state (err e, w) = (err e, w)

abbrev pub persist_if : Bool → ClientState → World → Result ClientState × World
persist_if true state w = persisted state (persist state w)
persist_if false state w = (ok state, w)

abbrev pub corrected : Bool → ClientState → Result ℕ → World → Result ClientState × World
corrected changed state (err e) w = (err e, w)
corrected changed state (ok maximum) w =
    let (raised, final) = above_recovered maximum state in
    if maximum == greatest_id
    then (err overflow_error, w)
    else persist_if (changed || raised) final w

-- The constructor behind `load`.
unfoldable pub correct :
    Bool → Bytes → List LogMessage → ClientState → World → Result ClientState × World
correct changed requested_source recovered loaded w =
    let state = for_source requested_source loaded in
    corrected (changed || not (bytes_eq loaded.source_path requested_source)) state
      (maximum_recovered_id state.client_id 0 recovered) w

abbrev pub first_client_id : Bytes → List LogMessage → Bytes
first_client_id generated [] = generated
first_client_id generated (front ∷ rest) = front.client_id

abbrev pub new_state : Bytes → Bytes → ClientState
new_state path client_id = record {
  path = path;
  client_id = client_id;
  next_id = 1;
  source_path = [];
  file_offset = 0;
  file_device_id = 0;
  file_inode = 0;
}

abbrev pub correct_parsed :
    Bytes → List LogMessage → Result ClientState → World → Result ClientState × World
correct_parsed source recovered (err e) w = (err e, w)
correct_parsed source recovered (ok state) w = correct false source recovered state w

abbrev pub correct_loaded :
    Bytes → Bytes → List LogMessage → Result Bytes × World → Result ClientState × World
correct_loaded path source recovered (err e, w) = (err e, w)
correct_loaded path source recovered (ok text, w) =
    correct_parsed source recovered (load_state path text) w

abbrev pub open_found :
    Option Bytes → (ℕ → ℕ) → Bytes → Bytes → List LogMessage → World → Result ClientState × World
open_found none random path source recovered w =
    correct true source recovered
      (new_state path (first_client_id (generate_client_id random) recovered)) w
open_found (some text) random path source recovered w =
    correct_loaded path source recovered (read_file path w)

-- The constructor.
unfoldable pub open_state :
    (ℕ → ℕ) → Bytes → Bytes → List LogMessage → World → Result ClientState × World
open_state random path source recovered w =
    if is_empty path || is_empty source
    then (err invalid_argument, w)
    else open_found (w.files path) random path source recovered w
