-- ===== src/Tail/Reader.antt =====
-- The operations of `FileTailReader`. A file is its identity and its bytes, as they are at the moment
-- of the call; what each `pread` answers is read from a schedule.
use log_bridge.Base.{
  ℕ, ◌+◌, ◌-◌, ◌==◌, ltb, ◌||◌, ◌&&◌, not, Bool, true, false, if◌then◌else◌, List, [], ◌∷◌, ◌++◌,
  length, take, drop, Option, none, some, Result, ok, err, system, invalid_argument,
}
use log_bridge.Message.{Bytes}
use log_bridge.Storage.Persistence.{eintr}

pub record LogFile : Type 0 where
  pub device : ℕ
  pub number : ℕ
  pub content : Bytes

-- An answer of `pread`: `n + 1` bytes at most, no more bytes since the file was cut meanwhile, or an
-- error.
pub data Answer : Type 0 where
  moved : ℕ → Answer
  ended : Answer
  failed : ℕ → Answer

pub record FileTailReader : Type 0 where
  pub path : Bytes
  pub offset : ℕ
  pub pending : Bytes
  pub device_id : ℕ
  pub inode : ℕ
  pub switch_on_next_read : Bool

-- The loop over `pread`: the bytes that are asked for and the chunk so far. Where the schedule ends, all
-- of them come.
unfoldable pub read_loop : List Answer → Bytes → Bytes → Result Bytes
read_loop answers [] chunk = ok chunk
read_loop [] (b ∷ rest) chunk = ok (chunk ++ b ∷ rest)
read_loop (moved n ∷ answers) (b ∷ rest) chunk =
    read_loop answers (drop n rest) (chunk ++ b ∷ take n rest)
read_loop (ended ∷ answers) (b ∷ rest) chunk = ok chunk
read_loop (failed e ∷ answers) (b ∷ rest) chunk =
    let again = read_loop answers (b ∷ rest) chunk in if e == eintr then again else err (system e)

-- `if (!line.empty() && line.back() == '\r') line.pop_back();`
unfoldable pub strip_return : Bytes → Bytes
strip_return [] = []
strip_return (b ∷ []) = if b == 13 then [] else b ∷ []
strip_return (b ∷ c ∷ rest) = b ∷ strip_return (c ∷ rest)

-- The loop over the newlines of `pending_`: `start` are the bytes from `lineStart` on that were looked
-- at, and the result is the lines and what `erase` leaves.
unfoldable pub split_lines : Bytes → Bytes → List Bytes × Bytes
unfolding strip_return
split_lines start [] = ([], start)
split_lines start (b ∷ rest) =
    let (lines, left) = split_lines [] rest in
    let further = split_lines (start ++ b ∷ []) rest in
    if b == 10 then (strip_return start ∷ lines, left) else further

-- A file that is shorter than the offset was cut.
abbrev pub restarted : ℕ → FileTailReader → FileTailReader
restarted file_size reader =
    if ltb file_size reader.offset then record reader { offset = 0; pending = [] } else reader

abbrev pub with_chunk : FileTailReader → Result Bytes → Result (List Bytes) × FileTailReader
with_chunk reader (err e) = (err e, reader)
with_chunk reader (ok chunk) =
    let (lines, left) = split_lines [] (reader.pending ++ chunk) in
    (ok lines, record reader { offset = reader.offset + length chunk; pending = left })

abbrev pub read_unread :
    LogFile → List Answer → FileTailReader → Result (List Bytes) × FileTailReader
read_unread file answers reader =
    if length file.content == reader.offset
    then (ok [], reader)
    else with_chunk reader (read_loop answers (drop reader.offset file.content) [])

-- `fstat` may fail.
abbrev pub read_stated :
    Result LogFile → List Answer → FileTailReader → Result (List Bytes) × FileTailReader
read_stated (err e) answers reader = (err e, reader)
read_stated (ok file) answers reader =
    read_unread file answers (restarted (length file.content) reader)

unfoldable pub read_from_open_file :
    Result LogFile → List Answer → FileTailReader → Result (List Bytes) × FileTailReader
unfolding read_loop split_lines
read_from_open_file opened answers reader = read_stated opened answers reader

-- `openCurrentFile` on what `open` and `fstat` found.
unfoldable pub open_current_file :
    Result LogFile → ℕ → ℕ → ℕ → FileTailReader → Result (Unit {0}) × FileTailReader
open_current_file (err e) initial_offset expected_device expected_inode reader = (err e, reader)
open_current_file (ok file) initial_offset expected_device expected_inode reader =
    let identity_matches =
      expected_device == 0
      || expected_inode == 0
      || (expected_device == file.device && expected_inode == file.number) in
    let wanted = if identity_matches then initial_offset else 0 in
    (
      ok tt,
      record reader {
        device_id = file.device;
        inode = file.number;
        offset = if ltb (length file.content) wanted then 0 else wanted;
        pending = [];
      },
    )

unfoldable pub committed_offset : FileTailReader → ℕ
committed_offset reader = reader.offset - length reader.pending

-- The rest of the old file; its last line may have no newline.
abbrev pub last_lines : Result (List Bytes) × FileTailReader → Result (List Bytes) × FileTailReader
last_lines (err e, reader) = (err e, reader)
last_lines (ok lines, reader) =
    (ok (flush lines reader.pending), record reader { pending = []; switch_on_next_read = true })
  where
    flush : List Bytes → Bytes → List Bytes
    flush lines [] = lines
    flush lines (b ∷ rest) = lines ++ (b ∷ rest) ∷ []

-- The path names another file than the open one.
abbrev pub is_replaced : FileTailReader → LogFile → Bool
is_replaced reader file = not (reader.device_id == file.device) || not (reader.inode == file.number)

abbrev pub switched :
    Result LogFile
    → List Answer
    → Result (Unit {0}) × FileTailReader
    → Result (List Bytes) × FileTailReader
switched opened answers (err e, reader) = (err e, reader)
switched opened answers (ok _, reader) =
    read_from_open_file opened answers (record reader { switch_on_next_read = false })

-- `at_path` is what `stat` finds at the path, `none` for ENOENT; `opened` is the open file.
abbrev pub inspected :
    Result (Option LogFile)
    → Result LogFile
    → List Answer
    → FileTailReader
    → Result (List Bytes) × FileTailReader
inspected (err e) opened answers reader = (err e, reader)
inspected (ok none) opened answers reader = read_from_open_file opened answers reader
inspected (ok (some file)) opened answers reader =
    let read = read_from_open_file opened answers reader in
    if is_replaced reader file then last_lines read else read

abbrev pub found : Result (Option LogFile) → Result LogFile
found (err e) = err e
found (ok none) = err (system 2)
found (ok (some file)) = ok file

unfoldable pub read_new_lines :
    Result (Option LogFile)
    → Result LogFile
    → List Answer
    → FileTailReader
    → Result (List Bytes) × FileTailReader
unfolding read_from_open_file open_current_file
read_new_lines at_path opened answers reader =
    if reader.switch_on_next_read
    then switched (found at_path) answers (open_current_file (found at_path) 0 0 0 reader)
    else inspected at_path opened answers reader

abbrev pub blank : Bytes → FileTailReader
blank path = record {
  path = path;
  offset = 0;
  pending = [];
  device_id = 0;
  inode = 0;
  switch_on_next_read = false;
}

-- The constructor.
unfoldable pub new_reader : Bytes → ℕ → ℕ → ℕ → Result LogFile → Result (Unit {0}) × FileTailReader
unfolding open_current_file
new_reader [] initial_offset expected_device expected_inode file = (err invalid_argument, blank [])
new_reader (c ∷ path) initial_offset expected_device expected_inode file =
    open_current_file file initial_offset expected_device expected_inode (blank (c ∷ path))
