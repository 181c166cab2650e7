-- ===== src/Storage/Persistence.antt =====
-- src/Persistence.cpp. A file descriptor is the path that it was opened at: no two are open at once.
use log_bridge.Base.{
  ℕ, zero, suc, List, [], ◌∷◌, ◌++◌, Option, none, some, Result, ok, err, system, file_unreadable,
  take, drop, ◌==◌, if◌then◌else◌,
}
use log_bridge.Message.{Bytes}
use log_bridge.Storage.World.{
  Files, Outcome, done, short, fail, World, Io, update, change, return, ◌>>=◌, ◌>>◌, on_error,
  answer, later, call, modify,
}

abbrev pub eintr : ℕ
eintr = 4

abbrev pub eio : ℕ
eio = 5

abbrev pub content_of : Option Bytes → Bytes
content_of none = []
content_of (some bytes) = bytes

abbrev pub append_to : Bytes → Bytes → Files → Files
append_to path bytes files = update files path (some (content_of (files path) ++ bytes))

-- `create_directories(parent)`; directories hold nothing else here.
unfoldable pub ensure_parent_directory : Bytes → Io (Unit {0})
ensure_parent_directory path = call

-- `open(path, O_WRONLY | O_CREAT | O_APPEND)` and the same with `O_TRUNC`.
unfoldable pub open_append : Bytes → Io (Unit {0})
unfolding call modify
open_append path = do call; modify (append_to path [])

unfoldable pub open_truncate : Bytes → Io (Unit {0})
unfolding call modify
open_truncate path = do call; modify (λ files. update files path (some []))

-- The loop of `writeAll` over what is left of `data`, one answer of `write` to a round.
unfoldable pub write_loop : List Outcome → Bytes → Bytes → Io (Unit {0})
write_loop schedule path [] w = (ok tt, record w { schedule = schedule })
write_loop [] path (b ∷ rest) w =
    (ok tt, change (append_to path (b ∷ rest) w.files) (record w { schedule = [] }))
write_loop (done ∷ schedule) path (b ∷ rest) w =
    (ok tt, change (append_to path (b ∷ rest) w.files) (record w { schedule = schedule }))
write_loop (short zero ∷ schedule) path (b ∷ rest) w =
    (err (system eio), record w { schedule = schedule })
write_loop (short (suc n) ∷ schedule) path (b ∷ rest) w =
    write_loop schedule path (drop n rest) (change (append_to path (b ∷ take n rest) w.files) w)
write_loop (fail e ∷ schedule) path (b ∷ rest) w =
    let again = write_loop schedule path (b ∷ rest) w in
    if e == eintr then again else (err (system e), record w { schedule = schedule })

unfoldable pub write_all : Bytes → Bytes → Io (Unit {0})
unfolding write_loop
write_all path bytes w = write_loop w.schedule path bytes w

-- `close` in a cleanup: its result is not looked at.
unfoldable pub close_ignored : Io (Unit {0})
close_ignored w = (ok tt, record w { schedule = later w.schedule })

-- `fsync`, then `close`; after a failed `fsync` the descriptor is closed and the error kept.
unfoldable pub sync_and_close : Io (Unit {0})
unfolding call close_ignored on_error
sync_and_close = do on_error call close_ignored; call

unfoldable pub sync_parent_directory : Bytes → Io (Unit {0})
unfolding call sync_and_close
sync_parent_directory path = do call; sync_and_close

abbrev pub removal : Outcome → Bytes → World → World
removal (fail e) path w = w
removal _ path w = change (update w.files path none) w

-- `std::filesystem::remove(path, ignored)`.
unfoldable pub remove_ignored : Bytes → Io (Unit {0})
remove_ignored path w =
    (ok tt, removal (answer w.schedule) path (record w { schedule = later w.schedule }))

-- `std::filesystem::rename(from, to)`: `to` has the content of `from` in one step.
unfoldable pub rename : Bytes → Bytes → Io (Unit {0})
unfolding call modify
rename from to = do call; modify (λ files. update (update files to (files from)) from none)

abbrev pub temporary_of : Bytes → Bytes
temporary_of path = path ++ b'.' ∷ b't' ∷ b'm' ∷ b'p' ∷ []

unfoldable pub append_durably : Bytes → Bytes → Io (Unit {0})
append_durably path bytes = do
  ensure_parent_directory path
  open_append path
  on_error (write_all path bytes) close_ignored
  sync_and_close
  sync_parent_directory path

unfoldable pub write_atomically : Bytes → Bytes → Io (Unit {0})
write_atomically path bytes = do
  ensure_parent_directory path
  let temporary = temporary_of path
  open_truncate temporary
  on_error (write_all temporary bytes) (close_ignored >> remove_ignored temporary)
  on_error (sync_and_close >> (rename temporary path >> sync_parent_directory path))
      (remove_ignored temporary)

abbrev pub judge_stream : Outcome → Result (Unit {0})
judge_stream (fail e) = err file_unreadable
judge_stream _ = ok tt

-- A call of `readFile`'s stream that fails throws `std::runtime_error`.
unfoldable pub stream_call : Io (Unit {0})
stream_call w = (judge_stream (answer w.schedule), record w { schedule = later w.schedule })

-- Open, find the size, and read if there is anything to read.
unfoldable pub read_existing : Bytes → Io Bytes
read_existing [] = do stream_call; stream_call; return []
read_existing (b ∷ rest) = do stream_call; stream_call; stream_call; return (b ∷ rest)

abbrev pub read_content : Option Bytes → Io Bytes
read_content none = return []
read_content (some bytes) = read_existing bytes

-- Nothing is opened where the file does not exist.
unfoldable pub read_file : Bytes → Io Bytes
unfolding read_existing stream_call return ◌>>=◌
read_file path w = read_content (w.files path) w
