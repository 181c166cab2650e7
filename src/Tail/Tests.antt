-- ===== src/Tail/Tests.antt =====
-- A log file that grows inside a line, and the theorems on its reading.
use log_bridge.Base.{◌+◌, ◌≡◌, refl, arith, false, [], ◌∷◌, ◌++◌, ok, some, take}
use log_bridge.Tail.Reader.{
  LogFile, moved, ended, failed, FileTailReader, read_loop, strip_return, split_lines,
  read_from_open_file, open_current_file, committed_offset, read_new_lines, new_reader,
}
use log_bridge.Tail.Synced.{
  IsSynced, ReadEnds, read_from_open_file-ReadEnds, committed_offset-lines, IsCaughtUp,
  read_from_open_file-IsCaughtUp,
}

-- "ab\r\nc" and, later, "d\n" behind it.
abbrev early : LogFile
early = record { device = 1; number = 7; content = b'a' ∷ b'b' ∷ 13 ∷ 10 ∷ b'c' ∷ [] }

abbrev grown : LogFile
grown = record early { content = early.content ++ b'd' ∷ 10 ∷ [] }

abbrev rotated : LogFile
rotated = record { device = 1; number = 8; content = b'e' ∷ 10 ∷ [] }

abbrev reader : FileTailReader
reader = record {
  path = b'l' ∷ [];
  offset = 5;
  pending = b'c' ∷ [];
  device_id = 1;
  inode = 7;
  switch_on_next_read = false;
}

-- All that the reader calls.
reading : Unit {0}
unfolding read_loop strip_return split_lines read_from_open_file open_current_file committed_offset
    read_new_lines new_reader
reading = tt

opened : (new_reader (b'l' ∷ []) 4 1 7 (ok early)).1.offset ≡ 4
unfolding reading
opened = refl

-- The identity differs: from the start.
other_file : (new_reader (b'l' ∷ []) 4 1 9 (ok early)).1.offset ≡ 0
unfolding reading
other_file = refl

first_lines :
    (read_new_lines
      (ok (some early))
      (ok early)
      (moved 1 ∷ failed 4 ∷ [])
      (record reader { offset = 0; pending = [] }))
    ≡ (ok ((b'a' ∷ b'b' ∷ []) ∷ []), reader)
unfolding reading
first_lines = refl

-- The path names another file: the rest of the old one comes first.
rotation : (read_new_lines (ok (some rotated)) (ok early) [] reader).0 ≡ ok ((b'c' ∷ []) ∷ [])
unfolding reading
rotation = refl

after_rotation :
    (read_new_lines
      (ok (some rotated))
      (ok early)
      []
      (read_new_lines (ok (some rotated)) (ok early) [] reader).1).0
    ≡ ok ((b'e' ∷ []) ∷ [])
unfolding reading
after_rotation = refl

reader-IsSynced : IsSynced grown.content ((b'a' ∷ b'b' ∷ []) ∷ []) reader
unfolding reading
reader-IsSynced = record { inside = omega arith; lines = refl }

read_from_open_file-ReadEnds_example :
    ReadEnds grown.content
      ((b'a' ∷ b'b' ∷ []) ∷ [])
      reader
      reader-IsSynced
      (read_from_open_file (ok grown) (moved 0 ∷ ended ∷ []) reader)
read_from_open_file-ReadEnds_example =
    read_from_open_file-ReadEnds grown (moved 0 ∷ ended ∷ []) ((b'a' ∷ b'b' ∷ []) ∷ []) reader
      reader-IsSynced

committed_offset-lines_example :
    (split_lines [] (take (committed_offset reader) grown.content) ≡ ((b'a' ∷ b'b' ∷ []) ∷ [], []))
    × (committed_offset reader + 1 ≡ 5)
committed_offset-lines_example =
    committed_offset-lines grown.content ((b'a' ∷ b'b' ∷ []) ∷ []) reader reader-IsSynced

read_from_open_file-IsCaughtUp_example :
    IsCaughtUp grown.content
      ((b'a' ∷ b'b' ∷ []) ∷ [])
      (read_from_open_file (ok grown) (moved 0 ∷ failed 4 ∷ []) reader)
read_from_open_file-IsCaughtUp_example =
    read_from_open_file-IsCaughtUp grown (moved 0 ∷ failed 4 ∷ []) ((b'a' ∷ b'b' ∷ []) ∷ []) reader
      reader-IsSynced (tt, (refl, tt))
