-- ===== src/Tail.antt =====
-- The reader that follows a log file: src/FileTailReader.cpp and include/FileTailReader.h.
pub mod Reader
pub mod Lines
pub mod Synced
mod Tests
