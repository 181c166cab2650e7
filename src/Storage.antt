-- ===== src/Storage.antt =====
-- Files and the calls on them: src/Persistence.cpp over an operating system that may fail.
pub mod World
pub mod Persistence
pub mod Triples
pub mod Writing
pub mod Atomic
pub mod Append
