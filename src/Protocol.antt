-- ===== src/Protocol.antt =====
-- The binary protocol of include/Protocol.h and src/Protocol.cpp.
pub mod Format
pub mod Write
pub mod Reader
pub mod Read
pub mod Codec
pub mod Words
pub mod Cursor
pub mod Ints
pub mod Record
pub mod Frame
pub mod Single
pub mod Ack
pub mod Batch
pub mod BatchFrame
pub mod Errors
mod Tests
