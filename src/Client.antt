-- ===== src/Client.antt =====
-- src/main.cpp: the threads of the client.
pub mod Port
pub mod Sending
pub mod Retry
pub mod Settled
pub mod Batches
pub mod Producer
pub mod Numbering
mod Tests
