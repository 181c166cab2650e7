-- ===== src/Server.antt =====
-- The server program: the loop over the batches of a client in src/ServerMain.cpp.
pub mod Loop
pub mod Batch
pub mod Once
pub mod Resend
pub mod Sessions
pub mod Received
pub mod Witnessed
pub mod Served
mod Tests
