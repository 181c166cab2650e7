-- ===== src/Dedup.antt =====
-- The server's watermarks per client: src/DedupStore.cpp and include/DedupStore.h.
pub mod Text
pub mod Store
pub mod Load
pub mod Decimal
pub mod RoundTrip
pub mod Errors
pub mod Restart
pub mod Lookup
pub mod Durable
mod Tests
