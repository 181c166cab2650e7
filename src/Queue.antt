-- ===== src/Queue.antt =====
-- The queue between the threads of the client: include/BoundedBlockingQueue.h.
pub mod Operations
pub mod System
pub mod Order
mod Tests
