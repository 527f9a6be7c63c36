-- ===== src/NoOrderQueue.antt =====
-- mpsc_no_order_queue.rs: `MpscNoOrderQueue`, a queue for each thread.
pub mod Defs
pub mod Threads
mod Tests
