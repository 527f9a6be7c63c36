-- ===== src/PriorityChan.antt =====
-- rust/pa_queue_and_chan/src/priotity_async_mpsc_chan.rs: the priority channel with async receive.
pub mod Queue
pub mod Items
pub mod Ordered
pub mod Chan
pub mod System
pub mod Wake
mod Tests
pub mod Ending
pub mod Sorting
pub mod Drained
