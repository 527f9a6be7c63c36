-- ===== src/KvMpsc.antt =====
-- rust/pa_queue_and_chan/src/kv_mpsc.rs: the channel whose messages hold one key each.
pub mod Defs
pub mod System
pub mod Notified
pub mod Invariant
mod Schedule
mod Tests
mod Scenarios
pub mod Termination
pub mod Consume
pub mod Received
pub mod Closing
pub mod Safety
pub mod Wake
pub mod Quiet
pub mod Alone
pub mod Recycle
pub mod Stepping
pub mod Recycled
pub mod Delayed
pub mod Order
pub mod Keys
