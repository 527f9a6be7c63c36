-- ===== src/KvMpscMultik/OneKey.antt =====
-- kv_mpsc_multik.rs: the conflict manager when each message has one key.
pub mod Locks
pub mod Arriving
pub mod Releasing
pub mod Implements
pub mod Takes
pub mod Freed
pub mod Handed
pub mod Gives
pub mod Refines
pub mod Books
pub mod Runs
mod Tests
