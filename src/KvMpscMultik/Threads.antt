-- ===== src/KvMpscMultik/Threads.antt =====
-- kv_mpsc_multik.rs: the channel with its senders, holders of messages and receiver.
pub mod System
pub mod Owners
pub mod Wake
pub mod Looks
pub mod Held
pub mod Invariant
pub mod Waiting
pub mod Safety
mod Tests
