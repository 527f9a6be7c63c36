-- ===== src/TimeoutParker.antt =====
-- rust/pa_queue_and_chan/src/timeout_parker.rs: parking with a timeout.
pub mod Inner
pub mod Safety
pub mod Alone
mod Tests
