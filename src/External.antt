-- ===== src/External.antt =====
-- Third-party code that the crate calls, as interfaces with the documented behaviour as laws.
pub mod SegQueue
pub mod Event
pub mod Setting
pub mod Waker
pub mod Order
pub mod PrioritySetting
