-- ===== src/LightSync.antt =====
-- lightsync.rs: `LightSync`, by which one thread waits for a notification.
pub mod Defs
pub mod Safety
pub mod Returns
mod Tests
