-- ===== src/KvMpscMultik.antt =====
-- rust/pa_queue_and_chan/src/kv_mpsc_multik.rs: the channel whose messages hold several keys.
pub mod Conflict
pub mod Manager
pub mod Cells
pub mod Entry
pub mod Using
pub mod Taking
pub mod Waits
pub mod Arrival
pub mod Release
pub mod Delivery
pub mod Searched
pub mod Exclusive
pub mod Stale
pub mod OneKey
pub mod Channels
pub mod Entered
pub mod Arrives
pub mod Frames
pub mod Kept
pub mod Unheld
pub mod Searches
pub mod Releases
pub mod Quiet
pub mod Found
pub mod Outcomes
pub mod Accounts
pub mod Settled
pub mod Runs
pub mod Others
pub mod Blocked
pub mod Termination
pub mod Consume
pub mod Received
pub mod Threads
mod Tests
mod Scenarios
mod BranchTests
mod KeyVecs
