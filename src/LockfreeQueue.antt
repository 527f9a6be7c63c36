-- ===== src/LockfreeQueue.antt =====
-- lockfree_link_queue.rs: the linked queue `LockfreeMpscLinkQueue` over a store of nodes.
pub mod Memory
pub mod Shape
pub mod Fifo
pub mod Dangling
pub mod Threads
pub mod Joined
pub mod Interleaved
pub mod Overtaken
pub mod Replay
pub mod Drained
pub mod Counter
mod Tests
