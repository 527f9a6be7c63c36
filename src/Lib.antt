-- ===== src/Lib.antt =====
-- Verification of the queues and channels of pa_queue_and_chan. All sources stand in
-- rust/pa_queue_and_chan/src; a file is named here without that folder.
--
-- Parts and files:
--   KvMpsc (kv_mpsc.rs): the channel whose messages have one key each. Defs has the operations of
--     `Channel`, `Sender`, `Receiver` and `Message`; `sync_pop` is a machine of one shared access
--     at a time, `sync_pop_step` at a place `Pc`, with `release_key`, `handle_msg` and
--     `wait_step` for its branches. System interleaves senders, holders of messages and the
--     receiver. Keys, Order, Wake and Invariant prove the invariant; Safety, Closing and
--     Termination what follows of it. Consume and Received are about the test that sends and
--     receives many messages, in the schedule in which all sends come first; Recycle, Alone,
--     Stepping, Recycled and Delayed are about the loop of the one whose messages are dropped later,
--     from when the senders are gone; Scenarios is about other tests that do not measure time.
--   KvMpscMultik (kv_mpsc_multik.rs): messages with several keys. Conflict has the key states,
--     the waiting messages and their operations, Manager `ConflictManager`, Channels the channel.
--     Cells, Entry, Using, Taking, Waits, Arrival, Release and Delivery have the invariant of the
--     manager, operation by operation. Searched and Exclusive follow it through the runs of the
--     manager; Stale is about the ids that are left behind. Entered, Frames, Kept, Unheld, Searches,
--     Arrives and Releases have the two requests on every branch. Found and Outcomes have what a
--     release that does not panic has done, and Others what it leaves of the states of other keys;
--     Accounts and Settled follow the messages that wait, Blocked the keys that they wait for, and
--     Runs the runs of arrivals and releases. Termination has `sync_pop` on fuel, and Quiet, Consume
--     and Received are about the test that sends and receives many messages, in the schedule in
--     which all sends come first. OneKey is about messages with one key:
--     Locks has the locks that the manager stands for, Implements the relation between the two,
--     Takes and Gives the requests, Refines and Runs what follows. Threads interleaves senders,
--     holders of messages and the receiver on the channel, one access at a time. Scenarios and
--     KeyVecs have other tests of the source.
--   PriorityChan (priotity_async_mpsc_chan.rs): Queue has `PriorityQueue`, Chan the operations of
--     `PriorityChan`, System the interleavings of the senders and the one receiver, Drained the two
--     tests, for any items and priorities.
--   TimeoutParker (timeout_parker.rs): Inner has the state, the mutex and the condition variable,
--     with one parker and any number of unparkers.
--   LockfreeQueue (lockfree_link_queue.rs): Memory has the queue, its nodes and the operations one
--     after the other, which Replay compares with those of a list. Threads has the single
--     accesses of pushes that interleave, with each other and with the pops of one thread, which
--     are two steps each; Joined, Interleaved, Counter and Overtaken follow them.
--     Drained has the test, with the pushes before the pops.
--   NoOrderQueue (mpsc_no_order_queue.rs): Defs has the map of the queues of the threads.
--   LightSync (lightsync.rs): Defs has the flag, the registered thread and its park token, Returns
--     the tests `test_speed` and `test_notify`.
-- The channels use SegQueue, Event and AtomicWaker, and nothing of each other.
--
-- Parameters: External has what is not of this crate, as records of operations and their laws,
-- each with an instance that meets them: `SegQueues` (crossbeam), `Events` (event_listener),
-- `Wakers` (AtomicWaker, copied from tokio), `Ord`. A key has decidable equality. A map is an
-- association list; the order in which a HashMap is iterated is a parameter.
--
-- Conventions: each atomic access and each operation of a SegQueue, an Event or an AtomicWaker is
-- one step, and memory is sequentially consistent. A panic is the outcome `panic`, the place
-- `panicked` or a flag of the state. An Arc is left out: shared state is passed along, and the
-- drop of the last owner is a step of its own. An Rc<RefCell> of kv_mpsc_multik.rs is a place in
-- a store of cells. A KeyVec is a list.
--
-- Bounds and fuel: `sync_pop` runs on fuel, for which Termination gives a bound that suffices;
-- `pop` of the linked queue runs for a number of rounds, of which one is enough once the node is
-- linked. The loops of the tests run for a number of rounds, for which Received and Delayed give
-- one that suffices. The waiting ids of kv_mpsc_multik.rs are of type i32, and their overflow panics
-- (`id_bound`); the counter of the linked queue wraps around (`cnt_bound`). The other structures
-- are bounded by memory alone.
--
-- Not modelled: tokio_transplant, a copy of parts of tokio; benches, and the tests that measure time
-- or use the channels and Condvar of std alone; `drop_msg_after_a_while` of kv_mpsc_multik.rs;
-- lib.rs, which declares modules; Debug implementations and printing; memory orders weaker than
-- sequential consistency.
pub mod Prelude
pub mod External
pub mod KvMpsc
pub mod KvMpscMultik
pub mod PriorityChan
pub mod TimeoutParker
pub mod LockfreeQueue
pub mod NoOrderQueue
pub mod LightSync
