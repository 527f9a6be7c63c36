-- ===== src/External/PrioritySetting.antt =====
-- What the priority channel is generic in, with the types of the crates that it calls.
use pa_queue_and_chan.External.SegQueue.{SegQueues, list_queues}
use pa_queue_and_chan.External.Order.{Ord}
use pa_queue_and_chan.External.Waker.{Wakers, cell_wakers}

pub record PrioritySetting : Type 1 where
  pub I : Type 0
  pub P : Type 0
  pub order : Ord P
  pub queues : SegQueues
  pub wakers : Wakers

-- Lists for the queues, a cell for the waker.
abbrev pub list_priorities : (I P T : Type 0) → Ord P → PrioritySetting
list_priorities I P T o = record {
  I = I;
  P = P;
  order = o;
  queues = list_queues;
  wakers = cell_wakers T;
}
