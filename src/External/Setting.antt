-- ===== src/External/Setting.antt =====
-- What the two keyed channels are generic in: the key and message types, and the crates' types.
use pa_queue_and_chan.External.SegQueue.{SegQueues, list_queues}
use pa_queue_and_chan.External.Event.{Events, option_events}

pub record Setting : Type 1 where
  pub K : Type 0
  pub V : Type 0
  -- by `K:Ord`
  pub key_eq : Discrete K
  pub queues : SegQueues
  pub events : Events

-- Lists for the queues, a flag for the event.
abbrev pub list_setting : (K V : Type 0) → Discrete K → Setting
list_setting K V d = record {
  K = K;
  V = V;
  key_eq = d;
  queues = list_queues;
  events = option_events;
}
