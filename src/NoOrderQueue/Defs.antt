-- ===== src/NoOrderQueue/Defs.antt =====
-- mpsc_no_order_queue.rs: the operations of `MpscNoOrderQueue`. `threads` lists the keys of the
-- `HashMap` in the order in which it iterates; a thread is the number `current_thread_id` returns.
use pa_queue_and_chan.Prelude.{
  ℕ, Option, none, some, List, [], ◌∷◌, Map, get, insert, is_some, ℕ_discrete, Outcome, ok, ◌>>=◌,
  unwrap, if◌then◌else◌,
}
use pa_queue_and_chan.External.SegQueue.{SegQueues}

module _ (Q : SegQueues) (T : Type 0) where
  pub record MpscNoOrderQueue : Type 0 where
    pub threads_queues : Map ℕ (Q.SegQueue T)

  unfoldable pub new : MpscNoOrderQueue
  new = record { threads_queues = [] }

  -- The write lock of `push`, taken only by a thread without a queue.
  unfoldable pub join : ℕ → MpscNoOrderQueue → MpscNoOrderQueue
  join thread m =
      if is_some (get ℕ_discrete thread m.threads_queues)
      then m
      else record { threads_queues = insert ℕ_discrete thread Q.new m.threads_queues }

  -- `push` by the thread with the given id.
  unfoldable pub push : ℕ → T → MpscNoOrderQueue → Outcome MpscNoOrderQueue
  unfolding join
  push thread t m = do
    let read = (join thread m).threads_queues
    q ← unwrap (get ℕ_discrete thread read)
    ok (record { threads_queues = insert ℕ_discrete thread (Q.push t q) read })

  -- The loop of `try_pop`.
  unfoldable pub pop_first : List ℕ → MpscNoOrderQueue → Option (T × MpscNoOrderQueue)
  pop_first [] m = none
  pop_first (i ∷ is) m = elim (get ℕ_discrete i m.threads_queues) [
    | none ↦ pop_first is m
    | some q ↦ elim (Q.pop q) [
      | none ↦ pop_first is m
      | some (t, q') ↦ some (t, record { threads_queues = insert ℕ_discrete i q' m.threads_queues })
    ]
  ]

  unfoldable pub try_pop :
      (MpscNoOrderQueue → List ℕ) → MpscNoOrderQueue → Option (T × MpscNoOrderQueue)
  unfolding pop_first
  try_pop threads m = pop_first (threads m) m
