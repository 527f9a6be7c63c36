-- ===== src/NoOrderQueue/Tests.antt =====
-- The theorems on the queues of the threads at a concrete map.
use pa_queue_and_chan.Prelude.{
  ℕ, ◌≡◌, ◌≢◌, ◌⊎◌, arith, true, none, some, [], ◌∷◌, get, is_some, ℕ_discrete, ok, contains,
}
use pa_queue_and_chan.External.SegQueue.{list_queues}
use pa_queue_and_chan.NoOrderQueue.Defs.{MpscNoOrderQueue, push, try_pop}
use pa_queue_and_chan.NoOrderQueue.Threads.{of_thread, push_keeps_threads, try_pop_takes_one}

-- Thread 3 has pushed 7 and 8, thread 5 has pushed 9.
abbrev pushed : MpscNoOrderQueue list_queues ℕ
pushed = record { threads_queues = (3, 7 ∷ 8 ∷ []) ∷ (5, 9 ∷ []) ∷ [] }

push_keeps_threads_example :
    (m' : MpscNoOrderQueue list_queues ℕ) × (push list_queues ℕ 5 10 pushed ≡ ok m')
    × (of_thread list_queues ℕ 5 m' ≡ 9 ∷ 10 ∷ [])
    × ((j : ℕ) → 5 ≢ j → of_thread list_queues ℕ j m' ≡ of_thread list_queues ℕ j pushed)
unfolding get ℕ_discrete
push_keeps_threads_example = push_keeps_threads list_queues ℕ 5 10 pushed

listed :
    (i : ℕ)
    → is_some (get ℕ_discrete i (pushed.threads_queues)) ≡ true
    → contains i (5 ∷ 3 ∷ []) ≡ true
unfolding get contains
listed i h = ground arith

try_pop_takes_one_example :
    ((try_pop list_queues ℕ (λ m. 5 ∷ 3 ∷ []) pushed ≡ none)
      × ((i : ℕ) → of_thread list_queues ℕ i pushed ≡ []))
    ⊎ ((t : ℕ) × (m' : MpscNoOrderQueue list_queues ℕ) × (i : ℕ) × (try_pop list_queues ℕ
            (λ m. 5 ∷ 3 ∷ [])
            pushed
          ≡ some (t, m'))
        × (of_thread list_queues ℕ i pushed ≡ t ∷ of_thread list_queues ℕ i m')
        × ((j : ℕ) → i ≢ j → of_thread list_queues ℕ j m' ≡ of_thread list_queues ℕ j pushed))
try_pop_takes_one_example = try_pop_takes_one list_queues ℕ (λ m. 5 ∷ 3 ∷ []) pushed listed
