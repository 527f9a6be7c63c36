-- ===== src/KvMpsc/Tests.antt =====
-- Runs of the kv_mpsc channel, and its theorems at states that such runs reach.
use pa_queue_and_chan.Prelude.{
  ◌+◌, ◌≤◌, ◌≡◌, ◌≢◌, refl, ◌⊎◌, true, false, none, some, [], ◌∷◌, ◌++◌, ℕ_discrete, count, of_key,
  get, arith, length, ℕ, ◌<◌,
}
use pa_queue_and_chan.KvMpsc.Defs.{
  drain, panicked, sync_pop_step, channel, send, SendResult, drop_receiver, At,
}
use pa_queue_and_chan.KvMpsc.System.{System, Reach, pc_returned}
use pa_queue_and_chan.KvMpsc.Keys.{keys_of, held_keys, waiting_for}
use pa_queue_and_chan.KvMpsc.Safety.{exclusive_keys, keys_in_order, never_panics, no_lost_wakeup}
use pa_queue_and_chan.KvMpsc.Closing.{closes_released, closing_loses}
use pa_queue_and_chan.KvMpsc.Termination.{sync_pop, measure, sync_pop_stops}
use pa_queue_and_chan.KvMpsc.Consume.{test_basic}
use pa_queue_and_chan.KvMpsc.Received.{receives_all_sent}
use pa_queue_and_chan.KvMpsc.Recycle.{loop}
use pa_queue_and_chan.KvMpsc.Delayed.{ReceivesAll, receives_all_later}
use pa_queue_and_chan.KvMpsc.Schedule.{
  numbers, Run, sends, tells, leaves, calls, turns, returns, drops, run,
}

-- Message 10 with key 1 is held, message 20 with key 1 waits, 30 with key 2 is held.
abbrev contended : Run
contended = run (
    sends 1 10
    ∷ sends 1 20
    ∷ sends 2 30
    ∷ tells
    ∷ calls
    ∷ turns 2
    ∷ returns
    ∷ calls
    ∷ turns 4
    ∷ returns
    ∷ [])

contended_state :
    (contended.last.popped ≡ (1, 10) ∷ (2, 30) ∷ [])
    × (held_keys numbers contended.last.held ≡ 2 ∷ 1 ∷ [])
    × (waiting_for numbers (get ℕ_discrete 1 contended.last.receiver.using_keys) ≡ (1, 20) ∷ [])
unfolding run
contended_state = (refl, refl, refl)

-- The receiver waits, and nothing was sent.
abbrev idle : Run
idle = run (calls ∷ turns 6 ∷ [])

-- The only message is dropped, the sender is gone, and the receiver has seen both.
abbrev ending : Run
ending =
    run (
      sends 1 10
      ∷ tells
      ∷ calls
      ∷ turns 2
      ∷ returns
      ∷ leaves
      ∷ drops
      ∷ tells
      ∷ calls
      ∷ turns 6
      ∷ [])

exclusive_keys_example :
    count ℕ_discrete 1 (held_keys numbers contended.last.held)
      + count ℕ_discrete 1 contended.last.chan.drop_key_q
      + count ℕ_discrete 1 (keys_of numbers (pc_returned numbers contended.last.pc))
    ≤ 1
exclusive_keys_example = exclusive_keys numbers 1 contended.reach

keys_in_order_example :
    of_key ℕ_discrete 1 contended.last.pushed
    ≡ of_key ℕ_discrete 1 contended.last.popped
      ++ (waiting_for numbers (get ℕ_discrete 1 contended.last.receiver.using_keys)
          ++ of_key ℕ_discrete 1 contended.last.chan.q)
keys_in_order_example = keys_in_order numbers 1 contended.reach

never_panics_example : contended.last.pc ≢ some panicked
never_panics_example = never_panics numbers contended.reach

no_lost_wakeup_example :
    (idle.last.chan.q ≡ [])
    × (idle.last.chan.drop_key_q ≡ [])
    × ((idle.last.chan.senders_dropped ≡ false)
        ⊎ ((k : ℕ) × (0 < count ℕ_discrete k (held_keys numbers idle.last.held))))
unfolding run
no_lost_wakeup_example = no_lost_wakeup numbers tt idle.reach refl refl refl

closes_released_example :
    (ending.last.held ≡ [])
    × (ending.last.receiver.using_keys ≡ [])
    × (ending.last.chan.senders_dropped ≡ true)
unfolding run
closes_released_example = closes_released numbers ending.reach refl

closing_loses_example :
    (s : System numbers) × Reach numbers s
    × (s.ended ≡ true)
    × (s.held ≡ [])
    × (s.popped ≡ [])
    × (s.chan.q ≡ (1, 10) ∷ [])
closing_loses_example = closing_loses numbers 1 10

abbrev one_queued : At numbers
one_queued = (contended.last.chan, contended.last.receiver, drain)

sync_pop_stops_example :
    let b = sync_pop numbers 40 one_queued in sync_pop_step numbers b.0 b.1 b.2 ≡ none
unfolding run measure
sync_pop_stops_example = sync_pop_stops numbers 40 one_queued (omega arith)

-- `send` after the receiver is gone.
send_closed : (send numbers 1 10 (drop_receiver numbers (channel numbers).0)).1 ≡ SendResult.closed
unfolding send drop_receiver
send_closed = refl

receives_all_sent_example :
    test_basic numbers 4 6 ((1, 10) ∷ (2, 20) ∷ (1, 30) ∷ [])
    ≡ some ((1, 10) ∷ (2, 20) ∷ (1, 30) ∷ [])
receives_all_sent_example = receives_all_sent numbers 0 ((1, 10) ∷ (2, 20) ∷ (1, 30) ∷ [])

-- Message 10 with key 1 and message 30 with key 2 are held, message 20 waits, and the sender goes.
abbrev departed : Run
departed = run (
    sends 1 10
    ∷ sends 1 20
    ∷ sends 2 30
    ∷ tells
    ∷ tells
    ∷ tells
    ∷ calls
    ∷ turns 2
    ∷ returns
    ∷ calls
    ∷ turns 4
    ∷ returns
    ∷ leaves
    ∷ tells
    ∷ [])

receives_all_later_example :
    ReceivesAll numbers departed.last.pushed
      (loop numbers 8 4 (λ n. false) (length departed.last.popped) departed.last)
unfolding run
receives_all_later_example =
    receives_all_later numbers 0 4 (λ n. false) departed.reach refl refl refl tt
