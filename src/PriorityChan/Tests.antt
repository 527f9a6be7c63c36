-- ===== src/PriorityChan/Tests.antt =====
-- The theorems on the priority channel at concrete queues and runs.
use pa_queue_and_chan.Prelude.{List, ℕ, ◌≡◌, refl, true, false, none, some, [], ◌∷◌, is_some}
use pa_queue_and_chan.External.Order.{nat_ord}
use pa_queue_and_chan.External.PrioritySetting.{PrioritySetting, list_priorities}
use pa_queue_and_chan.PriorityChan.Queue.{
  Queues, find, push, push_read, push_write, pop, contains_key, insert, push_to,
}
use pa_queue_and_chan.PriorityChan.Items.{items, IsOrdered, insert_item, push_inserts}
use pa_queue_and_chan.PriorityChan.Chan.{
  PriorityChan, pop_first, check_first, register, pop_second, check_second, returns, ready, pending,
  new, recv, recv_step, send_sync, try_recv, after_first, after_second,
}
use pa_queue_and_chan.PriorityChan.System.{
  System, start, recv_begins, recv_steps, Reach, here, next,
}
use pa_queue_and_chan.PriorityChan.Wake.{pending_misses_no_item}
use pa_queue_and_chan.PriorityChan.Ending.{
  Receives, recv_alone, racing_pushes_lose, end_wakes_nobody, end_loses_item,
}
use pa_queue_and_chan.PriorityChan.Sorting.{IsSorted, of_priority}
use pa_queue_and_chan.PriorityChan.Drained.{
  unwrap_sent, unwrap_ready, send_all, recv_all, recv_sent, test_order, values, receives_in_order,
}

-- Items and priorities are numbers, and there is one task.
abbrev numbers : PrioritySetting
numbers = list_priorities ℕ ℕ (Unit {0}) nat_ord

abbrev three : Queues numbers
three = (2, 20 ∷ 21 ∷ []) ∷ (5, 50 ∷ []) ∷ []

three-IsOrdered : IsOrdered numbers three
unfolding nat_ord
three-IsOrdered = ((refl, tt), (tt, tt))

push_inserts_example :
    items numbers (push numbers 30 3 three) ≡ insert_item numbers (3, 30) (items numbers three)
push_inserts_example = push_inserts numbers 30 3 three three-IsOrdered

push_between : items numbers (push numbers 30 3 three) ≡ (2, 20) ∷ (2, 21) ∷ (3, 30) ∷ (5, 50) ∷ []
unfolding push nat_ord
push_between = refl

abbrev loaded : PriorityChan numbers
loaded = record { queue = three; end_flag = false; waker = none }

recv_alone_example : Receives numbers tt loaded (recv numbers tt loaded)
recv_alone_example = recv_alone numbers tt loaded

racing_pushes_lose_example :
    (push_read numbers 30 3 three ≡ none)
    × (push_read numbers 31 3 three ≡ none)
    × (push_write numbers 31 3 (push_write numbers 30 3 three) ≡ push_write numbers 31 3 three)
unfolding find nat_ord
racing_pushes_lose_example = racing_pushes_lose numbers 30 31 3 three refl

end_wakes_nobody_example :
    (s : System numbers) × Reach numbers tt s
    × (s.pc ≡ some (returns pending))
    × (s.woken ≡ false)
    × (s.waking ≡ 0)
    × (s.chan.end_flag ≡ true)
    × (s.senders ≡ false)
end_wakes_nobody_example = end_wakes_nobody numbers tt

end_loses_item_example :
    (s : System numbers) × Reach numbers tt s
    × (s.pc ≡ some (returns (ready none)))
    × (items numbers s.chan.queue ≡ (3, 30) ∷ [])
end_loses_item_example = end_loses_item numbers tt 30 3

abbrev parked : (s : System numbers) × Reach numbers tt s
unfolding start new recv_step pop
parked =
    let a = next here (recv_begins refl) in
    let b = next a (recv_steps pop_first refl) in
    let c = next b (recv_steps check_first refl) in
    let d = next c (recv_steps register refl) in
    let e = next d (recv_steps pop_second refl) in (_, next e (recv_steps check_second refl))

pending_misses_no_item_example :
    (items numbers parked.0.chan.queue ≡ []) × (is_some parked.0.chan.waker ≡ true)
unfolding start new recv_step pop
pending_misses_no_item_example = pending_misses_no_item numbers parked.1 refl refl refl

send_wakes_parked :
    (send_sync numbers 7 1 (record { queue = []; end_flag = false; waker = some tt })).2 ≡ some tt
unfolding send_sync
send_wakes_parked = refl

-- The sends of `test_sleep`, four of them: the later is the more urgent.
abbrev countdown : List (ℕ × ℕ)
countdown = (3, 0) ∷ (2, 1) ∷ (1, 2) ∷ (0, 3) ∷ []

receives_in_order_example :
    (ys : List (ℕ × ℕ)) × (test_order numbers tt countdown ≡ some (values numbers ys))
    × IsSorted numbers ys
    × ((p : ℕ) → of_priority numbers p ys ≡ of_priority numbers p countdown)
receives_in_order_example = receives_in_order numbers tt countdown

-- Two priorities, two values each.
mixed :
    test_order numbers tt ((1, 10) ∷ (0, 20) ∷ (1, 11) ∷ (0, 21) ∷ [])
    ≡ some (20 ∷ 21 ∷ 10 ∷ 11 ∷ [])
unfolding test_order recv_sent send_all recv_all unwrap_sent unwrap_ready send_sync push pop recv
    after_first after_second try_recv new push_read push_write contains_key find insert push_to
    nat_ord
mixed = refl
