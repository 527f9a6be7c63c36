-- ===== src/LockfreeQueue/Tests.antt =====
-- The theorems on the linked queue at concrete queues.
use pa_queue_and_chan.Prelude.{
  ℕ, ◌+◌, ◌≡◌, refl, arith, List, none, some, [], ◌∷◌, ◌++◌, length, ok, panic, ℕ_discrete,
}
use pa_queue_and_chan.LockfreeQueue.Memory.{
  LockfreeMpscLinkQueue, new, push, empty, popped, pop, pop_round, store_next, free, new_head,
  new_node,
}
use pa_queue_and_chan.LockfreeQueue.Shape.{Chain, Holds}
use pa_queue_and_chan.LockfreeQueue.Fifo.{new-Holds, push_appends}
use pa_queue_and_chan.LockfreeQueue.Dangling.{last_pop_dangles}
use pa_queue_and_chan.LockfreeQueue.Threads.{
  Threads, exchange, add_cnt, Reach, here, next, exchanges, counts, links, pops, unlink, exchanged,
  counted, link,
}
use pa_queue_and_chan.LockfreeQueue.Interleaved.{values_in_order, link_succeeds, link-ok}
use pa_queue_and_chan.LockfreeQueue.Overtaken.{pop_before_link}
use pa_queue_and_chan.LockfreeQueue.Counter.{uncounted, carried, counter_exact}
use pa_queue_and_chan.LockfreeQueue.Replay.{push_op, pop_op, run, replay, keeps_one, run_replays}
use pa_queue_and_chan.LockfreeQueue.Drained.{test, drains_all}

abbrev one : (q : LockfreeMpscLinkQueue ℕ) × (push 7 new ≡ ok q) × Holds (7 ∷ []) q
one = push_appends 7 [] new new-Holds (omega arith)

abbrev two : (q : LockfreeMpscLinkQueue ℕ) × (push 8 (one.0) ≡ ok q) × Holds (7 ∷ 8 ∷ []) q
two = push_appends 8 (7 ∷ []) (one.0) (one.2) (omega arith)

last_pop_dangles_example :
    (q : LockfreeMpscLinkQueue ℕ) × (pop 1 (one.0) ≡ ok (popped 7 q))
    × ((n : ℕ) → pop n q ≡ ok empty)
    × ((t : ℕ) → push t q ≡ panic)
last_pop_dangles_example = last_pop_dangles 0 7 (one.0) (one.2)

-- Two pushes, the second of which links its node before the first has counted its own.
abbrev two_exchanged : (s : Threads ℕ) × Reach s
unfolding exchange new link add_cnt store_next ℕ_discrete new_head new_node
two_exchanged = (_, next (next here (exchanges 7)) (exchanges 8))

abbrev second_counted : (s : Threads ℕ) × Reach s
unfolding exchange new link add_cnt store_next ℕ_discrete new_head new_node
second_counted = (_, next two_exchanged.1 (counts 1 2 (exchanged 0 1 ∷ []) [] refl))

abbrev second_linked : (s : Threads ℕ) × Reach s
unfolding exchange new link add_cnt store_next ℕ_discrete new_head new_node
second_linked =
    let l = link_succeeds second_counted.0 1 2 (exchanged 0 1 ∷ []) [] second_counted.1 refl in
    (_, next second_counted.1 (links 1 2 (exchanged 0 1 ∷ []) [] l.0 refl l.1))

abbrev first_counted : (s : Threads ℕ) × Reach s
unfolding exchange new link add_cnt store_next ℕ_discrete new_head new_node
first_counted = (_, next second_linked.1 (counts 0 1 [] [] refl))

abbrev both_linked : (s : Threads ℕ) × Reach s
unfolding exchange new link add_cnt store_next ℕ_discrete new_head new_node
both_linked =
    let l = link_succeeds first_counted.0 0 1 [] [] first_counted.1 refl in
    (_, next first_counted.1 (links 0 1 [] [] l.0 refl l.1))

values_in_order_example :
    (xs : List ℕ) × (both_linked.0.pushed ≡ both_linked.0.taken ++ xs)
    × (both_linked.0.pushing ≡ []
        → Chain both_linked.0.queue.heap both_linked.0.queue.dummyhead none xs
            both_linked.0.queue.tail)
unfolding exchange new link add_cnt store_next ℕ_discrete new_head new_node
values_in_order_example = values_in_order both_linked.0 both_linked.1

-- The first push is linked, and the second has counted its value.
abbrev one_linked : (s : Threads ℕ) × Reach s
unfolding exchange new link add_cnt store_next ℕ_discrete new_head new_node
one_linked =
    let s = second_counted in
    let r = next s.1 (counts 0 1 [] (counted 1 2 ∷ []) refl) in
    (
      _,
      next r (
          links 0 1 [] (counted 1 2 ∷ []) _ refl
            (link-ok 0 1 none (add_cnt second_counted.0.queue) refl)),
    )

pop_before_link_example :
    (x : ℕ) × (q : LockfreeMpscLinkQueue ℕ) × (pop_round one_linked.0.queue ≡ ok (some (x, q)))
    × (link 1 2 q ≡ panic)
unfolding exchange new link add_cnt store_next ℕ_discrete new_head new_node
pop_before_link_example = pop_before_link one_linked.0 1 2 [] [] one_linked.1 refl refl

-- The first value is taken, and not yet discounted.
abbrev first_taken : (s : Threads ℕ) × Reach s
unfolding exchange new link add_cnt store_next ℕ_discrete new_head new_node unlink free
first_taken =
    let r =
      next one_linked.1 (links 1 2 [] [] _ refl (link-ok 1 2 (some 7) one_linked.0.queue refl)) in
    (_, next r (pops 7 1 2 none (some 7) _ refl refl refl refl))

counter_exact_example :
    (xs : List ℕ) × (first_taken.0.pushed ≡ first_taken.0.taken ++ xs)
    × (first_taken.0.queue.cnt + uncounted first_taken.0.pushing
        ≡ length xs + carried first_taken.0.popping)
unfolding exchange new link add_cnt store_next ℕ_discrete new_head new_node unlink free
counter_exact_example = counter_exact first_taken.0 first_taken.1 (omega arith)

run_replays_example :
    (q : LockfreeMpscLinkQueue ℕ) × (run 1 (pop_op ∷ push_op 7 ∷ push_op 8 ∷ pop_op ∷ []) new
      ≡ ok (none ∷ some 7 ∷ [], q))
    × Holds (8 ∷ []) q
unfolding replay keeps_one
run_replays_example =
    run_replays 0 (pop_op ∷ push_op 7 ∷ push_op 8 ∷ pop_op ∷ []) [] new new-Holds refl (omega arith)

drains_all_example : test {T = ℕ} 4 1 (7 ∷ 8 ∷ 9 ∷ []) ≡ ok (some (7 ∷ 8 ∷ 9 ∷ []))
drains_all_example = drains_all 0 (7 ∷ 8 ∷ 9 ∷ []) (omega arith)
