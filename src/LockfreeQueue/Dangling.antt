-- ===== src/LockfreeQueue/Dangling.antt =====
-- lockfree_link_queue.rs: the tail after the queue runs empty, and the drop of the queue.
use pa_queue_and_chan.Prelude.{
  ℕ, suc, ◌<◌, ◌≡◌, refl, arith, Option, none, some, List, [], ◌∷◌, ◌∙◌, ok, panic,
}
use pa_queue_and_chan.LockfreeQueue.Memory.{
  Node, LockfreeMpscLinkQueue, write, push, store_next, new_node, empty, popped, pop, drop,
}
use pa_queue_and_chan.LockfreeQueue.Shape.{Holds, write-other}
use pa_queue_and_chan.LockfreeQueue.Fifo.{pop_first, without_first}

module _ {T : Type 0} where
  push-freed :
      (t : T) (q : LockfreeMpscLinkQueue T)
      → q.heap q.tail ≡ none
      → q.tail < q.free_place
      → push t q ≡ panic
  unfolding push store_next new_node
  push-freed t q e f =
      rw (write-other q.free_place q.tail (some (new_node t)) q.heap (λ d. omega arith) ∙ e) refl

  pub pop_none : (n : ℕ) (q : LockfreeMpscLinkQueue T) → q.cnt ≡ 0 → pop n q ≡ ok empty
  unfolding pop
  pop_none n q e = ground arith

  write-freed : (b l : ℕ) (h : ℕ → Option (Node T)) → b ≡ l → write b none h l ≡ none
  write-freed b l h e = ground arith

  -- A pop from a queue that holds one value takes it, and further pops find the queue empty; but the
  -- tail is then the freed node, so that every push that follows accesses freed memory.
  pub last_pop_dangles :
      (rounds : ℕ) (x : T) (q : LockfreeMpscLinkQueue T)
      → Holds (x ∷ []) q
      → (q' : LockfreeMpscLinkQueue T) × (pop (suc rounds) q ≡ ok (popped x q'))
        × ((n : ℕ) → pop n q' ≡ ok empty)
        × ((t : T) → push t q' ≡ panic)
  last_pop_dangles rounds x q ((b, ea, ab, (eb, bl)), n, f) = (
    without_first b none q,
    pop_first rounds b x none q ea eb (λ d. omega arith) (ground arith),
    (λ k. pop_none k (without_first b none q) (omega arith)),
    (λ t.
        push-freed t (without_first b none q)
          (write-freed b q.tail (write q.dummyhead (some (record { t = none; next = none })) q.heap)
            bl)
          f),
  )

  -- The drop of a queue, whatever values it holds, ends in its first round with every node still
  -- allocated: it frees neither the dummy node nor the nodes of the values.
  pub drop_frees_nothing :
      (rounds : ℕ) (xs : List T) (q : LockfreeMpscLinkQueue T)
      → Holds xs q
      → drop (suc rounds) q ≡ ok (some q.heap)
  unfolding drop
  drop_frees_nothing rounds [] q ((e, _), _, _) = rw (e) refl
  drop_frees_nothing rounds (x ∷ xs) q ((b, e, _, _), _, _) = rw (e) refl
