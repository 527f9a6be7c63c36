-- ===== src/LockfreeQueue/Fifo.antt =====
-- lockfree_link_queue.rs: `push` and `pop` on a queue that does not run empty.
use pa_queue_and_chan.Prelude.{
  ℕ, suc, ◌+◌, ◌%◌, ◌<◌, ◌≡◌, refl, arith, false, Option, none, some, List, [], ◌∷◌, ◌++◌, length,
  length-append, ◌==◌, ok, ◌≢◌, ◌∙◌, ℕ_discrete,
}
use pa_queue_and_chan.LockfreeQueue.Memory.{
  Node, LockfreeMpscLinkQueue, cnt_bound, write, new, new_head, new_node, store_next, push, free,
  pop_round, popped, pop_loop, pop,
}
use pa_queue_and_chan.LockfreeQueue.Shape.{Holds, Chain-write, write-same, write-other, Chain-snoc}

module _ {T : Type 0} where
  pub new-Holds : Holds [] (new {T = T})
  unfolding new new_head ℕ_discrete
  new-Holds = ((refl, refl), refl, omega arith)

  pub store_next-ok :
      (a : ℕ) (n : Option ℕ) (node : Node T) (h : ℕ → Option (Node T))
      → h a ≡ some node
      → store_next a n h ≡ ok (write a (some (record node { next = n })) h)
  unfolding store_next
  store_next-ok a n node h e = rw (e) refl

  pub free-ok :
      (a : ℕ) (t : T) (n : Option ℕ) (h : ℕ → Option (Node T))
      → h a ≡ some (record { t = some t; next = n })
      → free a h ≡ ok (t, write a none h)
  unfolding free
  free-ok a t n h e = rw (e) refl

  -- A push on a queue that holds `xs`, whose counter does not wrap around by it, succeeds, and
  -- the queue then holds `xs` with the new value at its end.
  pub push_appends :
      (t : T) (xs : List T) (q : LockfreeMpscLinkQueue T)
      → Holds xs q
      → length xs + 1 < cnt_bound
      → (q' : LockfreeMpscLinkQueue T) × (push t q ≡ ok q') × Holds (xs ++ t ∷ []) q'
  unfolding push store_next new_node
  push_appends t xs q (chain, c, f) small =
      let (u, e, _, chain') = Chain-snoc q.dummyhead q.tail q.free_place none xs t q.heap f chain in
      (
        record q {
          tail = q.free_place;
          cnt = (q.cnt + 1) % cnt_bound;
          heap =
              write q.tail (some (record { t = u; next = some q.free_place }))
                (write q.free_place (some (new_node t)) q.heap);
          free_place = suc q.free_place;
        },
        rw
            (store_next-ok q.tail (some q.free_place) (record { t = u; next = none })
              (write q.free_place (some (new_node t)) q.heap)
              (write-other q.free_place q.tail _ q.heap (λ d. omega arith) ∙ e))
            refl,
        (chain', omega (arith, length-append xs (t ∷ [])), omega arith),
      )

  -- The queue after a pop of the node at `b`.
  abbrev pub without_first : ℕ → Option ℕ → LockfreeMpscLinkQueue T → LockfreeMpscLinkQueue T
  without_first b n q = record q {
    cnt = (q.cnt + 4294967295) % cnt_bound;
    heap = write b none (write q.dummyhead (some (record { t = none; next = n })) q.heap);
  }

  pub pop_first :
      (rounds b : ℕ) (x : T) (n : Option ℕ) (q : LockfreeMpscLinkQueue T)
      → q.heap q.dummyhead ≡ some (record { t = none; next = some b })
      → q.heap b ≡ some (record { t = some x; next = n })
      → q.dummyhead ≢ b
      → (q.cnt == 0) ≡ false
      → pop (suc rounds) q ≡ ok (popped x (without_first b n q))
  unfolding pop pop_loop pop_round
  pop_first rounds b x n q ea eb d c =
      rw
        (
          pop,
          c,
          pop_loop,
          pop_round,
          ea,
          eb,
          store_next-ok q.dummyhead n _ q.heap ea,
          free-ok b x n _ (write-other q.dummyhead b _ q.heap d ∙ eb),
        )
        refl

  -- A pop from a queue that holds at least two values, and fewer than its counter can count,
  -- takes the oldest one in its first round, and the queue then holds the others.
  pub pop_takes_oldest :
      (rounds : ℕ) (x y : T) (xs : List T) (q : LockfreeMpscLinkQueue T)
      → Holds (x ∷ y ∷ xs) q
      → length (x ∷ y ∷ xs) < cnt_bound
      → (q' : LockfreeMpscLinkQueue T) × (pop (suc rounds) q ≡ ok (popped x q')) × Holds (y ∷ xs) q'
  pop_takes_oldest rounds x y xs q ((b, ea, ab, (c, eb, bc, rest)), n, f) small = (
    without_first b (some c) q,
    pop_first rounds b x (some c) q ea eb (λ d. omega arith) ground arith,
    (
      (
        c,
        write-other b q.dummyhead _
              (write q.dummyhead (some (record { t = none; next = some c })) q.heap)
              (λ d. omega arith)
            ∙ write-same q.dummyhead _ q.heap,
        omega arith,
        Chain-write c b q.tail (some y) xs _ _ bc
            (Chain-write c q.dummyhead q.tail (some y) xs q.heap _ (omega arith) rest),
      ),
      omega arith,
      f,
    ),
  )
