-- ===== src/LockfreeQueue/Overtaken.antt =====
-- lockfree_link_queue.rs: a pop that takes the node behind which a push links its own.
use pa_queue_and_chan.Prelude.{
  ℕ, ◌<◌, ◌≡◌, inl, inr, refl, sym, ap, arith, Option, none, some, List, [], ◌∷◌, ◌++◌, ok, panic,
  ◌∙◌,
}
use pa_queue_and_chan.LockfreeQueue.Memory.{
  Node, LockfreeMpscLinkQueue, write, store_next, pop_round,
}
use pa_queue_and_chan.LockfreeQueue.Shape.{write-same}
use pa_queue_and_chan.LockfreeQueue.Fifo.{without_first}
use pa_queue_and_chan.LockfreeQueue.Threads.{Pushing, counted, link, Threads, Reach}
use pa_queue_and_chan.LockfreeQueue.Joined.{Joined, Joined-link}
use pa_queue_and_chan.LockfreeQueue.Interleaved.{Reach-Fifo, pop_round-first}

module _ {T : Type 0} where
  node_value :
      (h : ℕ → Option (Node T)) (a l : ℕ) (t u : Option T) (n : Option ℕ) (xs : List T)
      (ps : List Pushing)
      → h a ≡ some (record { t = u; next = n })
      → Joined h a t xs l ps
      → u ≡ t
  node_value h a l t u n [] ps e (e', _, _) = ground arith
  node_value h a l t u n (x ∷ xs) ps e (_, _, inl (e', _)) = ground arith
  node_value h a l t u n (x ∷ xs) ps e (_, _, inr (_, _, _, _, e', _)) = ground arith

  first_value :
      (h : ℕ → Option (Node T)) (a b l : ℕ) (u : Option T) (n : Option ℕ) (xs : List T)
      (ps : List Pushing)
      → h a ≡ some (record { t = none; next = some b })
      → h b ≡ some (record { t = u; next = n })
      → Joined h a none xs l ps
      → (x : T) × (u ≡ some x) × (a < b)
  first_value h a b l u n [] ps ea eb (e, _, _) = ground arith
  first_value h a b l u n (x ∷ xs) ps ea eb (_, _, inr (_, _, _, _, e, _)) = ground arith
  first_value h a b l u n (x ∷ xs) ps ea eb (b', lt, inl (e, rest)) =
      let same : b ≡ b' = ground arith in
      (x, node_value h b' l (some x) u n xs ps (ap h (sym same) ∙ eb) rest, omega (arith, same))

  link-freed : (a b : ℕ) (q : LockfreeMpscLinkQueue T) → link a b (without_first a none q) ≡ panic
  unfolding link store_next
  link-freed a b q =
      rw (write-same a none (write q.dummyhead (some (record { t = none; next = none })) q.heap))
        refl

  -- When the oldest value is the one behind which a push is about to link its own, a pop takes it
  -- at once and frees its node, and the push then writes to freed memory.
  pub pop_before_link :
      (s : Threads T) (a b : ℕ) (us vs : List Pushing)
      → Reach s
      → s.pushing ≡ us ++ counted a b ∷ vs
      → s.queue.heap s.queue.dummyhead ≡ some (record { t = none; next = some a })
      → (x : T) × (q : LockfreeMpscLinkQueue T) × (pop_round s.queue ≡ ok (some (x, q)))
        × (link a b q ≡ panic)
  pop_before_link s a b us vs r eq ed =
      let (xs, _, (j, _)) = Reach-Fifo r in
      let (u, ea, _, _) =
        Joined-link s.queue.dummyhead s.queue.tail none xs s.pushing (counted a b) a b us vs
          s.queue.heap refl eq j in
      let (x, eu, lt) =
        first_value s.queue.heap s.queue.dummyhead a s.queue.tail u none xs s.pushing ed ea j in
      (
        x,
        without_first a none s.queue,
        pop_round-first a x none s.queue ed (ea ∙ ap (λ v. some (record { t = v; next = none })) eu)
            (λ d. omega arith),
        link-freed a b s.queue,
      )
