-- ===== src/LockfreeQueue/Counter.antt =====
-- lockfree_link_queue.rs: the counter `cnt` when pushes and pops interleave.
use pa_queue_and_chan.Prelude.{
  ℕ, suc, ◌+◌, ◌<◌, ◌≤◌, ◌≡◌, inl, inr, refl, ap, arith, Bool, true, false, Option, none, some,
  List, [], ◌∷◌, ◌++◌, length, length-append, ok,
}
use pa_queue_and_chan.LockfreeQueue.Memory.{
  LockfreeMpscLinkQueue, Node, cnt_bound, new, store_next, free,
}
use pa_queue_and_chan.LockfreeQueue.Threads.{
  Pushing, exchanged, counted, exchange, add_cnt, link, Threads, Step, exchanges, counts, links,
  pops, discounts, unlink, sub_cnt, Reach, here, next,
}
use pa_queue_and_chan.LockfreeQueue.Joined.{Joined}
use pa_queue_and_chan.LockfreeQueue.Interleaved.{Fifo, Reach-Fifo}

-- The pushes under way that have not counted their value.
unfoldable pub uncounted : List Pushing → ℕ
uncounted [] = 0
uncounted (exchanged _ _ ∷ ps) = suc (uncounted ps)
uncounted (counted _ _ ∷ ps) = uncounted ps

-- What a pop under way has yet to count.
abbrev pub carried : Bool → ℕ
carried true = 1
carried false = 0

uncounted-append : (ps qs : List Pushing) → uncounted (ps ++ qs) ≡ uncounted ps + uncounted qs
unfolding uncounted
uncounted-append [] qs = omega arith
uncounted-append (exchanged _ _ ∷ ps) qs = omega (arith, uncounted-append ps qs)
uncounted-append (counted _ _ ∷ ps) qs = uncounted-append ps qs

module _ {T : Type 0} where
  -- No more pushes under way than values.
  Joined-uncounted :
      (h : ℕ → Option (Node T)) (a l : ℕ) (t : Option T) (xs : List T) (ps : List Pushing)
      → Joined h a t xs l ps
      → uncounted ps ≤ length xs
  unfolding uncounted
  Joined-uncounted h a l t [] ps (_, _, e) = omega (arith, ap uncounted e)
  Joined-uncounted h a l t (x ∷ xs) ps (b, _, inl (_, rest)) =
      omega (arith, Joined-uncounted h b l (some x) xs ps rest)
  Joined-uncounted h a l t (x ∷ xs) ps (b, _, inr (exchanged _ _, qs, e, _, _, rest)) =
      omega (arith, ap uncounted e, Joined-uncounted h b l (some x) xs qs rest)
  Joined-uncounted h a l t (x ∷ xs) ps (b, _, inr (counted _ _, qs, e, _, _, rest)) =
      omega (arith, ap uncounted e, Joined-uncounted h b l (some x) xs qs rest)

  link-cnt : (a b : ℕ) (q q' : LockfreeMpscLinkQueue T) → link a b q ≡ ok q' → q'.cnt ≡ q.cnt
  unfolding link store_next
  link-cnt a b q q' e = ground arith

  unlink-cnt :
      (t : T) (q q' : LockfreeMpscLinkQueue T) → unlink q ≡ ok (some (t, q')) → q'.cnt ≡ q.cnt
  unfolding unlink store_next free
  unlink-cnt t q q' e = ground arith

  abbrev Counts : Threads T → Type 0
  Counts s =
      (s.queue.cnt + uncounted s.pushing + length s.taken ≡ length s.pushed + carried s.popping)
      × (carried s.popping ≤ length s.taken)

  Step-Counts :
      (s s' : Threads T) → Step s s' → length s'.pushed < cnt_bound → Fifo s → Counts s → Counts s'
  unfolding exchange add_cnt link uncounted sub_cnt
  Step-Counts s _ (exchanges t) small (xs, e, _) (c, d) = (
    omega (
      arith,
      c,
      length-append s.pushed (t ∷ []),
      uncounted-append s.pushing (exchanged s.queue.tail s.queue.free_place ∷ []),
    ),
    d,
  )
  Step-Counts s _ (counts a b us vs eq) small (xs, e, _) (c, d) = (
    omega (
      arith,
      c,
      d,
      ap uncounted eq,
      uncounted-append us (exchanged a b ∷ vs),
      uncounted-append us (counted a b ∷ vs),
    ),
    d,
  )
  Step-Counts s _ (links a b us vs q eq h) small (xs, e, _) (c, d) = (
    omega (
      arith,
      c,
      ap uncounted eq,
      uncounted-append us (counted a b ∷ vs),
      uncounted-append us vs,
      link-cnt a b s.queue q h,
    ),
    d,
  )
  Step-Counts s _ (pops t b k u v q idle eb ec h) small (xs, e, _) (c, d) =
      let more = length-append s.taken (t ∷ []) in
      (omega (arith, c, more, unlink-cnt t s.queue q h, ap carried idle), omega (arith, more))
  Step-Counts s _ (discounts busy) small (xs, e, (j, _)) (c, d) = (
    omega (
      arith,
      c,
      ap carried busy,
      ap length e,
      length-append s.taken xs,
      Joined-uncounted s.queue.heap s.queue.dummyhead s.queue.tail none xs s.pushing j,
    ),
    omega arith,
  )

  Step-pushed : (s s' : Threads T) → Step s s' → length s.pushed ≤ length s'.pushed
  Step-pushed s _ (exchanges t) = omega (arith, length-append s.pushed (t ∷ []))
  Step-pushed s _ (counts _ _ _ _ _) = omega arith
  Step-pushed s _ (links _ _ _ _ _ _ _) = omega arith
  Step-pushed s _ (pops _ _ _ _ _ _ _ _ _ _) = omega arith
  Step-pushed s _ (discounts _) = omega arith

  Reach-Counts : {s : Threads T} → Reach s → length s.pushed < cnt_bound → Counts s
  unfolding new uncounted
  Reach-Counts here small = (refl, omega arith)
  Reach-Counts (next {s} {s'} r t) small =
      Step-Counts s s' t small (Reach-Fifo r) (Reach-Counts r (omega (arith, Step-pushed s s' t)))

  -- In every interleaving of pushes, in three steps each, and of pops of nodes behind which another
  -- one is linked, each in two steps, the freeing of the node and the `fetch_sub`, as long as fewer
  -- than 2^32 values are pushed: the counter, with the values that their pushes have not counted
  -- yet, is the number of the values in the queue, and one more while a pop is between its steps.
  pub counter_exact :
      (s : Threads T)
      → Reach s
      → length s.pushed < cnt_bound
      → (xs : List T) × (s.pushed ≡ s.taken ++ xs)
        × (s.queue.cnt + uncounted s.pushing ≡ length xs + carried s.popping)
  counter_exact s r small =
      let (xs, e, _) = Reach-Fifo r in
      (xs, e, omega (arith, (Reach-Counts r small).0, ap length e, length-append s.taken xs))
