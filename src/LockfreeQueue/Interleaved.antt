-- ===== src/LockfreeQueue/Interleaved.antt =====
-- lockfree_link_queue.rs: the order of the values when pushes and pops interleave.
use pa_queue_and_chan.Prelude.{
  ℕ, ◌<◌, ◌≡◌, ◌≢◌, inl, inr, refl, sym, ap, subst, arith, Option, none, some, List, [], ◌∷◌, ◌++◌,
  append_assoc, ok, ◌∙◌, ℕ_discrete,
}
use pa_queue_and_chan.LockfreeQueue.Memory.{
  LockfreeMpscLinkQueue, write, new, new_node, new_head, pop_round, push,
}
use pa_queue_and_chan.LockfreeQueue.Shape.{Chain, write-other, write-same}
use pa_queue_and_chan.LockfreeQueue.Fifo.{store_next-ok, free-ok, without_first}
use pa_queue_and_chan.LockfreeQueue.Threads.{
  Pushing, exchanged, counted, exchange, add_cnt, link, Threads, Step, exchanges, counts, links,
  pops, discounts, unlink, sub_cnt, Reach, here, next,
}
use pa_queue_and_chan.LockfreeQueue.Joined.{
  Joined, Joined-write, Joined-Chain, Joined-snoc, Joined-replace, Joined-link,
}

module _ {T : Type 0} where
  -- A push with no access of another thread between its own is its exchange, its count and its
  -- link, one after the other.
  pub push_in_steps :
      (t : T) (q : LockfreeMpscLinkQueue T)
      → push t q ≡ link q.tail q.free_place (add_cnt (exchange t q).0)
  unfolding push link add_cnt exchange
  push_in_steps t q = refl

  -- The queue holds `xs` while the pushes `ps` are under way.
  abbrev pub Holding : List T → List Pushing → LockfreeMpscLinkQueue T → Type 0
  Holding xs ps q = Joined q.heap q.dummyhead none xs q.tail ps × (q.tail < q.free_place)

  abbrev pub Fifo : Threads T → Type 0
  Fifo s = (xs : List T) × (s.pushed ≡ s.taken ++ xs) × Holding xs s.pushing s.queue

  pub pop_round-first :
      (b : ℕ) (x : T) (n : Option ℕ) (q : LockfreeMpscLinkQueue T)
      → q.heap q.dummyhead ≡ some (record { t = none; next = some b })
      → q.heap b ≡ some (record { t = some x; next = n })
      → q.dummyhead ≢ b
      → pop_round q ≡ ok (some (x, without_first b n q))
  unfolding pop_round
  pop_round-first b x n q ea eb d =
      rw
        (
          pop_round,
          ea,
          eb,
          store_next-ok q.dummyhead n _ q.heap ea,
          free-ok b x n _ (write-other q.dummyhead b _ q.heap d ∙ eb),
        )
        refl

  -- The queue when a pop has freed the node at `b`.
  abbrev unlinked : ℕ → Option ℕ → LockfreeMpscLinkQueue T → LockfreeMpscLinkQueue T
  unlinked b n q = record q {
    heap = write b none (write q.dummyhead (some (record { t = none; next = n })) q.heap);
  }

  -- A round of `pop` with no access of another thread between its own is its two steps.
  pub pop_in_steps :
      (b : ℕ) (x : T) (n : Option ℕ) (q : LockfreeMpscLinkQueue T)
      → q.heap q.dummyhead ≡ some (record { t = none; next = some b })
      → q.heap b ≡ some (record { t = some x; next = n })
      → q.dummyhead ≢ b
      → (unlink q ≡ ok (some (x, unlinked b n q)))
        × (pop_round q ≡ ok (some (x, sub_cnt (unlinked b n q))))
  unfolding unlink sub_cnt
  pop_in_steps b x n q ea eb d = (
    rw
        (
          unlink,
          ea,
          eb,
          store_next-ok q.dummyhead n _ q.heap ea,
          free-ok b x n _ (write-other q.dummyhead b _ q.heap d ∙ eb),
        )
        refl,
    pop_round-first b x n q ea eb d,
  )

  -- A pop of a node that is linked to another one.
  Holding-pop :
      (xs : List T) (ps : List Pushing) (q q' : LockfreeMpscLinkQueue T) (b c : ℕ) (t : T)
      (u v : Option T)
      → Holding xs ps q
      → q.heap q.dummyhead ≡ some (record { t = u; next = some b })
      → q.heap b ≡ some (record { t = v; next = some c })
      → unlink q ≡ ok (some (t, q'))
      → (ys : List T) × (xs ≡ t ∷ ys) × Holding ys ps q'
  Holding-pop [] ps q q' b c t u v ((h, _, _), _) eb ec e = ground arith
  Holding-pop (x ∷ xs) ps q q' b c t u v ((_, _, inr (_, _, _, _, h, _)), _) eb ec e = ground arith
  Holding-pop (x ∷ []) ps q q' b c t u v ((b', _, inl (h, (h', _, _))), _) eb ec e = ground arith
  Holding-pop (x ∷ y ∷ xs) ps q q' b c t u v ((b', _, inl (h, (_, _, inr (_, _, _, _, h', _)))), _)
        eb ec e =
      ground arith
  Holding-pop (x ∷ y ∷ xs) ps q q' b c t u v ((b', ab, inl (h, (c', bc, inl (h', rest)))), f) eb ec
        e =
      let same : ◌≡◌ {A = T × LockfreeMpscLinkQueue T} (x, unlinked b' (some c') q) (t, q') =
        ground (arith, (pop_in_steps b' x (some c') q h h' (λ d. omega arith)).0) in
      (
        y ∷ xs,
        ap (λ r. r.0 ∷ y ∷ xs) same,
        subst (λ r. Holding (y ∷ xs) ps r.1) same
            (
              (
                c',
                omega arith,
                inl (
                  write-other b' q.dummyhead _
                        (write q.dummyhead (some (record { t = none; next = some c' })) q.heap)
                        (λ d. omega arith)
                      ∙ write-same q.dummyhead _ q.heap,
                  Joined-write c' b' q.tail (some y) xs ps _ _ bc (
                      Joined-write c' q.dummyhead q.tail (some y) xs ps q.heap _ (omega arith)
                        rest),
                ),
              ),
              f,
            ),
      )

  pub link-ok :
      (a b : ℕ) (u : Option T) (q : LockfreeMpscLinkQueue T)
      → q.heap a ≡ some (record { t = u; next = none })
      → link a b q
        ≡ ok (record q { heap = write a (some (record { t = u; next = some b })) q.heap })
  unfolding link
  link-ok a b u q e = rw (store_next-ok a (some b) (record { t = u; next = none }) q.heap e) refl

  Step-Fifo : (s s' : Threads T) → Step s s' → Fifo s → Fifo s'
  unfolding exchange add_cnt link new_node sub_cnt
  Step-Fifo s _ (exchanges t) (xs, e, (j, f)) = (
    xs ++ t ∷ [],
    ap (λ ys. ys ++ t ∷ []) e ∙ append_assoc s.taken xs (t ∷ []),
    (
      (Joined-snoc s.queue.dummyhead s.queue.tail s.queue.free_place none xs t s.pushing
          s.queue.heap f j).1,
      omega arith,
    ),
  )
  Step-Fifo s _ (counts a b us vs eq) (xs, e, (j, f)) = (
    xs,
    e,
    (
      Joined-replace s.queue.dummyhead s.queue.tail none xs s.pushing (exchanged a b) (counted a b)
          us vs s.queue.heap refl eq j,
      f,
    ),
  )
  Step-Fifo s _ (links a b us vs q eq h) (xs, e, (j, f)) =
      let (u, ea, _, j') =
        Joined-link s.queue.dummyhead s.queue.tail none xs s.pushing (counted a b) a b us vs
          s.queue.heap refl eq j in
      let linked : ◌≡◌ {A = LockfreeMpscLinkQueue T}
          (record s.queue { heap = write a (some (record { t = u; next = some b })) s.queue.heap })
          q =
        ground (arith, link-ok a b u s.queue ea) in
      (xs, e, subst (Holding xs (us ++ vs)) linked (j', f))
  Step-Fifo s _ (pops t b c u v q idle eb ec h) (xs, e, hold) =
      let (ys, eq, hold') = Holding-pop xs s.pushing s.queue q b c t u v hold eb ec h in
      (ys, e ∙ ap (λ zs. s.taken ++ zs) eq ∙ sym (append_assoc s.taken (t ∷ []) ys), hold')
  Step-Fifo s _ (discounts busy) (xs, e, hold) = (xs, e, hold)

  pub Reach-Fifo : {s : Threads T} → Reach s → Fifo s
  unfolding new new_head ℕ_discrete
  Reach-Fifo here = ([], refl, ((refl, refl, refl), omega arith))
  Reach-Fifo (next {s} {s'} r t) = Step-Fifo s s' t (Reach-Fifo r)

  -- In every interleaving of pushes, and of pops that take a node with a linked node behind it,
  -- the values taken so far and then those in the queue are the pushed values in the order of the
  -- exchanges; when no push is under way, they are linked from the dummy node to the tail.
  pub values_in_order :
      (s : Threads T)
      → Reach s
      → (xs : List T) × (s.pushed ≡ s.taken ++ xs)
        × (s.pushing ≡ [] → Chain s.queue.heap s.queue.dummyhead none xs s.queue.tail)
  values_in_order s r =
      let (xs, e, (j, _)) = Reach-Fifo r in
      (
        xs,
        e,
        (λ quiet.
            Joined-Chain s.queue.dummyhead s.queue.tail none xs s.queue.heap
              (subst (Joined s.queue.heap s.queue.dummyhead none xs s.queue.tail) quiet j)),
      )

  -- In every interleaving, a push that has counted its value finds the node that it is to link.
  pub link_succeeds :
      (s : Threads T) (a b : ℕ) (us vs : List Pushing)
      → Reach s
      → s.pushing ≡ us ++ counted a b ∷ vs
      → (q : LockfreeMpscLinkQueue T) × (link a b s.queue ≡ ok q)
  link_succeeds s a b us vs r eq =
      let (xs, _, (j, _)) = Reach-Fifo r in
      let (u, ea, _, _) =
        Joined-link s.queue.dummyhead s.queue.tail none xs s.pushing (counted a b) a b us vs
          s.queue.heap refl eq j in
      (_, link-ok a b u s.queue ea)
