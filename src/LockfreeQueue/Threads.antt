-- ===== src/LockfreeQueue/Threads.antt =====
-- lockfree_link_queue.rs: `push` by several threads at once, one atomic access a step, and `pop` by
-- one thread, in two steps.
use pa_queue_and_chan.Prelude.{
  ℕ, suc, ◌+◌, ◌%◌, ◌≡◌, Option, some, List, [], ◌∷◌, ◌++◌, Outcome, ok, ◌>>=◌, unwrap, Bool, true,
  false, none,
}
use pa_queue_and_chan.LockfreeQueue.Memory.{
  LockfreeMpscLinkQueue, cnt_bound, write, new, new_node, store_next, free,
}

-- A `push` after its exchange of the tail: `oldtail` and `new`, before and after `cnt.fetch_add`.
pub data Pushing : Type 0 where
  exchanged : ℕ → ℕ → Pushing
  counted : ℕ → ℕ → Pushing

-- The queue and the pushes under way; with the values whose exchange is done, in its order, and
-- the values popped.
pub record Threads (T : Type 0) : Type 0 where
  pub queue : LockfreeMpscLinkQueue T
  pub pushing : List Pushing
  -- the one consumer has freed its node and not yet come to `cnt.fetch_sub`
  pub popping : Bool
  pub pushed : List T
  pub taken : List T

module _ {T : Type 0} where
  -- `Node::new` and a successful exchange of the tail.
  unfoldable pub exchange : T → LockfreeMpscLinkQueue T → LockfreeMpscLinkQueue T × Pushing
  unfolding new_node
  exchange t q = (
    record q {
      tail = q.free_place;
      heap = write q.free_place (some (new_node t)) q.heap;
      free_place = suc q.free_place;
    },
    exchanged q.tail q.free_place,
  )

  -- `cnt.fetch_add(1,Release)`
  unfoldable pub add_cnt : LockfreeMpscLinkQueue T → LockfreeMpscLinkQueue T
  add_cnt q = record q { cnt = (q.cnt + 1) % cnt_bound }

  -- `(*oldtail).next.store(new,Relaxed)`
  unfoldable pub link : ℕ → ℕ → LockfreeMpscLinkQueue T → Outcome (LockfreeMpscLinkQueue T)
  unfolding store_next
  link oldtail new q = do heap ← store_next oldtail (some new) q.heap; ok (record q { heap = heap })

  -- A round of `pop` up to its `Node::free`.
  unfoldable pub unlink : LockfreeMpscLinkQueue T → Outcome (Option (T × LockfreeMpscLinkQueue T))
  unfolding store_next free
  unlink q = do
    dummy ← unwrap (q.heap q.dummyhead)
    elim dummy.next [
      | none ↦ ok none
      | some head ↦ do
        node ← unwrap (q.heap head)
        heap ← store_next q.dummyhead node.next q.heap
        freed ← free head heap
        ok (some (freed.0, record q { heap = freed.1 }))
    ]

  -- `cnt.fetch_sub(1,Release)`
  unfoldable pub sub_cnt : LockfreeMpscLinkQueue T → LockfreeMpscLinkQueue T
  sub_cnt q = record q { cnt = (q.cnt + 4294967295) % cnt_bound }

  pub data Step (s : Threads T) : Threads T → Type 0 where
    exchanges :
        (t : T)
        → Step s (record s {
          queue = (exchange t s.queue).0;
          pushing = s.pushing ++ (exchange t s.queue).1 ∷ [];
          pushed = s.pushed ++ t ∷ [];
        })
    counts :
        (a b : ℕ) (xs ys : List Pushing)
        → s.pushing ≡ xs ++ exchanged a b ∷ ys
        → Step s (record s { queue = add_cnt s.queue; pushing = xs ++ counted a b ∷ ys })
    links :
        (a b : ℕ) (xs ys : List Pushing) (q : LockfreeMpscLinkQueue T)
        → s.pushing ≡ xs ++ counted a b ∷ ys
        → link a b s.queue ≡ ok q
        → Step s (record s { queue = q; pushing = xs ++ ys })
    -- `pop` takes a node; only for one whose next node is linked to it. Its loads and its store
    -- are one step, since no other thread then changes what they read.
    pops :
        (t : T) (b c : ℕ) (u v : Option T) (q : LockfreeMpscLinkQueue T)
        → s.popping ≡ false
        → s.queue.heap s.queue.dummyhead ≡ some (record { t = u; next = some b })
        → s.queue.heap b ≡ some (record { t = v; next = some c })
        → unlink s.queue ≡ ok (some (t, q))
        → Step s (record s { queue = q; popping = true; taken = s.taken ++ t ∷ [] })
    discounts : s.popping ≡ true → Step s (record s { queue = sub_cnt s.queue; popping = false })

  pub data Reach : Threads T → Type 0 where
    here : Reach (record { queue = new; pushing = []; popping = false; pushed = []; taken = [] })
    next : {s s' : Threads T} → Reach s → Step s s' → Reach s'
