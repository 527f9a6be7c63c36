-- ===== src/LockfreeQueue/Memory.antt =====
-- lockfree_link_queue.rs: `LockfreeMpscLinkQueue` and `Node`. A node is a place of a store; a freed
-- place stays empty, and a read or a write there is the fault `panic`.
use mathlib.Core.Logic.{ite}
use pa_queue_and_chan.Prelude.{
  ℕ, zero, suc, ◌+◌, ◌%◌, ◌^◌, true, false, Option, none, some, ◌==◌, Outcome, ok, ◌>>=◌, unwrap,
  ℕ_discrete,
}

-- The values of the counter, an `AtomicI32`, that wraps around.
abbrev pub cnt_bound : ℕ
cnt_bound = 2 ^ 32

pub record Node (T : Type 0) : Type 0 where
  pub t : Option T
  pub next : Option ℕ

pub record LockfreeMpscLinkQueue (T : Type 0) : Type 0 where
  pub dummyhead : ℕ
  pub tail : ℕ
  pub cnt : ℕ
  -- the live nodes, and the place of the next `Box`
  pub heap : ℕ → Option (Node T)
  pub free_place : ℕ

pub data PopResult (T : Type 0) : Type 0 where
  empty : PopResult T
  popped : T → LockfreeMpscLinkQueue T → PopResult T
  -- the rounds allowed have all gone on
  spins : PopResult T

abbrev pub write {ℓ} : {A : Type ℓ} → ℕ → A → (ℕ → A) → ℕ → A
write a x h b = ite (ℕ_discrete a b) x (h b)

module _ {T : Type 0} where
  unfoldable pub new_node : T → Node T
  new_node t = record { t = some t; next = none }

  unfoldable pub new_head : Node T
  new_head = record { t = none; next = none }

  unfoldable pub new : LockfreeMpscLinkQueue T
  unfolding new_head
  new = record {
    dummyhead = 0;
    tail = 0;
    cnt = 0;
    heap = write 0 (some new_head) (λ _. none);
    free_place = 1;
  }

  -- `(*a).next.store(n,Relaxed)`
  unfoldable pub store_next : ℕ → Option ℕ → (ℕ → Option (Node T)) → Outcome (ℕ → Option (Node T))
  store_next a n h = do node ← unwrap (h a); ok (write a (some (record node { next = n })) h)

  -- `Node::free`
  unfoldable pub free : ℕ → (ℕ → Option (Node T)) → Outcome (T × (ℕ → Option (Node T)))
  free a h = do node ← unwrap (h a); t ← unwrap node.t; ok (t, write a none h)

  -- `push`, whose loop repeats until the exchange of the tail succeeds.
  unfoldable pub push : T → LockfreeMpscLinkQueue T → Outcome (LockfreeMpscLinkQueue T)
  unfolding new_node store_next
  push t q = do
    let new = q.free_place
    let oldtail = q.tail
    heap ← store_next oldtail (some new) (write new (some (new_node t)) q.heap)
    ok (record q { tail = new; cnt = (q.cnt + 1) % cnt_bound; heap = heap; free_place = suc new })

  -- A round of the loop of `pop`; `none` is its `continue`.
  unfoldable pub pop_round :
      LockfreeMpscLinkQueue T → Outcome (Option (T × LockfreeMpscLinkQueue T))
  unfolding store_next free
  pop_round q = do
    dummy ← unwrap (q.heap q.dummyhead)
    elim dummy.next [
      | none ↦ ok none
      | some head ↦ do
        node ← unwrap (q.heap head)
        heap ← store_next q.dummyhead node.next q.heap
        freed ← free head heap
        ok (some (freed.0, record q { cnt = (q.cnt + 4294967295) % cnt_bound; heap = freed.1 }))
    ]

  -- The loop of `pop`, for a number of rounds.
  unfoldable pub pop_loop : ℕ → LockfreeMpscLinkQueue T → Outcome (PopResult T)
  unfolding pop_round
  pop_loop zero q = ok spins
  pop_loop (suc rounds) q = do
    r ← pop_round q
    elim r [ none ↦ pop_loop rounds q | some (t, q') ↦ ok (popped t q') ]

  unfoldable pub pop : ℕ → LockfreeMpscLinkQueue T → Outcome (PopResult T)
  unfolding pop_loop
  pop rounds q = elim (q.cnt == 0) [ true ↦ ok empty | false ↦ pop_loop rounds q ]

  -- `Drop for LockfreeMpscLinkQueue`: the store after it, with a bound on its rounds; `none` if that
  -- is met.
  unfoldable pub drop : ℕ → LockfreeMpscLinkQueue T → Outcome (Option (ℕ → Option (Node T)))
  unfolding free
  drop zero q = ok none
  drop (suc rounds) q = do
    head ← unwrap (q.heap q.dummyhead)
    elim head.t [
      | none ↦ ok (some q.heap)
      | some _ ↦ do
        freed ← free q.dummyhead q.heap
        next ← unwrap head.next
        drop rounds (record q { dummyhead = next; heap = freed.1 })
    ]
