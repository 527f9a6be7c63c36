-- ===== src/PriorityChan/Queue.antt =====
-- priotity_async_mpsc_chan.rs: `PriorityQueue`, a queue for each priority in an ordered map.
use Prim.Native.Nat.{Ordering}
use pa_queue_and_chan.Prelude.{Bool, Option, none, some, [], ◌∷◌, Map, if◌then◌else◌, is_some}
use pa_queue_and_chan.External.PrioritySetting.{PrioritySetting}

module _ (S : PrioritySetting) where
  open S use {I, P, order as O, queues as Q}

  -- `BTreeMap<P,SegQueue<I>>`: entries in the order of their keys.
  abbrev pub Queues : Type 0
  Queues = Map P (Q.SegQueue I)

  -- `BTreeMap::get`
  unfoldable pub find : P → Queues → Option (Q.SegQueue I)
  find p [] = none
  find p ((j, q) ∷ m) = elim (O.cmp p j) [
    | Ordering.lt ↦ none
    | Ordering.eq ↦ some q
    | Ordering.gt ↦ find p m
  ]

  -- `BTreeMap::insert`; for a key that is there it replaces the value.
  unfoldable pub insert : P → Q.SegQueue I → Queues → Queues
  insert p q [] = (p, q) ∷ []
  insert p q ((j, r) ∷ m) = elim (O.cmp p j) [
    | Ordering.lt ↦ (p, q) ∷ (j, r) ∷ m
    | Ordering.eq ↦ (p, q) ∷ m
    | Ordering.gt ↦ (j, r) ∷ insert p q m
  ]

  -- `get(&p).unwrap().push(i)`, on the shared queue that the map holds; its callers have seen to it
  -- that the key is there
  unfoldable pub push_to : I → P → Queues → Queues
  push_to i p [] = []
  push_to i p ((j, q) ∷ m) = elim (O.cmp p j) [
    | Ordering.lt ↦ (j, q) ∷ m
    | Ordering.eq ↦ (j, Q.push i q) ∷ m
    | Ordering.gt ↦ (j, q) ∷ push_to i p m
  ]

  unfoldable pub contains_key : P → Queues → Bool
  unfolding find
  contains_key p m = is_some (find p m)

  -- `push` under the read lock: `none` if the priority has no queue yet, and the lock is let go.
  unfoldable pub push_read : I → P → Queues → Option Queues
  unfolding contains_key push_to
  push_read i p m = if contains_key p m then some (push_to i p m) else none

  -- The rest of `push` under the write lock.
  unfoldable pub push_write : I → P → Queues → Queues
  unfolding insert push_to
  push_write i p m = push_to i p (insert p Q.new m)

  unfoldable pub push : I → P → Queues → Queues
  unfolding push_read push_write
  push i p m = elim (push_read i p m) [ some m' ↦ m' | none ↦ push_write i p m ]

  -- The first queue that yields an item.
  unfoldable pub pop : Queues → Option (I × Queues)
  pop [] = none
  pop ((j, q) ∷ m) = elim (Q.pop q) [
    | some (i, q') ↦ some (i, (j, q') ∷ m)
    | none ↦ elim (pop m) [ some (i, m') ↦ some (i, (j, q) ∷ m') | none ↦ none ]
  ]
