-- ===== src/LockfreeQueue/Replay.antt =====
-- lockfree_link_queue.rs: a run of `push` and `pop` against a queue that is a list.
use pa_queue_and_chan.Prelude.{
  ℕ, suc, ◌+◌, ◌<◌, ◌≡◌, refl, arith, Bool, true, false, Option, none, some, List, [], ◌∷◌, ◌++◌,
  length, length-append, Outcome, ok, panic, ◌>>=◌,
}
use pa_queue_and_chan.LockfreeQueue.Memory.{
  LockfreeMpscLinkQueue, PopResult, cnt_bound, empty, popped, spins, push, pop,
}
use pa_queue_and_chan.LockfreeQueue.Shape.{Holds}
use pa_queue_and_chan.LockfreeQueue.Fifo.{push_appends, pop_takes_oldest}
use pa_queue_and_chan.LockfreeQueue.Dangling.{pop_none}

pub data Op (T : Type 0) : Type 0 where
  push_op : T → Op T
  pop_op : Op T

module _ {T : Type 0} where
  -- The queue after a `pop`, and what it returned; the loop of `pop` that never ends is a `panic`.
  unfoldable pub after_pop :
      PopResult T → LockfreeMpscLinkQueue T → Outcome (Option T × LockfreeMpscLinkQueue T)
  after_pop empty q = ok (none, q)
  after_pop (popped t q') q = ok (some t, q')
  after_pop spins q = panic

  -- The operations on the queue, each `pop` given `rounds`, and the values that the pops return.
  unfoldable pub run :
      ℕ
      → List (Op T)
      → LockfreeMpscLinkQueue T
      → Outcome (List (Option T) × LockfreeMpscLinkQueue T)
  unfolding after_pop
  run rounds [] q = ok ([], q)
  run rounds (push_op t ∷ ops) q = do q' ← push t q; run rounds ops q'
  run rounds (pop_op ∷ ops) q = do
    r ← pop rounds q
    after ← after_pop r q
    rest ← run rounds ops after.1
    ok (after.0 ∷ rest.0, rest.1)

  -- The same operations on a list of values.
  unfoldable pub replay : List (Op T) → List T → List (Option T) × List T
  replay [] xs = ([], xs)
  replay (push_op t ∷ ops) xs = replay ops (xs ++ t ∷ [])
  replay (pop_op ∷ ops) [] = let rest = replay ops [] in (none ∷ rest.0, rest.1)
  replay (pop_op ∷ ops) (x ∷ xs) = let rest = replay ops xs in (some x ∷ rest.0, rest.1)

  -- No `pop` takes the only value of the list.
  unfoldable pub keeps_one : List (Op T) → List T → Bool
  keeps_one [] xs = true
  keeps_one (push_op t ∷ ops) xs = keeps_one ops (xs ++ t ∷ [])
  keeps_one (pop_op ∷ ops) [] = keeps_one ops []
  keeps_one (pop_op ∷ ops) (x ∷ []) = false
  keeps_one (pop_op ∷ ops) (x ∷ y ∷ xs) = keeps_one ops (y ∷ xs)

  -- A run of pushes and pops, of which none takes the only value of the queue, and in which the
  -- counter does not wrap around, returns what the same operations on a list return, and leaves
  -- the queue with the values of that list; no operation faults, and one round is enough for each
  -- pop.
  pub run_replays :
      (rounds : ℕ) (ops : List (Op T)) (xs : List T) (q : LockfreeMpscLinkQueue T)
      → Holds xs q
      → keeps_one ops xs ≡ true
      → length xs + length ops < cnt_bound
      → (q' : LockfreeMpscLinkQueue T) × (run (suc rounds) ops q ≡ ok ((replay ops xs).0, q'))
        × Holds ((replay ops xs).1) q'
  unfolding run replay keeps_one after_pop
  run_replays rounds [] xs q h keeps small = (q, refl, h)
  run_replays rounds (push_op t ∷ ops) xs q h keeps small =
      let (q1, e, h1) = push_appends t xs q h (omega arith) in
      let (q', r, h') =
        run_replays rounds ops (xs ++ t ∷ []) q1 h1 keeps
          (omega (arith, length-append xs (t ∷ []))) in
      (q', rw (e) r, h')
  run_replays rounds (pop_op ∷ ops) [] q h keeps small =
      let (q', r, h') = run_replays rounds ops [] q h keeps (omega arith) in
      (q', rw (pop_none (suc rounds) q h.1, r) refl, h')
  run_replays rounds (pop_op ∷ ops) (x ∷ []) q h keeps small = ground arith
  run_replays rounds (pop_op ∷ ops) (x ∷ y ∷ xs) q h keeps small =
      let (q1, e, h1) = pop_takes_oldest rounds x y xs q h (omega arith) in
      let (q', r, h') = run_replays rounds ops (y ∷ xs) q1 h1 keeps (omega arith) in
      (q', rw (e, r) refl, h')
