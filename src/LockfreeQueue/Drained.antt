-- ===== src/LockfreeQueue/Drained.antt =====
-- lockfree_link_queue.rs, its test: values are pushed, and a loop pops until the queue is empty.
use pa_queue_and_chan.Prelude.{
  ℕ, zero, suc, ◌+◌, ◌<◌, ◌≡◌, refl, sym, subst, arith, Option, none, some, List, [], ◌∷◌, ◌++◌,
  length, append-nil, append_assoc, length-append, Outcome, ok, ◌>>=◌,
}
use pa_queue_and_chan.LockfreeQueue.Memory.{
  LockfreeMpscLinkQueue, cnt_bound, empty, popped, spins, new, push, pop,
}
use pa_queue_and_chan.LockfreeQueue.Shape.{Holds}
use pa_queue_and_chan.LockfreeQueue.Fifo.{new-Holds, push_appends, pop_takes_oldest}
use pa_queue_and_chan.LockfreeQueue.Dangling.{pop_none, last_pop_dangles}

module _ {T : Type 0} where
  unfoldable pub push_all : List T → LockfreeMpscLinkQueue T → Outcome (LockfreeMpscLinkQueue T)
  push_all [] q = ok q
  push_all (x ∷ xs) q = push x q >>= λ q'. push_all xs q'

  -- `vec.push(v)`, in front of what the loop pops after it
  unfoldable pub pushed : T → Option (List T) → Option (List T)
  pushed t none = none
  pushed t (some xs) = some (t ∷ xs)

  -- The loop of the test, for a number of passes; `none` if they do not suffice.
  unfoldable pub drain : ℕ → ℕ → LockfreeMpscLinkQueue T → Outcome (Option (List T))
  unfolding pushed
  drain zero rounds q = ok none
  drain (suc passes) rounds q = do
    r ← pop rounds q
    elim r [
      | empty ↦ ok (some [])
      | popped t q' ↦ drain passes rounds q' >>= λ xs. ok (pushed t xs)
      | spins ↦ ok none
    ]

  -- The test, when the pushes all come before the loop.
  unfoldable pub test : ℕ → ℕ → List T → Outcome (Option (List T))
  unfolding push_all drain
  test passes rounds xs = push_all xs new >>= λ q. drain passes rounds q

  push_all-Holds :
      (ys xs : List T) (q : LockfreeMpscLinkQueue T)
      → Holds xs q
      → length xs + length ys < cnt_bound
      → (q' : LockfreeMpscLinkQueue T) × (push_all ys q ≡ ok q') × Holds (xs ++ ys) q'
  unfolding push_all
  push_all-Holds [] xs q h b = (q, refl, subst (λ zs. Holds zs q) (sym (append-nil xs)) h)
  push_all-Holds (y ∷ ys) xs q h b =
      let (q1, e1, h1) = push_appends y xs q h (omega arith) in
      let (q2, e2, h2) =
        push_all-Holds ys (xs ++ y ∷ []) q1 h1 (rw (length-append xs (y ∷ [])) (omega arith)) in
      (q2, rw (e1, push_all) e2, rw (append_assoc) at h2)

  drain-empty :
      (passes rounds : ℕ) (q : LockfreeMpscLinkQueue T)
      → pop rounds q ≡ ok empty
      → drain (suc passes) rounds q ≡ ok (some [])
  unfolding drain
  drain-empty passes rounds q e = rw (e, drain)

  drain-popped :
      (passes rounds : ℕ) (t : T) (xs : List T) (q q' : LockfreeMpscLinkQueue T)
      → pop rounds q ≡ ok (popped t q')
      → drain passes rounds q' ≡ ok (some xs)
      → drain (suc passes) rounds q ≡ ok (some (t ∷ xs))
  unfolding drain pushed
  drain-popped passes rounds t xs q q' e f = rw (e, drain) (rw f)

  drain-Holds :
      (rounds : ℕ) (xs : List T) (q : LockfreeMpscLinkQueue T)
      → Holds xs q
      → length xs < cnt_bound
      → drain (suc (length xs)) (suc rounds) q ≡ ok (some xs)
  drain-Holds rounds [] q (c, n, f) b = drain-empty 0 (suc rounds) q (pop_none (suc rounds) q n)
  drain-Holds rounds (x ∷ []) q h b =
      let (q', e, d, _) = last_pop_dangles rounds x q h in
      drain-popped 1 (suc rounds) x [] q q' e (drain-empty 0 (suc rounds) q' (d (suc rounds)))
  drain-Holds rounds (x ∷ y ∷ xs) q h b =
      let (q', e, k) = pop_takes_oldest rounds x y xs q h b in
      drain-popped (suc (length (y ∷ xs))) (suc rounds) x (y ∷ xs) q q' e
        (drain-Holds rounds (y ∷ xs) q' k (omega arith))

  -- Fewer than 2^32 values that are pushed before the first pop are popped by a loop in their
  -- order, until it finds the queue empty: no operation faults, the loop ends after as many passes
  -- as there are values and one more, and one round is enough for each pop.
  pub drains_all :
      (rounds : ℕ) (xs : List T)
      → length xs < cnt_bound
      → test (suc (length xs)) (suc rounds) xs ≡ ok (some xs)
  unfolding test
  drains_all rounds xs b =
      let (q, e, h) = push_all-Holds xs [] new new-Holds (omega arith) in
      rw (e, test) (drain-Holds rounds xs q h b)
