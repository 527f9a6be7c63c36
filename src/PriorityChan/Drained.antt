-- ===== src/PriorityChan/Drained.antt =====
-- priotity_async_mpsc_chan.rs, its tests: all items are sent, then all are received.
use pa_queue_and_chan.Prelude.{
  ℕ, zero, suc, ◌≡◌, refl, ap, ◌∙◌, inl, inr, false, Option, none, some, List, [], ◌∷◌, length,
  arith,
}
use pa_queue_and_chan.External.PrioritySetting.{PrioritySetting}
use pa_queue_and_chan.PriorityChan.Queue.{push}
use pa_queue_and_chan.PriorityChan.Items.{IsOrdered, items, push_inserts}
use pa_queue_and_chan.PriorityChan.Ordered.{push-IsOrdered, pop_takes_first}
use pa_queue_and_chan.PriorityChan.Chan.{
  PriorityChan, SendResult, sent, closed, Poll, ready, pending, new, send_sync, recv,
}
use pa_queue_and_chan.PriorityChan.Ending.{recv-item}
use pa_queue_and_chan.PriorityChan.Sorting.{
  IsSorted, of_priority, sort_into, sort_into-IsSorted, of_priority-sort_into, length-sort_into,
}

module _ (S : PrioritySetting) where
  open S use {I, P, wakers as W}

  -- The channel after a send that succeeds, and what a receive yields at its first poll.
  unfoldable pub unwrap_sent :
      SendResult × PriorityChan S × Option W.Waker → Option (PriorityChan S)
  unwrap_sent (sent, c, w) = some c
  unwrap_sent (closed, c, w) = none

  unfoldable pub unwrap_ready : Poll S × PriorityChan S → Option (I × PriorityChan S)
  unwrap_ready (ready (some i), c) = some (i, c)
  unwrap_ready (ready none, c) = none
  unwrap_ready (pending, c) = none

  -- The sends of a test, each with its `unwrap`, and the receives.
  unfoldable pub send_all : List (P × I) → PriorityChan S → Option (PriorityChan S)
  unfolding unwrap_sent
  send_all [] c = some c
  send_all ((p, i) ∷ xs) c = elim (unwrap_sent (send_sync S i p c)) [
    | some c' ↦ send_all xs c'
    | none ↦ none
  ]

  unfoldable pub recv_all : W.Waker → ℕ → PriorityChan S → Option (List I)
  unfolding unwrap_ready
  recv_all t zero c = some []
  recv_all t (suc n) c = elim (unwrap_ready (recv S t c)) [
    | some (i, c') ↦ elim (recv_all t n c') [ some is ↦ some (i ∷ is) | none ↦ none ]
    | none ↦ none
  ]

  unfoldable pub recv_sent : W.Waker → ℕ → Option (PriorityChan S) → Option (List I)
  unfolding recv_all
  recv_sent t n none = none
  recv_sent t n (some c) = recv_all t n c

  -- `test_basic` and `test_sleep` for any items and priorities: the values in the order in which
  -- they are received.
  unfoldable pub test_order : W.Waker → List (P × I) → Option (List I)
  unfolding send_all recv_sent
  test_order t xs = recv_sent t (length xs) (send_all xs (new S))

  abbrev pub values : List (P × I) → List I
  values [] = []
  values ((p, i) ∷ xs) = i ∷ values xs

  recv_all-items :
      (t : W.Waker) (n : ℕ) (c : PriorityChan S)
      → length (items S c.queue) ≡ n
      → recv_all t n c ≡ some (values (items S c.queue))
  unfolding recv_all unwrap_ready
  recv_all-items t zero c h = elim (pop_takes_first S c.queue) [
    | inl (e, pe) ↦ rw e
    | inr (q, j, m, e, pe) ↦
        let k : suc (length (items S m)) ≡ 0 = rw e at h in absurd (omega arith)
  ]
  recv_all-items t (suc n) c h = elim (pop_takes_first S c.queue) [
    | inl (e, pe) ↦ let k : 0 ≡ suc n = rw e at h in absurd (omega arith)
    | inr (q, j, m, e, pe) ↦
        let g : suc (length (items S m)) ≡ suc n = rw e at h in
        let k = recv_all-items t n (record c { queue = m }) (omega arith) in
        rw (e, recv-item S t c j m pe, recv_all, unwrap_ready) (rw (k, recv_all))
  ]

  abbrev Sends : List (P × I) → PriorityChan S → Type 0
  Sends xs c =
      (d : PriorityChan S) × (send_all xs c ≡ some d)
      × (items S d.queue ≡ sort_into S xs (items S c.queue))

  unwrap_sent-open :
      (i : I) (p : P) (c : PriorityChan S)
      → c.end_flag ≡ false
      → unwrap_sent (send_sync S i p c)
        ≡ some (record c { queue = push S i p c.queue; waker = (W.wake c.waker).0 })
  unfolding send_sync unwrap_sent
  unwrap_sent-open i p c h = rw h

  send_all-items :
      (xs : List (P × I)) (c : PriorityChan S)
      → IsOrdered S c.queue
      → c.end_flag ≡ false
      → Sends xs c
  unfolding send_all sort_into
  send_all-items [] c o h = (c, refl, refl)
  send_all-items ((p, i) ∷ xs) c o h =
      let c' = record c { queue = push S i p c.queue; waker = (W.wake c.waker).0 } in
      let (d, e, f) = send_all-items xs c' (push-IsOrdered S i p c.queue o) h in
      (
        d,
        rw (unwrap_sent-open i p c h, send_all) e,
        f ∙ ap (sort_into S xs) (push_inserts S i p c.queue o),
      )

  -- When all sends come before the receives, each send succeeds, each receive yields a value at its
  -- first poll, and the values come with the more urgent before the less urgent ones, those of
  -- one priority in the order in which they were sent.
  pub receives_in_order :
      (t : W.Waker) (xs : List (P × I))
      → (ys : List (P × I)) × (test_order t xs ≡ some (values ys))
        × IsSorted S ys
        × ((p : P) → of_priority S p ys ≡ of_priority S p xs)
  unfolding test_order recv_sent new
  receives_in_order t xs =
      let (d, e, f) = send_all-items xs (new S) tt refl in
      (
        sort_into S xs [],
        rw (e, test_order, recv_sent)
            (recv_all-items t (length xs) d (ap length f ∙ length-sort_into S xs [] ∙ omega arith)
              ∙ ap (λ zs. some (values zs)) f),
        sort_into-IsSorted S xs [] tt,
        λ p. of_priority-sort_into S p xs [] tt,
      )
