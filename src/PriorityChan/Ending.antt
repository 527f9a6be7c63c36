-- ===== src/PriorityChan/Ending.antt =====
-- priotity_async_mpsc_chan.rs: `recv` without interference, and runs between threads.
use pa_queue_and_chan.Prelude.{
  ◌≡◌, refl, ◌∙◌, ◌⊎◌, inl, inr, Bool, true, false, none, some, [], ◌∷◌, Bool-cases, if◌then◌else◌,
  ap,
}
use pa_queue_and_chan.External.PrioritySetting.{PrioritySetting}
use pa_queue_and_chan.PriorityChan.Queue.{
  Queues, pop, push_read, push_write, push_to, insert, find, contains_key,
}
use pa_queue_and_chan.PriorityChan.Items.{
  items, Ordering-cases, push_to_self, items-push_write, insert_item,
}
use pa_queue_and_chan.PriorityChan.Ordered.{pop_takes_first}
use pa_queue_and_chan.PriorityChan.Chan.{
  PriorityChan, Poll, pop_first, check_first, register, pop_second, check_second, returns, ready,
  pending, new, recv_step, recv, try_recv, drop_senders,
}
use pa_queue_and_chan.PriorityChan.System.{
  System, start, send_begins, send_unlocks, send_writes, send_wakes, senders_drop, recv_begins,
  recv_steps, Reach, here, next,
}

module _ (S : PrioritySetting) where
  open S use {I, P, wakers as W, queues as Q, order as O}

  -- The three ways in which `recv` ends.
  abbrev pub Receives : W.Waker → PriorityChan S → Poll S × PriorityChan S → Type 0
  Receives t c (r, d) =
      ((p : P) × (i : I) × (items S c.queue ≡ (p, i) ∷ items S d.queue)
        × (r ≡ ready (some i))
        × (d.waker ≡ c.waker))
      ⊎ ((items S c.queue ≡ []) × (c.end_flag ≡ true) × (r ≡ ready none) × (d ≡ c))
      ⊎ ((items S c.queue ≡ [])
          × (c.end_flag ≡ false)
          × (r ≡ pending)
          × (W.registered d.waker ≡ some t)
          × (d.queue ≡ c.queue))

  try_recv-item :
      (c : PriorityChan S) (i : I) (m : Queues S)
      → pop S c.queue ≡ some (i, m)
      → try_recv S c ≡ (some (ready (some i)), record c { queue = m })
  unfolding try_recv
  try_recv-item c i m e = rw (e, try_recv)

  pub recv-item :
      (t : W.Waker) (c : PriorityChan S) (i : I) (m : Queues S)
      → pop S c.queue ≡ some (i, m)
      → recv S t c ≡ (ready (some i), record c { queue = m })
  unfolding recv
  recv-item t c i m e = rw (try_recv-item c i m e, recv)

  try_recv-none :
      (c : PriorityChan S)
      → pop S c.queue ≡ none
      → try_recv S c ≡ ((if c.end_flag then some (ready none) else none), c)
  unfolding try_recv
  try_recv-none c e = rw (e, try_recv)

  try_recv-end :
      (c : PriorityChan S)
      → pop S c.queue ≡ none
      → c.end_flag ≡ true
      → try_recv S c ≡ (some (ready none), c)
  try_recv-end c e f =
      try_recv-none c e ∙ ap (λ (b : Bool). ((if b then some (ready none) else none), c)) f

  try_recv-on :
      (c : PriorityChan S) → pop S c.queue ≡ none → c.end_flag ≡ false → try_recv S c ≡ (none, c)
  try_recv-on c e f =
      try_recv-none c e ∙ ap (λ (b : Bool). ((if b then some (ready none) else none), c)) f

  -- `recv` without interference yields the most urgent item if there is one, and leaves the waker
  -- alone; without an item it yields `None` once the senders are gone, and otherwise it registers
  -- its task and is pending.
  pub recv_alone : (t : W.Waker) (c : PriorityChan S) → Receives t c (recv S t c)
  unfolding recv
  recv_alone t c = elim (pop_takes_first S c.queue) [
    | inr (p, i, m, e, pe) ↦ rw (try_recv-item c i m pe, recv) (inl (p, i, e, refl, refl))
    | inl (e, pe) ↦ elim (Bool-cases c.end_flag) [
      | inl f ↦ rw (try_recv-end c pe f, recv) (inr (inl (e, f, refl, refl)))
      | inr f ↦
          let d = record c { waker = W.register_by_ref t c.waker } in
          rw (try_recv-on c pe f, recv)
            (rw (try_recv-on d pe f, recv)
              (inr (inr (e, f, refl, W.registered-register t c.waker, refl))))
    ]
  ]

  insert-push_to :
      (i : I) (p : P) (q : Q.SegQueue I) (m : Queues S)
      → insert S p q (push_to S i p (insert S p q m)) ≡ insert S p q m
  unfolding insert push_to
  insert-push_to i p q [] = rw (O.cmp_self p, push_to) (rw (O.cmp_self p, insert))
  insert-push_to i p q ((j, r) ∷ m) = elim (Ordering-cases (O.cmp p j)) [
    | inl e ↦ rw (e, insert) (rw (push_to_self S i p q ((j, r) ∷ m)) (rw (O.cmp_self p, insert)))
    | inr (inl e) ↦ rw (e, insert) (rw (push_to_self S i p q m) (rw (O.cmp_self p, insert)))
    | inr (inr e) ↦
        rw (e, insert) (rw (e, push_to) (rw (e, insert) (ap (◌∷◌ (j, r)) (insert-push_to i p q m))))
  ]

  -- Two pushes of one new priority that both find no queue for it: the second to get the write lock
  -- replaces the queue that the first has made, and the first item is lost.
  pub racing_pushes_lose :
      (i j : I) (p : P) (m : Queues S)
      → find S p m ≡ none
      → (push_read S i p m ≡ none)
        × (push_read S j p m ≡ none)
        × (push_write S j p (push_write S i p m) ≡ push_write S j p m)
  unfolding push_read push_write contains_key
  racing_pushes_lose i j p m h = (rw h, rw h, ap (push_to S j p) (insert-push_to i p Q.new m))

  -- A receiver can be pending for ever: for every task there is an interleaving in which `recv`
  -- returns `Pending`, the last sender then goes, no task was woken and no call of `wake` is due.
  pub end_wakes_nobody :
      (t : W.Waker)
      → (s : System S) × Reach S t s
        × (s.pc ≡ some (returns pending))
        × (s.woken ≡ false)
        × (s.waking ≡ 0)
        × (s.chan.end_flag ≡ true)
        × (s.senders ≡ false)
  unfolding start new recv_step pop drop_senders
  end_wakes_nobody t =
      let a = next here (recv_begins refl) in
      let b = next a (recv_steps pop_first refl) in
      let c = next b (recv_steps check_first refl) in
      let d = next c (recv_steps register refl) in
      let e = next d (recv_steps pop_second refl) in
      let f = next e (recv_steps check_second refl) in
      (_, next f (senders_drop refl refl refl refl), refl, refl, refl, refl, refl)

  -- For every item there is an interleaving in which it is sent with success, the sender goes, and
  -- `recv` then returns `Ready(None)` with the item still in the queue.
  pub end_loses_item :
      (t : W.Waker) (i : I) (p : P)
      → (s : System S) × Reach S t s
        × (s.pc ≡ some (returns (ready none)))
        × (items S s.chan.queue ≡ (p, i) ∷ [])
  unfolding start new recv_step pop drop_senders push_read push_write contains_key find insert_item
  end_loses_item t i p =
      let a = next here (recv_begins refl) in
      let b = next a (recv_steps pop_first refl) in
      let c = next b (send_begins i p refl refl) in
      let d = next c (send_unlocks i p [] [] refl refl) in
      let e = next d (send_writes i p [] [] refl) in
      let f = next e (send_wakes 0 refl) in
      let g = next f (senders_drop refl refl refl refl) in
      (_, next g (recv_steps check_first refl), refl, items-push_write S i p [] tt refl)
