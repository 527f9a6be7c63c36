-- ===== src/PriorityChan/Wake.antt =====
-- priotity_async_mpsc_chan.rs: the registered task of a pending receiver.
use pa_queue_and_chan.Prelude.{
  ℕ, suc, ◌<◌, ◌≡◌, refl, ◌⊎◌, inl, inr, Bool, true, false, Option, none, some, [], is_some, arith,
  Bool-cases, ◌||◌,
}
use pa_queue_and_chan.External.PrioritySetting.{PrioritySetting}
use pa_queue_and_chan.PriorityChan.Queue.{push_write}
use pa_queue_and_chan.PriorityChan.Items.{items}
use pa_queue_and_chan.PriorityChan.Ordered.{pop_takes_first}
use pa_queue_and_chan.PriorityChan.Chan.{
  PriorityChan, Pc, pop_first, check_first, register, pop_second, check_second, returns, ready,
  pending, recv_step, drop_senders,
}
use pa_queue_and_chan.PriorityChan.System.{
  System, start, send_begins, send_pushes, send_unlocks, send_writes, send_wakes, senders_drop,
  recv_begins, recv_steps, recv_polled, recv_returns, Reach, here, next,
}

module _ (S : PrioritySetting) where
  open S use {I, P, wakers as W, queues as Q}

  abbrev Noticed : PriorityChan S → ℕ → Bool → Type 0
  Noticed c n woken = (items S c.queue ≡ []) ⊎ (0 < n) ⊎ (woken ≡ true)

  -- From the registration on the task is registered, or was woken; from the second look at the
  -- queue on, there is no item that nobody tells of.
  abbrev Parks : PriorityChan S → ℕ → Bool → Option (Pc S) → Type 0
  Parks c n woken (some pop_second) = (is_some (W.registered c.waker) || woken) ≡ true
  Parks c n woken (some check_second) =
      ((is_some (W.registered c.waker) || woken) ≡ true) × Noticed c n woken
  Parks c n woken (some (returns pending)) =
      ((is_some (W.registered c.waker) || woken) ≡ true) × Noticed c n woken
  Parks c n woken _ = Unit

  Parks-push :
      (c d : PriorityChan S) (n : ℕ) (woken : Bool) (p : Option (Pc S))
      → c.waker ≡ d.waker
      → Parks c n woken p
      → Parks d (suc n) woken p
  Parks-push c d n woken (some pop_second) e h = rw (← e) h
  Parks-push c d n woken (some check_second) e h = (rw (← e) h.0, inr (inl (omega arith)))
  Parks-push c d n woken (some (returns pending)) e h = (rw (← e) h.0, inr (inl (omega arith)))
  Parks-push c d n woken (some (returns (ready r))) e h = tt
  Parks-push c d n woken (some p) e h = tt
  Parks-push c d n woken none e h = tt

  Parks-drop :
      (c : PriorityChan S) (n : ℕ) (woken : Bool) (p : Option (Pc S))
      → Parks c n woken p
      → Parks (drop_senders S c) n woken p
  unfolding drop_senders
  Parks-drop c n woken (some pop_second) h = h
  Parks-drop c n woken (some check_second) h = h
  Parks-drop c n woken (some (returns pending)) h = h
  Parks-drop c n woken (some (returns (ready r))) h = tt
  Parks-drop c n woken (some p) h = tt
  Parks-drop c n woken none h = tt

  wake_noted :
      (w : W.AtomicWaker) (woken : Bool)
      → (is_some (W.registered w) || woken) ≡ true
      → (is_some (W.wake w).1 || woken) ≡ true
  wake_noted w woken h = rw (W.wake_lem w) h

  Parks-wake :
      (c : PriorityChan S) (n : ℕ) (woken : Bool) (p : Option (Pc S))
      → Parks c (suc n) woken p
      → Parks (record c { waker = (W.wake c.waker).0 }) n (is_some (W.wake c.waker).1 || woken) p
  Parks-wake c n woken (some pop_second) h =
      rw (wake_noted c.waker woken h, W.registered-wake c.waker)
  Parks-wake c n woken (some check_second) h =
      let e = wake_noted c.waker woken h.0 in (rw (e, W.registered-wake c.waker), inr (inr e))
  Parks-wake c n woken (some (returns pending)) h =
      let e = wake_noted c.waker woken h.0 in (rw (e, W.registered-wake c.waker), inr (inr e))
  Parks-wake c n woken (some (returns (ready r))) h = tt
  Parks-wake c n woken (some p) h = tt
  Parks-wake c n woken none h = tt

  recv_step-Parks :
      (t : W.Waker) (c : PriorityChan S) (n : ℕ) (woken : Bool) (p : Pc S)
      → Parks c n woken (some p)
      → Parks (recv_step S t c p).0 n woken (some (recv_step S t c p).1)
  unfolding recv_step
  recv_step-Parks t c n woken pop_first h = elim (pop_takes_first S c.queue) [
    | inl (e, pe) ↦ rw (pe, recv_step) tt
    | inr (p, i, m, e, pe) ↦ rw (pe, recv_step) tt
  ]
  recv_step-Parks t c n woken check_first h = elim (Bool-cases c.end_flag) [
    | inl e ↦ rw (e, recv_step) tt
    | inr e ↦ rw (e, recv_step) tt
  ]
  recv_step-Parks t c n woken register h = rw (W.registered-register t c.waker)
  recv_step-Parks t c n woken pop_second h = elim (pop_takes_first S c.queue) [
    | inl (e, pe) ↦ rw (pe, recv_step) (h, inl e)
    | inr (p, i, m, e, pe) ↦ rw (pe, recv_step) tt
  ]
  recv_step-Parks t c n woken check_second h = elim (Bool-cases c.end_flag) [
    | inl e ↦ rw (e, recv_step) tt
    | inr e ↦ rw (e, recv_step) h
  ]
  recv_step-Parks t c n woken (returns r) h = h

  Reach-Parks : {t : W.Waker} {s : System S} → Reach S t s → Parks s.chan s.waking s.woken s.pc
  unfolding start
  Reach-Parks here = tt
  Reach-Parks (next r (send_begins i p a b)) = Reach-Parks r
  Reach-Parks (next {s} r (send_pushes i p xs ys m a b)) =
      Parks-push s.chan (record (s.chan) { queue = m }) s.waking s.woken s.pc refl (Reach-Parks r)
  Reach-Parks (next r (send_unlocks i p xs ys a b)) = Reach-Parks r
  Reach-Parks (next {s} r (send_writes i p xs ys a)) =
      Parks-push s.chan (record (s.chan) { queue = push_write S i p s.chan.queue }) s.waking s.woken
        s.pc refl (Reach-Parks r)
  Reach-Parks (next {s} r (send_wakes n a)) =
      Parks-wake s.chan n s.woken s.pc (rw a at (Reach-Parks r))
  Reach-Parks (next {s} r (senders_drop a b c d)) =
      Parks-drop s.chan s.waking s.woken s.pc (Reach-Parks r)
  Reach-Parks (next r (recv_begins a)) = tt
  Reach-Parks {t} (next {s} r (recv_steps p a)) =
      recv_step-Parks t s.chan s.waking s.woken p (rw a at (Reach-Parks r))
  Reach-Parks (next r (recv_polled a)) = tt
  Reach-Parks (next r (recv_returns v a)) = tt

  -- If `recv` has returned `Pending` in a reachable state, its task was not woken since, and no
  -- sender is between its push and its `wake`, then the queue has no item and a task is registered,
  -- so that the next push wakes it.
  pub pending_misses_no_item :
      {t : W.Waker} {s : System S}
      → Reach S t s
      → s.pc ≡ some (returns pending)
      → s.woken ≡ false
      → s.waking ≡ 0
      → (items S s.chan.queue ≡ []) × (is_some (W.registered s.chan.waker) ≡ true)
  pending_misses_no_item {s} r e quiet due = settle (rw e at (Reach-Parks r))
    where
      settle :
          ((is_some (W.registered s.chan.waker) || s.woken) ≡ true)
            × Noticed s.chan s.waking s.woken
          → (items S s.chan.queue ≡ []) × (is_some (W.registered s.chan.waker) ≡ true)
      settle (h, inl x) = (x, ground arith)
      settle (h, inr (inl x)) = absurd (omega arith)
      settle (h, inr (inr x)) = absurd (cc)
