-- ===== src/PriorityChan/Chan.antt =====
-- priotity_async_mpsc_chan.rs: `PriorityChan`, its sender and its receiver, a shared access at a
-- time.
use pa_queue_and_chan.Prelude.{Bool, true, false, Option, none, some, [], if◌then◌else◌}
use pa_queue_and_chan.External.PrioritySetting.{PrioritySetting}
use pa_queue_and_chan.PriorityChan.Queue.{Queues, push, pop}

pub data SendResult : Type 0 where
  sent closed : SendResult

module _ (S : PrioritySetting) where
  open S use {I, P, wakers as W}

  pub record PriorityChan : Type 0 where
    pub queue : Queues S
    pub end_flag : Bool
    pub waker : W.AtomicWaker

  -- `Poll<Option<I>>`
  pub data Poll : Type 0 where
    ready : Option I → Poll
    pending : Poll

  -- Where `PriorityChan::recv` stands: in the first `try_recv!`, before the registration, or in the
  -- second `try_recv!`.
  pub data Pc : Type 0 where
    pop_first : Pc
    check_first : Pc
    register : Pc
    pop_second : Pc
    check_second : Pc
    returns : Poll → Pc

module _ (S : PrioritySetting) where
  open S use {I, P, wakers as W, queues as Q}

  unfoldable pub new : PriorityChan S
  new = record { queue = []; end_flag = false; waker = W.new }

  -- `try_recv!`: what it returns, or `none` if it goes on.
  unfoldable pub try_recv : PriorityChan S → Option (Poll S) × PriorityChan S
  try_recv c = elim (pop S c.queue) [
    | some (i, m) ↦ (some (ready (some i)), record c { queue = m })
    | none ↦ (if c.end_flag then some (ready none) else none, c)
  ]

  -- What follows the second `try_recv!`, and the first.
  unfoldable pub after_second : Option (Poll S) × PriorityChan S → Poll S × PriorityChan S
  after_second (some r, c) = (r, c)
  after_second (none, c) = (pending, c)

  unfoldable pub after_first : W.Waker → Option (Poll S) × PriorityChan S → Poll S × PriorityChan S
  unfolding after_second
  after_first t (some r, c) = (r, c)
  after_first t (none, c) =
      after_second (try_recv (record c { waker = W.register_by_ref t c.waker }))

  -- `recv` without interference, for the task `t`
  unfoldable pub recv : W.Waker → PriorityChan S → Poll S × PriorityChan S
  unfolding after_first
  recv t c = after_first t (try_recv c)

  -- One shared access of `recv`.
  unfoldable pub recv_step : W.Waker → PriorityChan S → Pc S → PriorityChan S × Pc S
  recv_step t c pop_first = elim (pop S c.queue) [
    | some (i, m) ↦ (record c { queue = m }, returns (ready (some i)))
    | none ↦ (c, check_first)
  ]
  recv_step t c check_first = (c, if c.end_flag then returns (ready none) else register)
  recv_step t c register = (record c { waker = W.register_by_ref t c.waker }, pop_second)
  recv_step t c pop_second = elim (pop S c.queue) [
    | some (i, m) ↦ (record c { queue = m }, returns (ready (some i)))
    | none ↦ (c, check_second)
  ]
  recv_step t c check_second = (c, if c.end_flag then returns (ready none) else returns pending)
  recv_step t c (returns r) = (c, returns r)

  -- `send_sync` without interference; the task that is woken is returned too.
  unfoldable pub send_sync : I → P → PriorityChan S → SendResult × PriorityChan S × Option W.Waker
  send_sync i p c = if c.end_flag then (closed, c, none) else (
    sent,
    record c { queue = push S i p c.queue; waker = (W.wake c.waker).0 },
    (W.wake c.waker).1,
  )

  -- `Drop for SenderInner`: the flag, and no call of the waker.
  unfoldable pub drop_senders : PriorityChan S → PriorityChan S
  drop_senders c = record c { end_flag = true }
