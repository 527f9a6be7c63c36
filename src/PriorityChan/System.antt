-- ===== src/PriorityChan/System.antt =====
-- priotity_async_mpsc_chan.rs: senders and one receiving task, interleaved. A push takes one step
-- under the read lock or two, under the read lock and then under the write lock.
use pa_queue_and_chan.Prelude.{
  ℕ, suc, ◌≡◌, Bool, true, false, Option, none, some, List, [], ◌∷◌, ◌++◌, is_some, ◌||◌,
}
use pa_queue_and_chan.External.PrioritySetting.{PrioritySetting}
use pa_queue_and_chan.PriorityChan.Queue.{Queues, push_read, push_write}
use pa_queue_and_chan.PriorityChan.Chan.{
  PriorityChan, Pc, Poll, pop_first, returns, new, recv_step, drop_senders,
}

module _ (S : PrioritySetting) where
  open S use {I, P, wakers as W}

  pub record System : Type 0 where
    pub chan : PriorityChan S
    pub pc : Option (Pc S)
    -- calls of `send_sync` past the check of the flag, and those that have let the read lock go
    pub sending : List (I × P)
    pub writing : List (I × P)
    -- calls of `send_sync` between their push and `wake`
    pub waking : ℕ
    -- a task was woken since `recv` last began
    pub woken : Bool
    -- the last `Sender` lives
    pub senders : Bool

module _ (S : PrioritySetting) where
  open S use {I, P, wakers as W}

  unfoldable pub start : System S
  start = record {
    chan = new S;
    pc = none;
    sending = [];
    writing = [];
    waking = 0;
    woken = false;
    senders = true;
  }

  pub data Step (t : W.Waker) (s : System S) : System S → Type 0 where
    send_begins :
        (i : I) (p : P)
        → s.senders ≡ true
        → s.chan.end_flag ≡ false
        → Step t s (record s { sending = (i, p) ∷ s.sending })
    send_pushes :
        (i : I) (p : P) (xs ys : List (I × P)) (m : Queues S)
        → s.sending ≡ xs ++ (i, p) ∷ ys
        → push_read S i p s.chan.queue ≡ some m
        → Step t s (record s {
          chan = record (s.chan) { queue = m };
          sending = xs ++ ys;
          waking = suc s.waking;
        })
    send_unlocks :
        (i : I) (p : P) (xs ys : List (I × P))
        → s.sending ≡ xs ++ (i, p) ∷ ys
        → push_read S i p s.chan.queue ≡ none
        → Step t s (record s { sending = xs ++ ys; writing = (i, p) ∷ s.writing })
    send_writes :
        (i : I) (p : P) (xs ys : List (I × P))
        → s.writing ≡ xs ++ (i, p) ∷ ys
        → Step t s (record s {
          chan = record (s.chan) { queue = push_write S i p s.chan.queue };
          writing = xs ++ ys;
          waking = suc s.waking;
        })
    send_wakes :
        (n : ℕ)
        → s.waking ≡ suc n
        → Step t s (record s {
          chan = record (s.chan) { waker = (W.wake s.chan.waker).0 };
          waking = n;
          woken = is_some (W.wake s.chan.waker).1 || s.woken;
        })
    senders_drop :
        s.senders ≡ true
        → s.sending ≡ []
        → s.writing ≡ []
        → s.waking ≡ 0
        → Step t s (record s { chan = drop_senders S s.chan; senders = false })
    recv_begins : s.pc ≡ none → Step t s (record s { pc = some pop_first; woken = false })
    recv_steps :
        (p : Pc S)
        → s.pc ≡ some p
        → Step t s
            (record s { chan = (recv_step S t s.chan p).0; pc = some (recv_step S t s.chan p).1 })
    -- the executor may poll a pending future again
    recv_polled : s.pc ≡ some (returns Poll.pending) → Step t s (record s { pc = none })
    recv_returns :
        (r : Option I) → s.pc ≡ some (returns (Poll.ready r)) → Step t s (record s { pc = none })

  pub data Reach (t : W.Waker) : System S → Type 0 where
    here : Reach t start
    next : {s u : System S} → Reach t s → Step t s u → Reach t u
