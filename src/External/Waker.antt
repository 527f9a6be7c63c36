-- ===== src/External/Waker.antt =====
-- The crate's copy of tokio's `AtomicWaker` (tokio_transplant), by the documentation of its two
-- operations: `register_by_ref` replaces the task that is registered, and `wake` takes it and wakes
-- it, or does nothing if there is none.
use pa_queue_and_chan.Prelude.{◌≡◌, refl, Option, none, some}

pub record Wakers : Type 1 where
  pub AtomicWaker : Type 0
  pub Waker : Type 0
  pub new : AtomicWaker
  pub register_by_ref : Waker → AtomicWaker → AtomicWaker
  -- the state after the call, and the task that it has woken
  pub wake : AtomicWaker → AtomicWaker × Option Waker
  pub registered : AtomicWaker → Option Waker
  pub registered-new : registered new ≡ none
  pub registered-register :
      (t : Waker) (w : AtomicWaker) → registered (register_by_ref t w) ≡ some t
  pub registered-wake : (w : AtomicWaker) → registered (wake w).0 ≡ none
  pub wake_lem : (w : AtomicWaker) → (wake w).1 ≡ registered w

-- The laws can be met by a cell that holds the task.
abbrev pub cell_wakers : Type 0 → Wakers
cell_wakers T = record {
  AtomicWaker = Option T;
  Waker = T;
  new = none;
  register_by_ref = λ t w. some t;
  wake = λ w. (none, w);
  registered = λ w. w;
  registered-new = refl;
  registered-register = λ t w. refl;
  registered-wake = λ w. refl;
  wake_lem = λ w. refl;
}
