-- ===== src/TimeoutParker/Inner.antt =====
-- timeout_parker.rs: `Inner` with its atomic state, mutex and condition variable; one parker (it is
-- borrowed mutably) and any number of unparkers, a shared access at a time.
use pa_queue_and_chan.Prelude.{
  ℕ, zero, suc, ◌≡◌, Bool, true, false, Option, none, some, ◌==◌, if◌then◌else◌,
}

abbrev pub empty : ℕ
empty = 0

abbrev pub parked_condvar : ℕ
parked_condvar = 1

abbrev pub notified : ℕ
notified = 3

-- Where the parker stands.
pub data Pc : Type 0 where
  idle : Pc  -- outside `park`
  spinning : ℕ → Pc  -- `for _ in 0..3`, with the rounds left
  locking : Pc  -- `self.mutex.lock()`
  exchanging : Pc  -- `compare_exchange(EMPTY, PARKED_CONDVAR, ..)`
  swapping : Pc  -- `Err(NOTIFIED)`: `self.state.swap(EMPTY, SeqCst)` and the `debug_assert_eq!`
  entering : Pc  -- before `self.condvar.wait_timeout(m,duration)`
  sleeping : Pc  -- in it, with the mutex released
  storing : Pc  -- `self.state.store(EMPTY,SeqCst)`, with the mutex held
  panicked : Pc

pub record Inner : Type 0 where
  pub state : ℕ
  -- the parker holds the mutex
  pub locked : Bool
  pub pc : Pc
  -- unparkers before `drop(self.mutex.lock())`, and those before `notify_one`
  pub lockers : ℕ
  pub notifiers : ℕ
  -- a `notify_one` has reached the sleeping parker
  pub signalled : Bool
  -- an unparker has met the branch that panics
  pub unpark_panicked : Bool

-- `Parker::new`
unfoldable pub new : Inner
new = record {
  state = empty;
  locked = false;
  pc = idle;
  lockers = 0;
  notifiers = 0;
  signalled = false;
  unpark_panicked = false;
}

-- `compare_exchange(NOTIFIED, EMPTY, ..)` in a round of the loop of `park`
unfoldable pub spin : ℕ → Inner → Inner
spin n i =
    if i.state == notified
    then record i { state = empty; pc = idle }
    else record i { pc = spinning n }

-- The `compare_exchange` of `park_condvar` and the `match` on it.
unfoldable pub exchange : Inner → Inner
exchange i =
    if i.state == empty
    then record i { state = parked_condvar; pc = entering }
    else if i.state == notified
    then record i { pc = swapping }
    else record i { pc = panicked }

-- One step of the parker; `none` where it blocks. Asleep, `woken` tells whether the wait ends now,
-- by a signal, by the timeout or for no reason.
unfoldable pub park_step : Bool → Inner → Pc → Option Inner
unfolding spin exchange
park_step woken i idle = some (record i { pc = spinning 3 })
park_step woken i (spinning zero) = some (record i { pc = locking })
park_step woken i (spinning (suc n)) = some (spin n i)
park_step woken i locking = some (record i { locked = true; pc = exchanging })
park_step woken i exchanging = some (exchange i)
park_step woken i swapping = some (
    if i.state == notified
    then record i { state = empty; locked = false; pc = idle }
    else record i { state = empty; pc = panicked })
park_step woken i entering = some (record i { locked = false; signalled = false; pc = sleeping })
park_step woken i sleeping = if woken then some (record i { locked = true; pc = storing }) else none
park_step woken i storing = some (record i { state = empty; locked = false; pc = idle })
park_step woken i panicked = none

-- `unpark`: the swap of the state and the `match` on the old one.
unfoldable pub unpark : Inner → Inner
unpark i =
    if i.state == notified
    then record i { state = notified }
    else if i.state == empty
    then record i { state = notified }
    else if i.state == parked_condvar
    then record i { state = notified; lockers = suc i.lockers }
    else record i { state = notified; unpark_panicked = true }

pub is_sleeping : Pc → Bool
is_sleeping sleeping = true
is_sleeping _ = false

-- `self.condvar.notify_one()`
unfoldable pub notify_one : Inner → Inner
unfolding is_sleeping
notify_one i = if is_sleeping i.pc then record i { signalled = true } else i

pub data Step (i : Inner) : Inner → Type 0 where
  parks : (woken : Bool) (j : Inner) → park_step woken i i.pc ≡ some j → Step i j
  unparks : Step i (unpark i)
  -- `drop(self.mutex.lock())` passes while the parker does not hold the mutex
  locks :
      (n : ℕ)
      → i.lockers ≡ suc n
      → i.locked ≡ false
      → Step i (record i { lockers = n; notifiers = suc i.notifiers })
  notifies : (n : ℕ) → i.notifiers ≡ suc n → Step i (notify_one (record i { notifiers = n }))

pub data Reach : Inner → Type 0 where
  here : Reach new
  next : {i j : Inner} → Reach i → Step i j → Reach j
