-- ===== src/LightSync/Defs.antt =====
-- lightsync.rs: `LightSync` with one waiting thread and any number of notifiers, a shared access at a
-- time. The park token of the waiting thread is part of the state.
use pa_queue_and_chan.Prelude.{
  ℕ, suc, ◌≡◌, Bool, true, false, not, ◌||◌, Option, none, some, is_some, ◌==◌, if◌then◌else◌,
}

-- Where the waiting thread stands.
pub data Pc : Type 0 where
  idle : Pc  -- outside `wait`
  registering : Pc  -- the test of `wait_thread`, and its write lock
  arming : Pc  -- `self.waiting.swap(true,Relaxed)`
  checking : Pc  -- `while self.waiting.load(Relaxed)`
  parking : Pc  -- `thread::park()`
  panicked : Pc

pub record LightSync : Type 0 where
  pub waiting : Bool
  -- the id of the thread, and its handle, which is the id again
  pub wait_thread : ℕ × Option ℕ
  pub pc : Pc
  -- the park token of the waiting thread
  pub token : Bool
  -- notifiers that have swapped `true` out and have not called `unpark` yet
  pub unparkers : ℕ
  -- the `unwrap` of a missing handle in `notify`
  pub unwrap_panicked : Bool

unfoldable pub new : LightSync
new = record {
  waiting = false;
  wait_thread = (0, none);
  pc = idle;
  token = false;
  unparkers = 0;
  unwrap_panicked = false;
}

unfoldable pub register : ℕ → LightSync → LightSync
register me s =
    if not (is_some s.wait_thread.1) || not (s.wait_thread.0 == me)
    then record s { wait_thread = (me, some me); pc = arming }
    else record s { pc = arming }

-- A step of the thread `me`; `none` where it blocks.
unfoldable pub wait_step : ℕ → LightSync → Pc → Option LightSync
unfolding register
wait_step me s idle = some (record s { pc = registering })
wait_step me s registering = some (register me s)
wait_step me s arming =
    some
      (if s.waiting then record s { pc = panicked } else record s { waiting = true; pc = checking })
wait_step me s checking =
    some (if s.waiting then record s { pc = parking } else record s { pc = idle })
wait_step me s parking = if s.token then some (record s { token = false; pc = checking }) else none
wait_step me s panicked = none

-- `notify`: the swap, and the rest.
unfoldable pub notify : LightSync → LightSync
notify s = if s.waiting then record s { waiting = false; unparkers = suc s.unparkers } else s

unfoldable pub unpark : ℕ → LightSync → LightSync
unpark me s = elim (s.wait_thread.1) [
  | none ↦ record s { unwrap_panicked = true }
  | some thread ↦ if thread == me then record s { token = true } else s
]

pub data Step (me : ℕ) (s : LightSync) : LightSync → Type 0 where
  waits : (s' : LightSync) → wait_step me s s.pc ≡ some s' → Step me s s'
  -- `park` may return for no reason
  wakes : s.pc ≡ parking → Step me s (record s { pc = checking })
  notifies : Step me s (notify s)
  unparks : (n : ℕ) → s.unparkers ≡ suc n → Step me s (unpark me (record s { unparkers = n }))

pub data Reach (me : ℕ) : LightSync → Type 0 where
  here : Reach me new
  next : {s s' : LightSync} → Reach me s → Step me s s' → Reach me s'
