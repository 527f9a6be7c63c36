-- ===== src/TimeoutParker/Alone.antt =====
-- timeout_parker.rs: `park` without an unparker in between.
use pa_queue_and_chan.Prelude.{ℕ, zero, suc, ◌≡◌, refl, false, none, some}
use pa_queue_and_chan.TimeoutParker.Inner.{
  Pc, idle, spinning, sleeping, Inner, park_step, empty, parked_condvar, notified, spin, exchange,
}

-- `park` from its loop on, for at most `fuel` steps, until it returns or blocks.
unfoldable pub park_rest : ℕ → Inner → Pc → Inner
park_rest fuel i idle = i
park_rest zero i p = i
park_rest (suc fuel) i p = elim (park_step false i p) [ none ↦ i | some j ↦ park_rest fuel j j.pc ]

unfoldable pub park : Inner → Inner
unfolding park_rest
park i = park_rest 8 i (spinning 3)

-- A parker that was notified before takes the notification and returns at once, whatever the
-- unparkers' places; one that was not goes to sleep, with the state `PARKED_CONDVAR` and the mutex
-- released.
pub park_alone :
    (i : Inner)
    → (park (record i { state = notified; pc = idle }) ≡ record i { state = empty; pc = idle })
      × (park (record i { state = empty; pc = idle })
          ≡ record i { state = parked_condvar; locked = false; signalled = false; pc = sleeping })
unfolding park park_step spin exchange
park_alone i = (refl, refl)
