-- ===== src/TimeoutParker/Tests.antt =====
-- The theorems on the parker at concrete states.
use pa_queue_and_chan.Prelude.{◌≡◌, ◌≢◌, ◌<◌, ◌⊎◌, refl, true, false}
use pa_queue_and_chan.TimeoutParker.Inner.{
  idle, sleeping, panicked, Inner, new, park_step, spin, exchange, unpark, empty, parked_condvar,
  notified, parks, unparks, Reach, here, next,
}
use pa_queue_and_chan.TimeoutParker.Safety.{states_consistent, sleeper_is_told}
use pa_queue_and_chan.TimeoutParker.Alone.{park, park_alone}

-- The parker sleeps, then an unparker swaps the state.
abbrev told : (i : Inner) × Reach i
unfolding new park_step spin exchange unpark
told =
    let a = next (next here (parks false _ refl)) (parks false _ refl) in
    let b = next (next a (parks false _ refl)) (parks false _ refl) in
    let c = next (next b (parks false _ refl)) (parks false _ refl) in
    let d = next (next c (parks false _ refl)) (parks false _ refl) in (_, next d unparks)

states_consistent_example : (told.0.pc ≢ panicked) × (told.0.unpark_panicked ≡ false)
states_consistent_example = states_consistent told.1

sleeper_is_told_example : (0 < told.0.lockers) ⊎ (0 < told.0.notifiers) ⊎ (told.0.signalled ≡ true)
unfolding new park_step spin exchange unpark
sleeper_is_told_example = sleeper_is_told told.1 refl refl

park_alone_example :
    (park (record told.0 { state = notified; pc = idle })
      ≡ record told.0 { state = empty; pc = idle })
    × (park (record told.0 { state = empty; pc = idle }) ≡ record told.0 {
      state = parked_condvar;
      locked = false;
      signalled = false;
      pc = sleeping;
    })
park_alone_example = park_alone told.0
