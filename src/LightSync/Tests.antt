-- ===== src/LightSync/Tests.antt =====
-- The theorems on the light synchronization at concrete states.
use pa_queue_and_chan.Prelude.{◌≡◌, ◌≢◌, refl, false, some}
use pa_queue_and_chan.LightSync.Defs.{
  LightSync, panicked, new, register, wait_step, notify, unpark, waits, notifies, Reach, here, next,
}
use pa_queue_and_chan.LightSync.Safety.{wait_never_panics}
use pa_queue_and_chan.LightSync.Returns.{
  wait_steps, unpark_all, round_returns, test_speed, Returned, notified_returns, rested,
}

-- Thread 5 is about to park, then a notifier clears the flag.
abbrev cleared : (s : LightSync) × Reach 5 s
unfolding new wait_step register notify
cleared =
    let a = next (next here (waits _ refl)) (waits _ refl) in
    let b = next (next a (waits _ refl)) (waits _ refl) in (_, next b notifies)

wait_never_panics_example : (cleared.0.pc ≢ panicked) × (cleared.0.unwrap_panicked ≡ false)
wait_never_panics_example = wait_never_panics 5 cleared.1

-- Then the notifier calls `unpark`.
notified_returns_example :
    Returned cleared.0 (wait_steps 5 2 (unpark_all 5 cleared.0.unparkers cleared.0))
unfolding new wait_step register notify
notified_returns_example = notified_returns 5 cleared.1 refl refl

two_rounds : test_speed 5 2 new ≡ some (rested 5)
unfolding test_speed round_returns wait_steps unpark_all new wait_step register notify unpark
two_rounds = refl
