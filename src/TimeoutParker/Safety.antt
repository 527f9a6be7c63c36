-- ===== src/TimeoutParker/Safety.antt =====
-- timeout_parker.rs: the states that the parker and the unparkers can reach.
use pa_queue_and_chan.Prelude.{
  ℕ, zero, suc, ◌<◌, ◌≡◌, ◌≢◌, refl, ◌⊎◌, inl, inr, Bool, true, false, some, arith, carry,
  Bool-cases, ◌==◌,
}
use pa_queue_and_chan.TimeoutParker.Inner.{
  Pc, idle, spinning, locking, exchanging, swapping, entering, sleeping, storing, panicked, Inner,
  new, spin, exchange, park_step, unpark, notify_one, empty, parked_condvar, notified, Step, parks,
  unparks, locks, notifies, Reach, here, next,
}

-- What the place of the parker says of the shared state.
abbrev Fits : ℕ → Bool → ℕ → ℕ → Bool → Pc → Type 0
Fits s locked l n sig exchanging = (locked ≡ true) × ((s ≡ empty) ⊎ (s ≡ notified))
Fits s locked l n sig swapping = (locked ≡ true) × (s ≡ notified)
Fits s locked l n sig entering =
    (locked ≡ true) × ((s ≡ parked_condvar) ⊎ ((s ≡ notified) × (0 < l)))
Fits s locked l n sig sleeping =
    (locked ≡ false)
    × ((s ≡ parked_condvar) ⊎ ((s ≡ notified) × ((0 < l) ⊎ (0 < n) ⊎ (sig ≡ true))))
Fits s locked l n sig storing = (locked ≡ true) × ((s ≡ parked_condvar) ⊎ (s ≡ notified))
Fits s locked l n sig panicked = ⊥
Fits s locked l n sig _ = (locked ≡ false) × ((s ≡ empty) ⊎ (s ≡ notified))

abbrev pub IsSound : Inner → Type 0
IsSound i =
    Fits i.state i.locked i.lockers i.notifiers i.signalled i.pc × (i.unpark_panicked ≡ false)

spin-IsSound :
    (n : ℕ) (i : Inner)
    → Fits i.state i.locked i.lockers i.notifiers i.signalled (spinning n)
    → i.unpark_panicked ≡ false
    → IsSound (spin n i)
unfolding spin
spin-IsSound n i f u = elim (Bool-cases (i.state == notified)) [
  | inl e ↦ rw (e, spin) ((f.0, inl refl), u)
  | inr e ↦ rw (e, spin) (f, u)
]

exchange-IsSound :
    (i : Inner)
    → Fits i.state i.locked i.lockers i.notifiers i.signalled exchanging
    → i.unpark_panicked ≡ false
    → IsSound (exchange i)
unfolding exchange
exchange-IsSound i (l, inl e) u = rw (e, exchange) ((l, inl refl), u)
exchange-IsSound i (l, inr e) u = rw (e, exchange) ((l, refl), u)

park_step-IsSound :
    (woken : Bool) (i j : Inner) (p : Pc)
    → Fits i.state i.locked i.lockers i.notifiers i.signalled p
    → i.unpark_panicked ≡ false
    → park_step woken i p ≡ some j
    → IsSound j
unfolding park_step
park_step-IsSound woken i j idle f u h = carry IsSound h (f, u)
park_step-IsSound woken i j (spinning zero) f u h = carry IsSound h (f, u)
park_step-IsSound woken i j (spinning (suc n)) f u h = carry IsSound h (spin-IsSound n i f u)
park_step-IsSound woken i j locking f u h = carry IsSound h ((refl, f.1), u)
park_step-IsSound woken i j exchanging f u h = carry IsSound h (exchange-IsSound i f u)
park_step-IsSound woken i j swapping (l, e) u h = carry IsSound (rw (e) at h) ((refl, inl refl), u)
park_step-IsSound woken i j entering (l, inl e) u h = carry IsSound h ((refl, inl e), u)
park_step-IsSound woken i j entering (l, inr (e, due)) u h =
    carry IsSound h ((refl, inr (e, inl due)), u)
park_step-IsSound true i j sleeping (l, inl e) u h = carry IsSound h ((refl, inl e), u)
park_step-IsSound true i j sleeping (l, inr (e, due)) u h = carry IsSound h ((refl, inr e), u)
park_step-IsSound false i j sleeping f u h = cc
park_step-IsSound woken i j storing f u h = carry IsSound h ((refl, inl refl), u)
park_step-IsSound woken i j panicked f u h = absurd f

Fits-unpark :
    (i : Inner) (p : Pc)
    → i.pc ≡ p
    → Fits i.state i.locked i.lockers i.notifiers i.signalled p
    → i.unpark_panicked ≡ false
    → IsSound (unpark i)
unfolding unpark
Fits-unpark i idle e f u = ground arith
Fits-unpark i p e f u = ground arith

Fits-locks :
    (i : Inner) (n : ℕ) (p : Pc)
    → i.lockers ≡ suc n
    → i.locked ≡ false
    → Fits i.state i.locked i.lockers i.notifiers i.signalled p
    → Fits i.state i.locked n (suc i.notifiers) i.signalled p
Fits-locks i n idle e free f = ground arith
Fits-locks i n p e free f = ground arith

Fits-notifies :
    (i : Inner) (n : ℕ) (p : Pc)
    → i.pc ≡ p
    → i.notifiers ≡ suc n
    → Fits i.state i.locked i.lockers i.notifiers i.signalled p
    → i.unpark_panicked ≡ false
    → IsSound (notify_one (record i { notifiers = n }))
unfolding notify_one
Fits-notifies i n idle e d f u = ground arith
Fits-notifies i n p e d f u = ground arith

Step-IsSound : {i j : Inner} → Step i j → IsSound i → IsSound j
Step-IsSound {i} (parks woken j h) v = park_step-IsSound woken i j i.pc v.0 v.1 h
Step-IsSound {i} unparks v = Fits-unpark i i.pc refl v.0 v.1
Step-IsSound {i} (locks n e free) v = (Fits-locks i n i.pc e free v.0, v.1)
Step-IsSound {i} (notifies n e) v = Fits-notifies i n i.pc refl e v.0 v.1

Reach-IsSound : {i : Inner} → Reach i → IsSound i
unfolding new
Reach-IsSound here = ((refl, inl refl), refl)
Reach-IsSound (next r st) = Step-IsSound st (Reach-IsSound r)

-- In every interleaving of the parker and any number of unparkers, neither `park_condvar` nor
-- `unpark` finds an inconsistent state: their panics are never reached.
pub states_consistent : {i : Inner} → Reach i → (i.pc ≢ panicked) × (i.unpark_panicked ≡ false)
states_consistent {i} r = let v = Reach-IsSound r in ((λ e. rw e at v.0), v.1)

-- If the parker sleeps in a reachable state and was notified since it went to sleep, then it has
-- been signalled or an unparker is on its way to signal it.
pub sleeper_is_told :
    {i : Inner}
    → Reach i
    → i.pc ≡ sleeping
    → i.state ≡ notified
    → (0 < i.lockers) ⊎ (0 < i.notifiers) ⊎ (i.signalled ≡ true)
sleeper_is_told {i} r e n = settle (rw e at (Reach-IsSound r).0)
  where
    settle :
        Fits i.state i.locked i.lockers i.notifiers i.signalled sleeping
        → (0 < i.lockers) ⊎ (0 < i.notifiers) ⊎ (i.signalled ≡ true)
    settle (l, inl x) = absurd (omega arith)
    settle (l, inr (x, due)) = due
