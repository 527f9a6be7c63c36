-- ===== src/LightSync/Safety.antt =====
-- lightsync.rs: the states that one waiting thread and its notifiers can reach.
use pa_queue_and_chan.Prelude.{
  ℕ, suc, ◌<◌, ◌≡◌, ◌≢◌, refl, ◌⊎◌, inl, inr, arith, Bool, true, false, Option, none, some,
  Bool-cases, carry,
}
use pa_queue_and_chan.LightSync.Defs.{
  LightSync, Pc, idle, registering, arming, checking, parking, panicked, new, register, wait_step,
  notify, unpark, Step, waits, wakes, notifies, unparks, Reach, here, next,
}

-- What the place of the thread says of the shared state.
abbrev pub Fits : ℕ → Bool → Option ℕ → Bool → ℕ → Pc → Type 0
Fits me waiting handle token unparkers arming = (waiting ≡ false) × (handle ≡ some me)
Fits me waiting handle token unparkers checking = handle ≡ some me
Fits me waiting handle token unparkers parking =
    (handle ≡ some me) × ((waiting ≡ true) ⊎ (token ≡ true) ⊎ (0 < unparkers))
Fits me waiting handle token unparkers panicked = ⊥
Fits me waiting handle token unparkers _ =
    (waiting ≡ false) × ((handle ≡ some me) ⊎ ((handle ≡ none) × (unparkers ≡ 0)))

abbrev pub IsSound : ℕ → LightSync → Type 0
IsSound me s =
    Fits me s.waiting s.wait_thread.1 s.token s.unparkers s.pc × (s.unwrap_panicked ≡ false)

register-IsSound :
    (me : ℕ) (s : LightSync)
    → Fits me s.waiting s.wait_thread.1 s.token s.unparkers registering
    → s.unwrap_panicked ≡ false
    → IsSound me (register me s)
unfolding register
register-IsSound me s (w, inl e) u = ground arith
register-IsSound me s (w, inr (e, z)) u = rw (e, register) ((w, refl), u)

wait_step-IsSound :
    (me : ℕ) (s s' : LightSync) (p : Pc)
    → Fits me s.waiting s.wait_thread.1 s.token s.unparkers p
    → s.unwrap_panicked ≡ false
    → wait_step me s p ≡ some s'
    → IsSound me s'
unfolding wait_step
wait_step-IsSound me s s' idle f u h = carry (IsSound me) h (f, u)
wait_step-IsSound me s s' registering f u h = carry (IsSound me) h (register-IsSound me s f u)
wait_step-IsSound me s s' arming (w, e) u h = carry (IsSound me) h (rw (w) (e, u))
wait_step-IsSound me s s' checking e u h = elim (Bool-cases s.waiting) [
  | inl w ↦ carry (IsSound me) (rw (w, wait_step) at h) ((e, inl refl), u)
  | inr w ↦ carry (IsSound me) (rw (w, wait_step) at h) ((refl, inl e), u)
]
wait_step-IsSound me s s' parking (e, d) u h = elim (Bool-cases s.token) [
  | inl t ↦ carry (IsSound me) (rw (t, wait_step) at h) (e, u)
  | inr t ↦ cc
]
wait_step-IsSound me s s' panicked f u h = absurd f

notify-IsSound :
    (me : ℕ) (s : LightSync) (p : Pc)
    → s.pc ≡ p
    → Fits me s.waiting s.wait_thread.1 s.token s.unparkers p
    → s.unwrap_panicked ≡ false
    → IsSound me (notify s)
unfolding notify
notify-IsSound me s idle e f u = ground arith
notify-IsSound me s registering e f u = ground arith
notify-IsSound me s arming e f u = ground arith
notify-IsSound me s checking e f u = ground arith
notify-IsSound me s parking e f u = ground arith
notify-IsSound me s panicked e f u = absurd f

unpark-IsSound :
    (me n : ℕ) (s : LightSync) (p : Pc)
    → s.pc ≡ p
    → s.unparkers ≡ suc n
    → Fits me s.waiting s.wait_thread.1 s.token s.unparkers p
    → s.unwrap_panicked ≡ false
    → IsSound me (unpark me (record s { unparkers = n }))
unfolding unpark
unpark-IsSound me n s idle e k f u = ground arith
unpark-IsSound me n s registering e k f u = ground arith
unpark-IsSound me n s arming e k f u = ground arith
unpark-IsSound me n s checking e k f u = ground arith
unpark-IsSound me n s parking e k f u = ground arith
unpark-IsSound me n s panicked e k f u = absurd f

Step-IsSound : (me : ℕ) {s s' : LightSync} → Step me s s' → IsSound me s → IsSound me s'
Step-IsSound me {s} (waits s' h) v = wait_step-IsSound me s s' s.pc v.0 v.1 h
Step-IsSound me {s} (wakes e) v = ((rw e at v.0).0, v.1)
Step-IsSound me {s} notifies v = notify-IsSound me s s.pc refl v.0 v.1
Step-IsSound me {s} (unparks n k) v = unpark-IsSound me n s s.pc refl k v.0 v.1

pub Reach-IsSound : (me : ℕ) {s : LightSync} → Reach me s → IsSound me s
unfolding new
Reach-IsSound me here = ((refl, inr (refl, refl)), refl)
Reach-IsSound me (next r st) = Step-IsSound me st (Reach-IsSound me r)

-- In every interleaving of one waiting thread and any number of notifiers, `wait` does not find the
-- flag set before it sets it, and `notify` does not find the handle missing: neither panics.
pub wait_never_panics :
    (me : ℕ) {s : LightSync} → Reach me s → (s.pc ≢ panicked) × (s.unwrap_panicked ≡ false)
wait_never_panics me {s} r = let v = Reach-IsSound me r in ((λ e. rw e at v.0), v.1)

-- If the waiting thread is about to park, or parked, in a reachable state and the flag has been
-- cleared by a notifier, then its park token is there or a notifier is on its way to give it.
pub parked_is_told :
    (me : ℕ) {s : LightSync}
    → Reach me s
    → s.pc ≡ parking
    → s.waiting ≡ false
    → (s.token ≡ true) ⊎ (0 < s.unparkers)
parked_is_told me {s} r e w = settle (rw e at (Reach-IsSound me r).0)
  where
    settle :
        Fits me s.waiting s.wait_thread.1 s.token s.unparkers parking
        → (s.token ≡ true) ⊎ (0 < s.unparkers)
    settle (h, inl x) = cc
    settle (h, inr d) = d
