-- ===== src/LightSync/Returns.antt =====
-- lightsync.rs: a notified `wait` returns; and the tests `test_speed`, `test_notify` and
-- `test_notify_mt`.
use pa_queue_and_chan.Prelude.{
  ℕ, zero, suc, ◌≡◌, refl, sym, ap, subst, ◌∙◌, ◌⊎◌, inl, inr, arith, Bool, true, false, Option,
  none, some, ◌==◌, ◌<◌, not, if◌then◌else◌,
}
use pa_queue_and_chan.LightSync.Defs.{
  LightSync, idle, arming, parking, new, register, wait_step, notify, unpark, Reach,
}
use pa_queue_and_chan.LightSync.Safety.{Reach-IsSound, parked_is_told}

-- A number of steps of the waiting thread; `none` where it blocks.
unfoldable pub wait_steps : ℕ → ℕ → LightSync → Option LightSync
wait_steps me zero s = some s
wait_steps me (suc n) s = elim (wait_step me s s.pc) [ none ↦ none | some s' ↦ wait_steps me n s' ]

-- Every notifier that has swapped the flag calls `unpark`.
unfoldable pub unpark_all : ℕ → ℕ → LightSync → LightSync
unpark_all me zero s = s
unpark_all me (suc n) s = unpark_all me n (unpark me (record s { unparkers = n }))

-- `test_speed`: rounds of a `wait`, which comes to `park`, of a `notify`, and of the return.
unfoldable pub round_returns : ℕ → Option LightSync → Option LightSync
unfolding wait_steps
round_returns me none = none
round_returns me (some s) = wait_steps me 2 (unpark_all me 1 (notify s))

unfoldable pub test_speed : ℕ → ℕ → LightSync → Option LightSync
unfolding wait_steps round_returns
test_speed me zero s = some s
test_speed me (suc n) s = elim (round_returns me (wait_steps me 4 s)) [
  | none ↦ none
  | some s' ↦ test_speed me n s'
]

-- `test_notify`, and `test_notify_mt` with the product of its bounds
unfoldable pub test_notify : ℕ → LightSync → LightSync
unfolding notify
test_notify zero s = s
test_notify (suc n) s = test_notify n (notify s)

notify-quiet : (s : LightSync) → s.waiting ≡ false → notify s ≡ s
unfolding notify
notify-quiet s w =
    ap (λ (b : Bool). if b then record s { waiting = false; unparkers = suc s.unparkers } else s) w

-- Without a waiting thread, notifications change nothing.
pub test_notify-quiet : (n : ℕ) (s : LightSync) → s.waiting ≡ false → test_notify n s ≡ s
unfolding test_notify
test_notify-quiet zero s w = refl
test_notify-quiet (suc n) s w = ap (test_notify n) (notify-quiet s w) ∙ test_notify-quiet n s w

-- What the returned thread leaves.
abbrev pub Returned : LightSync → Option LightSync → Type 0
Returned s r =
    (s' : LightSync) × (r ≡ some s')
    × (s'.pc ≡ idle)
    × (s'.waiting ≡ false)
    × (s'.wait_thread ≡ s.wait_thread)

told-returns :
    (me : ℕ) (s : LightSync)
    → s.pc ≡ parking
    → s.waiting ≡ false
    → s.token ≡ true
    → Returned s (wait_steps me 2 s)
unfolding wait_steps wait_step
told-returns me s p w t =
    rw (p, wait_steps, t)
      (
        record s { pc = idle; token = false },
        ap
            (λ (b : Bool). some (
              if b
              then record s { pc = parking; token = false }
              else record s { pc = idle; token = false }))
            w,
        refl,
        w,
        refl,
      )

unpark-registered :
    (me n : ℕ) (s : LightSync)
    → s.wait_thread.1 ≡ some me
    → unpark me (record s { unparkers = n }) ≡ record s { unparkers = n; token = true }
unfolding unpark
unpark-registered me n s h = ground arith

-- The thread has a token when the notifiers are through.
abbrev Told : LightSync → LightSync → Type 0
Told s s' =
    (s'.pc ≡ parking) × (s'.waiting ≡ false) × (s'.token ≡ true) × (s'.wait_thread ≡ s.wait_thread)

unpark_all-Told :
    (me k : ℕ) (s : LightSync)
    → s.wait_thread.1 ≡ some me
    → s.pc ≡ parking
    → s.waiting ≡ false
    → (s.token ≡ true) ⊎ (0 < k)
    → Told s (unpark_all me k s)
unfolding unpark_all
unpark_all-Told me zero s h p w (inl t) = (p, w, t, refl)
unpark_all-Told me zero s h p w (inr t) = absurd (omega arith)
unpark_all-Told me (suc k) s h p w d =
    subst (λ z. Told s (unpark_all me k z)) (sym (unpark-registered me k s h))
      (unpark_all-Told me k (record s { unparkers = k; token = true }) h p w (inl refl))

-- If the waiting thread has come to `park` in a reachable state, and a notifier has cleared the
-- flag, then once the notifiers on their way have called `unpark`, the thread leaves `wait` in two
-- steps of its own.
pub notified_returns :
    (me : ℕ) {s : LightSync}
    → Reach me s
    → s.pc ≡ parking
    → s.waiting ≡ false
    → Returned s (wait_steps me 2 (unpark_all me s.unparkers s))
notified_returns me {s} r p w =
    let h = (rw p at (Reach-IsSound me r).0).0 in
    let (p', w', t', e) = unpark_all-Told me s.unparkers s h p w (parked_is_told me r p w) in
    let (s', f, q, v, g) = told-returns me (unpark_all me s.unparkers s) p' w' t' in
    (s', f, q, v, g ∙ e)

-- What a thread that has been through `wait` leaves.
abbrev pub rested : ℕ → LightSync
rested me = record {
  waiting = false;
  wait_thread = (me, some me);
  pc = idle;
  token = false;
  unparkers = 0;
  unwrap_panicked = false;
}

eq_self : (n : ℕ) → (n == n) ≡ true
eq_self n = ground arith

round-rested : (me : ℕ) → round_returns me (wait_steps me 4 (rested me)) ≡ some (rested me)
unfolding round_returns wait_steps wait_step register notify unpark unpark_all
round-rested me =
    ap
      (λ (b : Bool). round_returns me (
        wait_steps me 2 (
          if not b
          then record (rested me) { wait_thread = (me, some me); pc = arming }
          else record (rested me) { pc = arming })))
      (eq_self me)
    ∙ rw (eq_self me)

round-new : (me : ℕ) → round_returns me (wait_steps me 4 new) ≡ some (rested me)
unfolding round_returns wait_steps wait_step register notify unpark unpark_all new
round-new me = rw (eq_self me)

-- One round, and any number of further rounds, return.
pub test_speed-rested : (me n : ℕ) → test_speed me (suc n) new ≡ some (rested me)
unfolding test_speed
test_speed-rested me n = rw (round-new me, test_speed) (again n)
  where
    again : (k : ℕ) → test_speed me k (rested me) ≡ some (rested me)
    again zero = refl
    again (suc k) = rw (round-rested me, test_speed) (again k)
