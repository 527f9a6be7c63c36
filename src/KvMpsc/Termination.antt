-- ===== src/KvMpsc/Termination.antt =====
-- kv_mpsc.rs: `sync_pop` without other threads, on fuel.
use pa_queue_and_chan.Prelude.{
  ℕ, zero, suc, ◌+◌, ◌*◌, ◌≤◌, ◌<◌, ◌≡◌, ap, inl, inr, Bool, true, false, Option, none, some, List,
  [], ◌∷◌, is_empty, ◌&&◌, arith, length, get, carry, Option-cases, Bool-cases, if◌then◌else◌,
}
use pa_queue_and_chan.External.Setting.{Setting}
use pa_queue_and_chan.KvMpsc.Defs.{
  Channel, Receiver, Pc, drain, pop_q, check_q, check_drop, check_end, take_listener, waiting,
  relisten, done, panicked, At, sync_pop_step, release_key, handle_msg, wait_step,
}

module _ (S : Setting) where
  open S use {K, V, key_eq, queues as Q, events as E}

  -- The loop of `sync_pop` for at most `fuel` steps.
  unfoldable pub sync_pop : ℕ → At S → At S
  sync_pop zero a = a
  sync_pop (suc fuel) a = elim (sync_pop_step S a.0 a.1 a.2) [ none ↦ a | some b ↦ sync_pop fuel b ]

  abbrev weight : Bool → ℕ
  weight true = 20
  weight false = 0

  abbrev listener_weight : Channel S → Option E.EventListener → ℕ
  listener_weight c none = 0
  listener_weight c (some l) = weight (E.notified c.wake_recv_event l)

  abbrev place : Channel S → Receiver S → Pc S → ℕ
  place c r drain = 9 + listener_weight c r.event_listener
  place c r pop_q = (if Q.no_entry c.drop_key_q then 8 else 12) + listener_weight c r.event_listener
  place c r check_q =
      (if Q.no_entry c.q then (if Q.no_entry c.drop_key_q then 7 else 11) else 10)
      + listener_weight c r.event_listener
  place c r check_drop =
      (if Q.no_entry c.drop_key_q then 6 else 10) + listener_weight c r.event_listener
  place c r check_end = 5 + listener_weight c r.event_listener
  place c r take_listener = 4 + listener_weight c r.event_listener
  place c r (waiting l) = 3 + weight (E.notified c.wake_recv_event l)
  place c r relisten = 12
  place c r (done m) = 0
  place c r panicked = 0

  -- Ten for each entry that is queued, and a part for where the loop stands.
  unfoldable pub measure : At S → ℕ
  measure a =
      10 * length (Q.entries a.0.q) + 10 * length (Q.entries a.0.drop_key_q) + place a.0 a.1 a.2

  release_key-measure :
      (j : K) (w : Option (List (K × V))) (c : Channel S) (r : Receiver S)
      → let a = release_key S j w c r in measure a ≤ measure (c, r, drain)
  unfolding release_key measure
  release_key-measure j none c r = ground arith
  release_key-measure j (some []) c r = ground arith
  release_key-measure j (some (m ∷ rest)) c r = ground arith

  handle_msg-measure :
      (j : K) (v : V) (w : Option (List (K × V))) (c : Channel S) (r : Receiver S)
      → let a = handle_msg S j v w c r in measure a ≤ measure (c, r, drain)
  unfolding handle_msg measure
  handle_msg-measure j v none c r = ground arith
  handle_msg-measure j v (some w) c r = ground arith

  abbrev Falls : At S → At S → Type 0
  Falls a b = measure b < measure a

  pub step-decreases :
      (c : Channel S) (r : Receiver S) (p : Pc S) (n : At S)
      → sync_pop_step S c r p ≡ some n
      → Falls (c, r, p) n
  unfolding sync_pop_step measure
  step-decreases c r drain n h = elim (Q.pop-Pops c.drop_key_q) [
    | inl (e, pe) ↦
        carry (Falls (c, r, drain)) (rw (pe, sync_pop_step) at h)
          (ground (arith, Q.no_entry_lem c.drop_key_q, e))
    | inr (j, rest, e, pe) ↦
        carry (Falls (c, r, drain)) (rw (pe, sync_pop_step) at h)
          (omega (arith, release_key-measure j _ (record c { drop_key_q = rest }) r, ap length e))
  ]
  step-decreases c r pop_q n h = elim (Q.pop-Pops c.q) [
    | inl (e, pe) ↦
        carry (Falls (c, r, pop_q)) (rw (pe, sync_pop_step) at h)
          (ground (arith, Q.no_entry_lem c.q, e))
    | inr ((j, v), rest, e, pe) ↦ carry (Falls (c, r, pop_q)) (rw (pe, sync_pop_step) at h) (
        ground
          (arith, handle_msg-measure j v (get key_eq j r.using_keys) (record c { q = rest }) r, e))
  ]
  step-decreases c r check_q n h = elim (Bool-cases (Q.no_entry c.q)) [
    | inl e ↦ carry (Falls (c, r, check_q)) (rw (e, sync_pop_step) at h) (ground arith)
    | inr e ↦ carry (Falls (c, r, check_q)) (rw (e, sync_pop_step) at h) (ground arith)
  ]
  step-decreases c r check_drop n h = elim (Bool-cases (Q.no_entry c.drop_key_q)) [
    | inl e ↦ carry (Falls (c, r, check_drop)) (rw (e, sync_pop_step) at h) (ground arith)
    | inr e ↦ carry (Falls (c, r, check_drop)) (rw (e, sync_pop_step) at h) (ground arith)
  ]
  step-decreases c r check_end n h =
      elim (Bool-cases (is_empty r.using_keys && c.senders_dropped)) [
        | inl e ↦ carry (Falls (c, r, check_end)) (rw (e, sync_pop_step) at h) (omega arith)
        | inr e ↦ carry (Falls (c, r, check_end)) (rw (e, sync_pop_step) at h) (omega arith)
      ]
  step-decreases c r take_listener n h = elim (Option-cases r.event_listener) [
    | inl e ↦ carry (Falls (c, r, take_listener)) (rw (e, sync_pop_step) at h) (omega arith)
    | inr (l, e) ↦ carry (Falls (c, r, take_listener)) (rw (e, sync_pop_step) at h) (ground arith)
  ]
  step-decreases c r (waiting l) n h = elim (Bool-cases (E.notified c.wake_recv_event l)) [
    | inl e ↦ carry (Falls (c, r, waiting l)) (rw (e, wait_step) at h) (ground arith)
    | inr e ↦ absurd (cc (rw (e, wait_step) at h))
  ]
  step-decreases c r relisten n h =
      carry (Falls (c, r, relisten)) h (ground (arith, E.notified-listen c.wake_recv_event))
  step-decreases c r (done m) n h = cc
  step-decreases c r panicked n h = cc

  -- With more fuel than `measure`, which grows by ten with each queued entry, `sync_pop` without
  -- interference comes to a state in which it makes no step: it has returned, has panicked, or is
  -- blocked in `l.wait()`.
  pub sync_pop_stops :
      (fuel : ℕ) (a : At S)
      → measure a < fuel
      → let b = sync_pop fuel a in sync_pop_step S b.0 b.1 b.2 ≡ none
  unfolding sync_pop
  sync_pop_stops zero a h = absurd (omega arith)
  sync_pop_stops (suc fuel) a h = elim (Option-cases (sync_pop_step S a.0 a.1 a.2)) [
    | inl e ↦ rw (e, sync_pop) e
    | inr (b, e) ↦
        rw (e, sync_pop) (sync_pop_stops fuel b (omega (arith, step-decreases a.0 a.1 a.2 b e)))
  ]
