-- ===== src/KvMpsc/Alone.antt =====
-- kv_mpsc.rs: the steps of `sync_pop` when no other thread takes one.
use pa_queue_and_chan.Prelude.{
  nil_of_empty, ◌≡◌, refl, sym, ◌∙◌, inl, inr, false, Option, none, some, List, [], ◌∷◌, is_empty,
  ◌&&◌, carry, Option-cases, Bool-cases,
}
use pa_queue_and_chan.External.Setting.{Setting}
use pa_queue_and_chan.KvMpsc.Defs.{
  Channel, Receiver, Pc, drain, pop_q, check_q, check_drop, check_end, take_listener, waiting,
  relisten, done, panicked, At, sync_pop_step, release_key, handle_msg, wait_step,
}

module _ (S : Setting) where
  open S use {K, V, key_eq, queues as Q, events as E}

  -- The queue has been seen to be empty.
  abbrev pub Seen : Channel S → Option (Pc S) → Type 0
  Seen c (some check_drop) = Q.entries c.q ≡ []
  Seen c (some check_end) = Q.entries c.q ≡ []
  Seen c (some (done none)) = Q.entries c.q ≡ []
  Seen c _ = Unit

  -- A step keeps the flags, and what it has seen.
  abbrev pub Alone : Channel S → At S → Type 0
  Alone c n =
      (n.0.senders_dropped ≡ c.senders_dropped)
      × (n.0.receiver_dropped ≡ c.receiver_dropped)
      × Seen n.0 (some n.2)

  release_key-Alone :
      (j : K) (w : Option (List (K × V))) (c d : Channel S) (r : Receiver S)
      → d.senders_dropped ≡ c.senders_dropped
      → d.receiver_dropped ≡ c.receiver_dropped
      → Alone c (release_key S j w d r)
  unfolding release_key
  release_key-Alone j none c d r e f = (e, f, tt)
  release_key-Alone j (some []) c d r e f = (e, f, tt)
  release_key-Alone j (some (m ∷ rest)) c d r e f = (e, f, tt)

  handle_msg-Alone :
      (j : K) (v : V) (w : Option (List (K × V))) (c d : Channel S) (r : Receiver S)
      → d.senders_dropped ≡ c.senders_dropped
      → d.receiver_dropped ≡ c.receiver_dropped
      → Alone c (handle_msg S j v w d r)
  unfolding handle_msg
  handle_msg-Alone j v none c d r e f = (e, f, tt)
  handle_msg-Alone j v (some w) c d r e f = (e, f, tt)

  pub sync_pop-Alone :
      (c : Channel S) (r : Receiver S) (p : Pc S) (n : At S)
      → Seen c (some p)
      → sync_pop_step S c r p ≡ some n
      → Alone c n
  unfolding sync_pop_step
  sync_pop-Alone c r drain n s h = elim (Q.pop-Pops c.drop_key_q) [
    | inl (e, pe) ↦ carry (Alone c) (rw (pe, sync_pop_step) at h) (refl, refl, tt)
    | inr (j, rest, e, pe) ↦
        carry (Alone c) (rw (pe, sync_pop_step) at h)
          (release_key-Alone j _ c (record c { drop_key_q = rest }) r refl refl)
  ]
  sync_pop-Alone c r pop_q n s h = elim (Q.pop-Pops c.q) [
    | inl (e, pe) ↦ carry (Alone c) (rw (pe, sync_pop_step) at h) (refl, refl, tt)
    | inr ((j, v), rest, e, pe) ↦
        carry (Alone c) (rw (pe, sync_pop_step) at h)
          (handle_msg-Alone j v _ c (record c { q = rest }) r refl refl)
  ]
  sync_pop-Alone c r check_q n s h = elim (Bool-cases (Q.no_entry c.q)) [
    | inl e ↦
        carry (Alone c) (rw (e, sync_pop_step) at h)
          (refl, refl, nil_of_empty _ (sym (Q.no_entry_lem c.q) ∙ e))
    | inr e ↦ carry (Alone c) (rw (e, sync_pop_step) at h) (refl, refl, tt)
  ]
  sync_pop-Alone c r check_drop n s h = elim (Bool-cases (Q.no_entry c.drop_key_q)) [
    | inl e ↦ carry (Alone c) (rw (e, sync_pop_step) at h) (refl, refl, s)
    | inr e ↦ carry (Alone c) (rw (e, sync_pop_step) at h) (refl, refl, tt)
  ]
  sync_pop-Alone c r check_end n s h =
      elim (Bool-cases (is_empty r.using_keys && c.senders_dropped)) [
        | inl e ↦ carry (Alone c) (rw (e, sync_pop_step) at h) (refl, refl, s)
        | inr e ↦ carry (Alone c) (rw (e, sync_pop_step) at h) (refl, refl, tt)
      ]
  sync_pop-Alone c r take_listener n s h = elim (Option-cases r.event_listener) [
    | inl e ↦ carry (Alone c) (rw (e, sync_pop_step) at h) (refl, refl, tt)
    | inr (l, e) ↦ carry (Alone c) (rw (e, sync_pop_step) at h) (refl, refl, tt)
  ]
  sync_pop-Alone c r (waiting l) n s h = elim (Bool-cases (E.notified c.wake_recv_event l)) [
    | inl e ↦ carry (Alone c) (rw (e, wait_step) at h) (refl, refl, tt)
    | inr e ↦ absurd (cc (rw (e, wait_step) at h))
  ]
  sync_pop-Alone c r relisten n s h = carry (Alone c) h (refl, refl, tt)
  sync_pop-Alone c r (done m) n s h = cc
  sync_pop-Alone c r panicked n s h = cc

  -- Where `sync_pop` makes no step.
  pub data Stopped (c : Channel S) : Pc S → Type 0 where
    is_done : (m : Option (K × V)) → Stopped c (done m)
    is_panicked : Stopped c panicked
    is_blocked :
        (l : E.EventListener) → E.notified c.wake_recv_event l ≡ false → Stopped c (waiting l)

  pub stops_at :
      (c : Channel S) (r : Receiver S) (p : Pc S) → sync_pop_step S c r p ≡ none → Stopped c p
  unfolding sync_pop_step
  stops_at c r drain h = elim (Q.pop-Pops c.drop_key_q) [
    | inl (e, pe) ↦ absurd (cc (rw (pe, sync_pop_step) at h))
    | inr (j, rest, e, pe) ↦ absurd (cc (rw (pe, sync_pop_step) at h))
  ]
  stops_at c r pop_q h = elim (Q.pop-Pops c.q) [
    | inl (e, pe) ↦ absurd (cc (rw (pe, sync_pop_step) at h))
    | inr ((j, v), rest, e, pe) ↦ absurd (cc (rw (pe, sync_pop_step) at h))
  ]
  stops_at c r check_q h = absurd (cc)
  stops_at c r check_drop h = absurd (cc)
  stops_at c r check_end h = absurd (cc)
  stops_at c r take_listener h = elim (Option-cases r.event_listener) [
    | inl e ↦ absurd (cc (rw (e, sync_pop_step) at h))
    | inr (l, e) ↦ absurd (cc (rw (e, sync_pop_step) at h))
  ]
  stops_at c r (waiting l) h = elim (Bool-cases (E.notified c.wake_recv_event l)) [
    | inl e ↦ absurd (cc (rw (e, wait_step) at h))
    | inr e ↦ is_blocked l e
  ]
  stops_at c r relisten h = absurd (cc)
  stops_at c r (done m) h = is_done m
  stops_at c r panicked h = is_panicked
