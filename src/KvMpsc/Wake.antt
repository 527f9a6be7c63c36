-- ===== src/KvMpsc/Wake.antt =====
-- kv_mpsc.rs: the receiver's listener, and what a waiting receiver may have missed.
use pa_queue_and_chan.Prelude.{
  ℕ, ◌<◌, ◌≡◌, refl, ◌⊎◌, inl, inr, Bool, true, false, Option, none, some, List, [], ◌∷◌, arith,
  Map, is_empty, carry, Bool-cases, Option-cases, ◌&&◌,
}
use pa_queue_and_chan.External.Setting.{Setting}
use pa_queue_and_chan.KvMpsc.Defs.{
  Channel, Receiver, Pc, drain, pop_q, check_q, check_drop, check_end, take_listener, waiting,
  relisten, done, panicked, At, sync_pop_step, release_key, handle_msg, wait_step,
}

module _ (S : Setting) where
  open S use {K, V, key_eq, queues as Q, events as E}

  -- The listener is registered but between the end of a wait and the next `listen`.
  abbrev pub Listens : E.Event → Option E.EventListener → Option (Pc S) → Type 0
  Listens e o (some (waiting l)) = E.IsSole e l
  Listens e o (some relisten) = E.IsFree e
  Listens e o _ = (l : E.EventListener) × (o ≡ some l) × E.IsSole e l

  -- Something that the receiver looked for is absent, or it will be woken: its listener is
  -- notified, or a thread is about to notify it.
  abbrev pub Absent : Type 0 → ℕ → Channel S → E.EventListener → Type 0
  Absent A n c l = A ⊎ (0 < n) ⊎ (E.notified c.wake_recv_event l ≡ true)

  pub record Sees (drops msgs ends : Bool) (n : ℕ) (c : Channel S) (u : Map K (List (K × V)))
      (l : E.EventListener) : Type 0 where
    pub no_drop : drops ≡ true → Absent (Q.entries c.drop_key_q ≡ []) n c l
    pub no_msg : msgs ≡ true → Absent (Q.entries c.q ≡ []) n c l
    pub no_end : ends ≡ true → Absent ((c.senders_dropped ≡ false) ⊎ (is_empty u ≡ false)) n c l

  -- What the receiver has seen at each place.
  abbrev pub Wakes : ℕ → Channel S → Receiver S → Option (Pc S) → Type 0
  Wakes n c r (some pop_q) =
      (l : E.EventListener) → r.event_listener ≡ some l → Sees true false false n c r.using_keys l
  Wakes n c r (some check_q) =
      (l : E.EventListener) → r.event_listener ≡ some l → Sees true true false n c r.using_keys l
  Wakes n c r (some check_drop) =
      (l : E.EventListener) → r.event_listener ≡ some l → Sees true true false n c r.using_keys l
  Wakes n c r (some check_end) =
      (l : E.EventListener) → r.event_listener ≡ some l → Sees true true false n c r.using_keys l
  Wakes n c r (some take_listener) =
      (l : E.EventListener) → r.event_listener ≡ some l → Sees true true true n c r.using_keys l
  Wakes n c r (some (waiting l)) = Sees true true true n c r.using_keys l
  Wakes n c r _ = Unit

  release_key-Listens :
      (j : K) (w : Option (List (K × V))) (c : Channel S) (r : Receiver S)
      → Listens c.wake_recv_event r.event_listener (some drain)
      → let n = release_key S j w c r in Listens n.0.wake_recv_event n.1.event_listener (some n.2)
  unfolding release_key
  release_key-Listens j none c r h = h
  release_key-Listens j (some []) c r h = h
  release_key-Listens j (some (m ∷ rest)) c r h = h

  handle_msg-Listens :
      (j : K) (v : V) (w : Option (List (K × V))) (c : Channel S) (r : Receiver S)
      → Listens c.wake_recv_event r.event_listener (some pop_q)
      → let n = handle_msg S j v w c r in Listens n.0.wake_recv_event n.1.event_listener (some n.2)
  unfolding handle_msg
  handle_msg-Listens j v none c r h = h
  handle_msg-Listens j v (some w) c r h = h

  abbrev AtListens : At S → Type 0
  AtListens m = Listens m.0.wake_recv_event m.1.event_listener (some m.2)

  pub sync_pop-Listens :
      (c : Channel S) (r : Receiver S) (p : Pc S) (n : At S)
      → Listens c.wake_recv_event r.event_listener (some p)
      → sync_pop_step S c r p ≡ some n
      → Listens n.0.wake_recv_event n.1.event_listener (some n.2)
  unfolding sync_pop_step
  sync_pop-Listens c r drain n i h = elim (Q.pop-Pops c.drop_key_q) [
    | inl (e, pe) ↦ carry AtListens (rw (pe, sync_pop_step) at h) i
    | inr (j, rest, e, pe) ↦
        carry AtListens (rw (pe, sync_pop_step) at h)
          (release_key-Listens j _ (record c { drop_key_q = rest }) r i)
  ]
  sync_pop-Listens c r pop_q n i h = elim (Q.pop-Pops c.q) [
    | inl (e, pe) ↦ carry AtListens (rw (pe, sync_pop_step) at h) i
    | inr ((j, v), rest, e, pe) ↦
        carry AtListens (rw (pe, sync_pop_step) at h)
          (handle_msg-Listens j v _ (record c { q = rest }) r i)
  ]
  sync_pop-Listens c r check_q n i h = elim (Bool-cases (Q.no_entry c.q)) [
    | inl e ↦ carry AtListens (rw (e, sync_pop_step) at h) i
    | inr e ↦ carry AtListens (rw (e, sync_pop_step) at h) i
  ]
  sync_pop-Listens c r check_drop n i h = elim (Bool-cases (Q.no_entry c.drop_key_q)) [
    | inl e ↦ carry AtListens (rw (e, sync_pop_step) at h) i
    | inr e ↦ carry AtListens (rw (e, sync_pop_step) at h) i
  ]
  sync_pop-Listens c r check_end n i h =
      elim (Bool-cases (is_empty r.using_keys && c.senders_dropped)) [
        | inl e ↦ carry AtListens (rw (e, sync_pop_step) at h) i
        | inr e ↦ carry AtListens (rw (e, sync_pop_step) at h) i
      ]
  sync_pop-Listens c r take_listener n (l, e, i) h = carry AtListens (rw (e, sync_pop_step) at h) i
  sync_pop-Listens c r (waiting l) n i h = elim (Bool-cases (E.notified c.wake_recv_event l)) [
    | inl e ↦ carry AtListens (rw (e, wait_step) at h) (E.wait-IsFree l c.wake_recv_event i)
    | inr e ↦ absurd (cc (rw (e, wait_step) at h))
  ]
  sync_pop-Listens c r relisten n i h =
      carry AtListens h ((E.listen c.wake_recv_event).0, refl, E.listen-IsSole c.wake_recv_event i)
  sync_pop-Listens c r (done m) n i h = cc
  sync_pop-Listens c r panicked n i h = cc

  release_key-Wakes :
      (n : ℕ) (j : K) (w : Option (List (K × V))) (c : Channel S) (r : Receiver S)
      → let m = release_key S j w c r in Wakes n m.0 m.1 (some m.2)
  unfolding release_key
  release_key-Wakes n j none c r = tt
  release_key-Wakes n j (some []) c r = tt
  release_key-Wakes n j (some (m ∷ rest)) c r = tt

  handle_msg-Wakes :
      (n : ℕ) (j : K) (v : V) (w : Option (List (K × V))) (c : Channel S) (r : Receiver S)
      → let m = handle_msg S j v w c r in Wakes n m.0 m.1 (some m.2)
  unfolding handle_msg
  handle_msg-Wakes n j v none c r = tt
  handle_msg-Wakes n j v (some w) c r = tt

  abbrev AtWakes : ℕ → At S → Type 0
  AtWakes k m = Wakes k m.0 m.1 (some m.2)

  -- A receiver that does not end by `check_end` has a reason to wait.
  end_reason : (u d : Bool) → (u && d) ≡ false → (d ≡ false) ⊎ (u ≡ false)
  end_reason u d h = ground arith

  pub sync_pop-Wakes :
      (k : ℕ) (c : Channel S) (r : Receiver S) (p : Pc S) (n : At S)
      → Wakes k c r (some p)
      → sync_pop_step S c r p ≡ some n
      → Wakes k n.0 n.1 (some n.2)
  unfolding sync_pop_step
  sync_pop-Wakes k c r drain n i h = elim (Q.pop-Pops c.drop_key_q) [
    | inl (e, pe) ↦
        carry (AtWakes k) (rw (pe, sync_pop_step) at h)
          (λ l o. record { no_drop = λ x. inl e; no_msg = λ x. cc; no_end = λ x. cc })
    | inr (j, rest, e, pe) ↦
        carry (AtWakes k) (rw (pe, sync_pop_step) at h)
          (release_key-Wakes k j _ (record c { drop_key_q = rest }) r)
  ]
  sync_pop-Wakes k c r pop_q n i h = elim (Q.pop-Pops c.q) [
    | inl (e, pe) ↦
        carry (AtWakes k) (rw (pe, sync_pop_step) at h)
          (λ l o. record { no_drop = (i l o).no_drop; no_msg = λ x. inl e; no_end = λ x. cc })
    | inr ((j, v), rest, e, pe) ↦
        carry (AtWakes k) (rw (pe, sync_pop_step) at h)
          (handle_msg-Wakes k j v _ (record c { q = rest }) r)
  ]
  sync_pop-Wakes k c r check_q n i h = elim (Bool-cases (Q.no_entry c.q)) [
    | inl e ↦ carry (AtWakes k) (rw (e, sync_pop_step) at h) i
    | inr e ↦ carry (AtWakes k) (rw (e, sync_pop_step) at h) tt
  ]
  sync_pop-Wakes k c r check_drop n i h = elim (Bool-cases (Q.no_entry c.drop_key_q)) [
    | inl e ↦ carry (AtWakes k) (rw (e, sync_pop_step) at h) i
    | inr e ↦ carry (AtWakes k) (rw (e, sync_pop_step) at h) tt
  ]
  sync_pop-Wakes k c r check_end n i h =
      elim (Bool-cases (is_empty r.using_keys && c.senders_dropped)) [
        | inl e ↦ carry (AtWakes k) (rw (e, sync_pop_step) at h) tt
        | inr e ↦ carry (AtWakes k) (rw (e, sync_pop_step) at h) λ l o. record {
          no_drop = (i l o).no_drop;
          no_msg = (i l o).no_msg;
          no_end = λ x. inl (end_reason (is_empty r.using_keys) c.senders_dropped e);
        }
      ]
  sync_pop-Wakes k c r take_listener n i h = elim (Option-cases r.event_listener) [
    | inl e ↦ carry (AtWakes k) (rw (e, sync_pop_step) at h) tt
    | inr (l, e) ↦ carry (AtWakes k) (rw (e, sync_pop_step) at h) (i l e)
  ]
  sync_pop-Wakes k c r (waiting l) n i h = elim (Bool-cases (E.notified c.wake_recv_event l)) [
    | inl e ↦ carry (AtWakes k) (rw (e, wait_step) at h) tt
    | inr e ↦ absurd (cc (rw (e, wait_step) at h))
  ]
  sync_pop-Wakes k c r relisten n i h = carry (AtWakes k) h tt
  sync_pop-Wakes k c r (done m) n i h = cc
  sync_pop-Wakes k c r panicked n i h = cc
