-- ===== src/KvMpscMultik/Threads/Looks.antt =====
-- kv_mpsc_multik.rs: the steps of `sync_pop` keep what is known of its listener and its looks.
use pa_queue_and_chan.Prelude.{
  ℕ, ◌≡◌, refl, inl, inr, false, not, Option, none, some, List, arith, carry, Bool-cases, ◌&&◌,
  Outcome, ok, panic,
}
use pa_queue_and_chan.External.Setting.{Setting}
use pa_queue_and_chan.KvMpscMultik.Conflict.{ConflictManager}
use pa_queue_and_chan.KvMpscMultik.Manager.{waitingmsgs_exist}
use pa_queue_and_chan.KvMpscMultik.Channels.{
  Channel, Receiver, Pc, drain, pop_q, check_q, check_drop, check_end, take_listener, waiting,
  relisten, done, panicked, At, sync_pop_step, after_call,
}
use pa_queue_and_chan.KvMpscMultik.Threads.Wake.{Registered, Seen, NoEnd}

module _ (S : Setting) (hash_order : List ℕ → List ℕ) where
  open S use {K, V, key_eq, queues as Q, events as E}

  -- What is kept of a state of the receiver.
  abbrev Keeps : ℕ → At S hash_order → Type 0
  Keeps k n =
      Registered S n.0.wake_recv_event n.1.event_listener (some n.2) × Seen S k n.0 n.1 (some n.2)

  after_call-Keeps :
      (k : ℕ) (c : Channel S) (r : Receiver S)
      (o : Outcome (Option (List K × V) × ConflictManager K V))
      → Registered S c.wake_recv_event r.event_listener (some drain)
      → Keeps k (after_call S hash_order c r drain o)
  unfolding after_call
  after_call-Keeps k c r panic h = (tt, tt)
  after_call-Keeps k c r (ok (none, m)) h = (h, tt)
  after_call-Keeps k c r (ok (some res, m)) h = (h, tt)

  -- A receiver that does not end has a reason to wait.
  end_reason :
      (c : Channel S) (m : ConflictManager K V)
      → (not (waitingmsgs_exist key_eq m) && c.senders_dropped) ≡ false
      → NoEnd S c m
  end_reason c m h = ground arith

  pub sync_pop-Keeps :
      (k : ℕ) (c : Channel S) (r : Receiver S) (p : Pc S) (n : At S hash_order)
      → sync_pop_step S hash_order c r p ≡ some n
      → Keeps k (c, r, p)
      → Keeps k n
  unfolding sync_pop_step
  sync_pop-Keeps k c r drain n h (i, w) = elim (Q.pop-Pops c.drop_key_q) [
    | inl (e, pe) ↦ carry (Keeps k) (rw (pe, sync_pop_step) at h) (i, λ l _. inr e)
    | inr (j, rest, e, pe) ↦
        carry (Keeps k) (rw (pe, sync_pop_step) at h)
          (after_call-Keeps k (record c { drop_key_q = rest }) r _ i)
  ]
  sync_pop-Keeps k c r pop_q n h (i, w) = elim (Q.pop-Pops c.q) [
    | inl (e, pe) ↦
        carry (Keeps k) (rw (pe, sync_pop_step) at h)
          (i, λ l o. elim (w l o) [ inl a ↦ inl a | inr b ↦ inr (b, e) ])
    | inr (msg, rest, e, pe) ↦
        carry (Keeps k) (rw (pe, sync_pop_step) at h)
          (after_call-Keeps k (record c { q = rest }) r _ i)
  ]
  sync_pop-Keeps k c r check_q n h (i, w) = elim (Bool-cases (Q.no_entry c.q)) [
    | inl e ↦ carry (Keeps k) (rw (e, sync_pop_step) at h) (i, w)
    | inr e ↦ carry (Keeps k) (rw (e, sync_pop_step) at h) (i, tt)
  ]
  sync_pop-Keeps k c r check_drop n h (i, w) = elim (Bool-cases (Q.no_entry c.drop_key_q)) [
    | inl e ↦ carry (Keeps k) (rw (e, sync_pop_step) at h) (i, w)
    | inr e ↦ carry (Keeps k) (rw (e, sync_pop_step) at h) (i, tt)
  ]
  sync_pop-Keeps k c r check_end n h (i, w) =
      elim (Bool-cases (not (waitingmsgs_exist key_eq r.conflict_manager) && c.senders_dropped)) [
        | inl e ↦ carry (Keeps k) (rw (e, sync_pop_step) at h) (i, tt)
        | inr e ↦ carry (Keeps k) (rw (e, sync_pop_step) at h) (
          i,
          λ l o. elim (w l o) [
            | inl a ↦ inl a
            | inr (a, b) ↦ inr (a, b, end_reason c r.conflict_manager e)
          ],
        )
      ]
  sync_pop-Keeps k c r take_listener n h ((l, e, i), w) =
      carry (Keeps k) (rw (e, sync_pop_step) at h) (i, w l e)
  sync_pop-Keeps k c r (waiting l) n h (i, w) = elim (Bool-cases (E.notified c.wake_recv_event l)) [
    | inl e ↦ carry (Keeps k) (rw (e, sync_pop_step) at h) (E.wait-IsFree l c.wake_recv_event i, tt)
    | inr e ↦ absurd (cc (rw (e, sync_pop_step) at h))
  ]
  sync_pop-Keeps k c r relisten n h (i, w) =
      carry (Keeps k) h
        (((E.listen c.wake_recv_event).0, refl, E.listen-IsSole c.wake_recv_event i), tt)
  sync_pop-Keeps k c r (done m) n h (i, w) = cc
  sync_pop-Keeps k c r panicked n h (i, w) = cc
