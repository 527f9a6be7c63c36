-- ===== src/KvMpscMultik/Threads/Waiting.antt =====
-- kv_mpsc_multik.rs: while messages wait in the channel, received ones hold their keys.
use pa_queue_and_chan.Prelude.{
  ℕ, ◌+◌, ◌≡◌, sym, ap, subst, ◌∙◌, inl, inr, arith, Option, none, some, List, count, contains,
  carry, ok, Outcome-cases,
}
use pa_queue_and_chan.External.Setting.{Setting}
use pa_queue_and_chan.KvMpscMultik.Conflict.{ConflictManager}
use pa_queue_and_chan.KvMpscMultik.Manager.{handle_new_msg, unuse_key}
use pa_queue_and_chan.KvMpscMultik.Using.{Sound-held}
use pa_queue_and_chan.KvMpscMultik.Blocked.{Blocked, new-Blocked, arrival-Blocked, release-Blocked}
use pa_queue_and_chan.KvMpscMultik.Channels.{
  Channel, Receiver, Pc, drain, pop_q, At, channel, after_call, sync_pop_step,
}
use pa_queue_and_chan.KvMpscMultik.Threads.System.{
  System, start, send_begins, send_pushes, notifies, senders_drop, drop_begins, drop_pushes,
  drop_ends, recv_begins, recv_steps, recv_returns, recv_closes, receiver_drops, Reach, here, next,
}
use pa_queue_and_chan.KvMpscMultik.Threads.Owners.{IsCalm, AllDistinct, Owns, returned, quiet}
use pa_queue_and_chan.KvMpscMultik.Threads.Held.{holds, Calm}
use pa_queue_and_chan.KvMpscMultik.Threads.Invariant.{steps-IsCalm, Reach-Inv}

module _ (S : Setting) (hash_order : List ℕ → List ℕ)
    (lists_same : (id : ℕ) (ids : List ℕ) → contains id (hash_order ids) ≡ contains id ids) where
  open S use {K, V, key_eq, queues as Q}

  abbrev AtBlocked : At S hash_order → Type 0
  AtBlocked n = IsCalm S n.2 → Blocked key_eq n.1.conflict_manager

  after_call-Blocked :
      (c : Channel S) (r : Receiver S) (p : Pc S) (m : ConflictManager K V)
      (res : Option (List K × V))
      → Blocked key_eq m
      → AtBlocked (after_call S hash_order c r p (ok (res, m)))
  unfolding after_call
  after_call-Blocked c r p m none b _ = b
  after_call-Blocked c r p m (some res) b _ = b

  sync_pop-Blocked :
      (held : K → ℕ) (c : Channel S) (r : Receiver S) (p : Pc S) (n : At S hash_order)
      → sync_pop_step S hash_order c r p ≡ some n
      → Owns S held c r (returned S p)
      → AllDistinct S (Q.entries c.q)
      → Blocked key_eq r.conflict_manager
      → AtBlocked n
  unfolding sync_pop_step count after_call
  sync_pop-Blocked held c r drain n h o d b = elim (Q.pop-Pops c.drop_key_q) [
    | inl (e, pe) ↦ carry AtBlocked (rw (pe, sync_pop_step) at h) (λ _. b)
    | inr (k, rest, e, pe) ↦
        elim (Outcome-cases (unuse_key key_eq hash_order k r.conflict_manager)) [
          | inl f ↦ carry AtBlocked (rw (pe, sync_pop_step, f) at h) (λ z. absurd z)
          | inr ((res, m), f) ↦ carry AtBlocked (rw (pe, sync_pop_step, f) at h) (
              after_call-Blocked (record c { drop_key_q = rest }) r drain m res
                (release-Blocked key_eq hash_order lists_same
                  (λ j. held j + count key_eq j (Q.entries rest)) k r.conflict_manager m res
                  (Sound-held key_eq _ _ (λ j. omega (arith, ap (count key_eq j) e)) o) f b))
        ]
  ]
  sync_pop-Blocked held c r pop_q n h o d b = elim (Q.pop-Pops c.q) [
    | inl (e, pe) ↦ carry AtBlocked (rw (pe, sync_pop_step) at h) (λ _. b)
    | inr ((ks, v), rest, e, pe) ↦
        elim (Outcome-cases (handle_new_msg key_eq ks v r.conflict_manager)) [
          | inl f ↦ carry AtBlocked (rw (pe, sync_pop_step, f) at h) (λ z. absurd z)
          | inr ((res, m), f) ↦ carry AtBlocked (rw (pe, sync_pop_step, f) at h) (
              after_call-Blocked (record c { q = rest }) r drain m res
                (arrival-Blocked key_eq _ ks v r.conflict_manager m res o
                  (subst (AllDistinct S) e d).0 f b))
        ]
  ]
  sync_pop-Blocked held c r p n h o d b =
      λ _. subst (Blocked key_eq) (sym (quiet S hash_order c r p n tt h).0) b

  pub Reach-Blocked :
      {s : System S}
      → Reach S hash_order s
      → Calm S s.pc
      → Blocked key_eq s.receiver.conflict_manager
  unfolding start channel
  Reach-Blocked here c = new-Blocked key_eq
  Reach-Blocked (next r (send_begins ks v d live open_)) c = Reach-Blocked r c
  Reach-Blocked (next r (send_pushes ks v xs ys e)) c = Reach-Blocked r c
  Reach-Blocked (next r (notifies n e)) c = Reach-Blocked r c
  Reach-Blocked (next r (senders_drop live none_sends)) c = Reach-Blocked r c
  Reach-Blocked (next r (drop_begins m xs ys e)) c = Reach-Blocked r c
  Reach-Blocked (next r (drop_pushes k ks xs ys e)) c = Reach-Blocked r c
  Reach-Blocked (next r (drop_ends xs ys e)) c = Reach-Blocked r c
  Reach-Blocked (next r (recv_begins e alive)) c = Reach-Blocked r (subst (Calm S) (sym e) tt)
  Reach-Blocked (next {s} r (recv_steps p p' c q e h)) calm =
      let was = steps-IsCalm S hash_order s.chan s.receiver p (c, q, p') h in
      let before = subst (Calm S) (sym e) was in
      let i = Reach-Inv S hash_order (λ id ids x. sym (lists_same id ids) ∙ x) r in
      let (own, d) = (rw (e) at i.owns) was in
      sync_pop-Blocked (holds S s) s.chan s.receiver p (c, q, p') h own d (Reach-Blocked r before)
        calm
  Reach-Blocked (next r (recv_returns ks v e)) c = Reach-Blocked r (subst (Calm S) (sym e) tt)
  Reach-Blocked (next r (recv_closes e)) c = Reach-Blocked r (subst (Calm S) (sym e) tt)
  Reach-Blocked (next r (receiver_drops e alive)) c = Reach-Blocked r c
