-- ===== src/KvMpscMultik/Threads/Invariant.antt =====
-- kv_mpsc_multik.rs: what holds in every state that senders, holders of messages and the receiver
-- can reach.
use mathlib.Core.List.{reverse}
use pa_queue_and_chan.Prelude.{
  ℕ, ◌≡◌, refl, sym, ap, subst, inl, arith, true, some, List, [], ◌∷◌, count, count-append,
  contains, length-append,
}
use pa_queue_and_chan.External.Setting.{Setting}
use pa_queue_and_chan.KvMpscMultik.Using.{Sound-held}
use pa_queue_and_chan.KvMpscMultik.Arrival.{new-Sound, count-reverse}
use pa_queue_and_chan.KvMpscMultik.Channels.{
  Channel, Receiver, Pc, panicked, channel, notify, sync_pop_step, new_message,
}
use pa_queue_and_chan.KvMpscMultik.Threads.System.{
  System, start, push_msg, push_key, Step, send_begins, send_pushes, notifies, senders_drop,
  drop_begins, drop_pushes, drop_ends, recv_begins, recv_steps, recv_returns, recv_closes,
  receiver_drops, Reach, here, next,
}
use pa_queue_and_chan.KvMpscMultik.Threads.Owners.{IsCalm, AllDistinct, sync_pop-Owns}
use pa_queue_and_chan.KvMpscMultik.Threads.Wake.{Seen-Roused, Registered-notify, Seen-notify}
use pa_queue_and_chan.KvMpscMultik.Threads.Looks.{sync_pop-Keeps}
use pa_queue_and_chan.KvMpscMultik.Threads.Held.{
  message_keys, all_keys, holds, due, Inv, AllDistinct-snoc, AllDistinct-remove, count-message_keys,
  count-all_keys,
}

module _ (S : Setting) (hash_order : List ℕ → List ℕ) where
  open S use {K, V, key_eq, queues as Q, events as E}

  start-Inv : Inv S (start S hash_order)
  unfolding start channel count
  start-Inv = record {
    owns = λ _. (
      Sound-held key_eq _ _ (λ k. rw (Q.entries-new {A = K}) refl) (new-Sound key_eq),
      subst (AllDistinct S) (sym (Q.entries-new {A = List K × V})) tt,
    );
    distinct = tt;
    registered = (_, refl, E.listen-IsSole E.new E.new-IsFree);
    seen = tt;
  }

  -- A step of `sync_pop` starts at no panic.
  pub steps-IsCalm :
      (c : Channel S) (r : Receiver S) (p : Pc S) (n : Channel S × Receiver S × Pc S)
      → sync_pop_step S hash_order c r p ≡ some n
      → IsCalm S p
  unfolding sync_pop_step
  steps-IsCalm c r panicked n h = cc
  steps-IsCalm c r p n h = tt

  module _
      (lists_no_other : (id : ℕ) (ids : List ℕ)
        → contains id (hash_order ids) ≡ true
        → contains id ids ≡ true) where
    pub Step-Inv : {s t : System S} → Step S hash_order s t → Inv S s → Inv S t
    unfolding new_message count
    Step-Inv (send_begins ks v d live open_) i = record {
      owns = i.owns;
      distinct = (d, i.distinct);
      registered = i.registered;
      seen = i.seen;
    }
    Step-Inv {s} (send_pushes ks v xs ys e) i =
        let (d, rest) = AllDistinct-remove S ks v xs ys (subst (AllDistinct S) e i.distinct) in
        record {
          owns = λ c. (
            (i.owns c).0,
            subst (AllDistinct S) (sym (Q.entries-push (ks, v) s.chan.q))
                (AllDistinct-snoc S ks v (Q.entries s.chan.q) d (i.owns c).1),
          );
          distinct = rest;
          registered = i.registered;
          seen =
              Seen-Roused S _ (push_msg S hash_order ks v s.chan) s.receiver s.pc
                (λ l. inl (omega arith));
        }
    Step-Inv {s} (notifies n e) i =
        unfold notify in
        record {
          owns = i.owns;
          distinct = i.distinct;
          registered =
              Registered-notify S hash_order s.chan.wake_recv_event s.receiver.event_listener s.pc
                i.registered;
          seen = Seen-notify S hash_order _ s.chan s.receiver s.pc i.registered;
        }
    Step-Inv {s} (senders_drop live none_sends) i = record {
      owns = i.owns;
      distinct = i.distinct;
      registered = i.registered;
      seen =
          Seen-Roused S _ (record (s.chan) { senders_dropped = true }) s.receiver s.pc
            (λ l. inl (omega arith));
    }
    Step-Inv {s} (drop_begins m xs ys e) i = record {
      owns = λ c. (
        Sound-held key_eq _ _
            (λ k. omega (
              arith,
              ap (λ ms. count key_eq k (message_keys S ms)) e,
              count-message_keys S k m xs ys,
              count-append key_eq k (reverse m.ks) (all_keys S s.dropping),
              count-reverse key_eq k m.ks,
            ))
            (i.owns c).0,
        (i.owns c).1,
      );
      distinct = i.distinct;
      registered = i.registered;
      seen = Seen-Roused S _ s.chan s.receiver s.pc (λ l. inl (omega arith));
    }
    Step-Inv {s} (drop_pushes k ks xs ys e) i = record {
      owns = λ c. (
        Sound-held key_eq _ _
            (λ j. omega (
              arith,
              ap (λ ds. count key_eq j (all_keys S ds)) e,
              count-all_keys S j (k ∷ ks) xs ys,
              count-all_keys S j ks xs ys,
              ap (count key_eq j) (Q.entries-push k s.chan.drop_key_q),
              count-append key_eq j (Q.entries s.chan.drop_key_q) (k ∷ []),
            ))
            (i.owns c).0,
        (i.owns c).1,
      );
      distinct = i.distinct;
      registered = i.registered;
      seen =
          Seen-Roused S _ (push_key S hash_order k s.chan) s.receiver s.pc
            (λ l. inl (omega (arith, length-append xs (ks ∷ ys))));
    }
    Step-Inv {s} (drop_ends xs ys e) i = record {
      owns = λ c. (
        Sound-held key_eq _ _
            (λ j.
              omega
                (arith, ap (λ ds. count key_eq j (all_keys S ds)) e, count-all_keys S j [] xs ys))
            (i.owns c).0,
        (i.owns c).1,
      );
      distinct = i.distinct;
      registered = i.registered;
      seen = Seen-Roused S _ s.chan s.receiver s.pc (λ l. inl (omega arith));
    }
    Step-Inv {s} (recv_begins e alive) i = record {
      owns = λ c. (rw (e) at i.owns) tt;
      distinct = i.distinct;
      registered = rw (e) at i.registered;
      seen = tt;
    }
    Step-Inv {s} (recv_steps p p' c r e h) i =
        let calm = steps-IsCalm s.chan s.receiver p (c, r, p') h in
        let (own, d) = (rw (e) at i.owns) calm in
        let (reg, seen) =
          sync_pop-Keeps S hash_order (due S s) s.chan s.receiver p (c, r, p') h
            (rw (e) at i.registered, rw (e) at i.seen) in
        record {
          owns =
              sync_pop-Owns S hash_order lists_no_other (holds S s) s.chan s.receiver p (c, r, p') h
                own d;
          distinct = i.distinct;
          registered = reg;
          seen = seen;
        }
    Step-Inv {s} (recv_returns ks v e) i =
        let (own, d) = (rw (e) at i.owns) tt in
        record {
          owns = λ c. (
            Sound-held key_eq _ _
                (λ j. omega (arith, count-append key_eq j ks (message_keys S s.held))) own,
            d,
          );
          distinct = i.distinct;
          registered = rw (e) at i.registered;
          seen = tt;
        }
    Step-Inv {s} (recv_closes e) i = record {
      owns = λ c. (rw (e) at i.owns) tt;
      distinct = i.distinct;
      registered = rw (e) at i.registered;
      seen = tt;
    }
    Step-Inv {s} (receiver_drops e alive) i = record {
      owns = i.owns;
      distinct = i.distinct;
      registered = i.registered;
      seen =
          Seen-Roused S _ (record (s.chan) { receiver_dropped = true }) s.receiver s.pc
            (λ l. inl (omega arith));
    }

    pub Reach-Inv : {s : System S} → Reach S hash_order s → Inv S s
    Reach-Inv here = start-Inv
    Reach-Inv (next r t) = Step-Inv t (Reach-Inv r)
