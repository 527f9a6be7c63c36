-- ===== src/KvMpsc/Invariant.antt =====
-- kv_mpsc.rs: what holds in every state that senders, receiver and messages can reach.
use pa_queue_and_chan.Prelude.{
  ◌+◌, ◌≡◌, refl, inl, inr, true, some, List, [], ◌∷◌, ◌++◌, ok, to_list, is_some, arith, count,
  count-append, of_key, of_key-append, append_assoc, get-nil, Option-cases, subst,
}
use pa_queue_and_chan.External.Setting.{Setting}
use pa_queue_and_chan.KvMpsc.Defs.{
  Channel, Receiver, Message, channel, new_channel, new_receiver, notify, send_push, drop_senders,
  drop_receiver, drop_message, new_message,
}
use pa_queue_and_chan.KvMpsc.System.{
  System, start, pc_returned, Step, send_begins, send_pushes, notifies, senders_drop, message_drops,
  recv_begins, recv_steps, recv_returns, recv_closes, receiver_drops, Reach, here, next,
}
use pa_queue_and_chan.KvMpsc.Keys.{
  held_keys, OwnsOnce, WaitsForOwn, sync_pop-OwnsOnce, sync_pop-WaitsForOwn,
}
use pa_queue_and_chan.KvMpsc.Order.{InOrder, sync_pop-InOrder}
use pa_queue_and_chan.KvMpsc.Notified.{Listens-notify, Wakes-notify, Wakes-suc}
use pa_queue_and_chan.KvMpsc.Wake.{Listens, Wakes, sync_pop-Listens, sync_pop-Wakes}

module _ (S : Setting) where
  open S use {K, V, key_eq, queues as Q, events as E}

  -- Every message that a caller holds still has its key.
  abbrev pub HaveKeys : List (Message S) → Type 0
  HaveKeys [] = Unit
  HaveKeys (m ∷ ms) = (is_some m.k ≡ true) × HaveKeys ms

  pub record Inv (s : System S) : Type 0 where
    pub owns : OwnsOnce S (held_keys S s.held) s.chan s.receiver (pc_returned S s.pc)
    pub waits : WaitsForOwn S s.receiver
    pub order : InOrder S s.pushed s.popped s.chan s.receiver
    pub keyed : HaveKeys s.held
    pub listens : Listens S s.chan.wake_recv_event s.receiver.event_listener s.pc
    pub wakes : Wakes S s.notifying s.chan s.receiver s.pc

  HaveKeys-remove :
      (m : Message S) (xs ys : List (Message S)) → HaveKeys (xs ++ m ∷ ys) → HaveKeys (xs ++ ys)
  HaveKeys-remove m [] ys h = h.1
  HaveKeys-remove m (x ∷ xs) ys h = (h.0, HaveKeys-remove m xs ys h.1)

  -- The keys of the others, and of the message itself.
  count-held_keys :
      (j : K) (m : Message S) (xs ys : List (Message S))
      → count key_eq j (held_keys S (xs ++ m ∷ ys))
        ≡ count key_eq j (to_list m.k) + count key_eq j (held_keys S (xs ++ ys))
  count-held_keys j m [] ys = count-append key_eq j (to_list m.k) (held_keys S ys)
  count-held_keys j m (x ∷ xs) ys = omega (
    arith,
    count-append key_eq j (to_list x.k) (held_keys S (xs ++ m ∷ ys)),
    count-append key_eq j (to_list x.k) (held_keys S (xs ++ ys)),
    count-held_keys j m xs ys,
  )

  start-Inv : Inv (start S)
  unfolding start channel new_channel new_receiver count of_key
  start-Inv = record {
    owns = λ k. rw (Q.entries-new {A = K}, get-nil key_eq k) refl;
    waits = λ k. rw (get-nil key_eq k) tt;
    order = λ k. rw (Q.entries-new {A = K × V}, get-nil key_eq k) refl;
    keyed = tt;
    listens = (_, refl, E.listen-IsSole E.new E.new-IsFree);
    wakes = tt;
  }

  send_pushes-order :
      (k : K) (v : V) (pushed popped : List (K × V)) (c : Channel S) (r : Receiver S)
      → InOrder S pushed popped c r
      → InOrder S (pushed ++ (k, v) ∷ []) popped (send_push S k v c) r
  unfolding send_push
  send_pushes-order k v pushed popped c r o j =
      rw
        (
          Q.entries-push (k, v) c.q,
          of_key-append key_eq j (Q.entries c.q) ((k, v) ∷ []),
          of_key-append key_eq j pushed ((k, v) ∷ []),
          o j,
        )
        (simp append_assoc)

  -- A message that is dropped queues its key, and changes nothing else.
  pub drop_message_ok :
      (m : Message S) (c c' : Channel S)
      → drop_message S m c ≡ ok c'
      → (k : K) × (m.k ≡ some k) × (c' ≡ record c { drop_key_q = Q.push k c.drop_key_q })
  unfolding drop_message
  drop_message_ok m c c' h = elim (Option-cases m.k) [
    | inl e ↦ absurd (cc (rw (e, drop_message) at h))
    | inr (k, e) ↦ (k, e, ground arith)
  ]

  message_drops-owns :
      (m : Message S) (xs ys : List (Message S)) (c : Channel S) (r : Receiver S)
      (out : List (K × V)) (k : K)
      → m.k ≡ some k
      → OwnsOnce S (held_keys S (xs ++ m ∷ ys)) c r out
      → OwnsOnce S (held_keys S (xs ++ ys)) (record c { drop_key_q = Q.push k c.drop_key_q }) r out
  unfolding count
  message_drops-owns m xs ys c r out k e h j = ground (
    arith,
    h j,
    count-held_keys j m xs ys,
    Q.entries-push k c.drop_key_q,
    count-append key_eq j (Q.entries c.drop_key_q) (k ∷ []),
  )

  -- Every access of every thread keeps the invariant.
  pub Step-Inv : {s t : System S} → Step S s t → Inv s → Inv t
  unfolding send_push drop_senders drop_receiver new_message count
  Step-Inv (send_begins k v live open_) i = record {
    owns = i.owns;
    waits = i.waits;
    order = i.order;
    keyed = i.keyed;
    listens = i.listens;
    wakes = i.wakes;
  }
  Step-Inv {s} (send_pushes k v xs ys e) i = record {
    owns = i.owns;
    waits = i.waits;
    order = send_pushes-order k v s.pushed s.popped s.chan s.receiver i.order;
    keyed = i.keyed;
    listens = i.listens;
    wakes = Wakes-suc S s.notifying _ s.receiver s.pc;
  }
  Step-Inv {s} (notifies n e) i =
      unfold notify in
      record {
        owns = i.owns;
        waits = i.waits;
        order = i.order;
        keyed = i.keyed;
        listens = Listens-notify S s.chan.wake_recv_event s.receiver.event_listener s.pc i.listens;
        wakes = Wakes-notify S n s.chan s.receiver s.pc i.listens;
      }
  Step-Inv {s} (senders_drop live quiet) i = record {
    owns = i.owns;
    waits = i.waits;
    order = i.order;
    keyed = i.keyed;
    listens = i.listens;
    wakes = Wakes-suc S s.notifying _ s.receiver s.pc;
  }
  Step-Inv {s} (message_drops m xs ys c e d) i =
      let (k, mk, ce) = drop_message_ok m s.chan c d in
      let own =
        subst
          (λ (h : List (Message S)).
            OwnsOnce S (held_keys S h) s.chan s.receiver (pc_returned S s.pc))
          e i.owns in
      rw ce (record {
        owns = message_drops-owns m xs ys s.chan s.receiver (pc_returned S s.pc) k mk own;
        waits = i.waits;
        order = i.order;
        keyed = HaveKeys-remove m xs ys (subst HaveKeys e i.keyed);
        listens = i.listens;
        wakes = Wakes-suc S s.notifying _ s.receiver s.pc;
      })
  Step-Inv {s} (recv_begins e alive) i = record {
    owns = rw e at i.owns;
    waits = i.waits;
    order = i.order;
    keyed = i.keyed;
    listens = rw e at i.listens;
    wakes = tt;
  }
  Step-Inv {s} (recv_steps p p' c r e d) i = record {
    owns =
        sync_pop-OwnsOnce S (held_keys S s.held) s.chan s.receiver p (c, r, p') (rw e at i.owns)
          i.waits d;
    waits = sync_pop-WaitsForOwn S s.chan s.receiver p (c, r, p') i.waits d;
    order = sync_pop-InOrder S s.pushed s.popped s.chan s.receiver p (c, r, p') i.order i.waits d;
    keyed = i.keyed;
    listens = sync_pop-Listens S s.chan s.receiver p (c, r, p') (rw e at i.listens) d;
    wakes = sync_pop-Wakes S s.notifying s.chan s.receiver p (c, r, p') (rw e at i.wakes) d;
  }
  Step-Inv {s} (recv_returns k v e) i =
      let own = rw e at i.owns in
      record {
        owns = λ j. omega (arith, own j);
        waits = i.waits;
        order = i.order;
        keyed = (refl, i.keyed);
        listens = rw e at i.listens;
        wakes = tt;
      }
  Step-Inv {s} (recv_closes e) i = record {
    owns = rw e at i.owns;
    waits = i.waits;
    order = i.order;
    keyed = i.keyed;
    listens = rw e at i.listens;
    wakes = tt;
  }
  Step-Inv {s} (receiver_drops e alive) i = record {
    owns = i.owns;
    waits = i.waits;
    order = i.order;
    keyed = i.keyed;
    listens = i.listens;
    wakes = rw e tt;
  }

  pub Reach-Inv : {s : System S} → Reach S s → Inv s
  Reach-Inv here = start-Inv
  Reach-Inv (next r st) = Step-Inv st (Reach-Inv r)
