-- ===== src/KvMpsc/Closing.antt =====
-- kv_mpsc.rs: when `recv` reports that the channel is closed.
use pa_queue_and_chan.Prelude.{
  nil_of_empty, ◌≡◌, refl, inl, inr, Bool, true, Option, none, some, List, [], ◌∷◌, is_empty, ◌&&◌,
  arith, count, get-nil, carry, Option-cases, Bool-cases,
}
use pa_queue_and_chan.External.Setting.{Setting}
use pa_queue_and_chan.KvMpsc.Defs.{
  Channel, Receiver, Message, Pc, drain, pop_q, check_q, check_drop, check_end, take_listener,
  waiting, relisten, done, panicked, At, sync_pop_step, release_key, handle_msg, wait_step, channel,
  new_channel, new_receiver, send_check, send_push, notify, drop_senders, drop_receiver,
}
use pa_queue_and_chan.KvMpsc.System.{
  System, send_begins, send_pushes, notifies, senders_drop, message_drops, recv_begins, recv_steps,
  recv_returns, recv_closes, receiver_drops, Reach, here, next, start,
}
use pa_queue_and_chan.KvMpsc.Keys.{held_keys}
use pa_queue_and_chan.KvMpsc.Invariant.{Reach-Inv, HaveKeys, drop_message_ok}

module _ (S : Setting) where
  open S use {K, V, key_eq, queues as Q, events as E}

  -- What `sync_pop` has seen when it ends with `None`.
  abbrev Ends : Bool → Receiver S → Option (Pc S) → Type 0
  Ends d r (some (done none)) = (is_empty r.using_keys ≡ true) × (d ≡ true)
  Ends d r _ = Unit

  abbrev AtEnds : At S → Type 0
  AtEnds m = Ends m.0.senders_dropped m.1 (some m.2)

  release_key-Ends :
      (j : K) (w : Option (List (K × V))) (c : Channel S) (r : Receiver S)
      → AtEnds (release_key S j w c r)
  unfolding release_key
  release_key-Ends j none c r = tt
  release_key-Ends j (some []) c r = tt
  release_key-Ends j (some (m ∷ rest)) c r = tt

  handle_msg-Ends :
      (j : K) (v : V) (w : Option (List (K × V))) (c : Channel S) (r : Receiver S)
      → AtEnds (handle_msg S j v w c r)
  unfolding handle_msg
  handle_msg-Ends j v none c r = tt
  handle_msg-Ends j v (some w) c r = tt

  both_true : (a b : Bool) → (a && b) ≡ true → (a ≡ true) × (b ≡ true)
  both_true a b h = ground arith

  sync_pop-Ends :
      (c : Channel S) (r : Receiver S) (p : Pc S) (n : At S)
      → sync_pop_step S c r p ≡ some n
      → AtEnds n
  unfolding sync_pop_step
  sync_pop-Ends c r drain n h = elim (Q.pop-Pops c.drop_key_q) [
    | inl (e, pe) ↦ carry AtEnds (rw (pe, sync_pop_step) at h) tt
    | inr (j, rest, e, pe) ↦
        carry AtEnds (rw (pe, sync_pop_step) at h)
          (release_key-Ends j _ (record c { drop_key_q = rest }) r)
  ]
  sync_pop-Ends c r pop_q n h = elim (Q.pop-Pops c.q) [
    | inl (e, pe) ↦ carry AtEnds (rw (pe, sync_pop_step) at h) tt
    | inr ((j, v), rest, e, pe) ↦
        carry AtEnds (rw (pe, sync_pop_step) at h) (handle_msg-Ends j v _ (record c { q = rest }) r)
  ]
  sync_pop-Ends c r check_q n h = elim (Bool-cases (Q.no_entry c.q)) [
    | inl e ↦ carry AtEnds (rw (e, sync_pop_step) at h) tt
    | inr e ↦ carry AtEnds (rw (e, sync_pop_step) at h) tt
  ]
  sync_pop-Ends c r check_drop n h = elim (Bool-cases (Q.no_entry c.drop_key_q)) [
    | inl e ↦ carry AtEnds (rw (e, sync_pop_step) at h) tt
    | inr e ↦ carry AtEnds (rw (e, sync_pop_step) at h) tt
  ]
  sync_pop-Ends c r check_end n h = elim (Bool-cases (is_empty r.using_keys && c.senders_dropped)) [
    | inl e ↦ carry AtEnds (rw (e, sync_pop_step) at h) (both_true _ _ e)
    | inr e ↦ carry AtEnds (rw (e, sync_pop_step) at h) tt
  ]
  sync_pop-Ends c r take_listener n h = elim (Option-cases r.event_listener) [
    | inl e ↦ carry AtEnds (rw (e, sync_pop_step) at h) tt
    | inr (l, e) ↦ carry AtEnds (rw (e, sync_pop_step) at h) tt
  ]
  sync_pop-Ends c r (waiting l) n h = elim (Bool-cases (E.notified c.wake_recv_event l)) [
    | inl e ↦ carry AtEnds (rw (e, wait_step) at h) tt
    | inr e ↦ absurd (cc (rw (e, wait_step) at h))
  ]
  sync_pop-Ends c r relisten n h = carry AtEnds h tt
  sync_pop-Ends c r (done m) n h = cc
  sync_pop-Ends c r panicked n h = cc

  Ends-senders : (d : Bool) (r : Receiver S) (p : Option (Pc S)) → Ends d r p → Ends true r p
  Ends-senders d r (some (done none)) h = (h.0, refl)
  Ends-senders d r (some (done (some m))) h = tt
  Ends-senders d r (some p) h = tt
  Ends-senders d r none h = tt

  Reach-Ends : {s : System S} → Reach S s → Ends s.chan.senders_dropped s.receiver s.pc
  unfolding start send_push notify drop_senders drop_receiver
  Reach-Ends here = tt
  Reach-Ends (next r (send_begins k v a b)) = Reach-Ends r
  Reach-Ends (next r (send_pushes k v xs ys a)) = Reach-Ends r
  Reach-Ends (next r (notifies n a)) = Reach-Ends r
  Reach-Ends (next {s} r (senders_drop a b)) =
      Ends-senders s.chan.senders_dropped s.receiver s.pc (Reach-Ends r)
  Reach-Ends (next {s} r (message_drops m xs ys c a b)) =
      rw ((drop_message_ok S m s.chan c b).2) (Reach-Ends r)
  Reach-Ends (next r (recv_begins a b)) = tt
  Reach-Ends (next {s} r (recv_steps p p' c q a d)) = sync_pop-Ends s.chan s.receiver p (c, q, p') d
  Reach-Ends (next r (recv_returns k v a)) = tt
  Reach-Ends (next r (recv_closes a)) = tt
  Reach-Ends (next r (receiver_drops a b)) = Reach-Ends r

  none_held :
      (ms : List (Message S))
      → HaveKeys S ms
      → ((k : K) → count key_eq k (held_keys S ms) ≡ 0)
      → ms ≡ []
  unfolding count
  none_held [] h z = refl
  none_held (m ∷ ms) h z = elim (Option-cases m.k) [
    | inl e ↦ absurd (ground arith)
    | inr (k, e) ↦ absurd (ground (arith, z k))
  ]

  -- When `sync_pop` ends with `None` in a reachable state, every message that was received has been
  -- dropped, its key has been released, and the senders are gone.
  pub closes_released :
      {s : System S}
      → Reach S s
      → s.pc ≡ some (done none)
      → (s.held ≡ []) × (s.receiver.using_keys ≡ []) × (s.chan.senders_dropped ≡ true)
  closes_released {s} r e =
      let i = Reach-Inv S r in
      let ends = rw e at (Reach-Ends r) in
      let free = nil_of_empty s.receiver.using_keys ends.0 in
      (
        none_held s.held i.keyed
            (λ k. ground (arith, i.owns k, get-nil {V = List (K × V)} key_eq k)),
        free,
        ends.1,
      )

  pop-new : {A : Type 0} → Q.pop (Q.new {A = A}) ≡ none
  pop-new {A} = elim (Q.pop-Pops (Q.new {A = A})) [
    | inl (e, pe) ↦ pe
    | inr (a, q, e, pe) ↦ absurd (cc (Q.entries-new {A = A}))
  ]

  no_entry-new : {A : Type 0} → Q.no_entry (Q.new {A = A}) ≡ true
  no_entry-new {A} = rw (Q.no_entry_lem (Q.new {A = A}), Q.entries-new {A = A})

  -- For every message there is an interleaving in which it is sent with success and the channel
  -- then reports its end, with the message still in the queue: the last sender pushes it and goes
  -- between the receiver's look at the queue and its look at `senders_dropped`.
  pub closing_loses :
      (k : K) (v : V)
      → (s : System S) × Reach S s
        × (s.ended ≡ true)
        × (s.held ≡ [])
        × (s.popped ≡ [])
        × (Q.entries s.chan.q ≡ (k, v) ∷ [])
  unfolding start channel new_channel new_receiver sync_pop_step send_check send_push notify
      drop_senders
  closing_loses k v =
      let a = next here (recv_begins refl refl) in
      let b =
        next a
          (recv_steps _ pop_q (channel S).0 (channel S).1 refl (rw (pop-new, sync_pop_step))) in
      let c =
        next b
          (recv_steps _ check_q (channel S).0 (channel S).1 refl (rw (pop-new, sync_pop_step))) in
      let d = next c (
        recv_steps _ check_drop (channel S).0 (channel S).1 refl
          (rw (no_entry-new, sync_pop_step))) in
      let e = next d (
        recv_steps _ check_end (channel S).0 (channel S).1 refl
          (rw (no_entry-new, sync_pop_step))) in
      let f = next e (send_begins k v refl refl) in
      let g = next f (send_pushes k v [] [] refl) in
      let h = next g (notifies 0 refl) in
      let i = next h (senders_drop refl refl) in
      let j = next i (recv_steps _ (done none) _ _ refl refl) in
      (
        _,
        next j (recv_closes refl),
        refl,
        refl,
        refl,
        rw (Q.entries-push {A = K × V} (k, v) Q.new, Q.entries-new {A = K × V}),
      )
