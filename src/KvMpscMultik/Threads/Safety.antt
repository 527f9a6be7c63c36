-- ===== src/KvMpscMultik/Threads/Safety.antt =====
-- kv_mpsc_multik.rs: all interleavings of senders, holders of messages and the receiver.
use pa_queue_and_chan.Prelude.{
  ℕ, ◌+◌, ◌≤◌, ◌≡◌, refl, ap, subst, ◌∙◌, ◌⊎◌, inl, inr, arith, true, false, none, some, List, [],
  ◌∷◌, count, contains, length, ◌<◌, sym, Bool, not, is_empty, get, Map, ℕ_discrete,
}
use pa_queue_and_chan.External.Setting.{Setting}
use pa_queue_and_chan.KvMpscMultik.Manager.{key_using, waitingmsgs_exist, new}
use pa_queue_and_chan.KvMpscMultik.Cells.{flag, key_using-flag}
use pa_queue_and_chan.KvMpscMultik.Using.{weight, Distinct}
use pa_queue_and_chan.KvMpscMultik.Exclusive.{weight-le}
use pa_queue_and_chan.KvMpscMultik.Channels.{
  pop_q, check_q, check_drop, check_end, done, waiting, channel, sync_pop_step, notify,
}
use pa_queue_and_chan.KvMpscMultik.Threads.System.{
  System, start, Reach, here, next, recv_begins, recv_steps, recv_closes, send_begins, send_pushes,
  notifies, senders_drop,
}
use pa_queue_and_chan.KvMpscMultik.Threads.Owners.{pc_returned}
use pa_queue_and_chan.KvMpscMultik.Threads.Held.{holds, Calm, message_keys, all_keys}
use pa_queue_and_chan.KvMpscMultik.Threads.Waiting.{Reach-Blocked}
use pa_queue_and_chan.KvMpscMultik.Frames.{IsWaiting}
use pa_queue_and_chan.KvMpscMultik.Kept.{parts_of_id}
use pa_queue_and_chan.KvMpscMultik.Conflict.{WaitingMsg}
use mathlib.Core.List.{reverse}
use mathlib.Core.Logic.{if_pos}
use pa_queue_and_chan.KvMpscMultik.Threads.Invariant.{Reach-Inv}

not-true : (b : Bool) → not b ≡ true → b ≡ false
not-true true h = cc
not-true false h = refl

module _ (S : Setting) where
  open S use {K, V, key_eq}

  -- A message waits for a key that one of the received messages holds.
  abbrev pub HolderOf : System S → Type 0
  HolderOf s =
      (k : K) × (id : ℕ) × (ks : List K) × (v : V) × IsWaiting s.receiver.conflict_manager id ks v
      × (0 < count key_eq k ks)
      × (count key_eq k (message_keys S s.held) ≡ 1)

module _ (S : Setting) (hash_order : List ℕ → List ℕ) where
  open S use {K, V, key_eq, queues as Q, events as E}

  module _
      (lists_no_other : (id : ℕ) (ids : List ℕ)
        → contains id (hash_order ids) ≡ true
        → contains id ids ≡ true) where
    -- In every interleaving on the channel, of messages without doubled keys, each key is held at
    -- most once, as long as the receiver has not panicked: by one message that is kept, or being
    -- dropped, or about to be returned, or by one release that is queued; and the manager has it
    -- marked as in use exactly while it is. The iteration over a set of waiting ids yields no other
    -- ids.
    pub channel_holds_once :
        {s : System S} (k : K)
        → Reach S hash_order s
        → Calm S s.pc
        → (holds S s k
              + count key_eq k (Q.entries s.chan.drop_key_q)
              + count key_eq k (pc_returned S s.pc)
            ≤ 1)
          × (weight (key_using key_eq k s.receiver.conflict_manager)
              ≡ holds S s k
                + count key_eq k (Q.entries s.chan.drop_key_q)
                + count key_eq k (pc_returned S s.pc))
    channel_holds_once {s} k r calm =
        let (sound, _) = (Reach-Inv S hash_order lists_no_other r).owns calm in
        let o = ap weight (key_using-flag key_eq k s.receiver.conflict_manager) ∙ sound.owns k in
        (subst (λ n. n ≤ 1) o (weight-le (key_using key_eq k s.receiver.conflict_manager)), o)

    nothing_left :
        {s : System S} (l : E.EventListener)
        → Reach S hash_order s
        → s.pc ≡ some (waiting l)
        → E.notified s.chan.wake_recv_event l ≡ false
        → s.notifying ≡ 0
        → s.dropping ≡ []
        → (Q.entries s.chan.q ≡ [])
          × (Q.entries s.chan.drop_key_q ≡ [])
          × ((s.chan.senders_dropped ≡ false)
              ⊎ (waitingmsgs_exist key_eq s.receiver.conflict_manager ≡ true))
    nothing_left {s} l r e quiet none_due none_drop =
        elim (rw (e) at (Reach-Inv S hash_order lists_no_other r).seen) [
          | inl (inl d) ↦ absurd (omega (arith, d, ap length none_drop))
          | inl (inr w) ↦ absurd (cc)
          | inr (a, b, c) ↦ (b, a, c)
        ]

  -- The first waiting message has a key that a received message holds.
  first_blocked :
      (lists_same : (id : ℕ) (ids : List ℕ) → contains id (hash_order ids) ≡ contains id ids)
      {s : System S} (l : E.EventListener) (msgs : Map ℕ (WaitingMsg V))
      → Reach S hash_order s
      → s.pc ≡ some (waiting l)
      → Q.entries s.chan.drop_key_q ≡ []
      → s.dropping ≡ []
      → s.receiver.conflict_manager.waitingmsgs ≡ msgs
      → is_empty msgs ≡ false
      → HolderOf S s
  unfolding get count
  first_blocked lists_same l [] r e q none_drop w n = absurd (cc)
  first_blocked lists_same {s} l ((id, msg) ∷ msgs) r e q none_drop w n =
      let (own, _) =
        (rw (e) at (Reach-Inv S hash_order (λ id ids c. sym (lists_same id ids) ∙ c) r).owns) tt in
      let (rs, ks, v, _, _, _, x) =
        parts_of_id key_eq _ id msg s.receiver.conflict_manager own
          (ap (get ℕ_discrete id) w ∙ if_pos (ℕ_discrete id id) refl (some msg) _) in
      let (k, p, u) =
        Reach-Blocked S hash_order lists_same r (subst (Calm S) (sym e) tt) id (reverse ks) v x in
      (
        k,
        id,
        reverse ks,
        v,
        x,
        p,
        omega (
          arith,
          own.owns k,
          u,
          weight-le (flag key_eq (λ c. c.using) k s.receiver.conflict_manager),
          ap (count key_eq k) q,
          ap (λ ds. count key_eq k (all_keys S ds)) none_drop,
        ),
      )

  -- In every interleaving on the channel, of messages without doubled keys: if the receiver waits,
  -- its listener is not notified, and no thread that has sent, dropped a message or gone has yet to
  -- notify it, then there is nothing to receive: both queues are empty, and either a sender lives
  -- or some message waits for a key that exactly one received message, not dropped yet, holds. The
  -- iteration over a set of waiting ids yields just these.
  pub receiver_waits_rightly :
      (lists_same : (id : ℕ) (ids : List ℕ) → contains id (hash_order ids) ≡ contains id ids)
      {s : System S} (l : E.EventListener)
      → Reach S hash_order s
      → s.pc ≡ some (waiting l)
      → E.notified s.chan.wake_recv_event l ≡ false
      → s.notifying ≡ 0
      → s.dropping ≡ []
      → (Q.entries s.chan.q ≡ [])
        × (Q.entries s.chan.drop_key_q ≡ [])
        × ((s.chan.senders_dropped ≡ false) ⊎ HolderOf S s)
  unfolding waitingmsgs_exist
  receiver_waits_rightly lists_same {s} l r e quiet none_due none_drop =
      let (a, b, c) =
        nothing_left (λ id ids x. sym (lists_same id ids) ∙ x) l r e quiet none_due none_drop in
      (
        a,
        b,
        elim c [
          | inl live ↦ inl live
          | inr w ↦ inr (
              first_blocked lists_same l s.receiver.conflict_manager.waitingmsgs r e b none_drop
                refl (not-true _ w))
        ],
      )

  pop-new : {A : Type 0} → Q.pop (Q.new {A = A}) ≡ none
  pop-new {A} = elim (Q.pop-Pops (Q.new {A = A})) [
    | inl (e, pe) ↦ pe
    | inr (a, q, e, pe) ↦ absurd (cc (Q.entries-new {A = A}))
  ]

  no_entry-new : {A : Type 0} → Q.no_entry (Q.new {A = A}) ≡ true
  no_entry-new {A} = rw (Q.no_entry_lem (Q.new {A = A}), Q.entries-new {A = A})

  -- For every message without doubled keys there is an interleaving in which it is sent with success
  -- and the channel then reports its end, with the message still in the queue: the last sender
  -- pushes it and goes between the receiver's look at the queue and its look at `senders_dropped`.
  pub end_loses_msg :
      (ks : List K) (v : V)
      → Distinct key_eq ks
      → (s : System S) × Reach S hash_order s
        × (s.ended ≡ true)
        × (s.held ≡ [])
        × (Q.entries s.chan.q ≡ (ks, v) ∷ [])
  unfolding start channel sync_pop_step notify waitingmsgs_exist new
  end_loses_msg ks v d =
      let c0 = (channel S hash_order).0 in
      let r0 = (channel S hash_order).1 in
      let a = next here (recv_begins refl refl) in
      let b = next a (recv_steps _ pop_q c0 r0 refl (rw (pop-new, sync_pop_step))) in
      let c = next b (recv_steps _ check_q c0 r0 refl (rw (pop-new, sync_pop_step))) in
      let e = next c (recv_steps _ check_drop c0 r0 refl (rw (no_entry-new, sync_pop_step))) in
      let f = next e (recv_steps _ check_end c0 r0 refl (rw (no_entry-new, sync_pop_step))) in
      let g = next f (send_begins ks v d refl refl) in
      let h = next g (send_pushes ks v [] [] refl) in
      let i = next h (notifies 0 refl) in
      let j = next i (senders_drop refl refl) in
      let k = next j (recv_steps _ (done none) _ _ refl refl) in
      (
        _,
        next k (recv_closes refl),
        refl,
        refl,
        rw (Q.entries-push {A = List K × V} (ks, v) Q.new, Q.entries-new {A = List K × V}),
      )
