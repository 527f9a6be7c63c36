-- ===== src/KvMpsc/Safety.antt =====
-- kv_mpsc.rs: all interleavings of senders, receiver and holders of messages.
use mathlib.Core.Logic.{if_pos}
use mathlib.Core.Option.{some-injective}
use pa_queue_and_chan.Prelude.{
  ◌+◌, ◌≤◌, ◌<◌, ◌≡◌, ◌≢◌, refl, ◌⊎◌, inl, inr, true, false, Option, none, some, List, [], ◌∷◌,
  ◌++◌, is_empty, ◌&&◌, arith, count, of_key, get, carry, Bool-cases, subst, ap, ◌∙◌, Map,
}
use pa_queue_and_chan.External.Setting.{Setting}
use pa_queue_and_chan.KvMpsc.Defs.{
  Channel, Receiver, Pc, drain, pop_q, check_q, check_drop, check_end, take_listener, waiting,
  relisten, done, panicked, At, sync_pop_step, release_key, handle_msg, wait_step,
}
use pa_queue_and_chan.KvMpsc.System.{
  System, send_begins, send_pushes, notifies, senders_drop, message_drops, recv_begins, recv_steps,
  recv_returns, recv_closes, receiver_drops, Reach, here, next, start, returned, pc_returned,
}
use pa_queue_and_chan.KvMpsc.Keys.{occupied, keys_of, held_keys, OwnsOnce, waiting_for}
use pa_queue_and_chan.KvMpsc.Wake.{Listens}
use pa_queue_and_chan.KvMpsc.Invariant.{Reach-Inv}

module _ (S : Setting) where
  open S use {K, V, key_eq, queues as Q, events as E}

  -- In every reachable state at most one message with a given key is held, and while one is held,
  -- that key is neither queued for release nor about to be returned by `sync_pop`.
  pub exclusive_keys :
      {s : System S} (k : K)
      → Reach S s
      → count key_eq k (held_keys S s.held)
          + count key_eq k (Q.entries s.chan.drop_key_q)
          + count key_eq k (keys_of S (pc_returned S s.pc))
        ≤ 1
  exclusive_keys {s} k r = ground (arith, (Reach-Inv S r).owns k)

  -- In every reachable state, for each key, the pushed messages are, in the order of their pushes,
  -- those that were taken out, then those that wait for the key, then those still queued: none is
  -- lost, doubled or overtaken.
  pub keys_in_order :
      {s : System S} (k : K)
      → Reach S s
      → of_key key_eq k s.pushed
        ≡ of_key key_eq k s.popped
          ++ (waiting_for S (get key_eq k s.receiver.using_keys)
              ++ of_key key_eq k (Q.entries s.chan.q))
  keys_in_order k r = (Reach-Inv S r).order k

  abbrev IsCalm : Pc S → Type 0
  IsCalm panicked = ⊥
  IsCalm _ = Unit

  -- A dropped key is in use, so the branch that panics is not taken.
  release_key-IsCalm :
      (j : K) (w : Option (List (K × V))) (c : Channel S) (r : Receiver S)
      → w ≢ none
      → IsCalm (release_key S j w c r).2
  unfolding release_key
  release_key-IsCalm j none c r h = h refl
  release_key-IsCalm j (some []) c r h = tt
  release_key-IsCalm j (some (m ∷ rest)) c r h = tt

  handle_msg-IsCalm :
      (j : K) (v : V) (w : Option (List (K × V))) (c : Channel S) (r : Receiver S)
      → IsCalm (handle_msg S j v w c r).2
  unfolding handle_msg
  handle_msg-IsCalm j v none c r = tt
  handle_msg-IsCalm j v (some w) c r = tt

  dropped-in_use :
      (held : List K) (j : K) (rest : List K) (c : Channel S) (r : Receiver S)
      → OwnsOnce S held c r []
      → Q.entries c.drop_key_q ≡ j ∷ rest
      → get key_eq j r.using_keys ≢ none
  unfolding count
  dropped-in_use held j rest c r own e n = ground (arith, own j)

  abbrev AtCalm : At S → Type 0
  AtCalm m = IsCalm m.2

  sync_pop-IsCalm :
      (held : List K) (c : Channel S) (r : Receiver S) (p : Pc S) (n : At S)
      → OwnsOnce S held c r (returned S p)
      → Listens S c.wake_recv_event r.event_listener (some p)
      → sync_pop_step S c r p ≡ some n
      → IsCalm n.2
  unfolding sync_pop_step
  sync_pop-IsCalm held c r drain n own i h = elim (Q.pop-Pops c.drop_key_q) [
    | inl (e, pe) ↦ carry AtCalm (rw (pe, sync_pop_step) at h) tt
    | inr (j, rest, e, pe) ↦ carry AtCalm (rw (pe, sync_pop_step) at h) (
        release_key-IsCalm j _ (record c { drop_key_q = rest }) r
          (dropped-in_use held j (Q.entries rest) c r own e))
  ]
  sync_pop-IsCalm held c r pop_q n own i h = elim (Q.pop-Pops c.q) [
    | inl (e, pe) ↦ carry AtCalm (rw (pe, sync_pop_step) at h) tt
    | inr ((j, v), rest, e, pe) ↦
        carry AtCalm (rw (pe, sync_pop_step) at h)
          (handle_msg-IsCalm j v _ (record c { q = rest }) r)
  ]
  sync_pop-IsCalm held c r check_q n own i h = elim (Bool-cases (Q.no_entry c.q)) [
    | inl e ↦ carry AtCalm (rw (e, sync_pop_step) at h) tt
    | inr e ↦ carry AtCalm (rw (e, sync_pop_step) at h) tt
  ]
  sync_pop-IsCalm held c r check_drop n own i h = elim (Bool-cases (Q.no_entry c.drop_key_q)) [
    | inl e ↦ carry AtCalm (rw (e, sync_pop_step) at h) tt
    | inr e ↦ carry AtCalm (rw (e, sync_pop_step) at h) tt
  ]
  sync_pop-IsCalm held c r check_end n own i h =
      elim (Bool-cases (is_empty r.using_keys && c.senders_dropped)) [
        | inl e ↦ carry AtCalm (rw (e, sync_pop_step) at h) tt
        | inr e ↦ carry AtCalm (rw (e, sync_pop_step) at h) tt
      ]
  sync_pop-IsCalm held c r take_listener n own (l, e, i) h =
      carry AtCalm (rw (e, sync_pop_step) at h) tt
  sync_pop-IsCalm held c r (waiting l) n own i h =
      elim (Bool-cases (E.notified c.wake_recv_event l)) [
        | inl e ↦ carry AtCalm (rw (e, wait_step) at h) tt
        | inr e ↦ absurd (cc (rw (e, wait_step) at h))
      ]
  sync_pop-IsCalm held c r relisten n own i h = carry AtCalm h tt
  sync_pop-IsCalm held c r (done m) n own i h = cc
  sync_pop-IsCalm held c r panicked n own i h = cc

  calm-ne : (p : Pc S) → IsCalm p → p ≢ panicked
  calm-ne p h e = subst IsCalm e h

  -- In no reachable state has `sync_pop` panicked: a dropped key is always in use, and the
  -- listener is always there to be taken.
  pub never_panics : {s : System S} → Reach S s → s.pc ≢ some panicked
  unfolding start
  never_panics here = λ e. cc
  never_panics (next r (send_begins k v a b)) = never_panics r
  never_panics (next r (send_pushes k v xs ys a)) = never_panics r
  never_panics (next r (notifies n a)) = never_panics r
  never_panics (next r (senders_drop a b)) = never_panics r
  never_panics (next r (message_drops m xs ys c a b)) = never_panics r
  never_panics (next r (recv_begins a b)) = λ e. cc
  never_panics (next {s} r (recv_steps p p' c q a d)) =
      let i = Reach-Inv S r in
      λ e.
        calm-ne p'
          (sync_pop-IsCalm (held_keys S s.held) s.chan s.receiver p (c, q, p') (rw a at i.owns)
            (rw a at i.listens) d)
          (some-injective _ _ e)
  never_panics (next r (recv_returns k v a)) = λ e. cc
  never_panics (next r (recv_closes a)) = λ e. cc
  never_panics (next r (receiver_drops a b)) = never_panics r

  in_use-owned :
      (held : List K) (c : Channel S) (u : Map K (List (K × V))) (r : Receiver S)
      → r.using_keys ≡ u
      → OwnsOnce S held c r []
      → Q.entries c.drop_key_q ≡ []
      → is_empty u ≡ false
      → (k : K) × (0 < count key_eq k held)
  unfolding count get
  in_use-owned held c [] r e own d n = absurd (cc)
  in_use-owned held c ((k, w) ∷ u) r e own d n =
      let g : get key_eq k r.using_keys ≡ some w =
        ap (get key_eq k) e ∙ if_pos (key_eq k k) refl (some w) _ in
      (k, omega (arith, own k, ap (occupied S) g, ap (count key_eq k) d))

  -- If the receiver waits in a reachable state, its listener is not notified and no thread is about
  -- to notify, then there is nothing to receive: both queues are empty, and either a sender lives
  -- or a message that was received has not been dropped yet.
  pub no_lost_wakeup :
      {s : System S} (l : E.EventListener)
      → Reach S s
      → s.pc ≡ some (waiting l)
      → E.notified s.chan.wake_recv_event l ≡ false
      → s.notifying ≡ 0
      → (Q.entries s.chan.q ≡ [])
        × (Q.entries s.chan.drop_key_q ≡ [])
        × ((s.chan.senders_dropped ≡ false) ⊎ ((k : K) × (0 < count key_eq k (held_keys S s.held))))
  no_lost_wakeup {s} l r e quiet none_due =
      let i = Reach-Inv S r in
      let sees = rw e at i.wakes in
      let no_drop = settle (sees.no_drop refl) in
      (
        settle (sees.no_msg refl),
        no_drop,
        elim (settle (sees.no_end refl)) [
          | inl live ↦ inl live
          | inr used ↦ inr (
              in_use-owned (held_keys S s.held) s.chan s.receiver.using_keys s.receiver refl
                (rw e at i.owns) no_drop used)
        ],
      )
    where
      settle :
          {A : Type 0} → A ⊎ (0 < s.notifying) ⊎ (E.notified s.chan.wake_recv_event l ≡ true) → A
      settle (inl a) = a
      settle (inr (inl due)) = absurd (omega arith)
      settle (inr (inr woken)) = absurd (cc)
