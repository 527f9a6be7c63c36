-- ===== src/KvMpsc/Keys.antt =====
-- kv_mpsc.rs: which keys are in use, and who holds them.
use Prim.Native.Nat.{ℕ}
use mathlib.Core.Logic.{if_pos, if_neg}
use pa_queue_and_chan.Prelude.{
  AllKey, AllKey-snoc, subst, carry, ◌+◌, ◌≡◌, refl, inl, inr, Option, none, some, List, [], ◌∷◌,
  ◌++◌, arith, get, get-insert, get-remove, count, to_list,
}
use pa_queue_and_chan.External.Setting.{Setting}
use pa_queue_and_chan.KvMpsc.Defs.{
  At, Channel, Receiver, Message, Pc, drain, pop_q, done, sync_pop_step, release_key, handle_msg,
}
use pa_queue_and_chan.KvMpsc.Quiet.{sync_pop-quiet}
use pa_queue_and_chan.KvMpsc.System.{returned}

module _ (S : Setting) where
  open S use {K, V, key_eq, queues as Q}

  -- The keys of pairs, and of messages.
  abbrev pub keys_of : List (K × V) → List K
  keys_of [] = []
  keys_of ((k, v) ∷ xs) = k ∷ keys_of xs

  abbrev pub held_keys : List (Message S) → List K
  held_keys [] = []
  held_keys (m ∷ ms) = to_list m.k ++ held_keys ms

  abbrev pub occupied : Option (List (K × V)) → ℕ
  occupied none = 0
  occupied (some w) = 1

  -- Each key in use has one owner: a held message, a dropped key that is still queued, or the
  -- message that `sync_pop` is about to return.
  abbrev pub OwnsOnce : List K → Channel S → Receiver S → List (K × V) → Type 0
  OwnsOnce held c r out =
      (k : K)
      → count key_eq k held + count key_eq k (Q.entries c.drop_key_q) + count key_eq k (keys_of out)
        ≡ occupied (get key_eq k r.using_keys)

  -- The messages that wait for a key have that key.
  abbrev pub waiting_for : Option (List (K × V)) → List (K × V)
  waiting_for none = []
  waiting_for (some w) = w

  abbrev pub WaitsForOwn : Receiver S → Type 0
  WaitsForOwn r = (k : K) → AllKey key_eq k (waiting_for (get key_eq k r.using_keys))

  release_key-OwnsOnce :
      (held : List K) (j : K) (w : Option (List (K × V))) (c : Channel S) (r : Receiver S)
      → get key_eq j r.using_keys ≡ w
      → AllKey key_eq j (waiting_for w)
      → ((k : K)
          → count key_eq k held + count key_eq k (j ∷ Q.entries c.drop_key_q)
            ≡ occupied (get key_eq k r.using_keys))
      → let n = release_key S j w c r in OwnsOnce held n.0 n.1 (returned S n.2)
  unfolding release_key count
  release_key-OwnsOnce held j none c r e a own k = absurd (ground (arith, own j))
  release_key-OwnsOnce held j (some []) c r e a own k =
      ground (arith, own k, get-remove key_eq j k r.using_keys)
  release_key-OwnsOnce held j (some ((i, v) ∷ rest)) c r e a own k =
      ground (arith, own k, get-insert key_eq j k rest r.using_keys)

  handle_msg-OwnsOnce :
      (held : List K) (j : K) (v : V) (w : Option (List (K × V))) (c : Channel S) (r : Receiver S)
      → get key_eq j r.using_keys ≡ w
      → OwnsOnce held c r []
      → let n = handle_msg S j v w c r in OwnsOnce held n.0 n.1 (returned S n.2)
  unfolding handle_msg count
  handle_msg-OwnsOnce held j v none c r e own k =
      ground (arith, own k, get-insert key_eq j k [] r.using_keys)
  handle_msg-OwnsOnce held j v (some w) c r e own k =
      ground (arith, own k, get-insert key_eq j k (w ++ (j, v) ∷ []) r.using_keys)

  release_key-WaitsForOwn :
      (j : K) (w : Option (List (K × V))) (c : Channel S) (r : Receiver S)
      → AllKey key_eq j (waiting_for w)
      → WaitsForOwn r
      → WaitsForOwn (release_key S j w c r).1
  unfolding release_key
  release_key-WaitsForOwn j none c r a own k = own k
  release_key-WaitsForOwn j (some []) c r a own k =
      rw (get-remove key_eq j k r.using_keys)
        (elim (key_eq j k) [ yes e ↦ rw (if_pos _ e) tt | no n ↦ rw (if_neg _ n) (own k) ])
  release_key-WaitsForOwn j (some ((i, v) ∷ rest)) c r a own k =
      rw (get-insert key_eq j k rest r.using_keys) (elim (key_eq j k) [
        | yes e ↦ rw (if_pos _ e) (subst (λ x. AllKey key_eq x rest) e a.1)
        | no n ↦ rw (if_neg _ n) (own k)
      ])

  handle_msg-WaitsForOwn :
      (j : K) (v : V) (w : Option (List (K × V))) (c : Channel S) (r : Receiver S)
      → AllKey key_eq j (waiting_for w)
      → WaitsForOwn r
      → WaitsForOwn (handle_msg S j v w c r).1
  unfolding handle_msg
  handle_msg-WaitsForOwn j v none c r a own k =
      rw (get-insert key_eq j k [] r.using_keys)
        (elim (key_eq j k) [ yes e ↦ rw (if_pos _ e) tt | no n ↦ rw (if_neg _ n) (own k) ])
  handle_msg-WaitsForOwn j v (some w) c r a own k =
      rw (get-insert key_eq j k (w ++ (j, v) ∷ []) r.using_keys) (elim (key_eq j k) [
        | yes e ↦
            rw (if_pos _ e)
              (subst (λ x. AllKey key_eq x (w ++ (j, v) ∷ [])) e (AllKey-snoc key_eq j v w a))
        | no n ↦ rw (if_neg _ n) (own k)
      ])

  pub sync_pop-OwnsOnce :
      (held : List K) (c : Channel S) (r : Receiver S) (p : Pc S) (n : At S)
      → OwnsOnce held c r (returned S p)
      → WaitsForOwn r
      → sync_pop_step S c r p ≡ some n
      → OwnsOnce held n.0 n.1 (returned S n.2)
  unfolding sync_pop_step count
  sync_pop-OwnsOnce held c r drain n own w h k = elim (Q.pop-Pops c.drop_key_q) [
    | inl (e, pe) ↦ carry Owns (rw (pe, sync_pop_step) at h) own k
    | inr (j, rest, e, pe) ↦
        carry Owns (rw (pe, sync_pop_step) at h)
          (release_key-OwnsOnce held j _ (record c { drop_key_q = rest }) r refl (w j)
            (λ i. ground (arith, own i)))
          k
  ]
    where
      Owns : At S → Type 0
      Owns m = OwnsOnce held m.0 m.1 (returned S m.2)
  sync_pop-OwnsOnce held c r pop_q n own w h k = elim (Q.pop-Pops c.q) [
    | inl (e, pe) ↦ carry Owns (rw (pe, sync_pop_step) at h) own k
    | inr ((j, v), rest, e, pe) ↦
        carry Owns (rw (pe, sync_pop_step) at h)
          (handle_msg-OwnsOnce held j v _ (record c { q = rest }) r refl own) k
  ]
    where
      Owns : At S → Type 0
      Owns m = OwnsOnce held m.0 m.1 (returned S m.2)
  sync_pop-OwnsOnce held c r (done m) n own w h k = cc
  sync_pop-OwnsOnce held c r p n own w h k = ground (arith, own k, sync_pop-quiet S c r p n tt h)

  pub sync_pop-WaitsForOwn :
      (c : Channel S) (r : Receiver S) (p : Pc S) (n : At S)
      → WaitsForOwn r
      → sync_pop_step S c r p ≡ some n
      → WaitsForOwn n.1
  unfolding sync_pop_step
  sync_pop-WaitsForOwn c r drain n w h k = elim (Q.pop-Pops c.drop_key_q) [
    | inl (e, pe) ↦ carry Waits (rw (pe, sync_pop_step) at h) w k
    | inr (j, rest, e, pe) ↦
        carry Waits (rw (pe, sync_pop_step) at h)
          (release_key-WaitsForOwn j _ (record c { drop_key_q = rest }) r (w j) w) k
  ]
    where
      Waits : At S → Type 0
      Waits m = WaitsForOwn m.1
  sync_pop-WaitsForOwn c r pop_q n w h k = elim (Q.pop-Pops c.q) [
    | inl (e, pe) ↦ carry Waits (rw (pe, sync_pop_step) at h) w k
    | inr ((j, v), rest, e, pe) ↦
        carry Waits (rw (pe, sync_pop_step) at h)
          (handle_msg-WaitsForOwn j v _ (record c { q = rest }) r (w j) w) k
  ]
    where
      Waits : At S → Type 0
      Waits m = WaitsForOwn m.1
  sync_pop-WaitsForOwn c r p n w h k = rw ((sync_pop-quiet S c r p n tt h).0) (w k)
