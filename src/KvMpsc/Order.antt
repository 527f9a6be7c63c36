-- ===== src/KvMpsc/Order.antt =====
-- kv_mpsc.rs: the messages of each key, in the order in which they were pushed.
use pa_queue_and_chan.Prelude.{
  ◌≡◌, refl, inl, inr, Option, none, some, List, [], ◌∷◌, ◌++◌, arith, get, get-insert, get-remove,
  of_key, of_key-append, AllKey, carry, append_assoc, append-nil,
}
use pa_queue_and_chan.External.Setting.{Setting}
use pa_queue_and_chan.KvMpsc.Defs.{
  Channel, Receiver, Pc, drain, pop_q, At, sync_pop_step, release_key, handle_msg,
}
use pa_queue_and_chan.KvMpsc.System.{returned}
use pa_queue_and_chan.KvMpsc.Keys.{waiting_for, WaitsForOwn}
use pa_queue_and_chan.KvMpsc.Quiet.{sync_pop-quiet}

module _ (S : Setting) where
  open S use {K, V, key_eq, queues as Q}

  -- Of each key: what was pushed is what was popped, then what waits, then what is still queued.
  abbrev pub InOrder : List (K × V) → List (K × V) → Channel S → Receiver S → Type 0
  InOrder pushed popped c r =
      (k : K)
      → of_key key_eq k pushed
        ≡ of_key key_eq k popped
          ++ (waiting_for S (get key_eq k r.using_keys) ++ of_key key_eq k (Q.entries c.q))

  release_key-InOrder :
      (pushed popped : List (K × V)) (j : K) (w : Option (List (K × V))) (c : Channel S)
      (r : Receiver S)
      → get key_eq j r.using_keys ≡ w
      → AllKey key_eq j (waiting_for S w)
      → InOrder pushed popped c r
      → let n = release_key S j w c r in InOrder pushed (popped ++ returned S n.2) n.0 n.1
  unfolding release_key of_key
  release_key-InOrder pushed popped j none c r e a o k = rw append-nil (o k)
  release_key-InOrder pushed popped j (some []) c r e a o k =
      ground (arith, o k, append-nil popped, get-remove key_eq j k r.using_keys)
  release_key-InOrder pushed popped j (some ((i, v) ∷ rest)) c r e a o k = ground (
    arith,
    o k,
    of_key-append key_eq k popped ((i, v) ∷ []),
    get-insert key_eq j k rest r.using_keys,
    append_assoc (of_key key_eq k popped) (of_key key_eq k ((i, v) ∷ []))
        (rest ++ of_key key_eq k (Q.entries c.q)),
    append_assoc (of_key key_eq k popped) (of_key key_eq k ((i, v) ∷ []))
        (waiting_for S (get key_eq k r.using_keys) ++ of_key key_eq k (Q.entries c.q)),
  )

  handle_msg-InOrder :
      (pushed popped : List (K × V)) (j : K) (v : V) (w : Option (List (K × V))) (c c' : Channel S)
      (r : Receiver S)
      → Q.entries c.q ≡ (j, v) ∷ Q.entries c'.q
      → get key_eq j r.using_keys ≡ w
      → InOrder pushed popped c r
      → let n = handle_msg S j v w c' r in InOrder pushed (popped ++ returned S n.2) n.0 n.1
  unfolding handle_msg of_key
  handle_msg-InOrder pushed popped j v none c c' r q e o k = ground (
    arith,
    o k,
    of_key-append key_eq k popped ((j, v) ∷ []),
    get-insert key_eq j k [] r.using_keys,
    append-nil (of_key key_eq k popped),
    append_assoc (of_key key_eq k popped) ((j, v) ∷ []) (of_key key_eq k (Q.entries c'.q)),
  )
  handle_msg-InOrder pushed popped j v (some w) c c' r q e o k = ground (
    arith,
    o k,
    append-nil popped,
    get-insert key_eq j k (w ++ (j, v) ∷ []) r.using_keys,
    append_assoc w ((j, v) ∷ []) (of_key key_eq k (Q.entries c'.q)),
  )

  pub sync_pop-InOrder :
      (pushed popped : List (K × V)) (c : Channel S) (r : Receiver S) (p : Pc S) (n : At S)
      → InOrder pushed popped c r
      → WaitsForOwn S r
      → sync_pop_step S c r p ≡ some n
      → InOrder pushed (popped ++ returned S n.2) n.0 n.1
  unfolding sync_pop_step
  sync_pop-InOrder pushed popped c r drain n o w h = elim (Q.pop-Pops c.drop_key_q) [
    | inl (e, pe) ↦ carry Ordered (rw (pe, sync_pop_step) at h) (rw append-nil o)
    | inr (j, rest, e, pe) ↦
        carry Ordered (rw (pe, sync_pop_step) at h)
          (release_key-InOrder pushed popped j _ (record c { drop_key_q = rest }) r refl (w j) o)
  ]
    where
      Ordered : At S → Type 0
      Ordered m = InOrder pushed (popped ++ returned S m.2) m.0 m.1
  sync_pop-InOrder pushed popped c r pop_q n o w h = elim (Q.pop-Pops c.q) [
    | inl (e, pe) ↦ carry Ordered (rw (pe, sync_pop_step) at h) (rw append-nil o)
    | inr ((j, v), rest, e, pe) ↦
        carry Ordered (rw (pe, sync_pop_step) at h)
          (handle_msg-InOrder pushed popped j v _ c (record c { q = rest }) r e refl o)
  ]
    where
      Ordered : At S → Type 0
      Ordered m = InOrder pushed (popped ++ returned S m.2) m.0 m.1
  sync_pop-InOrder pushed popped c r p n o w h =
      let q = sync_pop-quiet S c r p n tt h in rw (q.0, q.1, q.3, append-nil) o
