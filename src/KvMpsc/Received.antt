-- ===== src/KvMpsc/Received.antt =====
-- kv_mpsc.rs: what the loop of `test_basic` receives.
use mathlib.Core.Logic.{if_pos}
use pa_queue_and_chan.Prelude.{
  ℕ, zero, suc, ◌+◌, ◌≡◌, refl, sym, ap, subst, ◌∙◌, true, false, Option, none, some, List, [], ◌∷◌,
  ◌++◌, arith, length, get, insert, remove, ok, Map, append_assoc, append-nil, get-nil,
}
use pa_queue_and_chan.External.Setting.{Setting}
use pa_queue_and_chan.External.SegQueue.{pop-empty, pop-first}
use pa_queue_and_chan.KvMpsc.Defs.{
  Channel, Receiver, drain, pop_q, check_q, check_drop, check_end, done, At, channel, new_channel,
  new_receiver, notify, send, inner_send, send_push, drop_senders, new_message, drop_message,
  sync_pop_step, release_key, handle_msg,
}
use pa_queue_and_chan.KvMpsc.Termination.{sync_pop}
use pa_queue_and_chan.KvMpsc.Consume.{
  send_all, leave, discard, after_drop, after_recv, consume, test_basic,
}

abbrev five : ℕ → ℕ
five n = suc (suc (suc (suc (suc n))))

abbrev six : ℕ → ℕ
six n = suc (five n)

module _ (S : Setting) where
  open S use {K, V, key_eq, queues as Q, events as E}

  -- Keys that the last received messages had.
  abbrev each : List K → Map K (List (K × V))
  each [] = []
  each (k ∷ ks) = (k, []) ∷ each ks

  -- All senders are gone; `xs` is queued, and the keys `ks` of dropped messages.
  record Queued (ks : List K) (xs : List (K × V)) (c : Channel S) (r : Receiver S) : Type 0 where
    msgs : Q.entries c.q ≡ xs
    drops : Q.entries c.drop_key_q ≡ ks
    gone : c.senders_dropped ≡ true
    used : r.using_keys ≡ each ks

  one_used :
      (k : K) (r : Receiver S) → r.using_keys ≡ (k, []) ∷ [] → get key_eq k r.using_keys ≡ some []
  unfolding get
  one_used k r e = ap (get key_eq k) e ∙ if_pos (key_eq k k) refl (some []) none

  -- The dropped key is released.
  releases :
      (k : K) (xs : List (K × V)) (c : Channel S) (r : Receiver S)
      → Queued (k ∷ []) xs c r
      → (c' : Channel S) × (r' : Receiver S) × (sync_pop_step S c r drain ≡ some (c', r', drain))
        × Queued [] xs c' r'
  unfolding sync_pop_step release_key get remove
  releases k xs c r h =
      let (rest, p, e) = pop-first Q c.drop_key_q k [] h.drops in
      (
        record c { drop_key_q = rest },
        record r { using_keys = [] },
        rw (p, sync_pop_step)
            (ap (λ w. some (release_key S k w (record c { drop_key_q = rest }) r))
                (one_used k r h.used)
              ∙ ap (λ u. some (record c { drop_key_q = rest }, record r { using_keys = u }, drain))
                  (ap (remove key_eq k) h.used ∙ if_pos (key_eq k k) refl [] ((k, []) ∷ []))),
        record { msgs = h.msgs; drops = e; gone = h.gone; used = refl },
      )

  -- The next message is taken out.
  takes :
      (k : K) (v : V) (xs : List (K × V)) (c : Channel S) (r : Receiver S)
      → Queued [] ((k, v) ∷ xs) c r
      → (c' : Channel S) × (r' : Receiver S) × (sync_pop_step S c r drain ≡ some (c, r, pop_q))
        × (sync_pop_step S c r pop_q ≡ some (c', r', done (some (k, v))))
        × ((c'' : Channel S) × (discard S (k, v) c' ≡ ok c'') × Queued (k ∷ []) xs c'' r')
  unfolding sync_pop_step handle_msg get insert remove discard drop_message new_message notify
  takes k v xs c r h =
      let (rest, p, e) = pop-first Q c.q (k, v) xs h.msgs in
      (
        record c { q = rest },
        record r { using_keys = (k, []) ∷ [] },
        rw (pop-empty Q c.drop_key_q h.drops, sync_pop_step) refl,
        rw (p, sync_pop_step)
            (ap (λ w. some (handle_msg S k v w (record c { q = rest }) r))
                (ap (get key_eq k) h.used ∙ get-nil key_eq k)
              ∙ ap
                  (λ u. some (
                    record c { q = rest },
                    record r { using_keys = insert key_eq k [] u },
                    done (some (k, v)),
                  ))
                  h.used),
        (
          notify S (record c { q = rest; drop_key_q = Q.push k c.drop_key_q }),
          refl,
          record {
            msgs = e;
            drops = Q.entries-push k c.drop_key_q ∙ ap (λ ks. ks ++ k ∷ []) h.drops;
            gone = h.gone;
            used = refl;
          },
        ),
      )

  -- With nothing left, the channel is found closed.
  closes :
      (c : Channel S) (r : Receiver S)
      → Queued [] [] c r
      → (sync_pop_step S c r drain ≡ some (c, r, pop_q))
        × (sync_pop_step S c r pop_q ≡ some (c, r, check_q))
        × (sync_pop_step S c r check_q ≡ some (c, r, check_drop))
        × (sync_pop_step S c r check_drop ≡ some (c, r, check_end))
        × (sync_pop_step S c r check_end ≡ some (c, r, done none))
  unfolding sync_pop_step
  closes c r h = (
    rw (pop-empty Q c.drop_key_q h.drops, sync_pop_step) refl,
    rw (pop-empty Q c.q h.msgs, sync_pop_step) refl,
    rw (Q.no_entry_lem c.q, h.msgs, sync_pop_step) refl,
    rw (Q.no_entry_lem c.drop_key_q, h.drops, sync_pop_step) refl,
    rw (h.used, h.gone, sync_pop_step) refl,
  )

  sync_pop-next :
      (fuel : ℕ) (a b : At S)
      → sync_pop_step S a.0 a.1 a.2 ≡ some b
      → sync_pop S (suc fuel) a ≡ sync_pop S fuel b
  unfolding sync_pop
  sync_pop-next fuel a b e = rw (sync_pop, e) refl

  sync_pop-done :
      (fuel : ℕ) (c : Channel S) (r : Receiver S) (m : Option (K × V))
      → sync_pop S fuel (c, r, done m) ≡ (c, r, done m)
  unfolding sync_pop sync_pop_step
  sync_pop-done zero c r m = refl
  sync_pop-done (suc fuel) c r m = refl

  -- One call of `recv`, and the rest of the loop.
  recv-all :
      (n m : ℕ) (xs : List (K × V)) (c : Channel S) (r : Receiver S)
      → Queued [] xs c r
      → after_recv S (consume S (length xs) (six n)) (sync_pop S (five m) (c, r, drain)) ≡ some xs
  unfolding consume after_recv after_drop
  recv-all n m [] c r h =
      let (a, b, d, e, f) = closes c r h in
      ap (after_recv S (consume S 0 (six n))) (
        sync_pop-next (suc (suc (suc (suc m)))) (c, r, drain) (c, r, pop_q) a
        ∙ sync_pop-next (suc (suc (suc m))) (c, r, pop_q) (c, r, check_q) b
        ∙ sync_pop-next (suc (suc m)) (c, r, check_q) (c, r, check_drop) d
        ∙ sync_pop-next (suc m) (c, r, check_drop) (c, r, check_end) e
        ∙ sync_pop-next m (c, r, check_end) (c, r, done none) f
        ∙ sync_pop-done m c r none)
  recv-all n m ((k, v) ∷ xs) c r h =
      let (c1, r1, a, b, (c2, d, h2)) = takes k v xs c r h in
      let (c3, r3, e, h3) = releases k xs c2 r1 h2 in
      ap (after_recv S (consume S (suc (length xs)) (six n))) (
        sync_pop-next (suc (suc (suc (suc m)))) (c, r, drain) (c, r, pop_q) a
        ∙ sync_pop-next (suc (suc (suc m))) (c, r, pop_q) (c1, r1, done (some (k, v))) b
        ∙ sync_pop-done (suc (suc (suc m))) c1 r1 (some (k, v)))
      ∙ ap (after_drop S (consume S (suc (length xs)) (six n)) (k, v) r1) d
      ∙ ap (λ o. elim o [ none ↦ none | some ys ↦ some ((k, v) ∷ ys) ])
          (ap (after_recv S (consume S (length xs) (six n)))
              (sync_pop-next (five n) (c2, r1, drain) (c3, r3, drain) e)
            ∙ recv-all n n xs c3 r3 h3)

  send-open :
      (k : K) (v : V) (c : Channel S)
      → c.receiver_dropped ≡ false
      → (send S k v c).0 ≡ inner_send S k v c
  unfolding send
  send-open k v c e = rw (e) refl

  send_all-Queued :
      (xs ys : List (K × V)) (c : Channel S) (r : Receiver S)
      → c.receiver_dropped ≡ false
      → Q.entries c.q ≡ ys
      → Q.entries c.drop_key_q ≡ []
      → r.using_keys ≡ []
      → Queued [] (ys ++ xs) (leave S (send_all S xs c)) r
  unfolding send_all inner_send send_push notify leave drop_senders
  send_all-Queued [] ys c r e f g u = record {
    msgs = f ∙ sym (append-nil ys);
    drops = g;
    gone = refl;
    used = u;
  }
  send_all-Queued ((k, v) ∷ xs) ys c r e f g u =
      subst (λ zs. Queued [] zs (leave S (send_all S ((k, v) ∷ xs) c)) r)
        (append_assoc ys ((k, v) ∷ []) xs)
        (subst (λ d. Queued [] ((ys ++ (k, v) ∷ []) ++ xs) (leave S (send_all S xs d)) r)
          (sym (send-open k v c e))
          (send_all-Queued xs (ys ++ (k, v) ∷ []) (inner_send S k v c) r e
            (Q.entries-push (k, v) c.q ∙ ap (λ zs. zs ++ (k, v) ∷ []) f) g u))

  -- In the schedule in which every message is sent and the last sender is gone before the first
  -- call of `recv`: whatever the messages, the loop of the test, which drops each message before it
  -- receives the next, gets them all, in the order of the pushes, and then finds the channel closed.
  -- It ends after as many rounds as there are messages and one more, and six steps are enough for
  -- each call of `recv`. In this schedule no message has to wait for its key.
  pub receives_all_sent :
      (n : ℕ) (xs : List (K × V)) → test_basic S (suc (length xs)) (6 + n) xs ≡ some xs
  unfolding test_basic consume channel new_channel new_receiver
  receives_all_sent n xs =
      subst (λ steps. test_basic S (suc (length xs)) steps xs ≡ some xs) (omega arith)
        (recv-all n (suc n) xs _ (channel S).1 (
          send_all-Queued xs [] (channel S).0 (channel S).1 refl (Q.entries-new {A = K × V})
            (Q.entries-new {A = K}) refl))
