-- ===== src/KvMpscMultik/Received.antt =====
-- kv_mpsc_multik.rs: what the loop of `test_basic` receives.
use mathlib.Core.List.{reverse}
use pa_queue_and_chan.Prelude.{
  ℕ, suc, ◌≡◌, refl, sym, ap, subst, ◌∙◌, true, false, Option, none, some, List, [], ◌∷◌, ◌++◌,
  arith, length, append_assoc, append-nil, count, contains,
}
use pa_queue_and_chan.External.Setting.{Setting}
use pa_queue_and_chan.External.SegQueue.{pop-empty, pop-first}
use pa_queue_and_chan.KvMpscMultik.Using.{Distinct}
use pa_queue_and_chan.KvMpscMultik.Arrival.{count-reverse}
use pa_queue_and_chan.KvMpscMultik.Quiet.{
  Quiet, Quiet-held, Quiet-waits, new-Quiet, arrival-Quiet, release-Quiet,
}
use pa_queue_and_chan.KvMpscMultik.Channels.{
  Channel, Receiver, drain, pop_q, check_q, check_drop, check_end, done, At, channel, notify, send,
  inner_send, drop_senders, new_message, push_all, drop_message, sync_pop_step, after_call,
}
use pa_queue_and_chan.KvMpscMultik.Termination.{measure, Steps, stays, goes, sync_pop-Steps}
use pa_queue_and_chan.KvMpscMultik.Consume.{send_all, recv, after_recv, consume, test_basic}

module _ (S : Setting) (hash_order : List ℕ → List ℕ)
    (lists_same : (id : ℕ) (ids : List ℕ) → contains id (hash_order ids) ≡ contains id ids) where
  open S use {K, V, key_eq, queues as Q, events as E}

  -- No message has doubled keys.
  abbrev pub AllDistinct : List (List K × V) → Type 0
  AllDistinct [] = Unit
  AllDistinct ((ks, v) ∷ xs) = Distinct key_eq ks × AllDistinct xs

  -- All senders are gone; `xs` is queued, and the keys `ks` of the last message, all dropped.
  record Queued (ks : List K) (xs : List (List K × V)) (c : Channel S) (r : Receiver S)
      : Type 0 where
    msgs : Q.entries c.q ≡ xs
    drops : Q.entries c.drop_key_q ≡ ks
    gone : c.senders_dropped ≡ true
    quiet : Quiet key_eq (λ k. count key_eq k ks) r.conflict_manager

  entries-push_all :
      (ks : List K) (q : Q.SegQueue K) → Q.entries (push_all S hash_order ks q) ≡ Q.entries q ++ ks
  unfolding push_all
  entries-push_all [] q = sym (append-nil (Q.entries q))
  entries-push_all (k ∷ ks) q =
      entries-push_all ks (Q.push k q)
      ∙ ap (λ zs. zs ++ ks) (Q.entries-push k q)
      ∙ append_assoc (Q.entries q) (k ∷ []) ks

  Steps-trans :
      {a b c : At S hash_order}
      → Steps S hash_order a b
      → Steps S hash_order b c
      → Steps S hash_order a c
  Steps-trans stays t = t
  Steps-trans (goes e s) t = goes e (Steps-trans s t)

  -- The dropped keys are released.
  releases :
      (ks : List K) (xs : List (List K × V)) (c : Channel S) (r : Receiver S)
      → Queued ks xs c r
      → (c' : Channel S) × (r' : Receiver S) × Steps S hash_order (c, r, drain) (c', r', drain)
        × Queued [] xs c' r'
  unfolding sync_pop_step after_call count
  releases [] xs c r h = (c, r, stays, h)
  releases (k ∷ ks) xs c r h =
      let (rest, p, e) = pop-first Q c.drop_key_q k ks h.drops in
      let (m, u, q) =
        release-Quiet key_eq hash_order lists_same (λ j. count key_eq j ks) k r.conflict_manager
          h.quiet in
      let c1 = record c { drop_key_q = rest } in
      let r1 = record r { conflict_manager = m } in
      let (c2, r2, s, h2) =
        releases ks xs c1 r1 (record { msgs = h.msgs; drops = e; gone = h.gone; quiet = q }) in
      (c2, r2, goes {b = (c1, r1, drain)} (rw (p, sync_pop_step, u) refl) s, h2)

  -- The next message is taken out, and dropped.
  takes :
      (ks : List K) (v : V) (xs : List (List K × V)) (c : Channel S) (r : Receiver S)
      → Distinct key_eq ks
      → Queued [] ((ks, v) ∷ xs) c r
      → (c' : Channel S) × (r' : Receiver S) × Steps S hash_order
          (c, r, drain)
          (c', r', done (some (ks, v)))
        × Queued (reverse ks) xs (drop_message S hash_order (new_message S hash_order v ks) c') r'
  unfolding sync_pop_step after_call count drop_message new_message notify
  takes ks v xs c r d h =
      let (rest, p, e) = pop-first Q c.q (ks, v) xs h.msgs in
      let (m, u, q) = arrival-Quiet key_eq ks v r.conflict_manager h.quiet d in
      let c1 = record c { q = rest } in
      let r1 = record r { conflict_manager = m } in
      (
        c1,
        r1,
        goes {b = (c, r, pop_q)} (rw (pop-empty Q c.drop_key_q h.drops, sync_pop_step) refl)
            (goes {b = (c1, r1, done (some (ks, v)))} (rw (p, sync_pop_step, u) refl) stays),
        record {
          msgs = e;
          drops = entries-push_all (reverse ks) c.drop_key_q ∙ ap (λ zs. zs ++ reverse ks) h.drops;
          gone = h.gone;
          quiet = Quiet-held key_eq _ _ (λ k. sym (count-reverse key_eq k ks)) q;
        },
      )

  -- With nothing left, the channel is found closed.
  closes :
      (c : Channel S) (r : Receiver S)
      → Queued [] [] c r
      → Steps S hash_order (c, r, drain) (c, r, done none)
  unfolding sync_pop_step count
  closes c r h =
      goes {b = (c, r, pop_q)} (rw (pop-empty Q c.drop_key_q h.drops, sync_pop_step) refl) (
        goes {b = (c, r, check_q)} (rw (pop-empty Q c.q h.msgs, sync_pop_step) refl) (
          goes {b = (c, r, check_drop)} (rw (Q.no_entry_lem c.q, h.msgs, sync_pop_step) refl) (
            goes {b = (c, r, check_end)}
              (rw (Q.no_entry_lem c.drop_key_q, h.drops, sync_pop_step) refl)
              (goes {b = (c, r, done none)}
                (rw (Quiet-waits key_eq _ r.conflict_manager h.quiet, h.gone, sync_pop_step) refl)
                stays))))

  recv-done :
      (c c' : Channel S) (r r' : Receiver S) (m : Option (List K × V))
      → Steps S hash_order (c, r, drain) (c', r', done m)
      → recv S hash_order c r ≡ (c', r', done m)
  unfolding recv sync_pop_step
  recv-done c c' r r' m s =
      sync_pop-Steps S hash_order (suc (measure S hash_order (c, r, drain))) (c, r, drain)
        (c', r', done m) s refl (omega arith)

  -- One call of `recv`, and the rest of the loop.
  recv-all :
      (ks : List K) (xs : List (List K × V)) (c : Channel S) (r : Receiver S)
      → AllDistinct xs
      → Queued ks xs c r
      → consume S hash_order (suc (length xs)) c r ≡ some xs
  unfolding consume after_recv
  recv-all ks [] c r d h =
      let (c1, r1, s, h1) = releases ks [] c r h in
      ap (after_recv S hash_order (consume S hash_order 0))
        (recv-done c c1 r r1 none (Steps-trans s (closes c1 r1 h1)))
  recv-all ks ((js, v) ∷ xs) c r (d, ds) h =
      let (c1, r1, s, h1) = releases ks ((js, v) ∷ xs) c r h in
      let (c2, r2, t, h2) = takes js v xs c1 r1 d h1 in
      ap (after_recv S hash_order (consume S hash_order (suc (length xs))))
        (recv-done c c2 r r2 (some (js, v)) (Steps-trans s t))
      ∙ ap (λ o. elim o [ none ↦ none | some ys ↦ some ((js, v) ∷ ys) ])
          (recv-all (reverse js) xs _ r2 ds h2)

  send-open :
      (ks : List K) (v : V) (c : Channel S)
      → c.receiver_dropped ≡ false
      → (send S hash_order ks v c).0 ≡ inner_send S hash_order ks v c
  unfolding send
  send-open ks v c e = rw (e) refl

  send_all-Queued :
      (xs ys : List (List K × V)) (c : Channel S) (r : Receiver S)
      → c.receiver_dropped ≡ false
      → Q.entries c.q ≡ ys
      → Q.entries c.drop_key_q ≡ []
      → Quiet key_eq (λ k. 0) r.conflict_manager
      → Queued [] (ys ++ xs) (drop_senders S hash_order (send_all S hash_order xs c)) r
  unfolding send_all inner_send notify drop_senders count
  send_all-Queued [] ys c r e f g q = record {
    msgs = f ∙ sym (append-nil ys);
    drops = g;
    gone = refl;
    quiet = q;
  }
  send_all-Queued ((ks, v) ∷ xs) ys c r e f g q =
      subst
        (λ zs. Queued [] zs (drop_senders S hash_order (send_all S hash_order ((ks, v) ∷ xs) c)) r)
        (append_assoc ys ((ks, v) ∷ []) xs)
        (subst
          (λ d.
            Queued [] ((ys ++ (ks, v) ∷ []) ++ xs)
              (drop_senders S hash_order (send_all S hash_order xs d)) r)
          (sym (send-open ks v c e))
          (send_all-Queued xs (ys ++ (ks, v) ∷ []) (inner_send S hash_order ks v c) r e
            (Q.entries-push (ks, v) c.q ∙ ap (λ zs. zs ++ (ks, v) ∷ []) f) g q))

  -- In the schedule in which every message is sent and the last sender is gone before the first
  -- call of `recv`: whatever the messages without doubled keys, also with keys in common, the loop of
  -- the test, which drops each message before it receives the next, gets them all, with their keys,
  -- in the order of the pushes, and then finds the channel closed; no call of `recv` blocks or
  -- panics. In this schedule no message has to wait for its keys. The iteration over a set of ids
  -- yields its ids.
  pub all_keys_received :
      (xs : List (List K × V))
      → AllDistinct xs
      → test_basic S hash_order (suc (length xs)) xs ≡ some xs
  unfolding test_basic channel
  all_keys_received xs d = recv-all [] xs _ (channel S hash_order).1 d (
      send_all-Queued xs [] (channel S hash_order).0 (channel S hash_order).1 refl
        (Q.entries-new {A = List K × V}) (Q.entries-new {A = K}) (new-Quiet key_eq))
