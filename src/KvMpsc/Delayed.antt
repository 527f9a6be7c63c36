-- ===== src/KvMpsc/Delayed.antt =====
-- kv_mpsc.rs: the loop of `drop_msg_after_a_while` receives all messages.
use mathlib.Core.List.{Perm}
use pa_queue_and_chan.Prelude.{
  ℕ, zero, suc, ◌+◌, ◌*◌, ◌≤◌, ◌<◌, ◌≡◌, refl, sym, ap, subst, ◌∙◌, inl, inr, arith, true, false,
  Bool, Option, none, some, List, [], ◌∷◌, ◌++◌, length, append-nil, get, get-nil, of_key,
  length-of_key_le, regroup-Perm,
}
use pa_queue_and_chan.External.Setting.{Setting}
use pa_queue_and_chan.KvMpsc.Defs.{Message, Pc, waiting, done, new_message}
use pa_queue_and_chan.KvMpsc.System.{pc_returned, System, Reach, next, recv_returns, recv_closes}
use pa_queue_and_chan.KvMpsc.Keys.{waiting_for}
use pa_queue_and_chan.KvMpsc.Alone.{Seen, Stopped, is_done, is_panicked, is_blocked}
use pa_queue_and_chan.KvMpsc.Safety.{never_panics, no_lost_wakeup, keys_in_order}
use pa_queue_and_chan.KvMpsc.Closing.{closes_released}
use pa_queue_and_chan.KvMpsc.Recycle.{go_on, after_recv, loop, recv}
use pa_queue_and_chan.KvMpsc.Stepping.{Running, Rests, recv-Ran}
use pa_queue_and_chan.KvMpsc.Recycled.{
  Rests-Seen, clear-Running, busy, busy_le, held-busy, recycle-Running,
}

module _ (S : Setting) where
  open S use {K, V, key_eq, queues as Q, events as E}

  -- The loop has ended with all messages.
  abbrev pub ReceivesAll : List (K × V) → Option (ℕ × System S) → Type 0
  ReceivesAll xs o =
      (t : System S) × (o ≡ some (length xs, t))
      × Reach S t
      × (t.ended ≡ true)
      × (t.held ≡ [])
      × Perm xs t.popped
      × ((k : K) → of_key key_eq k t.popped ≡ of_key key_eq k xs)

  -- The messages with each key, once there are no others.
  all_popped :
      (xs : List (K × V)) (t : System S)
      → Reach S t
      → t.pushed ≡ xs
      → t.receiver.using_keys ≡ []
      → Q.entries t.chan.q ≡ []
      → (k : K) → of_key key_eq k xs ≡ of_key key_eq k t.popped
  unfolding of_key
  all_popped xs t r e u q k =
      ap (of_key key_eq k) (sym e)
      ∙ keys_in_order S k r
      ∙ ap (λ zs. of_key key_eq k t.popped ++ zs)
          (ap (λ m. waiting_for S (get key_eq k m) ++ of_key key_eq k (Q.entries t.chan.q)) u
            ∙ ap (λ w. waiting_for S w ++ of_key key_eq k (Q.entries t.chan.q)) (get-nil key_eq k)
            ∙ ap (of_key key_eq k) q)
      ∙ append-nil _

  popped_le :
      (held : List (Message S)) (xs : List (K × V)) (cnt : ℕ) (s : System S)
      → Running S held xs cnt s
      → length s.popped ≤ length xs
  popped_le held xs cnt s i =
      length-of_key_le key_eq s.popped xs _
        (λ k. ap (of_key key_eq k) (sym i.all) ∙ keys_in_order S k i.reach)

  ends :
      (held : List (Message S)) (xs : List (K × V)) (cnt : ℕ) (t : System S)
      → Running S held xs cnt t
      → t.pc ≡ some (done none)
      → ReceivesAll xs (some (cnt, record t { pc = none; ended = true }))
  ends held xs cnt t i e =
      let (none_held, free, _) = closes_released S i.reach e in
      let q : Q.entries t.chan.q ≡ [] = subst (Seen S t.chan) e i.seen in
      let same = all_popped xs t i.reach i.all free q in
      let (p, n) = regroup-Perm key_eq t.popped xs same in
      (
        record t { pc = none; ended = true },
        ap (λ c. some (c, record t { pc = none; ended = true }))
            (omega (arith, i.counts, n, ap (λ o. length (pc_returned S o)) e)),
        next i.reach (recv_closes e),
        refl,
        none_held,
        p,
        (λ k. sym (same k)),
      )

  takes :
      (held : List (Message S)) (xs : List (K × V)) (cnt : ℕ) (t : System S) (k : K) (v : V)
      → Running S held xs cnt t
      → t.pc ≡ some (done (some (k, v)))
      → Running S
          (new_message S k v ∷ held)
          xs
          (suc cnt)
          (record t { pc = none; held = new_message S k v ∷ t.held })
  takes held xs cnt t k v i e = record {
    reach = next i.reach (recv_returns k v e);
    gone = i.gone;
    alive = i.alive;
    due = i.due;
    all = i.all;
    same = ap (λ h. new_message S k v ∷ h) i.same;
    seen = tt;
    counts = omega (arith, i.counts, ap (λ o. length (pc_returned S o)) e);
  }

  -- Where the receiver blocks, messages are held.
  blocked-busy :
      (held : List (Message S)) (xs : List (K × V)) (cnt : ℕ) (t : System S) (l : E.EventListener)
      → Running S held xs cnt t
      → t.pc ≡ some (waiting l)
      → E.notified t.chan.wake_recv_event l ≡ false
      → busy S held ≡ 1
  blocked-busy held xs cnt t l i e quiet = elim ((no_lost_wakeup S l i.reach e quiet i.due).2) [
    | inl live ↦ absurd (cc (live, i.gone))
    | inr (k, p) ↦ ap (busy S) (sym i.same) ∙ held-busy S k t.held p
  ]

  -- The rest of the loop receives all.
  abbrev Rest : ℕ → ℕ → (ℕ → Bool) → List (K × V) → Type 0
  Rest n limit late xs =
      (held : List (Message S)) (cnt : ℕ) (s : System S)
      → Rests S s.pc
      → Running S held xs cnt s
      → 2 * length xs + busy S held < n + 2 * cnt
      → ReceivesAll xs (loop S n limit late cnt s)

  after_recv-ReceivesAll :
      (n limit : ℕ) (late : ℕ → Bool) (held : List (Message S)) (xs : List (K × V)) (cnt : ℕ)
      (t : System S) (q : Pc S) (b : Bool)
      → Rest n limit late xs
      → Running S held xs cnt t
      → t.pc ≡ some q
      → Stopped S t.chan q
      → 2 * length xs + busy S held < suc n + 2 * cnt
      → ReceivesAll xs (after_recv S (loop S n limit late) limit b cnt t (some q))
  unfolding after_recv
  after_recv-ReceivesAll n limit late held xs cnt t q b rest i e (is_done none) m =
      ends held xs cnt t i e
  after_recv-ReceivesAll n limit late held xs cnt t q b rest i e (is_done (some (k, v))) m =
      let (u, ms, h, w, j) =
        recycle-Running S limit b (new_message S k v ∷ held) xs (suc cnt)
          (record t { pc = none; held = new_message S k v ∷ t.held }) tt
          (takes held xs cnt t k v i e) in
      subst (λ o. ReceivesAll xs (go_on S (loop S n limit late (suc cnt)) o)) (sym h)
        (rest ms (suc cnt) u w j (omega (arith, m, busy_le S ms)))
  after_recv-ReceivesAll n limit late held xs cnt t q b rest i e is_panicked m =
      absurd (never_panics S i.reach e)
  after_recv-ReceivesAll n limit late held xs cnt t q b rest i e (is_blocked l quiet) m =
      let (u, h, w, j) = clear-Running S held xs cnt t (subst (Rests S) (sym e) tt) i in
      subst (λ o. ReceivesAll xs (go_on S (loop S n limit late cnt) o)) (sym h)
        (rest [] cnt u w j (omega (arith, m, blocked-busy held xs cnt t l i e quiet)))

  loop-ReceivesAll : (n limit : ℕ) (late : ℕ → Bool) (xs : List (K × V)) → Rest n limit late xs
  unfolding loop
  loop-ReceivesAll zero limit late xs held cnt s w i m =
      absurd (omega (arith, m, popped_le held xs cnt s i, i.counts))
  loop-ReceivesAll (suc n) limit late xs held cnt s w i m =
      let (j, (q, e, stop)) = recv-Ran S held xs cnt s w i in
      subst
        (λ o. ReceivesAll xs (after_recv S (loop S n limit late) limit (late n) cnt (recv S s) o))
        (sym e)
        (after_recv-ReceivesAll n limit late held xs cnt (recv S s) q (late n)
          (loop-ReceivesAll n limit late xs) j e stop m)

  Rests-none : (o : Option (Pc S)) → Rests S o → length (pc_returned S o) ≡ 0
  Rests-none none w = refl
  Rests-none (some (waiting l)) w = refl
  Rests-none (some p) w = absurd w

  -- Take any state that sends, receives and drops have reached in whatever order, in which the last
  -- sender is gone, the receiver lives, nobody is about to notify it, and it is outside `recv` or
  -- blocked in it. From there, without other threads than the one that the loop hands each message
  -- to, and which drops all that are held when there are `limit` of them, when it has waited in
  -- vain, however often, and when the loop is blocked, the loop receives all messages that were
  -- pushed and not yet received: it ends with every pushed message counted once, after at most two
  -- rounds for each and two more, it finds the channel closed, leaves nothing undropped, and the
  -- messages with one key have come in the order of their pushes.
  pub receives_all_later :
      {s : System S} (n limit : ℕ) (late : ℕ → Bool)
      → Reach S s
      → s.chan.senders_dropped ≡ true
      → s.chan.receiver_dropped ≡ false
      → s.notifying ≡ 0
      → Rests S s.pc
      → ReceivesAll s.pushed (loop S (2 * length s.pushed + 2 + n) limit late (length s.popped) s)
  receives_all_later {s} n limit late r gone alive due w =
      loop-ReceivesAll (2 * length s.pushed + 2 + n) limit late s.pushed s.held (length s.popped) s
        w
        (record {
          reach = r;
          gone = gone;
          alive = alive;
          due = due;
          all = refl;
          same = refl;
          seen = Rests-Seen S s.chan s.pc w;
          counts = omega (arith, Rests-none s.pc w);
        })
        (omega (arith, busy_le S s.held))
