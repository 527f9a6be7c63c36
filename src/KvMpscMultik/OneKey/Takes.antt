-- ===== src/KvMpscMultik/OneKey/Takes.antt =====
-- kv_mpsc_multik.rs: the arrival of a message with one key, and the lock of that key.
use mathlib.Core.Logic.{ite}
use mathlib.Core.Option.{some-injective}
use pa_queue_and_chan.Prelude.{
  ℕ, ◌+◌, ◌<◌, ◌≡◌, refl, sym, ap, subst, ◌∙◌, arith, true, false, none, some, [], ◌∷◌, get, insert,
  get-insert, ℕ_discrete, contains, ok,
}
use pa_queue_and_chan.KvMpscMultik.Conflict.{
  KeyStateInner, ConflictManager, id_bound, update, new_state,
}
use pa_queue_and_chan.KvMpscMultik.Manager.{entry, handle_new_msg}
use pa_queue_and_chan.KvMpscMultik.Entry.{entry-Enters}
use pa_queue_and_chan.KvMpscMultik.Cells.{
  with_cell, with_cell-Mapped, flag, flag-some, flag-with_cell, ite-yes, ite-no,
}
use pa_queue_and_chan.KvMpscMultik.Using.{listed}
use pa_queue_and_chan.KvMpscMultik.Taking.{entry-Calm, with_cell-Calm}
use pa_queue_and_chan.KvMpscMultik.Waits.{listing, listing-Calm, listing-using, contains-first}
use pa_queue_and_chan.KvMpscMultik.OneKey.Locks.{
  Locks, with_waiting, set, waits_for, waits_for-none, waits_for-some, waits_for-same,
}
use pa_queue_and_chan.KvMpscMultik.OneKey.Implements.{
  Stored, Stored-keeps, Implements, Implements-Calm, held_state,
}
use pa_queue_and_chan.KvMpscMultik.OneKey.Arriving.{handle-free, handle-used}

module _ {K V : Type 0} (key_eq : Discrete K) where
  -- The key of the message is free.
  pub arrive-takes :
      (k : K) (v : V) (l : Locks K V) (m : ConflictManager K V)
      → Implements key_eq l m
      → l.held k ≡ false
      → (m' : ConflictManager K V) × (handle_new_msg key_eq (k ∷ []) v m
          ≡ ok (some (k ∷ [], v), m'))
        × Implements key_eq (record l { held = set key_eq k true l.held }) m'
  unfolding new_state
  arrive-takes k v l m i h =
      let e = entry-Enters key_eq k m i.mapped in
      let r = (entry key_eq k m).0 in
      let m1 = (entry key_eq k m).1 in
      let i1 =
        Implements-Calm key_eq l m m1 l.held (entry-Calm key_eq k m i.mapped)
          (λ j. e.flags (λ c. c.using) refl j ∙ i.uses j) i in
      let c : KeyStateInner K = record (m1.cells r) { using = true } in
      (
        with_cell key_eq r c m1,
        handle-free key_eq k v m (i.uses k ∙ h)
            (sym (flag-some key_eq (λ c. c.using) k r m1 e.found) ∙ i1.uses k ∙ h),
        Implements-Calm key_eq l m1 (with_cell key_eq r c m1) (set key_eq k true l.held)
            (with_cell-Calm key_eq k r c m1 e.mapped e.found refl refl)
            (λ j.
              flag-with_cell key_eq (λ c. c.using) k j r c m1 e.mapped e.found
              ∙ ap (λ b. ite (key_eq k j) true b) (i1.uses j))
            i1,
      )

  -- The manager after the message has become the waiting message `n`.
  abbrev waiting_in : ℕ → ℕ → V → ConflictManager K V → ConflictManager K V
  waiting_in r n v m = record m {
    waitingmsgs = insert ℕ_discrete n (record { ks_v = some (r ∷ [], v); id = n }) m.waitingmsgs;
    next_waitingmsg_id = n + 1;
    cells = update m.cells r (listing n (m.cells r));
  }

  lists-waiting :
      (k : K) (v : V) (r : ℕ) (l : Locks K V) (m : ConflictManager K V)
      → Implements key_eq l m
      → get key_eq k m.keys_states ≡ some r
      → (id : ℕ) (j : K)
      → listed key_eq id j (waiting_in r l.next v m) ≡ waits_for key_eq id j (with_waiting k v l)
  unfolding flag
  lists-waiting k v r l m i e id j =
      let added : get ℕ_discrete id (with_waiting k v l).waits
          ≡ ite (ℕ_discrete l.next id) (some (k, v)) (get ℕ_discrete id l.waits) =
        get-insert ℕ_discrete l.next id (k, v) l.waits in
      elim (ℕ_discrete l.next id) [
        | no d ↦
            (listing-Calm key_eq l.next k r m i.mapped e).same_listed id j
              (λ q. d (some-injective _ _ q))
            ∙ i.lists id j
            ∙ waits_for-same key_eq id j l (with_waiting k v l)
                (sym (added ∙ ite-no (ℕ_discrete l.next id) _ _ d))
        | yes p ↦
            flag-with_cell key_eq (λ c. contains id c.waitingmsgs) k j r
              (listing l.next (m.cells r)) m i.mapped e
            ∙ ap (λ b. ite (key_eq k j) b (listed key_eq id j m))
                (subst (λ x. contains x (listing l.next (m.cells r)).waitingmsgs ≡ true) p
                  (contains-first l.next _))
            ∙ ap (λ b. ite (key_eq k j) true b)
                (i.lists id j ∙ waits_for-none key_eq id j l (i.old id (omega (arith, p))))
            ∙ sym (
                waits_for-some key_eq id j k v (with_waiting k v l)
                  (added ∙ ite-yes (ℕ_discrete l.next id) _ _ p))
      ]

  waiting-Stored :
      (k : K) (v : V) (r : ℕ) (l : Locks K V) (m : ConflictManager K V)
      → Implements key_eq l m
      → get key_eq k m.keys_states ≡ some r
      → (id : ℕ)
      → Stored key_eq (waiting_in r l.next v m) id (get ℕ_discrete id (with_waiting k v l).waits)
  waiting-Stored k v r l m i e id = elim (ℕ_discrete l.next id) [
    | no d ↦
        subst (Stored key_eq (waiting_in r l.next v m) id)
          (sym
            (get-insert ℕ_discrete l.next id (k, v) l.waits ∙ ite-no (ℕ_discrete l.next id) _ _ d))
          (Stored-keeps key_eq m (waiting_in r l.next v m) id (get ℕ_discrete id l.waits)
            (λ j s g. g)
            (get-insert ℕ_discrete l.next id _ m.waitingmsgs ∙ ite-no (ℕ_discrete l.next id) _ _ d)
            (i.stored id))
    | yes p ↦
        subst (Stored key_eq (waiting_in r l.next v m) id)
          (sym
            (get-insert ℕ_discrete l.next id (k, v) l.waits ∙ ite-yes (ℕ_discrete l.next id) _ _ p))
          (
            r,
            e,
            get-insert ℕ_discrete l.next id _ m.waitingmsgs
                ∙ ite-yes (ℕ_discrete l.next id) _ _ p
                ∙ ap (λ x. some (record { ks_v = some (r ∷ [], v); id = x })) p,
          )
  ]

  -- The key of the message is in use.
  pub arrive-waits :
      (k : K) (v : V) (l : Locks K V) (m : ConflictManager K V)
      → Implements key_eq l m
      → l.held k ≡ true
      → l.next + 1 < id_bound
      → (m' : ConflictManager K V) × (handle_new_msg key_eq (k ∷ []) v m ≡ ok (none, m'))
        × Implements key_eq (with_waiting k v l) m'
  unfolding flag
  arrive-waits k v l m i h b =
      let (r, e, u) = held_state key_eq l m k i h in
      (
        waiting_in r l.next v m,
        subst (λ n. handle_new_msg key_eq (k ∷ []) v m ≡ ok (none, waiting_in r n v m)) i.same_next
            (handle-used key_eq k v r m e u (omega (arith, i.same_next)) (
              subst (Stored key_eq m m.next_waitingmsg_id)
                (i.old m.next_waitingmsg_id (omega (arith, i.same_next)))
                (i.stored m.next_waitingmsg_id))),
        record {
          mapped = with_cell-Mapped key_eq k r (listing l.next (m.cells r)) m i.mapped e refl;
          uses = λ j. listing-using key_eq l.next k j r m i.mapped e ∙ i.uses j;
          lists = lists-waiting k v r l m i e;
          stored = waiting-Stored k v r l m i e;
          old = λ id lt.
              get-insert ℕ_discrete l.next id (k, v) l.waits
              ∙ ite-no (ℕ_discrete l.next id) _ _ (λ p. omega arith)
              ∙ i.old id (omega arith);
          same_next = refl;
        },
      )
