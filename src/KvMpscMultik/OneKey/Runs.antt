-- ===== src/KvMpscMultik/OneKey/Runs.antt =====
-- kv_mpsc_multik.rs: runs of the conflict manager on messages with one key.
use mathlib.Core.List.{Perm}
use pa_queue_and_chan.Prelude.{
  ℕ, ◌+◌, ◌<◌, ◌≡◌, refl, sym, ap, subst, ◌∙◌, arith, true, false, Option, some, List, [], ◌++◌,
  Map, get, ok, ok-injective, contains, to_list, ℕ_discrete,
}
use pa_queue_and_chan.KvMpscMultik.Conflict.{ConflictManager, id_bound}
use pa_queue_and_chan.KvMpscMultik.Manager.{new, key_using}
use pa_queue_and_chan.KvMpscMultik.Cells.{key_using-flag}
use pa_queue_and_chan.KvMpscMultik.OneKey.Locks.{
  Locks, Request, arrive, release, free, as_keys, as_keys-injective, waits_for-some,
}
use pa_queue_and_chan.KvMpscMultik.OneKey.Implements.{Implements, new-Implements, Stored}
use pa_queue_and_chan.KvMpscMultik.OneKey.Refines.{perform, Ready, perform_refines}
use pa_queue_and_chan.KvMpscMultik.OneKey.Books.{values, arrivals, Books, free-Books, Step-Books}
use pa_queue_and_chan.KvMpscMultik.Cells.{ite-yes}

module _ {K V : Type 0} (key_eq : Discrete K) (hash_order : List ℕ → List ℕ) where
  -- Ids are left for a message; the key that is released is in use.
  abbrev pub Allowed : ConflictManager K V → Request K V → Type 0
  Allowed m (arrive k v) = m.next_waitingmsg_id + 1 < id_bound
  Allowed m (release k) = key_using key_eq k m ≡ true

  -- The manager, the messages that have arrived, and those that it has returned.
  pub data Run : ConflictManager K V → List (K × V) → List (K × V) → Type 0 where
    start : Run new [] []
    next :
        {m : ConflictManager K V} {arrived returned : List (K × V)} (q : Request K V)
        (answer : Option (K × V)) (m' : ConflictManager K V)
        → Run m arrived returned
        → Allowed m q
        → perform key_eq hash_order q m ≡ ok (as_keys answer, m')
        → Run m' (arrivals key_eq q ++ arrived) (to_list answer ++ returned)

module _ {K V : Type 0} (key_eq : Discrete K) (hash_order : List ℕ → List ℕ)
    (lists_same : (id : ℕ) (ids : List ℕ) → contains id (hash_order ids) ≡ contains id ids) where
  Allowed-Ready :
      (l : Locks K V) (m : ConflictManager K V) (q : Request K V)
      → Implements key_eq l m
      → Allowed key_eq hash_order m q
      → Ready l q
  Allowed-Ready l m (arrive k v) i a = omega (arith, i.same_next)
  Allowed-Ready l m (release k) i a = sym (i.uses k) ∙ sym (key_using-flag key_eq k m) ∙ a

  Run-Books :
      {m : ConflictManager K V} {arrived returned : List (K × V)}
      → Run key_eq hash_order m arrived returned
      → (l : Locks K V) × Implements key_eq l m × Books key_eq l arrived returned
  Run-Books start = (free, new-Implements key_eq, free-Books key_eq)
  Run-Books (next {m} {arrived} {returned} q answer m' r a e) =
      let (l, i, b) = Run-Books r in
      let (answer1, l', m1, e1, step, i') =
        perform_refines key_eq hash_order lists_same l m q i (Allowed-Ready l m q i a) in
      let same : ◌≡◌ {A = Option (List K × V) × ConflictManager K V} (as_keys answer1, m1)
          (as_keys answer, m') =
        ok-injective (sym e1 ∙ e) in
      (
        l',
        subst (Implements key_eq l') (ap (λ p. p.1) same) i',
        subst (λ o. Books key_eq l' (arrivals key_eq q ++ arrived) (to_list o ++ returned))
            (as_keys-injective answer1 answer (ap (λ p. p.0) same))
            (Step-Books key_eq l l' q answer1 arrived returned step (i.old l.next (omega arith)) b),
      )

  -- In every run of the manager, whatever the order of messages with one key and of releases of
  -- keys in use, the next such request is answered without a panic, as long as less than 2^31
  -- messages have waited.
  pub run_goes_on :
      {m : ConflictManager K V} {arrived returned : List (K × V)} (q : Request K V)
      → Run key_eq hash_order m arrived returned
      → Allowed key_eq hash_order m q
      → (answer : Option (K × V)) × (m' : ConflictManager K V) × (perform key_eq hash_order q m
          ≡ ok (as_keys answer, m'))
  run_goes_on {m} q r a =
      let (l, i, _) = Run-Books r in
      let (answer, _, m', e, _, _) =
        perform_refines key_eq hash_order lists_same l m q i (Allowed-Ready l m q i a) in
      (answer, m', e)

  -- In every run of the manager, whatever the order of messages with one key and of releases of
  -- keys in use, the messages that have arrived are those that have been returned and those that
  -- wait, each once; the waiting ones are the manager's `waitingmsgs`, and the key of each of them is
  -- in use.
  pub none_lost :
      {m : ConflictManager K V} {arrived returned : List (K × V)}
      → Run key_eq hash_order m arrived returned
      → (waiting : Map ℕ (K × V)) × Perm arrived (returned ++ values waiting)
        × ((id : ℕ) → Stored key_eq m id (get ℕ_discrete id waiting))
        × ((id : ℕ) (k : K) (v : V)
            → get ℕ_discrete id waiting ≡ some (k, v)
            → key_using key_eq k m ≡ true)
  none_lost {m} r =
      let (l, i, b) = Run-Books r in
      (
        l.waits,
        b.all,
        i.stored,
        (λ id k v e.
            key_using-flag key_eq k m
            ∙ i.uses k
            ∙ b.waiting_held id k
                (waits_for-some key_eq id k k v l e ∙ ite-yes (key_eq k k) true false refl)),
      )
