-- ===== src/KvMpscMultik/OneKey/Refines.antt =====
-- kv_mpsc_multik.rs: with one key for each message, the conflict manager implements the locks.
use pa_queue_and_chan.Prelude.{
  ℕ, ◌+◌, ◌<◌, ◌≡◌, true, Option, none, some, List, [], ◌∷◌, ok, Outcome, inl, inr, Bool-cases,
  contains,
}
use pa_queue_and_chan.KvMpscMultik.Conflict.{ConflictManager, id_bound}
use pa_queue_and_chan.KvMpscMultik.Manager.{handle_new_msg, unuse_key}
use pa_queue_and_chan.KvMpscMultik.OneKey.Locks.{
  Locks, Request, arrive, release, Step, takes, waits, as_keys,
}
use pa_queue_and_chan.KvMpscMultik.OneKey.Implements.{Implements}
use pa_queue_and_chan.KvMpscMultik.OneKey.Takes.{arrive-takes, arrive-waits}
use pa_queue_and_chan.KvMpscMultik.OneKey.Gives.{release-held}

module _ {K V : Type 0} where
  -- Less than 2^31 messages have waited, and only held keys are released.
  abbrev pub Ready : Locks K V → Request K V → Type 0
  Ready l (arrive k v) = l.next + 1 < id_bound
  Ready l (release k) = l.held k ≡ true

module _ {K V : Type 0} (key_eq : Discrete K) (hash_order : List ℕ → List ℕ) where
  -- A request to the conflict manager.
  unfoldable pub perform :
      Request K V → ConflictManager K V → Outcome (Option (List K × V) × ConflictManager K V)
  perform (arrive k v) m = handle_new_msg key_eq (k ∷ []) v m
  perform (release k) m = unuse_key key_eq hash_order k m

module _ {K V : Type 0} (key_eq : Discrete K) (hash_order : List ℕ → List ℕ)
    (lists_same : (id : ℕ) (ids : List ℕ) → contains id (hash_order ids) ≡ contains id ids) where
  -- While the manager implements the locks of the keys and the messages that wait for them, each
  -- request, be it a message with one key, while ids are left, or the release of a held key,
  -- succeeds and answers as the locks may: a message takes its key if it is free and else waits; a
  -- released key is handed over to a message that waits for it, and is free only if there is none.
  -- The manager implements the locks after it. The iteration over a set of ids yields its ids.
  pub perform_refines :
      (l : Locks K V) (m : ConflictManager K V) (q : Request K V)
      → Implements key_eq l m
      → Ready l q
      → (answer : Option (K × V)) × (l' : Locks K V) × (m' : ConflictManager K V) × (perform key_eq
            hash_order q m
          ≡ ok (as_keys answer, m'))
        × Step key_eq l q answer l'
        × Implements key_eq l' m'
  unfolding perform
  perform_refines l m (arrive k v) i ready = elim (Bool-cases (l.held k)) [
    | inr h ↦
        let (m', e, i') = arrive-takes key_eq k v l m i h in
        (some (k, v), _, m', e, takes k v h, i')
    | inl h ↦
        let (m', e, i') = arrive-waits key_eq k v l m i h ready in (none, _, m', e, waits k v h, i')
  ]
  perform_refines l m (release k) i ready = release-held key_eq hash_order lists_same k l m i ready
