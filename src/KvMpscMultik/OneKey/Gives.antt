-- ===== src/KvMpscMultik/OneKey/Gives.antt =====
-- kv_mpsc_multik.rs: the release of a key, and its lock.
use mathlib.Core.Option.{some-injective}
use pa_queue_and_chan.Prelude.{
  ℕ, ◌≡◌, refl, sym, ap, subst, ◌∙◌, true, Option, none, some, List, [], ◌∷◌, get, contains, ok,
}
use pa_queue_and_chan.KvMpscMultik.Conflict.{ConflictManager}
use pa_queue_and_chan.KvMpscMultik.Manager.{unuse_key}
use pa_queue_and_chan.KvMpscMultik.OneKey.Locks.{Locks, Request, Step, hands_over, frees, as_keys}
use pa_queue_and_chan.KvMpscMultik.OneKey.Implements.{Stored, Implements, held_state}
use pa_queue_and_chan.KvMpscMultik.OneKey.Releasing.{unuse-alone, unuse-handed}
use pa_queue_and_chan.KvMpscMultik.OneKey.Freed.{
  empty_list, not_contained, contained_first, waits_for-true, listed_state, release-frees,
}
use pa_queue_and_chan.KvMpscMultik.OneKey.Handed.{release-hands_over, handed}

module _ {K V : Type 0} (key_eq : Discrete K) (hash_order : List ℕ → List ℕ)
    (lists_same : (id : ℕ) (ids : List ℕ) → contains id (hash_order ids) ≡ contains id ids) where
  abbrev pub Released : K → Locks K V → ConflictManager K V → Type 0
  Released k l m =
      (answer : Option (K × V)) × (l' : Locks K V) × (m' : ConflictManager K V) × (unuse_key key_eq
          hash_order k m
        ≡ ok (as_keys answer, m'))
      × Step key_eq l (Request.release k) answer l'
      × Implements key_eq l' m'

  -- The release of a held key succeeds: it frees the key, or hands it over to a message that waits
  -- for it.
  release-cases :
      (k : K) (r : ℕ) (l : Locks K V) (m : ConflictManager K V) (ids : List ℕ)
      → Implements key_eq l m
      → l.held k ≡ true
      → get key_eq k m.keys_states ≡ some r
      → (m.cells r).using ≡ true
      → hash_order (m.cells r).waitingmsgs ≡ ids
      → Released k l m
  release-cases k r l m [] i h e u o =
      let empty = empty_list (m.cells r).waitingmsgs (λ id.
        sym (lists_same id (m.cells r).waitingmsgs) ∙ ap (contains id) o ∙ not_contained id) in
      (
        none,
        _,
        _,
        unuse-alone key_eq hash_order k r m e u o empty,
        frees k h (λ id.
            sym (listed_state key_eq k r l m i e id) ∙ ap (contains id) empty ∙ not_contained id),
        release-frees key_eq k r l m i e empty,
      )
  release-cases k r l m (id ∷ ids) i h e u o =
      let mem : contains id (m.cells r).waitingmsgs ≡ true =
        sym (lists_same id (m.cells r).waitingmsgs) ∙ ap (contains id) o ∙ contained_first id ids in
      let (v, w) = waits_for-true key_eq id k l (sym (listed_state key_eq k r l m i e id) ∙ mem) in
      let (s, g, stored) = subst (Stored key_eq m id) w (i.stored id) in
      let same : s ≡ r = some-injective _ _ (sym g ∙ e) in
      (
        some (k, v),
        _,
        handed key_eq r id m,
        unuse-handed key_eq hash_order k r id ids v m e u (i.mapped k r e).1 o mem
            (stored ∙ ap (λ x. some (record { ks_v = some (x ∷ [], v); id = id })) same),
        hands_over k v id h w,
        release-hands_over key_eq k v r id l m i h e w,
      )

  pub release-held :
      (k : K) (l : Locks K V) (m : ConflictManager K V)
      → Implements key_eq l m
      → l.held k ≡ true
      → Released k l m
  release-held k l m i h =
      let (r, e, u) = held_state key_eq l m k i h in
      release-cases k r l m (hash_order (m.cells r).waitingmsgs) i h e u refl
