-- ===== src/KvMpscMultik/OneKey/Locks.antt =====
-- What the conflict manager of kv_mpsc_multik.rs promises for messages of one key: a lock for each
-- key, and the messages that wait for theirs.
use mathlib.Core.Logic.{ite}
use pa_queue_and_chan.Prelude.{
  ℕ, ◌+◌, ◌≡◌, refl, arith, Bool, true, false, Option, none, some, List, [], ◌∷◌, Map, get, insert,
  remove, ℕ_discrete,
}

pub record Locks (K V : Type 0) : Type 0 where
  pub held : K → Bool
  -- the waiting messages, by their ids
  pub waits : Map ℕ (K × V)
  pub next : ℕ

abbrev pub free : {K V : Type 0} → Locks K V
free = record { held = λ _. false; waits = []; next = 0 }

pub data Request (K V : Type 0) : Type 0 where
  arrive : K → V → Request K V
  release : K → Request K V

abbrev pub set : {K : Type 0} → Discrete K → K → Bool → (K → Bool) → K → Bool
set key_eq k b held j = ite (key_eq k j) b (held j)

-- The locks with one more waiting message, and without one.
abbrev pub with_waiting : {K V : Type 0} → K → V → Locks K V → Locks K V
with_waiting k v l = record l { waits = insert ℕ_discrete l.next (k, v) l.waits; next = l.next + 1 }

abbrev pub without_waiting : {K V : Type 0} → ℕ → Locks K V → Locks K V
without_waiting id l = record l { waits = remove ℕ_discrete id l.waits }

-- A returned message, as the manager returns it.
abbrev pub as_keys : {K V : Type 0} → Option (K × V) → Option (List K × V)
as_keys none = none
as_keys (some (k, v)) = some (k ∷ [], v)

module _ {K V : Type 0} where
  pub as_keys-injective : (a b : Option (K × V)) → as_keys a ≡ as_keys b → a ≡ b
  as_keys-injective none none e = refl
  as_keys-injective none (some _) e = ground arith
  as_keys-injective (some _) none e = ground arith
  as_keys-injective (some (k, v)) (some (j, w)) e = ground arith

module _ {K V : Type 0} (key_eq : Discrete K) where
  -- The message `id` waits for the key.
  unfoldable pub waits_for : ℕ → K → Locks K V → Bool
  waits_for id k l = elim (get ℕ_discrete id l.waits) [
    | none ↦ false
    | some (j, _) ↦ ite (key_eq j k) true false
  ]

  -- A request, the message that it returns, and the locks after it.
  pub data Step (l : Locks K V) : Request K V → Option (K × V) → Locks K V → Type 0 where
    takes :
        (k : K) (v : V)
        → l.held k ≡ false
        → Step l (arrive k v) (some (k, v)) (record l { held = set key_eq k true l.held })
    waits : (k : K) (v : V) → l.held k ≡ true → Step l (arrive k v) none (with_waiting k v l)
    hands_over :
        (k : K) (v : V) (id : ℕ)
        → l.held k ≡ true
        → get ℕ_discrete id l.waits ≡ some (k, v)
        → Step l (release k) (some (k, v)) (without_waiting id l)
    frees :
        (k : K)
        → l.held k ≡ true
        → ((id : ℕ) → waits_for id k l ≡ false)
        → Step l (release k) none (record l { held = set key_eq k false l.held })

  pub waits_for-none :
      (id : ℕ) (j : K) (l : Locks K V) → get ℕ_discrete id l.waits ≡ none → waits_for id j l ≡ false
  unfolding waits_for
  waits_for-none id j l e = rw (e, waits_for) refl

  pub waits_for-some :
      (id : ℕ) (j k : K) (v : V) (l : Locks K V)
      → get ℕ_discrete id l.waits ≡ some (k, v)
      → waits_for id j l ≡ ite (key_eq k j) true false
  unfolding waits_for
  waits_for-some id j k v l e = rw (e, waits_for) refl

  pub waits_for-same :
      (id : ℕ) (j : K) (l l' : Locks K V)
      → get ℕ_discrete id l.waits ≡ get ℕ_discrete id l'.waits
      → waits_for id j l ≡ waits_for id j l'
  unfolding waits_for
  waits_for-same id j l l' e = rw (e, waits_for) refl
