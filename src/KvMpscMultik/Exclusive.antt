-- ===== src/KvMpscMultik/Exclusive.antt =====
-- kv_mpsc_multik.rs: runs of the conflict manager, and the holders of keys in them.
use pa_queue_and_chan.Prelude.{
  ℕ, ◌≤◌, ◌≡◌, sym, ap, subst, ◌∙◌, arith, Bool, true, false, Option, List, [], ◌∷◌, ◌++◌, ok,
  count, count-append, contains,
}
use pa_queue_and_chan.KvMpscMultik.Conflict.{ConflictManager}
use pa_queue_and_chan.KvMpscMultik.Manager.{new, key_using, handle_new_msg, unuse_key}
use pa_queue_and_chan.KvMpscMultik.Cells.{key_using-flag}
use pa_queue_and_chan.KvMpscMultik.Using.{weight, Sound, Sound-held, Distinct}
use pa_queue_and_chan.KvMpscMultik.Arrival.{new-Sound, handle_new_msg-Sound, keys_taken}
use pa_queue_and_chan.KvMpscMultik.Searched.{unuse_key-Sound}

pub weight-le : (b : Bool) → weight b ≤ 1
weight-le true = omega arith
weight-le false = omega arith

module _ {K V : Type 0} (key_eq : Discrete K) (hash_order : List ℕ → List ℕ)
    (lists_no_other : (id : ℕ) (ids : List ℕ)
      → contains id (hash_order ids) ≡ true
      → contains id ids ≡ true) where
  -- The manager and the keys of the received messages, until their release is handled.
  pub data Step (m : ConflictManager K V) (held : List K)
      : ConflictManager K V → List K → Type 0 where
    arrives :
        (ks : List K) (v : V) (r : Option (List K × V)) (m' : ConflictManager K V)
        → Distinct key_eq ks
        → handle_new_msg key_eq ks v m ≡ ok (r, m')
        → Step m held m' (keys_taken key_eq r ++ held)
    releases :
        (k : K) (xs ys : List K) (r : Option (List K × V)) (m' : ConflictManager K V)
        → held ≡ xs ++ k ∷ ys
        → unuse_key key_eq hash_order k m ≡ ok (r, m')
        → Step m held m' (keys_taken key_eq r ++ (xs ++ ys))

  pub data Reach : ConflictManager K V → List K → Type 0 where
    here : Reach new []
    next :
        {m m' : ConflictManager K V} {held held' : List K}
        → Reach m held
        → Step m held m' held'
        → Reach m' held'

  Reach-Sound :
      {m : ConflictManager K V} {held : List K}
      → Reach m held
      → Sound key_eq (λ k. count key_eq k held) m
  unfolding count
  Reach-Sound here = new-Sound key_eq
  Reach-Sound (next {m} {m'} {held} q (arrives ks v r _ d h)) =
      Sound-held key_eq _ _ (λ j. sym (count-append key_eq j (keys_taken key_eq r) held))
        (handle_new_msg-Sound key_eq _ ks v m m' r h d (Reach-Sound q))
  Reach-Sound (next {m} {m'} {held} q (releases k xs ys r _ e h)) =
      Sound-held key_eq _ _ (λ j. sym (count-append key_eq j (keys_taken key_eq r) (xs ++ ys)))
        (unuse_key-Sound key_eq hash_order lists_no_other (λ j. count key_eq j (xs ++ ys)) k m m' r
          h
          (Sound-held key_eq _ _
            (λ j.
              ap (count key_eq j) e
              ∙ omega (arith, count-append key_eq j xs (k ∷ ys), count-append key_eq j xs ys))
            (Reach-Sound q)))

  -- Of messages without doubled keys, whatever their arrivals and the order in which the received
  -- ones are released, no two hold one key: each key is held at most once, and it is marked as in
  -- use exactly while it is held. The messages may have been returned at once or have waited. The
  -- runs are those in which no operation panics, and the iteration over a set of waiting ids
  -- yields no other ids.
  pub keys_held_once :
      {m : ConflictManager K V} {held : List K} (k : K)
      → Reach m held
      → (count key_eq k held ≤ 1) × (weight (key_using key_eq k m) ≡ count key_eq k held)
  keys_held_once {m} {held} k q =
      let o = ap weight (key_using-flag key_eq k m) ∙ (Reach-Sound q).owns k in
      (subst (λ n. n ≤ 1) o (weight-le (key_using key_eq k m)), o)
