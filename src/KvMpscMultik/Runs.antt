-- ===== src/KvMpscMultik/Runs.antt =====
-- kv_mpsc_multik.rs: runs of the conflict manager on messages with several keys.
use mathlib.Core.List.{Perm}
use mathlib.Core.List.Perm
use pa_queue_and_chan.Prelude.{
  ℕ, ◌+◌, ◌<◌, ◌≡◌, refl, sym, ap, ◌∙◌, arith, true, Option, List, [], ◌∷◌, ◌++◌, Map, get, ok,
  ℕ_discrete, Bool, false, count, count-append, contains, to_list,
}
use pa_queue_and_chan.KvMpscMultik.Conflict.{ConflictManager, id_bound}
use pa_queue_and_chan.KvMpscMultik.Manager.{new, key_using, handle_new_msg, unuse_key}
use pa_queue_and_chan.KvMpscMultik.Cells.{key_using-flag}
use pa_queue_and_chan.KvMpscMultik.Using.{weight, Sound-held, Distinct}
use pa_queue_and_chan.KvMpscMultik.Blocked.{Blocked, new-Blocked, arrival-Blocked, release-Blocked}
use pa_queue_and_chan.KvMpscMultik.Arrival.{new-Sound, keys_taken}
use pa_queue_and_chan.KvMpscMultik.Frames.{IsWaiting}
use pa_queue_and_chan.KvMpscMultik.OneKey.Books.{values, Unique}
use pa_queue_and_chan.KvMpscMultik.Accounts.{Stored, Accounts, arrival-Accounts}
use pa_queue_and_chan.KvMpscMultik.Settled.{IsLess, release-Accounts}

module _ {K V : Type 0} (key_eq : Discrete K) (hash_order : List ℕ → List ℕ) where
  -- The manager, the keys of the received messages, until their release is handled, the messages
  -- that have arrived, and those that it has returned.
  pub data Run : ConflictManager K V → List K → List (List K × V) → List (List K × V) → Type 0 where
    start : Run new [] [] []
    arrives :
        {m : ConflictManager K V} {held : List K} {arrived returned : List (List K × V)}
        (ks : List K) (v : V) (r : Option (List K × V)) (m' : ConflictManager K V)
        → Run m held arrived returned
        → Distinct key_eq ks
        → m.next_waitingmsg_id + 1 < id_bound
        → handle_new_msg key_eq ks v m ≡ ok (r, m')
        → Run m' (keys_taken key_eq r ++ held) ((ks, v) ∷ arrived) (to_list r ++ returned)
    releases :
        {m : ConflictManager K V} {held : List K} {arrived returned : List (List K × V)} (k : K)
        (xs ys : List K) (r : Option (List K × V)) (m' : ConflictManager K V)
        → Run m held arrived returned
        → held ≡ xs ++ k ∷ ys
        → unuse_key key_eq hash_order k m ≡ ok (r, m')
        → Run m' (keys_taken key_eq r ++ (xs ++ ys)) arrived (to_list r ++ returned)

one_holder : (b : Bool) (n : ℕ) → weight b ≡ n → 0 < weight b → (b ≡ true) × (n ≡ 1)
one_holder true n e p = (refl, sym e)
one_holder false n e p = absurd (omega (arith, p))

module _ {K V : Type 0} (key_eq : Discrete K) where
  new-Accounts : Accounts {V = V} key_eq [] [] [] new
  unfolding get new count
  new-Accounts = record {
    sound = new-Sound key_eq;
    waits = [];
    unique = tt;
    stored = λ id. refl;
    all = Perm.refl [];
  }

module _ {K : Type 0} (key_eq : Discrete K) where
  pub taken-IsLess :
      (k : K) (held xs ys : List K) → held ≡ xs ++ k ∷ ys → IsLess key_eq k held (xs ++ ys)
  unfolding count
  taken-IsLess k held xs ys e j =
      ap (count key_eq j) e
      ∙ omega (arith, count-append key_eq j xs (k ∷ ys), count-append key_eq j xs ys)

module _ {K V : Type 0} (key_eq : Discrete K) (hash_order : List ℕ → List ℕ)
    (lists_same : (id : ℕ) (ids : List ℕ) → contains id (hash_order ids) ≡ contains id ids) where
  pub Run-Accounts :
      {m : ConflictManager K V} {held : List K} {arrived returned : List (List K × V)}
      → Run key_eq hash_order m held arrived returned
      → Accounts key_eq held arrived returned m
  Run-Accounts start = new-Accounts key_eq
  Run-Accounts (arrives {m} {held} {arrived = xs} {returned = rs} ks v r m' q d b h) =
      arrival-Accounts key_eq held ks v xs rs m m' r d b h (Run-Accounts q)
  Run-Accounts (releases {m} {held} {arrived = xs} {returned = rs} k us ws r m' q e h) =
      release-Accounts key_eq hash_order lists_same k held (us ++ ws) xs rs m m' r
        (taken-IsLess key_eq k held us ws e) h (Run-Accounts q)

  -- In every run of the manager on messages without doubled keys in which no operation panics,
  -- whatever the order of arrivals and of releases of held keys, the messages that have arrived are,
  -- each once, those that have been returned and those of a map in which no id stands twice; at each
  -- id, this map has the message that the manager has at that id in `waitingmsgs`, with the keys, in
  -- their order, and the value that can be taken from it, and it has nothing where the manager has
  -- nothing. Less than 2^31 messages have waited, and the iteration over a set of waiting ids yields
  -- just these.
  pub multikey_none_lost :
      {m : ConflictManager K V} {held : List K} {arrived returned : List (List K × V)}
      → Run key_eq hash_order m held arrived returned
      → (waiting : Map ℕ (List K × V)) × Unique waiting
        × Perm arrived (returned ++ values waiting)
        × ((id : ℕ) → Stored key_eq m id (get ℕ_discrete id waiting))
  multikey_none_lost r = let a = Run-Accounts r in (a.waits, a.unique, a.all, a.stored)

  Run-Blocked :
      {m : ConflictManager K V} {held : List K} {arrived returned : List (List K × V)}
      → Run key_eq hash_order m held arrived returned
      → Blocked key_eq m
  Run-Blocked start = new-Blocked key_eq
  Run-Blocked (arrives {m} ks v r m' q d b h) =
      arrival-Blocked key_eq _ ks v m m' r (Run-Accounts q).sound d h (Run-Blocked q)
  Run-Blocked (releases {m} {held} k us ws r m' q e h) =
      release-Blocked key_eq hash_order lists_same (λ j. count key_eq j (us ++ ws)) k m m' r
        (Sound-held key_eq _ _ (taken-IsLess key_eq k held us ws e) (Run-Accounts q).sound) h
        (Run-Blocked q)

  -- In every run of the manager on messages without doubled keys in which no operation panics,
  -- whatever the order of arrivals and of releases of held keys, no message waits without a cause:
  -- each waiting message has a key that is marked as in use and that the returned messages hold
  -- exactly once, the release of it not being handled yet. Less than 2^31 messages have waited, and
  -- the iteration over a set of waiting ids yields just these.
  pub holder_exists :
      {m : ConflictManager K V} {held : List K} {arrived returned : List (List K × V)} (id : ℕ)
      (ks : List K) (v : V)
      → Run key_eq hash_order m held arrived returned
      → IsWaiting m id ks v
      → (k : K) × (0 < count key_eq k ks)
        × (count key_eq k held ≡ 1)
        × (key_using key_eq k m ≡ true)
  holder_exists {m} {held} id ks v r w =
      let (k, p, u) = Run-Blocked r id ks v w in
      let (using, once) = one_holder _ _ ((Run-Accounts r).sound.owns k) u in
      (k, p, once, key_using-flag key_eq k m ∙ using)
