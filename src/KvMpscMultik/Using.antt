-- ===== src/KvMpscMultik/Using.antt =====
-- kv_mpsc_multik.rs: the invariant of the conflict manager: which keys are in use, and which states
-- list a waiting message.
use pa_queue_and_chan.Prelude.{
  ℕ, ◌<◌, ◌≤◌, ◌≡◌, ◌≢◌, sym, ◌∙◌, Bool, true, false, Option, none, some, List, [], ◌∷◌, Map, get,
  ℕ_discrete, count, contains,
}
use pa_queue_and_chan.KvMpscMultik.Conflict.{WaitingMsg, ConflictManager}
use pa_queue_and_chan.KvMpscMultik.Cells.{Mapped, flag}

abbrev pub weight : Bool → ℕ
weight true = 1
weight false = 0

module _ {K : Type 0} (key_eq : Discrete K) where
  -- The references are those of the keys.
  abbrev pub AllMapped : Map K ℕ → List ℕ → List K → Type 0
  AllMapped states [] [] = Unit
  AllMapped states (r ∷ rs) (k ∷ ks) = (get key_eq k states ≡ some r) × AllMapped states rs ks
  AllMapped states _ _ = ⊥

  abbrev pub Distinct : List K → Type 0
  Distinct ks = (k : K) → count key_eq k ks ≤ 1

  pub AllMapped-keeps :
      (s s' : Map K ℕ) (rs : List ℕ) (ks : List K)
      → ((j : K) (r : ℕ) → get key_eq j s ≡ some r → get key_eq j s' ≡ some r)
      → AllMapped s rs ks
      → AllMapped s' rs ks
  AllMapped-keeps s s' [] [] f a = tt
  AllMapped-keeps s s' (r ∷ rs) (k ∷ ks) f a = (f k r a.0, AllMapped-keeps s s' rs ks f a.1)
  AllMapped-keeps s s' [] (k ∷ ks) f a = absurd a
  AllMapped-keeps s s' (r ∷ rs) [] f a = absurd a

module _ {K V : Type 0} (key_eq : Discrete K) where
  abbrev pub listed : ℕ → K → ConflictManager K V → Bool
  listed id k m = flag key_eq (λ c. contains id c.waitingmsgs) k m

  -- The message with the given id has the references of `ks`; their states list it, and only states
  -- of keys in `all` do.
  pub record Waiting (m : ConflictManager K V) (id : ℕ) (rs : List ℕ) (ks all : List K)
      : Type 0 where
    pub refs : AllMapped key_eq m.keys_states rs ks
    pub lists_all : (k : K) → 0 < count key_eq k ks → listed id k m ≡ true
    pub only : (k : K) → listed id k m ≡ true → 0 < count key_eq k all

  -- How often each key is held is given by `held`: once if it is in use, else never.
  pub record Sound (held : K → ℕ) (m : ConflictManager K V) : Type 0 where
    pub mapped : Mapped key_eq m
    pub owns : (k : K) → weight (flag key_eq (λ c. c.using) k m) ≡ held k
    pub old : (id : ℕ) (k : K) → listed id k m ≡ true → id < m.next_waitingmsg_id
    pub msgs :
        (id : ℕ) (msg : WaitingMsg V)
        → get ℕ_discrete id m.waitingmsgs ≡ some msg
        → (id < m.next_waitingmsg_id)
          × ((rs : List ℕ) × (ks : List K) × (v : V) × (msg.ks_v ≡ some (rs, v))
              × Waiting m id rs ks ks
              × Distinct key_eq ks)

  -- A change that keeps the waiting messages, and the states' lists but for the id `x`.
  pub record Calm (x : Option ℕ) (m m' : ConflictManager K V) : Type 0 where
    pub still_mapped : Mapped key_eq m'
    pub keeps :
        (j : K) (r : ℕ) → get key_eq j m.keys_states ≡ some r → get key_eq j m'.keys_states ≡ some r
    pub same_listed : (id : ℕ) (k : K) → x ≢ some id → listed id k m' ≡ listed id k m
    pub same_msgs : m'.waitingmsgs ≡ m.waitingmsgs
    pub same_id : m'.next_waitingmsg_id ≡ m.next_waitingmsg_id

  pub Waiting-Calm :
      {x : Option ℕ} {m m' : ConflictManager K V} (id : ℕ) (rs : List ℕ) (ks all : List K)
      → x ≢ some id
      → Calm x m m'
      → Waiting m id rs ks all
      → Waiting m' id rs ks all
  Waiting-Calm {x} {m} {m'} id rs ks all d c w = record {
    refs = AllMapped-keeps key_eq m.keys_states m'.keys_states rs ks c.keeps w.refs;
    lists_all = λ k p. c.same_listed id k d ∙ w.lists_all k p;
    only = λ k p. w.only k (sym (c.same_listed id k d) ∙ p);
  }

  pub Sound-Calm :
      {m m' : ConflictManager K V} (held held' : K → ℕ)
      → Calm none m m'
      → ((k : K) → weight (flag key_eq (λ c. c.using) k m') ≡ held' k)
      → Sound held m
      → Sound held' m'
  Sound-Calm {m} {m'} held held' c o s = record {
    mapped = c.still_mapped;
    owns = o;
    old = λ id k p. rw (c.same_id) (s.old id k (sym (c.same_listed id k (λ e. cc)) ∙ p));
    msgs = λ id msg g.
        let (lt, (rs, ks, v, e, w, d)) = s.msgs id msg (rw (c.same_msgs) at g) in
        (rw (c.same_id) lt, (rs, ks, v, e, Waiting-Calm id rs ks ks (λ n. cc) c w, d));
  }

  pub Sound-held :
      {m : ConflictManager K V} (held held' : K → ℕ)
      → ((k : K) → held k ≡ held' k)
      → Sound held m
      → Sound held' m
  Sound-held held held' e s = record {
    mapped = s.mapped;
    owns = λ k. s.owns k ∙ e k;
    old = s.old;
    msgs = s.msgs;
  }

  -- Only the store and the states of the keys matter.
  pub Waiting-other :
      {m : ConflictManager K V} (ws : Map ℕ (WaitingMsg V)) (n : ℕ) {id : ℕ} {rs : List ℕ}
      {ks all : List K}
      → Waiting m id rs ks all
      → Waiting (record m { waitingmsgs = ws; next_waitingmsg_id = n }) id rs ks all
  unfolding flag
  Waiting-other ws n w = record { refs = w.refs; lists_all = w.lists_all; only = w.only }
