-- ===== src/KvMpscMultik/OneKey/Implements.antt =====
-- kv_mpsc_multik.rs: the conflict manager that stands for the locks of its keys.
use pa_queue_and_chan.Prelude.{
  ℕ, ◌≤◌, ◌≡◌, refl, sym, ap, ◌∙◌, inl, inr, arith, Bool, true, Option, none, some, [], ◌∷◌, get,
  ℕ_discrete, Option-cases,
}
use pa_queue_and_chan.KvMpscMultik.Conflict.{ConflictManager}
use pa_queue_and_chan.KvMpscMultik.Manager.{new}
use pa_queue_and_chan.KvMpscMultik.Cells.{Mapped, flag, flag-some, flag-none}
use pa_queue_and_chan.KvMpscMultik.Using.{listed, Calm}
use pa_queue_and_chan.KvMpscMultik.OneKey.Locks.{Locks, free, waits_for}
use pa_queue_and_chan.KvMpscMultik.Delivery.{true-false}

module _ {K V : Type 0} (key_eq : Discrete K) where
  abbrev pub used : K → ConflictManager K V → Bool
  used k m = flag key_eq (λ c. c.using) k m

  -- The message of the store that stands for a waiting one.
  abbrev pub Stored : ConflictManager K V → ℕ → Option (K × V) → Type 0
  Stored m id none = get ℕ_discrete id m.waitingmsgs ≡ none
  Stored m id (some (k, v)) =
      (r : ℕ) × (get key_eq k m.keys_states ≡ some r)
      × (get ℕ_discrete id m.waitingmsgs ≡ some (record { ks_v = some (r ∷ [], v); id = id }))

  pub record Implements (l : Locks K V) (m : ConflictManager K V) : Type 0 where
    pub mapped : Mapped key_eq m
    pub uses : (k : K) → used k m ≡ l.held k
    pub lists : (id : ℕ) (k : K) → listed key_eq id k m ≡ waits_for key_eq id k l
    pub stored : (id : ℕ) → Stored m id (get ℕ_discrete id l.waits)
    pub old : (id : ℕ) → l.next ≤ id → get ℕ_discrete id l.waits ≡ none
    pub same_next : m.next_waitingmsg_id ≡ l.next

  pub new-Implements : Implements free new
  unfolding new flag waits_for get
  new-Implements = record {
    mapped = λ k r e. ground arith;
    uses = λ k. refl;
    lists = λ id k. refl;
    stored = λ id. refl;
    old = λ id h. refl;
    same_next = refl;
  }

  pub Stored-keeps :
      (m m' : ConflictManager K V) (id : ℕ) (o : Option (K × V))
      → ((k : K) (r : ℕ)
          → get key_eq k m.keys_states ≡ some r
          → get key_eq k m'.keys_states ≡ some r)
      → get ℕ_discrete id m'.waitingmsgs ≡ get ℕ_discrete id m.waitingmsgs
      → Stored m id o
      → Stored m' id o
  Stored-keeps m m' id none f e s = e ∙ s
  Stored-keeps m m' id (some (k, v)) f e (r, g, h) = (r, f k r g, e ∙ h)

  -- The keys in use change, the waiting messages do not.
  pub Implements-Calm :
      (l : Locks K V) (m m' : ConflictManager K V) (held' : K → Bool)
      → Calm key_eq none m m'
      → ((k : K) → used k m' ≡ held' k)
      → Implements l m
      → Implements (record l { held = held' }) m'
  unfolding waits_for
  Implements-Calm l m m' held' c u i = record {
    mapped = c.still_mapped;
    uses = u;
    lists = λ id k. c.same_listed id k (λ e. ground arith) ∙ i.lists id k;
    stored = λ id.
        Stored-keeps m m' id (get ℕ_discrete id l.waits) c.keeps
          (ap (get ℕ_discrete id) c.same_msgs) (i.stored id);
    old = i.old;
    same_next = c.same_id ∙ i.same_next;
  }

  -- The state of a held key.
  pub held_state :
      (l : Locks K V) (m : ConflictManager K V) (k : K)
      → Implements l m
      → l.held k ≡ true
      → (r : ℕ) × (get key_eq k m.keys_states ≡ some r) × ((m.cells r).using ≡ true)
  held_state l m k i h = elim (Option-cases (get key_eq k m.keys_states)) [
    | inl e ↦ absurd (true-false (sym h ∙ sym (i.uses k) ∙ flag-none key_eq (λ c. c.using) k m e))
    | inr (r, e) ↦ (r, e, sym (flag-some key_eq (λ c. c.using) k r m e) ∙ i.uses k ∙ h)
  ]
