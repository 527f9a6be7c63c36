-- ===== src/KvMpscMultik/OneKey/Freed.antt =====
-- kv_mpsc_multik.rs: a released key that nobody waits for, and the locks.
use mathlib.Core.Logic.{ite}
use pa_queue_and_chan.Prelude.{
  ℕ, ◌≡◌, refl, sym, ap, ◌∙◌, inl, inr, true, false, Option, none, some, List, [], ◌∷◌, get,
  get-remove, ℕ_discrete, contains, Option-cases,
}
use pa_queue_and_chan.KvMpscMultik.Conflict.{KeyStateInner, ConflictManager}
use pa_queue_and_chan.KvMpscMultik.Cells.{
  with_cell, flag, flag-some, flag-with_cell, ite-yes, ite-no, update-same,
}
use pa_queue_and_chan.KvMpscMultik.Taking.{with_cell-Calm}
use pa_queue_and_chan.KvMpscMultik.Delivery.{forgotten, flag-forgotten, get-forgotten, true-false}
use pa_queue_and_chan.KvMpscMultik.OneKey.Locks.{
  Locks, set, waits_for, waits_for-none, waits_for-some,
}
use pa_queue_and_chan.KvMpscMultik.OneKey.Implements.{Stored, Implements, Implements-Calm}

-- A list that contains nothing.
pub empty_list : (ids : List ℕ) → ((id : ℕ) → contains id ids ≡ false) → ids ≡ []
unfolding contains
empty_list [] h = refl
empty_list (i ∷ ids) h = absurd (true-false (sym (ite-yes (ℕ_discrete i i) _ _ refl) ∙ h i))

pub not_contained : (id : ℕ) → contains id [] ≡ false
unfolding contains
not_contained id = refl

pub contained_first : (id : ℕ) (ids : List ℕ) → contains id (id ∷ ids) ≡ true
unfolding contains
contained_first id ids = ite-yes (ℕ_discrete id id) _ _ refl

module _ {K V : Type 0} (key_eq : Discrete K) where
  pub waits_for-true :
      (id : ℕ) (k : K) (l : Locks K V)
      → waits_for key_eq id k l ≡ true
      → (v : V) × (get ℕ_discrete id l.waits ≡ some (k, v))
  waits_for-true id k l t = elim (Option-cases (get ℕ_discrete id l.waits)) [
    | inl e ↦ absurd (true-false (sym t ∙ waits_for-none key_eq id k l e))
    | inr ((j, v), e) ↦ elim (key_eq j k) [
      | yes p ↦ (v, e ∙ ap (λ x. some (x, v)) p)
      | no d ↦ absurd (
          true-false
            (sym t ∙ waits_for-some key_eq id k j v l e ∙ ite-no (key_eq j k) true false d))
    ]
  ]

  -- What the state of a held key lists.
  pub listed_state :
      (k : K) (r : ℕ) (l : Locks K V) (m : ConflictManager K V)
      → Implements key_eq l m
      → get key_eq k m.keys_states ≡ some r
      → (id : ℕ) → contains id (m.cells r).waitingmsgs ≡ waits_for key_eq id k l
  listed_state k r l m i e id =
      sym (flag-some key_eq (λ c. contains id c.waitingmsgs) k r m e) ∙ i.lists id k

  Stored-forgotten :
      (k : K) (id : ℕ) (o : Option (K × V)) (l : Locks K V) (m : ConflictManager K V)
      → get ℕ_discrete id l.waits ≡ o
      → waits_for key_eq id k l ≡ false
      → Stored key_eq m id o
      → Stored key_eq (forgotten key_eq k m) id o
  Stored-forgotten k id none l m w n s = s
  Stored-forgotten k id (some (j, v)) l m w n (r, g, h) = (
    r,
    get-remove key_eq k j m.keys_states
        ∙ ite-no (key_eq k j) _ _ (λ p. true-false (
            sym (ite-yes (key_eq j k) true false (sym p))
            ∙ sym (waits_for-some key_eq id k j v l w)
            ∙ n))
        ∙ g,
    h,
  )

  -- The key is free, and its state is still there.
  pub unused-Implements :
      (k : K) (r : ℕ) (l : Locks K V) (m : ConflictManager K V)
      → Implements key_eq l m
      → get key_eq k m.keys_states ≡ some r
      → Implements key_eq
          (record l { held = set key_eq k false l.held })
          (with_cell key_eq r (record (m.cells r) { using = false }) m)
  unused-Implements k r l m i e =
      let c : KeyStateInner K = record (m.cells r) { using = false } in
      Implements-Calm key_eq l m (with_cell key_eq r c m) (set key_eq k false l.held)
        (with_cell-Calm key_eq k r c m i.mapped e refl refl)
        (λ j.
          flag-with_cell key_eq (λ c. c.using) k j r c m i.mapped e
          ∙ ap (λ b. ite (key_eq k j) false b) (i.uses j))
        i

  -- No message waits for the key: its state is dropped.
  pub release-frees :
      (k : K) (r : ℕ) (l : Locks K V) (m : ConflictManager K V)
      → Implements key_eq l m
      → get key_eq k m.keys_states ≡ some r
      → (m.cells r).waitingmsgs ≡ []
      → Implements key_eq
          (record l { held = set key_eq k false l.held })
          (forgotten key_eq k (with_cell key_eq r (record (m.cells r) { using = false }) m))
  unfolding flag waits_for
  release-frees k r l m i e empty =
      let c : KeyStateInner K = record (m.cells r) { using = false } in
      let m1 = with_cell key_eq r c m in
      let same = update-same m.cells r c in
      let i1 = unused-Implements k r l m i e in
      let lists_none : (id : ℕ) → contains id (m1.cells r).waitingmsgs ≡ false = λ id.
        ap (λ c. contains id c.waitingmsgs) same ∙ ap (contains id) empty ∙ not_contained id in
      record {
        mapped = λ j s g. i1.mapped j s (get-forgotten key_eq k j s m1 g);
        uses = λ j.
            flag-forgotten key_eq (λ c. c.using) k j r m1 e (ap (λ c. c.using) same) ∙ i1.uses j;
        lists = λ id j.
            flag-forgotten key_eq (λ c. contains id c.waitingmsgs) k j r m1 e (lists_none id)
            ∙ i1.lists id j;
        stored = λ id.
            Stored-forgotten k id (get ℕ_discrete id l.waits) l m1 refl
              (sym (listed_state k r l m i e id) ∙ ap (contains id) empty ∙ not_contained id)
              (i1.stored id);
        old = i1.old;
        same_next = i1.same_next;
      }
