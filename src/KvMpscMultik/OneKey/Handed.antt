-- ===== src/KvMpscMultik/OneKey/Handed.antt =====
-- kv_mpsc_multik.rs: a released key that is handed over, and the locks.
use mathlib.Core.Logic.{ite}
use mathlib.Core.Option.{some-injective}
use pa_queue_and_chan.Prelude.{
  ℕ, ◌≡◌, refl, sym, ap, subst, ◌∙◌, arith, Bool, true, false, some, List, [], ◌∷◌, get, remove,
  get-remove, ℕ_discrete, contains, without,
}
use pa_queue_and_chan.KvMpscMultik.Conflict.{KeyStateInner, ConflictManager}
use pa_queue_and_chan.KvMpscMultik.Cells.{
  with_cell, with_cell-Mapped, flag, flag-with_cell, ite-yes, ite-no,
}
use pa_queue_and_chan.KvMpscMultik.Using.{listed}
use pa_queue_and_chan.KvMpscMultik.Taking.{with_cell-Calm}
use pa_queue_and_chan.KvMpscMultik.Delivery.{unlisting, unlisting-Calm, unlisting-using}
use pa_queue_and_chan.KvMpscMultik.OneKey.Locks.{
  Locks, without_waiting, waits_for, waits_for-none, waits_for-some, waits_for-same,
}
use pa_queue_and_chan.KvMpscMultik.OneKey.Implements.{
  Stored, Stored-keeps, Implements, Implements-Calm,
}
use pa_queue_and_chan.KvMpscMultik.OneKey.Freed.{unused-Implements}
use pa_queue_and_chan.KvMpscMultik.OneKey.Releasing.{unused_cells, in_use_cell, handed_cells}

without_itself : (id : ℕ) (ids : List ℕ) → contains id (without id ids) ≡ false
unfolding contains without
without_itself id [] = refl
without_itself id (i ∷ ids) = ground (arith, without_itself id ids)

ite-neither : {P : Type 0} (d : Dec P) → ite d false (ite d true false) ≡ false
ite-neither (yes p) = refl
ite-neither (no n) = refl

ite-back : {P : Type 0} (d : Dec P) (b : Bool) → (P → b ≡ true) → ite d true (ite d false b) ≡ b
ite-back (yes p) b h = sym (h p)
ite-back (no n) b h = refl

module _ {K V : Type 0} (key_eq : Discrete K) where
  -- The manager without the waiting message `id`.
  abbrev unlisted : ℕ → ℕ → ConflictManager K V → ConflictManager K V
  unlisted r id m = record m {
    waitingmsgs = remove ℕ_discrete id m.waitingmsgs;
    cells = handed_cells r id m.cells;
  }

  lists-handed :
      (k : K) (v : V) (r id : ℕ) (l : Locks K V) (m : ConflictManager K V)
      → Implements key_eq l m
      → get key_eq k m.keys_states ≡ some r
      → get ℕ_discrete id l.waits ≡ some (k, v)
      → (x : ℕ) (j : K)
      → listed key_eq x j (unlisted r id m) ≡ waits_for key_eq x j (without_waiting id l)
  unfolding flag
  lists-handed k v r id l m i e w x j = elim (ℕ_discrete id x) [
    | no d ↦
        (unlisting-Calm key_eq id k r m i.mapped e).same_listed x j (λ q. d (some-injective _ _ q))
        ∙ i.lists x j
        ∙ waits_for-same key_eq x j l (without_waiting id l)
            (sym (get-remove ℕ_discrete id x l.waits ∙ ite-no (ℕ_discrete id x) _ _ d))
    | yes p ↦
        flag-with_cell key_eq (λ c. contains x c.waitingmsgs) k j r (unlisting id (m.cells r)) m
          i.mapped e
        ∙ ap (λ b. ite (key_eq k j) b (listed key_eq x j m))
            (subst (λ y. contains y (without id (m.cells r).waitingmsgs) ≡ false) p
              (without_itself id (m.cells r).waitingmsgs))
        ∙ ap (λ b. ite (key_eq k j) false b)
            (i.lists x j
              ∙ waits_for-some key_eq x j k v l
                  (subst (λ y. get ℕ_discrete y l.waits ≡ some (k, v)) p w))
        ∙ ite-neither (key_eq k j)
        ∙ sym (
            waits_for-none key_eq x j (without_waiting id l)
              (get-remove ℕ_discrete id x l.waits ∙ ite-yes (ℕ_discrete id x) _ _ p))
  ]

  handed-Stored :
      (k : K) (v : V) (r id : ℕ) (l : Locks K V) (m : ConflictManager K V)
      → Implements key_eq l m
      → (x : ℕ)
      → Stored key_eq (unlisted r id m) x (get ℕ_discrete x (remove ℕ_discrete id l.waits))
  handed-Stored k v r id l m i x = elim (ℕ_discrete id x) [
    | no d ↦
        subst (Stored key_eq (unlisted r id m) x)
          (sym (get-remove ℕ_discrete id x l.waits ∙ ite-no (ℕ_discrete id x) _ _ d))
          (Stored-keeps key_eq m (unlisted r id m) x (get ℕ_discrete x l.waits) (λ j s g. g)
            (get-remove ℕ_discrete id x m.waitingmsgs ∙ ite-no (ℕ_discrete id x) _ _ d)
            (i.stored x))
    | yes p ↦
        subst (Stored key_eq (unlisted r id m) x)
          (sym (get-remove ℕ_discrete id x l.waits ∙ ite-yes (ℕ_discrete id x) _ _ p))
          (get-remove ℕ_discrete id x m.waitingmsgs ∙ ite-yes (ℕ_discrete id x) _ _ p)
  ]

  -- The message `id` no longer waits for the key, which is in use.
  handed-Implements :
      (k : K) (v : V) (r id : ℕ) (l : Locks K V) (m : ConflictManager K V)
      → Implements key_eq l m
      → get key_eq k m.keys_states ≡ some r
      → get ℕ_discrete id l.waits ≡ some (k, v)
      → Implements key_eq (without_waiting id l) (unlisted r id m)
  unfolding flag
  handed-Implements k v r id l m i e w = record {
    mapped = with_cell-Mapped key_eq k r (unlisting id (m.cells r)) m i.mapped e refl;
    uses = λ j. unlisting-using key_eq id k j r m i.mapped e ∙ i.uses j;
    lists = λ x j. lists-handed k v r id l m i e w x j;
    stored = λ x. handed-Stored k v r id l m i x;
    old = λ x lt. elim (ℕ_discrete id x) [
      | yes p ↦ get-remove ℕ_discrete id x l.waits ∙ ite-yes (ℕ_discrete id x) _ _ p
      | no d ↦ get-remove ℕ_discrete id x l.waits ∙ ite-no (ℕ_discrete id x) _ _ d ∙ i.old x lt
    ];
    same_next = i.same_next;
  }

  -- The manager after the key has been handed over to the message `id`.
  abbrev pub handed : ℕ → ℕ → ConflictManager K V → ConflictManager K V
  handed r id m = record m {
    waitingmsgs = remove ℕ_discrete id m.waitingmsgs;
    cells = handed_cells r id (in_use_cell r (unused_cells r m.cells));
  }

  pub release-hands_over :
      (k : K) (v : V) (r id : ℕ) (l : Locks K V) (m : ConflictManager K V)
      → Implements key_eq l m
      → l.held k ≡ true
      → get key_eq k m.keys_states ≡ some r
      → get ℕ_discrete id l.waits ≡ some (k, v)
      → Implements key_eq (without_waiting id l) (handed r id m)
  unfolding flag
  release-hands_over k v r id l m i h e w =
      let c1 : KeyStateInner K = record (m.cells r) { using = false } in
      let m1 = with_cell key_eq r c1 m in
      let i1 = unused-Implements key_eq k r l m i e in
      let c2 : KeyStateInner K = record (m1.cells r) { using = true } in
      let m2 = with_cell key_eq r c2 m1 in
      let i2 =
        Implements-Calm key_eq _ m1 m2 l.held
          (with_cell-Calm key_eq k r c2 m1 i1.mapped e refl refl)
          (λ j.
            flag-with_cell key_eq (λ c. c.using) k j r c2 m1 i1.mapped e
            ∙ ap (λ b. ite (key_eq k j) true b) (i1.uses j)
            ∙ ite-back (key_eq k j) (l.held j) (λ p. subst (λ y. l.held y ≡ true) p h))
          i1 in
      handed-Implements k v r id l m2 i2 e w
