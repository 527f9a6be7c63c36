-- ===== src/KvMpscMultik/Entry.antt =====
-- kv_mpsc_multik.rs: `entry` finds the state of a key or adds one.
use mathlib.Core.Option.{some-injective}
use pa_queue_and_chan.Prelude.{
  ℕ, suc, ◌≡◌, ◌≢◌, refl, sym, ap, subst, ◌∙◌, inl, inr, arith, Bool, false, none, some, get,
  insert, get-insert, Option-cases,
}
use pa_queue_and_chan.KvMpscMultik.Conflict.{KeyStateInner, ConflictManager, update, new_state}
use pa_queue_and_chan.KvMpscMultik.Manager.{entry}
use pa_queue_and_chan.KvMpscMultik.Cells.{
  none-some, update-same, update-other, update-eq, ite-yes, ite-no, Mapped, flag, flag-some,
  flag-none,
}

module _ {K V : Type 0} (key_eq : Discrete K) where
  -- The manager with a state for the key `k` that is not in use.
  abbrev added : K → ConflictManager K V → ConflictManager K V
  added k m = record m {
    keys_states = insert key_eq k m.next_cell m.keys_states;
    cells = update m.cells m.next_cell (new_state k);
    next_cell = suc m.next_cell;
  }

  get-added-same :
      (k : K) (m : ConflictManager K V)
      → get key_eq k (insert key_eq k m.next_cell m.keys_states) ≡ some m.next_cell
  get-added-same k m =
      get-insert key_eq k k m.next_cell m.keys_states ∙ ite-yes (key_eq k k) _ _ refl

  get-added-other :
      (k j : K) (m : ConflictManager K V)
      → k ≢ j
      → get key_eq j (insert key_eq k m.next_cell m.keys_states) ≡ get key_eq j m.keys_states
  get-added-other k j m d =
      get-insert key_eq k j m.next_cell m.keys_states ∙ ite-no (key_eq k j) _ _ d

  added-Mapped : (k : K) (m : ConflictManager K V) → Mapped key_eq m → Mapped key_eq (added k m)
  unfolding new_state
  added-Mapped k m w j r f = elim (key_eq k j) [
    | yes p ↦
        let q = some-injective _ _ (
          sym (get-added-same k m)
          ∙ subst (λ x. get key_eq x (added k m).keys_states ≡ some r) (sym p) f) in
        (
          omega (arith, q),
          ap (λ x. x.k) (update-eq m.cells m.next_cell r (new_state k) q) ∙ ap some p,
        )
    | no d ↦
        let old = w j r (sym (get-added-other k j m d) ∙ f) in
        (
          omega (arith, old.0),
          ap (λ x. x.k)
                (update-other m.cells m.next_cell r (new_state k) (λ p. omega (arith, old.0)))
              ∙ old.1,
        )
  ]

  flag-added :
      (f : KeyStateInner K → Bool) (k : K) (m : ConflictManager K V)
      → Mapped key_eq m
      → get key_eq k m.keys_states ≡ none
      → f (new_state k) ≡ false
      → (j : K) → flag key_eq f j (added k m) ≡ flag key_eq f j m
  flag-added f k m w e z j = elim (key_eq k j) [
    | yes p ↦
        flag-some key_eq f j m.next_cell (added k m) (
          subst (λ x. get key_eq x (added k m).keys_states ≡ some m.next_cell) p
            (get-added-same k m))
        ∙ ap f (update-same m.cells m.next_cell (new_state k))
        ∙ z
        ∙ sym (flag-none key_eq f j m (subst (λ x. get key_eq x m.keys_states ≡ none) p e))
    | no d ↦ elim (Option-cases (get key_eq j m.keys_states)) [
      | inl g ↦
          flag-none key_eq f j (added k m) (get-added-other k j m d ∙ g)
          ∙ sym (flag-none key_eq f j m g)
      | inr (s, g) ↦
          flag-some key_eq f j s (added k m) (get-added-other k j m d ∙ g)
          ∙ ap f
              (update-other m.cells m.next_cell s (new_state k) (λ p. omega (arith, (w j s g).0)))
          ∙ sym (flag-some key_eq f j s m g)
    ]
  ]

  -- `entry` finds the state of the key or adds one that is not in use and lists no message; it
  -- changes nothing else.
  pub record Enters (k : K) (m : ConflictManager K V) (e : ℕ × ConflictManager K V) : Type 0 where
    pub found : get key_eq k (e.1).keys_states ≡ some e.0
    pub mapped : Mapped key_eq e.1
    pub flags :
        (f : KeyStateInner K → Bool)
        → f (new_state k) ≡ false
        → (j : K) → flag key_eq f j e.1 ≡ flag key_eq f j m
    pub keeps :
        (j : K) (r : ℕ)
        → get key_eq j m.keys_states ≡ some r
        → get key_eq j (e.1).keys_states ≡ some r
    pub same_msgs : (e.1).waitingmsgs ≡ m.waitingmsgs
    pub same_id : (e.1).next_waitingmsg_id ≡ m.next_waitingmsg_id

  found-Enters :
      (k : K) (r : ℕ) (m : ConflictManager K V)
      → Mapped key_eq m
      → get key_eq k m.keys_states ≡ some r
      → Enters k m (r, m)
  found-Enters k r m w e = record {
    found = e;
    mapped = w;
    flags = λ f z j. refl;
    keeps = λ j s g. g;
    same_msgs = refl;
    same_id = refl;
  }

  added-Enters :
      (k : K) (m : ConflictManager K V)
      → Mapped key_eq m
      → get key_eq k m.keys_states ≡ none
      → Enters k m (m.next_cell, added k m)
  added-Enters k m w e = record {
    found = get-added-same k m;
    mapped = added-Mapped k m w;
    flags = λ f z j. flag-added f k m w e z j;
    keeps = λ j s g. elim (key_eq k j) [
      | yes p ↦
          absurd (none-some (sym e ∙ subst (λ x. get key_eq x m.keys_states ≡ some s) (sym p) g))
      | no d ↦ get-added-other k j m d ∙ g
    ];
    same_msgs = refl;
    same_id = refl;
  }

  pub entry-Enters :
      (k : K) (m : ConflictManager K V) → Mapped key_eq m → Enters k m (entry key_eq k m)
  unfolding entry
  entry-Enters k m w = elim (Option-cases (get key_eq k m.keys_states)) [
    | inr (r, e) ↦ rw (e, entry) (found-Enters k r m w e)
    | inl e ↦ rw (e, entry) (added-Enters k m w e)
  ]

  -- The states that are there stay, whatever the store holds.
  pub entry-stays :
      (k j : K) (r : ℕ) (m : ConflictManager K V)
      → get key_eq j m.keys_states ≡ some r
      → get key_eq j (entry key_eq k m).1.keys_states ≡ some r
  unfolding entry
  entry-stays k j r m g = elim (Option-cases (get key_eq k m.keys_states)) [
    | inr (q, e) ↦ rw (e, entry) g
    | inl e ↦
        rw (e, entry)
          (elim (key_eq k j) [
            | yes p ↦
                absurd
                  (none-some (sym e ∙ subst (λ x. get key_eq x m.keys_states ≡ some r) (sym p) g))
            | no d ↦ get-added-other k j m d ∙ g
          ])
  ]
