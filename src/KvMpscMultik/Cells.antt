-- ===== src/KvMpscMultik/Cells.antt =====
-- kv_mpsc_multik.rs: what the operations on key states do to the keys in use.
use mathlib.Core.Option.{some-injective}
use mathlib.Core.Logic.{ite}
use pa_queue_and_chan.Prelude.{
  ℕ, ◌<◌, ◌≡◌, ◌≢◌, refl, sym, ap, subst, ◌∙◌, inl, inr, arith, Bool, true, false, none, some, get,
  ok, panic, ℕ_discrete, Option-cases, Bool-cases, ok-injective,
}
use pa_queue_and_chan.KvMpscMultik.Conflict.{
  KeyStateInner, ConflictManager, update, set_use, set_unuse,
}
use pa_queue_and_chan.KvMpscMultik.Manager.{key_using}

pub panic-ok {ℓ} : {A : Type ℓ} {a : A} → panic ≡ ok a → ⊥
panic-ok h = cc

pub none-some {ℓ} : {A : Type ℓ} {a : A} → none ≡ some a → ⊥
none-some h = cc

pub update-same {ℓ} : {A : Type ℓ} (f : ℕ → A) (i : ℕ) (a : A) → update f i a i ≡ a
update-same f i a = ground arith

pub update-other {ℓ} : {A : Type ℓ} (f : ℕ → A) (i j : ℕ) (a : A) → i ≢ j → update f i a j ≡ f j
update-other f i j a d = ground arith

pub update-eq {ℓ} : {A : Type ℓ} (f : ℕ → A) (i j : ℕ) (a : A) → i ≡ j → update f i a j ≡ a
update-eq f i j a e = ground arith

pub ite-yes {ℓ} : {P : Type 0} {A : Type ℓ} (d : Dec P) (a b : A) → P → ite d a b ≡ a
ite-yes (yes p) a b h = refl
ite-yes (no n) a b h = absurd (n h)

pub ite-no {ℓ} : {P : Type 0} {A : Type ℓ} (d : Dec P) (a b : A) → (P → ⊥) → ite d a b ≡ b
ite-no (yes p) a b h = absurd (h p)
ite-no (no n) a b h = refl

-- `set_use` succeeds only on a key that is not in use.
pub set_use-ok :
    {K : Type 0} (r : ℕ) (cells cells' : ℕ → KeyStateInner K)
    → set_use r cells ≡ ok cells'
    → ((cells r).using ≡ false) × (cells' ≡ update cells r (record (cells r) { using = true }))
unfolding set_use
set_use-ok r cells cells' h = elim (Bool-cases (cells r).using) [
  | inl u ↦ absurd (panic-ok (rw (u) at h))
  | inr u ↦ (u, sym (ok-injective (rw (u) at h)))
]

pub set_unuse-ok :
    {K : Type 0} (r : ℕ) (cells cells' : ℕ → KeyStateInner K)
    → set_unuse r cells ≡ ok cells'
    → ((cells r).using ≡ true) × (cells' ≡ update cells r (record (cells r) { using = false }))
unfolding set_unuse
set_unuse-ok r cells cells' h = elim (Bool-cases (cells r).using) [
  | inr u ↦ absurd (panic-ok (rw (u) at h))
  | inl u ↦ (u, sym (ok-injective (rw (u) at h)))
]

module _ {K V : Type 0} (key_eq : Discrete K) where
  -- The state of each key is in the store and knows its key, so that no two keys share one.
  abbrev pub Mapped : ConflictManager K V → Type 0
  Mapped m =
      (k : K) (r : ℕ)
      → get key_eq k m.keys_states ≡ some r
      → (r < m.next_cell) × ((m.cells r).k ≡ some k)

  -- A Boolean fact of the state of a key; `false` for a key without a state.
  unfoldable pub flag : (KeyStateInner K → Bool) → K → ConflictManager K V → Bool
  flag f k m = elim (get key_eq k m.keys_states) [ none ↦ false | some r ↦ f (m.cells r) ]

  pub key_using-flag :
      (k : K) (m : ConflictManager K V) → key_using key_eq k m ≡ flag (λ c. c.using) k m
  unfolding key_using flag
  key_using-flag k m = refl

  pub flag-some :
      (f : KeyStateInner K → Bool) (k : K) (r : ℕ) (m : ConflictManager K V)
      → get key_eq k m.keys_states ≡ some r
      → flag f k m ≡ f (m.cells r)
  unfolding flag
  flag-some f k r m e = rw (e, flag) refl

  pub flag-none :
      (f : KeyStateInner K → Bool) (k : K) (m : ConflictManager K V)
      → get key_eq k m.keys_states ≡ none
      → flag f k m ≡ false
  unfolding flag
  flag-none f k m e = rw (e, flag) refl

  pub apart :
      (k j : K) (r s : ℕ) (m : ConflictManager K V)
      → Mapped m
      → get key_eq k m.keys_states ≡ some r
      → get key_eq j m.keys_states ≡ some s
      → k ≢ j
      → r ≢ s
  apart k j r s m w e f d =
      λ p. d (some-injective _ _ (sym (w k r e).1 ∙ ap (λ x. (m.cells x).k) p ∙ (w j s f).1))

  -- A change of the cell of key `k` that keeps its key.
  abbrev pub with_cell : ℕ → KeyStateInner K → ConflictManager K V → ConflictManager K V
  with_cell r c m = record m { cells = update m.cells r c }

  pub with_cell-Mapped :
      (k : K) (r : ℕ) (c : KeyStateInner K) (m : ConflictManager K V)
      → Mapped m
      → get key_eq k m.keys_states ≡ some r
      → c.k ≡ (m.cells r).k
      → Mapped (with_cell r c m)
  with_cell-Mapped k r c m w e kc = λ j s f. (
    (w j s f).0,
    elim (ℕ_discrete r s) [
      | yes p ↦
          ap (λ x. x.k) (update-eq m.cells r s c p) ∙ kc ∙ ap (λ x. (m.cells x).k) p ∙ (w j s f).1
      | no d ↦ ap (λ x. x.k) (update-other m.cells r s c d) ∙ (w j s f).1
    ],
  )

  pub flag-with_cell :
      (f : KeyStateInner K → Bool) (k j : K) (r : ℕ) (c : KeyStateInner K) (m : ConflictManager K V)
      → Mapped m
      → get key_eq k m.keys_states ≡ some r
      → flag f j (with_cell r c m) ≡ ite (key_eq k j) (f c) (flag f j m)
  flag-with_cell f k j r c m w e = elim (key_eq k j) [
    | yes p ↦
        flag-some f j r (with_cell r c m) (subst (λ x. get key_eq x m.keys_states ≡ some r) p e)
        ∙ ap f (update-same m.cells r c)
        ∙ sym (ite-yes (key_eq k j) _ _ p)
    | no d ↦ elim (Option-cases (get key_eq j m.keys_states)) [
      | inl g ↦
          flag-none f j (with_cell r c m) g
          ∙ sym (flag-none f j m g)
          ∙ sym (ite-no (key_eq k j) _ _ d)
      | inr (s, g) ↦
          flag-some f j s (with_cell r c m) g
          ∙ ap f (update-other m.cells r s c (apart k j r s m w e g d))
          ∙ sym (flag-some f j s m g)
          ∙ sym (ite-no (key_eq k j) _ _ d)
    ]
  ]
