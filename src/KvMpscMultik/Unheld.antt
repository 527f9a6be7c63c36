-- ===== src/KvMpscMultik/Unheld.antt =====
-- kv_mpsc_multik.rs: the test whether keys are in use, and the taking of keys that nobody holds.
use mathlib.Core.Option.{some-injective}
use pa_queue_and_chan.Prelude.{
  ℕ, ◌+◌, ◌≤◌, ◌<◌, ◌≡◌, ◌≢◌, refl, sym, ap, subst, ◌∙◌, inl, inr, arith, true, false, some, List,
  [], ◌∷◌, get, ok, ℕ_discrete, count, Bool-cases,
}
use pa_queue_and_chan.KvMpscMultik.Conflict.{
  KeyStateInner, ConflictManager, any_using, try_set_use, try_set_all, set_use,
}
use pa_queue_and_chan.KvMpscMultik.Cells.{flag-some, ite-yes, ite-no}
use pa_queue_and_chan.KvMpscMultik.Using.{weight, Sound, AllMapped}
use pa_queue_and_chan.KvMpscMultik.Taking.{set_use-Sound}
use pa_queue_and_chan.KvMpscMultik.Release.{in_store}
use pa_queue_and_chan.KvMpscMultik.Entered.{set_use-free, weight-zero}

module _ {K V : Type 0} (key_eq : Discrete K) where
  pub using-held :
      (held : K → ℕ) (k : K) (r : ℕ) (m : ConflictManager K V)
      → Sound key_eq held m
      → get key_eq k m.keys_states ≡ some r
      → weight (m.cells r).using ≡ held k
  using-held held k r m s e = sym (ap weight (flag-some key_eq (λ c. c.using) k r m e)) ∙ s.owns k

  -- A key of the message that is held, or none.
  pub any_using-true :
      (held : K → ℕ) (rs : List ℕ) (ks : List K) (m : ConflictManager K V)
      → Sound key_eq held m
      → AllMapped key_eq m.keys_states rs ks
      → any_using rs m.cells ≡ true
      → (k : K) × (0 < count key_eq k ks) × (0 < held k)
  unfolding any_using count
  any_using-true held [] [] m s a h = absurd (cc)
  any_using-true held (r ∷ rs) (k ∷ ks) m s a h = elim (Bool-cases (m.cells r).using) [
    | inl u ↦ (
      k,
      omega (arith, ite-yes {A = ℕ} (key_eq k k) 1 0 refl),
      omega (arith, using-held held k r m s a.0, ap weight u),
    )
    | inr u ↦
        let (j, p, q) = any_using-true held rs ks m s a.1 (rw (u) at h) in (j, omega (arith, p), q)
  ]
  any_using-true held [] (k ∷ ks) m s a h = absurd a
  any_using-true held (r ∷ rs) [] m s a h = absurd a

  pub any_using-false :
      (held : K → ℕ) (rs : List ℕ) (ks : List K) (m : ConflictManager K V)
      → Sound key_eq held m
      → AllMapped key_eq m.keys_states rs ks
      → any_using rs m.cells ≡ false
      → (k : K) → 0 < count key_eq k ks
      → held k ≡ 0
  unfolding any_using count
  any_using-false held [] [] m s a h k p = absurd (omega arith)
  any_using-false held (r ∷ rs) (j ∷ ks) m s a h k p = elim (Bool-cases (m.cells r).using) [
    | inl u ↦ absurd (cc (rw (u) at h))
    | inr u ↦ elim (key_eq j k) [
      | yes q ↦ subst (λ x. held x ≡ 0) q (sym (using-held held j r m s a.0) ∙ ap weight u)
      | no d ↦
          any_using-false held rs ks m s a.1 (rw (u) at h) k
            (omega (arith, p, ite-no {A = ℕ} (key_eq j k) 1 0 d))
    ]
  ]
  any_using-false held [] (j ∷ ks) m s a h k p = absurd a
  any_using-false held (r ∷ rs) [] m s a h k p = absurd a

  -- Keys that nobody holds can be taken, but for the one that is searched.
  pub try_set_all-runs :
      (rs : List ℕ) (ks : List K) (held : K → ℕ) (k : K) (r : ℕ) (m : ConflictManager K V)
      → get key_eq k m.keys_states ≡ some r
      → AllMapped key_eq m.keys_states rs ks
      → Sound key_eq held m
      → ((j : K) → k ≢ j → count key_eq j ks + held j ≤ 1)
      → (cells : ℕ → KeyStateInner K) × (try_set_all r rs m.cells ≡ ok cells)
  unfolding try_set_all try_set_use count
  try_set_all-runs [] [] held k r m e a s d = (m.cells, refl)
  try_set_all-runs (q ∷ rs) (j ∷ ks) held k r m e a s d = elim (ℕ_discrete r q) [
    | yes p ↦
        let (cells, h) = try_set_all-runs rs ks held k r m e a.1 s (λ i n. omega (arith, d i n)) in
        (cells, rw (ite-yes (ℕ_discrete r q) (ok m.cells) (set_use q m.cells) p) h)
    | no n ↦
        let other : k ≢ j = λ p. n (
          some-injective _ _
            (sym e ∙ subst (λ z. get key_eq z m.keys_states ≡ some q) (sym p) a.0)) in
        let free = weight-zero _ (
          using-held held j q m s a.0
          ∙ omega (arith, d j other, ite-yes {A = ℕ} (key_eq j j) 1 0 refl)) in
        let u = set_use-free q m.cells free in
        let (s1, _) = set_use-Sound key_eq held j q m _ a.0 u s in
        let (cells, h) =
          try_set_all-runs rs ks _ k r (in_store key_eq m _) e a.1 s1
            (λ i x. omega (arith, d i x)) in
        (cells, rw (ite-no (ℕ_discrete r q) (ok m.cells) (set_use q m.cells) n, u) h)
  ]
  try_set_all-runs [] (j ∷ ks) held k r m e a s d = absurd a
  try_set_all-runs (q ∷ rs) [] held k r m e a s d = absurd a
