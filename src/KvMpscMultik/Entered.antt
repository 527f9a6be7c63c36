-- ===== src/KvMpscMultik/Entered.antt =====
-- kv_mpsc_multik.rs: the keys of a new message, looked up, taken or waited for.
use pa_queue_and_chan.Prelude.{
  ℕ, zero, suc, ◌+◌, ◌≤◌, ◌<◌, ◌≡◌, refl, sym, ap, subst, ◌∙◌, inl, inr, arith, Bool, true, false,
  some, List, [], ◌∷◌, ◌++◌, get, without, ok, count, Bool-cases, Option-cases,
}
use pa_queue_and_chan.KvMpscMultik.Conflict.{
  KeyStateInner, WaitingMsg, ConflictManager, update, set_use, add_kstate, add_waitingmsg,
}
use pa_queue_and_chan.KvMpscMultik.Manager.{key_using, conflicts, entry, wait_keys, use_keys}
use pa_queue_and_chan.KvMpscMultik.Cells.{key_using-flag, flag-some, ite-yes, ite-no}
use pa_queue_and_chan.KvMpscMultik.Entry.{entry-Enters, entry-stays}
use pa_queue_and_chan.KvMpscMultik.Kept.{StatesStay}
use pa_queue_and_chan.KvMpscMultik.Using.{weight, Sound, Sound-Calm}
use pa_queue_and_chan.KvMpscMultik.Taking.{entry-Calm, set_use-Sound}

pub set_use-free :
    {K : Type 0} (r : ℕ) (cells : ℕ → KeyStateInner K)
    → (cells r).using ≡ false
    → set_use r cells ≡ ok (update cells r (record (cells r) { using = true }))
unfolding set_use
set_use-free r cells u = rw (u) refl

pub weight-zero : (b : Bool) → weight b ≡ 0 → b ≡ false
weight-zero true h = absurd (omega arith)
weight-zero false h = refl

pub weight-positive : (b : Bool) → 0 < weight b → b ≡ true
weight-positive true h = refl
weight-positive false h = absurd (omega arith)

pub one_at_most : (n h : ℕ) → n ≤ 1 → h ≤ 1 → (0 < n → h ≡ 0) → n + h ≤ 1
one_at_most zero h a b f = omega (arith, b)
one_at_most (suc n) h a b f = omega (arith, a, f (omega arith))

module _ {K V : Type 0} (key_eq : Discrete K) where
  -- A key of the list that is held, if there is a conflict, and else none.
  pub conflicts-true :
      (held : K → ℕ) (ks : List K) (m : ConflictManager K V)
      → Sound key_eq held m
      → conflicts key_eq ks m ≡ true
      → (k : K) × (0 < count key_eq k ks) × (0 < held k)
  unfolding conflicts count
  conflicts-true held [] m s h = absurd (cc)
  conflicts-true held (k ∷ ks) m s h = elim (Bool-cases (key_using key_eq k m)) [
    | inl u ↦ (
      k,
      omega (arith, ite-yes {A = ℕ} (key_eq k k) 1 0 refl),
      omega (arith, s.owns k, ap weight (sym (key_using-flag key_eq k m) ∙ u)),
    )
    | inr u ↦ let (j, p, q) = conflicts-true held ks m s (rw (u) at h) in (j, omega (arith, p), q)
  ]

  pub conflicts-false :
      (held : K → ℕ) (ks : List K) (m : ConflictManager K V)
      → Sound key_eq held m
      → conflicts key_eq ks m ≡ false
      → (k : K) → 0 < count key_eq k ks
      → held k ≡ 0
  unfolding conflicts count
  conflicts-false held [] m s h k p = absurd (omega arith)
  conflicts-false held (j ∷ ks) m s h k p = elim (Bool-cases (key_using key_eq j m)) [
    | inl u ↦ absurd (cc (rw (u) at h))
    | inr u ↦ elim (key_eq j k) [
      | yes q ↦
          subst (λ x. held x ≡ 0) q
            (sym (s.owns j) ∙ ap weight (sym (key_using-flag key_eq j m) ∙ u))
      | no d ↦
          conflicts-false held ks m s (rw (u) at h) k
            (omega (arith, p, ite-no {A = ℕ} (key_eq j k) 1 0 d))
    ]
  ]

  entry-msgs : (k : K) (m : ConflictManager K V) → (entry key_eq k m).1.waitingmsgs ≡ m.waitingmsgs
  unfolding entry
  entry-msgs k m = elim (Option-cases (get key_eq k m.keys_states)) [
    | inl e ↦ rw (e, entry)
    | inr (r, e) ↦ rw (e, entry)
  ]

  -- Keys that nobody holds, each once, can be taken.
  pub use_keys-runs :
      (ks : List K) (held : K → ℕ) (m : ConflictManager K V)
      → Sound key_eq held m
      → ((k : K) → count key_eq k ks + held k ≤ 1)
      → (m' : ConflictManager K V) × (use_keys key_eq ks m ≡ ok m')
        × (m'.waitingmsgs ≡ m.waitingmsgs)
        × StatesStay key_eq m m'
  unfolding use_keys count
  use_keys-runs [] held m s d = (m, refl, refl, (λ j r g. g))
  use_keys-runs (k ∷ ks) held m s d =
      let e = entry-Enters key_eq k m s.mapped in
      let s1 =
        Sound-Calm key_eq held held (entry-Calm key_eq k m s.mapped)
          (λ j. ap weight (e.flags (λ x. x.using) refl j) ∙ s.owns j) s in
      let free =
        sym (flag-some key_eq (λ x. x.using) k (entry key_eq k m).0 (entry key_eq k m).1 e.found)
        ∙ weight-zero _ (s1.owns k ∙ omega (arith, d k, ite-yes {A = ℕ} (key_eq k k) 1 0 refl)) in
      let h = set_use-free (entry key_eq k m).0 (entry key_eq k m).1.cells free in
      let (s2, z) =
        set_use-Sound key_eq held k (entry key_eq k m).0 (entry key_eq k m).1 _ e.found h s1 in
      let (m', g, same, f) = use_keys-runs ks _ _ s2 (λ j. omega (arith, d j)) in
      (m', rw (h) g, same ∙ entry-msgs k m, (λ j r q. f j r (entry-stays key_eq k j r m q)))

  -- The keys of a new message are always entered, and no waiting message is touched.
  pub wait_keys-runs :
      (todo : List K) (refs : List ℕ) (v : V) (msg : WaitingMsg V) (m : ConflictManager K V)
      → msg.ks_v ≡ some (refs, v)
      → (msg' : WaitingMsg V) × (m' : ConflictManager K V) × (wait_keys key_eq todo msg m
          ≡ ok (msg', m'))
        × (m'.waitingmsgs ≡ m.waitingmsgs)
        × StatesStay key_eq m m'
  unfolding wait_keys add_kstate add_waitingmsg
  wait_keys-runs [] refs v msg m e = (msg, m, refl, refl, (λ j r g. g))
  wait_keys-runs (k ∷ todo) refs v msg m e =
      let e1 = entry key_eq k m in
      let msg1 : WaitingMsg V = record msg { ks_v = some (refs ++ e1.0 ∷ [], v) } in
      let listing = record (e1.1.cells e1.0) {
        waitingmsgs = msg1.id ∷ without msg1.id (e1.1.cells e1.0).waitingmsgs;
      } in
      let (msg', m', h, same, f) =
        wait_keys-runs todo (refs ++ e1.0 ∷ []) v msg1
          (record (e1.1) { cells = update e1.1.cells e1.0 listing }) refl in
      (msg', m', rw (e) h, same ∙ entry-msgs k m, (λ j r q. f j r (entry-stays key_eq k j r m q)))
