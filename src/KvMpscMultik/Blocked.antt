-- ===== src/KvMpscMultik/Blocked.antt =====
-- kv_mpsc_multik.rs: each message that waits in the manager waits for a key in use.
use mathlib.Core.Logic.{ite}
use pa_queue_and_chan.Prelude.{
  ℕ, ◌+◌, ◌<◌, ◌≡◌, refl, sym, ap, subst, ◌∙◌, inl, inr, arith, true, false, Option, some, List,
  get, get-remove, ok, panic, ltb, ℕ_discrete, count, contains, ok-injective, Bool-cases,
}
use pa_queue_and_chan.KvMpscMultik.Conflict.{ConflictManager, id_bound}
use pa_queue_and_chan.KvMpscMultik.Manager.{
  conflicts, new, new_waiting_msg, become_waiting, handle_new_msg, unuse_key,
}
use pa_queue_and_chan.KvMpscMultik.Cells.{none-some, panic-ok, ite-yes, ite-no, flag}
use pa_queue_and_chan.KvMpscMultik.Using.{weight, Sound, Distinct}
use pa_queue_and_chan.KvMpscMultik.Arrival.{keys_taken}
use pa_queue_and_chan.KvMpscMultik.Frames.{IsWaiting, WaitOn, take_kv-keeps}
use pa_queue_and_chan.KvMpscMultik.Kept.{parts_of_id}
use pa_queue_and_chan.KvMpscMultik.Arrives.{arrival_cases, free-Arrives}
use pa_queue_and_chan.KvMpscMultik.Searched.{unuse_key-Sound}
use pa_queue_and_chan.KvMpscMultik.Outcomes.{unuse_key-Settles}
use pa_queue_and_chan.KvMpscMultik.Accounts.{same_msg, key-listed}

module _ {K V : Type 0} (key_eq : Discrete K) where
  -- A key in use, among those of a message.
  abbrev pub InUse : List K → ConflictManager K V → Type 0
  InUse ks m = (k : K) × (0 < count key_eq k ks) × (0 < weight (flag key_eq (λ c. c.using) k m))

  abbrev pub Blocked : ConflictManager K V → Type 0
  Blocked m = (id : ℕ) (ks : List K) (v : V) → IsWaiting m id ks v → InUse ks m

  pub new-Blocked : Blocked new
  unfolding new get
  new-Blocked id ks v (msg, g, t) = absurd (none-some g)

  -- A message that waits has waited before.
  waited :
      (held : K → ℕ) (m m' : ConflictManager K V) (id : ℕ) (ks : List K) (v : V)
      → Sound key_eq held m
      → get ℕ_discrete id m'.waitingmsgs ≡ get ℕ_discrete id m.waitingmsgs
      → ((js : List K) (u : V) → IsWaiting m id js u → IsWaiting m' id js u)
      → IsWaiting m' id ks v
      → IsWaiting m id ks v
  waited held m m' id ks v s e f w =
      let (rs, js, u, q, refs, _, x) = parts_of_id key_eq held id w.0 m s (sym e ∙ w.1) in
      subst (λ (p : List K × V). IsWaiting m id p.0 p.1)
        (same_msg key_eq m' id _ ks u v (f _ u x) w) x

  more_held :
      (held held' : K → ℕ) (ks : List K) (m m' : ConflictManager K V)
      → Sound key_eq held m
      → Sound key_eq held' m'
      → ((k : K) → 0 < held k → 0 < held' k)
      → InUse ks m
      → InUse ks m'
  more_held held held' ks m m' s s' f (k, p, q) =
      (k, p, subst (λ n. 0 < n) (sym (s'.owns k)) (f k (subst (λ n. 0 < n) (s.owns k) q)))

  no_id-panics :
      (ks : List K) (v : V) (m : ConflictManager K V)
      → conflicts key_eq ks m ≡ true
      → ltb (m.next_waitingmsg_id + 1) id_bound ≡ false
      → handle_new_msg key_eq ks v m ≡ panic
  unfolding handle_new_msg become_waiting new_waiting_msg
  no_id-panics ks v m e f = rw (e, f) refl

  pub arrival-Blocked :
      (held : K → ℕ) (ks : List K) (v : V) (m m' : ConflictManager K V) (r : Option (List K × V))
      → Sound key_eq held m
      → Distinct key_eq ks
      → handle_new_msg key_eq ks v m ≡ ok (r, m')
      → Blocked m
      → Blocked m'
  arrival-Blocked held ks v m m' r s d h b = elim (Bool-cases (conflicts key_eq ks m)) [
    | inr e ↦ free (free-Arrives key_eq held ks v m s d e)
    | inl e ↦ elim (Bool-cases (ltb (m.next_waitingmsg_id + 1) id_bound)) [
      | inr f ↦ absurd (panic-ok (sym (no_id-panics ks v m e f) ∙ h))
      | inl f ↦ elim (arrival_cases key_eq held ks v m s d (ground arith)) [
        | inr a ↦ free a
        | inl (k, p, q, (m1, h1, s1, (w, others), on)) ↦
            subst Blocked (ap (λ p. p.1) (ok-injective (sym h1 ∙ h))) (λ id js u x.
              elim (ℕ_discrete m.next_waitingmsg_id id) [
                | yes z ↦
                    subst (λ (y : List K × V). InUse y.0 m1)
                      (same_msg key_eq m1 id ks js v u (subst (λ y. IsWaiting m1 y ks v) z w) x)
                      (k, p, subst (λ n. 0 < n) (sym (s1.owns k)) q)
                | no n ↦
                    more_held held held js m m1 s s1 (λ j c. c)
                      (b id js u (waited held m m1 id js u s (others id n) (λ is y. on id is y) x))
              ])
      ]
    ]
  ]
    where
      free :
          (((k : K) → 0 < count key_eq k ks → held k ≡ 0)
            × ((m1 : ConflictManager K V) × (handle_new_msg key_eq ks v m ≡ ok (some (ks, v), m1))
                × Sound key_eq (λ k. count key_eq k ks + held k) m1
                × (m1.waitingmsgs ≡ m.waitingmsgs)
                × WaitOn m m1))
          → Blocked m'
      free (_, (m1, h1, s1, same, on)) =
          subst Blocked (ap (λ p. p.1) (ok-injective (sym h1 ∙ h))) (λ id js u w.
            more_held held _ js m m1 s s1 (λ k p. omega (arith, p))
              (b id js u
                (waited held m m1 id js u s (ap (get ℕ_discrete id) same) (λ is y. on id is y) w)))

module _ {K V : Type 0} (key_eq : Discrete K) (hash_order : List ℕ → List ℕ)
    (lists_same : (id : ℕ) (ids : List ℕ) → contains id (hash_order ids) ≡ contains id ids) where
  pub release-Blocked :
      (held : K → ℕ) (k : K) (m m' : ConflictManager K V) (r : Option (List K × V))
      → Sound key_eq (λ j. ite (key_eq k j) 1 0 + held j) m
      → unuse_key key_eq hash_order k m ≡ ok (r, m')
      → Blocked key_eq m
      → Blocked key_eq m'
  release-Blocked held k m m' r s h b =
      let s' : Sound key_eq (λ j. count key_eq j (keys_taken key_eq r) + held j) m' =
        unuse_key-Sound key_eq hash_order (λ id ids c. sym (lists_same id ids) ∙ c) held k m m' r h
          s in
      let (o, sk) = unuse_key-Settles key_eq hash_order lists_same held k m m' r s h in
      elim o [
        | inl (id, ks, v, e, l, w, gone) ↦ λ i js u (msg, g, t). elim (ℕ_discrete id i) [
          | yes z ↦ absurd (
              none-some (
                sym (
                  ap (get ℕ_discrete i) gone
                  ∙ get-remove ℕ_discrete id i m.waitingmsgs
                  ∙ ite-yes (ℕ_discrete id i) _ _ z)
                ∙ g))
          | no n ↦
              let g' : get ℕ_discrete i m.waitingmsgs ≡ some msg =
                sym (
                  ap (get ℕ_discrete i) gone
                  ∙ get-remove ℕ_discrete id i m.waitingmsgs
                  ∙ ite-no (ℕ_discrete id i) _ _ n)
                ∙ g in
              let (j, p, q) = b i js u (msg, g', sym (take_kv-keeps msg m.cells m'.cells sk) ∙ t) in
              (
                j,
                p,
                subst (λ n. 0 < n) (sym (s'.owns j))
                    (elim (key_eq k j) [
                      | yes y ↦
                          let c : 0 < count key_eq j ks =
                            subst (λ y. 0 < count key_eq y ks) y
                              ((key-listed key_eq _ m id ks v k s w).1 l) in
                          omega (arith, c, ap (λ x. count key_eq j (keys_taken key_eq x)) e)
                      | no y ↦ omega (arith, q, s.owns j, ite-no {A = ℕ} (key_eq k j) 1 0 y)
                    ]),
              )
        ]
        | inr (e, same, all) ↦ λ i js u (msg, g, t).
            let w : IsWaiting m i js u = (
              msg,
              sym (ap (get ℕ_discrete i) same) ∙ g,
              sym (take_kv-keeps msg m.cells m'.cells sk) ∙ t,
            ) in
            let (j, p, q) = b i js u w in
            elim (key_eq k j) [
              | yes y ↦
                  let (ks, v, x, w2, p2, q2) = all i (
                    (key-listed key_eq _ m i js u k s w).0
                      (subst (λ x. 0 < count key_eq x js) (sym y) p)) in
                  (
                    x,
                    subst (λ (z : List K × V). 0 < count key_eq x z.0)
                        (same_msg key_eq m i ks js v u w2 w) p2,
                    subst (λ n. 0 < n) (sym (s'.owns x)) (omega (arith, q2)),
                  )
              | no y ↦ (
                j,
                p,
                subst (λ n. 0 < n) (sym (s'.owns j))
                    (omega (arith, q, s.owns j, ite-no {A = ℕ} (key_eq k j) 1 0 y)),
              )
            ]
      ]
