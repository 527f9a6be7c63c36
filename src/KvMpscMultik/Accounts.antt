-- ===== src/KvMpscMultik/Accounts.antt =====
-- kv_mpsc_multik.rs: the messages that wait in the manager, and those that it has returned.
use mathlib.Core.List.{reverse, Perm, perm_middle}
use mathlib.Core.List.Perm
use mathlib.Core.Option.{some-injective}
use pa_queue_and_chan.Prelude.{
  ℕ, ◌+◌, ◌<◌, ◌≡◌, refl, sym, ap, subst, ◌∙◌, inl, inr, arith, true, Option, none, some, List, ◌∷◌,
  ◌++◌, Map, get, insert, get-insert, ok, ℕ_discrete, count, count-append, to_list, Option-cases,
  ok-injective,
}
use pa_queue_and_chan.KvMpscMultik.Conflict.{ConflictManager, id_bound, take_kv}
use pa_queue_and_chan.KvMpscMultik.Manager.{handle_new_msg}
use pa_queue_and_chan.KvMpscMultik.Cells.{none-some, ite-yes, ite-no}
use pa_queue_and_chan.KvMpscMultik.Using.{listed, Sound, Sound-held, Distinct}
use pa_queue_and_chan.KvMpscMultik.Arrival.{keys_taken, count-reverse}
use pa_queue_and_chan.KvMpscMultik.Frames.{IsWaiting}
use pa_queue_and_chan.KvMpscMultik.Kept.{taken}
use pa_queue_and_chan.KvMpscMultik.Arrives.{arrival_cases, old-ids}
use pa_queue_and_chan.KvMpscMultik.OneKey.Books.{values, Unique, remove-absent, insert-Unique}

module _ {K V : Type 0} (key_eq : Discrete K) where
  -- What the manager has for the id.
  abbrev pub Stored : ConflictManager K V → ℕ → Option (List K × V) → Type 0
  Stored m id none = get ℕ_discrete id m.waitingmsgs ≡ none
  Stored m id (some (ks, v)) = IsWaiting m id ks v

  -- The messages that arrived are returned or wait.
  pub record Accounts (held : List K) (arrived returned : List (List K × V))
      (m : ConflictManager K V) : Type 0 where
    pub sound : Sound key_eq (λ k. count key_eq k held) m
    pub waits : Map ℕ (List K × V)
    pub unique : Unique waits
    pub stored : (id : ℕ) → Stored m id (get ℕ_discrete id waits)
    pub all : Perm arrived (returned ++ values waits)

  pub same_msg :
      (m : ConflictManager K V) (id : ℕ) (ks js : List K) (v u : V)
      → IsWaiting m id ks v
      → IsWaiting m id js u
      → ◌≡◌ {A = List K × V} (ks, v) (js, u)
  same_msg m id ks js v u (msg, g, t) (msg', g', t') =
      ok-injective (sym t ∙ ap (take_kv m.cells) (some-injective _ _ (sym g ∙ g')) ∙ t')

  pub get-waiting :
      (m : ConflictManager K V) (id : ℕ) (ks : List K) (v : V) (o : Option (List K × V))
      → Stored m id o
      → IsWaiting m id ks v
      → o ≡ some (ks, v)
  get-waiting m id ks v none s (msg, g, t) = absurd (none-some (sym s ∙ g))
  get-waiting m id ks v (some (js, u)) s w = ap some (same_msg m id js ks u v s w)

  pub Stored-keeps :
      (m m' : ConflictManager K V) (id : ℕ) (o : Option (List K × V))
      → get ℕ_discrete id m'.waitingmsgs ≡ get ℕ_discrete id m.waitingmsgs
      → ((ks : List K) (v : V) → IsWaiting m id ks v → IsWaiting m' id ks v)
      → Stored m id o
      → Stored m' id o
  Stored-keeps m m' id none e f s = e ∙ s
  Stored-keeps m m' id (some (ks, v)) e f s = f ks v s

  -- The states of its keys list a waiting message, and no others do.
  pub key-listed :
      (held : K → ℕ) (m : ConflictManager K V) (id : ℕ) (ks : List K) (v : V) (k : K)
      → Sound key_eq held m
      → IsWaiting m id ks v
      → ((0 < count key_eq k ks → listed key_eq id k m ≡ true)
          × (listed key_eq id k m ≡ true → 0 < count key_eq k ks))
  key-listed held m id ks v k s (msg, g, t) =
      let (_, (rs, js, u, e, w, d)) = s.msgs id msg g in
      let same : ks ≡ reverse js =
        ap (λ (p : List K × V). p.0)
          (ok-injective (sym t ∙ taken key_eq rs js u msg m s.mapped e w.refs)) in
      let counts : count key_eq k ks ≡ count key_eq k js =
        ap (count key_eq k) same ∙ count-reverse key_eq k js in
      ((λ p. w.lists_all k (omega (arith, p, counts))), (λ p. omega (arith, w.only k p, counts)))

  abbrev After :
      (held ks : List K) (v : V) (xs rs : List (List K × V))
      → Option (List K × V) × ConflictManager K V
      → Type 0
  After held ks v xs rs p =
      Accounts (keys_taken key_eq p.0 ++ held) ((ks, v) ∷ xs) (to_list p.0 ++ rs) p.1

  -- The accounts after an arrival.
  pub arrival-Accounts :
      (held : List K) (ks : List K) (v : V) (xs rs : List (List K × V)) (m m' : ConflictManager K V)
      (r : Option (List K × V))
      → Distinct key_eq ks
      → m.next_waitingmsg_id + 1 < id_bound
      → handle_new_msg key_eq ks v m ≡ ok (r, m')
      → Accounts held xs rs m
      → Accounts (keys_taken key_eq r ++ held) ((ks, v) ∷ xs) (to_list r ++ rs) m'
  unfolding insert
  arrival-Accounts held ks v xs rs m m' r d b h a =
      elim (arrival_cases key_eq (λ k. count key_eq k held) ks v m a.sound d b) [
        | inl (k, p, q, (m1, h1, s1, (w, others), on)) ↦
            let fresh : get ℕ_discrete m.next_waitingmsg_id a.waits ≡ none =
              elim (Option-cases (get ℕ_discrete m.next_waitingmsg_id a.waits)) [
                | inl e ↦ e
                | inr ((js, u), e) ↦ absurd (
                    old-ids key_eq _ m m.next_waitingmsg_id js u a.sound
                      (subst (Stored m m.next_waitingmsg_id) e (a.stored m.next_waitingmsg_id))
                      refl)
              ] in
            subst (After held ks v xs rs) (ok-injective (sym h1 ∙ h)) (record {
              sound = s1;
              waits = insert ℕ_discrete m.next_waitingmsg_id (ks, v) a.waits;
              unique = insert-Unique m.next_waitingmsg_id (ks, v) a.waits a.unique;
              stored = λ id. elim (ℕ_discrete m.next_waitingmsg_id id) [
                | yes z ↦
                    subst (Stored m1 id)
                      (sym (
                        get-insert ℕ_discrete m.next_waitingmsg_id id (ks, v) a.waits
                        ∙ ite-yes (ℕ_discrete m.next_waitingmsg_id id) _ _ z))
                      (subst (λ y. IsWaiting m1 y ks v) z w)
                | no n ↦
                    subst (Stored m1 id)
                      (sym (
                        get-insert ℕ_discrete m.next_waitingmsg_id id (ks, v) a.waits
                        ∙ ite-no (ℕ_discrete m.next_waitingmsg_id id) _ _ n))
                      (Stored-keeps m m1 id (get ℕ_discrete id a.waits) (others id n) (on id)
                        (a.stored id))
              ];
              all =
                  subst (λ n. Perm ((ks, v) ∷ xs) (rs ++ (ks, v) ∷ values n))
                    (sym (remove-absent m.next_waitingmsg_id a.waits fresh))
                    (Perm.trans (Perm.cons (ks, v) a.all)
                      (Perm.symm (perm_middle rs (values a.waits))));
            })
        | inr (free, (m1, h1, s1, same, on)) ↦
            subst (After held ks v xs rs) (ok-injective (sym h1 ∙ h)) (record {
              sound = Sound-held key_eq _ _ (λ k. sym (count-append key_eq k ks held)) s1;
              waits = a.waits;
              unique = a.unique;
              stored = λ id.
                  Stored-keeps m m1 id (get ℕ_discrete id a.waits) (ap (get ℕ_discrete id) same)
                    (on id) (a.stored id);
              all = Perm.cons (ks, v) a.all;
            })
      ]
