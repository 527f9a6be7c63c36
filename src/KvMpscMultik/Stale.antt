-- ===== src/KvMpscMultik/Stale.antt =====
-- kv_mpsc_multik.rs: the ids that the states of keys list after a delivery.
use mathlib.Core.Logic.{ite}
use pa_queue_and_chan.Prelude.{
  ℕ, ◌+◌, ◌<◌, ◌≡◌, ◌≢◌, refl, sym, ap, subst, ◌∙◌, true, false, Option, none, some, List, ◌∷◌,
  ◌++◌, ok, panic, arith, ℕ_discrete, get, get-remove, contains, count, inl, inr,
}
use pa_queue_and_chan.KvMpscMultik.Conflict.{
  KeyStateInner, ConflictManager, update, set_unuse, find_msg,
}
use pa_queue_and_chan.KvMpscMultik.Cells.{flag, flag-some, none-some, update-same, ite-yes, ite-no}
use pa_queue_and_chan.KvMpscMultik.Manager.{unuse_key, try_get_stop_waiting_msg}
use pa_queue_and_chan.KvMpscMultik.Using.{listed, Sound, Sound-held}
use pa_queue_and_chan.KvMpscMultik.Entered.{weight-positive}
use pa_queue_and_chan.KvMpscMultik.Arrival.{keys_taken}
use pa_queue_and_chan.KvMpscMultik.Frames.{IsWaiting}
use pa_queue_and_chan.KvMpscMultik.Searched.{unuse_key-Sound}
use pa_queue_and_chan.KvMpscMultik.Outcomes.{unuse_key-Settles}
use pa_queue_and_chan.KvMpscMultik.Accounts.{same_msg, key-listed}
use pa_queue_and_chan.KvMpscMultik.Runs.{Run, taken-IsLess, Run-Accounts}
use pa_queue_and_chan.KvMpscMultik.Others.{unuse_key-others}

pub set_unuse-ok :
    {K : Type 0} (r : ℕ) (cells : ℕ → KeyStateInner K)
    → (cells r).using ≡ true
    → set_unuse r cells ≡ ok (update cells r (record (cells r) { using = false }))
unfolding set_unuse
set_unuse-ok r cells u = rw (u) refl

module _ {K V : Type 0} (key_eq : Discrete K) (hash_order : List ℕ → List ℕ) where
  -- The release of a key panics if the first of its waiting ids is of no waiting message.
  unuse_key-stale :
      (k : K) (r id : ℕ) (ids : List ℕ) (m : ConflictManager K V)
      → get key_eq k m.keys_states ≡ some r
      → (m.cells r).using ≡ true
      → hash_order (m.cells r).waitingmsgs ≡ id ∷ ids
      → get ℕ_discrete id m.waitingmsgs ≡ none
      → unuse_key key_eq hash_order k m ≡ panic
  unfolding unuse_key try_get_stop_waiting_msg
  unuse_key-stale k r id ids m e u o g =
      rw
        (
          e,
          set_unuse-ok r m.cells u,
          try_get_stop_waiting_msg,
          ap (λ c. hash_order c.waitingmsgs)
                (update-same m.cells r (record (m.cells r) { using = false }))
              ∙ o,
          find_msg,
          g,
        )
        refl

module _ {K V : Type 0} (key_eq : Discrete K) (hash_order : List ℕ → List ℕ)
    (lists_same : (id : ℕ) (ids : List ℕ) → contains id (hash_order ids) ≡ contains id ids) where
  -- A message that has waited and waits no more after the release of a key is the returned one.
  handed_over :
      (held : K → ℕ) (k : K) (id : ℕ) (ks : List K) (v : V) (m m' : ConflictManager K V)
      (res : Option (List K × V))
      → Sound key_eq (λ j. ite (key_eq k j) 1 0 + held j) m
      → unuse_key key_eq hash_order k m ≡ ok (res, m')
      → IsWaiting m id ks v
      → get ℕ_discrete id m'.waitingmsgs ≡ none
      → res ≡ some (ks, v)
  handed_over held k id ks v m m' res s h w gone =
      elim ((unuse_key-Settles key_eq hash_order lists_same held k m m' res s h).0) [
        | inr (_, same, _) ↦ absurd (none-some (sym gone ∙ ap (get ℕ_discrete id) same ∙ w.1))
        | inl (i, js, u, e, _, x, rest) ↦ elim (ℕ_discrete i id) [
          | yes p ↦
              e ∙ ap some (same_msg key_eq m id js ks u v (subst (λ y. IsWaiting m y js u) p x) w)
          | no d ↦ absurd (
              none-some (
                sym gone
                ∙ ap (get ℕ_discrete id) rest
                ∙ get-remove ℕ_discrete i id m.waitingmsgs
                ∙ ite-no (ℕ_discrete i id) _ _ d
                ∙ w.1))
        ]
      ]

  -- In every run of the manager on messages without doubled keys in which no operation panics: if
  -- the release of a held key ends the wait of a message, and another key has a state whose first
  -- id, in the order of the iteration, was that of this message, then the message is returned, this
  -- other key is one of its keys, and the release of that key, which the receiver of the message
  -- holds, panics: its state still lists the id. Less than 2^31 messages have waited, and the
  -- iteration over a set of waiting ids yields just these.
  pub delivered_id_panics :
      {m : ConflictManager K V} {held : List K} {arrived returned : List (List K × V)} (k j : K)
      (us ws : List K) (s id : ℕ) (ids : List ℕ) (ks : List K) (v : V) (res : Option (List K × V))
      (m' : ConflictManager K V)
      → Run key_eq hash_order m held arrived returned
      → held ≡ us ++ k ∷ ws
      → unuse_key key_eq hash_order k m ≡ ok (res, m')
      → IsWaiting m id ks v
      → get ℕ_discrete id m'.waitingmsgs ≡ none
      → k ≢ j
      → get key_eq j m.keys_states ≡ some s
      → hash_order (m.cells s).waitingmsgs ≡ id ∷ ids
      → (res ≡ some (ks, v)) × (0 < count key_eq j ks) × (unuse_key key_eq hash_order j m' ≡ panic)
  unfolding contains
  delivered_id_panics {m} {held} k j us ws s id ids ks v res m' r e h w gone d g o =
      let sound = (Run-Accounts key_eq hash_order lists_same r).sound in
      let before = Sound-held key_eq _ _ (taken-IsLess key_eq k held us ws e) sound in
      let after =
        unuse_key-Sound key_eq hash_order (λ i is c. sym (lists_same i is) ∙ c)
          (λ x. count key_eq x (us ++ ws)) k m m' res h before in
      let (g', same) = unuse_key-others key_eq hash_order k j s m m' res sound.mapped d g h in
      let back = handed_over (λ x. count key_eq x (us ++ ws)) k id ks v m m' res before h w gone in
      let on_list : listed key_eq id j m ≡ true =
        flag-some key_eq (λ c. contains id c.waitingmsgs) j s m g
        ∙ sym (lists_same id (m.cells s).waitingmsgs)
        ∙ ap (contains id) o
        ∙ ite-yes (ℕ_discrete id id) _ _ refl in
      let its_key = (key-listed key_eq _ m id ks v j sound w).1 on_list in
      let used : flag key_eq (λ c. c.using) j m' ≡ true = weight-positive _ (
        omega
          (arith, its_key, after.owns j, ap (λ x. count key_eq j (keys_taken key_eq x)) back)) in
      (
        back,
        its_key,
        unuse_key-stale key_eq hash_order j s id ids m' g'
            (sym (flag-some key_eq (λ c. c.using) j s m' g') ∙ used) (ap hash_order same ∙ o) gone,
      )
