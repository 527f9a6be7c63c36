-- ===== src/KvMpscMultik/Releases.antt =====
-- kv_mpsc_multik.rs: what the release of a key does.
use mathlib.Core.Logic.{ite}
use pa_queue_and_chan.Prelude.{
  ℕ, ◌+◌, ◌<◌, ◌≡◌, ◌⊎◌, refl, sym, ap, ◌∙◌, inl, inr, arith, true, false, none, some, List, get,
  remove, ok, ◌>>=◌, ℕ_discrete, count, contains, Option-cases,
}
use pa_queue_and_chan.KvMpscMultik.Conflict.{
  KeyStateInner, WaitingMsg, ConflictManager, update, take_kv, find_msg, remove_waitingmsg,
}
use pa_queue_and_chan.KvMpscMultik.Manager.{
  stop_waiting, try_get_stop_waiting_msg, after_search, unuse_key,
}
use pa_queue_and_chan.KvMpscMultik.Cells.{flag-some, flag-none, ite-yes}
use pa_queue_and_chan.KvMpscMultik.Using.{weight, listed, Sound, Sound-held}
use pa_queue_and_chan.KvMpscMultik.Release.{in_store, set_unuse-Sound}
use pa_queue_and_chan.KvMpscMultik.Delivery.{unlisting}
use pa_queue_and_chan.KvMpscMultik.Exclusive.{weight-le}
use pa_queue_and_chan.KvMpscMultik.Entered.{set_use-free, weight-zero, weight-positive}
use pa_queue_and_chan.KvMpscMultik.Searched.{unuse_key-Sound}
use pa_queue_and_chan.KvMpscMultik.Searches.{IsBlocked, find_msg-Finds}
use pa_queue_and_chan.KvMpscMultik.Unheld.{using-held}
use pa_queue_and_chan.KvMpscMultik.Frames.{
  IsWaiting, SameKeys, update-SameKeys, update-SameLists, set_use-keeps, take_kv-keeps,
}
use pa_queue_and_chan.KvMpscMultik.Stale.{set_unuse-ok}

module _ {K : Type 0} where
  -- The end of the search, once it has found a message.
  stop_waiting-found :
      (r id : ℕ) (cells : ℕ → KeyStateInner K)
      → (cells r).using ≡ false
      → contains id (cells r).waitingmsgs ≡ true
      → (cells' : ℕ → KeyStateInner K) × (stop_waiting r (some id, cells) ≡ ok (some id, cells'))
        × SameKeys cells cells'
  unfolding stop_waiting remove_waitingmsg
  stop_waiting-found r id cells u c =
      let h = set_use-free r cells u in
      let cells1 = update cells r (record (cells r) { using = true }) in
      let (sk, sl) = set_use-keeps r cells cells1 h in
      let c1 : contains id (cells1 r).waitingmsgs ≡ true = ap (contains id) (sl r) ∙ c in
      (
        update cells1 r (unlisting id (cells1 r)),
        rw (h) (rw (c1) refl),
        (λ x. update-SameKeys r (unlisting id (cells1 r)) cells1 refl x ∙ sk x),
      )

module _ {K V : Type 0} (key_eq : Discrete K) (hash_order : List ℕ → List ℕ)
    (lists_same : (id : ℕ) (ids : List ℕ) → contains id (hash_order ids) ≡ contains id ids) where
  -- What the release of `k` does, whose other holders are given by `held`: it goes to a message that
  -- waits for it and none of whose keys is held, and that message is returned; or each message that
  -- waits for it waits for another key that is held, and nothing is returned.
  abbrev pub HandsOver : (K → ℕ) → K → ConflictManager K V → Type 0
  HandsOver held k m =
      (id : ℕ) × (ks : List K) × (v : V) × (m' : ConflictManager K V) × (listed key_eq id k m
        ≡ true)
      × IsWaiting m id ks v
      × ((j : K) → 0 < count key_eq j ks → held j ≡ 0)
      × (unuse_key key_eq hash_order k m ≡ ok (some (ks, v), m'))
      × Sound key_eq (λ j. count key_eq j ks + held j) m'
      × (m'.waitingmsgs ≡ remove ℕ_discrete id m.waitingmsgs)

  abbrev pub Frees : (K → ℕ) → K → ConflictManager K V → Type 0
  Frees held k m =
      ((id : ℕ) → listed key_eq id k m ≡ true → IsBlocked key_eq held m id)
      × ((m' : ConflictManager K V) × (unuse_key key_eq hash_order k m ≡ ok (none, m'))
          × Sound key_eq held m'
          × (m'.waitingmsgs ≡ m.waitingmsgs))

  after_search-found :
      (k : K) (r id : ℕ) (ks : List K) (v : V) (msg : WaitingMsg V) (m : ConflictManager K V)
      (cells : ℕ → KeyStateInner K)
      → get ℕ_discrete id m.waitingmsgs ≡ some msg
      → take_kv cells msg ≡ ok (ks, v)
      → after_search key_eq hash_order k r m (some id, cells)
        ≡ ok (
          some (ks, v),
          record m { waitingmsgs = remove ℕ_discrete id m.waitingmsgs; cells = cells },
        )
  unfolding after_search
  after_search-found k r id ks v msg m cells g t = rw (g, t) refl

  -- The key is marked as free, and its list is searched.
  unuse_key-search :
      (k : K) (r : ℕ) (m : ConflictManager K V)
      → get key_eq k m.keys_states ≡ some r
      → (m.cells r).using ≡ true
      → let cells = update m.cells r (record (m.cells r) { using = false }) in
        unuse_key key_eq hash_order k m ≡ (
          find_msg r m.waitingmsgs (hash_order (cells r).waitingmsgs) cells
          >>= stop_waiting r
          >>= after_search key_eq hash_order k r m)
  unfolding unuse_key try_get_stop_waiting_msg
  unuse_key-search k r m e u = rw (e, set_unuse-ok r m.cells u) refl

  -- What the place of a search says: the state `r` of the key is in use, and its list is the key's.
  key_released-at :
      (held : K → ℕ) (k : K) (r : ℕ) (m : ConflictManager K V)
      → Sound key_eq (λ j. ite (key_eq k j) 1 0 + held j) m
      → get key_eq k m.keys_states ≡ some r
      → ((id : ℕ)
          → listed key_eq id k m ≡ true
          → (msg : WaitingMsg V) × (get ℕ_discrete id m.waitingmsgs ≡ some msg))
      → HandsOver held k m ⊎ Frees held k m
  unfolding after_search stop_waiting count
  key_released-at held k r m s e live =
      let at_k : weight (m.cells r).using ≡ 1 + held k =
        using-held key_eq _ k r m s e ∙ ap (λ n. n + held k) (ite-yes (key_eq k k) 1 0 refl) in
      let u = weight-positive (m.cells r).using (omega (arith, at_k)) in
      let unheld : held k ≡ 0 = omega (arith, at_k, weight-le (m.cells r).using) in
      let freed = record (m.cells r) { using = false } in
      let cells = update m.cells r freed in
      let s1 = set_unuse-Sound key_eq held k r m cells e (set_unuse-ok r m.cells u) s in
      let sk = update-SameKeys r freed m.cells refl in
      let lists : (id : ℕ) → contains id (hash_order (cells r).waitingmsgs) ≡ listed key_eq id k m =
        λ id.
          lists_same id (cells r).waitingmsgs
          ∙ ap (contains id) (update-SameLists r freed m.cells refl r)
          ∙ sym (flag-some key_eq (λ c. contains id c.waitingmsgs) k r m e) in
      let no_other = λ (id : ℕ) (ids : List ℕ) (c : contains id (hash_order ids) ≡ true).
        sym (lists_same id ids) ∙ c in
      let run = unuse_key-search k r m e u in
      elim (find_msg-Finds key_eq held k r (hash_order (cells r).waitingmsgs)
        (in_store key_eq m cells) s1 e (λ id c. live id (sym (lists id) ∙ c))) [
          | inl (n, all) ↦
              let h =
                run ∙ ap (λ f. f >>= stop_waiting r >>= after_search key_eq hash_order k r m) n in
              inr (
                (λ id c.
                    let (ks, v, j, (msg, g, t), p, q) = all id (lists id ∙ c) in
                    (ks, v, j, (msg, g, sym (take_kv-keeps msg m.cells cells sk) ∙ t), p, q)),
                (
                  _,
                  h,
                  Sound-held key_eq _ held (λ j. omega arith)
                      (unuse_key-Sound key_eq hash_order no_other held k m _ none h s),
                  refl,
                ),
              )
          | inr (id, ks, v, cells2, c, (msg, g, t), f, n, s2, sk2, sl2) ↦
              let unused = weight-zero _ (
                using-held key_eq _ k r (in_store key_eq m cells2) s2 e
                ∙ omega (arith, unheld, ite-yes {A = ℕ} (key_eq k k) 0 (count key_eq k ks) refl)) in
              let (cells3, st, sk3) =
                stop_waiting-found r id cells2 unused
                  (ap (contains id) (sl2 r) ∙ sym (lists_same id (cells r).waitingmsgs) ∙ c) in
              let h =
                run
                ∙ ap (λ f. f >>= stop_waiting r >>= after_search key_eq hash_order k r m) n
                ∙ ap (λ f. f >>= after_search key_eq hash_order k r m) st
                ∙ after_search-found k r id ks v msg m cells3 g
                    (take_kv-keeps msg cells cells3 (λ x. sk3 x ∙ sk2 x) ∙ t) in
              inl (
                id,
                ks,
                v,
                _,
                sym (lists id) ∙ c,
                (msg, g, sym (take_kv-keeps msg m.cells cells sk) ∙ t),
                f,
                h,
                unuse_key-Sound key_eq hash_order no_other held k m _ (some (ks, v)) h s,
                refl,
              )
        ]

  -- The release of a key that is held, on a manager whose flags are those of the held keys and all
  -- of whose ids that the key lists are of waiting messages, succeeds: it returns a message that
  -- waited for the key, with its keys and its value, none of whose keys is held by others, and these
  -- become keys in use; or each message that waits for the key waits for another key that is held,
  -- and nothing is returned. No other waiting message is touched, and the flags are again those
  -- of the held keys. The iteration over a set of ids yields its ids.
  pub key_released :
      (held : K → ℕ) (k : K) (m : ConflictManager K V)
      → Sound key_eq (λ j. ite (key_eq k j) 1 0 + held j) m
      → ((id : ℕ)
          → listed key_eq id k m ≡ true
          → (msg : WaitingMsg V) × (get ℕ_discrete id m.waitingmsgs ≡ some msg))
      → HandsOver held k m ⊎ Frees held k m
  key_released held k m s live = elim (Option-cases (get key_eq k m.keys_states)) [
    | inl e ↦ absurd (
        omega (
          arith,
          s.owns k,
          ap weight (flag-none key_eq (λ c. c.using) k m e),
          ite-yes {A = ℕ} (key_eq k k) 1 0 refl,
        ))
    | inr (r, e) ↦ key_released-at held k r m s e live
  ]
