-- ===== src/KvMpscMultik/Searches.antt =====
-- kv_mpsc_multik.rs: which message the search of `try_get_stop_waiting_msg` finds.
use mathlib.Core.Logic.{ite}
use mathlib.Core.List.{reverse}
use pa_queue_and_chan.Prelude.{
  ℕ, ◌+◌, ◌≤◌, ◌<◌, ◌≡◌, ◌⊎◌, refl, sym, ap, subst, ◌∙◌, inl, inr, arith, true, false, none, some,
  List, [], ◌∷◌, get, ok, ℕ_discrete, count, contains, Bool-cases,
}
use pa_queue_and_chan.KvMpscMultik.Conflict.{
  KeyStateInner, WaitingMsg, ConflictManager, any_using, try_set_all, find_msg,
}
use pa_queue_and_chan.KvMpscMultik.Cells.{ite-yes, ite-no}
use pa_queue_and_chan.KvMpscMultik.Using.{Sound, Sound-held}
use pa_queue_and_chan.KvMpscMultik.Release.{in_store, contains-behind, try_set_all-Sound}
use pa_queue_and_chan.KvMpscMultik.Arrival.{count-reverse}
use pa_queue_and_chan.KvMpscMultik.Frames.{IsWaiting, SameKeys, SameLists, try_set_all-keeps}
use pa_queue_and_chan.KvMpscMultik.Exclusive.{weight-le}
use pa_queue_and_chan.KvMpscMultik.Kept.{parts_of_id}
use pa_queue_and_chan.KvMpscMultik.Unheld.{any_using-true, any_using-false, try_set_all-runs}
use pa_queue_and_chan.KvMpscMultik.Entered.{one_at_most}

module _ {K V : Type 0} (key_eq : Discrete K) where
  -- A waiting message one of whose keys is held.
  abbrev pub IsBlocked : (K → ℕ) → ConflictManager K V → ℕ → Type 0
  IsBlocked held m id =
      (ks : List K) × (v : V) × (k : K) × IsWaiting m id ks v
      × (0 < count key_eq k ks)
      × (0 < held k)

  -- What the search finds among the ids, for the state `r` of the key `k`.
  abbrev pub Found : (K → ℕ) → K → ℕ → ConflictManager K V → List ℕ → Type 0
  Found held k r m ids =
      (id : ℕ) × (ks : List K) × (v : V) × (cells : ℕ → KeyStateInner K) × (contains id ids ≡ true)
      × IsWaiting m id ks v
      × ((j : K) → 0 < count key_eq j ks → held j ≡ 0)
      × (find_msg r m.waitingmsgs ids m.cells ≡ ok (some id, cells))
      × Sound key_eq (λ j. ite (key_eq k j) 0 (count key_eq j ks) + held j)
          (in_store key_eq m cells)
      × SameKeys m.cells cells
      × SameLists m.cells cells

  abbrev pub Finds : (K → ℕ) → K → ℕ → ConflictManager K V → List ℕ → Type 0
  Finds held k r m ids =
      ((find_msg r m.waitingmsgs ids m.cells ≡ ok (none, m.cells))
        × ((id : ℕ) → contains id ids ≡ true → IsBlocked held m id))
      ⊎ Found held k r m ids

  skips :
      (r id : ℕ) (ids rs : List ℕ) (v : V) (msg : WaitingMsg V) (m : ConflictManager K V)
      → get ℕ_discrete id m.waitingmsgs ≡ some msg
      → msg.ks_v ≡ some (rs, v)
      → any_using rs m.cells ≡ true
      → find_msg r m.waitingmsgs (id ∷ ids) m.cells ≡ find_msg r m.waitingmsgs ids m.cells
  unfolding find_msg
  skips r id ids rs v msg m g q u = rw (g, q, u) refl

  stops :
      (r id : ℕ) (ids rs : List ℕ) (v : V) (msg : WaitingMsg V) (m : ConflictManager K V)
      (cells : ℕ → KeyStateInner K)
      → get ℕ_discrete id m.waitingmsgs ≡ some msg
      → msg.ks_v ≡ some (rs, v)
      → any_using rs m.cells ≡ false
      → try_set_all r rs m.cells ≡ ok cells
      → find_msg r m.waitingmsgs (id ∷ ids) m.cells ≡ ok (some id, cells)
  unfolding find_msg
  stops r id ids rs v msg m cells g q u h = rw (g, q, u, h) refl

  skipped :
      (held : K → ℕ) (k : K) (r id : ℕ) (ids : List ℕ) (m : ConflictManager K V)
      → IsBlocked held m id
      → find_msg r m.waitingmsgs (id ∷ ids) m.cells ≡ find_msg r m.waitingmsgs ids m.cells
      → Finds held k r m ids
      → Finds held k r m (id ∷ ids)
  unfolding contains
  skipped held k r id ids m b e (inl (n, all)) = inl (
    e ∙ n,
    (λ x c. elim (ℕ_discrete id x) [
      | yes p ↦ subst (IsBlocked held m) p b
      | no d ↦ all x (sym (ite-no (ℕ_discrete id x) _ _ d) ∙ c)
    ]),
  )
  skipped held k r id ids m b e (inr (x, ks, v, cells, c, w, f, h, sd, sk, sl)) =
      inr (x, ks, v, cells, contains-behind id x ids c, w, f, e ∙ h, sd, sk, sl)

  pub find_msg-Finds :
      (held : K → ℕ) (k : K) (r : ℕ) (ids : List ℕ) (m : ConflictManager K V)
      → Sound key_eq held m
      → get key_eq k m.keys_states ≡ some r
      → ((id : ℕ)
          → contains id ids ≡ true
          → (msg : WaitingMsg V) × (get ℕ_discrete id m.waitingmsgs ≡ some msg))
      → Finds held k r m ids
  unfolding find_msg contains
  find_msg-Finds held k r [] m s e live = inl (refl, (λ id c. absurd (cc)))
  find_msg-Finds held k r (id ∷ ids) m s e live =
      let (msg, g) = live id (ite-yes (ℕ_discrete id id) _ _ refl) in
      let (rs, ks, v, q, refs, d, w) = parts_of_id key_eq held id msg m s g in
      elim (Bool-cases (any_using rs m.cells)) [
        | inl u ↦
            let (j, p, h) = any_using-true key_eq held rs ks m s refs u in
            skipped held k r id ids m
              (reverse ks, v, j, w, omega (arith, count-reverse key_eq j ks, p), h)
              (skips r id ids rs v msg m g q u)
              (find_msg-Finds held k r ids m s e (λ x c. live x (contains-behind id x ids c)))
        | inr u ↦
            let free = any_using-false key_eq held rs ks m s refs u in
            let (cells, h) = try_set_all-runs key_eq rs ks held k r m e refs s (λ j n.
              one_at_most _ _ (d j) (subst (λ n. n ≤ 1) (s.owns j) (weight-le _)) (free j)) in
            inr (
              id,
              reverse ks,
              v,
              cells,
              ite-yes (ℕ_discrete id id) _ _ refl,
              w,
              (λ j p. free j (omega (arith, count-reverse key_eq j ks, p))),
              stops r id ids rs v msg m cells g q u h,
              Sound-held key_eq _ _
                  (λ j. ap (λ n. ite (key_eq k j) 0 n + held j) (sym (count-reverse key_eq j ks)))
                  (try_set_all-Sound key_eq rs ks held k r m cells e refs h s),
              (try_set_all-keeps r rs m.cells cells h).0,
              (try_set_all-keeps r rs m.cells cells h).1,
            )
      ]
