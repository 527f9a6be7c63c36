-- ===== src/KvMpscMultik/Others.antt =====
-- kv_mpsc_multik.rs: what the release of a key leaves of the states of the other keys.
use pa_queue_and_chan.Prelude.{
  ℕ, ◌≡◌, ◌≢◌, refl, sym, ap, ◌∙◌, inl, inr, Option, none, some, List, Map, get, remove, get-remove,
  ok, ◌>>=◌, ℕ_discrete, is_empty, Bool-cases, Option-cases, ok-injective,
}
use pa_queue_and_chan.KvMpscMultik.Conflict.{
  KeyStateInner, WaitingMsg, ConflictManager, take_kv, find_msg, set_use, set_unuse,
  remove_waitingmsg,
}
use pa_queue_and_chan.KvMpscMultik.Manager.{
  stop_waiting, try_get_stop_waiting_msg, after_search, unuse_key,
}
use pa_queue_and_chan.KvMpscMultik.Cells.{
  Mapped, apart, panic-ok, update-other, set_unuse-ok, ite-no,
}
use pa_queue_and_chan.KvMpscMultik.Taking.{ok_parts}
use pa_queue_and_chan.KvMpscMultik.Release.{find_msg-none, find_msg-some}
use pa_queue_and_chan.KvMpscMultik.Delivery.{unlisting}
use pa_queue_and_chan.KvMpscMultik.Searched.{remove_waitingmsg-ok}
use pa_queue_and_chan.KvMpscMultik.Frames.{SameLists, set_use-keeps, try_set_all-keeps}

module _ {K V : Type 0} (key_eq : Discrete K) where
  find_msg-SameLists :
      (r : ℕ) (msgs : Map ℕ (WaitingMsg V)) (ids : List ℕ) (cells : ℕ → KeyStateInner K)
      (fm : Option ℕ × (ℕ → KeyStateInner K))
      → find_msg r msgs ids cells ≡ ok fm
      → SameLists cells fm.1
  find_msg-SameLists r msgs ids cells (none, cells') h =
      λ x. ap (λ f. (f x).waitingmsgs) (sym (find_msg-none key_eq r msgs ids cells cells' h))
  find_msg-SameLists r msgs ids cells (some id, cells') h =
      let (_, (msg, ks_v, _, _, t)) = find_msg-some key_eq r id msgs ids cells cells' h in
      (try_set_all-keeps r ks_v.0 cells cells' t).1

module _ {K : Type 0} where
  -- The message that stops waiting is taken off the list of the released key alone.
  stop_waiting-others :
      (r x : ℕ) (fm found : Option ℕ × (ℕ → KeyStateInner K))
      → r ≢ x
      → stop_waiting r fm ≡ ok found
      → (found.1 x).waitingmsgs ≡ (fm.1 x).waitingmsgs
  unfolding stop_waiting
  stop_waiting-others r x (none, cells) found d h =
      ap (λ f. (f.1 x).waitingmsgs) (sym (ok-injective h))
  stop_waiting-others r x (some id, cells) found d h =
      let (c1, a1, a2) =
        ok_parts (set_use r cells) (λ c. remove_waitingmsg r id c >>= λ c'. ok (some id, c')) found
          h in
      let (c2, b1, b2) = ok_parts (remove_waitingmsg r id c1) (λ c'. ok (some id, c')) found a2 in
      ap (λ (f : Option ℕ × (ℕ → KeyStateInner K)). (f.1 x).waitingmsgs) (sym (ok-injective b2))
      ∙ ap (λ f. (f x).waitingmsgs) (remove_waitingmsg-ok r id c1 c2 b1)
      ∙ ap (λ c. c.waitingmsgs) (update-other c1 r x (unlisting id (c1 r)) d)
      ∙ (set_use-keeps r cells c1 a1).1 x

module _ {K V : Type 0} (key_eq : Discrete K) (hash_order : List ℕ → List ℕ) where
  after_search-others :
      (k j : K) (r : ℕ) (m m' : ConflictManager K V) (found : Option ℕ × (ℕ → KeyStateInner K))
      (res : Option (List K × V))
      → k ≢ j
      → after_search key_eq hash_order k r m found ≡ ok (res, m')
      → (get key_eq j m'.keys_states ≡ get key_eq j m.keys_states) × (m'.cells ≡ found.1)
  unfolding after_search
  after_search-others k j r m m' (none, cells) res d h =
      let e = ok-injective h in
      (
        ap (λ (p : Option (List K × V) × ConflictManager K V). get key_eq j p.1.keys_states) (sym e)
            ∙ elim (Bool-cases (is_empty (cells r).waitingmsgs)) [
              | inl b ↦ rw (b) (get-remove key_eq k j m.keys_states ∙ ite-no (key_eq k j) _ _ d)
              | inr b ↦ rw (b) refl
            ],
        ap (λ (p : Option (List K × V) × ConflictManager K V). p.1.cells) (sym e),
      )
  after_search-others k j r m m' (some id, cells) res d h =
      elim (Option-cases (get ℕ_discrete id m.waitingmsgs)) [
        | inl g ↦ absurd (panic-ok (rw (g) at h))
        | inr (msg, g) ↦
            let (kv, t, h2) =
              ok_parts (take_kv cells msg)
                (λ kv. ok (
                  some kv,
                  record m { waitingmsgs = remove ℕ_discrete id m.waitingmsgs; cells = cells },
                ))
                (res, m') (rw (g) at h) in
            let e = sym (ok-injective h2) in
            (
              ap (λ (p : Option (List K × V) × ConflictManager K V). get key_eq j p.1.keys_states)
                  e,
              ap (λ (p : Option (List K × V) × ConflictManager K V). p.1.cells) e,
            )
      ]

  -- The state of another key stays where it is, and lists the ids that it has listed.
  pub unuse_key-others :
      (k j : K) (s : ℕ) (m m' : ConflictManager K V) (res : Option (List K × V))
      → Mapped key_eq m
      → k ≢ j
      → get key_eq j m.keys_states ≡ some s
      → unuse_key key_eq hash_order k m ≡ ok (res, m')
      → (get key_eq j m'.keys_states ≡ some s)
        × ((m'.cells s).waitingmsgs ≡ (m.cells s).waitingmsgs)
  unfolding unuse_key try_get_stop_waiting_msg
  unuse_key-others k j s m m' res w d g h = elim (Option-cases (get key_eq k m.keys_states)) [
    | inl e ↦ absurd (panic-ok (rw (e) at h))
    | inr (r, e) ↦
        let (cells, a1, a2) =
          ok_parts (set_unuse r m.cells)
            (λ c.
              try_get_stop_waiting_msg key_eq hash_order r m.waitingmsgs c
              >>= after_search key_eq hash_order k r m)
            (res, m') (rw (e) at h) in
        let (found, b1, b2) =
          ok_parts (try_get_stop_waiting_msg key_eq hash_order r m.waitingmsgs cells)
            (after_search key_eq hash_order k r m) (res, m') a2 in
        let (fm, c1, c2) =
          ok_parts (find_msg r m.waitingmsgs (hash_order (cells r).waitingmsgs) cells)
            (stop_waiting r) found b1 in
        let far = apart key_eq k j r s m w e g d in
        let (same, last) = after_search-others k j r m m' found res d b2 in
        (
          same ∙ g,
          ap (λ f. (f s).waitingmsgs) last
              ∙ stop_waiting-others r s fm found far c2
              ∙ find_msg-SameLists key_eq r m.waitingmsgs _ cells fm c1 s
              ∙ ap (λ f. (f s).waitingmsgs) (set_unuse-ok r m.cells cells a1).1
              ∙ ap (λ c. c.waitingmsgs) (update-other m.cells r s _ far),
        )
  ]
