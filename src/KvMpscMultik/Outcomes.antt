-- ===== src/KvMpscMultik/Outcomes.antt =====
-- kv_mpsc_multik.rs: what the release of a key has done, if it has not panicked.
use mathlib.Core.List.{reverse}
use mathlib.Core.Logic.{ite}
use mathlib.Core.Option.{some-injective}
use pa_queue_and_chan.Prelude.{
  ℕ, ◌+◌, ◌≡◌, ◌⊎◌, refl, sym, ap, subst, ◌∙◌, inl, inr, arith, true, false, Option, none, some,
  List, get, ok, ◌>>=◌, contains, Option-cases, ok-injective,
}
use pa_queue_and_chan.KvMpscMultik.Conflict.{
  KeyStateInner, ConflictManager, any_using, find_msg, set_unuse,
}
use pa_queue_and_chan.KvMpscMultik.Manager.{
  stop_waiting, try_get_stop_waiting_msg, after_search, unuse_key,
}
use pa_queue_and_chan.KvMpscMultik.Cells.{flag-some, panic-ok, set_unuse-ok}
use pa_queue_and_chan.KvMpscMultik.Using.{listed, Sound}
use pa_queue_and_chan.KvMpscMultik.Taking.{ok_parts}
use pa_queue_and_chan.KvMpscMultik.Arrival.{count-reverse}
use pa_queue_and_chan.KvMpscMultik.Release.{in_store, set_unuse-Sound, find_msg-none, find_msg-some}
use pa_queue_and_chan.KvMpscMultik.Unheld.{any_using-true}
use pa_queue_and_chan.KvMpscMultik.Kept.{parts_of_id}
use pa_queue_and_chan.KvMpscMultik.Frames.{
  SameKeys, update-SameKeys, update-SameLists, try_set_all-keeps, take_kv-keeps,
}
use pa_queue_and_chan.KvMpscMultik.Found.{
  find_msg-passes, stop_waiting-keeps, Delivers, Passes, after_search-hands, after_search-nothing,
}

module _ {K V : Type 0} (key_eq : Discrete K) (hash_order : List ℕ → List ℕ)
    (lists_same : (id : ℕ) (ids : List ℕ) → contains id (hash_order ids) ≡ contains id ids) where
  abbrev pub Settles :
      (K → ℕ) → K → ConflictManager K V → Option (List K × V) → ConflictManager K V → Type 0
  Settles held k m res m' =
      (Delivers key_eq hash_order k m res m' ⊎ Passes key_eq hash_order held k m res m')
      × SameKeys m.cells m'.cells

  searched-outcome :
      (held : K → ℕ) (k : K) (r : ℕ) (m m' : ConflictManager K V) (cells : ℕ → KeyStateInner K)
      (fm found : Option ℕ × (ℕ → KeyStateInner K)) (res : Option (List K × V))
      → Sound key_eq held (in_store key_eq m cells)
      → SameKeys m.cells cells
      → ((id : ℕ) → contains id (hash_order (cells r).waitingmsgs) ≡ listed key_eq id k m)
      → find_msg r m.waitingmsgs (hash_order (cells r).waitingmsgs) cells ≡ ok fm
      → stop_waiting r fm ≡ ok found
      → after_search key_eq hash_order k r m found ≡ ok (res, m')
      → Settles held k m res m'
  unfolding stop_waiting
  searched-outcome held k r m m' cells (some id, cells2) found res s sk l h1 h2 h3 =
      let (c, (msg, ks_v, g, _, t)) =
        find_msg-some key_eq r id m.waitingmsgs (hash_order (cells r).waitingmsgs) cells cells2
          h1 in
      let (e, sk3) = stop_waiting-keeps r id cells2 found h2 in
      let (d, sk4) =
        after_search-hands key_eq hash_order k r id msg m m' found.1 res g (sym (l id) ∙ c)
          (λ x. sk3 x ∙ (try_set_all-keeps r ks_v.0 cells cells2 t).0 x ∙ sk x)
          (subst (λ o. after_search key_eq hash_order k r m (o, found.1) ≡ ok (res, m')) e h3) in
      (inl d, sk4)
  searched-outcome held k r m m' cells (none, cells2) found res s sk l h1 h2 h3 =
      let same =
        find_msg-none key_eq r m.waitingmsgs (hash_order (cells r).waitingmsgs) cells cells2 h1 in
      let (a, b, sk2) =
        after_search-nothing key_eq hash_order k r m m' cells2 res
          (λ x. ap (λ f. (f x).k) (sym same) ∙ sk x)
          (subst (λ f. after_search key_eq hash_order k r m f ≡ ok (res, m'))
            (sym (ok-injective h2)) h3) in
      (
        inr (
          a,
          b,
          (λ id c.
              let (msg, ks_v, g, e, u) =
                find_msg-passes r m.waitingmsgs (hash_order (cells r).waitingmsgs) cells cells2 id
                  h1 (l id ∙ c) in
              let (rs, ks, v, q, refs, _, (msg2, g2, t)) =
                parts_of_id key_eq held id msg (in_store key_eq m cells) s g in
              let (j, p, z) = any_using-true key_eq held rs ks (in_store key_eq m cells) s refs (
                subst (λ (x : List ℕ × V). any_using x.0 cells ≡ true)
                  (some-injective _ _ (sym e ∙ q)) u) in
              (
                reverse ks,
                v,
                j,
                (msg2, g2, sym (take_kv-keeps msg2 m.cells cells sk) ∙ t),
                omega (arith, count-reverse key_eq j ks, p),
                z,
              )),
        ),
        sk2,
      )

  -- The release of a key, whose other holders are given by `held`.
  pub unuse_key-Settles :
      (held : K → ℕ) (k : K) (m m' : ConflictManager K V) (res : Option (List K × V))
      → Sound key_eq (λ j. ite (key_eq k j) 1 0 + held j) m
      → unuse_key key_eq hash_order k m ≡ ok (res, m')
      → Settles held k m res m'
  unfolding unuse_key try_get_stop_waiting_msg
  unuse_key-Settles held k m m' res s h = elim (Option-cases (get key_eq k m.keys_states)) [
    | inl e ↦ absurd (panic-ok (rw (e) at h))
    | inr (r, e) ↦
        let (cells, a1, a2) =
          ok_parts (set_unuse r m.cells)
            (λ c.
              try_get_stop_waiting_msg key_eq hash_order r m.waitingmsgs c
              >>= after_search key_eq hash_order k r m)
            (res, m') (rw (e) at h) in
        let (found, b1, b2) =
          ok_parts (try_get_stop_waiting_msg key_eq hash_order r m.waitingmsgs cells)
            (after_search key_eq hash_order k r m) (res, m') a2 in
        let (fm, c1, c2) =
          ok_parts (find_msg r m.waitingmsgs (hash_order (cells r).waitingmsgs) cells)
            (stop_waiting r) found b1 in
        let (_, q) = set_unuse-ok r m.cells cells a1 in
        let freed = record (m.cells r) { using = false } in
        searched-outcome held k r m m' cells fm found res
          (set_unuse-Sound key_eq held k r m cells e a1 s)
          (λ x. ap (λ f. (f x).k) q ∙ update-SameKeys r freed m.cells refl x)
          (λ id.
            lists_same id (cells r).waitingmsgs
            ∙ ap (contains id)
                (ap (λ f. (f r).waitingmsgs) q ∙ update-SameLists r freed m.cells refl r)
            ∙ sym (flag-some key_eq (λ y. contains id y.waitingmsgs) k r m e))
          c1 c2 b2
  ]
