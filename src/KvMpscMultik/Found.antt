-- ===== src/KvMpscMultik/Found.antt =====
-- kv_mpsc_multik.rs: what the parts of the release of a key have done, if they have not panicked.
use pa_queue_and_chan.Prelude.{
  ℕ, ◌≡◌, refl, sym, ap, subst, ◌∙◌, inl, inr, true, Option, none, some, List, [], ◌∷◌, Map, get,
  remove, ok, ◌>>=◌, ℕ_discrete, contains, Bool-cases, Option-cases, ok-injective,
}
use pa_queue_and_chan.KvMpscMultik.Conflict.{
  KeyStateInner, WaitingMsg, ConflictManager, take_kv, any_using, try_set_all, find_msg, set_use,
  remove_waitingmsg,
}
use pa_queue_and_chan.KvMpscMultik.Manager.{stop_waiting, after_search}
use pa_queue_and_chan.KvMpscMultik.Cells.{none-some, panic-ok, ite-no}
use pa_queue_and_chan.KvMpscMultik.Using.{listed}
use pa_queue_and_chan.KvMpscMultik.Taking.{ok_parts}
use pa_queue_and_chan.KvMpscMultik.Delivery.{unlisting}
use pa_queue_and_chan.KvMpscMultik.Searched.{remove_waitingmsg-ok}
use pa_queue_and_chan.KvMpscMultik.Searches.{IsBlocked}
use pa_queue_and_chan.KvMpscMultik.Frames.{
  IsWaiting, SameKeys, update-SameKeys, set_use-keeps, take_kv-keeps,
}

-- The search has found nothing: it has passed over every message.
pub find_msg-passes :
    {K V : Type 0} (r : ℕ) (msgs : Map ℕ (WaitingMsg V)) (ids : List ℕ)
    (cells cells' : ℕ → KeyStateInner K) (id : ℕ)
    → find_msg r msgs ids cells ≡ ok (none, cells')
    → contains id ids ≡ true
    → (msg : WaitingMsg V) × (ks_v : List ℕ × V) × (get ℕ_discrete id msgs ≡ some msg)
      × (msg.ks_v ≡ some ks_v)
      × (any_using ks_v.0 cells ≡ true)
unfolding find_msg contains
find_msg-passes r msgs [] cells cells' id h c = absurd (cc)
find_msg-passes r msgs (i ∷ ids) cells cells' id h c = elim (Option-cases (get ℕ_discrete i msgs)) [
  | inl g ↦ absurd (panic-ok (rw (g) at h))
  | inr (msg, g) ↦ elim (Option-cases msg.ks_v) [
    | inl v ↦ absurd (panic-ok (rw (g, v) at h))
    | inr (ks_v, v) ↦ elim (Bool-cases (any_using ks_v.0 cells)) [
      | inl u ↦ elim (ℕ_discrete i id) [
        | yes p ↦ (msg, ks_v, subst (λ x. get ℕ_discrete x msgs ≡ some msg) p g, v, u)
        | no d ↦
            find_msg-passes r msgs ids cells cells' id (rw (g, v, u) at h)
              (sym (ite-no (ℕ_discrete i id) _ _ d) ∙ c)
      ]
      | inr u ↦
          let (c2, _, h2) =
            ok_parts (try_set_all r ks_v.0 cells) (λ c. ok (some i, c)) (none, cells')
              (rw (g, v, u) at h) in
          absurd (none-some (sym (ap (λ p. p.0) (ok-injective h2))))
    ]
  ]
]

module _ {K : Type 0} where
  pub stop_waiting-keeps :
      (r id : ℕ) (cells : ℕ → KeyStateInner K) (found : Option ℕ × (ℕ → KeyStateInner K))
      → stop_waiting r (some id, cells) ≡ ok found
      → (found.0 ≡ some id) × SameKeys cells found.1
  unfolding stop_waiting
  stop_waiting-keeps r id cells found h =
      let (c1, a1, a2) =
        ok_parts (set_use r cells) (λ c. remove_waitingmsg r id c >>= λ c'. ok (some id, c')) found
          h in
      let (c2, b1, b2) = ok_parts (remove_waitingmsg r id c1) (λ c'. ok (some id, c')) found a2 in
      let e = ok-injective b2 in
      let (sk, _) = set_use-keeps r cells c1 a1 in
      (
        sym (ap (λ (f : Option ℕ × (ℕ → KeyStateInner K)). f.0) e),
        (λ x.
            ap (λ (f : Option ℕ × (ℕ → KeyStateInner K)). (f.1 x).k) (sym e)
            ∙ ap (λ f. (f x).k) (remove_waitingmsg-ok r id c1 c2 b1)
            ∙ update-SameKeys r (unlisting id (c1 r)) c1 refl x
            ∙ sk x),
      )

module _ {K V : Type 0} (key_eq : Discrete K) (hash_order : List ℕ → List ℕ) where
  -- A message that waited for the key is returned and waits no more; or nothing is.
  abbrev pub Delivers : K → ConflictManager K V → Option (List K × V) → ConflictManager K V → Type 0
  Delivers k m res m' =
      (id : ℕ) × (ks : List K) × (v : V) × (res ≡ some (ks, v))
      × (listed key_eq id k m ≡ true)
      × IsWaiting m id ks v
      × (m'.waitingmsgs ≡ remove ℕ_discrete id m.waitingmsgs)

  abbrev pub Passes :
      (K → ℕ) → K → ConflictManager K V → Option (List K × V) → ConflictManager K V → Type 0
  Passes held k m res m' =
      (res ≡ none)
      × (m'.waitingmsgs ≡ m.waitingmsgs)
      × ((id : ℕ) → listed key_eq id k m ≡ true → IsBlocked key_eq held m id)

  pub after_search-hands :
      (k : K) (r id : ℕ) (msg : WaitingMsg V) (m m' : ConflictManager K V)
      (cells : ℕ → KeyStateInner K) (res : Option (List K × V))
      → get ℕ_discrete id m.waitingmsgs ≡ some msg
      → listed key_eq id k m ≡ true
      → SameKeys m.cells cells
      → after_search key_eq hash_order k r m (some id, cells) ≡ ok (res, m')
      → Delivers k m res m' × SameKeys m.cells m'.cells
  unfolding after_search
  after_search-hands k r id msg m m' cells res g c sk h =
      let (kv, t, h2) =
        ok_parts (take_kv cells msg)
          (λ kv.
            ok (
              some kv,
              record m { waitingmsgs = remove ℕ_discrete id m.waitingmsgs; cells = cells },
            ))
          (res, m') (rw (g) at h) in
      let e = ok-injective h2 in
      (
        (
          id,
          kv.0,
          kv.1,
          sym (ap (λ (p : Option (List K × V) × ConflictManager K V). p.0) e),
          c,
          (msg, g, sym (take_kv-keeps msg m.cells cells sk) ∙ t),
          sym (ap (λ (p : Option (List K × V) × ConflictManager K V). p.1.waitingmsgs) e),
        ),
        (λ x.
            ap (λ (p : Option (List K × V) × ConflictManager K V). (p.1.cells x).k) (sym e) ∙ sk x),
      )

  pub after_search-nothing :
      (k : K) (r : ℕ) (m m' : ConflictManager K V) (cells : ℕ → KeyStateInner K)
      (res : Option (List K × V))
      → SameKeys m.cells cells
      → after_search key_eq hash_order k r m (none, cells) ≡ ok (res, m')
      → (res ≡ none) × (m'.waitingmsgs ≡ m.waitingmsgs) × SameKeys m.cells m'.cells
  unfolding after_search
  after_search-nothing k r m m' cells res sk h =
      let e = ok-injective h in
      (
        sym (ap (λ (p : Option (List K × V) × ConflictManager K V). p.0) e),
        sym (ap (λ (p : Option (List K × V) × ConflictManager K V). p.1.waitingmsgs) e),
        (λ x.
            ap (λ (p : Option (List K × V) × ConflictManager K V). (p.1.cells x).k) (sym e) ∙ sk x),
      )
