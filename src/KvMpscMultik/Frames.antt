-- ===== src/KvMpscMultik/Frames.antt =====
-- kv_mpsc_multik.rs: what taking and releasing keys leaves of the states of the keys.
use pa_queue_and_chan.Prelude.{
  ℕ, ◌≡◌, refl, sym, ap, ◌∙◌, some, inl, inr, true, Option-cases, List, [], ◌∷◌, ok, ℕ_discrete,
  ok-injective, get,
}
use mathlib.Core.List.{reverse}
use pa_queue_and_chan.KvMpscMultik.Conflict.{
  KeyStateInner, WaitingMsg, ConflictManager, update, take_keys, take_kv, set_use, try_set_use,
  try_set_all,
}
use pa_queue_and_chan.KvMpscMultik.Cells.{update-eq, update-other, set_use-ok, ite-yes, ite-no}
use pa_queue_and_chan.KvMpscMultik.Taking.{ok_parts}

module _ {K : Type 0} where
  -- Each state keeps its key.
  abbrev pub SameKeys : (ℕ → KeyStateInner K) → (ℕ → KeyStateInner K) → Type 0
  SameKeys cells cells' = (x : ℕ) → (cells' x).k ≡ (cells x).k

  abbrev pub SameLists : (ℕ → KeyStateInner K) → (ℕ → KeyStateInner K) → Type 0
  SameLists cells cells' = (x : ℕ) → (cells' x).waitingmsgs ≡ (cells x).waitingmsgs

  pub update-SameKeys :
      (r : ℕ) (c : KeyStateInner K) (cells : ℕ → KeyStateInner K)
      → c.k ≡ (cells r).k
      → SameKeys cells (update cells r c)
  update-SameKeys r c cells e x = elim (ℕ_discrete r x) [
    | yes p ↦ ap (λ d. d.k) (update-eq cells r x c p) ∙ e ∙ ap (λ y. (cells y).k) p
    | no d ↦ ap (λ d. d.k) (update-other cells r x c d)
  ]

  pub update-SameLists :
      (r : ℕ) (c : KeyStateInner K) (cells : ℕ → KeyStateInner K)
      → c.waitingmsgs ≡ (cells r).waitingmsgs
      → SameLists cells (update cells r c)
  update-SameLists r c cells e x = elim (ℕ_discrete r x) [
    | yes p ↦
        ap (λ d. d.waitingmsgs) (update-eq cells r x c p) ∙ e ∙ ap (λ y. (cells y).waitingmsgs) p
    | no d ↦ ap (λ d. d.waitingmsgs) (update-other cells r x c d)
  ]

  pub set_use-keeps :
      (r : ℕ) (cells cells' : ℕ → KeyStateInner K)
      → set_use r cells ≡ ok cells'
      → SameKeys cells cells' × SameLists cells cells'
  set_use-keeps r cells cells' h =
      let e = (set_use-ok r cells cells' h).1 in
      let c = record (cells r) { using = true } in
      (
        (λ x. ap (λ f. (f x).k) e ∙ update-SameKeys r c cells refl x),
        (λ x. ap (λ f. (f x).waitingmsgs) e ∙ update-SameLists r c cells refl x),
      )

  pub try_set_all-keeps :
      (r : ℕ) (rs : List ℕ) (cells cells' : ℕ → KeyStateInner K)
      → try_set_all r rs cells ≡ ok cells'
      → SameKeys cells cells' × SameLists cells cells'
  unfolding try_set_all try_set_use
  try_set_all-keeps r [] cells cells' h = (
    (λ x. ap (λ f. (f x).k) (sym (ok-injective h))),
    (λ x. ap (λ f. (f x).waitingmsgs) (sym (ok-injective h))),
  )
  try_set_all-keeps r (q ∷ rs) cells cells' h = elim (ℕ_discrete r q) [
    | yes p ↦
        try_set_all-keeps r rs cells cells'
          (rw (ite-yes (ℕ_discrete r q) (ok cells) (set_use q cells) p) at h)
    | no n ↦
        let (c, h1, h2) =
          ok_parts (set_use q cells) (λ c. try_set_all r rs c) cells'
            (rw (ite-no (ℕ_discrete r q) (ok cells) (set_use q cells) n) at h) in
        let (k1, l1) = set_use-keeps q cells c h1 in
        let (k2, l2) = try_set_all-keeps r rs c cells' h2 in
        ((λ x. k2 x ∙ k1 x), (λ x. l2 x ∙ l1 x))
  ]

  take_keys-keeps :
      (rs : List ℕ) (cells cells' : ℕ → KeyStateInner K)
      → SameKeys cells cells'
      → take_keys cells' rs ≡ take_keys cells rs
  unfolding take_keys
  take_keys-keeps [] cells cells' k = refl
  take_keys-keeps (r ∷ rs) cells cells' k = rw (k r, take_keys-keeps rs cells cells' k) refl

  pub take_kv-keeps :
      {V : Type 0} (msg : WaitingMsg V) (cells cells' : ℕ → KeyStateInner K)
      → SameKeys cells cells'
      → take_kv cells' msg ≡ take_kv cells msg
  unfolding take_kv
  take_kv-keeps {V} msg cells cells' k = elim (Option-cases msg.ks_v) [
    | inl e ↦ rw (e) refl
    | inr (ks_v, e) ↦ rw (e, take_keys-keeps (reverse ks_v.0) cells cells' k) refl
  ]

-- A waiting message, and the keys and the value that it would be returned with.
abbrev pub IsWaiting : {K V : Type 0} → ConflictManager K V → ℕ → List K → V → Type 0
IsWaiting {V = V} m id ks v =
    (msg : WaitingMsg V) × (get ℕ_discrete id m.waitingmsgs ≡ some msg)
    × (take_kv m.cells msg ≡ ok (ks, v))

-- What waits waits on, with its keys and its value.
abbrev pub WaitOn : {K V : Type 0} → ConflictManager K V → ConflictManager K V → Type 0
WaitOn {K} {V} m m' = (id : ℕ) (ks : List K) (v : V) → IsWaiting m id ks v → IsWaiting m' id ks v
