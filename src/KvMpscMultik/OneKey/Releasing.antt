-- ===== src/KvMpscMultik/OneKey/Releasing.antt =====
-- kv_mpsc_multik.rs: what `unuse_key` does when the messages have one key each.
use pa_queue_and_chan.Prelude.{
  ℕ, ◌≡◌, refl, ap, ◌∙◌, Bool, true, false, Option, none, some, List, [], ◌∷◌, Map, get, remove, ok,
  ℕ_discrete, contains, Outcome, if◌then◌else◌, ◌||◌, ◌>>=◌,
}
use pa_queue_and_chan.KvMpscMultik.Conflict.{
  KeyStateInner, WaitingMsg, ConflictManager, update, take_kv, take_keys, set_use, set_unuse,
  remove_waitingmsg, any_using, try_set_all, try_set_use, find_msg,
}
use pa_queue_and_chan.KvMpscMultik.Manager.{
  stop_waiting, try_get_stop_waiting_msg, after_search, unuse_key,
}
use pa_queue_and_chan.KvMpscMultik.Cells.{with_cell, update-same, ite-yes}
use pa_queue_and_chan.KvMpscMultik.Delivery.{unlisting, forgotten}

if-else : {A : Type 0} (b : Bool) (x y : A) → b ≡ false → (if b then x else y) ≡ y
if-else b x y e = rw (e) refl

module _ {K : Type 0} where
  -- The store after the key has been handed over to the message `id`.
  abbrev pub in_use_cell : ℕ → (ℕ → KeyStateInner K) → ℕ → KeyStateInner K
  in_use_cell r cells = update cells r (record (cells r) { using = true })

  abbrev pub handed_cells : ℕ → ℕ → (ℕ → KeyStateInner K) → ℕ → KeyStateInner K
  handed_cells r id cells = update cells r (unlisting id (cells r))

  abbrev pub unused_cells : ℕ → (ℕ → KeyStateInner K) → ℕ → KeyStateInner K
  unused_cells r cells = update cells r (record (cells r) { using = false })

  set_unuse-held :
      (r : ℕ) (cells : ℕ → KeyStateInner K)
      → (cells r).using ≡ true
      → set_unuse r cells ≡ ok (unused_cells r cells)
  unfolding set_unuse
  set_unuse-held r cells u = rw (u) refl

  set_use-free :
      (r : ℕ) (cells : ℕ → KeyStateInner K)
      → (cells r).using ≡ false
      → set_use r cells ≡ ok (in_use_cell r cells)
  unfolding set_use
  set_use-free r cells u = rw (u) refl

  remove-listed :
      (r id : ℕ) (cells : ℕ → KeyStateInner K)
      → contains id (cells r).waitingmsgs ≡ true
      → remove_waitingmsg r id cells ≡ ok (handed_cells r id cells)
  unfolding remove_waitingmsg
  remove-listed r id cells c = rw (c) refl

  stop-found :
      (r id : ℕ) (cells : ℕ → KeyStateInner K)
      → (cells r).using ≡ false
      → contains id (cells r).waitingmsgs ≡ true
      → stop_waiting r (some id, cells) ≡ ok (some id, handed_cells r id (in_use_cell r cells))
  unfolding stop_waiting
  stop-found r id cells u c =
      ap (λ o. o >>= λ c'. remove_waitingmsg r id c' >>= λ c''. ok (some id, c''))
        (set_use-free r cells u)
      ∙ ap (λ o. o >>= λ c''. ok (some id, c''))
          (remove-listed r id (in_use_cell r cells) (
            ap (λ c'. contains id c'.waitingmsgs)
              (update-same cells r (record (cells r) { using = true }))
            ∙ c))

  skip_searched : (r : ℕ) (cells : ℕ → KeyStateInner K) → try_set_all r (r ∷ []) cells ≡ ok cells
  unfolding try_set_all try_set_use
  skip_searched r cells = rw (ite-yes (ℕ_discrete r r) (ok cells) (set_use r cells) refl) refl

module _ {K V : Type 0} (key_eq : Discrete K) (hash_order : List ℕ → List ℕ) where
  released_first :
      (k : K) (r : ℕ) (m : ConflictManager K V)
      → (m.cells r).using ≡ true
      → (set_unuse r m.cells >>= λ cells.
          try_get_stop_waiting_msg key_eq hash_order r m.waitingmsgs cells
          >>= after_search key_eq hash_order k r m)
        ≡ (try_get_stop_waiting_msg key_eq hash_order r m.waitingmsgs (unused_cells r m.cells)
            >>= after_search key_eq hash_order k r m)
  released_first k r m u =
      ap
        (λ o. o >>= λ cells.
          try_get_stop_waiting_msg key_eq hash_order r m.waitingmsgs cells
          >>= after_search key_eq hash_order k r m)
        (set_unuse-held r m.cells u)

  -- The search among no ids.
  search-none :
      (k : K) (r : ℕ) (cells : ℕ → KeyStateInner K) (m : ConflictManager K V)
      → hash_order (cells r).waitingmsgs ≡ []
      → (cells r).waitingmsgs ≡ []
      → (try_get_stop_waiting_msg key_eq hash_order r m.waitingmsgs cells
          >>= after_search key_eq hash_order k r m)
        ≡ ok (none, record m { keys_states = remove key_eq k m.keys_states; cells = cells })
  unfolding try_get_stop_waiting_msg find_msg stop_waiting after_search
  search-none k r cells m o l = rw (o, l) refl

  -- The release of a key that no message waits for.
  pub unuse-alone :
      (k : K) (r : ℕ) (m : ConflictManager K V)
      → get key_eq k m.keys_states ≡ some r
      → (m.cells r).using ≡ true
      → hash_order (m.cells r).waitingmsgs ≡ []
      → (m.cells r).waitingmsgs ≡ []
      → unuse_key key_eq hash_order k m
        ≡ ok
            (none, forgotten key_eq k (with_cell key_eq r (record (m.cells r) { using = false }) m))
  unfolding unuse_key
  unuse-alone k r m e u o l =
      let c =
        ap (λ c. c.waitingmsgs) (update-same m.cells r (record (m.cells r) { using = false })) in
      rw (e) (
        released_first k r m u
        ∙ search-none k r (update m.cells r (record (m.cells r) { using = false })) m
            (ap hash_order c ∙ o) (c ∙ l))

  find-first :
      (r id : ℕ) (ids : List ℕ) (v : V) (cells : ℕ → KeyStateInner K) (msgs : Map ℕ (WaitingMsg V))
      → (cells r).using ≡ false
      → get ℕ_discrete id msgs ≡ some (record { ks_v = some (r ∷ [], v); id = id })
      → find_msg r msgs (id ∷ ids) cells ≡ ok (some id, cells)
  unfolding find_msg any_using
  find-first r id ids v cells msgs u g = rw (g) (
      if-else (any_using (r ∷ []) cells) (find_msg r msgs ids cells) _ (ap (λ b. b || false) u)
      ∙ ap then_found (skip_searched r cells))
    where
      then_found : Outcome (ℕ → KeyStateInner K) → Outcome (Option ℕ × (ℕ → KeyStateInner K))
      then_found o = o >>= λ c. ok (some id, c)

  after-found :
      (k : K) (r id : ℕ) (v : V) (cells : ℕ → KeyStateInner K) (m : ConflictManager K V)
      → (cells r).k ≡ some k
      → get ℕ_discrete id m.waitingmsgs ≡ some (record { ks_v = some (r ∷ [], v); id = id })
      → after_search key_eq hash_order k r m (some id, cells)
        ≡ ok (
          some (k ∷ [], v),
          record m { waitingmsgs = remove ℕ_discrete id m.waitingmsgs; cells = cells },
        )
  unfolding after_search take_kv take_keys
  after-found k r id v cells m w g = rw (g, w) refl

  search-found :
      (k : K) (r id : ℕ) (ids : List ℕ) (v : V) (cells : ℕ → KeyStateInner K)
      (m : ConflictManager K V)
      → (cells r).using ≡ false
      → (cells r).k ≡ some k
      → hash_order (cells r).waitingmsgs ≡ id ∷ ids
      → contains id (cells r).waitingmsgs ≡ true
      → get ℕ_discrete id m.waitingmsgs ≡ some (record { ks_v = some (r ∷ [], v); id = id })
      → (try_get_stop_waiting_msg key_eq hash_order r m.waitingmsgs cells
          >>= after_search key_eq hash_order k r m)
        ≡ ok (
          some (k ∷ [], v),
          record m {
            waitingmsgs = remove ℕ_discrete id m.waitingmsgs;
            cells = handed_cells r id (in_use_cell r cells);
          },
        )
  unfolding try_get_stop_waiting_msg
  search-found k r id ids v cells m u w o c g =
      let done = handed_cells r id (in_use_cell r cells) in
      ap
        (λ ids.
          find_msg r m.waitingmsgs ids cells
          >>= stop_waiting r
          >>= after_search key_eq hash_order k r m)
        o
      ∙ ap (λ f. f >>= stop_waiting r >>= after_search key_eq hash_order k r m)
          (find-first r id ids v cells m.waitingmsgs u g)
      ∙ ap (λ f. f >>= after_search key_eq hash_order k r m) (stop-found r id cells u c)
      ∙ after-found k r id v done m
          (ap (λ c. c.k)
              (update-same (in_use_cell r cells) r (unlisting id (in_use_cell r cells r)))
            ∙ ap (λ c. c.k) (update-same cells r (record (cells r) { using = true }))
            ∙ w)
          g

  -- The release of a key hands it over to the first message in the order of the iteration.
  pub unuse-handed :
      (k : K) (r id : ℕ) (ids : List ℕ) (v : V) (m : ConflictManager K V)
      → get key_eq k m.keys_states ≡ some r
      → (m.cells r).using ≡ true
      → (m.cells r).k ≡ some k
      → hash_order (m.cells r).waitingmsgs ≡ id ∷ ids
      → contains id (m.cells r).waitingmsgs ≡ true
      → get ℕ_discrete id m.waitingmsgs ≡ some (record { ks_v = some (r ∷ [], v); id = id })
      → unuse_key key_eq hash_order k m
        ≡ ok (
          some (k ∷ [], v),
          record m {
            waitingmsgs = remove ℕ_discrete id m.waitingmsgs;
            cells =
                handed_cells r id
                  (in_use_cell r (update m.cells r (record (m.cells r) { using = false })));
          },
        )
  unfolding unuse_key
  unuse-handed k r id ids v m e u w o c g =
      let same = update-same m.cells r (record (m.cells r) { using = false }) in
      rw (e) (
        released_first k r m u
        ∙ search-found k r id ids v (update m.cells r (record (m.cells r) { using = false })) m
            (ap (λ c. c.using) same) (ap (λ c. c.k) same ∙ w)
            (ap (λ c. hash_order c.waitingmsgs) same ∙ o)
            (ap (λ c. contains id c.waitingmsgs) same ∙ c) g)
