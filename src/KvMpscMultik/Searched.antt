-- ===== src/KvMpscMultik/Searched.antt =====
-- kv_mpsc_multik.rs: the release of a key, after its search, and the invariant.
use mathlib.Core.Logic.{ite}
use mathlib.Core.Option.{some-injective}
use mathlib.Core.List.{reverse, reverse_aux}
use pa_queue_and_chan.Prelude.{
  ℕ, ◌+◌, ◌<◌, ◌≡◌, refl, sym, ap, subst, ◌∙◌, inl, inr, arith, true, false, Option, none, some,
  List, [], ◌∷◌, Map, get, remove, is_empty, ok, ◌>>=◌, ℕ_discrete, count, contains, Bool-cases,
  Option-cases, ok-injective,
}
use pa_queue_and_chan.KvMpscMultik.Conflict.{
  KeyStateInner, WaitingMsg, ConflictManager, update, take_keys, take_kv, set_use, set_unuse,
  try_set_all, find_msg, remove_waitingmsg,
}
use pa_queue_and_chan.KvMpscMultik.Manager.{
  stop_waiting, try_get_stop_waiting_msg, after_search, unuse_key,
}
use pa_queue_and_chan.KvMpscMultik.Cells.{with_cell, flag-some, set_unuse-ok, panic-ok, update-eq}
use pa_queue_and_chan.KvMpscMultik.Using.{Sound, Sound-held, AllMapped}
use pa_queue_and_chan.KvMpscMultik.Taking.{ok_parts, set_use-Sound}
use pa_queue_and_chan.KvMpscMultik.Arrival.{keys_taken, count-reverse}
use pa_queue_and_chan.KvMpscMultik.Release.{
  in_store, set_unuse-Sound, find_msg-none, find_msg-some, try_set_all-Sound, take_keys-AllMapped,
}
use pa_queue_and_chan.KvMpscMultik.Delivery.{
  unlisting, unlisting-Calm, unlisting-using, removed-Sound, forgotten-Sound,
}

module _ {K : Type 0} (key_eq : Discrete K) where
  pub AllMapped-reverse_aux :
      (s : Map K ℕ) (rs qs : List ℕ) (ks js : List K)
      → AllMapped key_eq s rs ks
      → AllMapped key_eq s qs js
      → AllMapped key_eq s (reverse_aux rs qs) (reverse_aux ks js)
  AllMapped-reverse_aux s [] qs [] js a b = b
  AllMapped-reverse_aux s (r ∷ rs) qs (k ∷ ks) js a b =
      AllMapped-reverse_aux s rs (r ∷ qs) ks (k ∷ js) a.1 (a.0, b)
  AllMapped-reverse_aux s [] qs (k ∷ ks) js a b = absurd a
  AllMapped-reverse_aux s (r ∷ rs) qs [] js a b = absurd a

pub remove_waitingmsg-ok :
    {K : Type 0} (r id : ℕ) (cells cells' : ℕ → KeyStateInner K)
    → remove_waitingmsg r id cells ≡ ok cells'
    → cells' ≡ update cells r (unlisting id (cells r))
unfolding remove_waitingmsg
remove_waitingmsg-ok r id cells cells' h = elim (Bool-cases (contains id (cells r).waitingmsgs)) [
  | inl e ↦ sym (ok-injective (rw (e) at h))
  | inr e ↦ absurd (panic-ok (rw (e) at h))
]

[]-is_empty : {A : Type 0} (xs : List A) → is_empty xs ≡ true → xs ≡ []
[]-is_empty [] h = refl
[]-is_empty (x ∷ xs) h = cc

pub take_kv-ok :
    {K V : Type 0} (cells : ℕ → KeyStateInner K) (msg : WaitingMsg V) (rs : List ℕ) (ks : List K)
    (v : V)
    → msg.ks_v ≡ some (rs, v)
    → take_keys cells (reverse rs) ≡ ok ks
    → take_kv cells msg ≡ ok (ks, v)
unfolding take_kv
take_kv-ok cells msg rs ks v e t = rw (e, t) refl

-- The searched key is in the message once, and is taken last.
count-found : {P : Type 0} (d : Dec P) (n h : ℕ) → (P → n ≡ 1) → ite d 1 0 + (ite d 0 n + h) ≡ n + h
count-found (yes p) n h f = omega (arith, f p)
count-found (no d) n h f = omega arith

module _ {K V : Type 0} (key_eq : Discrete K) (hash_order : List ℕ → List ℕ)
    (lists_no_other : (id : ℕ) (ids : List ℕ)
      → contains id (hash_order ids) ≡ true
      → contains id ids ≡ true) where
  -- After the search has found nothing.
  none_found-Sound :
      (held : K → ℕ) (k : K) (r : ℕ) (m m' : ConflictManager K V) (cells : ℕ → KeyStateInner K)
      (res : Option (List K × V))
      → get key_eq k m.keys_states ≡ some r
      → (cells r).using ≡ false
      → Sound key_eq held (in_store key_eq m cells)
      → after_search key_eq hash_order k r m (none, cells) ≡ ok (res, m')
      → Sound key_eq (λ j. count key_eq j (keys_taken key_eq res) + held j) m'
  unfolding after_search count
  none_found-Sound held k r m m' cells res e u s h =
      elim (Bool-cases (is_empty (cells r).waitingmsgs)) [
        | inl q ↦ subst Returns (ok-injective (rw (q) at h)) (
            Sound-held key_eq held _ (λ j. omega arith)
              (forgotten-Sound key_eq held k r (in_store key_eq m cells) e u
                ([]-is_empty (cells r).waitingmsgs q) s))
        | inr q ↦
            subst Returns (ok-injective (rw (q) at h))
              (Sound-held key_eq held _ (λ j. omega arith) s)
      ]
    where
      Returns : Option (List K × V) × ConflictManager K V → Type 0
      Returns p = Sound key_eq (λ j. count key_eq j (keys_taken key_eq p.0) + held j) p.1

  -- After the search has found the message `id`.
  found-Sound :
      (held : K → ℕ) (k : K) (r id : ℕ) (m m' : ConflictManager K V)
      (cells cells2 : ℕ → KeyStateInner K) (found : Option ℕ × (ℕ → KeyStateInner K))
      (res : Option (List K × V))
      → get key_eq k m.keys_states ≡ some r
      → Sound key_eq held (in_store key_eq m cells)
      → find_msg r m.waitingmsgs (hash_order (cells r).waitingmsgs) cells ≡ ok (some id, cells2)
      → stop_waiting r (some id, cells2) ≡ ok found
      → after_search key_eq hash_order k r m found ≡ ok (res, m')
      → Sound key_eq (λ j. count key_eq j (keys_taken key_eq res) + held j) m'
  unfolding after_search stop_waiting
  found-Sound held k r id m m' cells cells2 found res e s h1 h2 h3 =
      let (mem, (msg, ks_v, g, kv, set)) =
        find_msg-some key_eq r id m.waitingmsgs (hash_order (cells r).waitingmsgs) cells cells2
          h1 in
      let (lt, (rs, ks, v, refs_v, w, d)) = s.msgs id msg g in
      let set' : try_set_all r rs cells ≡ ok cells2 =
        subst (λ (x : List ℕ × V). try_set_all r x.0 cells ≡ ok cells2)
          (some-injective _ _ (sym kv ∙ refs_v)) set in
      let s2 =
        try_set_all-Sound key_eq rs ks held k r (in_store key_eq m cells) cells2 e w.refs set' s in
      let (c3, a1, a2) =
        ok_parts (set_use r cells2) (λ c. remove_waitingmsg r id c >>= λ c'. ok (some id, c')) found
          h2 in
      let (c4, b1, b2) = ok_parts (remove_waitingmsg r id c3) (λ c'. ok (some id, c')) found a2 in
      let has_k = w.only k (
        flag-some key_eq (λ c. contains id c.waitingmsgs) k r (in_store key_eq m cells) e
        ∙ lists_no_other id _ mem) in
      let s3 =
        Sound-held key_eq _ (λ j. count key_eq j ks + held j)
          (λ j.
            count-found (key_eq k j) (count key_eq j ks) (held j)
              (λ p. omega (arith, subst (λ y. 0 < count key_eq y ks) p has_k, d j)))
          (set_use-Sound key_eq _ k r (in_store key_eq m cells2) c3 e a1 s2).0 in
      let s5 =
        removed-Sound key_eq {m = in_store key_eq m c3}
          {m' = with_cell key_eq r (unlisting id (c3 r)) (in_store key_eq m c3)} id _
          (unlisting-Calm key_eq id k r (in_store key_eq m c3) s3.mapped e)
          (λ j. unlisting-using key_eq id k j r (in_store key_eq m c3) s3.mapped e) lt s3 in
      let s6 =
        subst
          (λ c.
            Sound key_eq (λ j. count key_eq j ks + held j)
              (record m { waitingmsgs = remove ℕ_discrete id m.waitingmsgs; cells = c }))
          (sym (remove_waitingmsg-ok r id c3 c4 b1)) s5 in
      let taken =
        take_keys-AllMapped key_eq (reverse rs) (reverse ks)
          (record m { waitingmsgs = remove ℕ_discrete id m.waitingmsgs; cells = c4 }) s6.mapped
          (AllMapped-reverse_aux key_eq m.keys_states rs [] ks [] w.refs tt) in
      let h4 =
        subst (λ f. after_search key_eq hash_order k r m f ≡ ok (res, m')) (sym (ok-injective b2))
          h3 in
      subst
        (λ (p : Option (List K × V) × ConflictManager K V).
          Sound key_eq (λ j. count key_eq j (keys_taken key_eq p.0) + held j) p.1)
        (ok-injective (rw (g, take_kv-ok c4 msg rs (reverse ks) v refs_v taken) at h4))
        (Sound-held key_eq _ _ (λ j. omega (arith, count-reverse key_eq j ks)) s6)

  searched-Sound :
      (held : K → ℕ) (k : K) (r : ℕ) (m m' : ConflictManager K V) (cells : ℕ → KeyStateInner K)
      (fm found : Option ℕ × (ℕ → KeyStateInner K)) (res : Option (List K × V))
      → get key_eq k m.keys_states ≡ some r
      → (cells r).using ≡ false
      → Sound key_eq held (in_store key_eq m cells)
      → find_msg r m.waitingmsgs (hash_order (cells r).waitingmsgs) cells ≡ ok fm
      → stop_waiting r fm ≡ ok found
      → after_search key_eq hash_order k r m found ≡ ok (res, m')
      → Sound key_eq (λ j. count key_eq j (keys_taken key_eq res) + held j) m'
  unfolding stop_waiting
  searched-Sound held k r m m' cells (some id, cells2) found res e u s h1 h2 h3 =
      found-Sound held k r id m m' cells cells2 found res e s h1 h2 h3
  searched-Sound held k r m m' cells (none, cells2) found res e u s h1 h2 h3 =
      let same =
        find_msg-none key_eq r m.waitingmsgs (hash_order (cells r).waitingmsgs) cells cells2 h1 in
      none_found-Sound held k r m m' cells2 res e (subst (λ c. (c r).using ≡ false) same u)
        (subst (λ c. Sound key_eq held (in_store key_eq m c)) same s)
        (subst (λ f. after_search key_eq hash_order k r m f ≡ ok (res, m')) (sym (ok-injective h2))
          h3)

  pub unuse_key-Sound :
      (held : K → ℕ) (k : K) (m m' : ConflictManager K V) (res : Option (List K × V))
      → unuse_key key_eq hash_order k m ≡ ok (res, m')
      → Sound key_eq (λ j. ite (key_eq k j) 1 0 + held j) m
      → Sound key_eq (λ j. count key_eq j (keys_taken key_eq res) + held j) m'
  unfolding unuse_key try_get_stop_waiting_msg
  unuse_key-Sound held k m m' res h s = elim (Option-cases (get key_eq k m.keys_states)) [
    | inl e ↦ absurd (panic-ok (rw (e) at h))
    | inr (r, e) ↦
        let (cells, a1, a2) =
          ok_parts (set_unuse r m.cells)
            (λ c.
              try_get_stop_waiting_msg key_eq hash_order r m.waitingmsgs c
              >>= after_search key_eq hash_order k r m)
            (res, m') (rw (e) at h) in
        let (found, b1, b2) =
          ok_parts (try_get_stop_waiting_msg key_eq hash_order r m.waitingmsgs cells)
            (after_search key_eq hash_order k r m) (res, m') a2 in
        let (fm, c1, c2) =
          ok_parts (find_msg r m.waitingmsgs (hash_order (cells r).waitingmsgs) cells)
            (stop_waiting r) found b1 in
        searched-Sound held k r m m' cells fm found res e
          (ap (λ f. (f r).using) (set_unuse-ok r m.cells cells a1).1
            ∙ ap (λ c. c.using) (update-eq m.cells r r (record (m.cells r) { using = false }) refl))
          (set_unuse-Sound key_eq held k r m cells e a1 s) c1 c2 b2
  ]
