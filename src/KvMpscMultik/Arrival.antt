-- ===== src/KvMpscMultik/Arrival.antt =====
-- kv_mpsc_multik.rs: the arrival of a message, and the invariant.
use mathlib.Core.Option.{some-injective}
use mathlib.Core.List.{reverse, reverse_aux}
use pa_queue_and_chan.Prelude.{
  ℕ, ◌+◌, ◌<◌, ◌≡◌, refl, sym, subst, ◌∙◌, inl, inr, arith, not, Option, none, some, List, [], ◌∷◌,
  get, insert, get-insert, is_some, ltb, Outcome, ok, ◌>>◌, assert, ℕ_discrete, count, Bool-cases,
  Option-cases, ok-injective,
}
use pa_queue_and_chan.KvMpscMultik.Conflict.{WaitingMsg, ConflictManager, id_bound}
use pa_queue_and_chan.KvMpscMultik.Manager.{
  new, new_waiting_msg, wait_keys, become_waiting, use_keys, conflicts, handle_new_msg,
}
use pa_queue_and_chan.KvMpscMultik.Cells.{flag, ite-yes, ite-no, none-some, panic-ok}
use pa_queue_and_chan.KvMpscMultik.Using.{Sound, Sound-held, Waiting, Waiting-other, Distinct}
use pa_queue_and_chan.KvMpscMultik.Taking.{ok_parts, use_keys-Sound}
use pa_queue_and_chan.KvMpscMultik.Waits.{Filling, wait_keys-Filling}

module _ {K : Type 0} (key_eq : Discrete K) where
  count-reverse_aux :
      (k : K) (xs ys : List K)
      → count key_eq k (reverse_aux xs ys) ≡ count key_eq k xs + count key_eq k ys
  unfolding count
  count-reverse_aux k [] ys = omega arith
  count-reverse_aux k (x ∷ xs) ys = omega (arith, count-reverse_aux k xs (x ∷ ys))

  pub count-reverse : (k : K) (ks : List K) → count key_eq k (reverse ks) ≡ count key_eq k ks
  unfolding count
  count-reverse k ks = omega (arith, count-reverse_aux k ks [])

module _ {K V : Type 0} (key_eq : Discrete K) where
  pub new-Sound : Sound key_eq (λ k. 0) (new {K = K} {V = V})
  unfolding new get flag
  new-Sound = record {
    mapped = λ k r e. absurd (none-some e);
    owns = λ k. refl;
    old = λ id k e. cc;
    msgs = λ id msg e. absurd (none-some e);
  }

  -- The manager once the next id is given out.
  abbrev pub counted : ConflictManager K V → ConflictManager K V
  counted m = record m { next_waitingmsg_id = m.next_waitingmsg_id + 1 }

  pub counted-Filling :
      (held : K → ℕ) (v : V) (all : List K) (m : ConflictManager K V)
      → Sound key_eq held m
      → Filling key_eq m.next_waitingmsg_id held v [] all
          (record { ks_v = some ([], v); id = m.next_waitingmsg_id })
          (counted m)
  unfolding count flag
  counted-Filling held v all m s = record {
    sound = record {
      mapped = s.mapped;
      owns = s.owns;
      old = λ id k p. omega (arith, s.old id k p);
      msgs = λ id msg g.
          let (lt, (rs, ks, w, e, waits, d)) = s.msgs id msg g in
          (
            omega (arith, lt),
            (rs, ks, w, e, Waiting-other key_eq m.waitingmsgs (m.next_waitingmsg_id + 1) waits, d),
          );
    };
    its_id = refl;
    refs = [];
    its_refs = refl;
    waiting = record {
      refs = tt;
      lists_all = λ k p. absurd (omega arith);
      only = λ k p. absurd (omega (arith, s.old m.next_waitingmsg_id k p));
    };
    absent = elim (Option-cases (get ℕ_discrete m.next_waitingmsg_id m.waitingmsgs)) [
      | inl e ↦ e
      | inr (msg, e) ↦ absurd (omega (arith, (s.msgs m.next_waitingmsg_id msg e).0))
    ];
    known = omega arith;
  }

  pub stored-Sound :
      (x : ℕ) (held : K → ℕ) (v : V) (ks : List K) (msg : WaitingMsg V) (m : ConflictManager K V)
      → Distinct key_eq ks
      → Filling key_eq x held v ks ks msg m
      → Sound key_eq held (record m { waitingmsgs = insert ℕ_discrete msg.id msg m.waitingmsgs })
  unfolding flag
  stored-Sound x held v ks msg m d f = record {
    mapped = f.sound.mapped;
    owns = f.sound.owns;
    old = f.sound.old;
    msgs = λ id other g. elim (ℕ_discrete msg.id id) [
      | yes p ↦
          let q : msg ≡ other = some-injective _ _ (
            sym (
              get-insert ℕ_discrete msg.id id msg m.waitingmsgs
              ∙ ite-yes (ℕ_discrete msg.id id) _ _ p)
            ∙ g) in
          (
            subst (λ y. y < m.next_waitingmsg_id) p f.known,
            (
              f.refs,
              ks,
              v,
              subst (λ (o : WaitingMsg V). o.ks_v ≡ some (f.refs, v)) q f.its_refs,
              Waiting-other key_eq _ _ (subst (λ y. Waiting key_eq m y f.refs ks ks) p f.waiting),
              d,
            ),
          )
      | no n ↦
          let (lt, (rs, js, w, e, waits, dj)) = f.sound.msgs id other (
            sym (
              get-insert ℕ_discrete msg.id id msg m.waitingmsgs
              ∙ ite-no (ℕ_discrete msg.id id) _ _ n)
            ∙ g) in
          (lt, (rs, js, w, e, Waiting-other key_eq _ _ waits, dj))
    ];
  }

  -- The last part of `become_waiting`.
  unfoldable pub store : WaitingMsg V × ConflictManager K V → Outcome (ConflictManager K V)
  store filled = do
    assert (not (is_some (get ℕ_discrete filled.0.id filled.1.waitingmsgs)))
    ok (record (filled.1) {
      waitingmsgs = insert ℕ_discrete filled.0.id filled.0 filled.1.waitingmsgs;
    })

  store-Sound :
      (x : ℕ) (held : K → ℕ) (v : V) (ks : List K) (msg : WaitingMsg V) (m m' : ConflictManager K V)
      → store (msg, m) ≡ ok m'
      → Distinct key_eq ks
      → Filling key_eq x held v ks ks msg m
      → Sound key_eq held m'
  unfolding store
  store-Sound x held v ks msg m m' h d f =
      subst (Sound key_eq held) (ok-injective (rw (f.absent) at h))
        (stored-Sound x held v ks msg m d f)

  pub become_waiting-Sound :
      (held : K → ℕ) (ks : List K) (v : V) (m m' : ConflictManager K V)
      → become_waiting key_eq ks v m ≡ ok m'
      → Distinct key_eq ks
      → Sound key_eq held m
      → Sound key_eq held m'
  unfolding become_waiting new_waiting_msg store count
  become_waiting-Sound held ks v m m' h d s =
      elim (Bool-cases (ltb (m.next_waitingmsg_id + 1) id_bound)) [
        | inr e ↦ absurd (panic-ok (rw (e) at h))
        | inl e ↦
            let msg : WaitingMsg V = record { ks_v = some ([], v); id = m.next_waitingmsg_id } in
            let (filled, h1, h2) =
              ok_parts (wait_keys key_eq (reverse ks) msg (counted m)) store m' (rw (e) at h) in
            store-Sound m.next_waitingmsg_id held v (reverse ks) filled.0 filled.1 m' h2
              (λ j. omega (arith, count-reverse key_eq j ks, d j))
              (wait_keys-Filling key_eq (reverse ks) [] (reverse ks) m.next_waitingmsg_id held v msg
                filled.0 (counted m) filled.1 h1 (λ j. omega arith)
                (counted-Filling held v (reverse ks) m s))
      ]

  -- The keys of a message that is returned.
  abbrev pub keys_taken : Option (List K × V) → List K
  keys_taken none = []
  keys_taken (some (ks, v)) = ks

  pub handle_new_msg-Sound :
      (held : K → ℕ) (ks : List K) (v : V) (m m' : ConflictManager K V) (r : Option (List K × V))
      → handle_new_msg key_eq ks v m ≡ ok (r, m')
      → Distinct key_eq ks
      → Sound key_eq held m
      → Sound key_eq (λ j. count key_eq j (keys_taken r) + held j) m'
  unfolding handle_new_msg count
  handle_new_msg-Sound held ks v m m' r h d s = elim (Bool-cases (conflicts key_eq ks m)) [
    | inl e ↦
        let (m1, h1, h2) =
          ok_parts (become_waiting key_eq ks v m) (λ x. ok (none, x)) (r, m') (rw (e) at h) in
        subst
          (λ (p : Option (List K × V) × ConflictManager K V).
            Sound key_eq (λ j. count key_eq j (keys_taken p.0) + held j) p.1)
          (ok-injective h2)
          (Sound-held key_eq held _ (λ j. omega arith) (become_waiting-Sound held ks v m m1 h1 d s))
    | inr e ↦
        let (m1, h1, h2) =
          ok_parts (use_keys key_eq ks m) (λ x. ok (some (ks, v), x)) (r, m') (rw (e) at h) in
        subst
          (λ (p : Option (List K × V) × ConflictManager K V).
            Sound key_eq (λ j. count key_eq j (keys_taken p.0) + held j) p.1)
          (ok-injective h2) (use_keys-Sound key_eq ks held m m1 h1 s).0
  ]
