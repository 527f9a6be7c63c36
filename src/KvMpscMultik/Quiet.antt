-- ===== src/KvMpscMultik/Quiet.antt =====
-- kv_mpsc_multik.rs: the conflict manager while no message waits.
use mathlib.Core.Logic.{ite}
use pa_queue_and_chan.Prelude.{
  ℕ, ◌+◌, ◌≡◌, refl, sym, ap, ◌∙◌, inl, inr, arith, true, false, Option, none, some, List, [], ◌∷◌,
  get, ok, subst, ok-injective, Bool-cases, count, contains, Option-cases,
}
use pa_queue_and_chan.KvMpscMultik.Conflict.{ConflictManager, set_use}
use pa_queue_and_chan.KvMpscMultik.Manager.{
  new, entry, use_keys, handle_new_msg, unuse_key, waitingmsgs_exist, conflicts, become_waiting,
}
use pa_queue_and_chan.KvMpscMultik.Cells.{
  with_cell, flag, flag-some, flag-none, ite-yes, update-same, set_use-ok, Mapped, none-some,
}
use pa_queue_and_chan.KvMpscMultik.Entry.{entry-Enters}
use pa_queue_and_chan.KvMpscMultik.Using.{weight, listed, Sound, Sound-held, Calm, Distinct}
use pa_queue_and_chan.KvMpscMultik.Taking.{ok_parts, with_cell-Calm, entry-Calm}
use pa_queue_and_chan.KvMpscMultik.Arrival.{new-Sound}
use pa_queue_and_chan.KvMpscMultik.Release.{in_store}
use pa_queue_and_chan.KvMpscMultik.Delivery.{flag-forgotten}
use pa_queue_and_chan.KvMpscMultik.Arrives.{arrival_cases}
use pa_queue_and_chan.KvMpscMultik.Entered.{weight-positive}
use pa_queue_and_chan.KvMpscMultik.Unheld.{using-held}
use pa_queue_and_chan.KvMpscMultik.Searched.{unuse_key-Sound}
use pa_queue_and_chan.KvMpscMultik.OneKey.Freed.{empty_list, not_contained}
use pa_queue_and_chan.KvMpscMultik.OneKey.Releasing.{unuse-alone}

module _ {K V : Type 0} (key_eq : Discrete K) where
  Calm-trans :
      {l m n : ConflictManager K V}
      → Calm key_eq none l m
      → Calm key_eq none m n
      → Calm key_eq none l n
  Calm-trans c d = record {
    still_mapped = d.still_mapped;
    keeps = λ j r e. d.keeps j r (c.keeps j r e);
    same_listed = λ id k n. d.same_listed id k n ∙ c.same_listed id k n;
    same_msgs = d.same_msgs ∙ c.same_msgs;
    same_id = d.same_id ∙ c.same_id;
  }

  Calm-refl : (m : ConflictManager K V) → Mapped key_eq m → Calm key_eq none m m
  Calm-refl m w = record {
    still_mapped = w;
    keeps = λ j r e. e;
    same_listed = λ id k n. refl;
    same_msgs = refl;
    same_id = refl;
  }

  use_keys-Calm :
      (ks : List K) (m m' : ConflictManager K V)
      → use_keys key_eq ks m ≡ ok m'
      → Mapped key_eq m
      → Calm key_eq none m m'
  unfolding use_keys
  use_keys-Calm [] m m' h w = subst (Calm key_eq none m) (ok-injective h) (Calm-refl m w)
  use_keys-Calm (k ∷ ks) m m' h w =
      let c = entry-Calm key_eq k m w in
      let e = entry-Enters key_eq k m w in
      let m1 = (entry key_eq k m).1 in
      let r = (entry key_eq k m).0 in
      let (cells, h1, h2) = ok_parts (set_use r m1.cells) _ m' h in
      let d =
        subst (λ x. Calm key_eq none m1 (in_store key_eq m1 x))
          (sym (set_use-ok r m1.cells cells h1).1)
          (with_cell-Calm key_eq k r (record (m1.cells r) { using = true }) m1 e.mapped e.found refl
            refl) in
      Calm-trans c (Calm-trans d (use_keys-Calm ks _ m' h2 d.still_mapped))

  -- The arrival of a message that is returned.
  returned-Calm :
      (ks : List K) (v : V) (m m' : ConflictManager K V)
      → handle_new_msg key_eq ks v m ≡ ok (some (ks, v), m')
      → Mapped key_eq m
      → Calm key_eq none m m'
  unfolding handle_new_msg
  returned-Calm ks v m m' h w = elim (Bool-cases (conflicts key_eq ks m)) [
    | inl e ↦
        let (m1, h1, h2) =
          ok_parts (become_waiting key_eq ks v m) (λ x. ok (none, x)) (some (ks, v), m')
            (rw (e) at h) in
        absurd (none-some (ap (λ p. p.0) (ok-injective h2)))
    | inr e ↦
        let (m1, h1, h2) =
          ok_parts (use_keys key_eq ks m) (λ x. ok (some (ks, v), x)) (some (ks, v), m')
            (rw (e) at h) in
        subst (λ (p : Option (List K × V) × ConflictManager K V). Calm key_eq none m p.1)
          (ok-injective h2) (use_keys-Calm ks m m1 h1 w)
  ]

  -- No message waits, and no state lists one.
  pub record Quiet (held : K → ℕ) (m : ConflictManager K V) : Type 0 where
    pub sound : Sound key_eq held m
    pub unlisted : (id : ℕ) (k : K) → listed key_eq id k m ≡ false
    pub no_msgs : m.waitingmsgs ≡ []
    pub no_ids : m.next_waitingmsg_id ≡ 0

  pub Quiet-held :
      {m : ConflictManager K V} (held held' : K → ℕ)
      → ((k : K) → held k ≡ held' k)
      → Quiet held m
      → Quiet held' m
  Quiet-held held held' e q = record {
    sound = Sound-held key_eq held held' e q.sound;
    unlisted = q.unlisted;
    no_msgs = q.no_msgs;
    no_ids = q.no_ids;
  }

  pub new-Quiet : Quiet (λ k. 0) (new {K = K} {V = V})
  unfolding new get flag
  new-Quiet = record {
    sound = new-Sound key_eq;
    unlisted = λ id k. refl;
    no_msgs = refl;
    no_ids = refl;
  }

  pub Quiet-waits :
      (held : K → ℕ) (m : ConflictManager K V) → Quiet held m → waitingmsgs_exist key_eq m ≡ false
  unfolding waitingmsgs_exist
  Quiet-waits held m q = rw (q.no_msgs) refl

  -- A message whose keys nobody holds is returned at once.
  pub arrival-Quiet :
      (ks : List K) (v : V) (m : ConflictManager K V)
      → Quiet (λ k. 0) m
      → Distinct key_eq ks
      → (m' : ConflictManager K V) × (handle_new_msg key_eq ks v m ≡ ok (some (ks, v), m'))
        × Quiet (λ k. count key_eq k ks) m'
  arrival-Quiet ks v m q d =
      elim (arrival_cases key_eq (λ k. 0) ks v m q.sound d (omega (arith, q.no_ids))) [
        | inl (k, p, z, rest) ↦ absurd (omega (arith, z))
        | inr (f, (m', h, s, same, _)) ↦ (
          m',
          h,
          record {
            sound = Sound-held key_eq _ _ (λ j. omega arith) s;
            unlisted = λ id k.
                (returned-Calm ks v m m' h q.sound.mapped).same_listed id k (λ n. cc)
                ∙ q.unlisted id k;
            no_msgs = same ∙ q.no_msgs;
            no_ids = (returned-Calm ks v m m' h q.sound.mapped).same_id ∙ q.no_ids;
          },
        )
      ]

module _ {K V : Type 0} (key_eq : Discrete K) (hash_order : List ℕ → List ℕ)
    (lists_same : (id : ℕ) (ids : List ℕ) → contains id (hash_order ids) ≡ contains id ids) where
  -- A key that is released is free, and its state is dropped.
  pub release-Quiet :
      (held : K → ℕ) (k : K) (m : ConflictManager K V)
      → Quiet key_eq (λ j. ite (key_eq k j) 1 0 + held j) m
      → (m' : ConflictManager K V) × (unuse_key key_eq hash_order k m ≡ ok (none, m'))
        × Quiet key_eq held m'
  unfolding count
  release-Quiet held k m q = elim (Option-cases (get key_eq k m.keys_states)) [
    | inl e ↦ absurd (
        omega (
          arith,
          q.sound.owns k,
          ap weight (flag-none key_eq (λ c. c.using) k m e),
          ite-yes {A = ℕ} (key_eq k k) 1 0 refl,
        ))
    | inr (r, e) ↦
        let at_k =
          using-held key_eq _ k r m q.sound e
          ∙ ap (λ n. n + held k) (ite-yes (key_eq k k) 1 0 refl) in
        let u = weight-positive (m.cells r).using (omega (arith, at_k)) in
        let l = empty_list (m.cells r).waitingmsgs (λ id.
          sym (flag-some key_eq (λ c. contains id c.waitingmsgs) k r m e) ∙ q.unlisted id k) in
        let o =
          empty_list (hash_order (m.cells r).waitingmsgs)
            (λ id. lists_same id (m.cells r).waitingmsgs ∙ ap (contains id) l ∙ not_contained id) in
        let c = record (m.cells r) { using = false } in
        let m1 = with_cell key_eq r c m in
        let calm = with_cell-Calm key_eq k r c m q.sound.mapped e refl refl in
        let h = unuse-alone key_eq hash_order k r m e u o l in
        (
          _,
          h,
          record {
            sound =
                Sound-held key_eq _ held (λ j. omega arith)
                  (unuse_key-Sound key_eq hash_order (λ id ids p. sym (lists_same id ids) ∙ p) held
                    k m _ none h q.sound);
            unlisted = λ id j.
                flag-forgotten key_eq (λ x. contains id x.waitingmsgs) k j r m1 e
                  (ap (λ x. contains id x.waitingmsgs) (update-same m.cells r c)
                    ∙ ap (contains id) l
                    ∙ not_contained id)
                ∙ calm.same_listed id j (λ n. cc)
                ∙ q.unlisted id j;
            no_msgs = q.no_msgs;
            no_ids = q.no_ids;
          },
        )
  ]
