-- ===== src/KvMpscMultik/Delivery.antt =====
-- kv_mpsc_multik.rs: a message stops waiting, and a state that nothing needs is dropped.
use mathlib.Core.Option.{some-injective}
use pa_queue_and_chan.Prelude.{
  ℕ, ◌<◌, ◌≡◌, ◌≢◌, refl, sym, ap, subst, ◌∙◌, inl, inr, arith, Bool, true, false, some, List, [],
  ◌∷◌, get, remove, get-remove, ℕ_discrete, count, contains, without, Option-cases,
}
use pa_queue_and_chan.KvMpscMultik.Conflict.{KeyStateInner, ConflictManager}
use pa_queue_and_chan.KvMpscMultik.Cells.{
  Mapped, with_cell, with_cell-Mapped, flag, flag-some, flag-none, flag-with_cell, ite-yes, ite-no,
  none-some,
}
use pa_queue_and_chan.KvMpscMultik.Using.{
  weight, listed, Sound, Calm, Waiting-Calm, Waiting-other, AllMapped,
}
use pa_queue_and_chan.KvMpscMultik.Waits.{contains-without}

pub true-false : true ≡ false → ⊥
true-false h = cc

-- The state no longer lists the id `x`.
abbrev pub unlisting : {K : Type 0} → ℕ → KeyStateInner K → KeyStateInner K
unlisting x c = record c { waitingmsgs = without x c.waitingmsgs }

module _ {K V : Type 0} (key_eq : Discrete K) where
  pub unlisting-Calm :
      (x : ℕ) (k : K) (r : ℕ) (m : ConflictManager K V)
      → Mapped key_eq m
      → get key_eq k m.keys_states ≡ some r
      → Calm key_eq (some x) m (with_cell key_eq r (unlisting x (m.cells r)) m)
  unlisting-Calm x k r m w e = record {
    still_mapped = with_cell-Mapped key_eq k r (unlisting x (m.cells r)) m w e refl;
    keeps = λ j s g. g;
    same_listed = λ id j d.
        flag-with_cell key_eq (λ c. contains id c.waitingmsgs) k j r (unlisting x (m.cells r)) m w e
        ∙ elim (key_eq k j) [
          | yes p ↦
              ite-yes (key_eq k j) _ _ p
              ∙ contains-without x id _ (λ q. d (ap some q))
              ∙ sym (flag-some key_eq (λ c. contains id c.waitingmsgs) k r m e)
              ∙ ap (λ y. listed key_eq id y m) p
          | no n ↦ ite-no (key_eq k j) _ _ n
        ];
    same_msgs = refl;
    same_id = refl;
  }

  pub unlisting-using :
      (x : ℕ) (k j : K) (r : ℕ) (m : ConflictManager K V)
      → Mapped key_eq m
      → get key_eq k m.keys_states ≡ some r
      → flag key_eq (λ c. c.using) j (with_cell key_eq r (unlisting x (m.cells r)) m)
        ≡ flag key_eq (λ c. c.using) j m
  unlisting-using x k j r m w e =
      flag-with_cell key_eq (λ c. c.using) k j r (unlisting x (m.cells r)) m w e
      ∙ elim (key_eq k j) [
        | yes p ↦
            ite-yes (key_eq k j) _ _ p
            ∙ sym (flag-some key_eq (λ c. c.using) k r m e)
            ∙ ap (λ y. flag key_eq (λ c. c.using) y m) p
        | no n ↦ ite-no (key_eq k j) _ _ n
      ]

  -- The message `x` is no longer a waiting message.
  pub removed-Sound :
      {m m' : ConflictManager K V} (x : ℕ) (held : K → ℕ)
      → Calm key_eq (some x) m m'
      → ((k : K) → flag key_eq (λ c. c.using) k m' ≡ flag key_eq (λ c. c.using) k m)
      → x < m.next_waitingmsg_id
      → Sound key_eq held m
      → Sound key_eq held (record m' { waitingmsgs = remove ℕ_discrete x m'.waitingmsgs })
  unfolding flag
  removed-Sound {m} {m'} x held c o b s = record {
    mapped = c.still_mapped;
    owns = λ k. ap weight (o k) ∙ s.owns k;
    old = λ id k p. rw (c.same_id) (elim (ℕ_discrete x id) [
      | yes q ↦ subst (λ y. y < m.next_waitingmsg_id) q b
      | no d ↦ s.old id k (sym (c.same_listed id k (λ e. d (some-injective _ _ e))) ∙ p)
    ]);
    msgs = λ id msg g. elim (ℕ_discrete x id) [
      | yes q ↦ absurd (
          none-some
            (sym (get-remove ℕ_discrete x id m'.waitingmsgs ∙ ite-yes (ℕ_discrete x id) _ _ q) ∙ g))
      | no d ↦
          let g1 : get ℕ_discrete id m'.waitingmsgs ≡ some msg =
            sym (get-remove ℕ_discrete x id m'.waitingmsgs ∙ ite-no (ℕ_discrete x id) _ _ d) ∙ g in
          let (lt, (rs, ks, v, e, w, dk)) = s.msgs id msg (rw (c.same_msgs) at g1) in
          (
            rw (c.same_id) lt,
            (
              rs,
              ks,
              v,
              e,
              Waiting-other key_eq _ _
                  (Waiting-Calm key_eq id rs ks ks (λ e. d (some-injective _ _ e)) c w),
              dk,
            ),
          )
    ];
  }

  -- The manager without the state of the key.
  abbrev pub forgotten : K → ConflictManager K V → ConflictManager K V
  forgotten k m = record m { keys_states = remove key_eq k m.keys_states }

  pub get-forgotten :
      (k j : K) (s : ℕ) (m : ConflictManager K V)
      → get key_eq j (remove key_eq k m.keys_states) ≡ some s
      → get key_eq j m.keys_states ≡ some s
  get-forgotten k j s m g = elim (key_eq k j) [
    | yes p ↦
        absurd
          (none-some (sym (get-remove key_eq k j m.keys_states ∙ ite-yes (key_eq k j) _ _ p) ∙ g))
    | no d ↦ sym (get-remove key_eq k j m.keys_states ∙ ite-no (key_eq k j) _ _ d) ∙ g
  ]

  pub flag-forgotten :
      (f : KeyStateInner K → Bool) (k j : K) (r : ℕ) (m : ConflictManager K V)
      → get key_eq k m.keys_states ≡ some r
      → f (m.cells r) ≡ false
      → flag key_eq f j (forgotten k m) ≡ flag key_eq f j m
  flag-forgotten f k j r m e z = elim (key_eq k j) [
    | yes p ↦
        flag-none key_eq f j (forgotten k m)
          (get-remove key_eq k j m.keys_states ∙ ite-yes (key_eq k j) _ _ p)
        ∙ sym (flag-some key_eq f k r m e ∙ z)
        ∙ ap (λ y. flag key_eq f y m) p
    | no d ↦
        let same = get-remove key_eq k j m.keys_states ∙ ite-no (key_eq k j) _ _ d in
        elim (Option-cases (get key_eq j m.keys_states)) [
          | inl g ↦ flag-none key_eq f j (forgotten k m) (same ∙ g) ∙ sym (flag-none key_eq f j m g)
          | inr (s, g) ↦
              flag-some key_eq f j s (forgotten k m) (same ∙ g) ∙ sym (flag-some key_eq f j s m g)
        ]
  ]

  AllMapped-forgotten :
      (k : K) (rs : List ℕ) (ks : List K) (m : ConflictManager K V)
      → ((j : K) → 0 < count key_eq j ks → k ≢ j)
      → AllMapped key_eq m.keys_states rs ks
      → AllMapped key_eq (remove key_eq k m.keys_states) rs ks
  unfolding count
  AllMapped-forgotten k [] [] m d a = tt
  AllMapped-forgotten k (r ∷ rs) (j ∷ ks) m d a = (
    get-remove key_eq k j m.keys_states
        ∙ ite-no (key_eq k j) _ _ (d j (omega (arith, ite-yes {A = ℕ} (key_eq j j) 1 0 refl)))
        ∙ a.0,
    AllMapped-forgotten k rs ks m (λ i p. d i (omega (arith, p))) a.1,
  )
  AllMapped-forgotten k [] (j ∷ ks) m d a = absurd a
  AllMapped-forgotten k (r ∷ rs) [] m d a = absurd a

  pub forgotten-Sound :
      (held : K → ℕ) (k : K) (r : ℕ) (m : ConflictManager K V)
      → get key_eq k m.keys_states ≡ some r
      → (m.cells r).using ≡ false
      → (m.cells r).waitingmsgs ≡ []
      → Sound key_eq held m
      → Sound key_eq held (forgotten k m)
  unfolding contains
  forgotten-Sound held k r m e u l s =
      let lists : (id : ℕ) → contains id (m.cells r).waitingmsgs ≡ false =
        λ id. ap (contains id) l in
      let same : (id : ℕ) (j : K) → listed key_eq id j (forgotten k m) ≡ listed key_eq id j m =
        λ id j. flag-forgotten (λ c. contains id c.waitingmsgs) k j r m e (lists id) in
      record {
        mapped = λ j q g. s.mapped j q (get-forgotten k j q m g);
        owns = λ j. ap weight (flag-forgotten (λ c. c.using) k j r m e u) ∙ s.owns j;
        old = λ id j p. s.old id j (sym (same id j) ∙ p);
        msgs = λ id msg g.
            let (lt, (rs, ks, v, h, w, d)) = s.msgs id msg g in
            (
              lt,
              (
                rs,
                ks,
                v,
                h,
                record {
                  refs =
                      AllMapped-forgotten k rs ks m
                        (λ j p q. true-false (
                          sym (w.lists_all j p)
                          ∙ ap (λ y. listed key_eq id y m) (sym q)
                          ∙ flag-some key_eq (λ c. contains id c.waitingmsgs) k r m e
                          ∙ lists id))
                        w.refs;
                  lists_all = λ j p. same id j ∙ w.lists_all j p;
                  only = λ j p. w.only j (sym (same id j) ∙ p);
                },
                d,
              ),
            );
      }
