-- ===== src/KvMpscMultik/Waits.antt =====
-- kv_mpsc_multik.rs: a message that becomes a waiting message.
use mathlib.Core.Option.{some-injective}
use pa_queue_and_chan.Prelude.{
  ℕ, ◌+◌, ◌<◌, ◌≡◌, ◌≢◌, refl, sym, ap, subst, ◌∙◌, arith, true, none, some, List, [], ◌∷◌, ◌++◌,
  Map, get, ok, ℕ_discrete, count, count-append, append-nil, append_assoc, contains, without,
  ok-injective,
}
use pa_queue_and_chan.KvMpscMultik.Conflict.{
  KeyStateInner, WaitingMsg, ConflictManager, add_kstate, add_waitingmsg, new_state,
}
use pa_queue_and_chan.KvMpscMultik.Manager.{wait_keys, entry}
use pa_queue_and_chan.KvMpscMultik.Entry.{Enters, entry-Enters}
use pa_queue_and_chan.KvMpscMultik.Cells.{
  Mapped, with_cell, with_cell-Mapped, flag, flag-some, flag-with_cell, ite-yes, ite-no, none-some,
}
use pa_queue_and_chan.KvMpscMultik.Using.{
  weight, listed, Sound, Calm, Sound-Calm, Waiting, Waiting-Calm, AllMapped,
}
use pa_queue_and_chan.KvMpscMultik.Taking.{entry-Calm}

pub contains-without : (x id : ℕ) (l : List ℕ) → x ≢ id → contains id (without x l) ≡ contains id l
unfolding contains without
contains-without x id [] d = refl
contains-without x id (j ∷ l) d = ground (arith, contains-without x id l d)

pub contains-first : (id : ℕ) (l : List ℕ) → contains id (id ∷ l) ≡ true
unfolding contains
contains-first id l = ground arith

contains-later : (x id : ℕ) (l : List ℕ) → x ≢ id → contains id (x ∷ l) ≡ contains id l
unfolding contains
contains-later x id l d = ground arith

-- The state lists the id `x` first.
abbrev pub listing : {K : Type 0} → ℕ → KeyStateInner K → KeyStateInner K
listing x c = record c { waitingmsgs = x ∷ without x c.waitingmsgs }

module _ {K : Type 0} (key_eq : Discrete K) where
  AllMapped-snoc :
      (s : Map K ℕ) (r : ℕ) (k : K) (rs : List ℕ) (ks : List K)
      → AllMapped key_eq s rs ks
      → get key_eq k s ≡ some r
      → AllMapped key_eq s (rs ++ r ∷ []) (ks ++ k ∷ [])
  AllMapped-snoc s r k [] [] a e = (e, tt)
  AllMapped-snoc s r k (q ∷ rs) (j ∷ ks) a e = (a.0, AllMapped-snoc s r k rs ks a.1 e)
  AllMapped-snoc s r k [] (j ∷ ks) a e = absurd a
  AllMapped-snoc s r k (q ∷ rs) [] a e = absurd a

module _ {K V : Type 0} (key_eq : Discrete K) where
  pub Sound-but :
      {m m' : ConflictManager K V} (x : ℕ) (held : K → ℕ)
      → Calm key_eq (some x) m m'
      → ((k : K) → flag key_eq (λ c. c.using) k m' ≡ flag key_eq (λ c. c.using) k m)
      → get ℕ_discrete x m.waitingmsgs ≡ none
      → x < m.next_waitingmsg_id
      → Sound key_eq held m
      → Sound key_eq held m'
  Sound-but {m} {m'} x held c o n b s = record {
    mapped = c.still_mapped;
    owns = λ k. ap weight (o k) ∙ s.owns k;
    old = λ id k p. rw (c.same_id) (elim (ℕ_discrete x id) [
      | yes q ↦ subst (λ y. y < m.next_waitingmsg_id) q b
      | no d ↦ s.old id k (sym (c.same_listed id k (λ e. d (cc))) ∙ p)
    ]);
    msgs = λ id msg g.
        let old = rw (c.same_msgs) at g in
        let (lt, (rs, ks, v, e, w, d)) = s.msgs id msg old in
        (
          rw (c.same_id) lt,
          (
            rs,
            ks,
            v,
            e,
            Waiting-Calm key_eq id rs ks ks
                (λ q. none-some (
                  sym n
                  ∙ subst (λ y. get ℕ_discrete y m.waitingmsgs ≡ some msg)
                      (sym (some-injective _ _ q)) old))
                c w,
            d,
          ),
        );
  }

  pub listing-Calm :
      (x : ℕ) (k : K) (r : ℕ) (m : ConflictManager K V)
      → Mapped key_eq m
      → get key_eq k m.keys_states ≡ some r
      → Calm key_eq (some x) m (with_cell key_eq r (listing x (m.cells r)) m)
  listing-Calm x k r m w e = record {
    still_mapped = with_cell-Mapped key_eq k r (listing x (m.cells r)) m w e refl;
    keeps = λ j s g. g;
    same_listed = λ id j d.
        flag-with_cell key_eq (λ c. contains id c.waitingmsgs) k j r (listing x (m.cells r)) m w e
        ∙ elim (key_eq k j) [
          | yes p ↦
              ite-yes (key_eq k j) _ _ p
              ∙ contains-later x id _ (λ q. d (ap some q))
              ∙ contains-without x id _ (λ q. d (ap some q))
              ∙ sym (flag-some key_eq (λ c. contains id c.waitingmsgs) k r m e)
              ∙ ap (λ y. listed key_eq id y m) p
          | no n ↦ ite-no (key_eq k j) _ _ n
        ];
    same_msgs = refl;
    same_id = refl;
  }

  listing-Waiting :
      (x : ℕ) (k : K) (r : ℕ) (rs : List ℕ) (ks all : List K) (m : ConflictManager K V)
      → Mapped key_eq m
      → get key_eq k m.keys_states ≡ some r
      → 0 < count key_eq k all
      → Waiting key_eq m x rs ks all
      → Waiting key_eq
          (with_cell key_eq r (listing x (m.cells r)) m)
          x
          (rs ++ r ∷ [])
          (ks ++ k ∷ [])
          all
  unfolding count
  listing-Waiting x k r rs ks all m w e h v = record {
    refs = AllMapped-snoc key_eq m.keys_states r k rs ks v.refs e;
    lists_all = λ j p.
        flag-with_cell key_eq (λ c. contains x c.waitingmsgs) k j r (listing x (m.cells r)) m w e
        ∙ elim (key_eq k j) [
          | yes q ↦ ite-yes (key_eq k j) _ _ q ∙ contains-first x _
          | no n ↦
              ite-no (key_eq k j) _ _ n
              ∙ v.lists_all j (
                  omega (
                    arith,
                    p,
                    count-append key_eq j ks (k ∷ []),
                    ite-no {A = ℕ} (key_eq k j) 1 0 n,
                  ))
        ];
    only = λ j p. elim (key_eq k j) [
      | yes q ↦ subst (λ y. 0 < count key_eq y all) q h
      | no n ↦ v.only j (
          sym (ite-no (key_eq k j) _ _ n)
          ∙ sym (
              flag-with_cell key_eq (λ c. contains x c.waitingmsgs) k j r (listing x (m.cells r)) m
                w e)
          ∙ p)
    ];
  }

  -- What stays true while the keys of a new waiting message are entered.
  pub record Filling (x : ℕ) (held : K → ℕ) (v : V) (done all : List K) (msg : WaitingMsg V)
      (m : ConflictManager K V) : Type 0 where
    pub sound : Sound key_eq held m
    pub its_id : msg.id ≡ x
    pub refs : List ℕ
    pub its_refs : msg.ks_v ≡ some (refs, v)
    pub waiting : Waiting key_eq m msg.id refs done all
    pub absent : get ℕ_discrete msg.id m.waitingmsgs ≡ none
    pub known : msg.id < m.next_waitingmsg_id

  pub listing-using :
      (x : ℕ) (k j : K) (r : ℕ) (m : ConflictManager K V)
      → Mapped key_eq m
      → get key_eq k m.keys_states ≡ some r
      → flag key_eq (λ c. c.using) j (with_cell key_eq r (listing x (m.cells r)) m)
        ≡ flag key_eq (λ c. c.using) j m
  listing-using x k j r m w e =
      flag-with_cell key_eq (λ c. c.using) k j r (listing x (m.cells r)) m w e ∙ elim (key_eq k j) [
        | yes p ↦
            ite-yes (key_eq k j) _ _ p
            ∙ sym (flag-some key_eq (λ c. c.using) k r m e)
            ∙ ap (λ y. flag key_eq (λ c. c.using) y m) p
        | no n ↦ ite-no (key_eq k j) _ _ n
      ]

  Filling-key :
      (x : ℕ) (held : K → ℕ) (v : V) (k : K) (done all : List K) (msg : WaitingMsg V)
      (m : ConflictManager K V) (r : ℕ) (m1 : ConflictManager K V)
      → Enters key_eq k m (r, m1)
      → Calm key_eq none m m1
      → 0 < count key_eq k all
      → (f : Filling x held v done all msg m)
      → Filling x held v
          (done ++ k ∷ [])
          all
          (record msg { ks_v = some (f.refs ++ r ∷ [], v) })
          (with_cell key_eq r (listing msg.id (m1.cells r)) m1)
  unfolding new_state
  Filling-key x held v k done all msg m r m1 e c h f =
      let gone : get ℕ_discrete msg.id m1.waitingmsgs ≡ none = rw (c.same_msgs) f.absent in
      let known1 : msg.id < m1.next_waitingmsg_id = rw (c.same_id) f.known in
      let s1 =
        Sound-Calm key_eq held held c
          (λ j. ap weight (e.flags (λ y. y.using) refl j) ∙ f.sound.owns j) f.sound in
      let w1 = Waiting-Calm key_eq msg.id f.refs done all (λ q. none-some q) c f.waiting in
      record {
        sound =
            Sound-but msg.id held (listing-Calm msg.id k r m1 e.mapped e.found)
              (λ j. listing-using msg.id k j r m1 e.mapped e.found) gone known1 s1;
        its_id = f.its_id;
        refs = f.refs ++ r ∷ [];
        its_refs = refl;
        waiting = listing-Waiting msg.id k r f.refs done all m1 e.mapped e.found h w1;
        absent = gone;
        known = known1;
      }

  pub wait_keys-Filling :
      (todo done all : List K) (x : ℕ) (held : K → ℕ) (v : V) (msg msg' : WaitingMsg V)
      (m m' : ConflictManager K V)
      → wait_keys key_eq todo msg m ≡ ok (msg', m')
      → ((j : K) → count key_eq j done + count key_eq j todo ≡ count key_eq j all)
      → Filling x held v done all msg m
      → Filling x held v (done ++ todo) all msg' m'
  unfolding wait_keys count add_kstate add_waitingmsg
  wait_keys-Filling [] done all x held v msg msg' m m' h c f =
      subst (λ p. Filling x held v (done ++ []) all p.0 p.1) (ok-injective h)
        (subst (λ d. Filling x held v d all msg m) (sym (append-nil done)) f)
  wait_keys-Filling (k ∷ todo) done all x held v msg msg' m m' h c f =
      let e = entry-Enters key_eq k m f.sound.mapped in
      let g =
        Filling-key x held v k done all msg m (entry key_eq k m).0 (entry key_eq k m).1 e
          (entry-Calm key_eq k m f.sound.mapped)
          (omega (arith, c k, ite-yes {A = ℕ} (key_eq k k) 1 0 refl)) f in
      subst (λ d. Filling x held v d all msg' m') (append_assoc done (k ∷ []) todo)
        (wait_keys-Filling todo (done ++ k ∷ []) all x held v _ msg' _ m' (rw (f.its_refs) at h)
          (λ j. omega (arith, c j, count-append key_eq j done (k ∷ []))) g)
