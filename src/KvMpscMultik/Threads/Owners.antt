-- ===== src/KvMpscMultik/Threads/Owners.antt =====
-- kv_mpsc_multik.rs: who owns the keys in use, through the steps of `sync_pop`.
use pa_queue_and_chan.Prelude.{
  ℕ, ◌+◌, ◌≡◌, refl, sym, ap, subst, inl, inr, arith, true, Option, none, some, List, [], ◌∷◌,
  count, contains, carry, ok, Outcome-cases,
}
use pa_queue_and_chan.External.Setting.{Setting}
use pa_queue_and_chan.KvMpscMultik.Conflict.{ConflictManager}
use pa_queue_and_chan.KvMpscMultik.Manager.{handle_new_msg, unuse_key}
use pa_queue_and_chan.KvMpscMultik.Using.{Sound, Sound-held, Distinct}
use pa_queue_and_chan.KvMpscMultik.Arrival.{handle_new_msg-Sound, keys_taken}
use pa_queue_and_chan.KvMpscMultik.Searched.{unuse_key-Sound}
use pa_queue_and_chan.KvMpscMultik.Channels.{
  Channel, Receiver, Pc, drain, pop_q, waiting, done, panicked, At, after_call, sync_pop_step,
}

module _ (S : Setting) where
  open S use {K, V, key_eq, queues as Q}

  -- The keys of the message that `sync_pop` is about to return.
  abbrev pub returned : Pc S → List K
  returned (done r) = keys_taken key_eq r
  returned _ = []

  abbrev pub pc_returned : Option (Pc S) → List K
  pc_returned none = []
  pc_returned (some p) = returned p

  -- `sync_pop` has not panicked.
  abbrev pub IsCalm : Pc S → Type 0
  IsCalm panicked = ⊥
  IsCalm _ = Unit

  -- The queued messages have no doubled keys.
  abbrev pub AllDistinct : List (List K × V) → Type 0
  AllDistinct [] = Unit
  AllDistinct ((ks, v) ∷ xs) = Distinct key_eq ks × AllDistinct xs

  -- Each key in use is held, or its release is queued, or its message is about to be returned; and
  -- no other key is.
  abbrev pub Owns : (K → ℕ) → Channel S → Receiver S → List K → Type 0
  Owns held c r out =
      Sound key_eq (λ k. held k + count key_eq k (Q.entries c.drop_key_q) + count key_eq k out)
        r.conflict_manager

module _ (S : Setting) (hash_order : List ℕ → List ℕ) where
  open S use {K, V, key_eq, queues as Q}

  abbrev pub IsQuiet : Pc S → Type 0
  IsQuiet drain = ⊥
  IsQuiet pop_q = ⊥
  IsQuiet _ = Unit

  pub quiet :
      (c : Channel S) (r : Receiver S) (p : Pc S) (n : At S hash_order)
      → IsQuiet p
      → sync_pop_step S hash_order c r p ≡ some n
      → (n.1.conflict_manager ≡ r.conflict_manager)
        × (n.0.q ≡ c.q)
        × (n.0.drop_key_q ≡ c.drop_key_q)
        × (returned S n.2 ≡ [])
        × (returned S p ≡ [])
  unfolding sync_pop_step
  quiet c r drain n i h = absurd i
  quiet c r (waiting l) n i h = ground arith
  quiet c r p n i h = ground arith

  -- What follows a call of the manager that succeeds.
  after_call-Owns :
      (held : K → ℕ) (c : Channel S) (r : Receiver S) (p : Pc S) (m : ConflictManager K V)
      (res : Option (List K × V))
      → returned S p ≡ []
      → Sound key_eq
          (λ k.
            count key_eq k (keys_taken key_eq res)
            + (held k + count key_eq k (Q.entries c.drop_key_q)))
          m
      → AllDistinct S (Q.entries c.q)
      → let n = after_call S hash_order c r p (ok (res, m)) in
        Owns S held n.0 n.1 (returned S n.2) × AllDistinct S (Q.entries n.0.q)
  unfolding after_call count
  after_call-Owns held c r p m none e s d =
      (Sound-held key_eq _ _ (λ k. omega (arith, ap (count key_eq k) e)) s, d)
  after_call-Owns held c r p m (some res) e s d = (Sound-held key_eq _ _ (λ k. omega arith) s, d)

  module _
      (lists_no_other : (id : ℕ) (ids : List ℕ)
        → contains id (hash_order ids) ≡ true
        → contains id ids ≡ true) where
    abbrev AtOwns : (K → ℕ) → At S hash_order → Type 0
    AtOwns held n =
        IsCalm S n.2 → Owns S held n.0 n.1 (returned S n.2) × AllDistinct S (Q.entries n.0.q)

    pub sync_pop-Owns :
        (held : K → ℕ) (c : Channel S) (r : Receiver S) (p : Pc S) (n : At S hash_order)
        → sync_pop_step S hash_order c r p ≡ some n
        → Owns S held c r (returned S p)
        → AllDistinct S (Q.entries c.q)
        → AtOwns held n
    unfolding sync_pop_step count after_call
    sync_pop-Owns held c r drain n h o d = elim (Q.pop-Pops c.drop_key_q) [
      | inl (e, pe) ↦ carry (AtOwns held) (rw (pe, sync_pop_step) at h) (λ _. (o, d))
      | inr (k, rest, e, pe) ↦
          elim (Outcome-cases (unuse_key key_eq hash_order k r.conflict_manager)) [
            | inl f ↦ carry (AtOwns held) (rw (pe, sync_pop_step, f) at h) (λ z. absurd z)
            | inr ((res, m), f) ↦ carry (AtOwns held) (rw (pe, sync_pop_step, f) at h) (λ _.
                after_call-Owns held (record c { drop_key_q = rest }) r drain m res refl
                  (unuse_key-Sound key_eq hash_order lists_no_other
                    (λ j. held j + count key_eq j (Q.entries rest)) k r.conflict_manager m res f
                    (Sound-held key_eq _ _ (λ j. omega (arith, ap (count key_eq j) e)) o))
                  d)
          ]
    ]
    sync_pop-Owns held c r pop_q n h o d = elim (Q.pop-Pops c.q) [
      | inl (e, pe) ↦ carry (AtOwns held) (rw (pe, sync_pop_step) at h) (λ _. (o, d))
      | inr ((ks, v), rest, e, pe) ↦
          let (dk, drest) = subst (AllDistinct S) e d in
          elim (Outcome-cases (handle_new_msg key_eq ks v r.conflict_manager)) [
            | inl f ↦ carry (AtOwns held) (rw (pe, sync_pop_step, f) at h) (λ z. absurd z)
            | inr ((res, m), f) ↦ carry (AtOwns held) (rw (pe, sync_pop_step, f) at h) (λ _.
                after_call-Owns held (record c { q = rest }) r drain m res refl
                  (handle_new_msg-Sound key_eq
                    (λ j. held j + count key_eq j (Q.entries c.drop_key_q)) ks v r.conflict_manager
                    m res f dk (Sound-held key_eq _ _ (λ j. omega arith) o))
                  drest)
          ]
    ]
    sync_pop-Owns held c r p n h o d =
        let (a, b, e, f, g) = quiet c r p n tt h in
        λ _. (
          subst (Sound key_eq _) (sym a) (
              Sound-held key_eq _ _
                (λ k. omega (
                  arith,
                  ap (count key_eq k) f,
                  ap (count key_eq k) g,
                  ap (λ x. count key_eq k (Q.entries x)) e,
                ))
                o),
          subst (λ x. AllDistinct S (Q.entries x)) (sym b) d,
        )
