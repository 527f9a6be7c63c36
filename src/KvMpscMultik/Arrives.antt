-- ===== src/KvMpscMultik/Arrives.antt =====
-- kv_mpsc_multik.rs: what `handle_new_msg` does with a message that has no doubled keys.
use mathlib.Core.List.{reverse, reverse-reverse}
use pa_queue_and_chan.Prelude.{
  ℕ, ◌+◌, ◌≤◌, ◌<◌, ◌≡◌, ◌≢◌, ◌⊎◌, refl, sym, ap, subst, ◌∙◌, inl, inr, arith, true, false, none,
  some, List, [], get, insert, get-insert, ltb, ok, ℕ_discrete, count, Bool-cases,
}
use pa_queue_and_chan.KvMpscMultik.Conflict.{WaitingMsg, ConflictManager, id_bound, take_kv}
use pa_queue_and_chan.KvMpscMultik.Manager.{
  conflicts, new_waiting_msg, become_waiting, handle_new_msg,
}
use pa_queue_and_chan.KvMpscMultik.Cells.{ite-yes, ite-no}
use pa_queue_and_chan.KvMpscMultik.Frames.{IsWaiting, WaitOn}
use pa_queue_and_chan.KvMpscMultik.Kept.{StatesStay, IsWaiting-stays}
use pa_queue_and_chan.KvMpscMultik.Using.{Sound, Distinct}
use pa_queue_and_chan.KvMpscMultik.Taking.{use_keys-Sound}
use pa_queue_and_chan.KvMpscMultik.Waits.{wait_keys-Filling}
use pa_queue_and_chan.KvMpscMultik.Arrival.{
  counted, counted-Filling, store, stored-Sound, count-reverse,
}
use pa_queue_and_chan.KvMpscMultik.Release.{take_keys-AllMapped}
use pa_queue_and_chan.KvMpscMultik.Exclusive.{weight-le}
use pa_queue_and_chan.KvMpscMultik.Searched.{AllMapped-reverse_aux, take_kv-ok}
use pa_queue_and_chan.KvMpscMultik.Entered.{
  conflicts-true, conflicts-false, use_keys-runs, wait_keys-runs, one_at_most,
}

module _ {K V : Type 0} (key_eq : Discrete K) where
  -- A message becomes a waiting message with the next id, and no other id is touched.
  abbrev pub Waits : List K → V → ConflictManager K V → ConflictManager K V → Type 0
  Waits ks v m m' =
      IsWaiting m' m.next_waitingmsg_id ks v
      × ((id : ℕ)
          → m.next_waitingmsg_id ≢ id
          → get ℕ_discrete id m'.waitingmsgs ≡ get ℕ_discrete id m.waitingmsgs)

  become_waiting-runs :
      (held : K → ℕ) (ks : List K) (v : V) (m : ConflictManager K V)
      → Sound key_eq held m
      → Distinct key_eq ks
      → m.next_waitingmsg_id + 1 < id_bound
      → (m' : ConflictManager K V) × (become_waiting key_eq ks v m ≡ ok m')
        × Sound key_eq held m'
        × Waits ks v m m'
        × StatesStay key_eq m m'
  unfolding become_waiting new_waiting_msg store count
  become_waiting-runs held ks v m s d b =
      let msg : WaitingMsg V = record { ks_v = some ([], v); id = m.next_waitingmsg_id } in
      let (msg', m1, h, same, stay) =
        wait_keys-runs key_eq (reverse ks) [] v msg (counted key_eq m) refl in
      let f =
        wait_keys-Filling key_eq (reverse ks) [] (reverse ks) m.next_waitingmsg_id held v msg msg'
          (counted key_eq m) m1 h (λ j. omega arith)
          (counted-Filling key_eq held v (reverse ks) m s) in
      let fits : ltb (m.next_waitingmsg_id + 1) id_bound ≡ true = ground arith in
      (
        record m1 { waitingmsgs = insert ℕ_discrete msg'.id msg' m1.waitingmsgs },
        rw (fits, h) (rw (f.absent) refl),
        stored-Sound key_eq m.next_waitingmsg_id held v (reverse ks) msg' m1
            (λ j. omega (arith, count-reverse key_eq j ks, d j)) f,
        (
          (
            msg',
            get-insert ℕ_discrete msg'.id m.next_waitingmsg_id msg' m1.waitingmsgs
                ∙ ite-yes (ℕ_discrete msg'.id m.next_waitingmsg_id) _ _ f.its_id,
            subst (λ js. take_kv m1.cells msg' ≡ ok (js, v)) (reverse-reverse ks)
                (take_kv-ok m1.cells msg' f.refs (reverse (reverse ks)) v f.its_refs (
                  take_keys-AllMapped key_eq (reverse f.refs) (reverse (reverse ks)) m1
                    f.sound.mapped
                    (AllMapped-reverse_aux key_eq m1.keys_states f.refs [] (reverse ks) []
                      f.waiting.refs tt))),
          ),
          (λ id n.
              get-insert ℕ_discrete msg'.id id msg' m1.waitingmsgs
              ∙ ite-no (ℕ_discrete msg'.id id) _ _ (λ p. n (sym f.its_id ∙ p))
              ∙ ap (get ℕ_discrete id) same),
        ),
        stay,
      )

  -- An id that is not given out yet is not of a waiting message.
  pub old-ids :
      (held : K → ℕ) (m : ConflictManager K V) (id : ℕ) (ks : List K) (v : V)
      → Sound key_eq held m
      → IsWaiting m id ks v
      → m.next_waitingmsg_id ≢ id
  old-ids held m id ks v s (msg, g, t) p = omega (arith, (s.msgs id msg g).0)

  -- What an arrival does: the message becomes a waiting message if some key of it is held, and is
  -- returned, so that it holds its keys, if none is.
  abbrev pub Arrives : (K → ℕ) → List K → V → ConflictManager K V → Type 0
  Arrives held ks v m =
      ((k : K) × (0 < count key_eq k ks)
        × (0 < held k)
        × ((m' : ConflictManager K V) × (handle_new_msg key_eq ks v m ≡ ok (none, m'))
            × Sound key_eq held m'
            × Waits ks v m m'
            × WaitOn m m'))
      ⊎ (((k : K) → 0 < count key_eq k ks → held k ≡ 0)
          × ((m' : ConflictManager K V) × (handle_new_msg key_eq ks v m ≡ ok (some (ks, v), m'))
              × Sound key_eq (λ k. count key_eq k ks + held k) m'
              × (m'.waitingmsgs ≡ m.waitingmsgs)
              × WaitOn m m'))

  -- The second case, which needs no id.
  pub free-Arrives :
      (held : K → ℕ) (ks : List K) (v : V) (m : ConflictManager K V)
      → Sound key_eq held m
      → Distinct key_eq ks
      → conflicts key_eq ks m ≡ false
      → ((k : K) → 0 < count key_eq k ks → held k ≡ 0)
        × ((m' : ConflictManager K V) × (handle_new_msg key_eq ks v m ≡ ok (some (ks, v), m'))
            × Sound key_eq (λ k. count key_eq k ks + held k) m'
            × (m'.waitingmsgs ≡ m.waitingmsgs)
            × WaitOn m m')
  unfolding handle_new_msg
  free-Arrives held ks v m s d e =
      let free = conflicts-false key_eq held ks m s e in
      let (m', h, same, stay) =
        use_keys-runs key_eq ks held m s
          (λ k. one_at_most _ _ (d k) (subst (λ n. n ≤ 1) (s.owns k) (weight-le _)) (free k)) in
      let s' = (use_keys-Sound key_eq ks held m m' h s).0 in
      (
        free,
        (
          m',
          rw (e, h) refl,
          s',
          same,
          (λ id js u x.
              IsWaiting-stays key_eq held m m' id js u s s'.mapped stay
                (ap (get ℕ_discrete id) same) x),
        ),
      )

  -- The arrival of a message without doubled keys, on a manager whose flags are those of the held
  -- keys, succeeds as long as ids are left: if some key of it is held, it becomes a waiting message
  -- with the next id, from which its keys, in their order, and its value can be taken, and nothing
  -- is returned; if none is, it is returned and its keys become keys in use. No other waiting
  -- message is touched, each waits on with its keys and its value, and the flags are again those of
  -- the held keys.
  pub arrival_cases :
      (held : K → ℕ) (ks : List K) (v : V) (m : ConflictManager K V)
      → Sound key_eq held m
      → Distinct key_eq ks
      → m.next_waitingmsg_id + 1 < id_bound
      → Arrives held ks v m
  unfolding handle_new_msg
  arrival_cases held ks v m s d b = elim (Bool-cases (conflicts key_eq ks m)) [
    | inl e ↦
        let (k, p, q) = conflicts-true key_eq held ks m s e in
        let (m', h, s', w, stay) = become_waiting-runs held ks v m s d b in
        inl (
          k,
          p,
          q,
          (
            m',
            rw (e, h) refl,
            s',
            w,
            (λ id js u x.
                IsWaiting-stays key_eq held m m' id js u s s'.mapped stay
                  (w.1 id (old-ids held m id js u s x)) x),
          ),
        )
    | inr e ↦ inr (free-Arrives held ks v m s d e)
  ]
