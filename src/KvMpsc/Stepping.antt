-- ===== src/KvMpsc/Stepping.antt =====
-- kv_mpsc.rs: calls of `recv` that no other thread interrupts, in the runs of the system.
use pa_queue_and_chan.Prelude.{
  ℕ, zero, suc, ◌+◌, ◌<◌, ◌≡◌, refl, sym, ap, subst, ◌∙◌, inl, inr, arith, true, false, Option,
  none, some, List, [], ◌++◌, length, length-append, Option-cases,
}
use pa_queue_and_chan.External.Setting.{Setting}
use pa_queue_and_chan.KvMpsc.Defs.{
  Message, Pc, drain, pop_q, check_q, check_drop, check_end, take_listener, waiting, relisten, done,
  panicked, Channel, Receiver, At, sync_pop_step,
}
use pa_queue_and_chan.KvMpsc.System.{
  System, Reach, next, recv_begins, recv_steps, returned, pc_returned,
}
use pa_queue_and_chan.KvMpsc.Termination.{measure, step-decreases}
use pa_queue_and_chan.KvMpsc.Alone.{Seen, sync_pop-Alone, Stopped, stops_at}
use pa_queue_and_chan.KvMpsc.Recycle.{steps, place_in, recv}

module _ (S : Setting) where
  open S use {K, V, queues as Q, events as E}

  -- All senders are gone, and nobody is about to notify; the receiver has taken out `cnt` messages
  -- before the current call.
  pub record Running (held : List (Message S)) (xs : List (K × V)) (cnt : ℕ) (s : System S)
      : Type 0 where
    pub reach : Reach S s
    pub gone : s.chan.senders_dropped ≡ true
    pub alive : s.chan.receiver_dropped ≡ false
    pub due : s.notifying ≡ 0
    pub all : s.pushed ≡ xs
    pub same : s.held ≡ held
    pub seen : Seen S s.chan s.pc
    pub counts : length s.popped ≡ cnt + length (pc_returned S s.pc)

  steps_on :
      (c : Channel S) (r : Receiver S) (p : Pc S) (a : At S)
      → sync_pop_step S c r p ≡ some a
      → returned S p ≡ []
  unfolding sync_pop_step
  steps_on c r (done m) a h = absurd (cc)
  steps_on c r drain a h = refl
  steps_on c r pop_q a h = refl
  steps_on c r check_q a h = refl
  steps_on c r check_drop a h = refl
  steps_on c r check_end a h = refl
  steps_on c r take_listener a h = refl
  steps_on c r (waiting l) a h = refl
  steps_on c r relisten a h = refl
  steps_on c r panicked a h = refl

  Running-step :
      (held : List (Message S)) (xs : List (K × V)) (cnt : ℕ) (s : System S) (p : Pc S) (a : At S)
      → s.pc ≡ some p
      → sync_pop_step S s.chan s.receiver p ≡ some a
      → Running held xs cnt s
      → Running held xs cnt (record s {
        chan = a.0;
        receiver = a.1;
        pc = some a.2;
        popped = s.popped ++ returned S a.2;
      })
  Running-step held xs cnt s p a e h i =
      let (g, v, w) = sync_pop-Alone S s.chan s.receiver p a (subst (Seen S s.chan) e i.seen) h in
      record {
        reach = next i.reach (recv_steps p a.2 a.0 a.1 e h);
        gone = g ∙ i.gone;
        alive = v ∙ i.alive;
        due = i.due;
        all = i.all;
        same = i.same;
        seen = w;
        counts = omega (
          arith,
          i.counts,
          length-append s.popped (returned S a.2),
          ap (λ o. length (pc_returned S o)) e,
          ap length (steps_on s.chan s.receiver p a h),
        );
      }

  -- The call has come to its end, or blocks.
  abbrev pub Ran : List (Message S) → List (K × V) → ℕ → System S → Type 0
  Ran held xs cnt t = Running held xs cnt t × ((q : Pc S) × (t.pc ≡ some q) × Stopped S t.chan q)

  steps-next :
      (n : ℕ) (s : System S) (p : Pc S) (a : At S)
      → s.pc ≡ some p
      → sync_pop_step S s.chan s.receiver p ≡ some a
      → steps S (suc n) s
        ≡ steps S n (record s {
          chan = a.0;
          receiver = a.1;
          pc = some a.2;
          popped = s.popped ++ returned S a.2;
        })
  unfolding steps
  steps-next n s p a e h = rw (steps, e, h) refl

  steps-stop :
      (n : ℕ) (s : System S) (p : Pc S)
      → s.pc ≡ some p
      → sync_pop_step S s.chan s.receiver p ≡ none
      → steps S (suc n) s ≡ s
  unfolding steps
  steps-stop n s p e h = rw (steps, e, h) (ap (λ o. record s { pc = o }) e)

  steps-Ran :
      (held : List (Message S)) (xs : List (K × V)) (cnt n : ℕ) (s : System S) (p : Pc S)
      → s.pc ≡ some p
      → measure S (s.chan, s.receiver, p) < n
      → Running held xs cnt s
      → Ran held xs cnt (steps S n s)
  steps-Ran held xs cnt zero s p e m i = absurd (omega (arith, m))
  steps-Ran held xs cnt (suc n) s p e m i =
      elim (Option-cases (sync_pop_step S s.chan s.receiver p)) [
        | inl h ↦
            subst (Ran held xs cnt) (sym (steps-stop n s p e h))
              (i, (p, e, stops_at S s.chan s.receiver p h))
        | inr (a, h) ↦ subst (Ran held xs cnt) (sym (steps-next n s p a e h)) (
            steps-Ran held xs cnt n _ a.2 refl
              (omega (arith, m, step-decreases S s.chan s.receiver p a h))
              (Running-step held xs cnt s p a e h i))
      ]

  -- Outside `recv`, or where it blocks.
  abbrev pub Rests : Option (Pc S) → Type 0
  Rests none = Unit
  Rests (some (waiting l)) = Unit
  Rests (some _) = ⊥

  begins :
      (held : List (Message S)) (xs : List (K × V)) (cnt : ℕ) (s : System S) (o : Option (Pc S))
      → s.pc ≡ o
      → Rests o
      → Running held xs cnt s
      → Running held xs cnt (record s { pc = some (place_in S o) })
  begins held xs cnt s none e w i = record {
    reach = next i.reach (recv_begins e i.alive);
    gone = i.gone;
    alive = i.alive;
    due = i.due;
    all = i.all;
    same = i.same;
    seen = tt;
    counts = omega (arith, i.counts, ap (λ o. length (pc_returned S o)) e);
  }
  begins held xs cnt s (some p) e w i = subst (λ o. Running held xs cnt (record s { pc = o })) e i

  pub recv-Ran :
      (held : List (Message S)) (xs : List (K × V)) (cnt : ℕ) (s : System S)
      → Rests s.pc
      → Running held xs cnt s
      → Ran held xs cnt (recv S s)
  unfolding recv
  recv-Ran held xs cnt s w i =
      steps-Ran held xs cnt (suc (measure S (s.chan, s.receiver, place_in S s.pc)))
        (record s { pc = some (place_in S s.pc) }) (place_in S s.pc) refl (omega arith)
        (begins held xs cnt s s.pc refl w i)
