-- ===== src/KvMpsc/Notified.antt =====
-- kv_mpsc.rs: what a notification does to the receiver's view.
use mathlib.Core.Option.{some-injective}
use pa_queue_and_chan.Prelude.{
  ℕ, suc, ◌<◌, ◌≡◌, refl, sym, ◌⊎◌, inl, inr, Bool, true, Option, none, some, arith, subst, ◌∙◌,
}
use pa_queue_and_chan.External.Setting.{Setting}
use pa_queue_and_chan.KvMpsc.Defs.{
  Channel, Receiver, Pc, drain, pop_q, check_q, check_drop, check_end, take_listener, waiting,
  relisten, done, panicked, notify,
}
use pa_queue_and_chan.KvMpsc.Wake.{Listens, Wakes, Sees}

module _ (S : Setting) where
  open S use {K, V, key_eq, queues as Q, events as E}

  pub roused :
      {d m e : Bool} (n : ℕ) (c : Channel S) (r : Receiver S) (l : E.EventListener)
      → (0 < n) ⊎ (E.notified c.wake_recv_event l ≡ true)
      → Sees S d m e n c r.using_keys l
  roused n c r l h = record { no_drop = λ x. inr h; no_msg = λ x. inr h; no_end = λ x. inr h }

  -- The listener that the receiver will wait on.
  abbrev pub Current : Option E.EventListener → Option (Pc S) → E.EventListener → Type 0
  Current o (some (waiting m)) l = m ≡ l
  Current o (some relisten) l = ⊥
  Current o _ l = o ≡ some l

  -- With a notification given or due, the receiver may have seen anything.
  pub Wakes-roused :
      (n : ℕ) (c : Channel S) (r : Receiver S) (p : Option (Pc S))
      → ((l : E.EventListener)
          → Current r.event_listener p l
          → (0 < n) ⊎ (E.notified c.wake_recv_event l ≡ true))
      → Wakes S n c r p
  Wakes-roused n c r none h = tt
  Wakes-roused n c r (some drain) h = tt
  Wakes-roused n c r (some pop_q) h = λ l e. roused n c r l (h l e)
  Wakes-roused n c r (some check_q) h = λ l e. roused n c r l (h l e)
  Wakes-roused n c r (some check_drop) h = λ l e. roused n c r l (h l e)
  Wakes-roused n c r (some check_end) h = λ l e. roused n c r l (h l e)
  Wakes-roused n c r (some take_listener) h = λ l e. roused n c r l (h l e)
  Wakes-roused n c r (some (waiting l)) h = roused n c r l (h l refl)
  Wakes-roused n c r (some relisten) h = tt
  Wakes-roused n c r (some (done m)) h = tt
  Wakes-roused n c r (some panicked) h = tt

  pub Listens-notify :
      (e : E.Event) (o : Option E.EventListener) (p : Option (Pc S))
      → Listens S e o p
      → Listens S (E.notify 1 e) o p
  Listens-notify e o (some (waiting l)) h = E.notify-IsSole 1 e l h
  Listens-notify e o (some relisten) h = E.notify-IsFree 1 e h
  Listens-notify e o none (l, q, h) = (l, q, E.notify-IsSole 1 e l h)
  Listens-notify e o (some p) h = (h.0, h.1, E.notify-IsSole 1 e h.0 h.2)

  pub Current-IsSole :
      (e : E.Event) (o : Option E.EventListener) (p : Option (Pc S)) (l : E.EventListener)
      → Listens S e o p
      → Current o p l
      → E.IsSole e l
  Current-IsSole e o (some (waiting m)) l h q = subst (E.IsSole e) q h
  Current-IsSole e o (some relisten) l h q = absurd q
  Current-IsSole e o none l h q = subst (E.IsSole e) (some-injective _ _ (sym h.1 ∙ q)) h.2
  Current-IsSole e o (some p) l h q = subst (E.IsSole e) (some-injective _ _ (sym h.1 ∙ q)) h.2

  pub Wakes-notify :
      (n : ℕ) (c : Channel S) (r : Receiver S) (p : Option (Pc S))
      → Listens S c.wake_recv_event r.event_listener p
      → Wakes S n (notify S c) r p
  unfolding notify
  Wakes-notify n c r p h = Wakes-roused n _ r p λ l q. inr (
      E.notified-notify 1 c.wake_recv_event l (omega arith)
        (Current-IsSole c.wake_recv_event r.event_listener p l h q))

  pub Wakes-suc :
      (n : ℕ) (c : Channel S) (r : Receiver S) (p : Option (Pc S)) → Wakes S (suc n) c r p
  Wakes-suc n c r p = Wakes-roused (suc n) c r p λ l q. inl (omega arith)
