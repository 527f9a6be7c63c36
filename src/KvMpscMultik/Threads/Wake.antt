-- ===== src/KvMpscMultik/Threads/Wake.antt =====
-- kv_mpsc_multik.rs: the listener of the receiver, and what `sync_pop` has looked at before it waits.
use mathlib.Core.Option.{some-injective}
use pa_queue_and_chan.Prelude.{
  ℕ, suc, ◌<◌, ◌≡◌, sym, subst, ◌∙◌, ◌⊎◌, inl, inr, true, false, Option, none, some, List, [],
  arith,
}
use pa_queue_and_chan.External.Setting.{Setting}
use pa_queue_and_chan.KvMpscMultik.Conflict.{ConflictManager}
use pa_queue_and_chan.KvMpscMultik.Manager.{waitingmsgs_exist}
use pa_queue_and_chan.KvMpscMultik.Channels.{
  Channel, Receiver, Pc, drain, pop_q, check_q, check_drop, check_end, take_listener, waiting,
  relisten, done, panicked, notify,
}

module _ (S : Setting) where
  open S use {K, V, key_eq, queues as Q, events as E}

  -- The listener that is registered, at each place of `sync_pop` and between its calls; the
  -- receiver keeps it but while it waits.
  abbrev pub Registered : E.Event → Option E.EventListener → Option (Pc S) → Type 0
  Registered e o (some (waiting l)) = E.IsSole e l
  Registered e o (some relisten) = E.IsFree e
  Registered e o (some panicked) = Unit
  Registered e o _ = (l : E.EventListener) × (o ≡ some l) × E.IsSole e l

  -- A wake-up is given, or a thread will give it.
  abbrev pub Roused : ℕ → Channel S → E.EventListener → Type 0
  Roused n c l = (0 < n) ⊎ (E.notified c.wake_recv_event l ≡ true)

  -- What is absent unless the receiver is to be woken: of the dropped keys, of the messages, and of
  -- the reasons to end, those that have been looked at.
  abbrev pub NoKeys : Channel S → Type 0
  NoKeys c = Q.entries c.drop_key_q ≡ []

  abbrev pub NoMsgs : Channel S → Type 0
  NoMsgs c = Q.entries c.q ≡ []

  abbrev pub NoEnd : Channel S → ConflictManager K V → Type 0
  NoEnd c m = (c.senders_dropped ≡ false) ⊎ (waitingmsgs_exist key_eq m ≡ true)

  abbrev pub Looked : (ℕ → Channel S → Receiver S → Type 0) → ℕ → Channel S → Receiver S → Type 0
  Looked P n c r = (l : E.EventListener) → r.event_listener ≡ some l → Roused n c l ⊎ P n c r

  abbrev pub Seen : ℕ → Channel S → Receiver S → Option (Pc S) → Type 0
  Seen n c r (some pop_q) = Looked (λ n c r. NoKeys c) n c r
  Seen n c r (some check_q) = Looked (λ n c r. NoKeys c × NoMsgs c) n c r
  Seen n c r (some check_drop) = Looked (λ n c r. NoKeys c × NoMsgs c) n c r
  Seen n c r (some check_end) = Looked (λ n c r. NoKeys c × NoMsgs c) n c r
  Seen n c r (some take_listener) =
      Looked (λ n c r. NoKeys c × NoMsgs c × NoEnd c r.conflict_manager) n c r
  Seen n c r (some (waiting l)) = Roused n c l ⊎ (NoKeys c × NoMsgs c × NoEnd c r.conflict_manager)
  Seen n c r _ = Unit

  -- With a wake-up given or due, the receiver may have seen anything.
  pub Seen-Roused :
      (n : ℕ) (c : Channel S) (r : Receiver S) (p : Option (Pc S))
      → ((l : E.EventListener) → Roused n c l)
      → Seen n c r p
  Seen-Roused n c r none h = tt
  Seen-Roused n c r (some drain) h = tt
  Seen-Roused n c r (some pop_q) h = λ l e. inl (h l)
  Seen-Roused n c r (some check_q) h = λ l e. inl (h l)
  Seen-Roused n c r (some check_drop) h = λ l e. inl (h l)
  Seen-Roused n c r (some check_end) h = λ l e. inl (h l)
  Seen-Roused n c r (some take_listener) h = λ l e. inl (h l)
  Seen-Roused n c r (some (waiting l)) h = inl (h l)
  Seen-Roused n c r (some relisten) h = tt
  Seen-Roused n c r (some (done m)) h = tt
  Seen-Roused n c r (some panicked) h = tt

  pub Seen-suc : (n : ℕ) (c : Channel S) (r : Receiver S) (p : Option (Pc S)) → Seen (suc n) c r p
  Seen-suc n c r p = Seen-Roused (suc n) c r p (λ l. inl (omega arith))

module _ (S : Setting) (hash_order : List ℕ → List ℕ) where
  open S use {K, V, key_eq, queues as Q, events as E}

  pub Registered-notify :
      (e : E.Event) (o : Option E.EventListener) (p : Option (Pc S))
      → Registered S e o p
      → Registered S (E.notify 1 e) o p
  Registered-notify e o (some (waiting l)) h = E.notify-IsSole 1 e l h
  Registered-notify e o (some relisten) h = E.notify-IsFree 1 e h
  Registered-notify e o (some panicked) h = tt
  Registered-notify e o none (l, q, h) = (l, q, E.notify-IsSole 1 e l h)
  Registered-notify e o (some p) h = (h.0, h.1, E.notify-IsSole 1 e h.0 h.2)

  -- A notification reaches the registered listener.
  reaches :
      (n : ℕ) (c : Channel S) (o : Option E.EventListener) (l : E.EventListener)
      → ((l : E.EventListener) × (o ≡ some l) × E.IsSole c.wake_recv_event l)
      → o ≡ some l
      → Roused S n (notify S hash_order c) l
  unfolding notify
  reaches n c o l (k, q, h) e = inr (
      E.notified-notify 1 c.wake_recv_event l (omega arith)
        (subst (E.IsSole c.wake_recv_event) (some-injective _ _ (sym q ∙ e)) h))

  pub Seen-notify :
      (n : ℕ) (c : Channel S) (r : Receiver S) (p : Option (Pc S))
      → Registered S c.wake_recv_event r.event_listener p
      → Seen S n (notify S hash_order c) r p
  unfolding notify
  Seen-notify n c r none h = tt
  Seen-notify n c r (some drain) h = tt
  Seen-notify n c r (some pop_q) h = λ l e. inl (reaches n c r.event_listener l h e)
  Seen-notify n c r (some check_q) h = λ l e. inl (reaches n c r.event_listener l h e)
  Seen-notify n c r (some check_drop) h = λ l e. inl (reaches n c r.event_listener l h e)
  Seen-notify n c r (some check_end) h = λ l e. inl (reaches n c r.event_listener l h e)
  Seen-notify n c r (some take_listener) h = λ l e. inl (reaches n c r.event_listener l h e)
  Seen-notify n c r (some (waiting l)) h =
      inl (inr (E.notified-notify 1 c.wake_recv_event l (omega arith) h))
  Seen-notify n c r (some relisten) h = tt
  Seen-notify n c r (some (done m)) h = tt
  Seen-notify n c r (some panicked) h = tt
