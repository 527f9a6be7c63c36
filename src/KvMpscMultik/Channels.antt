-- ===== src/KvMpscMultik/Channels.antt =====
-- kv_mpsc_multik.rs: `Channel`, `Sender`, `Receiver` and `Message` around the conflict manager.
use pa_queue_and_chan.Prelude.{
  ℕ, Bool, true, false, not, Option, none, some, List, [], ◌∷◌, ◌&&◌, Outcome, ok, panic,
  if◌then◌else◌,
}
use mathlib.Core.List.{reverse}
use pa_queue_and_chan.External.Setting.{Setting}
use pa_queue_and_chan.KvMpscMultik.Conflict.{ConflictManager}
use pa_queue_and_chan.KvMpscMultik.Manager.{new, unuse_key, handle_new_msg, waitingmsgs_exist}

pub data SendResult : Type 0 where
  sent closed : SendResult

module _ (S : Setting) where
  open S use {K, V, queues as Q, events as E}

  pub record Channel : Type 0 where
    pub wake_recv_event : E.Event
    pub q : Q.SegQueue (List K × V)
    pub drop_key_q : Q.SegQueue K
    pub senders_dropped : Bool
    pub receiver_dropped : Bool

  pub record Receiver : Type 0 where
    pub conflict_manager : ConflictManager K V
    pub event_listener : Option E.EventListener

  pub record Message : Type 0 where
    pub v : V
    pub ks : List K

  pub data RecvResult : Type 0 where
    received : Message → RecvResult
    closed : RecvResult

  -- Where `sync_pop` stands, one shared access at a time.
  pub data Pc : Type 0 where
    drain : Pc  -- `dropq.pop()` in `unuse_all_droped_key`
    pop_q : Pc  -- `match self.q.pop()`
    check_q : Pc  -- `!self.q.is_empty()`
    check_drop : Pc  -- `||!self.drop_key_q.is_empty()`
    check_end : Pc  -- `!waitingmsgs_exist()&& self.senders_dropped.load(Acquire)`
    take_listener : Pc  -- `match listener.take()`
    waiting : E.EventListener → Pc  -- `l.wait()`
    relisten : Pc  -- `listener.insert(self.wake_recv_event.listen())`
    done : Option (List K × V) → Pc
    panicked : Pc

module _ (S : Setting) (hash_order : List ℕ → List ℕ) where
  open S use {K, V, key_eq, queues as Q, events as E}

  abbrev pub At : Type 0
  At = Channel S × Receiver S × Pc S

  -- `Channel::new`, with the listener of `Receiver::new`.
  unfoldable pub channel : Channel S × Receiver S
  channel =
      let (l, e) = E.listen E.new in
      (
        record {
          wake_recv_event = e;
          q = Q.new;
          drop_key_q = Q.new;
          senders_dropped = false;
          receiver_dropped = false;
        },
        record { conflict_manager = new; event_listener = some l },
      )

  unfoldable pub notify : Channel S → Channel S
  notify c = record c { wake_recv_event = E.notify 1 c.wake_recv_event }

  unfoldable pub inner_send : List K → V → Channel S → Channel S
  unfolding notify
  inner_send ks v c = notify (record c { q = Q.push (ks, v) c.q })

  unfoldable pub send : List K → V → Channel S → Channel S × SendResult
  unfolding inner_send
  send ks v c = if c.receiver_dropped then (c, SendResult.closed) else (inner_send ks v c, sent)

  -- `Drop for SenderInner` and `Drop for Receiver`
  unfoldable pub drop_senders : Channel S → Channel S
  unfolding notify
  drop_senders c = notify (record c { senders_dropped = true })

  unfoldable pub drop_receiver : Channel S → Channel S
  unfolding notify
  drop_receiver c = notify (record c { receiver_dropped = true })

  unfoldable pub new_message : V → List K → Message S
  new_message v ks = record { v = v; ks = ks }

  -- `Drop for Message`: the keys are queued from the last on, then the receiver is notified.
  unfoldable pub push_all : List K → Q.SegQueue K → Q.SegQueue K
  push_all [] q = q
  push_all (k ∷ ks) q = push_all ks (Q.push k q)

  unfoldable pub drop_message : Message S → Channel S → Channel S
  unfolding push_all notify
  drop_message m c = notify (record c { drop_key_q = push_all (reverse m.ks) c.drop_key_q })

  -- What follows a call of the conflict manager: return its message, or go on at `p`.
  unfoldable pub after_call :
      Channel S → Receiver S → Pc S → Outcome (Option (List K × V) × ConflictManager K V) → At
  after_call c r p panic = (c, r, panicked)
  after_call c r p (ok (none, m)) = (c, record r { conflict_manager = m }, p)
  after_call c r p (ok (some res, m)) = (c, record r { conflict_manager = m }, done (some res))

  -- One step of `sync_pop`; `none` while `l.wait()` blocks, and after the end.
  unfoldable pub sync_pop_step : Channel S → Receiver S → Pc S → Option At
  unfolding after_call
  sync_pop_step c r drain = elim (Q.pop c.drop_key_q) [
    | none ↦ some (c, r, pop_q)
    | some (k, rest) ↦ some (
        after_call (record c { drop_key_q = rest }) r drain
          (unuse_key key_eq hash_order k r.conflict_manager))
  ]
  sync_pop_step c r pop_q = elim (Q.pop c.q) [
    | none ↦ some (c, r, check_q)
    | some ((ks, v), rest) ↦
        some (
          after_call (record c { q = rest }) r drain
            (handle_new_msg key_eq ks v r.conflict_manager))
  ]
  sync_pop_step c r check_q = some (c, r, if Q.no_entry c.q then check_drop else drain)
  sync_pop_step c r check_drop = some (c, r, if Q.no_entry c.drop_key_q then check_end else drain)
  sync_pop_step c r check_end = some (
    c,
    r,
    if not (waitingmsgs_exist key_eq r.conflict_manager) && c.senders_dropped
        then done none
        else take_listener,
  )
  sync_pop_step c r take_listener = elim r.event_listener [
    | none ↦ some (c, r, panicked)
    | some l ↦ some (c, record r { event_listener = none }, waiting l)
  ]
  sync_pop_step c r (waiting l) =
      if E.notified c.wake_recv_event l
      then some (record c { wake_recv_event = E.wait l c.wake_recv_event }, r, relisten)
      else none
  sync_pop_step c r relisten =
      let (l, e) = E.listen c.wake_recv_event in
      some (record c { wake_recv_event = e }, record r { event_listener = some l }, drain)
  sync_pop_step c r (done m) = none
  sync_pop_step c r panicked = none

  -- `Receiver::recv`, from the result of `sync_pop`.
  unfoldable pub recv_result : Option (List K × V) → RecvResult S
  unfolding new_message
  recv_result none = RecvResult.closed
  recv_result (some (ks, v)) = received (new_message v ks)
