-- ===== src/KvMpsc/Defs.antt =====
-- kv_mpsc.rs: the data of the channel and one function for each access to shared memory.
use pa_queue_and_chan.Prelude.{
  Bool, true, false, Option, none, some, List, [], ◌∷◌, ◌++◌, Map, get, insert, remove, is_empty,
  ◌&&◌, Outcome, ok, panic, if◌then◌else◌,
}
use pa_queue_and_chan.External.Setting.{Setting}

module _ (S : Setting) where
  open S use {K, V, queues as Q, events as E}

  pub record Channel : Type 0 where
    pub wake_recv_event : E.Event
    pub q : Q.SegQueue (K × V)
    pub drop_key_q : Q.SegQueue K
    pub senders_dropped : Bool
    pub receiver_dropped : Bool

  -- The shared channel is no field: the system holds it once.
  pub record Receiver : Type 0 where
    pub using_keys : Map K (List (K × V))
    pub event_listener : Option E.EventListener

  pub record Message : Type 0 where
    pub v : V
    pub k : Option K

  pub data RecvResult : Type 0 where
    received : Message → RecvResult
    closed : RecvResult

  -- Where `sync_pop` stands, one shared access at a time.
  pub data Pc : Type 0 where
    drain : Pc  -- `while let Some(k)= self.drop_key_q.pop()`
    pop_q : Pc  -- `match self.q.pop()`
    check_q : Pc  -- `!self.q.is_empty()`
    check_drop : Pc  -- `||!self.drop_key_q.is_empty()`
    check_end : Pc  -- `using_keys.is_empty()&& self.senders_dropped.load(Acquire)`
    take_listener : Pc  -- `match listener.take()`
    waiting : E.EventListener → Pc  -- `l.wait()`
    relisten : Pc  -- `listener.insert(self.wake_recv_event.listen())`
    done : Option (K × V) → Pc
    panicked : Pc

pub data SendResult : Type 0 where
  sent closed : SendResult

module _ (S : Setting) where
  open S use {K, V, key_eq, queues as Q, events as E}

  abbrev pub At : Type 0
  At = Channel S × Receiver S × Pc S

  unfoldable pub new_channel : Channel S
  new_channel = record {
    wake_recv_event = E.new;
    q = Q.new;
    drop_key_q = Q.new;
    senders_dropped = false;
    receiver_dropped = false;
  }

  -- The receiver listens before anything is sent.
  unfoldable pub new_receiver : Channel S → Channel S × Receiver S
  new_receiver c =
      let (l, e) = E.listen c.wake_recv_event in
      (record c { wake_recv_event = e }, record { using_keys = []; event_listener = some l })

  -- `channel()`
  unfoldable pub channel : Channel S × Receiver S
  unfolding new_channel new_receiver
  channel = new_receiver new_channel

  -- `self.wake_recv_event.notify(1)`
  unfoldable pub notify : Channel S → Channel S
  notify c = record c { wake_recv_event = E.notify 1 c.wake_recv_event }

  -- `SenderInner::send` up to its early return; then the two halves of `inner_send`.
  unfoldable pub send_check : Channel S → SendResult
  send_check c = if c.receiver_dropped then SendResult.closed else sent

  unfoldable pub send_push : K → V → Channel S → Channel S
  send_push k v c = record c { q = Q.push (k, v) c.q }

  unfoldable pub inner_send : K → V → Channel S → Channel S
  unfolding send_push notify
  inner_send k v c = notify (send_push k v c)

  unfoldable pub send : K → V → Channel S → Channel S × SendResult
  unfolding send_check inner_send
  send k v c = if c.receiver_dropped then (c, SendResult.closed) else (inner_send k v c, sent)

  -- `Drop for SenderInner`, whose notification follows, and `Drop for Receiver`, which has none.
  unfoldable pub drop_senders : Channel S → Channel S
  drop_senders c = record c { senders_dropped = true }

  unfoldable pub drop_receiver : Channel S → Channel S
  drop_receiver c = record c { receiver_dropped = true }

  unfoldable pub new_message : K → V → Message S
  new_message k v = record { v = v; k = some k }

  -- `Drop for Message`: the key is taken out and queued; the notification follows.
  unfoldable pub drop_message : Message S → Channel S → Outcome (Channel S)
  drop_message m c = elim m.k [
    | none ↦ panic
    | some k ↦ ok (record c { drop_key_q = Q.push k c.drop_key_q })
  ]

  -- The body of the `while let` for a dropped key and the messages that wait for it.
  unfoldable pub release_key : K → Option (List (K × V)) → Channel S → Receiver S → At
  release_key k none c r = (c, r, panicked)
  release_key k (some []) c r = (c, record r { using_keys = remove key_eq k r.using_keys }, drain)
  release_key k (some (msg ∷ rest)) c r =
      (c, record r { using_keys = insert key_eq k rest r.using_keys }, done (some msg))

  -- The arm `Some((ks,v))`, given the messages that wait for the key if it is in use.
  unfoldable pub handle_msg : K → V → Option (List (K × V)) → Channel S → Receiver S → At
  handle_msg k v (some waiting_for_k) c r = (
    c,
    record r { using_keys = insert key_eq k (waiting_for_k ++ (k, v) ∷ []) r.using_keys },
    drain,
  )
  handle_msg k v none c r =
      (c, record r { using_keys = insert key_eq k [] r.using_keys }, done (some (k, v)))

  unfoldable pub wait_step : E.EventListener → Channel S → Receiver S → Option At
  wait_step l c r =
      if E.notified c.wake_recv_event l
      then some (record c { wake_recv_event = E.wait l c.wake_recv_event }, r, relisten)
      else none

  -- One step of `sync_pop`; `none` while `l.wait()` blocks, and after the end.
  unfoldable pub sync_pop_step : Channel S → Receiver S → Pc S → Option At
  unfolding release_key handle_msg wait_step
  sync_pop_step c r drain = elim (Q.pop c.drop_key_q) [
    | none ↦ some (c, r, pop_q)
    | some (k, rest) ↦
        some (release_key k (get key_eq k r.using_keys) (record c { drop_key_q = rest }) r)
  ]
  sync_pop_step c r pop_q = elim (Q.pop c.q) [
    | none ↦ some (c, r, check_q)
    | some ((k, v), rest) ↦
        some (handle_msg k v (get key_eq k r.using_keys) (record c { q = rest }) r)
  ]
  sync_pop_step c r check_q = some (c, r, if Q.no_entry c.q then check_drop else drain)
  sync_pop_step c r check_drop = some (c, r, if Q.no_entry c.drop_key_q then check_end else drain)
  sync_pop_step c r check_end =
      some (c, r, if is_empty r.using_keys && c.senders_dropped then done none else take_listener)
  sync_pop_step c r take_listener = elim r.event_listener [
    | none ↦ some (c, r, panicked)
    | some l ↦ some (c, record r { event_listener = none }, waiting l)
  ]
  sync_pop_step c r (waiting l) = wait_step l c r
  sync_pop_step c r relisten = some (
    record c { wake_recv_event = (E.listen c.wake_recv_event).1 },
    record r { event_listener = some (E.listen c.wake_recv_event).0 },
    drain,
  )
  sync_pop_step c r (done m) = none
  sync_pop_step c r panicked = none

  -- `Receiver::recv`, from the result of `sync_pop`.
  unfoldable pub recv_result : Option (K × V) → RecvResult S
  unfolding new_message
  recv_result none = RecvResult.closed
  recv_result (some (k, v)) = received (new_message k v)
