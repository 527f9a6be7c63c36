-- ===== src/KvMpsc/System.antt =====
-- kv_mpsc.rs: senders, holders of messages and the receiver, interleaved one access at a time.
use pa_queue_and_chan.Prelude.{
  ℕ, suc, ◌≡◌, Bool, true, false, Option, none, some, List, [], ◌∷◌, ◌++◌, ok, to_list,
}
use pa_queue_and_chan.External.Setting.{Setting}
use pa_queue_and_chan.KvMpsc.Defs.{
  Channel, Receiver, Message, Pc, drain, done, sent, channel, notify, send_check, send_push,
  drop_senders, drop_receiver, drop_message, sync_pop_step, new_message,
}

module _ (S : Setting) where
  open S use {K, V}

  pub record System : Type 0 where
    pub chan : Channel S
    pub receiver : Receiver S
    -- none while no `recv` runs
    pub pc : Option (Pc S)
    -- calls of `send` that have passed the check and have not pushed
    pub sending : List (K × V)
    -- threads that have changed the channel and have not yet called `notify`
    pub notifying : ℕ
    -- the last `Sender` lives
    pub senders : Bool
    -- messages that were received and not dropped
    pub held : List (Message S)
    -- history: what was pushed to `q`, and what `sync_pop` returned
    pub pushed : List (K × V)
    pub popped : List (K × V)
    -- `recv` has returned `Closed`
    pub ended : Bool

module _ (S : Setting) where
  open S use {K, V}

  unfoldable pub start : System S
  unfolding channel
  start = record {
    chan = (channel S).0;
    receiver = (channel S).1;
    pc = none;
    sending = [];
    notifying = 0;
    senders = true;
    held = [];
    pushed = [];
    popped = [];
    ended = false;
  }

  -- What the step of `sync_pop` has taken out for its caller.
  abbrev pub returned : Pc S → List (K × V)
  returned (done r) = to_list r
  returned _ = []

  abbrev pub pc_returned : Option (Pc S) → List (K × V)
  pc_returned none = []
  pc_returned (some p) = returned p

  pub data Step (s : System S) : System S → Type 0 where
    send_begins :
        (k : K) (v : V)
        → s.senders ≡ true
        → send_check S s.chan ≡ sent
        → Step s (record s { sending = (k, v) ∷ s.sending })
    send_pushes :
        (k : K) (v : V) (xs ys : List (K × V))
        → s.sending ≡ xs ++ (k, v) ∷ ys
        → Step s (record s {
          chan = send_push S k v s.chan;
          sending = xs ++ ys;
          notifying = suc s.notifying;
          pushed = s.pushed ++ (k, v) ∷ [];
        })
    notifies :
        (n : ℕ) → s.notifying ≡ suc n → Step s (record s { chan = notify S s.chan; notifying = n })
    senders_drop :
        s.senders ≡ true
        → s.sending ≡ []
        → Step s (record s {
          chan = drop_senders S s.chan;
          senders = false;
          notifying = suc s.notifying;
        })
    message_drops :
        (m : Message S) (xs ys : List (Message S)) (c : Channel S)
        → s.held ≡ xs ++ m ∷ ys
        → drop_message S m s.chan ≡ ok c
        → Step s (record s { chan = c; held = xs ++ ys; notifying = suc s.notifying })
    recv_begins :
        s.pc ≡ none → s.chan.receiver_dropped ≡ false → Step s (record s { pc = some drain })
    recv_steps :
        (p p' : Pc S) (c : Channel S) (r : Receiver S)
        → s.pc ≡ some p
        → sync_pop_step S s.chan s.receiver p ≡ some (c, r, p')
        → Step s
            (record s { chan = c; receiver = r; pc = some p'; popped = s.popped ++ returned p' })
    recv_returns :
        (k : K) (v : V)
        → s.pc ≡ some (done (some (k, v)))
        → Step s (record s { pc = none; held = new_message S k v ∷ s.held })
    recv_closes : s.pc ≡ some (done none) → Step s (record s { pc = none; ended = true })
    receiver_drops :
        s.pc ≡ none
        → s.chan.receiver_dropped ≡ false
        → Step s (record s { chan = drop_receiver S s.chan })

  pub data Reach : System S → Type 0 where
    here : Reach start
    next : {s t : System S} → Reach s → Step s t → Reach t
