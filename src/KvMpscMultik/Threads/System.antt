-- ===== src/KvMpscMultik/Threads/System.antt =====
-- kv_mpsc_multik.rs: senders, holders of messages and the receiver, interleaved one access at a
-- time. The messages have no doubled keys.
use mathlib.Core.List.{reverse}
use pa_queue_and_chan.Prelude.{
  ℕ, suc, ◌≡◌, Bool, true, false, Option, none, some, List, [], ◌∷◌, ◌++◌,
}
use pa_queue_and_chan.External.Setting.{Setting}
use pa_queue_and_chan.KvMpscMultik.Using.{Distinct}
use pa_queue_and_chan.KvMpscMultik.Channels.{
  Channel, Receiver, Message, Pc, drain, done, channel, notify, sync_pop_step, new_message,
}

module _ (S : Setting) where
  open S use {K, V, queues as Q}

  pub record System : Type 0 where
    pub chan : Channel S
    pub receiver : Receiver S
    -- none while no `recv` runs
    pub pc : Option (Pc S)
    -- calls of `send` that have passed the check and have not pushed
    pub sending : List (List K × V)
    -- messages that were received and not dropped
    pub held : List (Message S)
    -- messages whose drop has begun: the keys that it has yet to push
    pub dropping : List (List K)
    -- threads that have changed the channel and have not yet called `notify`
    pub notifying : ℕ
    -- the last `Sender` lives
    pub senders : Bool
    -- `recv` has returned `Closed`
    pub ended : Bool

module _ (S : Setting) (hash_order : List ℕ → List ℕ) where
  open S use {K, V, key_eq, queues as Q}

  unfoldable pub start : System S
  unfolding channel
  start = record {
    chan = (channel S hash_order).0;
    receiver = (channel S hash_order).1;
    pc = none;
    sending = [];
    held = [];
    dropping = [];
    notifying = 0;
    senders = true;
    ended = false;
  }

  -- `self.q.push((ks,v))`, and a round of the loop of `Drop for Message`
  abbrev pub push_msg : List K → V → Channel S → Channel S
  push_msg ks v c = record c { q = Q.push (ks, v) c.q }

  abbrev pub push_key : K → Channel S → Channel S
  push_key k c = record c { drop_key_q = Q.push k c.drop_key_q }

  pub data Step (s : System S) : System S → Type 0 where
    send_begins :
        (ks : List K) (v : V)
        → Distinct key_eq ks
        → s.senders ≡ true
        → s.chan.receiver_dropped ≡ false
        → Step s (record s { sending = (ks, v) ∷ s.sending })
    send_pushes :
        (ks : List K) (v : V) (xs ys : List (List K × V))
        → s.sending ≡ xs ++ (ks, v) ∷ ys
        → Step s (record s {
          chan = push_msg ks v s.chan;
          sending = xs ++ ys;
          notifying = suc s.notifying;
        })
    notifies :
        (n : ℕ)
        → s.notifying ≡ suc n
        → Step s (record s { chan = notify S hash_order s.chan; notifying = n })
    senders_drop :
        s.senders ≡ true
        → s.sending ≡ []
        → Step s (record s {
          chan = record (s.chan) { senders_dropped = true };
          senders = false;
          notifying = suc s.notifying;
        })
    drop_begins :
        (m : Message S) (xs ys : List (Message S))
        → s.held ≡ xs ++ m ∷ ys
        → Step s (record s { held = xs ++ ys; dropping = reverse m.ks ∷ s.dropping })
    drop_pushes :
        (k : K) (ks : List K) (xs ys : List (List K))
        → s.dropping ≡ xs ++ (k ∷ ks) ∷ ys
        → Step s (record s { chan = push_key k s.chan; dropping = xs ++ ks ∷ ys })
    drop_ends :
        (xs ys : List (List K))
        → s.dropping ≡ xs ++ [] ∷ ys
        → Step s (record s { dropping = xs ++ ys; notifying = suc s.notifying })
    recv_begins :
        s.pc ≡ none → s.chan.receiver_dropped ≡ false → Step s (record s { pc = some drain })
    recv_steps :
        (p p' : Pc S) (c : Channel S) (r : Receiver S)
        → s.pc ≡ some p
        → sync_pop_step S hash_order s.chan s.receiver p ≡ some (c, r, p')
        → Step s (record s { chan = c; receiver = r; pc = some p' })
    recv_returns :
        (ks : List K) (v : V)
        → s.pc ≡ some (done (some (ks, v)))
        → Step s (record s { pc = none; held = new_message S hash_order v ks ∷ s.held })
    recv_closes : s.pc ≡ some (done none) → Step s (record s { pc = none; ended = true })
    receiver_drops :
        s.pc ≡ none
        → s.chan.receiver_dropped ≡ false
        → Step s (record s {
          chan = record (s.chan) { receiver_dropped = true };
          notifying = suc s.notifying;
        })

  pub data Reach : System S → Type 0 where
    here : Reach start
    next : {s t : System S} → Reach s → Step s t → Reach t
