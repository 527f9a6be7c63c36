-- ===== src/KvMpscMultik/Scenarios.antt =====
-- kv_mpsc_multik.rs, its tests: what they do, in one interleaving each, and what they expect.
use pa_queue_and_chan.Prelude.{
  ℕ, zero, suc, ◌≡◌, refl, Bool, true, false, none, some, List, [], ◌∷◌, get, insert, remove,
  contains, without, ℕ_discrete,
}
use pa_queue_and_chan.External.Setting.{Setting, list_setting}
use pa_queue_and_chan.KvMpscMultik.Conflict.{
  add_kstate, take_keys, take_kv, new_state, add_waitingmsg, remove_waitingmsg, set_use, set_unuse,
  try_set_use, any_using, try_set_all, find_msg,
}
use pa_queue_and_chan.KvMpscMultik.Manager.{
  key_using, conflicts, entry, new_waiting_msg, wait_keys, become_waiting, use_keys, handle_new_msg,
  new, stop_waiting, try_get_stop_waiting_msg, after_search, unuse_key, waitingmsgs_exist,
}
use pa_queue_and_chan.KvMpscMultik.Channels.{
  Channel, drain, waiting, done, SendResult, sent, At, channel, notify, inner_send, send,
  drop_senders, drop_receiver, new_message, push_all, drop_message, after_call, sync_pop_step,
}

abbrev pub numbers : Setting
numbers = list_setting ℕ ℕ ℕ_discrete

abbrev pub same_order : List ℕ → List ℕ
same_order ids = ids

-- The loop of a sending thread: messages `j` to `j + n - 1`, each with itself as its only key.
unfoldable send_all : ℕ → ℕ → Channel numbers → List SendResult × Channel numbers
send_all zero j c = ([], c)
send_all (suc n) j c =
    let (c', r) = send numbers same_order (j ∷ []) j c in
    let (rs, c'') = send_all n (suc j) c' in (r ∷ rs, c'')

abbrev all_closed : List SendResult → Bool
all_closed [] = true
all_closed (SendResult.closed ∷ rs) = all_closed rs
all_closed (sent ∷ rs) = false

-- `send_after_no_receiver`, for one thread and any number of messages
unfoldable send_after_no_receiver : ℕ → List SendResult × Channel numbers
unfolding send_all drop_receiver
send_after_no_receiver n =
    send_all n 0 (drop_receiver numbers same_order (channel numbers same_order).0)

send-closed :
    (ks : List ℕ) (v : ℕ) (c : Channel numbers)
    → c.receiver_dropped ≡ true
    → send numbers same_order ks v c ≡ (c, SendResult.closed)
unfolding send
send-closed ks v c e = rw (e) refl

send_all-closed :
    (n j : ℕ) (c : Channel numbers)
    → c.receiver_dropped ≡ true
    → (all_closed (send_all n j c).0 ≡ true) × ((send_all n j c).1 ≡ c)
unfolding send_all
send_all-closed zero j c e = (refl, refl)
send_all-closed (suc n) j c e = rw (send-closed (j ∷ []) j c e) (send_all-closed n (suc j) c e)

-- Every send fails, and none changes the channel.
send_after_no_receiver-closed :
    (n : ℕ)
    → (all_closed (send_after_no_receiver n).0 ≡ true)
      × ((send_after_no_receiver n).1
          ≡ drop_receiver numbers same_order (channel numbers same_order).0)
unfolding send_after_no_receiver drop_receiver
send_after_no_receiver-closed n =
    send_all-closed n 0 (drop_receiver numbers same_order (channel numbers same_order).0) refl

-- `sync_pop` without interference, for a number of steps or until it blocks or ends.
unfoldable pub turns : ℕ → At numbers same_order → At numbers same_order
turns zero a = a
turns (suc n) (c, r, p) = elim (sync_pop_step numbers same_order c r p) [
  | none ↦ (c, r, p)
  | some a ↦ turns n a
]

-- `recv_after_no_sender`
unfoldable recv_after_no_sender : At numbers same_order
unfolding turns
recv_after_no_sender =
    let (c, r) = channel numbers same_order in
    turns 10 (drop_senders numbers same_order c, r, drain)

recv_after_no_sender-ended : recv_after_no_sender.2 ≡ done none
unfolding recv_after_no_sender turns sync_pop_step waitingmsgs_exist channel new drop_senders notify
recv_after_no_sender-ended = refl

-- `check_conflict`: two messages with one key are sent, and one is received.
unfoldable first_received : At numbers same_order
unfolding turns
first_received =
    let (c, r) = channel numbers same_order in
    let c' =
      inner_send numbers same_order (1 ∷ []) 1 (inner_send numbers same_order (1 ∷ []) 1 c) in
    turns 10 (c', r, drain)

-- The second call of `recv`, while the first message is kept.
unfoldable conflict_waits : At numbers same_order
unfolding first_received
conflict_waits = let (c, r, p) = first_received in turns 20 (c, r, drain)

-- The first message is dropped, and the same call goes on.
unfoldable check_conflict : At numbers same_order
unfolding conflict_waits
check_conflict =
    let (c, r, p) = conflict_waits in
    turns 20 (drop_message numbers same_order (new_message numbers same_order 1 (1 ∷ [])) c, r, p)

check_conflict-waits :
    (first_received.2 ≡ done (some (1 ∷ [], 1)))
    × (conflict_waits.2 ≡ waiting tt)
    × (check_conflict.2 ≡ done (some (1 ∷ [], 1)))
unfolding check_conflict conflict_waits first_received turns sync_pop_step waitingmsgs_exist channel
    inner_send notify drop_message new_message push_all after_call handle_new_msg conflicts
    key_using become_waiting new_waiting_msg wait_keys use_keys entry get insert remove new_state
    new add_kstate add_waitingmsg without contains set_use set_unuse try_get_stop_waiting_msg
    find_msg any_using try_set_all try_set_use stop_waiting remove_waitingmsg after_search take_kv
    take_keys unuse_key ℕ_discrete
check_conflict-waits = (refl, refl, refl)
