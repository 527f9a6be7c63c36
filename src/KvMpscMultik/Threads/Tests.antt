-- ===== src/KvMpscMultik/Threads/Tests.antt =====
-- The channel of kv_mpsc_multik.rs in concrete interleavings.
use pa_queue_and_chan.Prelude.{
  ℕ, ◌+◌, ◌≤◌, ◌≡◌, ◌⊎◌, refl, ap, arith, true, false, some, List, [], ◌∷◌, ℕ_discrete, count,
  contains, get, insert, remove,
}
use pa_queue_and_chan.External.Setting.{Setting, list_setting}
use pa_queue_and_chan.External.Event.{is_notified}
use pa_queue_and_chan.KvMpscMultik.Conflict.{new_state, set_use}
use pa_queue_and_chan.KvMpscMultik.Manager.{
  key_using, conflicts, entry, use_keys, handle_new_msg, new, waitingmsgs_exist,
}
use pa_queue_and_chan.KvMpscMultik.Using.{weight, Distinct}
use pa_queue_and_chan.KvMpscMultik.Channels.{
  drain, pop_q, check_q, check_drop, check_end, take_listener, waiting, done, channel,
  sync_pop_step, after_call, new_message,
}
use pa_queue_and_chan.KvMpscMultik.Threads.System.{
  System, start, Reach, here, next, recv_begins, recv_steps, recv_returns, send_begins, send_pushes,
}
use pa_queue_and_chan.KvMpscMultik.Threads.Held.{holds, Calm}
use pa_queue_and_chan.KvMpscMultik.Threads.Owners.{pc_returned}
use pa_queue_and_chan.KvMpscMultik.Threads.Safety.{
  HolderOf, channel_holds_once, receiver_waits_rightly, end_loses_msg,
}

abbrev numbers : Setting
numbers = list_setting ℕ ℕ ℕ_discrete

abbrev same_order : List ℕ → List ℕ
same_order ids = ids

lists_same : (id : ℕ) (ids : List ℕ) → contains id (same_order ids) ≡ true → contains id ids ≡ true
lists_same id ids h = h

two-Distinct : Distinct ℕ_discrete (1 ∷ 2 ∷ [])
unfolding count
two-Distinct k = ground arith

-- A message with keys 1 and 2 is sent and received.
one_received :
    (s : System numbers) × Reach numbers same_order s × Calm numbers s.pc × (holds numbers s 2 ≡ 1)
unfolding start channel sync_pop_step handle_new_msg conflicts key_using use_keys entry set_use
    new_state new get insert remove ℕ_discrete after_call new_message count
one_received =
    let a = next here (send_begins (1 ∷ 2 ∷ []) 10 two-Distinct refl refl) in
    let b = next a (send_pushes (1 ∷ 2 ∷ []) 10 [] [] refl) in
    let c = next b (recv_begins refl refl) in
    let d = next c (recv_steps drain pop_q _ _ refl refl) in
    let e = next d (recv_steps pop_q (done (some (1 ∷ 2 ∷ [], 10))) _ _ refl refl) in
    (_, next e (recv_returns (1 ∷ 2 ∷ []) 10 refl), tt, refl)

channel_holds_once_example :
    (holds numbers one_received.0 2
        + count ℕ_discrete 2 one_received.0.chan.drop_key_q
        + count ℕ_discrete 2 (pc_returned numbers one_received.0.pc)
      ≤ 1)
    × (weight (key_using ℕ_discrete 2 one_received.0.receiver.conflict_manager)
        ≡ holds numbers one_received.0 2
          + count ℕ_discrete 2 one_received.0.chan.drop_key_q
          + count ℕ_discrete 2 (pc_returned numbers one_received.0.pc))
channel_holds_once_example =
    channel_holds_once numbers same_order lists_same 2 one_received.1 one_received.2

-- The receiver waits on the new channel.
abbrev WaitsFirst : System numbers → Type 0
WaitsFirst s =
    Reach numbers same_order s
    × (s.pc ≡ some (waiting tt))
    × (s.chan.wake_recv_event ≡ some false)
    × (s.notifying ≡ 0)
    × (s.dropping ≡ [])

none_sent : (s : System numbers) × WaitsFirst s
unfolding start channel sync_pop_step waitingmsgs_exist new
none_sent =
    let a = next here (recv_begins refl refl) in
    let b = next a (recv_steps drain pop_q _ _ refl refl) in
    let c = next b (recv_steps pop_q check_q _ _ refl refl) in
    let d = next c (recv_steps check_q check_drop _ _ refl refl) in
    let e = next d (recv_steps check_drop check_end _ _ refl refl) in
    let f = next e (recv_steps check_end take_listener _ _ refl refl) in
    let g = next f (recv_steps take_listener (waiting tt) _ _ refl refl) in
    (_, (g, refl, refl, refl, refl))

receiver_waits_rightly_example :
    (none_sent.0.chan.q ≡ [])
    × (none_sent.0.chan.drop_key_q ≡ [])
    × ((none_sent.0.chan.senders_dropped ≡ false) ⊎ HolderOf numbers none_sent.0)
receiver_waits_rightly_example =
    receiver_waits_rightly numbers same_order (λ id ids. refl) tt none_sent.1.0 none_sent.1.1
      (ap is_notified none_sent.1.2) none_sent.1.3 none_sent.1.4

end_loses_msg_example :
    (s : System numbers) × Reach numbers same_order s
    × (s.ended ≡ true)
    × (s.held ≡ [])
    × (s.chan.q ≡ (1 ∷ 2 ∷ [], 10) ∷ [])
end_loses_msg_example = end_loses_msg numbers same_order (1 ∷ 2 ∷ []) 10 two-Distinct
