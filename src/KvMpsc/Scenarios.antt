-- ===== src/KvMpsc/Scenarios.antt =====
-- kv_mpsc.rs, its tests: what they do, in one interleaving each, and what they expect.
use pa_queue_and_chan.Prelude.{
  ℕ, zero, suc, ◌≡◌, refl, Bool, true, false, some, List, [], ◌∷◌, ◌++◌,
}
use pa_queue_and_chan.KvMpsc.Defs.{Channel, SendResult, sent, channel, send, drop_receiver, waiting}
use pa_queue_and_chan.KvMpsc.Schedule.{
  numbers, Run, Act, sends, tells, leaves, calls, turns, returns, drops, run,
}

-- The loop of a sending thread: messages `j` to `j + n - 1`, each with itself as its key.
unfoldable send_all : ℕ → ℕ → Channel numbers → List SendResult × Channel numbers
send_all zero j c = ([], c)
send_all (suc n) j c =
    let (c', r) = send numbers j j c in let (rs, c'') = send_all n (suc j) c' in (r ∷ rs, c'')

abbrev all_closed : List SendResult → Bool
all_closed [] = true
all_closed (SendResult.closed ∷ rs) = all_closed rs
all_closed (sent ∷ rs) = false

-- `send_after_no_receiver`, for one thread and any number of messages
unfoldable send_after_no_receiver : ℕ → List SendResult × Channel numbers
unfolding send_all drop_receiver
send_after_no_receiver n = send_all n 0 (drop_receiver numbers (channel numbers).0)

send-closed :
    (k v : ℕ) (c : Channel numbers)
    → c.receiver_dropped ≡ true
    → send numbers k v c ≡ (c, SendResult.closed)
unfolding send
send-closed k v c e = rw (e) refl

send_all-closed :
    (n j : ℕ) (c : Channel numbers)
    → c.receiver_dropped ≡ true
    → (all_closed (send_all n j c).0 ≡ true) × ((send_all n j c).1 ≡ c)
unfolding send_all
send_all-closed zero j c e = (refl, refl)
send_all-closed (suc n) j c e = rw (send-closed j j c e) (send_all-closed n (suc j) c e)

-- Every send fails, and none changes the channel.
send_after_no_receiver-closed :
    (n : ℕ)
    → (all_closed (send_after_no_receiver n).0 ≡ true)
      × ((send_after_no_receiver n).1 ≡ drop_receiver numbers (channel numbers).0)
unfolding send_after_no_receiver drop_receiver
send_after_no_receiver-closed n =
    send_all-closed n 0 (drop_receiver numbers (channel numbers).0) refl

-- `recv_after_no_sender`
unfoldable recv_after_no_sender : Run
unfolding run
recv_after_no_sender = run (leaves ∷ tells ∷ calls ∷ turns 5 ∷ returns ∷ [])

recv_after_no_sender-ended :
    (recv_after_no_sender.last.ended ≡ true) × (recv_after_no_sender.last.held ≡ [])
unfolding recv_after_no_sender run
recv_after_no_sender-ended = (refl, refl)

-- `check_conflict`: two messages with one key; the first is received and kept, and the second call
-- of `recv` goes on until it waits.
abbrev conflict_acts : List Act
conflict_acts =
    sends 1 1 ∷ tells ∷ sends 1 1 ∷ tells ∷ calls ∷ turns 2 ∷ returns ∷ calls ∷ turns 20 ∷ []

unfoldable conflict_waits : Run
unfolding run
conflict_waits = run conflict_acts

-- Then the first message is dropped, and `recv` is woken.
unfoldable check_conflict : Run
unfolding run
check_conflict = run (conflict_acts ++ drops ∷ tells ∷ turns 20 ∷ returns ∷ [])

conflict_waits-held :
    (conflict_waits.last.popped ≡ (1, 1) ∷ []) × (conflict_waits.last.pc ≡ some (waiting tt))
unfolding conflict_waits run
conflict_waits-held = (refl, refl)

check_conflict-received : check_conflict.last.popped ≡ (1, 1) ∷ (1, 1) ∷ []
unfolding check_conflict run
check_conflict-received = refl
