-- ===== src/KvMpsc/Schedule.antt =====
-- Runs of the kv_mpsc channel in a given order, for tests: lists stand for the queues, numbers for
-- keys and messages.
use pa_queue_and_chan.Prelude.{
  ℕ, zero, suc, ◌≡◌, refl, inl, inr, Option, none, some, List, [], ◌∷◌, ℕ_discrete, Option-cases,
  Bool-cases, Outcome-cases, get, insert, remove,
}
use pa_queue_and_chan.External.Setting.{Setting, list_setting}
use pa_queue_and_chan.KvMpsc.Defs.{
  Message, Pc, done, sync_pop_step, drop_message, send_check, new_message, send_push, notify,
  drop_senders,
}
use pa_queue_and_chan.KvMpsc.System.{
  System, Reach, here, next, send_begins, send_pushes, notifies, senders_drop, message_drops,
  recv_begins, recv_steps, recv_returns, recv_closes, start,
}

abbrev pub numbers : Setting
numbers = list_setting ℕ ℕ ℕ_discrete

pub record Run : Type 0 where
  pub last : System numbers
  pub reach : Reach numbers last

pub data Act : Type 0 where
  sends : ℕ → ℕ → Act
  tells : Act
  leaves : Act
  calls : Act
  turns : ℕ → Act
  returns : Act
  drops : Act

to : {s : System numbers} → Reach numbers s → Run
to r = record { last = _; reach = r }

send_act : ℕ → ℕ → Run → Run
unfolding send_check to
send_act k v r = elim (Bool-cases r.last.senders) [
  | inr e ↦ r
  | inl e ↦ elim (Bool-cases r.last.chan.receiver_dropped) [
    | inl d ↦ r
    | inr d ↦ to (
        next (next r.reach (send_begins k v e (rw (d, send_check))))
          (send_pushes k v [] r.last.sending refl))
  ]
]

tell_act : (r : Run) (n : ℕ) → r.last.notifying ≡ n → Run
unfolding to
tell_act r zero e = r
tell_act r (suc n) e = to (next r.reach (notifies n e))

call_act : Run → Run
unfolding to
call_act r = elim (Option-cases r.last.pc) [
  | inr _ ↦ r
  | inl e ↦ elim (Bool-cases r.last.chan.receiver_dropped) [
    | inl d ↦ r
    | inr d ↦ to (next r.reach (recv_begins e d))
  ]
]

turn_act : Run → Run
unfolding to
turn_act r = elim (Option-cases r.last.pc) [
  | inl _ ↦ r
  | inr (p, e) ↦ elim (Option-cases (sync_pop_step numbers r.last.chan r.last.receiver p)) [
    | inl _ ↦ r
    | inr ((c, q, p'), d) ↦ to (next r.reach (recv_steps p p' c q e d))
  ]
]

turns_act : ℕ → Run → Run
unfolding turn_act
turns_act zero r = r
turns_act (suc n) r = turns_act n (turn_act r)

return_act : (r : Run) (p : Option (Pc numbers)) → r.last.pc ≡ p → Run
unfolding to
return_act r (some (done none)) e = to (next r.reach (recv_closes e))
return_act r (some (done (some (k, v)))) e = to (next r.reach (recv_returns k v e))
return_act r (some p) e = r
return_act r none e = r

drop_act : (r : Run) (ms : List (Message numbers)) → r.last.held ≡ ms → Run
unfolding to
drop_act r [] e = r
drop_act r (m ∷ ms) e = elim (Outcome-cases (drop_message numbers m r.last.chan)) [
  | inl _ ↦ r
  | inr (c, d) ↦ to (next r.reach (message_drops m [] ms c e d))
]

leave_act : (r : Run) (xs : List (ℕ × ℕ)) → r.last.sending ≡ xs → Run
unfolding to
leave_act r (x ∷ xs) e = r
leave_act r [] e = elim (Bool-cases r.last.senders) [
  | inr _ ↦ r
  | inl d ↦ to (next r.reach (senders_drop d e))
]

act : Act → Run → Run
unfolding send_act tell_act call_act turns_act return_act drop_act leave_act
act (sends k v) r = send_act k v r
act tells r = tell_act r r.last.notifying refl
act leaves r = leave_act r r.last.sending refl
act calls r = call_act r
act (turns n) r = turns_act n r
act returns r = return_act r r.last.pc refl
act drops r = drop_act r r.last.held refl

unfoldable pub run_from : Run → List Act → Run
unfolding act
run_from r [] = r
run_from r (a ∷ as_) = run_from (act a r) as_

unfoldable pub run : List Act → Run
unfolding run_from to Bool-cases Option-cases Outcome-cases start sync_pop_step new_message
    send_push notify drop_message drop_senders send_check get insert remove ℕ_discrete
run = run_from (to here)
