-- ===== src/KvMpsc/Recycle.antt =====
-- kv_mpsc.rs, its test `drop_msg_after_a_while`, once the senders are gone: a thread keeps the received messages, and drops
-- them all when there are `limit` of them or none has come for a while.
use pa_queue_and_chan.Prelude.{
  ℕ, zero, suc, ◌==◌, ◌||◌, Bool, true, Option, none, some, List, [], ◌∷◌, ◌++◌, Outcome, ok, panic,
  ◌>>=◌, length, if◌then◌else◌,
}
use pa_queue_and_chan.External.Setting.{Setting}
use pa_queue_and_chan.KvMpsc.Defs.{
  Channel, Message, Pc, drain, done, waiting, notify, drop_message, new_message, sync_pop_step,
}
use pa_queue_and_chan.KvMpsc.System.{System, returned}
use pa_queue_and_chan.KvMpsc.Termination.{measure}

module _ (S : Setting) where
  open S use {K, V}

  -- At most `n` steps of a running `sync_pop`; it stays where it blocks.
  unfoldable pub steps : ℕ → System S → System S
  steps zero s = s
  steps (suc n) s = elim s.pc [
    | none ↦ s
    | some p ↦ elim (sync_pop_step S s.chan s.receiver p) [
      | none ↦ s
      | some a ↦ steps n (record s {
        chan = a.0;
        receiver = a.1;
        pc = some a.2;
        popped = s.popped ++ returned S a.2;
      })
    ]
  ]

  abbrev pub place_in : Option (Pc S) → Pc S
  place_in none = drain
  place_in (some p) = p

  -- `rx.recv()`, from its call or from where it blocks, with fuel that is enough.
  unfoldable pub recv : System S → System S
  unfolding steps measure
  recv s =
      steps (suc (measure S (s.chan, s.receiver, place_in s.pc)))
        (record s { pc = some (place_in s.pc) })

  -- The drop of each message, from the first received on.
  unfoldable pub drop_all : List (Message S) → Channel S → Outcome (Channel S)
  unfolding drop_message notify
  drop_all [] c = ok c
  drop_all (m ∷ ms) c = drop_all ms c >>= λ d. drop_message S m d >>= λ e. ok (notify S e)

  -- `reses.clear()`
  unfoldable pub clear : System S → Outcome (System S)
  unfolding drop_all
  clear s = drop_all s.held s.chan >>= λ c. ok (record s { chan = c; held = [] })

  -- `if reses.len()==1000`, and the arm `Err(_e)` if no message comes for a while.
  unfoldable pub recycle : ℕ → Bool → System S → Outcome (System S)
  unfolding clear
  recycle limit late s = if length s.held == limit || late then clear s else ok s

  abbrev pub go_on : (System S → Option (ℕ × System S)) → Outcome (System S) → Option (ℕ × System S)
  go_on rest panic = none
  go_on rest (ok s) = rest s

  -- What the loop does with the result of `recv`; where it blocks, the other thread hears nothing
  -- for a while.
  unfoldable pub after_recv :
      (ℕ → System S → Option (ℕ × System S))
      → ℕ
      → Bool
      → ℕ
      → System S
      → Option (Pc S)
      → Option (ℕ × System S)
  unfolding recycle clear new_message
  after_recv rest limit late cnt s (some (done none)) =
      some (cnt, record s { pc = none; ended = true })
  after_recv rest limit late cnt s (some (done (some (k, v)))) =
      go_on (rest (suc cnt))
        (recycle limit late (record s { pc = none; held = new_message S k v ∷ s.held }))
  after_recv rest limit late cnt s (some (waiting l)) = go_on (rest cnt) (clear s)
  after_recv rest limit late cnt s _ = none

  -- The loop that receives, for a number of rounds; `late` tells when the other thread has waited
  -- in vain. `none` if the rounds do not suffice, or on a panic.
  unfoldable pub loop : ℕ → ℕ → (ℕ → Bool) → ℕ → System S → Option (ℕ × System S)
  unfolding recv after_recv
  loop zero limit late cnt s = none
  loop (suc n) limit late cnt s =
      after_recv (loop n limit late) limit (late n) cnt (recv s) (recv s).pc
