-- ===== src/KvMpsc/Consume.antt =====
-- kv_mpsc.rs, its test `test_basic` in one schedule: all messages are sent and the last sender is
-- gone before the loop runs, which receives and drops one message after the other until the channel
-- is closed. The threads of the source may also send while the loop runs.
use pa_queue_and_chan.Prelude.{
  ℕ, zero, suc, Option, none, some, List, [], ◌∷◌, Outcome, ok, panic, ◌>>=◌,
}
use pa_queue_and_chan.External.Setting.{Setting}
use pa_queue_and_chan.KvMpsc.Defs.{
  Channel, Receiver, drain, done, At, channel, notify, send, drop_senders, new_message,
  drop_message,
}
use pa_queue_and_chan.KvMpsc.Termination.{sync_pop}

module _ (S : Setting) where
  open S use {K, V, key_eq, queues as Q, events as E}

  -- The calls of `send`, in the order of their pushes.
  unfoldable pub send_all : List (K × V) → Channel S → Channel S
  unfolding send
  send_all [] c = c
  send_all ((k, v) ∷ xs) c = send_all xs (send S k v c).0

  -- `drop(tx)`, when no other sender is left.
  unfoldable pub leave : Channel S → Channel S
  unfolding drop_senders notify
  leave c = notify S (drop_senders S c)

  -- A message that goes out of scope.
  unfoldable pub discard : K × V → Channel S → Outcome (Channel S)
  unfolding drop_message new_message notify
  discard (k, v) c = drop_message S (new_message S k v) c >>= λ c'. ok (notify S c')

  -- What the loop of the test does with the result of `recv`, and how it goes on.
  unfoldable pub after_drop :
      (Channel S → Receiver S → Option (List (K × V)))
      → K × V
      → Receiver S
      → Outcome (Channel S)
      → Option (List (K × V))
  after_drop rest msg r panic = none
  after_drop rest msg r (ok c) = elim (rest c r) [ none ↦ none | some xs ↦ some (msg ∷ xs) ]

  unfoldable pub after_recv :
      (Channel S → Receiver S → Option (List (K × V))) → At S → Option (List (K × V))
  unfolding discard after_drop
  after_recv rest (c, r, done none) = some []
  after_recv rest (c, r, done (some msg)) = after_drop rest msg r (discard msg c)
  after_recv rest _ = none

  -- The messages received until `Closed`, for a number of rounds, each of at most `steps` steps of
  -- `sync_pop`; `none` if that does not suffice, or on a panic.
  unfoldable pub consume : ℕ → ℕ → Channel S → Receiver S → Option (List (K × V))
  unfolding after_recv
  consume zero steps c r = none
  consume (suc rounds) steps c r =
      after_recv (consume rounds steps) (sync_pop S steps (c, r, drain))

  -- `test_basic`, where the senders are through before the first `recv`
  unfoldable pub test_basic : ℕ → ℕ → List (K × V) → Option (List (K × V))
  unfolding channel send_all leave consume
  test_basic rounds steps xs =
      consume rounds steps (leave (send_all xs (channel S).0)) (channel S).1
