-- ===== src/KvMpscMultik/Consume.antt =====
-- kv_mpsc_multik.rs, its test `test_basic` in one schedule: all messages are sent and the last sender is
-- gone before the loop runs, which receives and drops one message after the other until the channel
-- is closed. The threads of the source may also send while the loop runs.
use pa_queue_and_chan.Prelude.{ℕ, zero, suc, Option, none, some, List, [], ◌∷◌}
use pa_queue_and_chan.External.Setting.{Setting}
use pa_queue_and_chan.KvMpscMultik.Channels.{
  Channel, Receiver, drain, done, At, channel, send, drop_senders, new_message, drop_message,
}
use pa_queue_and_chan.KvMpscMultik.Termination.{sync_pop, measure}

module _ (S : Setting) (hash_order : List ℕ → List ℕ) where
  open S use {K, V}

  -- The calls of `send`, in the order of their pushes.
  unfoldable pub send_all : List (List K × V) → Channel S → Channel S
  unfolding send
  send_all [] c = c
  send_all ((ks, v) ∷ xs) c = send_all xs (send S hash_order ks v c).0

  -- `sync_pop` without interference, with fuel that is enough.
  unfoldable pub recv : Channel S → Receiver S → At S hash_order
  unfolding sync_pop measure
  recv c r = sync_pop S hash_order (suc (measure S hash_order (c, r, drain))) (c, r, drain)

  -- What the loop of the test does with the result of `recv`: it drops the message at once.
  unfoldable pub after_recv :
      (Channel S → Receiver S → Option (List (List K × V)))
      → At S hash_order
      → Option (List (List K × V))
  unfolding new_message drop_message
  after_recv rest (c, r, done none) = some []
  after_recv rest (c, r, done (some (ks, v))) =
      elim (rest (drop_message S hash_order (new_message S hash_order v ks) c) r) [
        | none ↦ none
        | some xs ↦ some ((ks, v) ∷ xs)
      ]
  after_recv rest _ = none

  -- The messages received until `Closed`, for a number of rounds; `none` if they do not suffice, or
  -- where `recv` blocks or panics.
  unfoldable pub consume : ℕ → Channel S → Receiver S → Option (List (List K × V))
  unfolding recv after_recv
  consume zero c r = none
  consume (suc rounds) c r = after_recv (consume rounds) (recv c r)

  -- `test_basic`, where the senders are through before the first `recv`
  unfoldable pub test_basic : ℕ → List (List K × V) → Option (List (List K × V))
  unfolding channel send_all drop_senders consume
  test_basic rounds xs =
      consume rounds (drop_senders S hash_order (send_all xs (channel S hash_order).0))
        (channel S hash_order).1
