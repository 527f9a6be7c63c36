-- ===== src/KvMpsc/Quiet.antt =====
-- kv_mpsc.rs: the steps of `sync_pop` that take nothing out of a queue.
use pa_queue_and_chan.Prelude.{◌≡◌, some, arith, []}
use pa_queue_and_chan.External.Setting.{Setting}
use pa_queue_and_chan.KvMpsc.Defs.{Channel, Receiver, Pc, drain, pop_q, waiting, At, sync_pop_step}
use pa_queue_and_chan.KvMpsc.System.{returned}

module _ (S : Setting) where
  abbrev pub IsQuiet : Pc S → Type 0
  IsQuiet drain = ⊥
  IsQuiet pop_q = ⊥
  IsQuiet _ = Unit

  pub sync_pop-quiet :
      (c : Channel S) (r : Receiver S) (p : Pc S) (n : At S)
      → IsQuiet p
      → sync_pop_step S c r p ≡ some n
      → (n.1.using_keys ≡ r.using_keys)
        × (n.0.q ≡ c.q)
        × (n.0.drop_key_q ≡ c.drop_key_q)
        × (returned S n.2 ≡ [])
  unfolding sync_pop_step
  sync_pop-quiet c r drain n i h = absurd i
  sync_pop-quiet c r (waiting l) n i h = ground arith
  sync_pop-quiet c r p n i h = ground arith
