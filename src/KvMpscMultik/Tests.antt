-- ===== src/KvMpscMultik/Tests.antt =====
-- The conflict manager on concrete messages.
use pa_queue_and_chan.Prelude.{ℕ, none, List, [], ◌∷◌, Outcome, ok, panic, ℕ_discrete, count, arith}
use pa_queue_and_chan.KvMpscMultik.Conflict.{ConflictManager}
use pa_queue_and_chan.KvMpscMultik.Manager.{handle_new_msg, new, unuse_key}
use pa_queue_and_chan.KvMpscMultik.Using.{Distinct}

abbrev pub same_order : List ℕ → List ℕ
same_order ids = ids

abbrev pub value_or {ℓ} : {A : Type ℓ} → Outcome A → A → A
value_or (ok a) b = a
value_or panic b = b

abbrev pub handle : List ℕ → ℕ → ConflictManager ℕ ℕ → ConflictManager ℕ ℕ
handle ks v m = (value_or (handle_new_msg ℕ_discrete ks v m) (none, m)).1

-- A message with key 1 is held, and one with keys 1 and 2 waits.
abbrev pub one_waits : ConflictManager ℕ ℕ
one_waits = handle (1 ∷ 2 ∷ []) 20 (handle (1 ∷ []) 10 new)

-- The manager after the release of key 1, by the operation itself.
abbrev pub released : ConflictManager ℕ ℕ
released = (value_or (unuse_key ℕ_discrete same_order 1 one_waits) (none, one_waits)).1

pub one-Distinct : Distinct ℕ_discrete (1 ∷ [])
unfolding count
one-Distinct k = ground arith

pub two-Distinct : Distinct ℕ_discrete (1 ∷ 2 ∷ [])
unfolding count
two-Distinct k = ground arith
