-- ===== src/KvMpscMultik/OneKey/Tests.antt =====
-- The conflict manager on concrete messages with one key.
use pa_queue_and_chan.Prelude.{ℕ, ◌≡◌, refl, arith, Option, List, ok, contains, ℕ_discrete}
use pa_queue_and_chan.KvMpscMultik.Conflict.{ConflictManager}
use pa_queue_and_chan.KvMpscMultik.Manager.{new}
use pa_queue_and_chan.KvMpscMultik.OneKey.Locks.{Locks, arrive, Step, free, as_keys}
use pa_queue_and_chan.KvMpscMultik.OneKey.Implements.{Implements, new-Implements}
use pa_queue_and_chan.KvMpscMultik.OneKey.Refines.{perform, perform_refines}

abbrev same_order : List ℕ → List ℕ
same_order ids = ids

abbrev same_lists : (id : ℕ) (ids : List ℕ) → contains id (same_order ids) ≡ contains id ids
same_lists id ids = refl

perform_refines_example :
    (answer : Option (ℕ × ℕ)) × (l : Locks ℕ ℕ) × (m : ConflictManager ℕ ℕ) × (perform ℕ_discrete
        same_order
        (arrive 1 10)
        new
      ≡ ok (as_keys answer, m))
    × Step ℕ_discrete free (arrive 1 10) answer l
    × Implements ℕ_discrete l m
perform_refines_example =
    perform_refines ℕ_discrete same_order same_lists free new (arrive 1 10)
      (new-Implements ℕ_discrete) (omega arith)
