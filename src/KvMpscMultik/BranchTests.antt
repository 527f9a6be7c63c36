-- ===== src/KvMpscMultik/BranchTests.antt =====
-- Arrivals and releases of messages with several keys, and a channel for them, at concrete messages.
use mathlib.Core.List.{Perm}
use mathlib.Core.Logic.{ite}
use pa_queue_and_chan.Prelude.{
  ℕ, ◌+◌, ◌≡◌, ◌⊎◌, refl, subst, arith, true, Option, none, some, List, [], ◌∷◌, ℕ_discrete, get,
  insert, remove, contains, without, count, panic, Map, ◌++◌, ◌<◌,
}
use pa_queue_and_chan.KvMpscMultik.Conflict.{
  WaitingMsg, ConflictManager, add_kstate, new_state, add_waitingmsg, set_use, set_unuse,
  try_set_use, any_using, try_set_all, find_msg, remove_waitingmsg, take_keys, take_kv,
}
use pa_queue_and_chan.KvMpscMultik.Manager.{
  key_using, conflicts, entry, new_waiting_msg, wait_keys, become_waiting, use_keys, handle_new_msg,
  stop_waiting, try_get_stop_waiting_msg, after_search, unuse_key, new,
}
use pa_queue_and_chan.KvMpscMultik.Cells.{flag}
use pa_queue_and_chan.KvMpscMultik.Using.{Sound, Sound-held, listed}
use pa_queue_and_chan.KvMpscMultik.Arrival.{new-Sound, handle_new_msg-Sound}
use pa_queue_and_chan.KvMpscMultik.Arrives.{Arrives, arrival_cases}
use pa_queue_and_chan.KvMpscMultik.Releases.{HandsOver, Frees, key_released}
use pa_queue_and_chan.KvMpscMultik.Channels.{drain, channel, inner_send, sync_pop_step}
use pa_queue_and_chan.KvMpscMultik.Termination.{sync_pop, measure, multikey_pop_stops}
use pa_queue_and_chan.KvMpscMultik.Consume.{test_basic}
use pa_queue_and_chan.KvMpscMultik.Received.{AllDistinct, all_keys_received}
use pa_queue_and_chan.KvMpscMultik.Frames.{IsWaiting}
use pa_queue_and_chan.KvMpscMultik.OneKey.Books.{values, Unique}
use pa_queue_and_chan.KvMpscMultik.Accounts.{Stored}
use pa_queue_and_chan.KvMpscMultik.Runs.{
  Run, start, arrives, releases, multikey_none_lost, holder_exists,
}
use pa_queue_and_chan.KvMpscMultik.Stale.{delivered_id_panics}
use pa_queue_and_chan.KvMpscMultik.Scenarios.{numbers}
use pa_queue_and_chan.KvMpscMultik.Tests.{
  same_order, handle, one_waits, released, one-Distinct, two-Distinct,
}

-- The message with key 1 is held.
abbrev one_held : ConflictManager ℕ ℕ
one_held = handle (1 ∷ []) 10 new

one_held-Sound : Sound ℕ_discrete (λ k. ite (ℕ_discrete 1 k) 1 0 + 0) one_held
unfolding handle_new_msg conflicts key_using use_keys entry get insert remove new_state new set_use
    ℕ_discrete count
one_held-Sound =
    Sound-held ℕ_discrete _ _ (λ k. omega arith)
      (handle_new_msg-Sound ℕ_discrete (λ k. 0) (1 ∷ []) 10 new one_held (some (1 ∷ [], 10)) refl
        one-Distinct (new-Sound ℕ_discrete))

-- Another, with keys 1 and 2, has to wait.
arrival_cases_example :
    Arrives ℕ_discrete (λ k. ite (ℕ_discrete 1 k) 1 0 + 0) (1 ∷ 2 ∷ []) 20 one_held
unfolding handle_new_msg conflicts key_using use_keys entry get insert remove new_state new set_use
    ℕ_discrete
arrival_cases_example =
    arrival_cases ℕ_discrete (λ k. ite (ℕ_discrete 1 k) 1 0 + 0) (1 ∷ 2 ∷ []) 20 one_held
      one_held-Sound two-Distinct (omega arith)

one_waits-Sound : Sound ℕ_discrete (λ k. ite (ℕ_discrete 1 k) 1 0 + 0) one_waits
unfolding handle_new_msg conflicts key_using become_waiting new_waiting_msg wait_keys use_keys entry
    get insert remove new_state new add_kstate add_waitingmsg without contains set_use ℕ_discrete
    count
one_waits-Sound =
    Sound-held ℕ_discrete _ _ (λ k. omega arith)
      (handle_new_msg-Sound ℕ_discrete _ (1 ∷ 2 ∷ []) 20 one_held one_waits none refl two-Distinct
        one_held-Sound)

one_waits-live :
    (id : ℕ)
    → listed ℕ_discrete id 1 one_waits ≡ true
    → (msg : WaitingMsg ℕ) × (get ℕ_discrete id one_waits.waitingmsgs ≡ some msg)
unfolding handle_new_msg conflicts key_using become_waiting new_waiting_msg wait_keys use_keys entry
    get insert remove new_state new add_kstate add_waitingmsg without contains set_use ℕ_discrete
    flag
one_waits-live id h = elim (ℕ_discrete 0 id) [
  | yes p ↦
      subst (λ i. (msg : WaitingMsg ℕ) × (get ℕ_discrete i one_waits.waitingmsgs ≡ some msg)) p
        (_, refl)
  | no n ↦ ground arith
]

-- It gets key 1 when that is released.
key_released_example :
    HandsOver ℕ_discrete same_order (λ id ids. refl) (λ k. 0) 1 one_waits
    ⊎ Frees ℕ_discrete same_order (λ id ids. refl) (λ k. 0) 1 one_waits
key_released_example =
    key_released ℕ_discrete same_order (λ id ids. refl) (λ k. 0) 1 one_waits one_waits-Sound
      one_waits-live

-- Two messages with a common key, and one that has no key.
abbrev sent_msgs : List (List ℕ × ℕ)
sent_msgs = (1 ∷ 2 ∷ [], 10) ∷ (2 ∷ 1 ∷ [], 20) ∷ ([], 30) ∷ []

sent_msgs-AllDistinct : AllDistinct numbers same_order (λ id ids. refl) sent_msgs
unfolding count
sent_msgs-AllDistinct = (two-Distinct, ((λ k. ground arith), ((λ k. omega arith), tt)))

all_keys_received_example : test_basic numbers same_order 4 sent_msgs ≡ some sent_msgs
all_keys_received_example =
    all_keys_received numbers same_order (λ id ids. refl) sent_msgs sent_msgs-AllDistinct

multikey_pop_stops_example :
    let (c, r) = channel numbers same_order in
    let b =
      sync_pop numbers same_order 100 (inner_send numbers same_order (1 ∷ 2 ∷ []) 7 c, r, drain) in
    sync_pop_step numbers same_order b.0 b.1 b.2 ≡ none
unfolding measure channel inner_send
multikey_pop_stops_example =
    let (c, r) = channel numbers same_order in
    multikey_pop_stops numbers same_order 100
      (inner_send numbers same_order (1 ∷ 2 ∷ []) 7 c, r, drain) (omega arith)

-- A message with key 1 is returned, one with keys 1 and 2 waits.
waiting-Run :
    Run ℕ_discrete same_order one_waits
      (1 ∷ [])
      ((1 ∷ 2 ∷ [], 20) ∷ (1 ∷ [], 10) ∷ [])
      ((1 ∷ [], 10) ∷ [])
unfolding handle_new_msg conflicts key_using become_waiting new_waiting_msg wait_keys use_keys entry
    get insert remove new_state new add_kstate add_waitingmsg without contains set_use ℕ_discrete
waiting-Run =
    arrives (1 ∷ 2 ∷ []) 20 none _
      (arrives (1 ∷ []) 10 (some (1 ∷ [], 10)) _ start one-Distinct (omega arith) refl) two-Distinct
      (omega arith) refl

-- It is returned when key 1 is released.
released-Run :
    Run ℕ_discrete same_order released
      (1 ∷ 2 ∷ [])
      ((1 ∷ 2 ∷ [], 20) ∷ (1 ∷ [], 10) ∷ [])
      ((1 ∷ 2 ∷ [], 20) ∷ (1 ∷ [], 10) ∷ [])
unfolding unuse_key handle_new_msg conflicts key_using become_waiting new_waiting_msg wait_keys
    use_keys entry get insert remove new_state new add_kstate add_waitingmsg without contains
    set_use set_unuse try_get_stop_waiting_msg find_msg any_using try_set_all try_set_use
    stop_waiting remove_waitingmsg after_search take_kv take_keys ℕ_discrete
released-Run = releases 1 [] [] (some (1 ∷ 2 ∷ [], 20)) _ waiting-Run refl refl

multikey_none_lost_example :
    (waiting : Map ℕ (List ℕ × ℕ)) × Unique waiting
    × Perm
        ((1 ∷ 2 ∷ [], 20) ∷ (1 ∷ [], 10) ∷ [])
        (((1 ∷ 2 ∷ [], 20) ∷ (1 ∷ [], 10) ∷ []) ++ values waiting)
    × ((id : ℕ) → Stored ℕ_discrete released id (get ℕ_discrete id waiting))
multikey_none_lost_example = multikey_none_lost ℕ_discrete same_order (λ id ids. refl) released-Run

one_waits-IsWaiting : IsWaiting one_waits 0 (1 ∷ 2 ∷ []) 20
unfolding handle_new_msg conflicts key_using become_waiting new_waiting_msg wait_keys use_keys entry
    get insert remove new_state new add_kstate add_waitingmsg without contains set_use ℕ_discrete
    take_kv take_keys
one_waits-IsWaiting = (_, refl, refl)

holder_exists_example :
    (k : ℕ) × (0 < count ℕ_discrete k (1 ∷ 2 ∷ []))
    × (count ℕ_discrete k (1 ∷ []) ≡ 1)
    × (key_using ℕ_discrete k one_waits ≡ true)
holder_exists_example =
    holder_exists ℕ_discrete same_order (λ id ids. refl) 0 (1 ∷ 2 ∷ []) 20 waiting-Run
      one_waits-IsWaiting

-- The message with keys 1 and 2 has waited for key 1; when it is returned, key 2 still lists it.
delivered_id_panics_example :
    (◌≡◌ {A = Option (List ℕ × ℕ)} (some (1 ∷ 2 ∷ [], 20)) (some (1 ∷ 2 ∷ [], 20)))
    × (0 < count ℕ_discrete 2 (1 ∷ 2 ∷ []))
    × (unuse_key ℕ_discrete same_order 2 released ≡ panic)
unfolding unuse_key handle_new_msg conflicts key_using become_waiting new_waiting_msg wait_keys
    use_keys entry get insert remove new_state new add_kstate add_waitingmsg without contains
    set_use set_unuse try_get_stop_waiting_msg find_msg any_using try_set_all try_set_use
    stop_waiting remove_waitingmsg after_search take_kv take_keys ℕ_discrete
delivered_id_panics_example =
    delivered_id_panics ℕ_discrete same_order (λ id ids. refl) 1 2 [] [] 1 0 [] (1 ∷ 2 ∷ []) 20
      (some (1 ∷ 2 ∷ [], 20)) released waiting-Run refl refl one_waits-IsWaiting refl
      (λ e. ground arith) refl refl
