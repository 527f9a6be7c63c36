-- ===== src/KvMpscMultik/KeyVecs.antt =====
-- kv_mpsc_multik.rs, its test `multikey_conflict`: two messages with several keys each.
use mathlib.Core.List.{reverse}
use pa_queue_and_chan.Prelude.{
  ℕ, zero, suc, ◌+◌, ◌≡◌, refl, Option, none, some, List, [], ◌∷◌, ◌++◌, get, insert, remove,
  contains, without, Outcome, ok, panic, ◌>>=◌, ℕ_discrete,
}
use pa_queue_and_chan.KvMpscMultik.Conflict.{
  add_kstate, take_keys, take_kv, new_state, add_waitingmsg, remove_waitingmsg, set_use, set_unuse,
  try_set_use, any_using, try_set_all, find_msg,
}
use pa_queue_and_chan.KvMpscMultik.Manager.{
  key_using, conflicts, entry, new_waiting_msg, wait_keys, become_waiting, use_keys, handle_new_msg,
  new, stop_waiting, try_get_stop_waiting_msg, after_search, unuse_key, waitingmsgs_exist,
}
use pa_queue_and_chan.KvMpscMultik.Channels.{
  Pc, drain, waiting, done, At, channel, notify, inner_send, new_message, push_all, drop_message,
  after_call, sync_pop_step,
}
use pa_queue_and_chan.KvMpscMultik.Scenarios.{numbers, same_order, turns}

-- The numbers below `n`.
count_up : ℕ → List ℕ
count_up zero = []
count_up (suc n) = count_up n ++ n ∷ []

-- `vec2.push(vec1.pop().unwrap())`, a number of times
move : ℕ → List ℕ → List ℕ → Outcome (List ℕ × List ℕ)
move zero vec1 vec2 = ok (vec1, vec2)
move (suc n) vec1 vec2 = elim (reverse vec1) [
  | [] ↦ panic
  | (x ∷ xs) ↦ move n (reverse xs) (vec2 ++ x ∷ [])
]

-- The entries from `i` on become `100+i`, a number of them.
change : ℕ → ℕ → List ℕ → List ℕ
change i zero v = v
change i (suc n) [] = []
change i (suc n) (x ∷ v) = (100 + i) ∷ change (suc i) n v

-- The keys of both messages: `vec1len`, `vec2len` and `change_2_conflict_cnt` are random numbers.
unfoldable key_vecs : ℕ → ℕ → ℕ → Outcome (List ℕ × List ℕ)
unfolding count_up move change
key_vecs vec1len vec2len changes =
    move vec2len (count_up vec1len) [] >>= λ v. ok (change 0 changes v.0, change 0 changes v.1)

-- Both messages are sent, the first is received and kept, and `recv` is called again.
unfoldable second_recv : List ℕ × List ℕ → At numbers same_order
unfolding turns
second_recv (vec1, vec2) =
    let (c, r) = channel numbers same_order in
    let c' = inner_send numbers same_order vec2 1 (inner_send numbers same_order vec1 1 c) in
    let (c1, r1, p) = turns 10 (c', r, drain) in turns 20 (c1, r1, drain)

-- Then the first message is dropped.
unfoldable multikey_conflict : List ℕ × List ℕ → At numbers same_order
unfolding second_recv
multikey_conflict (vec1, vec2) =
    let (c, r, p) = second_recv (vec1, vec2) in
    turns 20 (drop_message numbers same_order (new_message numbers same_order 1 vec1) c, r, p)

abbrev pc_of : Outcome (At numbers same_order) → Option (Pc numbers)
pc_of panic = none
pc_of (ok a) = some a.2

-- With a common key, the second message waits and is received once the first is dropped.
second_recv-waits :
    (pc_of (key_vecs 5 2 1 >>= λ v. ok (second_recv v)) ≡ some (waiting tt))
    × (pc_of (key_vecs 5 2 1 >>= λ v. ok (multikey_conflict v))
        ≡ some (done (some (100 ∷ 3 ∷ [], 1))))
unfolding key_vecs count_up move change second_recv multikey_conflict turns sync_pop_step
    waitingmsgs_exist channel inner_send notify drop_message new_message push_all after_call
    handle_new_msg conflicts key_using become_waiting new_waiting_msg wait_keys use_keys entry get
    insert remove new_state new add_kstate add_waitingmsg without contains set_use set_unuse
    try_get_stop_waiting_msg find_msg any_using try_set_all try_set_use stop_waiting
    remove_waitingmsg after_search take_kv take_keys unuse_key ℕ_discrete
second_recv-waits = (refl, refl)

-- Without one, it is received while the first is kept.
second_recv-received :
    pc_of (key_vecs 5 2 0 >>= λ v. ok (second_recv v)) ≡ some (done (some (4 ∷ 3 ∷ [], 1)))
unfolding key_vecs count_up move change second_recv turns sync_pop_step waitingmsgs_exist channel
    inner_send notify after_call handle_new_msg conflicts key_using use_keys entry get insert remove
    new_state new set_use ℕ_discrete
second_recv-received = refl
