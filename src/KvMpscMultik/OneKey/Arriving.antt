-- ===== src/KvMpscMultik/OneKey/Arriving.antt =====
-- kv_mpsc_multik.rs: what `handle_new_msg` does to a message of one key.
use pa_queue_and_chan.Prelude.{
  ℕ, ◌+◌, ◌<◌, ◌≡◌, refl, ◌∙◌, arith, true, false, none, some, [], ◌∷◌, get, insert, ok, ℕ_discrete,
  ltb,
}
use pa_queue_and_chan.KvMpscMultik.Conflict.{
  ConflictManager, id_bound, update, add_kstate, add_waitingmsg, set_use,
}
use pa_queue_and_chan.KvMpscMultik.Manager.{
  conflicts, entry, new_waiting_msg, wait_keys, become_waiting, use_keys, handle_new_msg,
}
use pa_queue_and_chan.KvMpscMultik.Cells.{with_cell, flag, flag-some, key_using-flag}
use pa_queue_and_chan.KvMpscMultik.Waits.{listing}

below_bound : (n : ℕ) → n + 1 < id_bound → ltb (n + 1) id_bound ≡ true
below_bound n h = ground arith

module _ {K V : Type 0} (key_eq : Discrete K) where
  -- A message whose key is free is returned, and its key is then in use.
  pub handle-free :
      (k : K) (v : V) (m : ConflictManager K V)
      → flag key_eq (λ c. c.using) k m ≡ false
      → ((entry key_eq k m).1.cells (entry key_eq k m).0).using ≡ false
      → handle_new_msg key_eq (k ∷ []) v m
        ≡ ok (
          some (k ∷ [], v),
          with_cell key_eq
              (entry key_eq k m).0
              (record ((entry key_eq k m).1.cells (entry key_eq k m).0) { using = true })
              (entry key_eq k m).1,
        )
  unfolding handle_new_msg conflicts use_keys set_use
  handle-free k v m f u = rw (key_using-flag key_eq k m ∙ f, u) refl

  entry-found :
      (k : K) (r : ℕ) (m : ConflictManager K V)
      → get key_eq k m.keys_states ≡ some r
      → entry key_eq k m ≡ (r, m)
  unfolding entry
  entry-found k r m e = rw (e, entry) refl

  -- A message whose key is in use waits, and the state of its key lists it.
  pub handle-used :
      (k : K) (v : V) (r : ℕ) (m : ConflictManager K V)
      → get key_eq k m.keys_states ≡ some r
      → (m.cells r).using ≡ true
      → m.next_waitingmsg_id + 1 < id_bound
      → get ℕ_discrete m.next_waitingmsg_id m.waitingmsgs ≡ none
      → handle_new_msg key_eq (k ∷ []) v m
        ≡ ok (
          none,
          record m {
            waitingmsgs =
                insert ℕ_discrete m.next_waitingmsg_id
                  (record { ks_v = some (r ∷ [], v); id = m.next_waitingmsg_id })
                  m.waitingmsgs;
            next_waitingmsg_id = m.next_waitingmsg_id + 1;
            cells = update m.cells r (listing m.next_waitingmsg_id (m.cells r));
          },
        )
  unfolding handle_new_msg conflicts become_waiting new_waiting_msg wait_keys add_kstate
      add_waitingmsg
  handle-used k v r m e u b g =
      rw
        (
          key_using-flag key_eq k m ∙ flag-some key_eq (λ c. c.using) k r m e ∙ u,
          become_waiting,
          below_bound m.next_waitingmsg_id b,
          entry-found k r (record m { next_waitingmsg_id = m.next_waitingmsg_id + 1 }) e,
          g,
        )
        refl
