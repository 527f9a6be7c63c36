-- ===== src/KvMpscMultik/Manager.antt =====
-- kv_mpsc_multik.rs: the operations of `ConflictManager`. A `KeyVec` is the list of its items: `push`
-- and `pop` are at its end. `hash_order` is the order in which a `HashMap` lists its keys.
use mathlib.Core.List.{reverse}
use pa_queue_and_chan.Prelude.{
  ℕ, suc, ◌+◌, Bool, false, not, Option, none, some, List, [], ◌∷◌, Map, get, insert, remove,
  is_empty, is_some, ltb, Outcome, ok, ◌>>=◌, ◌>>◌, assert, unwrap, if◌then◌else◌, ℕ_discrete, ◌||◌,
}
use pa_queue_and_chan.KvMpscMultik.Conflict.{
  KeyStateInner, WaitingMsg, ConflictManager, id_bound, update, add_kstate, take_kv, new_state,
  add_waitingmsg, remove_waitingmsg, set_use, set_unuse, find_msg,
}

module _ {K V : Type 0} (key_eq : Discrete K) where
  -- What waits or is in use is looked up by `keys_states.get`.
  unfoldable pub key_using : K → ConflictManager K V → Bool
  key_using k m = elim (get key_eq k m.keys_states) [ none ↦ false | some r ↦ (m.cells r).using ]

  -- The first loop of `handle_new_msg`: does some key belong to an active message?
  unfoldable pub conflicts : List K → ConflictManager K V → Bool
  unfolding key_using
  conflicts [] m = false
  conflicts (k ∷ ks) m = key_using k m || conflicts ks m

  -- `keys_states.entry(k.clone()).or_insert_with(||KeyStateShared::new(k))`
  unfoldable pub entry : K → ConflictManager K V → ℕ × ConflictManager K V
  unfolding new_state
  entry k m = elim (get key_eq k m.keys_states) [
    | some r ↦ (r, m)
    | none ↦ (
      m.next_cell,
      record m {
        keys_states = insert key_eq k m.next_cell m.keys_states;
        cells = update m.cells m.next_cell (new_state k);
        next_cell = suc m.next_cell;
      },
    )
  ]

  -- `self.next_waitingmsg_id.add(1)` panics on overflow.
  unfoldable pub new_waiting_msg :
      V → ConflictManager K V → Outcome (WaitingMsg V × ConflictManager K V)
  new_waiting_msg v m = do
    assert (ltb (m.next_waitingmsg_id + 1) id_bound)
    ok (
      record { ks_v = some ([], v); id = m.next_waitingmsg_id },
      record m { next_waitingmsg_id = m.next_waitingmsg_id + 1 },
    )

  -- `while let Some(k)=ks.pop()`, over the keys from the last on.
  unfoldable pub wait_keys :
      List K → WaitingMsg V → ConflictManager K V → Outcome (WaitingMsg V × ConflictManager K V)
  unfolding entry add_kstate add_waitingmsg
  wait_keys [] msg m = ok (msg, m)
  wait_keys (k ∷ ks) msg m = do
    let e = entry k m
    msg' ← add_kstate e.0 msg
    cells ← add_waitingmsg e.0 (some msg') e.1.cells
    wait_keys ks msg' (record (e.1) { cells = cells })

  unfoldable pub become_waiting : List K → V → ConflictManager K V → Outcome (ConflictManager K V)
  unfolding new_waiting_msg wait_keys
  become_waiting ks v m = do
    new ← new_waiting_msg v m
    filled ← wait_keys (reverse ks) new.0 new.1
    assert (not (is_some (get ℕ_discrete filled.0.id filled.1.waitingmsgs)))
    ok (record (filled.1) {
      waitingmsgs = insert ℕ_discrete filled.0.id filled.0 filled.1.waitingmsgs;
    })

  -- `for k in &ks`: the keys become keys in use.
  unfoldable pub use_keys : List K → ConflictManager K V → Outcome (ConflictManager K V)
  unfolding entry set_use
  use_keys [] m = ok m
  use_keys (k ∷ ks) m = do
    let e = entry k m
    cells ← set_use e.0 e.1.cells
    use_keys ks (record (e.1) { cells = cells })

  unfoldable pub handle_new_msg :
      List K → V → ConflictManager K V → Outcome (Option (List K × V) × ConflictManager K V)
  unfolding conflicts become_waiting use_keys
  handle_new_msg ks v m =
      if conflicts ks m
      then (become_waiting ks v m >>= λ m'. ok (none, m'))
      else (use_keys ks m >>= λ m'. ok (some (ks, v), m'))

  unfoldable pub waitingmsgs_exist : ConflictManager K V → Bool
  waitingmsgs_exist m = not (is_empty m.waitingmsgs)

unfoldable pub new : {K V : Type 0} → ConflictManager K V
new = record {
  waitingmsgs = [];
  keys_states = [];
  next_waitingmsg_id = 0;
  cells = λ _. record { k = none; using = false; waitingmsgs = [] };
  next_cell = 0;
}

-- The end of `try_get_stop_waiting_msg`, from what the loop has found.
unfoldable pub stop_waiting :
    {K : Type 0} → ℕ → Option ℕ × (ℕ → KeyStateInner K) → Outcome (Option ℕ × (ℕ → KeyStateInner K))
unfolding set_use remove_waitingmsg
stop_waiting r (none, cells) = ok (none, cells)
stop_waiting r (some id, cells) = do
  cells' ← set_use r cells
  cells'' ← remove_waitingmsg r id cells'
  ok (some id, cells'')

module _ {K V : Type 0} (key_eq : Discrete K) (hash_order : List ℕ → List ℕ) where
  unfoldable pub try_get_stop_waiting_msg :
      ℕ → Map ℕ (WaitingMsg V) → (ℕ → KeyStateInner K) → Outcome (Option ℕ × (ℕ → KeyStateInner K))
  unfolding find_msg stop_waiting
  try_get_stop_waiting_msg r msgs cells =
      find_msg r msgs (hash_order (cells r).waitingmsgs) cells >>= stop_waiting r

  -- The rest of the body of `unuse_all_droped_key`'s loop, from what that search returns.
  unfoldable pub after_search :
      K
      → ℕ
      → ConflictManager K V
      → Option ℕ × (ℕ → KeyStateInner K)
      → Outcome (Option (List K × V) × ConflictManager K V)
  unfolding take_kv
  after_search k r m (some id, cells) = do
    msg ← unwrap (get ℕ_discrete id m.waitingmsgs)
    kv ← take_kv cells msg
    ok (some kv, record m { waitingmsgs = remove ℕ_discrete id m.waitingmsgs; cells = cells })
  after_search k r m (none, cells) = ok (
    none,
    record m {
      keys_states =
          if is_empty (cells r).waitingmsgs then remove key_eq k m.keys_states else m.keys_states;
      cells = cells;
    },
  )

  -- One round of `while let Some(k)=dropq.pop()`.
  unfoldable pub unuse_key :
      K → ConflictManager K V → Outcome (Option (List K × V) × ConflictManager K V)
  unfolding set_unuse try_get_stop_waiting_msg after_search
  unuse_key k m = do
    r ← unwrap (get key_eq k m.keys_states)
    cells ← set_unuse r m.cells
    found ← try_get_stop_waiting_msg r m.waitingmsgs cells
    after_search k r m found

  -- `unuse_all_droped_key`, given the dropped keys in their order; the keys that stay queued are
  -- returned too.
  unfoldable pub unuse_all_droped_key :
      List K → ConflictManager K V → Outcome (Option (List K × V) × List K × ConflictManager K V)
  unfolding unuse_key
  unuse_all_droped_key [] m = ok (none, [], m)
  unuse_all_droped_key (k ∷ ks) m = unuse_key k m >>= λ r. elim (r.0) [
    | some kv ↦ ok (some kv, ks, r.1)
    | none ↦ unuse_all_droped_key ks r.1
  ]
